-- ===== src/Conversations/Forks.antt =====
-- services/query.py `fork_conversation`, from its request to the rows that it adds.
use wikimind.Prelude.{
  ℤ, pos, negsuc, ℕ, String, ◌==◌, ◌≡◌, refl, subst, not, ◌&&◌, Option, some, ◌∷◌, any, get_row,
  update_row, Result, ok, err, Option-cases, Bool-cases, inl, inr, roll_back, eq_refl, query_error,
  not_found, integrity_error,
}
use mathlib.Core.Option
use mathlib.Core.Option.{some-injective}
use wikimind.Conversations.{
  Conversation, Query, Db, QueryRequest, Agent, touch, add_conversation, get_or_create_conversation,
  persist_query, materialize_thread,
}
use wikimind.Conversations.Asking.{
  context, store_reply, respond, answer_in, answer, ask_in_fork, fork_of, fork_at,
  fork_conversation,
}
use wikimind.Conversations.Growth.{IsGrown, parent_in}
use wikimind.Conversations.Ends.{found}
use wikimind.Conversations.Requests.{context_ends, parent_in-fork_of}
use wikimind.Conversations.Branches.{IsKept, with_fork, IsKept-with_fork}

IsKept-refl : (db : Db) → IsKept db db
unfolding IsKept
IsKept-refl db k c h = (h, refl)

-- What a request that returns leaves.
Leaves : (Db → Type 0) → Option (Result Query × Db) → Type 0
Leaves P request = (outcome : Result Query × Db) → request ≡ some outcome → P outcome.1

leaves : (P : Db → Type 0) (outcome : Result Query × Db) → P outcome.1 → Leaves P (some outcome)
unfolding Leaves
leaves P outcome h other e = subst (λ o. P o.1) (some-injective outcome other e) h

-- The database with the new conversation.
with_conversation : Conversation → Db → Db
with_conversation f db = record db { conversations = f ∷ db.conversations }

IsKept-store_reply :
    (query_id : String) (now : ℕ) (request : QueryRequest) (user_id : String) (f : Conversation)
    (db : Db) (next : ℕ) (reply : Result String)
    → IsGrown (f ∷ db.conversations)
    → IsKept db
        (roll_back db (
          roll_back
            (with_conversation f db)
            (store_reply query_id now request user_id f (with_conversation f db) next reply))).1
unfolding store_reply with_conversation IsKept get_row materialize_thread update_row
IsKept-store_reply query_id now request user_id f db next (err e) g = IsKept-refl db
IsKept-store_reply query_id now request user_id f db next (ok text) g =
    elim (Bool-cases (any (λ q. q.id == query_id) db.queries)) [
      | inl taken ↦ rw (taken, persist_query) (IsKept-refl db)
      | inr free ↦
          rw (free, persist_query, eq_refl f.id)
            (unfold touch IsGrown parent_in with_fork in
              IsKept-with_fork (touch now f)
                (record {
                  id = query_id;
                  user_id = user_id;
                  question = request.question;
                  answer = text;
                  conversation_id = f.id;
                  turn_index = next;
                })
                db g refl)
    ]

fork-found :
    (f : Conversation) (now : ℕ) (question user_id : String) (db : Db)
    → get_or_create_conversation f.id now
        (record { question = question; conversation_id = some f.id })
        user_id
        (with_conversation f db)
      ≡ (ok f, with_conversation f db)
unfolding get_or_create_conversation with_conversation get_row
fork-found f now question user_id db = rw (eq_refl f.id, get_or_create_conversation) refl

IsKept-ask_in_fork :
    (agent : Agent) (query_id : String) (now : ℕ) (question user_id : String) (f : Conversation)
    (db : Db)
    → IsGrown (f ∷ db.conversations)
    → Leaves (IsKept db) (
        Option.map
          (roll_back db)
          (ask_in_fork agent query_id now question user_id (ok f, with_conversation f db)))
unfolding ask_in_fork Leaves
IsKept-ask_in_fork agent query_id now question user_id f db g =
    let request : QueryRequest = record { question = question; conversation_id = some f.id } in
    let (ctx, e) =
      found (context agent request f (with_conversation f db))
        (context_ends agent request f (with_conversation f db) (unfold with_conversation in g)) in
    rw (ask_in_fork, answer, fork-found f now question user_id db, answer_in, e, respond)
      (leaves (IsKept db)
        (roll_back db (
          roll_back (with_conversation f db) (
            store_reply query_id now request user_id f (with_conversation f db) ctx.0
              (agent.reply user_id question ctx.1))))
        (IsKept-store_reply query_id now request user_id f db ctx.0
          (agent.reply user_id question ctx.1) g))

IsKept-fork_at :
    (agent : Agent) (fork_id query_id : String) (now : ℕ) (conversation_id : String)
    (turn_index : ℤ) (question user_id : String) (parent : Conversation) (db : Db)
    → get_row Conversation.id conversation_id db.conversations ≡ some parent
    → IsGrown db.conversations
    → Leaves
        (IsKept db)
        (fork_at agent fork_id query_id now conversation_id turn_index question user_id db)
unfolding fork_at
IsKept-fork_at agent fork_id query_id now conversation_id (negsuc n) question user_id parent db
      there g =
    leaves (IsKept db) (err (query_error "turn_index must be >= 0"), db) (IsKept-refl db)
IsKept-fork_at agent fork_id query_id now conversation_id (pos n) question user_id parent db there
      g =
    let f = fork_of fork_id now conversation_id n user_id in
    elim (Option-cases (get_row Conversation.id f.id db.conversations)) [
      | inr (taken, t) ↦
          rw (t, add_conversation, ask_in_fork)
            (leaves (IsKept db) (err integrity_error, db) (IsKept-refl db))
      | inl free ↦
          rw (free, add_conversation)
            (unfold with_conversation IsGrown in
              IsKept-ask_in_fork agent query_id now question user_id f db
                (free, parent_in-fork_of fork_id now conversation_id n user_id parent db there, g))
    ]

IsKept-fork_conversation :
    (agent : Agent) (fork_id query_id : String) (now : ℕ) (conversation_id : String)
    (turn_index : ℤ) (question user_id : String) (db : Db)
    → IsGrown db.conversations
    → Leaves (IsKept db) (
        fork_conversation agent fork_id query_id now conversation_id turn_index question user_id db)
unfolding fork_conversation
IsKept-fork_conversation agent fork_id query_id now conversation_id turn_index question user_id db
      g =
    elim (Option-cases (get_row Conversation.id conversation_id db.conversations)) [
      | inl missing ↦
          rw (missing, fork_conversation)
            (leaves (IsKept db) ((err (not_found "Conversation not found"), db)) (IsKept-refl db))
      | inr (parent, there) ↦
          elim (Bool-cases (not (user_id == "") && not (parent.user_id == user_id))) [
            | inl foreign ↦
                rw (there, foreign, fork_conversation)
                  (leaves (IsKept db) ((err (not_found "Conversation not found"), db))
                    (IsKept-refl db))
            | inr own ↦
                rw (there, own, fork_conversation)
                  (IsKept-fork_at agent fork_id query_id now conversation_id turn_index question
                    user_id parent db there g)
          ]
    ]

-- In a table whose ids are distinct and whose parents are older than their forks, a fork, whether
-- it succeeds or fails, leaves every conversation that was there as it is, and its thread too.
pub fork_conversation-IsKept :
    (agent : Agent) (fork_id query_id : String) (now : ℕ) (conversation_id : String)
    (turn_index : ℤ) (question user_id : String) (db : Db) (outcome : Result Query × Db)
    → IsGrown db.conversations
    → fork_conversation agent fork_id query_id now conversation_id turn_index question user_id db
      ≡ some outcome
    → (k : String) (c : Conversation) → get_row Conversation.id k db.conversations ≡ some c
    → (get_row Conversation.id k outcome.1.conversations ≡ some c)
      × (materialize_thread c outcome.1 ≡ materialize_thread c db)
unfolding IsKept Leaves
fork_conversation-IsKept agent fork_id query_id now conversation_id turn_index question user_id db
      outcome g e =
    IsKept-fork_conversation agent fork_id query_id now conversation_id turn_index question user_id
      db g outcome e
