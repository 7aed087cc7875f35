-- ===== src/Conversations/Requests.antt =====
-- engine/qa_agent.py `answer` and services/query.py `fork_conversation`: every request returns.
use wikimind.Prelude.{
  ℤ, pos, negsuc, ℕ, suc, String, ◌==◌, ◌≡◌, refl, ap, true, not, ◌&&◌, Option, some, [], any,
  is_some, get_row, length, Result, ok, err, arith, Option-cases, Bool-cases, inl, inr, roll_back,
  not_found,
}
use mathlib.Core.Option
use wikimind.Conversations.{
  Conversation, Query, Db, QueryRequest, Agent, add_conversation, inherited,
  get_or_create_conversation, persist_query, load_prior_turns, next_turn_index,
}
use wikimind.Conversations.Asking.{
  context, store_reply, respond, answer_in, answer, ask_in_fork, fork_of, fork_at,
  fork_conversation,
}
use wikimind.Conversations.Growth.{parent_in, IsGrown, IsGrown-touched}
use wikimind.Conversations.Ends.{found, walk_ends}

-- A request that returns and leaves a table in which every parent is older.
abbrev pub IsReturning : Option (Result Query × Db) → Type 0
IsReturning request =
    (outcome : Result Query × Db) × (request ≡ some outcome) × IsGrown outcome.1.conversations

prior_turns_end :
    (limit : ℕ) (id : String) (up_to : ℕ) (db : Db)
    → IsGrown db.conversations
    → is_some (load_prior_turns limit id up_to db) ≡ true
unfolding load_prior_turns inherited
prior_turns_end limit id up_to db g =
    elim (Option-cases (get_row Conversation.id id db.conversations)) [
      | inl missing ↦ rw (missing, load_prior_turns) refl
      | inr (c, there) ↦ elim (Option-cases c.parent_conversation_id) [
        | inl plain ↦ rw (there, plain, load_prior_turns) refl
        | inr (parent_id, p) ↦
            let (ancestors, e) =
              walk_ends (suc (length db.conversations)) id c db.conversations [] g there
                (omega arith) in
            rw (there, p, e, load_prior_turns) refl
      ]
    ]

pub context_ends :
    (agent : Agent) (request : QueryRequest) (c : Conversation) (db : Db)
    → IsGrown db.conversations
    → is_some (context agent request c db) ≡ true
unfolding context
context_ends agent request c db g = elim (Option-cases request.conversation_id) [
  | inl new ↦ rw new refl
  | inr (id, old) ↦
      let (turns, e) =
        found _ (prior_turns_end agent.max_prior_turns c.id (next_turn_index c.id db) db g) in
      rw (old, e) refl
]

IsGrown-persist_query :
    (query : Query) (now : ℕ) (db : Db)
    → IsGrown db.conversations
    → IsGrown (persist_query query now db).1.conversations
unfolding persist_query
IsGrown-persist_query query now db g = elim (Bool-cases (any (λ q. q.id == query.id) db.queries)) [
  | inl taken ↦ rw taken g
  | inr free ↦ rw free (IsGrown-touched query.conversation_id now db.conversations g)
]

IsGrown-store_reply :
    (query_id : String) (now : ℕ) (request : QueryRequest) (user_id : String) (c : Conversation)
    (db : Db) (next : ℕ) (reply : Result String)
    → IsGrown db.conversations
    → IsGrown (store_reply query_id now request user_id c db next reply).1.conversations
unfolding store_reply
IsGrown-store_reply query_id now request user_id c db next (err e) g = g
IsGrown-store_reply query_id now request user_id c db next (ok text) g =
    IsGrown-persist_query
      (record {
        id = query_id;
        user_id = user_id;
        question = request.question;
        answer = text;
        conversation_id = c.id;
        turn_index = next;
      })
      now db g

answer_in_returns :
    (agent : Agent) (query_id : String) (now : ℕ) (request : QueryRequest) (user_id : String)
    (r : Result Conversation × Db)
    → IsGrown r.1.conversations
    → IsReturning (answer_in agent query_id now request user_id r)
unfolding answer_in
answer_in_returns agent query_id now request user_id (err e, db) g = (_, refl, g)
answer_in_returns agent query_id now request user_id (ok c, db) g =
    let (ctx, e) = found _ (context_ends agent request c db g) in
    (
      respond agent query_id now request user_id c db ctx,
      rw e refl,
      unfold respond in
          IsGrown-store_reply query_id now request user_id c db ctx.0
            (agent.reply user_id request.question ctx.1) g,
    )

IsGrown-roll_back :
    (before : Db) (r : Result Query × Db)
    → IsGrown before.conversations
    → IsGrown r.1.conversations
    → IsGrown (roll_back before r).1.conversations
IsGrown-roll_back before (ok q, after) g h = h
IsGrown-roll_back before (err e, after) g h = g

rolled_back_returns :
    (before : Db) (request : Option (Result Query × Db))
    → IsGrown before.conversations
    → IsReturning request
    → IsReturning (Option.map (roll_back before) request)
rolled_back_returns before request g (outcome, e, h) = (
  roll_back before outcome,
  ap (Option.map (roll_back before)) e,
  IsGrown-roll_back before outcome g h,
)

pub IsGrown-add_conversation :
    (c : Conversation) (db : Db)
    → parent_in db.conversations c ≡ true
    → IsGrown db.conversations
    → IsGrown (add_conversation c db).1.conversations
unfolding add_conversation IsGrown
IsGrown-add_conversation c db parent g =
    elim (Option-cases (get_row Conversation.id c.id db.conversations)) [
      | inl free ↦ rw free (free, parent, g)
      | inr (d, taken) ↦ rw taken g
    ]

IsGrown-get_or_create_conversation :
    (new_id : String) (now : ℕ) (request : QueryRequest) (user_id : String) (db : Db)
    → IsGrown db.conversations
    → IsGrown (get_or_create_conversation new_id now request user_id db).1.conversations
unfolding get_or_create_conversation parent_in
IsGrown-get_or_create_conversation new_id now request user_id db g =
    elim (Option-cases request.conversation_id) [
      | inl new ↦ rw (new, get_or_create_conversation) (IsGrown-add_conversation _ db refl g)
      | inr (id, old) ↦ elim (Option-cases (get_row Conversation.id id db.conversations)) [
        | inl missing ↦ rw (old, missing, get_or_create_conversation) g
        | inr (c, there) ↦ rw (old, there, get_or_create_conversation) g
      ]
    ]

pub answer_returns :
    (agent : Agent) (new_id query_id : String) (now : ℕ) (request : QueryRequest) (user_id : String)
    (db : Db)
    → IsGrown db.conversations
    → IsReturning (answer agent new_id query_id now request user_id db)
unfolding answer
answer_returns agent new_id query_id now request user_id db g = rolled_back_returns db _ g (
    answer_in_returns agent query_id now request user_id _
      (IsGrown-get_or_create_conversation new_id now request user_id db g))

ask_in_fork_returns :
    (agent : Agent) (query_id : String) (now : ℕ) (question user_id : String)
    (r : Result Conversation × Db)
    → IsGrown r.1.conversations
    → IsReturning (ask_in_fork agent query_id now question user_id r)
unfolding ask_in_fork
ask_in_fork_returns agent query_id now question user_id (err e, db) g = (_, refl, g)
ask_in_fork_returns agent query_id now question user_id (ok fork, db) g =
    answer_returns agent fork.id query_id now
      (record { question = question; conversation_id = some fork.id }) user_id db g

pub parent_in-fork_of :
    (fork_id : String) (now : ℕ) (conversation_id : String) (n : ℕ) (user_id : String)
    (parent : Conversation) (db : Db)
    → get_row Conversation.id conversation_id db.conversations ≡ some parent
    → parent_in db.conversations (fork_of fork_id now conversation_id n user_id) ≡ true
unfolding parent_in fork_of
parent_in-fork_of fork_id now conversation_id n user_id parent db there = rw there refl

fork_at_returns :
    (agent : Agent) (fork_id query_id : String) (now : ℕ) (conversation_id : String)
    (turn_index : ℤ) (question user_id : String) (parent : Conversation) (db : Db)
    → get_row Conversation.id conversation_id db.conversations ≡ some parent
    → IsGrown db.conversations
    → IsReturning
        (fork_at agent fork_id query_id now conversation_id turn_index question user_id db)
unfolding fork_at
fork_at_returns agent fork_id query_id now conversation_id (negsuc n) question user_id parent db
      there g =
    (_, refl, g)
fork_at_returns agent fork_id query_id now conversation_id (pos n) question user_id parent db there
      g =
    rolled_back_returns db _ g (
      ask_in_fork_returns agent query_id now question user_id _ (
        IsGrown-add_conversation (fork_of fork_id now conversation_id n user_id) db
          (parent_in-fork_of fork_id now conversation_id n user_id parent db there) g))

pub fork_conversation_returns :
    (agent : Agent) (fork_id query_id : String) (now : ℕ) (conversation_id : String)
    (turn_index : ℤ) (question user_id : String) (db : Db)
    → IsGrown db.conversations
    → IsReturning (
        fork_conversation agent fork_id query_id now conversation_id turn_index question user_id db)
unfolding fork_conversation
fork_conversation_returns agent fork_id query_id now conversation_id turn_index question user_id db
      g =
    elim (Option-cases (get_row Conversation.id conversation_id db.conversations)) [
      | inl missing ↦
          ((err (not_found "Conversation not found"), db), rw (missing, fork_conversation) refl, g)
      | inr (parent, there) ↦
          elim (Bool-cases (not (user_id == "") && not (parent.user_id == user_id))) [
            | inl foreign ↦ (
              (err (not_found "Conversation not found"), db),
              rw (there, foreign, fork_conversation) refl,
              g,
            )
            | inr own ↦
                rw (there, own, fork_conversation)
                  (fork_at_returns agent fork_id query_id now conversation_id turn_index question
                    user_id parent db there g)
          ]
    ]
