-- ===== src/Conversations.antt =====
-- engine/qa_agent.py and services/query.py: conversations, their turns and their forks. What the
-- search for context and the language model answer is given, and so are new ids and the time. The
-- table of conversations lists the newest first. Titles, and the filing of an answer as an article
-- (off unless the request or the settings ask for it), are left out.
pub mod Asking
pub mod Headings
pub mod Markdown
pub mod Filing
pub mod Growth
pub mod Ends
pub mod Requests
pub mod Sequences
pub mod Branches
pub mod Forks
mod Examples
use wikimind.Prelude.{
  ℤ, pos, negsuc, sort_by, ℕ, zero, suc, ◌-◌, String, ◌==◌, Bool, true, false, not, ◌&&◌, Option,
  none, some, List, [], ◌∷◌, ◌++◌, filter, any, leb, ltb, eqb, length, if◌then◌else◌, get_row,
  update_row, is_some, Result, ok, err, Error, not_found, query_error, integrity_error, Action,
  roll_back,
}
use mathlib.Core.Option
use mathlib.Core.List.{reverse}

pub record Conversation : Type 0 where
  pub id : String
  pub user_id : String
  pub updated_at : ℕ
  pub parent_conversation_id : Option String
  pub forked_at_turn_index : Option ℕ

pub record Query : Type 0 where
  pub id : String
  pub user_id : String
  pub question : String
  pub answer : String
  pub conversation_id : String
  pub turn_index : ℕ

pub record Db : Type 0 where
  pub conversations : List Conversation
  pub queries : List Query

pub record QueryRequest : Type 0 where
  pub question : String
  pub conversation_id : Option String

-- `reply` is the answer to a user's question after the turns before it: the retrieved articles,
-- the prompt, the model's call and the parsing of what it says.
pub record Agent : Type 0 where
  pub max_prior_turns : ℕ
  pub reply : String → String → List Query → Result String

-- `order_by(Query.turn_index.asc())`
by_turn : List Query → List Query
by_turn = sort_by (λ q r. leb q.turn_index r.turn_index)

pub turns_of : String → List Query → List Query
unfolding by_turn
turns_of conversation_id qs = by_turn (filter (λ q. q.conversation_id == conversation_id) qs)

pub turns_before : String → ℕ → List Query → List Query
unfolding by_turn
turns_before conversation_id n qs =
    by_turn (filter (λ q. q.conversation_id == conversation_id && ltb q.turn_index n) qs)

-- The `while` loop over the parents, with the reversal at its end: the ancestors, oldest first,
-- each with the turn at which it was forked. `none` stands for a loop that is not at its end yet.
pub walk : ℕ → List Conversation → Conversation → List (String × ℕ) → Option (List (String × ℕ))
walk zero cs c ancestors = none
walk (suc fuel) cs c ancestors = elim c.parent_conversation_id [
  | none ↦ some ancestors
  | some parent_id ↦ elim c.forked_at_turn_index [
    | none ↦ some ancestors
    | some fork_at ↦ elim (get_row Conversation.id parent_id cs) [
      | none ↦ some ((parent_id, fork_at) ∷ ancestors)
      | some parent ↦ walk fuel cs parent ((parent_id, fork_at) ∷ ancestors)
    ]
  ]
]

pub collect : List (String × ℕ) → List Query → List Query
unfolding turns_before
collect [] qs = []
collect (a ∷ ancestors) qs = turns_before a.0 a.1 qs ++ collect ancestors qs

-- The turns of a conversation's ancestors, before the forks.
pub inherited : Conversation → Db → Option (List Query)
unfolding walk collect
inherited c db =
    Option.map (λ ancestors. collect ancestors db.queries)
      (walk (suc (length db.conversations)) db.conversations c [])

pub materialize_thread : Conversation → Db → Option (List Query)
unfolding inherited turns_of
materialize_thread c db = Option.map (λ above. above ++ turns_of c.id db.queries) (inherited c db)

take : {A : Type 0} → ℕ → List A → List A
take zero xs = []
take (suc n) [] = []
take (suc n) (x ∷ xs) = x ∷ take n xs

drop : {A : Type 0} → ℕ → List A → List A
drop zero xs = xs
drop (suc n) [] = []
drop (suc n) (x ∷ xs) = drop n xs

-- `all_turns[-cap:] if len(all_turns) > cap else all_turns`; `[-0:]` is the whole list.
pub most_recent : ℕ → List Query → List Query
unfolding drop
most_recent cap turns =
    if ltb cap (length turns) && not (eqb cap 0) then drop (length turns - cap) turns else turns

-- The last turns of a conversation that is not forked: `desc()`, `limit(cap)`, and sorted again.
plain_turns : ℕ → String → ℕ → List Query → List Query
unfolding turns_before by_turn take
plain_turns cap id up_to qs = by_turn (take cap (reverse (turns_before id up_to qs)))

pub load_prior_turns : ℕ → String → ℕ → Db → Option (List Query)
unfolding plain_turns inherited turns_before most_recent
load_prior_turns cap id up_to db = elim (get_row Conversation.id id db.conversations) [
  | none ↦ some (plain_turns cap id up_to db.queries)
  | some c ↦ elim c.parent_conversation_id [
    | none ↦ some (plain_turns cap id up_to db.queries)
    | some _ ↦
        Option.map (λ above. most_recent cap (above ++ turns_before id up_to db.queries))
          (inherited c db)
  ]
]

last_turn : List Query → Option Query
last_turn [] = none
last_turn (q ∷ []) = some q
last_turn (q ∷ r ∷ rs) = last_turn (r ∷ rs)

-- `_next_turn_index`
pub next_turn_index : String → Db → ℕ
unfolding turns_of last_turn
next_turn_index id db = elim (last_turn (turns_of id db.queries)) [
  | none ↦ 0
  | some last ↦ suc last.turn_index
]

-- `session.add` of a new conversation, with the flush.
pub add_conversation : Conversation → Action Db Conversation
add_conversation c db =
    if is_some (get_row Conversation.id c.id db.conversations)
    then (err integrity_error, db)
    else (ok c, record db { conversations = c ∷ db.conversations })

-- `_get_or_create_conversation`
pub get_or_create_conversation : String → ℕ → QueryRequest → String → Action Db Conversation
unfolding add_conversation
get_or_create_conversation new_id now request user_id db = elim request.conversation_id [
  | some id ↦ elim (get_row Conversation.id id db.conversations) [
    | none ↦ (err (not_found "Conversation not found"), db)
    | some existing ↦ (ok existing, db)
  ]
  | none ↦
      add_conversation
        (record {
          id = new_id;
          user_id = user_id;
          updated_at = now;
          parent_conversation_id = none;
          forked_at_turn_index = none;
        })
        db
]

pub touch : ℕ → Conversation → Conversation
touch now c = record c { updated_at = now }

-- `_persist_query`, for an answer that is not filed.
pub persist_query : Query → ℕ → Action Db Query
unfolding touch
persist_query query now db =
    if any (λ q. q.id == query.id) db.queries then (err integrity_error, db) else (
      ok query,
      record {
        conversations =
            update_row Conversation.id query.conversation_id (touch now) db.conversations;
        queries = db.queries ++ (query ∷ []);
      },
    )
