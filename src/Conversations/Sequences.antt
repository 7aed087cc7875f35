-- ===== src/Conversations/Sequences.antt =====
-- Questions and forks of all users, one after the other: every request returns.
use wikimind.Prelude.{
  ℤ, ℕ, String, ◌≡◌, refl, true, Option, none, some, List, [], ◌∷◌, is_some, get_row, Result,
}
use wikimind.Conversations.{Conversation, Query, Db, QueryRequest, Agent, materialize_thread}
use wikimind.Conversations.Asking.{answer, fork_conversation}
use wikimind.Conversations.Growth.{IsGrown}
use wikimind.Conversations.Ends.{materialize_thread_ends}
use wikimind.Conversations.Requests.{IsReturning, answer_returns, fork_conversation_returns}

pub data Call : Type 0 where
  question : (new_id query_id : String) → ℕ → QueryRequest → (user_id : String) → Call
  fork : (fork_id query_id : String) → ℕ → String → ℤ → String → (user_id : String) → Call

unfoldable pub perform : Agent → Call → Db → Option (Result Query × Db)
perform agent (question new_id query_id now request user_id) db =
    answer agent new_id query_id now request user_id db
perform agent (fork fork_id query_id now conversation_id turn_index text user_id) db =
    fork_conversation agent fork_id query_id now conversation_id turn_index text user_id db

unfoldable pub perform_all : Agent → List Call → Db → Option Db
unfolding perform
perform_all agent [] db = some db
perform_all agent (call ∷ calls) db = elim (perform agent call db) [
  | none ↦ none
  | some outcome ↦ perform_all agent calls outcome.1
]

perform_returns :
    (agent : Agent) (call : Call) (db : Db)
    → IsGrown db.conversations
    → IsReturning (perform agent call db)
unfolding perform
perform_returns agent (question new_id query_id now request user_id) db g =
    answer_returns agent new_id query_id now request user_id db g
perform_returns agent (fork fork_id query_id now conversation_id turn_index text user_id) db g =
    fork_conversation_returns agent fork_id query_id now conversation_id turn_index text user_id db
      g

-- Every sequence of questions and forks, by whichever users and with whatever answers, returns from
-- a table whose ids are distinct and whose parents are older than their forks (the empty one, say).
-- It leaves such a table, and every conversation of it has a thread: no loop over the parents runs
-- for ever.
pub perform_all_ends :
    (agent : Agent) (calls : List Call) (db : Db)
    → IsGrown db.conversations
    → (after : Db) × (perform_all agent calls db ≡ some after)
      × IsGrown after.conversations
      × ((id : String) (c : Conversation)
          → get_row Conversation.id id after.conversations ≡ some c
          → is_some (materialize_thread c after) ≡ true)
unfolding perform_all
perform_all_ends agent [] db g =
    (db, refl, g, λ id c there. materialize_thread_ends id c db g there)
perform_all_ends agent (call ∷ calls) db g =
    let (outcome, e, h) = perform_returns agent call db g in
    let (after, returned, grown, threads) = perform_all_ends agent calls outcome.1 h in
    (after, rw (e, perform_all) returned, grown, threads)
