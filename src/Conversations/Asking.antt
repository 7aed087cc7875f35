-- ===== src/Conversations/Asking.antt =====
-- engine/qa_agent.py `answer` and services/query.py `fork_conversation`: a question in a
-- conversation, new, old or forked. `none` stands for a request that never returns.
use wikimind.Prelude.{
  ℤ, pos, negsuc, ℕ, String, ◌==◌, not, ◌&&◌, Option, none, some, List, [], if◌then◌else◌, get_row,
  Result, ok, err, not_found, query_error, roll_back,
}
use mathlib.Core.Option
use wikimind.Conversations.{
  Conversation, Query, Db, QueryRequest, Agent, load_prior_turns, next_turn_index, add_conversation,
  get_or_create_conversation, persist_query,
}

-- The next turn of a conversation and the turns before it: none in a new conversation.
unfoldable pub context : Agent → QueryRequest → Conversation → Db → Option (ℕ × List Query)
unfolding load_prior_turns next_turn_index
context agent request c db = elim request.conversation_id [
  | none ↦ some (0, [])
  | some _ ↦
      let next = next_turn_index c.id db in
      Option.map (λ turns. (next, turns)) (load_prior_turns agent.max_prior_turns c.id next db)
]

-- The answer is stored, or the exception goes on.
unfoldable pub store_reply :
    String → ℕ → QueryRequest → String → Conversation → Db → ℕ → Result String → Result Query × Db
unfolding persist_query
store_reply query_id now request user_id c db next (err e) = (err e, db)
store_reply query_id now request user_id c db next (ok answer) =
    persist_query
      (record {
        id = query_id;
        user_id = user_id;
        question = request.question;
        answer = answer;
        conversation_id = c.id;
        turn_index = next;
      })
      now db

unfoldable pub respond :
    Agent
    → String
    → ℕ
    → QueryRequest
    → String
    → Conversation
    → Db
    → ℕ × List Query
    → Result Query × Db
unfolding store_reply
respond agent query_id now request user_id c db ctx =
    store_reply query_id now request user_id c db ctx.0 (agent.reply user_id request.question ctx.1)

-- The question in the conversation that was found or made, if one was.
unfoldable pub answer_in :
    Agent
    → String
    → ℕ
    → QueryRequest
    → String
    → Result Conversation × Db
    → Option (Result Query × Db)
unfolding context respond
answer_in agent query_id now request user_id (err e, db) = some (err e, db)
answer_in agent query_id now request user_id (ok c, db) =
    Option.map (respond agent query_id now request user_id c db) (context agent request c db)

-- A request: what it wrote is rolled back if it raises.
unfoldable pub answer :
    Agent → String → String → ℕ → QueryRequest → String → Db → Option (Result Query × Db)
unfolding answer_in get_or_create_conversation
answer agent new_id query_id now request user_id db = Option.map (roll_back db) (
    answer_in agent query_id now request user_id
      (get_or_create_conversation new_id now request user_id db))

unfoldable pub ask_in_fork :
    Agent → String → ℕ → String → String → Result Conversation × Db → Option (Result Query × Db)
unfolding answer
ask_in_fork agent query_id now question user_id (err e, db) = some (err e, db)
ask_in_fork agent query_id now question user_id (ok fork, db) =
    answer agent fork.id query_id now
      (record { question = question; conversation_id = some fork.id }) user_id db

unfoldable pub fork_of : String → ℕ → String → ℕ → String → Conversation
fork_of fork_id now conversation_id n user_id = record {
  id = fork_id;
  user_id = user_id;
  updated_at = now;
  parent_conversation_id = some conversation_id;
  forked_at_turn_index = some n;
}

unfoldable pub fork_at :
    Agent → String → String → ℕ → String → ℤ → String → String → Db → Option (Result Query × Db)
unfolding ask_in_fork fork_of add_conversation
fork_at agent fork_id query_id now conversation_id (negsuc n) question user_id db =
    some (err (query_error "turn_index must be >= 0"), db)
fork_at agent fork_id query_id now conversation_id (pos n) question user_id db =
    Option.map (roll_back db) (
      ask_in_fork agent query_id now question user_id
        (add_conversation (fork_of fork_id now conversation_id n user_id) db))

unfoldable pub fork_conversation :
    Agent → String → String → ℕ → String → ℤ → String → String → Db → Option (Result Query × Db)
unfolding fork_at
fork_conversation agent fork_id query_id now conversation_id turn_index question user_id db =
    elim (get_row Conversation.id conversation_id db.conversations) [
      | none ↦ some (err (not_found "Conversation not found"), db)
      | some parent ↦
          if not (user_id == "") && not (parent.user_id == user_id)
          then some (err (not_found "Conversation not found"), db)
          else fork_at agent fork_id query_id now conversation_id turn_index question user_id db
    ]
