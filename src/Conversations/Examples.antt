-- ===== src/Conversations/Examples.antt =====
-- A conversation of two turns, forked after the first.
use wikimind.Prelude.{
  pos, negsuc, ℕ, String, ◌≡◌, refl, true, none, some, List, [], ◌∷◌, is_some, get_row, update_row,
  ok, err, query_error,
}
use wikimind.Conversations.{Conversation, Query, Db, Agent, materialize_thread, load_prior_turns}
use wikimind.Conversations.Asking.{fork_conversation}
use wikimind.Conversations.Growth.{IsGrown}
use wikimind.Conversations.Sequences.{Call, question, fork, perform_all, perform_all_ends}
use wikimind.Conversations.Forks.{fork_conversation-IsKept}

abbrev parrot : Agent
parrot = record { max_prior_turns = 5; reply = λ user_id text turns. ok text }

abbrev first : Conversation
first = record {
  id = "c1";
  user_id = "u1";
  updated_at = 2;
  parent_conversation_id = none;
  forked_at_turn_index = none;
}

abbrev turn : String → ℕ → String → String → Query
turn id n conversation_id text = record {
  id = id;
  user_id = "u1";
  question = text;
  answer = text;
  conversation_id = conversation_id;
  turn_index = n;
}

abbrev two_turns : Db
two_turns = record {
  conversations = first ∷ [];
  queries = turn "q1" 0 "c1" "Who?" ∷ turn "q2" 1 "c1" "When?" ∷ [];
}

abbrev forked : Conversation
forked = record {
  id = "c2";
  user_id = "u1";
  updated_at = 3;
  parent_conversation_id = some "c1";
  forked_at_turn_index = some 1;
}

abbrev with_fork_turn : Db
with_fork_turn = record {
  conversations = forked ∷ first ∷ [];
  queries = turn "q1" 0 "c1" "Who?" ∷ turn "q2" 1 "c1" "When?" ∷ turn "q3" 0 "c2" "Where?" ∷ [];
}

forks :
    fork_conversation parrot "c2" "q3" 3 "c1" (pos 1) "Where?" "u1" two_turns
    ≡ some (ok (turn "q3" 0 "c2" "Where?"), with_fork_turn)
unfolding fork_conversation get_row update_row
forks = refl

thread_of_fork :
    materialize_thread forked with_fork_turn
    ≡ some (turn "q1" 0 "c1" "Who?" ∷ turn "q3" 0 "c2" "Where?" ∷ [])
unfolding materialize_thread get_row
thread_of_fork = refl

latest_turn_of_fork :
    load_prior_turns 1 "c2" 1 with_fork_turn ≡ some (turn "q3" 0 "c2" "Where?" ∷ [])
unfolding load_prior_turns get_row
latest_turn_of_fork = refl

latest_turn : load_prior_turns 1 "c1" 2 with_fork_turn ≡ some (turn "q2" 1 "c1" "When?" ∷ [])
unfolding load_prior_turns get_row
latest_turn = refl

negative_turn :
    fork_conversation parrot "c2" "q3" 3 "c1" (negsuc 0) "Where?" "u1" two_turns
    ≡ some (err (query_error "turn_index must be >= 0"), two_turns)
unfolding fork_conversation get_row
negative_turn = refl

two_turns-IsGrown : IsGrown two_turns.conversations
unfolding IsGrown get_row
two_turns-IsGrown = (refl, refl, tt)

-- The question in someone else's conversation is answered there.
abbrev calls : List Call
calls =
    fork "c2" "q3" 3 "c1" (pos 1) "Where?" "u1"
    ∷ question "c3" "q4" 4 (record { question = "Why?"; conversation_id = some "c2" }) "u2"
    ∷ []

perform_all_ends_example :
    (after : Db) × (perform_all parrot calls two_turns ≡ some after)
    × IsGrown after.conversations
    × ((id : String) (c : Conversation)
        → get_row Conversation.id id after.conversations ≡ some c
        → is_some (materialize_thread c after) ≡ true)
perform_all_ends_example = perform_all_ends parrot calls two_turns two_turns-IsGrown

found_first : get_row Conversation.id "c1" two_turns.conversations ≡ some first
unfolding get_row
found_first = refl

fork_conversation-IsKept_example :
    (get_row Conversation.id "c1" (forked ∷ first ∷ []) ≡ some first)
    × (materialize_thread first with_fork_turn ≡ materialize_thread first two_turns)
fork_conversation-IsKept_example =
    fork_conversation-IsKept parrot "c2" "q3" 3 "c1" (pos 1) "Where?" "u1" two_turns
      (ok (turn "q3" 0 "c2" "Where?"), with_fork_turn) two_turns-IsGrown forks "c1" first
      found_first
