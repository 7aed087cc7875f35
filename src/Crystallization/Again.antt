-- ===== src/Crystallization/Again.antt =====
-- services/crystallization.py: a conversation is distilled once.
use wikimind.Prelude.{
  leb, length-sort_by, ℕ, String, eq_refl, ◌≡◌, refl, sym, subst, true, Option, none, some, List,
  [], ◌∷◌, length, is_some, is_ok, get_row, get_row-update_row, get_row-append, key-get_row, Result,
  ok, err, Error, arith, Option-cases, Bool-cases, inl, inr,
}
use wikimind.Crystallization.{
  Conversation, Query, Article, Db, Services, CrystallizeResponse, Distilled, turns_of, by_turn,
  set_article, file_crystallized, response_of, store_article, with_slug, with_data, with_answer,
  distill, roll_back, already_crystallized, clear_reference, answer_or_distill, owned,
  crystallize_conversation,
}

length-by_turn : (qs : List Query) → length (by_turn qs) ≡ length qs
unfolding by_turn
length-by_turn = length-sort_by (λ q r. leb q.turn_index r.turn_index)

module _ (services : Services) (later_id conversation_id user_id : String) (later : ℕ) where
  -- If a call returned, then another one returns the same and changes nothing.
  abbrev Again : Result CrystallizeResponse × Db → Type 0
  Again r =
      is_ok r.0 ≡ true
      → crystallize_conversation services later_id later conversation_id user_id r.1 ≡ r

  failed_before : (e : Error) (db : Db) → Again (err e, db)
  failed_before e db fine = absurd (ground arith)

  roll_back-Again :
      (db : Db) (r : Result CrystallizeResponse × Db) → Again r → Again (roll_back db r)
  unfolding roll_back
  roll_back-Again db (err e, after) again = failed_before e _
  roll_back-Again db (ok response, after) again = again

  -- The conversation's row is there and the user's, and this many turns belong to it.
  record IsReady (conversation : Conversation) (turns : ℕ) (db : Db) : Type 0 where
    same : conversation.id ≡ conversation_id
    row : Conversation
    stored : get_row Conversation.id conversation_id db.conversations ≡ some row
    own : owned user_id (some row) ≡ some row
    counted : turns ≡ length (turns_of conversation_id db)

  store_article-Again :
      (now : ℕ) (conversation : Conversation) (article : Article) (content : String) (turns : ℕ)
      (db : Db)
      → IsReady conversation turns db
      → Again (store_article now conversation article content turns db)
  unfolding store_article crystallize_conversation answer_or_distill already_crystallized owned
      file_crystallized response_of turns_of
  store_article-Again now conversation article content turns db ready =
      elim (Bool-cases (is_some (get_row Article.id article.id db.articles))) [
        | inl taken ↦ λ fine. absurd (ground arith)
        | inr fresh ↦ λ fine. ground (
          arith,
          fresh,
          ready.same,
          ready.stored,
          ready.own,
          ready.counted,
          eq_refl conversation_id,
          eq_refl article.id,
          key-get_row Conversation.id conversation_id db.conversations ready.row ready.stored,
          get_row-update_row Conversation.id conversation_id conversation_id
              (file_crystallized now article.id) db.conversations (λ c. refl),
          get_row-append Article.id article.id db.articles article,
        )
      ]

  with_slug-Again :
      (new_id : String) (now : ℕ) (conversation : Conversation) (queries : List Query)
      (found : Distilled) (slug : Result String) (db : Db)
      → IsReady conversation (length queries) db
      → Again (with_slug services new_id now conversation user_id queries found slug db)
  unfolding with_slug
  with_slug-Again new_id now conversation queries found (err e) db ready = failed_before e db
  with_slug-Again new_id now conversation queries found (ok slug) db ready =
      store_article-Again now conversation _ _ (length queries) db ready

  with_data-Again :
      (new_id : String) (now : ℕ) (conversation : Conversation) (queries : List Query)
      (found : Option Distilled) (db : Db)
      → IsReady conversation (length queries) db
      → Again (with_data services new_id now conversation user_id queries found db)
  unfolding with_data
  with_data-Again new_id now conversation queries none db ready = failed_before _ db
  with_data-Again new_id now conversation queries (some found) db ready =
      with_slug-Again new_id now conversation queries found _ db ready

  with_answer-Again :
      (new_id : String) (now : ℕ) (conversation : Conversation) (queries : List Query)
      (answer : Result (Option String)) (db : Db)
      → IsReady conversation (length queries) db
      → Again (with_answer services new_id now conversation user_id queries answer db)
  unfolding with_answer
  with_answer-Again new_id now conversation queries (err e) db ready = failed_before e db
  with_answer-Again new_id now conversation queries (ok none) db ready = failed_before _ db
  with_answer-Again new_id now conversation queries (ok (some answer)) db ready =
      with_data-Again new_id now conversation queries _ db ready

  distill-Again :
      (new_id : String) (now : ℕ) (conversation : Conversation) (queries : List Query) (db : Db)
      → IsReady conversation (length queries) db
      → Again (distill services new_id now conversation user_id queries db)
  unfolding distill
  distill-Again new_id now conversation [] db ready = failed_before _ db
  distill-Again new_id now conversation (q ∷ qs) db ready =
      with_answer-Again new_id now conversation (q ∷ qs) _ db ready

  -- The row of a conversation, its dangling reference cleared, is ready to be distilled.
  IsReady-clear_reference :
      (conversation : Conversation) (db : Db)
      → get_row Conversation.id conversation_id db.conversations ≡ some conversation
      → owned user_id (some conversation) ≡ some conversation
      → IsReady conversation
          (length (by_turn (turns_of conversation.id db)))
          (clear_reference conversation db)
  unfolding clear_reference set_article owned turns_of
  IsReady-clear_reference conversation db stored own =
      let id = key-get_row Conversation.id conversation_id db.conversations conversation stored in
      record {
        same = id;
        row = set_article none conversation;
        stored = ground (
          arith,
          id,
          stored,
          eq_refl conversation_id,
          get_row-update_row Conversation.id conversation_id conversation_id (set_article none)
              db.conversations (λ c. refl),
        );
        own = ground (arith, own);
        counted = ground (arith, id, length-by_turn (turns_of conversation.id db));
      }

owned_row :
    (user_id : String) (o : Option Conversation) (c : Conversation)
    → owned user_id o ≡ some c
    → (o ≡ some c) × (owned user_id (some c) ≡ some c)
unfolding owned
owned_row user_id none c h = absurd (ground arith)
owned_row user_id (some d) c h = ground arith

first_distills :
    (services : Services) (new_id : String) (now : ℕ) (conversation_id user_id : String)
    (c : Conversation) (db : Db)
    → owned user_id (get_row Conversation.id conversation_id db.conversations) ≡ some c
    → already_crystallized c db ≡ none
    → crystallize_conversation services new_id now conversation_id user_id db
      ≡ roll_back db (
          distill services new_id now c user_id (by_turn (turns_of c.id db)) (clear_reference c db))
unfolding crystallize_conversation answer_or_distill
first_distills services new_id now conversation_id user_id c db mine gone =
    ground (arith, mine, gone)

-- A conversation that has been distilled is not distilled again: after a call that returned, another
-- one for the same conversation and user returns the same article and changes nothing.
pub crystallize_conversation_again :
    (services : Services) (new_id later_id : String) (now later : ℕ)
    (conversation_id user_id : String) (db : Db)
    → let first = crystallize_conversation services new_id now conversation_id user_id db in
      is_ok first.0 ≡ true
      → crystallize_conversation services later_id later conversation_id user_id first.1 ≡ first
unfolding crystallize_conversation
crystallize_conversation_again services new_id later_id now later conversation_id user_id db fine =
    elim (Option-cases (owned user_id (get_row Conversation.id conversation_id db.conversations))) [
      | inl missing ↦ absurd (ground (arith, missing))
      | inr (c, mine) ↦ elim (Option-cases (already_crystallized c db)) [
        | inr (article, there) ↦ unfold answer_or_distill in ground (arith, mine, there)
        | inl gone ↦
            let row = owned_row user_id _ c mine in
            subst (Again services later_id conversation_id user_id later)
              (sym (first_distills services new_id now conversation_id user_id c db mine gone))
              (roll_back-Again services later_id conversation_id user_id later db _ (
                distill-Again services later_id conversation_id user_id later new_id now c _ _ (
                  IsReady-clear_reference services later_id conversation_id user_id later c db row.0
                    row.1)))
              fine
      ]
    ]
