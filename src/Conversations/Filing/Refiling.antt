-- ===== src/Conversations/Filing/Refiling.antt =====
-- services/query.py `file_back_conversation`: what is filed is what is exported, and it is filed in
-- one place.
use wikimind.Prelude.{
  ℕ, String, ◌==◌, ◌≡◌, refl, sym, ap, ◌∙◌, subst, Bool, true, false, not, ◌&&◌, Option, none, some,
  List, [], ◌∷◌, ◌++◌, find, length, length-update_row, get_row, update_row, get_row-update_row,
  get_row-append, key-get_row, Result, ok, err, Error, arith, eq_refl, Bool-cases, Option-cases,
  inl, inr,
}
use wikimind.Conversations.Markdown.{Services, Conversation, serialize_conversation_to_markdown}
use wikimind.Conversations.Filing.{
  Article, File, Db, is_file, write_file, turns_of, filed_article, file_as, touch, touch_article,
  clashes, create_answer, update_answer, file_turns, file_back_thread, owned, undo,
  file_back_conversation, export_conversation,
}

-- A file that says this is where the article's path leads.
pub Says : String → Article → Db → String → Type 0
Says user_id article db text =
    (f : File) × (find (is_file user_id article.file_path) db.files ≡ some f) × (f.content ≡ text)

failed :
    (e : Error) (filed : Article × Bool) → ◌≡◌ {A = Result (Article × Bool)} (err e) (ok filed) → ⊥
failed e filed h = ground arith

-- What holds of what the request returns, if it returns a filed article.
abbrev Filed : (Article → Db → Type 0) → Result (Article × Bool) × Db → Type 0
Filed P (ok filed, after) = P filed.0 after
Filed P (err e, after) = Unit

Filed-undo :
    (P : Article → Db → Type 0) (before : Db) (r : Result (Article × Bool) × Db)
    → Filed P r
    → Filed P (undo before r)
unfolding undo
Filed-undo P before (ok filed, after) h = h
Filed-undo P before (err e, after) h = h

find-write_file :
    (user_id path text : String) (files : List File)
    → find (is_file user_id path) (write_file user_id path text files)
      ≡ some (record { user_id = user_id; path = path; content = text })
unfolding write_file is_file
find-write_file user_id path text files = rw (eq_refl user_id, eq_refl path) refl

Says-create_answer :
    (article : Article) (now : ℕ) (c : Conversation) (user_id markdown : String) (db : Db)
    → Filed
        (λ a after. Says user_id a after markdown)
        (create_answer article now c user_id markdown db)
unfolding create_answer Says
Says-create_answer article now c user_id markdown db =
    elim (Bool-cases (clashes article db.articles)) [
      | inl taken ↦ rw (taken, create_answer) tt
      | inr free ↦
          rw (free, create_answer)
            (_, find-write_file user_id article.file_path markdown db.files, refl)
    ]

Says-update_answer :
    (article : Article) (now : ℕ) (c : Conversation) (user_id markdown : String) (db : Db)
    → Filed
        (λ a after. Says user_id a after markdown)
        (update_answer article now c user_id markdown db)
unfolding update_answer Says touch_article
Says-update_answer article now c user_id markdown db =
    (_, find-write_file user_id article.file_path markdown db.files, refl)

Says-file_turns :
    (services : Services) (new_id : String) (now : ℕ) (c : Conversation) (user_id : String)
    (db : Db)
    → Filed
        (λ a after.
          Says user_id a after (serialize_conversation_to_markdown services c (turns_of c.id db)))
        (file_turns services new_id now c user_id db)
unfolding file_turns
Says-file_turns services new_id now c user_id db = elim (Option-cases (filed_article c db)) [
  | inl none_there ↦ rw (none_there, file_turns) (Says-create_answer _ now c user_id _ db)
  | inr (article, there) ↦ rw (there, file_turns) (Says-update_answer article now c user_id _ db)
]

owned_row :
    (conversation_id user_id : String) (c : Conversation) (db : Db)
    → owned conversation_id user_id db ≡ some c
    → get_row Conversation.id conversation_id db.conversations ≡ some c
unfolding owned
owned_row conversation_id user_id c db h =
    elim (Option-cases (get_row Conversation.id conversation_id db.conversations)) [
      | inl missing ↦ absurd (none_here (rw (missing, owned) at h))
      | inr (d, there) ↦ elim (Bool-cases (not (user_id == "") && not (d.user_id == user_id))) [
        | inl foreign ↦ absurd (none_here (rw (there, foreign, owned) at h))
        | inr own ↦ there ∙ (rw (there, own, owned) at h)
      ]
    ]
  where
    none_here : ◌≡◌ {A = Option Conversation} none (some c) → ⊥
    none_here e = ground arith

-- The predicate holds of a filing that returns, if it does of the filing of a conversation's turns.
filed_then :
    (P : Article → Db → Type 0) (services : Services) (new_id : String) (now : ℕ)
    (conversation_id user_id : String) (c : Conversation) (db after : Db) (filed : Article × Bool)
    → owned conversation_id user_id db ≡ some c
    → Filed P (file_turns services new_id now c user_id db)
    → file_back_conversation services new_id now conversation_id user_id db ≡ (ok filed, after)
    → P filed.0 after
unfolding file_back_conversation file_back_thread
filed_then P services new_id now conversation_id user_id c db after filed own holds h =
    subst (Filed P)
      (rw
        (own, owned_row conversation_id user_id c db own, file_back_conversation, file_back_thread)
        at h)
      (Filed-undo P db (file_turns services new_id now c user_id db) holds)

must_be_owned :
    (services : Services) (new_id : String) (now : ℕ) (conversation_id user_id : String)
    (db after : Db) (filed : Article × Bool)
    → file_back_conversation services new_id now conversation_id user_id db ≡ (ok filed, after)
    → (c : Conversation) × (owned conversation_id user_id db ≡ some c)
unfolding file_back_conversation
must_be_owned services new_id now conversation_id user_id db after filed h =
    elim (Option-cases (owned conversation_id user_id db)) [
      | inl missing ↦
          absurd (failed _ filed (ap (λ r. r.0) (rw (missing, file_back_conversation) at h)))
      | inr found ↦ found
    ]

-- A conversation that is filed back is filed as it is exported: the file of the article says what the
-- export of the conversation would have given just before.
pub export_conversation-file_back_conversation :
    (services : Services) (new_id : String) (now : ℕ) (conversation_id user_id : String)
    (db after : Db) (filed : Article × Bool)
    → file_back_conversation services new_id now conversation_id user_id db ≡ (ok filed, after)
    → (f : File) × (find (is_file user_id filed.0.file_path) after.files ≡ some f)
      × (export_conversation services conversation_id user_id db ≡ ok f.content)
unfolding export_conversation Says
export_conversation-file_back_conversation services new_id now conversation_id user_id db after
      filed h =
    let (c, own) = must_be_owned services new_id now conversation_id user_id db after filed h in
    let (f, there, says) =
      filed_then
        (λ a t. Says user_id a t (serialize_conversation_to_markdown services c (turns_of c.id db)))
        services new_id now conversation_id user_id c db after filed own
        (Says-file_turns services new_id now c user_id db) h in
    let same : c.id ≡ conversation_id =
      key-get_row Conversation.id conversation_id db.conversations c
        (owned_row conversation_id user_id c db own) in
    (
      f,
      there,
      rw (own, export_conversation)
          (ap (λ k. ok (serialize_conversation_to_markdown services c (turns_of k db))) (sym same)
            ∙ ap ok (sym says)),
    )

-- The conversation names the article.
IsPlaced : Conversation → Article → Db → Type 0
IsPlaced c article after =
    (d : Conversation) × (get_row Conversation.id c.id after.conversations ≡ some d)
    × (d.user_id ≡ c.user_id)
    × (a : Article) × (filed_article d after ≡ some a)
    × (a.id ≡ article.id)

get_row-changed :
    (c : Conversation) (f : Conversation → Conversation) (db : Db)
    → ((d : Conversation) → (f d).id ≡ d.id)
    → get_row Conversation.id c.id db.conversations ≡ some c
    → get_row Conversation.id c.id (update_row Conversation.id c.id f db.conversations) ≡ some (f c)
get_row-changed c f db kept there =
    rw (get_row-update_row Conversation.id c.id c.id f db.conversations kept, eq_refl c.id, there)
      refl

new_article :
    (article : Article) (articles : List Article)
    → clashes article articles ≡ false
    → get_row Article.id article.id (articles ++ (article ∷ [])) ≡ some article
unfolding clashes
new_article article articles free =
    ground (arith, free, get_row-append Article.id article.id articles article, eq_refl article.id)

filed_still :
    (named : Option String) (now : ℕ) (article : Article) (articles : List Article)
    → (elim named [ none ↦ none | some k ↦ get_row Article.id k articles ]) ≡ some article
    → (elim named [
      | none ↦ none
      | some k ↦
          get_row Article.id k (update_row Article.id article.id (touch_article now) articles)
    ])
      ≡ some (touch_article now article)
unfolding touch_article
filed_still none now article articles h = absurd (ground arith)
filed_still (some k) now article articles h =
    let same : (article.id == k) ≡ true =
      rw (key-get_row Article.id k articles article h) (eq_refl k) in
    rw
      (get_row-update_row Article.id article.id k (touch_article now) articles (λ a. refl), same, h)
      refl

IsPlaced-create_answer :
    (article : Article) (now : ℕ) (c : Conversation) (user_id markdown : String) (db : Db)
    → get_row Conversation.id c.id db.conversations ≡ some c
    → Filed (IsPlaced c) (create_answer article now c user_id markdown db)
unfolding create_answer IsPlaced filed_article file_as
IsPlaced-create_answer article now c user_id markdown db there =
    elim (Bool-cases (clashes article db.articles)) [
      | inl taken ↦ rw (taken, create_answer) tt
      | inr free ↦
          rw (free, create_answer)
            (
              file_as article.id now c,
              get_row-changed c (file_as article.id now) db (λ d. refl) there,
              refl,
              article,
              new_article article db.articles free,
              refl,
            )
    ]

IsPlaced-update_answer :
    (article : Article) (now : ℕ) (c : Conversation) (user_id markdown : String) (db : Db)
    → get_row Conversation.id c.id db.conversations ≡ some c
    → filed_article c db ≡ some article
    → Filed (IsPlaced c) (update_answer article now c user_id markdown db)
unfolding update_answer IsPlaced touch touch_article filed_article
IsPlaced-update_answer article now c user_id markdown db there named = (
  touch now c,
  get_row-changed c (touch now) db (λ d. refl) there,
  refl,
  touch_article now article,
  filed_still c.filed_article_id now article db.articles named,
  refl,
)

IsPlaced-file_turns :
    (services : Services) (new_id : String) (now : ℕ) (c : Conversation) (user_id : String)
    (db : Db)
    → get_row Conversation.id c.id db.conversations ≡ some c
    → Filed (IsPlaced c) (file_turns services new_id now c user_id db)
unfolding file_turns
IsPlaced-file_turns services new_id now c user_id db there =
    elim (Option-cases (filed_article c db)) [
      | inl none_there ↦
          rw (none_there, file_turns) (IsPlaced-create_answer _ now c user_id _ db there)
      | inr (article, named) ↦
          rw (named, file_turns) (IsPlaced-update_answer article now c user_id _ db there named)
    ]

owned_again :
    (conversation_id user_id : String) (c d : Conversation) (db after : Db)
    → owned conversation_id user_id db ≡ some c
    → get_row Conversation.id conversation_id after.conversations ≡ some d
    → d.user_id ≡ c.user_id
    → owned conversation_id user_id after ≡ some d
unfolding owned
owned_again conversation_id user_id c d db after own found owner =
    elim (Bool-cases (not (user_id == "") && not (c.user_id == user_id))) [
      | inl foreign ↦
          absurd
            (none_here (rw (owned_row conversation_id user_id c db own, foreign, owned) at own))
      | inr allowed ↦ rw (found, owner, allowed, owned) refl
    ]
  where
    none_here : ◌≡◌ {A = Option Conversation} none (some c) → ⊥
    none_here e = ground arith

filed_again :
    (services : Services) (second : String) (later : ℕ) (conversation_id user_id : String)
    (d : Conversation) (a : Article) (after : Db)
    → owned conversation_id user_id after ≡ some d
    → filed_article d after ≡ some a
    → file_back_conversation services second later conversation_id user_id after
      ≡ update_answer a later d user_id
          (serialize_conversation_to_markdown services d (turns_of d.id after))
          after
unfolding file_back_conversation file_back_thread file_turns update_answer undo
filed_again services second later conversation_id user_id d a after own named =
    rw
      (
        own,
        owned_row conversation_id user_id d after own,
        named,
        file_back_conversation,
        file_back_thread,
        file_turns,
      )
      refl

-- A conversation that is filed back a second time is filed in the same article: no article is added.
pub file_back_conversation-again :
    (services : Services) (first second : String) (now later : ℕ) (conversation_id user_id : String)
    (db after : Db) (filed : Article × Bool)
    → file_back_conversation services first now conversation_id user_id db ≡ (ok filed, after)
    → (again : Article) × (last : Db) × (file_back_conversation services second later
          conversation_id user_id after
        ≡ (ok (again, true), last))
      × (again.id ≡ filed.0.id)
      × (length last.articles ≡ length after.articles)
unfolding IsPlaced
file_back_conversation-again services first second now later conversation_id user_id db after filed
      h =
    let (c, own) = must_be_owned services first now conversation_id user_id db after filed h in
    let there = owned_row conversation_id user_id c db own in
    let same : c.id ≡ conversation_id =
      key-get_row Conversation.id conversation_id db.conversations c there in
    let (d, found, owner, a, named, i) =
      filed_then (IsPlaced c) services first now conversation_id user_id c db after filed own
        (IsPlaced-file_turns services first now c user_id db (rw same there)) h in
    let at_id : get_row Conversation.id conversation_id after.conversations ≡ some d =
      rw (sym same) found in
    (
      touch_article later a,
      (update_answer a later d user_id
          (serialize_conversation_to_markdown services d (turns_of d.id after)) after).1,
      filed_again services second later conversation_id user_id d a after
            (owned_again conversation_id user_id c d db after own at_id owner) named
          ∙ unfold update_answer in refl,
      unfold touch_article in i,
      unfold update_answer in
          length-update_row Article.id a.id (touch_article later) after.articles,
    )
