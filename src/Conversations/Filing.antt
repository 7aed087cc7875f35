-- ===== src/Conversations/Filing.antt =====
-- engine/qa_agent.py `_file_back_thread` and services/query.py: conversations, and selected turns,
-- filed as articles and exported. The full-text index is left out.
pub mod Refiling
mod Examples
use wikimind.Prelude.{
  ℕ, String, ◌==◌, ◌+++◌, prefix, Bool, true, false, not, ◌&&◌, ◌||◌, leb, Option, none, some, List,
  [], ◌∷◌, ◌++◌, filter, map, sort_by, find, any, contains, is_some, if◌then◌else◌, get_row,
  update_row, Result, ok, err, not_found, query_error, integrity_error, Action, roll_back,
}
use wikimind.Conversations.Markdown.{
  Services, Conversation, Query, SelectedTurn, serialize_conversation_to_markdown,
}

pub record Article : Type 0 where
  pub id : String
  pub slug : String
  pub title : String
  pub file_path : String
  pub summary : Option String
  pub page_type : String
  pub created_at : ℕ
  pub updated_at : ℕ
  pub user_id : String

-- A file of a user's wiki.
pub record File : Type 0 where
  pub user_id : String
  pub path : String
  pub content : String

pub record Db : Type 0 where
  pub conversations : List Conversation
  pub queries : List Query
  pub articles : List Article
  pub files : List File

pub is_file : String → String → File → Bool
is_file user_id path f = f.user_id == user_id && f.path == path

pub write_file : String → String → String → List File → List File
unfolding is_file
write_file user_id path content files =
    record { user_id = user_id; path = path; content = content }
    ∷ filter (λ f. not (is_file user_id path f)) files

pub turns_of : String → Db → List Query
turns_of conversation_id db =
    sort_by (λ q r. leb q.turn_index r.turn_index)
      (filter (λ q. q.conversation_id == conversation_id) db.queries)

first_summary : List Query → Option String
unfolding prefix
first_summary [] = none
first_summary (q ∷ qs) = some (prefix 200 q.answer)

-- The article that the conversation names, if it is still there.
pub filed_article : Conversation → Db → Option Article
filed_article c db = elim c.filed_article_id [
  | none ↦ none
  | some article_id ↦ get_row Article.id article_id db.articles
]

pub answer_article : String → ℕ → Conversation → List Query → String → Article
unfolding first_summary
answer_article new_id now c queries user_id = record {
  id = new_id;
  slug = c.id;
  title = c.title;
  file_path = "qa-answers/" +++ c.id +++ ".md";
  summary = first_summary queries;
  page_type = "answer";
  created_at = now;
  updated_at = now;
  user_id = user_id;
}

pub file_as : String → ℕ → Conversation → Conversation
file_as article_id now c = record c { filed_article_id = some article_id; updated_at = now }

pub touch : ℕ → Conversation → Conversation
touch now c = record c { updated_at = now }

pub touch_article : ℕ → Article → Article
touch_article now a = record a { updated_at = now }

-- The unique constraints of the table: the id, and the slug among the user's articles.
pub clashes : Article → List Article → Bool
clashes article articles =
    is_some (get_row Article.id article.id articles)
    || any (λ a. a.user_id == article.user_id && a.slug == article.slug) articles

-- The first filing: a new article.
pub create_answer : Article → ℕ → Conversation → String → String → Action Db (Article × Bool)
unfolding write_file file_as clashes
create_answer article now c user_id markdown db =
    let written = record db { files = write_file user_id article.file_path markdown db.files } in
    if clashes article db.articles then (err integrity_error, written) else (
      ok (article, false),
      record written {
        articles = db.articles ++ (article ∷ []);
        conversations = update_row Conversation.id c.id (file_as article.id now) db.conversations;
      },
    )

-- A later one: the file of the article that is there is written again.
pub update_answer : Article → ℕ → Conversation → String → String → Action Db (Article × Bool)
unfolding write_file touch touch_article
update_answer article now c user_id markdown db = (
  ok (touch_article now article, true),
  record db {
    files = write_file user_id article.file_path markdown db.files;
    articles = update_row Article.id article.id (touch_article now) db.articles;
    conversations = update_row Conversation.id c.id (touch now) db.conversations;
  },
)

pub file_turns : Services → String → ℕ → Conversation → String → Action Db (Article × Bool)
unfolding turns_of filed_article answer_article create_answer update_answer
file_turns services new_id now c user_id db =
    let queries = turns_of c.id db in
    let markdown = serialize_conversation_to_markdown services c queries in
    elim (filed_article c db) [
      | none ↦ create_answer (answer_article new_id now c queries user_id) now c user_id markdown db
      | some article ↦ update_answer article now c user_id markdown db
    ]

pub file_back_thread : Services → String → ℕ → String → String → Action Db (Article × Bool)
unfolding file_turns
file_back_thread services new_id now conversation_id user_id db =
    elim (get_row Conversation.id conversation_id db.conversations) [
      | none ↦ (err (not_found "Conversation not found"), db)
      | some c ↦ file_turns services new_id now c user_id db
    ]

-- The conversation of an id, if it is the user's (or no user is given).
pub owned : String → String → Db → Option Conversation
owned conversation_id user_id db = elim (get_row Conversation.id conversation_id db.conversations) [
  | none ↦ none
  | some c ↦ if not (user_id == "") && not (c.user_id == user_id) then none else some c
]

-- The tables are rolled back by an exception, the files are not.
pub undo : Db → Result (Article × Bool) × Db → Result (Article × Bool) × Db
undo before (ok filed, after) = (ok filed, after)
undo before (err e, after) = (err e, record before { files = after.files })

pub file_back_conversation : Services → String → ℕ → String → String → Action Db (Article × Bool)
unfolding owned file_back_thread undo
file_back_conversation services new_id now conversation_id user_id db =
    elim (owned conversation_id user_id db) [
      | none ↦ (err (not_found "Conversation not found"), db)
      | some c ↦ undo db (file_back_thread services new_id now conversation_id user_id db)
    ]

pub export_conversation : Services → String → String → Db → Result String
unfolding owned turns_of
export_conversation services conversation_id user_id db = elim (owned conversation_id user_id db) [
  | none ↦ err (not_found "Conversation not found")
  | some c ↦ ok (serialize_conversation_to_markdown services c (turns_of conversation_id db))
]
