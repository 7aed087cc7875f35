-- ===== src/Crystallization.antt =====
-- services/crystallization.py: a conversation distilled into an article. The language model, the
-- JSON parser and the clock's text are given; the id of the new article and the time are arguments.
pub mod Again
mod Examples
use wikimind.Prelude.{
  sort_by, ℕ, zero, suc, String, ◌==◌, ◌+++◌, decimal, Bool, true, false, not, ◌&&◌, Option, none,
  some, List, [], ◌∷◌, ◌++◌, map, filter, leb, length, if◌then◌else◌, get_row, save_row, update_row,
  is_some, Result, ok, err, Error, not_found, query_error, integrity_error, Action,
}
use wikimind.Slugs
use wikimind.Slugs.{generate_unique_slug}

pub record Conversation : Type 0 where
  pub id : String
  pub user_id : String
  pub title : String
  pub updated_at : ℕ
  pub crystallized_article_id : Option String

-- A turn of a conversation.
pub record Query : Type 0 where
  pub conversation_id : String
  pub question : String
  pub answer : String
  pub turn_index : ℕ

pub record Article : Type 0 where
  pub id : String
  pub slug : String
  pub title : String
  pub file_path : String
  pub summary : Option String
  pub page_type : String
  pub user_id : String

-- A file of a user's wiki.
pub record File : Type 0 where
  pub path : String
  pub content : String

pub record Db : Type 0 where
  pub conversations : List Conversation
  pub queries : List Query
  pub articles : List Article
  pub files : List File

pub record CrystallizeResponse : Type 0 where
  pub article_id : String
  pub article_slug : String
  pub title : String
  pub turns_distilled : ℕ

-- The JSON object of the answer, with the keys that are read.
pub record Distilled : Type 0 where
  pub title : Option String
  pub research_question : Option String
  pub key_findings : Option (List String)
  pub explored_but_inconclusive : Option (List String)
  pub sources_consulted : Option (List String)
  pub article_body : Option String

-- `plan_aware_complete` for the prompt (which may raise, or answer nothing), the parser of its
-- answer, the first 200 characters of a text, quotes escaped, the time in ISO format, and what the
-- search for a slug is given.
pub record Services : Type 0 where
  pub complete : String → String → Result (Option String)
  pub parse_json_response : String → Option Distilled
  pub first_200 : String → String
  pub escape_quotes : String → String
  pub isoformat : ℕ → String
  pub slug_text : Slugs.Text
  pub slug_max_attempts : ℕ

newline : String
newline = "\n"

-- `"\n".join(lines)`
join_lines : List String → String
unfolding newline
join_lines [] = ""
join_lines (l ∷ []) = l
join_lines (l ∷ ls) = let later = join_lines ls in l +++ (newline +++ later)

transcript_lines : List Query → List String
transcript_lines [] = []
transcript_lines (q ∷ qs) =
    ("User: " +++ q.question) ∷ ("Assistant: " +++ q.answer) ∷ "" ∷ transcript_lines qs

-- `_format_conversation`
pub format_conversation : List Query → String
unfolding join_lines transcript_lines
format_conversation queries = join_lines (transcript_lines queries)

user_prompt : List Query → String
unfolding format_conversation
user_prompt queries =
    "Conversation:\n"
    +++ (format_conversation queries
        +++ "\n\nDistill this conversation into a structured wiki article following the JSON schema exactly.")

numbered : ℕ → List String → List String
numbered n [] = []
numbered n (f ∷ fs) = (decimal n +++ (". " +++ f)) ∷ numbered (suc n) fs

bulleted : List String → List String
bulleted [] = []
bulleted (item ∷ items) = ("- " +++ item) ∷ bulleted items

text_or_empty : Option String → String
text_or_empty none = ""
text_or_empty (some t) = t

list_or_empty : Option (List String) → List String
list_or_empty none = []
list_or_empty (some l) = l

-- `_build_markdown`
pub build_markdown : Services → (title slug conversation_id : String) → ℕ → ℕ → Distilled → String
unfolding join_lines numbered bulleted text_or_empty list_or_empty
build_markdown services title slug conversation_id turn_count now distilled = join_lines (
    "---"
    ∷ ("title: \"" +++ (services.escape_quotes title +++ "\""))
    ∷ ("slug: " +++ slug)
    ∷ "page_type: synthesis"
    ∷ ("crystallized_from: " +++ conversation_id)
    ∷ ("turns_distilled: " +++ decimal turn_count)
    ∷ ("crystallized_at: " +++ services.isoformat now)
    ∷ "---"
    ∷ ""
    ∷ "## Research Question"
    ∷ ""
    ∷ text_or_empty distilled.research_question
    ∷ ""
    ∷ "## Key Findings"
    ∷ ""
    ∷ join_lines (numbered 1 (list_or_empty distilled.key_findings))
    ∷ ""
    ∷ "## Analysis"
    ∷ ""
    ∷ text_or_empty distilled.article_body
    ∷ ""
    ∷ "## Explored but Inconclusive"
    ∷ ""
    ∷ join_lines (bulleted (list_or_empty distilled.explored_but_inconclusive))
    ∷ ""
    ∷ "## Sources Consulted"
    ∷ ""
    ∷ join_lines (bulleted (list_or_empty distilled.sources_consulted))
    ∷ ""
    ∷ [])

unfoldable pub turns_of : String → Db → List Query
turns_of conversation_id db = filter (λ q. q.conversation_id == conversation_id) db.queries

-- `order_by(turn_index.asc())`
by_turn : List Query → List Query
by_turn = sort_by (λ q r. leb q.turn_index r.turn_index)

unfoldable pub set_article : Option String → Conversation → Conversation
set_article article_id c = record c { crystallized_article_id = article_id }

unfoldable pub file_crystallized : ℕ → String → Conversation → Conversation
file_crystallized now article_id c = record c {
  updated_at = now;
  crystallized_article_id = some article_id;
}

unfoldable pub response_of : Article → ℕ → CrystallizeResponse
response_of article turns = record {
  article_id = article.id;
  article_slug = article.slug;
  title = article.title;
  turns_distilled = turns;
}

pub title_or : String → Option String → String
title_or fallback none = fallback
title_or fallback (some t) = t

-- `research_question[:200] if research_question else None`
summary_of : Services → Option String → Option String
summary_of services none = none
summary_of services (some question) =
    if question == "" then none else some (services.first_200 question)

article_of : Services → (new_id slug : String) → String → Distilled → String → Article
unfolding summary_of
article_of services new_id slug title distilled user_id = record {
  id = new_id;
  slug = slug;
  title = title;
  file_path = "synthesis/" +++ (slug +++ ".md");
  summary = summary_of services distilled.research_question;
  page_type = "synthesis";
  user_id = user_id;
}

-- The article's row, which the flush inserts, and the conversation's reference to it. The file is
-- written before.
store_article : ℕ → Conversation → Article → String → ℕ → Action Db CrystallizeResponse
unfolding file_crystallized response_of
store_article now conversation article content turns db =
    let written : Db = record db {
      files = save_row File.path (record { path = article.file_path; content = content }) db.files;
    } in
    if is_some (get_row Article.id article.id db.articles)
    then (err integrity_error, written)
    else (
      ok (response_of article turns),
      record written {
        conversations =
            update_row Conversation.id conversation.id (file_crystallized now article.id)
              db.conversations;
        articles = db.articles ++ (article ∷ []);
      },
    )

with_slug :
    Services
    → (new_id : String) → ℕ
    → Conversation
    → String
    → List Query
    → Distilled
    → Result String
    → Action Db CrystallizeResponse
unfolding store_article article_of build_markdown title_or
with_slug services new_id now conversation user_id queries distilled (err e) db = (err e, db)
with_slug services new_id now conversation user_id queries distilled (ok slug) db =
    let title = title_or conversation.title distilled.title in
    store_article now conversation (article_of services new_id slug title distilled user_id)
      (build_markdown services title slug conversation.id (length queries) now distilled)
      (length queries) db

slug_row : Article → Slugs.Article
slug_row a = record { slug = a.slug; user_id = a.user_id }

with_data :
    Services
    → (new_id : String) → ℕ
    → Conversation
    → String
    → List Query
    → Option Distilled
    → Action Db CrystallizeResponse
unfolding with_slug slug_row title_or
with_data services new_id now conversation user_id queries none db =
    (err (query_error "LLM synthesis failed"), db)
with_data services new_id now conversation user_id queries (some distilled) db =
    with_slug services new_id now conversation user_id queries distilled
      (generate_unique_slug services.slug_text services.slug_max_attempts
        (title_or conversation.title distilled.title) (map slug_row db.articles) user_id "" 80 none)
      db

with_answer :
    Services
    → (new_id : String) → ℕ
    → Conversation
    → String
    → List Query
    → Result (Option String)
    → Action Db CrystallizeResponse
unfolding with_data
with_answer services new_id now conversation user_id queries (err e) db = (err e, db)
with_answer services new_id now conversation user_id queries (ok none) db =
    (err (query_error "LLM synthesis failed"), db)
with_answer services new_id now conversation user_id queries (ok (some answer)) db =
    with_data services new_id now conversation user_id queries (services.parse_json_response answer)
      db

distill :
    Services
    → (new_id : String) → ℕ
    → Conversation
    → String
    → List Query
    → Action Db CrystallizeResponse
unfolding with_answer user_prompt
distill services new_id now conversation user_id [] db =
    (err (query_error "Conversation has no turns to crystallize"), db)
distill services new_id now conversation user_id (q ∷ qs) db =
    with_answer services new_id now conversation user_id (q ∷ qs)
      (services.complete (user_prompt (q ∷ qs)) user_id) db

-- `_check_already_crystallized`: the article that the conversation names, if it is there.
unfoldable pub already_crystallized : Conversation → Db → Option Article
already_crystallized conversation db = elim conversation.crystallized_article_id [
  | none ↦ none
  | some article_id ↦ get_row Article.id article_id db.articles
]

-- The dangling reference is cleared.
clear_reference : Conversation → Db → Db
unfolding set_article
clear_reference conversation db = record db {
  conversations = update_row Conversation.id conversation.id (set_article none) db.conversations;
}

-- The session of a request that fails is rolled back; a file that was written stays.
unfoldable pub roll_back : Db → Result CrystallizeResponse × Db → Result CrystallizeResponse × Db
roll_back before (ok response, after) = (ok response, after)
roll_back before (err e, after) = (err e, record before { files = after.files })

answer_or_distill :
    Services
    → (new_id : String) → ℕ
    → Conversation
    → String
    → Option Article
    → Action Db CrystallizeResponse
unfolding response_of turns_of distill clear_reference by_turn roll_back
answer_or_distill services new_id now conversation user_id (some article) db =
    (ok (response_of article (length (turns_of conversation.id db))), db)
answer_or_distill services new_id now conversation user_id none db = roll_back db (
    distill services new_id now conversation user_id (by_turn (turns_of conversation.id db))
      (clear_reference conversation db))

-- The conversation of an id, if it is the user's (or no user is given).
unfoldable pub owned : String → Option Conversation → Option Conversation
owned user_id none = none
owned user_id (some c) = if not (user_id == "") && not (c.user_id == user_id) then none else some c

pub crystallize_conversation :
    Services → (new_id : String) → ℕ → String → String → Action Db CrystallizeResponse
unfolding owned answer_or_distill already_crystallized
crystallize_conversation services new_id now conversation_id user_id db =
    elim (owned user_id (get_row Conversation.id conversation_id db.conversations)) [
      | none ↦ (err (not_found "Conversation not found"), db)
      | some conversation ↦
          answer_or_distill services new_id now conversation user_id
            (already_crystallized conversation db) db
    ]
