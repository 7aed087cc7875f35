-- ===== src/Conversations/Markdown.antt =====
-- engine/conversation_serializer.py: a conversation, or selected turns, as Markdown. `isoformat`,
-- `rstrip`, the escaping of quotes and the parsing of a JSON list of titles are given.
use wikimind.Prelude.{
  ℕ, suc, String, ◌==◌, ◌+++◌, decimal, Bool, true, false, not, ◌||◌, eqb, Option, none, some, List,
  [], ◌∷◌, ◌++◌, map, truthy, length,
}
use wikimind.Conversations.Headings.{downshift_answer_headings}

pub record Services : Type 0 where
  pub isoformat : ℕ → String
  pub rstrip : String → String
  pub escape_quotes : String → String
  pub parse_titles : String → List String

pub record Conversation : Type 0 where
  pub id : String
  pub user_id : String
  pub title : String
  pub created_at : ℕ
  pub updated_at : ℕ
  pub filed_article_id : Option String

pub record Query : Type 0 where
  pub conversation_id : String
  pub question : String
  pub answer : String
  pub turn_index : ℕ
  pub source_article_ids : Option String

join : String → List String → String
join separator [] = ""
join separator (line ∷ []) = line
join separator (line ∷ next ∷ rest) = line +++ separator +++ join separator (next ∷ rest)

-- `_parse_sources`
parse_sources : Services → Option String → List String
parse_sources services raw = elim (truthy raw) [
  | none ↦ []
  | some text ↦ services.parse_titles text
]

source_lines : List String → List String
unfolding join
source_lines [] = []
source_lines (title ∷ titles) =
    ("**Sources:** " +++ join ", " (map (λ s. "[[" +++ s +++ "]]") (title ∷ titles))) ∷ "" ∷ []

-- The section of a turn under a number.
turn_lines : Services → ℕ → Query → List String
unfolding source_lines parse_sources
turn_lines services number query =
    (("## Q" +++ decimal number +++ ": " +++ query.question)
      ∷ ""
      ∷ downshift_answer_headings query.answer
      ∷ ""
      ∷ [])
    ++ source_lines (parse_sources services query.source_article_ids)

sections : Services → List Query → List String
unfolding turn_lines
sections services [] = []
sections services (q ∷ qs) = turn_lines services (suc q.turn_index) q ++ sections services qs

-- `"\n".join(lines).rstrip() + "\n"`
page : Services → List String → String
unfolding join
page services lines = services.rstrip (join "\n" lines) +++ "\n"

unfoldable pub serialize_conversation_to_markdown : Services → Conversation → List Query → String
unfolding sections page
serialize_conversation_to_markdown services conversation queries = page services (
    "---"
    ∷ ("title: \"" +++ services.escape_quotes conversation.title +++ "\"")
    ∷ ("slug: " +++ conversation.id)
    ∷ "type: qa-conversation"
    ∷ ("created: " +++ services.isoformat conversation.created_at)
    ∷ ("updated: " +++ services.isoformat conversation.updated_at)
    ∷ ("turn_count: " +++ decimal (length queries))
    ∷ "---"
    ∷ ""
    ∷ ("# " +++ conversation.title)
    ∷ ""
    ∷ sections services queries)

pub record SelectedTurn : Type 0 where
  pub conversation : Conversation
  pub query : Query

-- Whether a turn does not follow the one before it in the same conversation.
needs_separator : Option SelectedTurn → SelectedTurn → Bool
needs_separator none turn = false
needs_separator (some before) turn =
    not (turn.conversation.id == before.conversation.id)
    || not (eqb turn.query.turn_index (suc before.query.turn_index))

separator_lines : Bool → List String
separator_lines true = "---" ∷ "" ∷ []
separator_lines false = []

-- The turns, numbered on.
selected_sections : Services → ℕ → Option SelectedTurn → List SelectedTurn → List String
unfolding needs_separator separator_lines turn_lines
selected_sections services number before [] = []
selected_sections services number before (turn ∷ turns) =
    separator_lines (needs_separator before turn)
    ++ turn_lines services number turn.query
    ++ selected_sections services (suc number) (some turn) turns

title_or : Option String → String → String
title_or title default = elim (truthy title) [ none ↦ default | some text ↦ text ]

pub serialize_selected_turns_to_markdown : Services → List SelectedTurn → Option String → String
unfolding selected_sections page title_or
serialize_selected_turns_to_markdown services [] title =
    let effective_title = title_or title "Untitled" in
    "---\ntitle: \"" +++ effective_title +++ "\"\ntype: qa-selection\nturn_count: 0\n---\n\n# "
    +++ effective_title +++ "\n"
serialize_selected_turns_to_markdown services (turn ∷ turns) title =
    let effective_title = title_or title turn.conversation.title in
    page services (
      "---"
      ∷ ("title: \"" +++ services.escape_quotes effective_title +++ "\"")
      ∷ "type: qa-selection"
      ∷ ("turn_count: " +++ decimal (length (turn ∷ turns)))
      ∷ "---"
      ∷ ""
      ∷ ("# " +++ effective_title)
      ∷ ""
      ∷ selected_sections services 1 none (turn ∷ turns))
