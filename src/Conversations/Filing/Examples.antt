-- ===== src/Conversations/Filing/Examples.antt =====
-- A conversation of one turn, filed back and exported.
use wikimind.Prelude.{
  ◌≡◌, refl, true, false, none, some, [], ◌∷◌, find, length, decimal, get_row, ok,
}
use wikimind.Conversations.Headings.{
  downshift_answer_headings, has_top, has_top-downshift_answer_headings,
}
use wikimind.Conversations.Markdown.{Services, serialize_conversation_to_markdown}
use wikimind.Conversations.Filing.{
  Article, File, Db, is_file, file_back_conversation, export_conversation,
}
use wikimind.Conversations.Filing.Refiling.{
  export_conversation-file_back_conversation, file_back_conversation-again,
}

has_top-downshift_answer_headings_example :
    has_top true (downshift_answer_headings "# Who?\n## Ann\n#tag") ≡ false
has_top-downshift_answer_headings_example = has_top-downshift_answer_headings "# Who?\n## Ann\n#tag"

downshifted : downshift_answer_headings "# Who?\n##### deep\n#tag" ≡ "### Who?\n##### deep\n#tag"
unfolding downshift_answer_headings
downshifted = refl

abbrev services : Services
services = record {
  isoformat = λ t. "then";
  rstrip = λ s. s;
  escape_quotes = λ s. s;
  parse_titles = λ s. s ∷ [];
}

abbrev db : Db
db = record {
  conversations =
      record {
        id = "c1";
        user_id = "u1";
        title = "Who";
        created_at = 1;
        updated_at = 1;
        filed_article_id = none;
      }
      ∷ [];
  queries =
      record {
        conversation_id = "c1";
        question = "Who?";
        answer = "# Who?\nAnn";
        turn_index = 0;
        source_article_ids = some "Ann";
      }
      ∷ [];
  articles = [];
  files = [];
}

abbrev article : Article
article = record {
  id = "a1";
  slug = "c1";
  title = "Who";
  file_path = "qa-answers/c1.md";
  summary = some "# Who?\nAnn";
  page_type = "answer";
  created_at = 5;
  updated_at = 5;
  user_id = "u1";
}

after : Db
after = (file_back_conversation services "a1" 5 "c1" "u1" db).1

filed : file_back_conversation services "a1" 5 "c1" "u1" db ≡ (ok (article, false), after)
unfolding after file_back_conversation get_row
filed = refl

export_conversation-file_back_conversation_example :
    (f : File) × (find (is_file "u1" "qa-answers/c1.md") after.files ≡ some f)
    × (export_conversation services "c1" "u1" db ≡ ok f.content)
export_conversation-file_back_conversation_example =
    export_conversation-file_back_conversation services "a1" 5 "c1" "u1" db after (article, false)
      filed

file_back_conversation-again_example :
    (again : Article) × (last : Db) × (file_back_conversation services "a2" 9 "c1" "u1" after
      ≡ (ok (again, true), last))
    × (again.id ≡ "a1")
    × (length last.articles ≡ length after.articles)
file_back_conversation-again_example =
    file_back_conversation-again services "a1" "a2" 5 9 "c1" "u1" db after (article, false) filed

exported :
    export_conversation services "c1" "u1" db
    ≡ ok
        "---\ntitle: \"Who\"\nslug: c1\ntype: qa-conversation\ncreated: then\nupdated: then\nturn_count: 1\n---\n\n# Who\n\n## Q1: Who?\n\n### Who?\nAnn\n\n**Sources:** [[Ann]]\n\n"
unfolding export_conversation get_row serialize_conversation_to_markdown decimal
    downshift_answer_headings
exported = refl
