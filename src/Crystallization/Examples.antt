-- ===== src/Crystallization/Examples.antt =====
-- A conversation of one turn, distilled into an article.
use wikimind.Prelude.{◌≡◌, refl, none, some, [], ◌∷◌, get_row, save_row, decimal, ok}
use wikimind.Slugs.{generate_unique_slug}
use wikimind.Crystallization.{Db, Services, crystallize_conversation}
use wikimind.Crystallization.Again.{crystallize_conversation_again}

abbrev db : Db
db = record {
  conversations =
      record {
        id = "c1";
        user_id = "u1";
        title = "Caches";
        updated_at = 0;
        crystallized_article_id = some "gone";
      }
      ∷ [];
  queries =
      record { conversation_id = "c1"; question = "Why?"; answer = "So."; turn_index = 0 } ∷ [];
  articles = [];
  files = [];
}

abbrev services : Services
services = record {
  complete = λ prompt user_id. ok (some "{}");
  parse_json_response = λ json. some (record {
    title = none;
    research_question = some "Why?";
    key_findings = some ("So." ∷ []);
    explored_but_inconclusive = none;
    sources_consulted = none;
    article_body = none;
  });
  first_200 = λ t. t;
  escape_quotes = λ t. t;
  isoformat = λ now. "now";
  slug_text = record { slugify = λ title length. "caches"; repr = λ title. title };
  slug_max_attempts = 100;
}

crystallize_conversation_again_example :
    crystallize_conversation services "a2" 9 "c1" "u1"
      (crystallize_conversation services "a1" 5 "c1" "u1" db).1
    ≡ crystallize_conversation services "a1" 5 "c1" "u1" db
unfolding crystallize_conversation get_row generate_unique_slug save_row decimal
crystallize_conversation_again_example =
    crystallize_conversation_again services "a1" "a2" 5 9 "c1" "u1" db refl
