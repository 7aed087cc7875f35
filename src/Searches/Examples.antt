-- ===== src/Searches/Examples.antt =====
-- A saved search on concrete rows: two articles, one of them tagged.
use wikimind.Prelude.{String, ◌≡◌, refl, true, false, some, List, [], ◌∷◌}
use wikimind.Tags.{tagged_with}
use wikimind.Searches.{
  Db, SavedSearch, Text, get, execute, is_candidate, names_of, filters_of, with_concept,
}
use wikimind.Searches.Matching.{returned, execute_lem}

abbrev db : Db
db = record {
  tagging = record {
    articles =
        record { id = "a1"; user_id = "u1"; title = "Caching" }
        ∷ record { id = "a2"; user_id = "u1"; title = "Prompts" }
        ∷ [];
    tags =
        record { id = "t1"; user_id = "u1"; name = "read-later"; color = "#6366f1"; created_at = 0 }
        ∷ [];
    article_tags = record { id = "r1"; article_id = "a1"; tag_id = "t1" } ∷ [];
  };
  article_concepts = ("a1", "llm") ∷ ("a2", "llm") ∷ [];
  saved_searches = [];
}

abbrev saved : SavedSearch
saved = record {
  id = "s1";
  user_id = "u1";
  name = "to read";
  query = "";
  filters_json = "{}";
  created_at = 0;
}

abbrev stored : Db
stored = record db { saved_searches = saved ∷ [] }

abbrev text_with : List String → Text
text_with names = record {
  loads = λ json. some (record { tags = some names; concepts = some ("llm" ∷ []) });
  strip = λ s. s;
  ilike = λ query title. true;
}

execute_lem_example :
    returned "a2" (execute (text_with ("read-later" ∷ [])) "s1" "u1" stored).0 ≡ false
unfolding get is_candidate names_of filters_of with_concept tagged_with
execute_lem_example = execute_lem (text_with ("read-later" ∷ [])) "s1" "u1" "a2" saved stored refl

-- A filter by a tag that the user does not have finds every article.
unknown_name_ignored : returned "a2" (execute (text_with ("gone" ∷ [])) "s1" "u1" stored).0 ≡ true
unfolding get is_candidate names_of filters_of with_concept tagged_with
unknown_name_ignored = execute_lem (text_with ("gone" ∷ [])) "s1" "u1" "a2" saved stored refl
