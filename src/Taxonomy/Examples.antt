-- ===== src/Taxonomy/Examples.antt =====
-- services/taxonomy.py on two concepts and a model's answer about them.
use wikimind.Prelude.{
  String, ◌≡◌, true, false, Option, none, some, List, [], ◌∷◌, All, Result, ok, arith, eq_refl,
  eq_iff, get_row, is_some, ◌↔◌,
}
use wikimind.Taxonomy.{
  Concept, Hierarchy, listed, Parent, concepts_of, has_cycles, rebuild_taxonomy,
}
use wikimind.Taxonomy.Climbing.{Ends}
use wikimind.Taxonomy.Cycles.{has_cycles_lem}
use wikimind.Taxonomy.Rebuild.{HasUniqueIds, Rebuilt, rebuild_taxonomy_lem}
use wikimind.Taxonomy.Counts.{Article, ArticleConcept}

abbrev concept : String → String → Concept
concept id name = record {
  id = id;
  user_id = "u1";
  name = name;
  parent_id = none;
  article_count = 0;
}

abbrev concepts : List Concept
concepts = concept "c1" "science" ∷ concept "c2" "physics" ∷ []

concepts-HasUniqueIds : HasUniqueIds concepts
unfolding get_row
concepts-HasUniqueIds = ground (arith, eq_refl "c1", eq_refl "c2", eq_iff "c1" "c2")

abbrev response : List Concept → Result (Option Hierarchy)
response cs = ok (
    some (
      listed (
        some (record { name = some "science"; parent = none })
        ∷ some (record { name = some "physics"; parent = some "science" })
        ∷ none
        ∷ [])))

rebuild_taxonomy_lem_example :
    Rebuilt "u1" concepts concepts-HasUniqueIds 3
      (response (concepts_of "u1" concepts))
      (rebuild_taxonomy 3 "u1" response concepts)
rebuild_taxonomy_lem_example =
    rebuild_taxonomy_lem "u1" concepts concepts-HasUniqueIds 3 response (omega arith)

abbrev tree : List Parent
tree =
    record { name = "science"; parent = none }
    ∷ record { name = "physics"; parent = some "science" }
    ∷ []

has_cycles_lem_example :
    (is_some (has_cycles tree) ≡ true)
    × ((has_cycles tree ≡ some false) ↔ All (λ row. Ends tree (some row.name)) tree)
has_cycles_lem_example = has_cycles_lem tree

abbrev articles : List Article
articles = record { id = "a1"; user_id = "u1"; page_type = "source" } ∷ []

abbrev links : List ArticleConcept
links = record { article_id = "a1"; concept_name = "physics" } ∷ []
