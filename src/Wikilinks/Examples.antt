-- ===== src/Wikilinks/Examples.antt =====
-- engine/wikilink_resolver.py on two users' articles, with strings taken as they are.
use wikimind.Prelude.{ℕ, String, ◌≤◌, arith, Option, none, some, List, [], ◌∷◌, All}
use wikimind.Wikilinks.{Article, resolve_backlink_candidates}
use wikimind.Wikilinks.Resolution.{Answers, resolve_backlink_candidates_lem}
use wikimind.Wikilinks.Ownership.{IsOwnTarget, resolved_own}

abbrev same : String → String
same s = s

abbrev no_relations : String → Option String
no_relations s = none

abbrev article : String → String → String → ℕ → Article
article id user_id title created_at = record {
  id = id;
  user_id = user_id;
  title = title;
  created_at = created_at;
}

abbrev table : List Article
table =
    article "a1" "u1" "memory" 5
    ∷ article "a2" "u2" "memory" 1
    ∷ article "a3" "u1" "attention" 2
    ∷ []

abbrev candidates : List String
candidates = "memory" ∷ "attention" ∷ "sleep" ∷ "memory" ∷ []

resolve_backlink_candidates_lem_example :
    Answers same same same no_relations "u1"
      (some "a3")
      table
      candidates
      (resolve_backlink_candidates same same same no_relations "u1" (some "a3") table candidates)
resolve_backlink_candidates_lem_example =
    resolve_backlink_candidates_lem same same same no_relations "u1" (some "a3") table candidates

-- A property that every row has.
abbrev IsDated : Article → Type 0
IsDated a = a.created_at ≤ 5

resolved_own_example :
    All
      (IsOwnTarget same same same no_relations "u1" (some "a3") IsDated)
      (resolve_backlink_candidates same same same no_relations "u1"
        (some "a3")
        table
        candidates).resolved
resolved_own_example =
    resolved_own same same same no_relations "u1" (some "a3") IsDated table candidates
      (omega arith, (omega arith, (omega arith, tt)))
