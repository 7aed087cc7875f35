-- ===== src/Backlinks.antt =====
-- engine/backlink_enforcer.py: the structural checks of an article's links, and their repair.
pub mod Symmetry
pub mod Repair
mod Examples
use wikimind.Prelude.{
  ℕ, String, ◌==◌, Bool, true, false, not, ◌&&◌, ◌||◌, Option, none, some, List, [], ◌∷◌, ◌++◌,
  filter, any, count, map, ltb, if◌then◌else◌, get_row,
}

-- models/enums.py `RelationType`
pub data RelationType : Type 0 where
  references contradicts extends supersedes synthesizes related_to : RelationType

-- models/tables/wiki.py `Backlink`: the columns that the enforcer reads and writes. A pair of
-- articles has one row for each direction.
pub record Backlink : Type 0 where
  pub source_article_id : String
  pub target_article_id : String
  pub user_id : String
  pub context : Option String
  pub relation_type : RelationType

-- `concepts` are the names in the join table, or those of the JSON column where it has none.
pub record Article : Type 0 where
  pub id : String
  pub title : String
  pub page_type : String
  pub concepts : List String

pub data Violation : Type 0 where
  not_found : String → Violation
  source_no_concepts : String → Violation
  concept_insufficient_synthesizes : String → ℕ → Violation
  missing_inverse_link : Backlink → Violation

unfoldable pub is_symmetric : RelationType → Bool
is_symmetric contradicts = true
is_symmetric related_to = true
is_symmetric r = false

unfoldable pub is_synthesizes : RelationType → Bool
is_synthesizes synthesizes = true
is_synthesizes r = false

-- There is a row from one article to another.
unfoldable pub has_link : String → String → List Backlink → Bool
has_link source target links =
    any (λ b. b.source_article_id == source && b.target_article_id == target) links

unfoldable pub inverse : Backlink → Backlink
inverse b = record b {
  source_article_id = b.target_article_id;
  target_article_id = b.source_article_id;
}

unfoldable pub ensure_bidirectional : Backlink → List Backlink → Bool × List Backlink
unfolding is_symmetric has_link inverse
ensure_bidirectional b links =
    if not (is_symmetric b.relation_type)
    then (false, links)
    else if has_link b.target_article_id b.source_article_id links
    then (false, links)
    else (true, links ++ (inverse b ∷ []))

-- The loop over `all_links`: the links that were repaired, and the table after it.
unfoldable pub ensure_all : List Backlink → List Backlink → List Backlink × List Backlink
unfolding ensure_bidirectional
ensure_all [] links = ([], links)
ensure_all (b ∷ bs) links =
    let (created, after) = ensure_bidirectional b links in
    let (repaired, final) = ensure_all bs after in
    (if created then b ∷ repaired else repaired, final)

unfoldable pub outbound : String → List Backlink → List Backlink
outbound article_id links = filter (λ b. b.source_article_id == article_id) links

unfoldable pub inbound : String → List Backlink → List Backlink
inbound article_id links = filter (λ b. b.target_article_id == article_id) links

is_empty : List String → Bool
is_empty [] = true
is_empty (x ∷ xs) = false

-- The first two checks.
unfoldable pub page_violations : Article → List Backlink → List Violation
unfolding is_synthesizes is_empty
page_violations article links =
    let synth_count =
      count (λ b. b.source_article_id == article.id && is_synthesizes b.relation_type) links in
    (if article.page_type == "source" && is_empty article.concepts
      then source_no_concepts article.id ∷ []
      else [])
    ++ (if article.page_type == "concept" && ltb synth_count 2
        then concept_insufficient_synthesizes article.id synth_count ∷ []
        else [])

-- The checks of an article that was found, and the table after them.
unfoldable pub enforce_article : Article → List Backlink → List Violation × List Backlink
unfolding page_violations outbound inbound ensure_all
enforce_article article links =
    let (repaired, final) =
      ensure_all (outbound article.id links ++ inbound article.id links) links in
    (page_violations article links ++ map missing_inverse_link repaired, final)

unfoldable pub enforce_backlinks :
    List Article → String → List Backlink → List Violation × List Backlink
unfolding enforce_article
enforce_backlinks articles article_id links = elim (get_row Article.id article_id articles) [
  | none ↦ (not_found article_id ∷ [], links)
  | some article ↦ enforce_article article links
]
