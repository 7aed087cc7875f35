-- ===== src/Backlinks/Examples.antt =====
-- engine/backlink_enforcer.py on an article with two links that contradict other articles, one of
-- which refers to it already.
use wikimind.Prelude.{◌≡◌, refl, true, none, some, List, [], ◌∷◌, String, All}
use wikimind.Backlinks.{
  Article, Backlink, RelationType, contradicts, references, is_symmetric, enforce_article,
}
use wikimind.Backlinks.Symmetry.{link_of, other_row}
use wikimind.Backlinks.Repair.{touches, symmetric-enforce_article}

abbrev article : Article
article = record { id = "a1"; title = "Memory"; page_type = "source"; concepts = "memory" ∷ [] }

abbrev link : String → String → RelationType → Backlink
link source target relation_type = record {
  source_article_id = source;
  target_article_id = target;
  user_id = "u1";
  context = none;
  relation_type = relation_type;
}

abbrev links : List Backlink
links = link "a1" "a2" contradicts ∷ link "a1" "a3" contradicts ∷ link "a3" "a1" references ∷ []

symmetric-enforce_article_example :
    All
      (λ b.
        touches "a1" b ≡ true
        → is_symmetric b.relation_type ≡ true
        → link_of b.target_article_id b.source_article_id (enforce_article article links).1
          ≡ some (other_row links b))
      links
symmetric-enforce_article_example =
    symmetric-enforce_article article links (refl, (refl, (refl, tt)))

-- An inverse is made for the first; the second keeps a link back of another type.
other_rows_run :
    (link_of "a2" "a1" (enforce_article article links).1 ≡ some (link "a2" "a1" contradicts))
    × (link_of "a3" "a1" (enforce_article article links).1 ≡ some (link "a3" "a1" references))
unfolding enforce_article
other_rows_run = (refl, refl)
