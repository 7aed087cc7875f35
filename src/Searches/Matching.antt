-- ===== src/Searches/Matching.antt =====
-- services/saved_searches.py `execute`: which articles a saved search finds.
use wikimind.Prelude.{
  String, ◌==◌, eq→path, ◌≡◌, refl, Bool, false, not, ◌&&◌, ◌||◌, some, List, [], ◌∷◌, map, filter,
  all, any, contains, Result, ok, err, arith,
}
use wikimind.Tags.{Article, Tag, tagged_with}
use wikimind.Searches.{
  Db, SavedSearch, SavedSearchResponse, Text, get, execute, matches, filters_of, names_of,
  is_candidate, candidates, tag_ids_named, narrow_by_tags, narrow_by_concepts, with_concept,
}

contains-filter :
    (p : String → Bool) (ids : List String) (i : String)
    → contains (filter p ids) i ≡ (contains ids i && p i)
contains-filter p [] i = refl
contains-filter p (x ∷ ids) i = ground (arith, contains-filter p ids i, eq→path i x)

contains-narrow_by_tags :
    (db : Db) (tag_ids ids : List String) (i : String)
    → contains (narrow_by_tags db tag_ids ids) i
      ≡ (contains ids i && all (λ t. contains (tagged_with t db.tagging) i) tag_ids)
unfolding narrow_by_tags
contains-narrow_by_tags db [] ids i = ground arith
contains-narrow_by_tags db (t ∷ tag_ids) ids i = ground (
  arith,
  contains-narrow_by_tags db tag_ids (filter (contains (tagged_with t db.tagging)) ids) i,
  contains-filter (contains (tagged_with t db.tagging)) ids i,
)

contains-narrow_by_concepts :
    (db : Db) (concepts ids : List String) (i : String)
    → contains (narrow_by_concepts db concepts ids) i
      ≡ (contains ids i && all (λ c. contains (with_concept db c) i) concepts)
unfolding narrow_by_concepts
contains-narrow_by_concepts db [] ids i = ground arith
contains-narrow_by_concepts db (c ∷ concepts) ids i = ground (
  arith,
  contains-narrow_by_concepts db concepts (filter (contains (with_concept db c)) ids) i,
  contains-filter (contains (with_concept db c)) ids i,
)

-- An id is among the candidates if some article with it is the user's and matches the query.
contains-candidates :
    (text : Text) (query user_id i : String) (articles : List Article)
    → contains (map Article.id (filter (is_candidate text query user_id) articles)) i
      ≡ any (λ a. i == a.id && is_candidate text query user_id a) articles
contains-candidates text query user_id i [] = refl
contains-candidates text query user_id i (a ∷ articles) =
    ground (arith, contains-candidates text query user_id i articles)

-- Every tag of the user with one of the names is on the article.
all-tag_ids :
    (user_id i : String) (names : List String) (db : Db) (tags : List Tag)
    → all
        (λ t. contains (tagged_with t db.tagging) i)
        (map Tag.id (filter (λ t. t.user_id == user_id && contains names t.name) tags))
      ≡ all
          (λ t.
            not (t.user_id == user_id && contains names t.name)
            || contains (tagged_with t.id db.tagging) i)
          tags
all-tag_ids user_id i names db [] = refl
all-tag_ids user_id i names db (t ∷ tags) = ground (arith, all-tag_ids user_id i names db tags)

-- Whether a run of a saved search returned an article's id.
abbrev pub returned : String → Result (SavedSearchResponse × List String) → Bool
returned i (ok (response, ids)) = contains ids i
returned i (err e) = false

-- A saved search of the user returns an article id just if some article of the user with that id
-- matches the query, every tag of the user whose name is among the filter's names is on it, and
-- every concept of the filter is on it. A name that no tag of the user has does not filter.
pub execute_lem :
    (text : Text) (search_id user_id i : String) (saved : SavedSearch) (db : Db)
    → get search_id user_id db ≡ some saved
    → returned i (execute text search_id user_id db).0 ≡ (
        any (λ a. i == a.id && is_candidate text saved.query user_id a) db.tagging.articles
        && all
            (λ t.
              not (t.user_id == user_id && contains (names_of (filters_of text saved).tags) t.name)
              || contains (tagged_with t.id db.tagging) i)
            db.tagging.tags
        && all (λ c. contains (with_concept db c) i) (names_of (filters_of text saved).concepts))
unfolding execute matches candidates tag_ids_named
execute_lem text search_id user_id i saved db found =
    let names = names_of (filters_of text saved).tags in
    let concepts = names_of (filters_of text saved).concepts in
    let own = candidates text saved.query user_id db in
    let tag_ids = tag_ids_named user_id names db in
    ground (
      arith,
      found,
      contains-narrow_by_concepts db concepts (narrow_by_tags db tag_ids own) i,
      contains-narrow_by_tags db tag_ids own i,
      contains-candidates text saved.query user_id i db.tagging.articles,
      all-tag_ids user_id i names db db.tagging.tags,
    )
