-- ===== src/Searches.antt =====
-- services/saved_searches.py: saved searches with tag and concept filters, over the tables of
-- services/tags.py and the article-concept table. A set of article ids is the list of its elements.
pub mod Matching
mod Examples
use wikimind.Prelude.{
  ℕ, String, ◌==◌, Bool, true, false, ◌&&◌, Option, none, some, List, [], ◌∷◌, ◌++◌, sort_by, map,
  leb, filter, find, contains, is_some, if◌then◌else◌, get_row, delete_row, ok, err, not_found,
  integrity_error, Action,
}
use wikimind.Tags
use wikimind.Tags.{Article, Tag, tagged_with}

pub record SavedSearch : Type 0 where
  pub id : String
  pub user_id : String
  pub name : String
  pub query : String
  pub filters_json : String
  pub created_at : ℕ

-- A row of the article-concept table: the article's id and the concept's name.
pub record Db : Type 0 where
  pub tagging : Tags.Db
  pub article_concepts : List (String × String)
  pub saved_searches : List SavedSearch

pub record SavedSearchResponse : Type 0 where
  pub id : String
  pub name : String
  pub query : String
  pub filters_json : String
  pub created_at : ℕ

-- The keys of the JSON object that `execute` reads.
pub record Filters : Type 0 where
  pub tags : Option (List String)
  pub concepts : Option (List String)

-- `json.loads`, with `none` for a text that it refuses, `str.strip`, and SQL's `ilike` of a title
-- against a pattern with `%` on both sides.
pub record Text : Type 0 where
  pub loads : String → Option Filters
  pub strip : String → String
  pub ilike : String → String → Bool

to_response : SavedSearch → SavedSearchResponse
to_response search = record {
  id = search.id;
  name = search.name;
  query = search.query;
  filters_json = search.filters_json;
  created_at = search.created_at;
}

pub create :
    (search_id : String) → ℕ → String → String → String → String → Action Db SavedSearchResponse
unfolding to_response
create search_id now user_id name query filters_json db =
    let saved : SavedSearch = record {
      id = search_id;
      user_id = user_id;
      name = name;
      query = query;
      filters_json = filters_json;
      created_at = now;
    } in
    if is_some (get_row SavedSearch.id search_id db.saved_searches)
    then (err integrity_error, db)
    else (ok (to_response saved), record db { saved_searches = db.saved_searches ++ (saved ∷ []) })

oldest_first : List SavedSearch → List SavedSearch
oldest_first = sort_by (λ s t. leb s.created_at t.created_at)

pub list_searches : String → Db → List SavedSearchResponse
unfolding oldest_first to_response
list_searches user_id db =
    map to_response (oldest_first (filter (λ s. s.user_id == user_id) db.saved_searches))

-- `_get`: the row of this id and this owner.
pub get : String → String → Db → Option SavedSearch
get search_id user_id db = find (λ s. s.id == search_id && s.user_id == user_id) db.saved_searches

pub delete : String → String → Action Db (Unit {0})
unfolding get
delete search_id user_id db = elim (get search_id user_id db) [
  | none ↦ (err (not_found "Saved search not found"), db)
  | some saved ↦
      (ok tt, record db { saved_searches = delete_row SavedSearch.id saved.id db.saved_searches })
]

-- `json.loads` with its errors caught: the filters default to none.
pub filters_of : Text → SavedSearch → Filters
filters_of text saved = elim (text.loads saved.filters_json) [
  | none ↦ record { tags = none; concepts = none }
  | some filters ↦ filters
]

-- `filters.get(key, [])`
pub names_of : Option (List String) → List String
names_of none = []
names_of (some names) = names

-- The articles of the user whose title matches the query, all of them for a blank query.
pub is_candidate : Text → String → String → Article → Bool
is_candidate text query user_id article =
    article.user_id == user_id
    && (if text.strip query == "" then true else text.ilike (text.strip query) article.title)

pub candidates : Text → String → String → Db → List String
unfolding is_candidate
candidates text query user_id db =
    map Article.id (filter (is_candidate text query user_id) db.tagging.articles)

-- The ids of the user's tags that have one of the names.
pub tag_ids_named : String → List String → Db → List String
tag_ids_named user_id names db =
    map Tag.id (filter (λ t. t.user_id == user_id && contains names t.name) db.tagging.tags)

-- `candidate_ids &= tagged_ids` for each tag
pub narrow_by_tags : Db → List String → List String → List String
narrow_by_tags db [] ids = ids
narrow_by_tags db (tag_id ∷ tag_ids) ids =
    narrow_by_tags db tag_ids (filter (contains (tagged_with tag_id db.tagging)) ids)

pub with_concept : Db → String → List String
with_concept db concept = map (λ r. r.0) (filter (λ r. r.1 == concept) db.article_concepts)

-- `candidate_ids &= concept_ids` for each concept
pub narrow_by_concepts : Db → List String → List String → List String
unfolding with_concept
narrow_by_concepts db [] ids = ids
narrow_by_concepts db (concept ∷ concepts) ids =
    narrow_by_concepts db concepts (filter (contains (with_concept db concept)) ids)

-- The matching articles of a saved search.
pub matches : Text → String → SavedSearch → Db → List String
unfolding candidates filters_of names_of tag_ids_named narrow_by_tags narrow_by_concepts
matches text user_id saved db =
    let filters = filters_of text saved in
    narrow_by_concepts db (names_of filters.concepts) (
      narrow_by_tags db (tag_ids_named user_id (names_of filters.tags) db)
        (candidates text saved.query user_id db))

pub execute : Text → String → String → Action Db (SavedSearchResponse × List String)
unfolding get matches to_response
execute text search_id user_id db = elim (get search_id user_id db) [
  | none ↦ (err (not_found "Saved search not found"), db)
  | some saved ↦ (ok (to_response saved, matches text user_id saved db), db)
]
