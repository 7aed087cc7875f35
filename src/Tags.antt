-- ===== src/Tags.antt =====
-- services/tags.py and models/tables/tags.py: the tags that a user puts on articles. The ids and
-- creation times of new rows are arguments. SQL leaves the order of a join open: here it is the
-- order of the association rows.
pub mod Associations
pub mod Constraints
pub mod Integrity
mod Examples
use wikimind.Prelude.{
  ℕ, String, ◌==◌, Bool, true, false, not, ◌&&◌, ◌||◌, Option, none, some, List, [], ◌∷◌, ◌++◌,
  sort_by, map, leb, filter, find, any, contains, is_some, if◌then◌else◌, get_row, save_row,
  update_row, delete_row, Result, ok, err, not_found, integrity_error, Action,
}

pub record Article : Type 0 where
  pub id : String
  pub user_id : String
  pub title : String

pub record Tag : Type 0 where
  pub id : String
  pub user_id : String
  pub name : String
  pub color : String
  pub created_at : ℕ

pub record ArticleTag : Type 0 where
  pub id : String
  pub article_id : String
  pub tag_id : String

pub record Db : Type 0 where
  pub articles : List Article
  pub tags : List Tag
  pub article_tags : List ArticleTag

pub record TagResponse : Type 0 where
  pub id : String
  pub name : String
  pub color : String
  pub created_at : ℕ

unfoldable pub to_tag_response : Tag → TagResponse
to_tag_response tag = record {
  id = tag.id;
  name = tag.name;
  color = tag.color;
  created_at = tag.created_at;
}

-- `_get_tag`: the row of this id and this owner.
unfoldable pub get_tag : String → String → Db → Option Tag
get_tag tag_id user_id db = find (λ t. t.id == tag_id && t.user_id == user_id) db.tags

-- `_get_article`
unfoldable pub get_article : String → String → Db → Option Article
get_article article_id user_id db =
    find (λ a. a.id == article_id && a.user_id == user_id) db.articles

-- The unique constraints of the tag table: the id, and the name among a user's tags.
pub clashes : Tag → Tag → Bool
clashes new tag = tag.id == new.id || (tag.user_id == new.user_id && tag.name == new.name)

pub create_tag : (tag_id : String) → ℕ → String → String → String → Action Db TagResponse
unfolding clashes to_tag_response
create_tag tag_id now user_id name color db =
    let tag : Tag = record {
      id = tag_id;
      user_id = user_id;
      name = name;
      color = color;
      created_at = now;
    } in
    if any (clashes tag) db.tags
    then (err integrity_error, db)
    else (ok (to_tag_response tag), record db { tags = db.tags ++ (tag ∷ []) })

-- `order_by(created_at)`, rows of one time in the table's order.
oldest_first : List Tag → List Tag
oldest_first = sort_by (λ s t. leb s.created_at t.created_at)

pub list_tags : String → Db → List TagResponse
unfolding oldest_first to_tag_response
list_tags user_id db =
    map to_tag_response (oldest_first (filter (λ t. t.user_id == user_id) db.tags))

-- The tag's associations are deleted before the tag.
pub delete_tag : String → String → Action Db (Unit {0})
unfolding get_tag
delete_tag tag_id user_id db = elim (get_tag tag_id user_id db) [
  | none ↦ (err (not_found "Tag not found"), db)
  | some tag ↦ (
    ok tt,
    record db {
      tags = delete_row Tag.id tag.id db.tags;
      article_tags = filter (λ a. not (a.tag_id == tag.id)) db.article_tags;
    },
  )
]

-- The association of an article with a tag.
unfoldable pub joins : String → String → ArticleTag → Bool
joins article_id tag_id a = a.article_id == article_id && a.tag_id == tag_id

-- The row that the flush inserts, if the article is not tagged already.
associate : String → String → String → Action Db (Unit {0})
unfolding joins
associate new_id article_id tag_id db =
    if is_some (find (joins article_id tag_id) db.article_tags)
    then (ok tt, db)
    else if is_some (get_row ArticleTag.id new_id db.article_tags)
    then (err integrity_error, db)
    else (
      ok tt,
      record db {
        article_tags =
            db.article_tags
            ++ (record { id = new_id; article_id = article_id; tag_id = tag_id } ∷ []);
      },
    )

pub tag_article : (new_id : String) → String → String → String → Action Db (Unit {0})
unfolding get_tag get_article associate
tag_article new_id article_id tag_id user_id db = elim (get_tag tag_id user_id db) [
  | none ↦ (err (not_found "Tag not found"), db)
  | some _ ↦ elim (get_article article_id user_id db) [
    | none ↦ (err (not_found "Article not found"), db)
    | some _ ↦ associate new_id article_id tag_id db
  ]
]

pub untag_article : String → String → String → Action Db (Unit {0})
unfolding get_tag joins
untag_article article_id tag_id user_id db = elim (get_tag tag_id user_id db) [
  | none ↦ (err (not_found "Tag not found"), db)
  | some _ ↦ elim (find (joins article_id tag_id) db.article_tags) [
    | none ↦ (err (not_found "Article is not tagged with this tag"), db)
    | some a ↦ (ok tt, record db { article_tags = delete_row ArticleTag.id a.id db.article_tags })
  ]
]

unfoldable pub tagged_with : String → Db → List String
tagged_with tag_id db = map ArticleTag.article_id (filter (λ a. a.tag_id == tag_id) db.article_tags)

pub get_articles_by_tag : String → String → Db → Result (List String)
unfolding get_tag tagged_with
get_articles_by_tag tag_id user_id db = elim (get_tag tag_id user_id db) [
  | none ↦ err (not_found "Tag not found")
  | some _ ↦ ok (tagged_with tag_id db)
]

-- The join of associations with tags: the rows of an association whose tag is there.
pub tags_joined : (ArticleTag → Bool) → List Tag → List ArticleTag → List (String × TagResponse)
unfolding to_tag_response
tags_joined p tags [] = []
tags_joined p tags (a ∷ joined) =
    let later = tags_joined p tags joined in
    if p a
    then elim (get_row Tag.id a.tag_id tags) [
      | none ↦ later
      | some tag ↦ (a.article_id, to_tag_response tag) ∷ later
    ]
    else later

pub applied_tags : String → Db → List TagResponse
unfolding tags_joined
applied_tags article_id db =
    map (λ p. p.1) (tags_joined (λ a. a.article_id == article_id) db.tags db.article_tags)

pub get_tags_for_article : String → Option String → Db → Result (List TagResponse)
unfolding get_article applied_tags
get_tags_for_article article_id none db = ok (applied_tags article_id db)
get_tags_for_article article_id (some user_id) db = elim (get_article article_id user_id db) [
  | none ↦ err (not_found "Article not found")
  | some _ ↦ ok (applied_tags article_id db)
]

-- `{aid: [] for aid in article_ids}`, onto the entries made so far
pub blank : List String → List (String × List TagResponse) → List (String × List TagResponse)
blank [] entries = entries
blank (aid ∷ aids) entries = blank aids (save_row (λ e. e.0) (aid, []) entries)

-- `result_map[article_id].append(...)` for each row of the join
pub append_rows :
    List (String × TagResponse)
    → List (String × List TagResponse)
    → List (String × List TagResponse)
append_rows [] entries = entries
append_rows ((aid, tag) ∷ rows) entries =
    append_rows rows (update_row (λ e. e.0) aid (λ e. (e.0, e.1 ++ (tag ∷ []))) entries)

-- The query is skipped for no articles, as its result is then empty.
pub get_tags_for_articles : List String → Db → List (String × List TagResponse)
unfolding blank append_rows tags_joined
get_tags_for_articles [] db = []
get_tags_for_articles (aid ∷ aids) db =
    append_rows (tags_joined (λ a. contains (aid ∷ aids) a.article_id) db.tags db.article_tags)
      (blank (aid ∷ aids) [])
