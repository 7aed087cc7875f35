-- ===== src/Tags/Constraints.antt =====
-- services/tags.py: the constraints of the tag tables, and what they say of a lookup.
use wikimind.Prelude.{
  String, ◌==◌, eq_sym, eq→path, ◌≡◌, refl, Bool, true, false, ◌&&◌, ◌||◌, none, some, List, [],
  ◌∷◌, map, find, any, All, IsDistinct, get_row, arith,
}
use wikimind.Tags.{Tag, Article, ArticleTag, Db, clashes, joins}

-- The unique constraints of the association table: the row id, and the article with the tag.
unfoldable pub same_row : ArticleTag → ArticleTag → Bool
unfolding joins
same_row new a = a.id == new.id || joins new.article_id new.tag_id a

pub same_id : Article → Article → Bool
same_id new a = a.id == new.id

-- The association's tag and article are there and belong to one user.
unfoldable pub one_owner : List Tag → List Article → ArticleTag → Bool
one_owner tags articles a = elim (get_row Tag.id a.tag_id tags) [
  | none ↦ false
  | some tag ↦ elim (get_row Article.id a.article_id articles) [
    | none ↦ false
    | some article ↦ tag.user_id == article.user_id
  ]
]

pub record IsSound (db : Db) : Type 0 where
  pub articles_distinct : IsDistinct same_id db.articles
  pub tags_distinct : IsDistinct clashes db.tags
  pub rows_distinct : IsDistinct same_row db.article_tags
  pub rows_owned : All (λ a. one_owner db.tags db.articles a ≡ true) db.article_tags

pub clashes_sym : (s t : Tag) → clashes s t ≡ clashes t s
unfolding clashes
clashes_sym s t = ground (arith, eq_sym s.id t.id, eq_sym s.user_id t.user_id, eq_sym s.name t.name)

pub same_row_sym : (a b : ArticleTag) → same_row a b ≡ same_row b a
unfolding same_row joins
same_row_sym a b =
    ground (arith, eq_sym a.id b.id, eq_sym a.article_id b.article_id, eq_sym a.tag_id b.tag_id)

-- A tag found by id and owner is the row that its id names.
owner_elsewhere :
    (tag_id user_id : String) (t : Tag) (tags : List Tag)
    → any (clashes t) tags ≡ false
    → (t.id == tag_id) ≡ true
    → find (λ r. r.id == tag_id && r.user_id == user_id) tags ≡ none
unfolding clashes
owner_elsewhere tag_id user_id t [] fresh same = refl
owner_elsewhere tag_id user_id t (r ∷ tags) fresh same =
    ground (arith, eq→path t.id tag_id, owner_elsewhere tag_id user_id t tags)

pub get_row-get_tag :
    (tag_id user_id : String) (tag : Tag) (tags : List Tag)
    → IsDistinct clashes tags
    → find (λ r. r.id == tag_id && r.user_id == user_id) tags ≡ some tag
    → (get_row Tag.id tag_id tags ≡ some tag) × ((tag.user_id == user_id) ≡ true)
unfolding get_row
get_row-get_tag tag_id user_id tag [] distinct found = absurd (cc)
get_row-get_tag tag_id user_id tag (r ∷ tags) distinct found = ground (
  arith,
  owner_elsewhere tag_id user_id r tags distinct.0,
  get_row-get_tag tag_id user_id tag tags distinct.1,
)

article_elsewhere :
    (article_id user_id : String) (a : Article) (articles : List Article)
    → any (same_id a) articles ≡ false
    → (a.id == article_id) ≡ true
    → find (λ r. r.id == article_id && r.user_id == user_id) articles ≡ none
unfolding same_id
article_elsewhere article_id user_id a [] fresh same = refl
article_elsewhere article_id user_id a (r ∷ articles) fresh same =
    ground (arith, eq→path a.id article_id, article_elsewhere article_id user_id a articles)

pub get_row-get_article :
    (article_id user_id : String) (article : Article) (articles : List Article)
    → IsDistinct same_id articles
    → find (λ r. r.id == article_id && r.user_id == user_id) articles ≡ some article
    → (get_row Article.id article_id articles ≡ some article)
      × ((article.user_id == user_id) ≡ true)
unfolding get_row
get_row-get_article article_id user_id article [] distinct found = absurd (cc)
get_row-get_article article_id user_id article (r ∷ articles) distinct found = ground (
  arith,
  article_elsewhere article_id user_id r articles distinct.0,
  get_row-get_article article_id user_id article articles distinct.1,
)

All-map_of :
    (P : String → Type 0) (rows : List ArticleTag)
    → All (λ a. P a.article_id) rows
    → All P (map ArticleTag.article_id rows)
All-map_of P [] h = tt
All-map_of P (a ∷ rows) h = (h.0, All-map_of P rows h.1)
