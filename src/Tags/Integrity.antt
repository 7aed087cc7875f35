-- ===== src/Tags/Integrity.antt =====
-- services/tags.py: the constraints of the tag tables, which every call keeps.
use wikimind.Prelude.{
  ℕ, String, ◌==◌, eq_refl, eq_sym, eq→path, ◌≡◌, refl, true, false, not, List, [], ◌∷◌, ◌++◌, find,
  any, is_some, All-map, All-append, All-filter, All-filter-if, IsDistinct-append,
  IsDistinct-filter, get_row, delete_row, delete_row-filter, get_row-delete_row, get_row-append,
  arith, Option-cases, Bool-cases, inl, inr,
}
use wikimind.Tags.{
  Tag, Article, ArticleTag, Db, get_tag, get_article, clashes, joins, associate, create_tag,
  tag_article, untag_article, delete_tag,
}
use wikimind.Tags.Constraints.{
  same_row, one_owner, IsSound, clashes_sym, same_row_sym, get_row-get_tag, get_row-get_article,
}

pub data Call : Type 0 where
  create : (tag_id : String) → ℕ → String → String → String → Call
  delete : String → String → Call
  apply : (new_id : String) → String → String → String → Call
  remove : String → String → String → Call

unfoldable pub perform : Call → Db → Db
perform (create tag_id now user_id name color) db = (create_tag tag_id now user_id name color db).1
perform (delete tag_id user_id) db = (delete_tag tag_id user_id db).1
perform (apply new_id article_id tag_id user_id) db =
    (tag_article new_id article_id tag_id user_id db).1
perform (remove article_id tag_id user_id) db = (untag_article article_id tag_id user_id db).1

unfoldable pub perform_all : List Call → Db → Db
unfolding perform
perform_all [] db = db
perform_all (c ∷ cs) db = perform_all cs (perform c db)

one_owner-append :
    (tags : List Tag) (articles : List Article) (t : Tag) (a : ArticleTag)
    → one_owner tags articles a ≡ true
    → one_owner (tags ++ (t ∷ [])) articles a ≡ true
unfolding one_owner
one_owner-append tags articles t a h = ground (arith, get_row-append Tag.id a.tag_id tags t)

one_owner-delete_row :
    (tags : List Tag) (articles : List Article) (tag_id : String) (a : ArticleTag)
    → not (a.tag_id == tag_id) ≡ true
    → one_owner tags articles a ≡ true
    → one_owner (delete_row Tag.id tag_id tags) articles a ≡ true
unfolding one_owner
one_owner-delete_row tags articles tag_id a other h =
    ground (arith, get_row-delete_row Tag.id tag_id a.tag_id tags, eq_sym a.tag_id tag_id)

IsSound-create_tag :
    (tag_id : String) (now : ℕ) (user_id name color : String) (db : Db)
    → IsSound db
    → IsSound (create_tag tag_id now user_id name color db).1
unfolding create_tag
IsSound-create_tag tag_id now user_id name color db s =
    let tag : Tag = record {
      id = tag_id;
      user_id = user_id;
      name = name;
      color = color;
      created_at = now;
    } in
    elim (Bool-cases (any (clashes tag) db.tags)) [
      | inl taken ↦ rw taken s
      | inr fresh ↦ rw fresh (record {
        articles_distinct = s.articles_distinct;
        tags_distinct = IsDistinct-append clashes db.tags tag clashes_sym fresh s.tags_distinct;
        rows_distinct = s.rows_distinct;
        rows_owned =
            All-map (one_owner-append db.tags db.articles tag) db.article_tags s.rows_owned;
      })
    ]

IsSound-delete_tag :
    (tag_id user_id : String) (db : Db) → IsSound db → IsSound (delete_tag tag_id user_id db).1
unfolding delete_tag
IsSound-delete_tag tag_id user_id db s = elim (Option-cases (get_tag tag_id user_id db)) [
  | inl missing ↦ rw (missing, delete_tag) s
  | inr (tag, found) ↦
      rw (found, delete_tag)
        (record {
          articles_distinct = s.articles_distinct;
          tags_distinct =
              rw (delete_row-filter Tag.id tag.id db.tags)
                (IsDistinct-filter clashes (λ t. not (t.id == tag.id)) db.tags s.tags_distinct);
          rows_distinct =
              IsDistinct-filter same_row (λ a. not (a.tag_id == tag.id)) db.article_tags
                s.rows_distinct;
          rows_owned =
              All-filter-if (λ a. one_owner db.tags db.articles a ≡ true)
                (λ a. one_owner (delete_row Tag.id tag.id db.tags) db.articles a ≡ true)
                (λ a. not (a.tag_id == tag.id)) db.article_tags
                (one_owner-delete_row db.tags db.articles tag.id) s.rows_owned;
        })
]

not_same_row :
    (new_id article_id tag_id : String) (rows : List ArticleTag)
    → is_some (find (joins article_id tag_id) rows) ≡ false
    → is_some (get_row ArticleTag.id new_id rows) ≡ false
    → any (same_row (record { id = new_id; article_id = article_id; tag_id = tag_id })) rows ≡ false
unfolding get_row same_row
not_same_row new_id article_id tag_id [] absent fresh = refl
not_same_row new_id article_id tag_id (r ∷ rows) absent fresh =
    ground (arith, not_same_row new_id article_id tag_id rows)

IsSound-associate :
    (new_id article_id tag_id : String) (db : Db)
    → IsSound db
    → one_owner db.tags db.articles
        (record { id = new_id; article_id = article_id; tag_id = tag_id })
      ≡ true
    → IsSound (associate new_id article_id tag_id db).1
unfolding associate
IsSound-associate new_id article_id tag_id db s owned =
    elim (Bool-cases (is_some (find (joins article_id tag_id) db.article_tags))) [
      | inl tagged ↦ rw tagged s
      | inr absent ↦ elim (Bool-cases (is_some (get_row ArticleTag.id new_id db.article_tags))) [
        | inl taken ↦ rw (absent, taken) s
        | inr fresh ↦
            rw (absent, fresh)
              (record {
                articles_distinct = s.articles_distinct;
                tags_distinct = s.tags_distinct;
                rows_distinct =
                    IsDistinct-append same_row db.article_tags _ same_row_sym
                      (not_same_row new_id article_id tag_id db.article_tags absent fresh)
                      s.rows_distinct;
                rows_owned =
                    All-append (λ a. one_owner db.tags db.articles a ≡ true) db.article_tags _
                      s.rows_owned (owned, tt);
              })
      ]
    ]

IsSound-tag_article :
    (new_id article_id tag_id user_id : String) (db : Db)
    → IsSound db
    → IsSound (tag_article new_id article_id tag_id user_id db).1
unfolding tag_article
IsSound-tag_article new_id article_id tag_id user_id db s =
    elim (Option-cases (get_tag tag_id user_id db)) [
      | inl missing ↦ rw (missing, tag_article) s
      | inr (tag, t) ↦ elim (Option-cases (get_article article_id user_id db)) [
        | inl missing ↦ rw (t, missing, tag_article) s
        | inr (article, a) ↦
            rw (t, a, tag_article)
              (IsSound-associate new_id article_id tag_id db s (
                unfold one_owner get_tag get_article in
                ground (
                  arith,
                  get_row-get_tag tag_id user_id tag db.tags s.tags_distinct,
                  get_row-get_article article_id user_id article db.articles s.articles_distinct,
                  eq→path tag.user_id user_id,
                  eq→path article.user_id user_id,
                  eq_refl user_id,
                )))
      ]
    ]

IsSound-untag_article :
    (article_id tag_id user_id : String) (db : Db)
    → IsSound db
    → IsSound (untag_article article_id tag_id user_id db).1
unfolding untag_article
IsSound-untag_article article_id tag_id user_id db s =
    elim (Option-cases (get_tag tag_id user_id db)) [
      | inl missing ↦ rw (missing, untag_article) s
      | inr (tag, t) ↦ elim (Option-cases (find (joins article_id tag_id) db.article_tags)) [
        | inl missing ↦ rw (t, missing, untag_article) s
        | inr (row, r) ↦
            rw (t, r, untag_article, delete_row-filter ArticleTag.id row.id db.article_tags)
              (record {
                articles_distinct = s.articles_distinct;
                tags_distinct = s.tags_distinct;
                rows_distinct =
                    IsDistinct-filter same_row (λ a. not (a.id == row.id)) db.article_tags
                      s.rows_distinct;
                rows_owned =
                    All-filter (λ a. one_owner db.tags db.articles a ≡ true)
                      (λ a. not (a.id == row.id)) db.article_tags s.rows_owned;
              })
      ]
    ]

-- Whatever sequence of calls creates, deletes, applies and removes tags, by whichever users: the
-- unique constraints of the three tables stay true, every association's tag and article are there,
-- and one user owns both.
pub IsSound-perform_all :
    (calls : List Call) (db : Db) → IsSound db → IsSound (perform_all calls db)
unfolding perform_all perform
IsSound-perform_all [] db s = s
IsSound-perform_all (create tag_id now user_id name color ∷ cs) db s =
    IsSound-perform_all cs _ (IsSound-create_tag tag_id now user_id name color db s)
IsSound-perform_all (delete tag_id user_id ∷ cs) db s =
    IsSound-perform_all cs _ (IsSound-delete_tag tag_id user_id db s)
IsSound-perform_all (apply new_id article_id tag_id user_id ∷ cs) db s =
    IsSound-perform_all cs _ (IsSound-tag_article new_id article_id tag_id user_id db s)
IsSound-perform_all (remove article_id tag_id user_id ∷ cs) db s =
    IsSound-perform_all cs _ (IsSound-untag_article article_id tag_id user_id db s)
