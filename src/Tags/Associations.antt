-- ===== src/Tags/Associations.antt =====
-- services/tags.py: what tagging and untagging an article do to the associations.
use wikimind.Prelude.{
  String, ◌==◌, eq_refl, ◌≡◌, refl, ap, true, false, not, ◌&&◌, some, List, [], ◌∷◌, ◌++◌, map,
  filter, find, is_some, get_row, delete_row, ok, arith, if◌then◌else◌,
}
use wikimind.Tags.{
  ArticleTag, Db, get_tag, get_article, joins, associate, tag_article, untag_article, tagged_with,
}

find-append :
    (article_id tag_id : String) (rows : List ArticleTag) (a : ArticleTag)
    → is_some (find (joins article_id tag_id) rows) ≡ false
    → joins article_id tag_id a ≡ true
    → find (joins article_id tag_id) (rows ++ (a ∷ [])) ≡ some a
find-append article_id tag_id [] a absent h = ground arith
find-append article_id tag_id (r ∷ rows) a absent h =
    ground (arith, find-append article_id tag_id rows a)

delete_row-append :
    (rows : List ArticleTag) (a : ArticleTag)
    → is_some (get_row ArticleTag.id a.id rows) ≡ false
    → delete_row ArticleTag.id a.id (rows ++ (a ∷ [])) ≡ rows
unfolding get_row delete_row
delete_row-append [] a fresh = ground (arith, eq_refl a.id)
delete_row-append (r ∷ rows) a fresh = ground (arith, delete_row-append rows a)

-- An article that its owner tags with a tag of theirs, and that did not have the tag, is the same
-- as before once it is untagged: the two calls succeed and leave the database as it was.
pub untag_article-tag_article :
    (new_id article_id tag_id user_id : String) (db : Db)
    → is_some (get_tag tag_id user_id db) ≡ true
    → is_some (get_article article_id user_id db) ≡ true
    → is_some (find (joins article_id tag_id) db.article_tags) ≡ false
    → is_some (get_row ArticleTag.id new_id db.article_tags) ≡ false
    → ((tag_article new_id article_id tag_id user_id db).0 ≡ ok tt)
      × (untag_article article_id tag_id user_id (tag_article new_id article_id tag_id user_id db).1
          ≡ (ok tt, db))
unfolding tag_article untag_article associate get_tag get_article joins
untag_article-tag_article new_id article_id tag_id user_id db tag article absent fresh =
    let a : ArticleTag = record { id = new_id; article_id = article_id; tag_id = tag_id } in
    ground (
      arith,
      find-append article_id tag_id db.article_tags a,
      delete_row-append db.article_tags a,
      eq_refl article_id,
      eq_refl tag_id,
    )

tagged_with-append :
    (tag_id : String) (rows : List ArticleTag) (a : ArticleTag)
    → map ArticleTag.article_id (filter (λ r. r.tag_id == tag_id) (rows ++ (a ∷ []))) ≡ (
        map ArticleTag.article_id (filter (λ r. r.tag_id == tag_id) rows)
        ++ (if a.tag_id == tag_id then a.article_id ∷ [] else []))
tagged_with-append tag_id [] a = ground arith
tagged_with-append tag_id (r ∷ rows) a = ground (arith, tagged_with-append tag_id rows a)

append_nothing : (xs : List String) → (xs ++ []) ≡ xs
append_nothing [] = refl
append_nothing (x ∷ xs) = ap (λ ys. x ∷ ys) (append_nothing xs)

-- When an owner tags an article, the tag's articles gain that one at the end if it was not there,
-- and nothing changes otherwise; the articles of every other tag stay; and to tag it again, under
-- whatever row id, succeeds and changes nothing.
pub tag_article_lem :
    (new_id later_id article_id tag_id other user_id : String) (db : Db)
    → is_some (get_tag tag_id user_id db) ≡ true
    → is_some (get_article article_id user_id db) ≡ true
    → is_some (get_row ArticleTag.id new_id db.article_tags) ≡ false
    → let after = (tag_article new_id article_id tag_id user_id db).1 in
      (tagged_with other after ≡ (
        tagged_with other db
        ++ (if tag_id == other && not (is_some (find (joins article_id tag_id) db.article_tags))
            then article_id ∷ []
            else [])))
      × (tag_article later_id article_id tag_id user_id after ≡ (ok tt, after))
unfolding tag_article associate get_tag get_article tagged_with
tag_article_lem new_id later_id article_id tag_id other user_id db tag article fresh =
    let a : ArticleTag = record { id = new_id; article_id = article_id; tag_id = tag_id } in
    let self : joins article_id tag_id a ≡ true =
      unfold joins in ground (arith, eq_refl article_id, eq_refl tag_id) in
    ground (
      arith,
      find-append article_id tag_id db.article_tags a,
      tagged_with-append other db.article_tags a,
      append_nothing (tagged_with other db),
      self,
    )
