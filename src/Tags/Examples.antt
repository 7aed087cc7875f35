-- ===== src/Tags/Examples.antt =====
-- Tags on concrete rows: two users, an article and a tag of one of them.
use wikimind.Prelude.{◌≡◌, refl, List, [], ◌∷◌, get_row, ok}
use wikimind.Tags.{
  Article, Tag, Db, get_tag, get_article, joins, delete_tag, tag_article, untag_article,
  tagged_with,
}
use wikimind.Tags.Associations.{untag_article-tag_article, tag_article_lem}
use wikimind.Tags.Constraints.{IsSound, one_owner}
use wikimind.Tags.Integrity.{Call, create, apply, perform_all, IsSound-perform_all}

abbrev note : Article
note = record { id = "a1"; user_id = "u1"; title = "Note" }

abbrev later : Tag
later = record { id = "t1"; user_id = "u1"; name = "read-later"; color = "#6366f1"; created_at = 0 }

abbrev db : Db
db = record { articles = note ∷ []; tags = later ∷ []; article_tags = [] }

abbrev tagged : Db
tagged = record {
  articles = note ∷ [];
  tags = later ∷ [];
  article_tags = record { id = "r1"; article_id = "a1"; tag_id = "t1" } ∷ [];
}

untag_article-tag_article_example :
    ((tag_article "r1" "a1" "t1" "u1" db).0 ≡ ok tt)
    × (untag_article "a1" "t1" "u1" (tag_article "r1" "a1" "t1" "u1" db).1 ≡ (ok tt, db))
unfolding get_tag get_article joins get_row
untag_article-tag_article_example =
    untag_article-tag_article "r1" "a1" "t1" "u1" db refl refl refl refl

tag_article_lem_example :
    (tagged_with "t1" (tag_article "r1" "a1" "t1" "u1" db).1 ≡ ("a1" ∷ []))
    × (tag_article "r2" "a1" "t1" "u1" (tag_article "r1" "a1" "t1" "u1" db).1
        ≡ (ok tt, (tag_article "r1" "a1" "t1" "u1" db).1))
unfolding get_tag get_article joins get_row tagged_with
tag_article_lem_example = tag_article_lem "r1" "r2" "a1" "t1" "t1" "u1" db refl refl refl

db-IsSound : IsSound db
db-IsSound = record {
  articles_distinct = (refl, tt);
  tags_distinct = (refl, tt);
  rows_distinct = tt;
  rows_owned = tt;
}

tagged-IsSound : IsSound tagged
unfolding one_owner get_row
tagged-IsSound = record {
  articles_distinct = (refl, tt);
  tags_distinct = (refl, tt);
  rows_distinct = (refl, tt);
  rows_owned = (refl, tt);
}

abbrev calls : List Call
calls =
    create "t2" 5 "u2" "mine" "#ffffff" ∷ apply "r1" "a1" "t1" "u1" ∷ apply "r2" "a1" "t2" "u2" ∷ []

IsSound-perform_all_example : IsSound (perform_all calls db)
IsSound-perform_all_example = IsSound-perform_all calls db db-IsSound

-- Another user's tag is not found, and the deletion of a tag takes its associations along.
foreign_tag_kept : (delete_tag "t1" "u2" tagged).1 ≡ tagged
unfolding delete_tag get_tag
foreign_tag_kept = refl

deleted : (delete_tag "t1" "u1" tagged).1.article_tags ≡ []
unfolding delete_tag get_tag
deleted = refl
