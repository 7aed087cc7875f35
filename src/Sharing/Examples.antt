-- ===== src/Sharing/Examples.antt =====
-- Sharing on concrete rows: one article and its link.
use wikimind.Prelude.{
  String, eq_iff, ◌≡◌, ◌≢◌, refl, false, none, List, [], ◌∷◌, get_row, err, not_found, arith,
}
use wikimind.Sharing.{Article, ShareLink, Db, Pages, revoke_share_link, get_public_article}
use wikimind.Sharing.Revocation.{Call, create, view, perform_all, revoked_for_ever}

abbrev note : Article
note = record {
  id = "a1";
  user_id = "u1";
  title = "Note";
  summary = none;
  file_path = "note.md";
  created_at = 0;
  updated_at = 0;
}

abbrev link : ShareLink
link = record {
  id = "l1";
  user_id = "u1";
  article_id = "a1";
  token = "t1";
  created_at = 0;
  expires_at = none;
  revoked = false;
  view_count = 0;
  last_viewed_at = none;
}

abbrev db : Db
db = record { articles = note ∷ []; sources = []; article_sources = []; links = link ∷ [] }

abbrev pages : Pages
pages = record {
  read_article_content = λ path user_id. path;
  markdown_to_html = λ content. content;
}

abbrev calls : List Call
calls = view 5 "t1" ∷ create "l2" "t2" 6 "a1" "u1" none ∷ []

revoked_for_ever_example :
    get_public_article pages 9 "t1" (perform_all pages calls (revoke_share_link "l1" "u1" db).1) ≡ (
      err (not_found "Share link not found"),
      perform_all pages calls (revoke_share_link "l1" "u1" db).1,
    )
unfolding get_row
revoked_for_ever_example = revoked_for_ever pages link db calls 9 refl refl

u2-ne-u1 : ◌≢◌ {A = String} "u2" "u1"
u2-ne-u1 = ground (arith, eq_iff "u2" "u1")
