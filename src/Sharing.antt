-- ===== src/Sharing.antt =====
-- services/sharing.py: public share links of articles. Times are microseconds since the epoch; the
-- random id and token of a new link are arguments.
pub mod Revocation
mod Examples
use wikimind.Prelude.{
  sort_by, ℕ, zero, suc, String, ◌==◌, ◌+◌, ◌*◌, Bool, true, false, not, ◌&&◌, ◌||◌, Option, none,
  some, List, [], ◌∷◌, ◌++◌, map, leb, ltb, filter, contains, is_some, if◌then◌else◌, get_row,
  update_row, Result, ok, err, not_found, gone, integrity_error, Action, truthy,
}

pub record Article : Type 0 where
  pub id : String
  pub user_id : String
  pub title : String
  pub summary : Option String
  pub file_path : String
  pub created_at : ℕ
  pub updated_at : ℕ

pub record Source : Type 0 where
  pub id : String
  pub source_type : String
  pub title : Option String
  pub source_url : Option String
  pub ingested_at : ℕ

pub record ShareLink : Type 0 where
  pub id : String
  pub user_id : String
  pub article_id : String
  pub token : String
  pub created_at : ℕ
  pub expires_at : Option ℕ
  pub revoked : Bool
  pub view_count : ℕ
  pub last_viewed_at : Option ℕ

-- `article_sources` pairs an article's id with a source's.
pub record Db : Type 0 where
  pub articles : List Article
  pub sources : List Source
  pub article_sources : List (String × String)
  pub links : List ShareLink

-- A link's row with its article's title, where the article is still there.
pub record ShareLinkResponse : Type 0 where
  pub link : ShareLink
  pub article_title : Option String

pub record PublicArticle : Type 0 where
  pub title : String
  pub content_html : String
  pub summary : Option String
  pub sources : List Source
  pub created_at : ℕ
  pub updated_at : ℕ

-- The article store and the markdown renderer.
pub record Pages : Type 0 where
  pub read_article_content : String → String → String
  pub markdown_to_html : String → String

abbrev pub microseconds_per_day : ℕ
microseconds_per_day = 86400000000

-- `now + timedelta(days=d) if d else None`
unfoldable pub expiry : ℕ → Option ℕ → Option ℕ
expiry now none = none
expiry now (some zero) = none
expiry now (some (suc days)) = some (now + suc days * microseconds_per_day)

-- An article that is there and belongs to the user.
owned_article : String → Option Article → Option Article
owned_article user_id none = none
owned_article user_id (some article) = if article.user_id == user_id then some article else none

-- The row that a flush inserts: the primary key and the token are unique.
insert_link : ShareLink → String → Action Db ShareLinkResponse
insert_link link title db =
    if is_some (get_row ShareLink.id link.id db.links)
      || is_some (get_row ShareLink.token link.token db.links)
    then (err integrity_error, db)
    else (
      ok (record { link = link; article_title = some title }),
      record db { links = db.links ++ (link ∷ []) },
    )

new_link : (link_id token : String) → ℕ → String → String → Option ℕ → ShareLink
unfolding expiry
new_link link_id token now article_id user_id expires_in_days = record {
  id = link_id;
  user_id = user_id;
  article_id = article_id;
  token = token;
  created_at = now;
  expires_at = expiry now expires_in_days;
  revoked = false;
  view_count = 0;
  last_viewed_at = none;
}

pub create_share_link :
    (link_id token : String) → ℕ → String → String → Option ℕ → Action Db ShareLinkResponse
unfolding owned_article insert_link new_link
create_share_link link_id token now article_id user_id expires_in_days db =
    elim (owned_article user_id (get_row Article.id article_id db.articles)) [
      | none ↦ (err (not_found "Article not found"), db)
      | some article ↦
          insert_link (new_link link_id token now article_id user_id expires_in_days) article.title
            db
    ]

owned_link : String → Option ShareLink → Option ShareLink
owned_link user_id none = none
owned_link user_id (some link) = if link.user_id == user_id then some link else none

set_revoked : ShareLink → ShareLink
set_revoked link = record link { revoked = true }

pub revoke_share_link : String → String → Action Db (Unit {0})
unfolding owned_link set_revoked
revoke_share_link link_id user_id db =
    elim (owned_link user_id (get_row ShareLink.id link_id db.links)) [
      | none ↦ (err (not_found "Share link not found"), db)
      | some _ ↦ (ok tt, record db { links = update_row ShareLink.id link_id set_revoked db.links })
    ]

-- `order_by(desc(created_at))`, rows of one time in the table's order.
newest_first : List ShareLink → List ShareLink
newest_first = sort_by (λ l k. leb k.created_at l.created_at)

is_listed : String → Option String → ShareLink → Bool
is_listed user_id none link = link.user_id == user_id
is_listed user_id (some article_id) link = link.user_id == user_id && link.article_id == article_id

title_of : Db → String → Option String
title_of db article_id = elim (get_row Article.id article_id db.articles) [
  | none ↦ none
  | some article ↦ some article.title
]

pub list_share_links : String → Option String → Db → List ShareLinkResponse
unfolding newest_first is_listed title_of
list_share_links user_id article_id db =
    map (λ link. record { link = link; article_title = title_of db link.article_id })
      (newest_first (filter (is_listed user_id (truthy article_id)) db.links))

-- `link.expires_at and link.expires_at < now`
has_expired : ℕ → ShareLink → Bool
has_expired now link = elim link.expires_at [ none ↦ false | some end ↦ ltb end now ]

count_view : ℕ → ShareLink → ShareLink
count_view now link = record link { view_count = link.view_count + 1; last_viewed_at = some now }

-- The sources that the join table links to the article.
sources_of : Db → String → List Source
sources_of db article_id =
    filter
      (λ s.
        contains
          (map (λ p. p.1) (filter (λ (p : String × String). p.0 == article_id) db.article_sources))
          s.id)
      db.sources

pub page_of : Pages → Db → Article → PublicArticle
unfolding sources_of
page_of pages db article =
    let content = pages.read_article_content article.file_path article.user_id in
    record {
      title = article.title;
      content_html = if content == "" then "" else pages.markdown_to_html content;
      summary = article.summary;
      sources = sources_of db article.id;
      created_at = article.created_at;
      updated_at = article.updated_at;
    }

show_article : Pages → ℕ → ShareLink → Action Db PublicArticle
unfolding count_view page_of
show_article pages now link db = elim (get_row Article.id link.article_id db.articles) [
  | none ↦ (err (not_found "Article not found"), db)
  | some article ↦ (
    ok (page_of pages db article),
    record db { links = update_row ShareLink.token link.token (count_view now) db.links },
  )
]

show_link : Pages → ℕ → Option ShareLink → Action Db PublicArticle
unfolding has_expired show_article
show_link pages now none db = (err (not_found "Share link not found"), db)
show_link pages now (some link) db =
    if link.revoked
    then (err (not_found "Share link not found"), db)
    else if has_expired now link
    then (err (gone "Share link has expired"), db)
    else show_article pages now link db

pub get_public_article : Pages → ℕ → String → Action Db PublicArticle
unfolding show_link
get_public_article pages now token db =
    show_link pages now (get_row ShareLink.token token db.links) db
