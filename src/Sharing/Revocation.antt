-- ===== src/Sharing/Revocation.antt =====
-- services/sharing.py: what becomes of a revoked link.
use wikimind.Prelude.{
  ℕ, String, ◌==◌, eq_iff, eq_refl, ◌≡◌, refl, Bool, true, false, Option, none, some, List, [], ◌∷◌,
  ◌++◌, get_row, update_row, key-get_row, err, not_found, arith, Option-cases, Bool-cases, inl, inr,
}
use wikimind.Sharing.{
  Article, ShareLink, Db, Pages, owned_article, insert_link, new_link, create_share_link,
  owned_link, set_revoked, revoke_share_link, count_view, show_article, show_link,
  get_public_article,
}

-- The calls that reach the service: who creates or revokes what, and who opens which link when.
pub data Call : Type 0 where
  create : (link_id token : String) → ℕ → String → String → Option ℕ → Call
  revoke : String → String → Call
  view : ℕ → String → Call

unfoldable pub perform : Pages → Call → Db → Db
perform pages (create link_id token now article_id user_id days) db =
    (create_share_link link_id token now article_id user_id days db).1
perform pages (revoke link_id user_id) db = (revoke_share_link link_id user_id db).1
perform pages (view now token) db = (get_public_article pages now token db).1

unfoldable pub perform_all : Pages → List Call → Db → Db
unfolding perform
perform_all pages [] db = db
perform_all pages (c ∷ cs) db = perform_all pages cs (perform pages c db)

abbrev revoked_in : String → List ShareLink → Bool
revoked_in token links = elim (get_row ShareLink.token token links) [
  | none ↦ false
  | some link ↦ link.revoked
]

-- A change of one row that keeps its token and does not lift a revocation.
revoked_in-update_row :
    (token k : String) (key : ShareLink → String) (f : ShareLink → ShareLink)
    (links : List ShareLink)
    → ((l : ShareLink) → (f l).token ≡ l.token)
    → ((l : ShareLink) → l.revoked ≡ true → (f l).revoked ≡ true)
    → revoked_in token links ≡ true
    → revoked_in token (update_row key k f links) ≡ true
unfolding get_row update_row
revoked_in-update_row token k key f [] same keeps h = h
revoked_in-update_row token k key f (l ∷ ls) same keeps h =
    ground (arith, same l, keeps l, revoked_in-update_row token k key f ls same keeps)

revoked_in-append :
    (token : String) (links new : List ShareLink)
    → revoked_in token links ≡ true
    → revoked_in token (links ++ new) ≡ true
unfolding get_row
revoked_in-append token [] new h = absurd (cc)
revoked_in-append token (l ∷ ls) new h = ground (arith, revoked_in-append token ls new)

insert_link_revoked :
    (link : ShareLink) (title token : String) (db : Db)
    → revoked_in token db.links ≡ true
    → revoked_in token (insert_link link title db).1.links ≡ true
unfolding insert_link
insert_link_revoked link title token db h =
    ground (arith, revoked_in-append token db.links (link ∷ []))

show_article_revoked :
    (pages : Pages) (now : ℕ) (link : ShareLink) (token : String) (db : Db)
    → revoked_in token db.links ≡ true
    → revoked_in token (show_article pages now link db).1.links ≡ true
unfolding show_article count_view
show_article_revoked pages now link token db h =
    let kept =
      revoked_in-update_row token link.token ShareLink.token (count_view now) db.links (λ l. refl)
        (λ l e. e) h in
    ground arith

perform_revoked :
    (pages : Pages) (c : Call) (token : String) (db : Db)
    → revoked_in token db.links ≡ true
    → revoked_in token (perform pages c db).links ≡ true
unfolding perform create_share_link revoke_share_link get_public_article show_link set_revoked
perform_revoked pages (create link_id t now article_id user_id days) token db h =
    elim (Option-cases (owned_article user_id (get_row Article.id article_id db.articles))) [
      | inl missing ↦ ground arith
      | inr (article, found) ↦ ground (
        arith,
        insert_link_revoked (new_link link_id t now article_id user_id days) article.title token db,
      )
    ]
perform_revoked pages (revoke link_id user_id) token db h =
    let kept =
      revoked_in-update_row token link_id ShareLink.id set_revoked db.links (λ l. refl)
        (λ l e. refl) h in
    ground arith
perform_revoked pages (view now t) token db h =
    elim (Option-cases (get_row ShareLink.token t db.links)) [
      | inl missing ↦ ground arith
      | inr (link, found) ↦ ground (arith, show_article_revoked pages now link token db)
    ]

perform_all_revoked :
    (pages : Pages) (calls : List Call) (token : String) (db : Db)
    → revoked_in token db.links ≡ true
    → revoked_in token (perform_all pages calls db).links ≡ true
unfolding perform_all
perform_all_revoked pages [] token db h = h
perform_all_revoked pages (c ∷ cs) token db h =
    perform_all_revoked pages cs token (perform pages c db) (perform_revoked pages c token db h)

-- The first row with a token, and no other row with the id of that one.
revoked_by_id :
    (link_id token : String) (links : List ShareLink) (link : ShareLink)
    → get_row ShareLink.token token links ≡ some link
    → link.id ≡ link_id
    → get_row ShareLink.id link_id links ≡ some link
    → revoked_in token (update_row ShareLink.id link_id set_revoked links) ≡ true
unfolding get_row update_row set_revoked
revoked_by_id link_id token [] link t i h = absurd (cc)
revoked_by_id link_id token (l ∷ ls) link t i h = elim (Bool-cases (l.id == link_id)) [
  | inl same ↦
      rw same
        (ground (arith, key-get_row ShareLink.token token (l ∷ ls) link t, eq_iff l.token token))
  | inr other ↦ rw other (ground (arith, eq_iff l.id link_id, revoked_by_id link_id token ls link))
]

-- Once the owner of a link has revoked it, its token is answered `not found` for ever: after any
-- further calls by anybody, at any time, and without a change to the database.
pub revoked_for_ever :
    (pages : Pages) (link : ShareLink) (db : Db) (calls : List Call) (now : ℕ)
    → get_row ShareLink.token link.token db.links ≡ some link
    → get_row ShareLink.id link.id db.links ≡ some link
    → let after = perform_all pages calls (revoke_share_link link.id link.user_id db).1 in
      get_public_article pages now link.token after
      ≡ (err (not_found "Share link not found"), after)
unfolding get_public_article show_link
revoked_for_ever pages link db calls now t i =
    let dead =
      perform_all_revoked pages calls link.token (revoke_share_link link.id link.user_id db).1 (
        unfold revoke_share_link owned_link in
        ground (arith, eq_refl link.user_id, revoked_by_id link.id link.token db.links link)) in
    ground arith
