-- ===== src/Sweep/Soundness.antt =====
-- jobs/sweep.py: what the cleanup and the sweep keep true of the links.
use wikimind.Prelude.{
  ℕ, String, ◌==◌, eq_sym, ◌≡◌, sym, subst, true, not, ◌&&◌, Option, none, some, List, [], ◌∷◌, map,
  filter, is_some, All, All-filter-if, IsDistinct, IsDistinct-filter, get_row, delete_row,
  delete_row-filter, get_row-delete_row, key-get_row, arith, Option-cases, Bool-cases, inl, inr,
}
use wikimind.Wikilinks.{ResolvedBacklink}
use wikimind.Backlinks.{Backlink}
use wikimind.Sweep.{
  Page, page_id, File, Db, same_pair, put_link, link_of, put_links, promote, sweep_file, sweep_page,
  sweep_single_article, sweep_articles, touches, remove_pages, cleanup_orphaned_concept_pages,
  sweep_wikilinks, find_file, brackets, resolved_map, replace_match, same_content,
}
use wikimind.Sweep.Links.{
  same_page, owned_page, is_own_link, IsLinked, is_own_link-link_of, put_link-own,
  IsDistinct-put_link,
}

IsLinked-put_links :
    (pages : List Page) (p : Page) (rbs : List ResolvedBacklink) (links : List Backlink)
    → All (λ rb. is_own_link pages (link_of p rb) ≡ true) rbs
    → IsDistinct same_pair links
    → All (λ l. is_own_link pages l ≡ true) links
    → IsDistinct same_pair (put_links p rbs links)
      × All (λ l. is_own_link pages l ≡ true) (put_links p rbs links)
unfolding put_links
IsLinked-put_links pages p [] links own distinct h = (distinct, h)
IsLinked-put_links pages p (rb ∷ rbs) links own distinct h =
    IsLinked-put_links pages p rbs (put_link (link_of p rb) links) own.1
      (IsDistinct-put_link (link_of p rb) links distinct)
      (put_link-own pages (link_of p rb) links own.0 h)

module _ (strip lower normalize_title : String → String) where
  IsLinked-promote :
      (p : Page) (f : File) (rbs : List ResolvedBacklink) (db : Db)
      → All (λ rb. is_own_link db.pages (link_of p rb) ≡ true) rbs
      → IsLinked db
      → IsLinked (promote strip lower normalize_title p f rbs db).1
  unfolding promote
  IsLinked-promote p f [] db own h = h
  IsLinked-promote p f (rb ∷ rbs) db own h =
      let new_content = map (replace_match lower (resolved_map lower (rb ∷ rbs) [])) f.content in
      let put =
        IsLinked-put_links db.pages p (rb ∷ rbs) db.links own h.pairs_distinct h.links_own in
      elim (Bool-cases (same_content new_content f.content)) [
        | inl same ↦ rw (same, promote) h
        | inr changed ↦
            rw (changed, promote)
              (record {
                pages_distinct = h.pages_distinct;
                pairs_distinct = put.0;
                links_own = put.1;
              })
      ]

  IsLinked-sweep_file :
      (p : Page) (f : File) (found : List String) (db : Db)
      → get_row page_id p.article.id db.pages ≡ some p
      → IsLinked db
      → IsLinked (sweep_file strip lower normalize_title p f found db).1
  unfolding sweep_file
  IsLinked-sweep_file p f [] db stored h = h
  IsLinked-sweep_file p f (m ∷ ms) db stored h =
      IsLinked-promote p f _ db
        (is_own_link-link_of strip lower normalize_title db.pages p _ h.pages_distinct stored) h

  IsLinked-sweep_page :
      (p : Page) (f : Option File) (db : Db)
      → get_row page_id p.article.id db.pages ≡ some p
      → IsLinked db
      → IsLinked (sweep_page strip lower normalize_title p f db).1
  unfolding sweep_page
  IsLinked-sweep_page p none db stored h = h
  IsLinked-sweep_page p (some f) db stored h =
      IsLinked-sweep_file p f (brackets f.content) db stored h

  IsLinked-sweep_single_article :
      (article_id : String) (db : Db)
      → IsLinked db
      → IsLinked (sweep_single_article strip lower normalize_title article_id db).1
  unfolding sweep_single_article
  IsLinked-sweep_single_article article_id db h =
      elim (Option-cases (get_row page_id article_id db.pages)) [
        | inl missing ↦ rw (missing, sweep_single_article) h
        | inr (p, found) ↦
            let same : p.article.id ≡ article_id =
              unfold page_id in key-get_row page_id article_id db.pages p found in
            rw (found, sweep_single_article)
              (IsLinked-sweep_page p (find_file db p) db
                (subst (λ id. get_row page_id id db.pages ≡ some p) (sym same) found) h)
      ]

  IsLinked-sweep_articles :
      (ids : List String) (updated : ℕ) (db : Db)
      → IsLinked db
      → IsLinked (sweep_articles strip lower normalize_title ids updated db).1
  unfolding sweep_articles
  IsLinked-sweep_articles [] updated db h = h
  IsLinked-sweep_articles (id ∷ ids) updated db h =
      IsLinked-sweep_articles ids _ _ (IsLinked-sweep_single_article id db h)

kept_link :
    (pages : List Page) (id : String) (l : Backlink)
    → not (touches id l) ≡ true
    → is_own_link pages l ≡ true
    → is_own_link (delete_row page_id id pages) l ≡ true
unfolding is_own_link owned_page touches
kept_link pages id l apart h = ground (
  arith,
  get_row-delete_row page_id id l.source_article_id pages,
  get_row-delete_row page_id id l.target_article_id pages,
  eq_sym id l.source_article_id,
  eq_sym id l.target_article_id,
)

IsLinked-remove_pages : (ps : List Page) (db : Db) → IsLinked db → IsLinked (remove_pages ps db)
unfolding remove_pages
IsLinked-remove_pages [] db h = h
IsLinked-remove_pages (p ∷ ps) db h =
    let less : Db = record db {
      pages = delete_row page_id p.article.id db.pages;
      links = filter (λ l. not (touches p.article.id l)) db.links;
    } in
    elim (Bool-cases (is_some (find_file db p))) [
      | inl there ↦ rw (there, remove_pages) (IsLinked-remove_pages ps db h)
      | inr gone ↦
          rw (gone, remove_pages)
            (IsLinked-remove_pages ps less (record {
              pages_distinct =
                  rw (delete_row-filter page_id p.article.id db.pages)
                    (IsDistinct-filter same_page _ db.pages h.pages_distinct);
              pairs_distinct = IsDistinct-filter same_pair _ db.links h.pairs_distinct;
              links_own =
                  All-filter-if (λ l. is_own_link db.pages l ≡ true) _ _ db.links
                    (kept_link db.pages p.article.id) h.links_own;
            }))
    ]

-- A whole sweep, with its cleanup, keeps the links sound: page ids stay unique, a pair of pages has
-- one link, and every link, those of the sweep included, is between two different pages of the
-- link's user that are there.
pub IsLinked-sweep_wikilinks :
    (strip lower normalize_title : String → String) (user_id : String) (db : Db)
    → IsLinked db
    → IsLinked (sweep_wikilinks strip lower normalize_title user_id db).1
unfolding sweep_wikilinks cleanup_orphaned_concept_pages
IsLinked-sweep_wikilinks strip lower normalize_title user_id db h =
    let clean = cleanup_orphaned_concept_pages user_id db in
    IsLinked-sweep_articles strip lower normalize_title
      (map page_id (filter (λ p. p.article.user_id == user_id) clean.pages)) 0 clean
      (IsLinked-remove_pages
        (filter (λ p. p.page_type == "concept" && p.article.user_id == user_id) db.pages) db h)
