-- ===== src/Sweep/Links.antt =====
-- jobs/sweep.py: links between pages of one user, and what storing one keeps.
use wikimind.Prelude.{
  String, ◌==◌, eq_refl, eq_sym, eq→path, ◌≡◌, refl, Bool, true, false, not, ◌&&◌, none, some, List,
  [], ◌∷◌, map, any, All, All-map, IsDistinct, get_row, arith, Bool-cases, inl, inr,
}
use wikimind.Wikilinks
use wikimind.Wikilinks.{ResolvedBacklink, is_excluded}
use wikimind.Wikilinks.Ownership.{resolved_own}
use wikimind.Backlinks.{Backlink}
use wikimind.Sweep.{Page, page_id, Db, same_pair, put_link, link_of, resolved_for}

unfoldable pub same_page : Page → Page → Bool
same_page p q = p.article.id == q.article.id

-- The page of an id is there and belongs to a user.
unfoldable pub owned_page : List Page → String → String → Bool
owned_page pages user_id id = elim (get_row page_id id pages) [
  | none ↦ false
  | some p ↦ p.article.user_id == user_id
]

-- A link between two different pages of the link's user.
unfoldable pub is_own_link : List Page → Backlink → Bool
unfolding owned_page
is_own_link pages l =
    owned_page pages l.user_id l.source_article_id
    && owned_page pages l.user_id l.target_article_id
    && not (l.target_article_id == l.source_article_id)

-- Page ids are unique, a pair of pages has one link, and a link is between two different pages of
-- one user, which are there.
pub record IsLinked (db : Db) : Type 0 where
  pub pages_distinct : IsDistinct same_page db.pages
  pub pairs_distinct : IsDistinct same_pair db.links
  pub links_own : All (λ l. is_own_link db.pages l ≡ true) db.links

-- Every row is the one that its id finds.
get_row-cons :
    (p : Page) (rest ps : List Page)
    → any (same_page p) ps ≡ false
    → All (λ q. get_row page_id q.article.id rest ≡ some q) ps
    → All (λ q. get_row page_id q.article.id (p ∷ rest) ≡ some q) ps
unfolding same_page get_row page_id
get_row-cons p rest [] apart h = tt
get_row-cons p rest (q ∷ ps) apart h =
    (ground (arith, h.0), get_row-cons p rest ps (ground arith) h.1)

found_by_id :
    (pages : List Page)
    → IsDistinct same_page pages
    → All (λ q. get_row page_id q.article.id pages ≡ some q) pages
unfolding get_row page_id
found_by_id [] distinct = tt
found_by_id (p ∷ pages) distinct = (
  ground (arith, eq_refl p.article.id),
  get_row-cons p pages pages distinct.0 (found_by_id pages distinct.1),
)

All-map_of :
    (P : Wikilinks.Article → Type 0) (pages : List Page)
    → All (λ p. P p.article) pages
    → All P (map Page.article pages)
All-map_of P [] h = tt
All-map_of P (p ∷ pages) h = (h.0, All-map_of P pages h.1)

owned_by_row :
    (pages : List Page) (p : Page)
    → get_row page_id p.article.id pages ≡ some p
    → owned_page pages p.article.user_id p.article.id ≡ true
unfolding owned_page
owned_by_row pages p h = ground (arith, h, eq_refl p.article.user_id)

own_target :
    (pages : List Page) (p : Page) (rb : ResolvedBacklink) (a : Wikilinks.Article)
    → get_row page_id p.article.id pages ≡ some p
    → owned_page pages a.user_id a.id ≡ true
    → (a.user_id == p.article.user_id) ≡ true
    → is_excluded (some p.article.id) a ≡ false
    → rb.target_id ≡ a.id
    → is_own_link pages (link_of p rb) ≡ true
unfolding is_own_link link_of is_excluded
own_target pages p rb a stored there own kept id = rw (id) (
    ground
      (arith, there, kept, eq→path a.user_id p.article.user_id own, owned_by_row pages p stored))

-- What the resolver finds for a page gives links of that page's user to other pages.
pub is_own_link-link_of :
    (strip lower normalize_title : String → String) (pages : List Page) (p : Page)
    (candidates : List String)
    → IsDistinct same_page pages
    → get_row page_id p.article.id pages ≡ some p
    → All
        (λ rb. is_own_link pages (link_of p rb) ≡ true)
        (resolved_for strip lower normalize_title p pages candidates)
unfolding resolved_for
is_own_link-link_of strip lower normalize_title pages p candidates distinct stored =
    All-map {Q = λ rb. is_own_link pages (link_of p rb) ≡ true}
      (λ rb found. own_target pages p rb found.0 stored found.1 found.2 found.3 found.4) _
      (resolved_own strip lower normalize_title (λ t. none) p.article.user_id (some p.article.id)
        (λ a. owned_page pages a.user_id a.id ≡ true) (map Page.article pages) candidates
        (All-map_of _ pages (All-map (owned_by_row pages) pages (found_by_id pages distinct))))

pub put_link-own :
    (pages : List Page) (new : Backlink) (links : List Backlink)
    → is_own_link pages new ≡ true
    → All (λ l. is_own_link pages l ≡ true) links
    → All (λ l. is_own_link pages l ≡ true) (put_link new links)
unfolding put_link
put_link-own pages new [] h hs = (h, tt)
put_link-own pages new (l ∷ ls) h hs = elim (Bool-cases (same_pair new l)) [
  | inl same ↦ rw same (unfold is_own_link in hs.0, hs.1)
  | inr other ↦ rw other (hs.0, put_link-own pages new ls h hs.1)
]

any-same_pair-put_link :
    (l new : Backlink) (links : List Backlink)
    → same_pair new l ≡ false
    → any (same_pair l) links ≡ false
    → any (same_pair l) (put_link new links) ≡ false
unfolding put_link same_pair
any-same_pair-put_link l new [] other h = ground (
  arith,
  eq_sym l.source_article_id new.source_article_id,
  eq_sym l.target_article_id new.target_article_id,
)
any-same_pair-put_link l new (k ∷ links) other h =
    ground (arith, any-same_pair-put_link l new links)

pub IsDistinct-put_link :
    (new : Backlink) (links : List Backlink)
    → IsDistinct same_pair links
    → IsDistinct same_pair (put_link new links)
unfolding put_link
IsDistinct-put_link new [] h = (refl, tt)
IsDistinct-put_link new (l ∷ ls) h = elim (Bool-cases (same_pair new l)) [
  | inl same ↦ rw same (unfold same_pair in h.0, h.1)
  | inr other ↦ rw other (any-same_pair-put_link l new ls other h.0, IsDistinct-put_link new ls h.1)
]
