-- ===== src/Wikilinks/Ownership.antt =====
-- engine/wikilink_resolver.py: whose articles a link can point to.
use wikimind.Prelude.{
  All-sort_by, String, ◌==◌, ◌≡◌, ap, Bool, true, false, not, Option, none, some, List, [], ◌∷◌,
  find, filter, if◌then◌else◌, All, All-map, leb, arith, Bool-cases, inl, inr, subst,
}
use wikimind.Wikilinks.{
  Article, ResolvedBacklink, oldest_first, is_excluded, all_articles, resolve_backlink_candidates,
}
use wikimind.Wikilinks.Matching.{match, or_else}
use wikimind.Wikilinks.Resolution.{resolve_backlink_candidates_lem}

module _ {κ} (P : Article → Type κ) where
  All-filter :
      (p : Article → Bool) (items : List Article)
      → All P items
      → All (λ a. P a × (p a ≡ true)) (filter p items)
  All-filter p [] h = tt
  All-filter p (a ∷ items) h = elim (Bool-cases (p a)) [
    | inl kept ↦ rw kept ((h.0, kept), All-filter p items h.1)
    | inr dropped ↦ rw dropped (All-filter p items h.1)
  ]

  All-oldest_first : (items : List Article) → All P items → All P (oldest_first items)
  unfolding oldest_first
  All-oldest_first = All-sort_by (λ a b. leb a.created_at b.created_at) P

  pick :
      (b : Bool) (a r : Article) (later : Option Article)
      → P a
      → (later ≡ some r → P r)
      → (if b then some a else later) ≡ some r
      → P r
  pick true a r later h f e = subst P (ap (λ o. elim o [ none ↦ a | some x ↦ x ]) e) h
  pick false a r later h f e = f e

  All-find :
      (p : Article → Bool) (items : List Article) (r : Article)
      → All P items
      → find p items ≡ some r
      → P r
  All-find p [] r h e = absurd (ground arith)
  All-find p (a ∷ items) r h e = pick (p a) a r (find p items) h.0 (All-find p items r h.1) e

  either :
      (first second : Option Article) (r : Article)
      → (first ≡ some r → P r)
      → (second ≡ some r → P r)
      → or_else first second ≡ some r
      → P r
  either none second r f g e = g e
  either (some a) second r f g e = f e

  unless :
      (b : Bool) (o : Option Article) (r : Article)
      → (o ≡ some r → P r)
      → (if b then none else o) ≡ some r
      → P r
  unless true o r f e = absurd (ground arith)
  unless false o r f e = f e

module _ {κ} (strip lower normalize_title : String → String) (rel_map : String → Option String)
    (user_id : String) (exclude_article_id : Option String) (P : Article → Type κ) where
  -- The entry points to a row of the user's that is not the excluded one.
  abbrev pub IsOwnTarget : ResolvedBacklink → Type κ
  IsOwnTarget b =
      (a : Article) × P a
      × ((a.user_id == user_id) ≡ true)
      × (is_excluded exclude_article_id a ≡ false)
      × (b.target_id ≡ a.id)
      × (b.target_title ≡ a.title)

  -- What holds of an article that a candidate may resolve to.
  abbrev IsOwn : Article → Type κ
  IsOwn a = P a × ((a.user_id == user_id) ≡ true) × (is_excluded exclude_article_id a ≡ false)

  IsOwn-all_articles :
      (table : List Article)
      → All P table
      → All IsOwn (all_articles user_id exclude_article_id table)
  unfolding all_articles
  IsOwn-all_articles table h =
      All-map (λ a ((p, own), kept). (p, own, ground (arith, kept))) _
        (All-filter (λ a. P a × ((a.user_id == user_id) ≡ true))
          (λ a. not (is_excluded exclude_article_id a)) _
          (All-oldest_first (λ a. P a × ((a.user_id == user_id) ≡ true)) _
            (All-filter P (λ a. a.user_id == user_id) table h)))

  IsOwn-match :
      (items : List Article) (c : String) (a : Article)
      → All IsOwn items
      → match strip lower normalize_title items c ≡ some a
      → IsOwn a
  IsOwn-match items c a h =
      either IsOwn _ _ a (All-find IsOwn (λ b. lower b.title == lower c) items a h) (
        unless IsOwn (normalize_title c == "") _ a
          (All-find IsOwn (λ b. normalize_title b.title == normalize_title c) items a h))

  -- Whatever is suggested, every resolved link points to an article of the same user that is not
  -- the excluded one, by its id and title; the article is one of the table, that is, it has
  -- every property that all rows have.
  pub resolved_own :
      (table : List Article) (candidates : List String)
      → All P table
      → All IsOwnTarget
          (resolve_backlink_candidates strip lower normalize_title rel_map user_id
            exclude_article_id table candidates).resolved
  resolved_own table candidates h =
      All-map
        (λ b (a, found, id, title).
          let (p, own, kept) =
            IsOwn-match (all_articles user_id exclude_article_id table) b.candidate_text a
              (IsOwn-all_articles table h) found in
          (a, p, own, kept, id, title))
        _
        (resolve_backlink_candidates_lem strip lower normalize_title rel_map user_id
          exclude_article_id table candidates).entries
