-- ===== src/Backlinks/Repair.antt =====
-- engine/backlink_enforcer.py `enforce_backlinks`: the rows after it.
use wikimind.Prelude.{
  String, ◌==◌, ◌≡◌, refl, Bool, true, ◌||◌, List, [], ◌∷◌, ◌++◌, filter, some, All, All-append,
  All-filter, All-map, arith, Bool-cases, inl, inr,
}
use wikimind.Backlinks.{
  Backlink, Article, is_symmetric, ensure_all, outbound, inbound, enforce_article,
}
use wikimind.Backlinks.Symmetry.{
  link_of, IsRow, other_row, IsPending, IsRepaired, IsRepaired-ensure_all,
}

-- The link starts or ends at the article.
abbrev pub touches : String → Backlink → Bool
touches id b = b.source_article_id == id || b.target_article_id == id

module _ (P : Backlink → Type 0) where
  All-before : (xs ys : List Backlink) → All P (xs ++ ys) → All P xs
  All-before [] ys h = tt
  All-before (x ∷ xs) ys h = (h.0, All-before xs ys h.1)

  All-after : (xs ys : List Backlink) → All P (xs ++ ys) → All P ys
  All-after [] ys h = h
  All-after (x ∷ xs) ys h = All-after xs ys h.1

  -- What holds of the filtered elements holds of every element that passes the test.
  All-unfilter :
      (p : Backlink → Bool) (xs : List Backlink)
      → All P (filter p xs)
      → All (λ x. p x ≡ true → P x) xs
  All-unfilter p [] = λ h. tt
  All-unfilter p (x ∷ xs) = elim (Bool-cases (p x)) [
    | inl kept ↦ rw kept (λ h. (λ _. h.0, All-unfilter p xs h.1))
    | inr dropped ↦ rw dropped (λ h. (λ e. absurd (ground (arith, e)), All-unfilter p xs h))
  ]

  All-touching :
      (id : String) (xs : List Backlink)
      → All (λ b. (b.source_article_id == id) ≡ true → P b) xs
      → All (λ b. (b.target_article_id == id) ≡ true → P b) xs
      → All (λ b. touches id b ≡ true → P b) xs
  All-touching id [] h g = tt
  All-touching id (b ∷ xs) h g = (
    λ e. elim (Bool-cases (b.source_article_id == id)) [
      | inl from ↦ h.0 from
      | inr other ↦ g.0 (ground (arith, e, other))
    ],
    All-touching id xs h.1 g.1,
  )

-- In a table with one row for each pair of articles, the enforcer leaves to every symmetric link from
-- or to the article a row in the other direction: the row that was there, whatever its type, or else
-- the link's inverse, of the same type and context.
pub symmetric-enforce_article :
    (article : Article) (links : List Backlink)
    → All (IsRow links) links
    → All
        (λ b.
          touches article.id b ≡ true
          → is_symmetric b.relation_type ≡ true
          → link_of b.target_article_id b.source_article_id (enforce_article article links).1
            ≡ some (other_row links b))
        links
unfolding enforce_article outbound inbound
symmetric-enforce_article article links rows =
    let checked = outbound article.id links ++ inbound article.id links in
    let R : Backlink → Type 0 = IsRepaired links (ensure_all checked links).1 in
    let fresh = All-map (λ b row. (row, inl refl)) links rows in
    let P : Backlink → Type 0 = λ b. IsRow links b × IsPending links links b in
    let repaired = IsRepaired-ensure_all links checked links (
      All-append P (outbound article.id links) (inbound article.id links)
        (All-filter P _ links fresh) (All-filter P _ links fresh)) in
    All-touching R article.id links
      (All-unfilter R (λ b. b.source_article_id == article.id) links
        (All-before R (outbound article.id links) (inbound article.id links) repaired))
      (All-unfilter R (λ b. b.target_article_id == article.id) links
        (All-after R (outbound article.id links) (inbound article.id links) repaired))
