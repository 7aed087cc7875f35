-- ===== src/Backlinks/Symmetry.antt =====
-- engine/backlink_enforcer.py: what the repair of symmetric links does to the rows of a pair.
use wikimind.Prelude.{
  String, ◌==◌, eq_iff, eq_refl, ◌≡◌, refl, sym, ap, ◌∙◌, true, ◌&&◌, Option, none, some, List, [],
  ◌∷◌, ◌++◌, find, is_some, if◌then◌else◌, All, All-map, arith, Option-cases, Bool-cases, inl, inr,
  ◌⊎◌,
}
use mathlib.Core.Option
use wikimind.Backlinks.{Backlink, is_symmetric, has_link, inverse, ensure_bidirectional, ensure_all}

-- The row from one article to another.
abbrev pub link_of : String → String → List Backlink → Option Backlink
link_of s t links = find (λ b. b.source_article_id == s && b.target_article_id == t) links

abbrev pub or_inverse : Backlink → Option Backlink → Backlink
or_inverse b none = inverse b
or_inverse b (some c) = c

-- A link is the row of its pair of articles.
abbrev pub IsRow : List Backlink → Backlink → Type 0
IsRow links b = link_of b.source_article_id b.target_article_id links ≡ some b

has_link-link_of :
    (s t : String) (links : List Backlink) → has_link s t links ≡ is_some (link_of s t links)
unfolding has_link
has_link-link_of s t [] = refl
has_link-link_of s t (b ∷ links) = ground (arith, has_link-link_of s t links)

link_of-append :
    (s t : String) (links : List Backlink) (b : Backlink)
    → link_of s t (links ++ (b ∷ [])) ≡ (
        if is_some (link_of s t links)
        then link_of s t links
        else if b.source_article_id == s && b.target_article_id == t
        then some b
        else none)
link_of-append s t [] b = ground arith
link_of-append s t (c ∷ links) b = ground (arith, link_of-append s t links b)

-- A row is never replaced.
kept-ensure_bidirectional :
    (s t : String) (b : Backlink) (links : List Backlink) {x : Backlink}
    → link_of s t links ≡ some x
    → link_of s t (ensure_bidirectional b links).1 ≡ some x
unfolding ensure_bidirectional
kept-ensure_bidirectional s t b links h = ground (arith, link_of-append s t links (inverse b), h)

kept-ensure_all :
    (s t : String) (bs links : List Backlink) {x : Backlink}
    → link_of s t links ≡ some x
    → link_of s t (ensure_all bs links).1 ≡ some x
unfolding ensure_all
kept-ensure_all s t [] links h = h
kept-ensure_all s t (b ∷ bs) links h =
    kept-ensure_all s t bs (ensure_bidirectional b links).1
      (kept-ensure_bidirectional s t b links h)

-- What a repair does where a pair has no row: nothing, or it adds the pair's row.
added_row :
    (s t : String) (c : Backlink) (links : List Backlink)
    → link_of s t links ≡ none
    → (link_of s t (ensure_bidirectional c links).1 ≡ none)
      ⊎ ((link_of s t (ensure_bidirectional c links).1 ≡ some (inverse c))
          × (c.target_article_id ≡ s)
          × (c.source_article_id ≡ t))
unfolding ensure_bidirectional inverse
added_row s t c links gone = elim (Bool-cases (is_symmetric c.relation_type)) [
  | inr plain ↦ rw plain (inl gone)
  | inl symmetric ↦ elim (Bool-cases (has_link c.target_article_id c.source_article_id links)) [
    | inl there ↦ rw (symmetric, there) (inl gone)
    | inr absent ↦
        rw (symmetric, absent)
          (elim (Bool-cases (c.target_article_id == s && c.source_article_id == t)) [
            | inl same ↦ inr (
              ground (arith, same, gone, link_of-append s t links (inverse c)),
              ground (arith, same, eq_iff c.target_article_id s),
              ground (arith, same, eq_iff c.source_article_id t),
            )
            | inr other ↦ inl (ground (arith, other, gone, link_of-append s t links (inverse c)))
          ])
  ]
]

module _ (before : List Backlink) where
  -- The row in the other direction: the one that was there, or else the link's inverse.
  abbrev pub other_row : Backlink → Backlink
  other_row b = or_inverse b (link_of b.target_article_id b.source_article_id before)

  -- The row in the other direction is as it was, or as the repair makes it.
  abbrev pub IsPending : List Backlink → Backlink → Type 0
  IsPending links b =
      (link_of b.target_article_id b.source_article_id links
        ≡ link_of b.target_article_id b.source_article_id before)
      ⊎ (link_of b.target_article_id b.source_article_id links ≡ some (other_row b))

  abbrev pub IsRepaired : List Backlink → Backlink → Type 0
  IsRepaired links b =
      is_symmetric b.relation_type ≡ true
      → link_of b.target_article_id b.source_article_id links ≡ some (other_row b)

  -- Where the row is still missing, it was missing before.
  missing_before :
      (links : List Backlink) (b : Backlink)
      → IsPending links b
      → link_of b.target_article_id b.source_article_id links ≡ none
      → other_row b ≡ inverse b
  missing_before links b (inl as_before) gone = rw (sym as_before ∙ gone, or_inverse)
  missing_before links b (inr made) gone = absurd (cc)

  as_before :
      (links : List Backlink) (b : Backlink)
      → link_of b.target_article_id b.source_article_id links ≡ none
      → IsPending links b
      → link_of b.target_article_id b.source_article_id links
        ≡ link_of b.target_article_id b.source_article_id before
  as_before links b gone (inl kept) = kept
  as_before links b gone (inr made) = absurd (cc)

  present_before :
      (links : List Backlink) (b c : Backlink)
      → IsPending links b
      → link_of b.target_article_id b.source_article_id links ≡ some c
      → link_of b.target_article_id b.source_article_id links ≡ some (other_row b)
  present_before links b c (inl as_before) there = rw (sym as_before ∙ there, or_inverse) there
  present_before links b c (inr made) there = made

  IsRepaired-ensure_bidirectional :
      (b : Backlink) (links : List Backlink)
      → IsPending links b
      → IsRepaired (ensure_bidirectional b links).1 b
  unfolding ensure_bidirectional inverse
  IsRepaired-ensure_bidirectional b links pending symmetric =
      elim (Option-cases (link_of b.target_article_id b.source_article_id links)) [
        | inr (c, there) ↦
            kept-ensure_bidirectional b.target_article_id b.source_article_id b links
              (present_before links b c pending there)
        | inl gone ↦ ground (
          arith,
          symmetric,
          gone,
          missing_before links b pending gone,
          has_link-link_of b.target_article_id b.source_article_id links,
          link_of-append b.target_article_id b.source_article_id links (inverse b),
          eq_refl b.target_article_id,
          eq_refl b.source_article_id,
        )
      ]

  -- The repair of another link leaves it so: two links of one pair are one row.
  IsPending-ensure_bidirectional :
      (c b : Backlink) (links : List Backlink)
      → IsRow before c
      → IsRow before b
      → IsPending links b
      → IsPending (ensure_bidirectional c links).1 b
  unfolding ensure_bidirectional inverse
  IsPending-ensure_bidirectional c b links row_c row_b pending =
      elim (Option-cases (link_of b.target_article_id b.source_article_id links)) [
        | inr (x, there) ↦ inr (
            kept-ensure_bidirectional b.target_article_id b.source_article_id c links
              (present_before links b x pending there))
        | inl gone ↦ elim (added_row b.target_article_id b.source_article_id c links gone) [
          | inl still ↦ inl (still ∙ sym gone ∙ as_before links b gone pending)
          | inr (made, target, source) ↦
              let same : some c ≡ some b =
                sym row_c
                ∙ ap (λ s. link_of s c.target_article_id before) source
                ∙ ap (λ t. link_of b.source_article_id t before) target
                ∙ row_b in
              inr (
                made
                ∙ ap (Option.map inverse) same
                ∙ ap some (sym (missing_before links b pending gone)))
        ]
      ]

  pub IsRepaired-ensure_all :
      (bs links : List Backlink)
      → All (λ b. IsRow before b × IsPending links b) bs
      → All (IsRepaired (ensure_all bs links).1) bs
  unfolding ensure_all
  IsRepaired-ensure_all [] links h = tt
  IsRepaired-ensure_all (b ∷ bs) links ((row, pending), h) = (
    λ symmetric.
        kept-ensure_all b.target_article_id b.source_article_id bs (ensure_bidirectional b links).1
          (IsRepaired-ensure_bidirectional b links pending symmetric),
    IsRepaired-ensure_all bs (ensure_bidirectional b links).1
        (All-map (λ c k. (k.0, IsPending-ensure_bidirectional b c links row k.0 k.1)) bs h),
  )
