-- ===== src/Spans/Contents.antt =====
-- ingest/spans.py: the list that re-anchoring returns, against the list of new spans.
use wikimind.Prelude.{
  String, ◌==◌, eq_iff, eq_refl, ◌≡◌, refl, sym, ap, ◌∙◌, Bool, true, false, ◌&&◌, none, some, List,
  [], ◌∷◌, map, any, contains, IsNodup, get_row, arith, Option-cases, Bool-cases, inl, inr, ◌⊎◌,
}
use wikimind.Spans.{
  SourceSpan, Locator, reuse, insert, match_of, place_one, grow_matched, place_all, matched_ids,
}

-- What a span says of the source: where, what, and the text's fingerprint.
abbrev pub content : SourceSpan → Locator × String × String
content s = (s.locator, s.text, s.fingerprint)

fingerprint-match_of :
    (old : List SourceSpan) (fp : String) (o : SourceSpan)
    → match_of old fp ≡ some o
    → o.fingerprint ≡ fp
unfolding match_of
fingerprint-match_of [] fp o h = absurd (cc)
fingerprint-match_of (q ∷ old) fp o h =
    ground (arith, eq_iff q.fingerprint fp, fingerprint-match_of old fp o)

-- The two placements of a new span, with the reasons for the second.
pub place_one_cases :
    (old : List SourceSpan) (matched : List String) (n : SourceSpan)
    → (place_one old matched n ≡ insert n)
      ⊎ ((o : SourceSpan) × (place_one old matched n ≡ reuse o n)
          × (match_of old n.fingerprint ≡ some o)
          × (contains matched o.id ≡ false))
unfolding place_one
place_one_cases old matched n = elim (Option-cases (match_of old n.fingerprint)) [
  | inl missing ↦ inl (rw (missing, place_one))
  | inr (o, found) ↦ elim (Bool-cases (contains matched o.id)) [
    | inl seen ↦ inl (rw (found, place_one) (rw seen))
    | inr unseen ↦ inr (o, rw (found, place_one) (rw unseen), found, unseen)
  ]
]

id-match_of :
    (old : List SourceSpan) (fp : String) (o : SourceSpan)
    → match_of old fp ≡ some o
    → contains (map SourceSpan.id old) o.id ≡ true
unfolding match_of
id-match_of [] fp o h = absurd (cc)
id-match_of (q ∷ old) fp o h = ground (arith, eq_refl q.id, id-match_of old fp o)

-- Where ids are unique, two matches with one id are one span.
match_of-injective :
    (old : List SourceSpan) (a b : String) (o p : SourceSpan)
    → IsNodup (map SourceSpan.id old)
    → match_of old a ≡ some o
    → match_of old b ≡ some p
    → o.id ≡ p.id
    → o ≡ p
unfolding match_of
match_of-injective [] a b o p d h k e = absurd (cc)
match_of-injective (q ∷ old) a b o p d h k e =
    ground (arith, id-match_of old a o, id-match_of old b p, match_of-injective old a b o p d.1)

place_matching :
    (old : List SourceSpan) (matched : List String) (n o : SourceSpan)
    → match_of old o.fingerprint ≡ some o
    → contains matched o.id ≡ false
    → n.fingerprint ≡ o.fingerprint
    → place_one old matched n ≡ reuse o n
unfolding place_one
place_matching old matched n o h u e =
    let found : match_of old n.fingerprint ≡ some o = ap (match_of old) e ∙ h in
    rw (found, place_one) (rw u)

-- An old span, the first with its fingerprint, is matched exactly if some new span has the
-- fingerprint (and nothing matched its id before).
matched-place_all :
    (old : List SourceSpan) (matched : List String) (new : List SourceSpan) (o : SourceSpan)
    → match_of old o.fingerprint ≡ some o
    → IsNodup (map SourceSpan.id old)
    → contains matched o.id ≡ false
    → contains (matched_ids (place_all old matched new)) o.id
      ≡ any (λ n. n.fingerprint == o.fingerprint) new
unfolding place_all matched_ids grow_matched
matched-place_all old matched [] o h d u = refl
matched-place_all old matched (n ∷ ns) o h d u = elim (place_one_cases old matched n) [
  | inl added ↦ rw added (
      ground (
        arith,
        eq_iff n.fingerprint o.fingerprint,
        place_matching old matched n o h u,
        matched-place_all old matched ns o h d u,
      ))
  | inr (p, reused, found, unseen) ↦ rw reused (
      ground (
        arith,
        eq_iff n.fingerprint o.fingerprint,
        eq_iff o.id p.id,
        fingerprint-match_of old n.fingerprint p found,
        place_matching old matched n o h u,
        match_of-injective old o.fingerprint n.fingerprint o p d h found,
        matched-place_all old (p.id ∷ matched) ns o h d,
      ))
]

-- Where ids are unique, the table has a matching span under its id.
get_row-match_of :
    (old : List SourceSpan) (fp : String) (o : SourceSpan)
    → IsNodup (map SourceSpan.id old)
    → match_of old fp ≡ some o
    → get_row SourceSpan.id o.id old ≡ some o
unfolding match_of get_row
get_row-match_of [] fp o d h = absurd (cc)
get_row-match_of (q ∷ old) fp o d h =
    ground
      (arith, eq_iff q.id o.id, eq_refl q.id, id-match_of old fp o, get_row-match_of old fp o d.1)

-- The span is the first of the old ones with its fingerprint.
abbrev pub is_first : List SourceSpan → SourceSpan → Bool
is_first old o = elim (match_of old o.fingerprint) [ none ↦ false | some q ↦ q.id == o.id ]

first_match :
    (old : List SourceSpan) (o : SourceSpan)
    → get_row SourceSpan.id o.id old ≡ some o
    → IsNodup (map SourceSpan.id old)
    → is_first old o ≡ true
    → match_of old o.fingerprint ≡ some o
first_match old o stored d first = elim (Option-cases (match_of old o.fingerprint)) [
  | inl missing ↦ absurd (ground (arith, missing, first))
  | inr (q, found) ↦
      ground (
        arith,
        found,
        first,
        eq_iff q.id o.id,
        get_row-match_of old o.fingerprint q d found,
        stored,
      )
]

-- A span that is reused is the first with its fingerprint.
is_first-match_of :
    (old : List SourceSpan) (fp : String) (p o : SourceSpan)
    → get_row SourceSpan.id o.id old ≡ some o
    → IsNodup (map SourceSpan.id old)
    → match_of old fp ≡ some p
    → p.id ≡ o.id
    → is_first old o ≡ true
is_first-match_of old fp p o stored d found e =
    let reached : some p ≡ some o =
      sym (get_row-match_of old fp p d found) ∙ ap (λ i. get_row SourceSpan.id i old) e ∙ stored in
    let kept : match_of old o.fingerprint ≡ some o =
      ground (arith, reached, found, fingerprint-match_of old fp p found) in
    rw (is_first, kept) (eq_refl o.id)

unmatched-place_all :
    (old : List SourceSpan) (matched : List String) (new : List SourceSpan) (o : SourceSpan)
    → get_row SourceSpan.id o.id old ≡ some o
    → IsNodup (map SourceSpan.id old)
    → is_first old o ≡ false
    → contains (matched_ids (place_all old matched new)) o.id ≡ false
unfolding place_all matched_ids grow_matched
unmatched-place_all old matched [] o stored d later = refl
unmatched-place_all old matched (n ∷ ns) o stored d later = elim (place_one_cases old matched n) [
  | inl added ↦ rw added (unmatched-place_all old matched ns o stored d later)
  | inr (p, reused, found, unseen) ↦ rw reused (
      ground (
        arith,
        eq_iff o.id p.id,
        eq_iff p.id o.id,
        is_first-match_of old n.fingerprint p o stored d found,
        unmatched-place_all old (p.id ∷ matched) ns o stored d later,
      ))
]

-- An old span is matched exactly if it is the first with its fingerprint and some new span has it.
pub matched_lem :
    (old new : List SourceSpan) (o : SourceSpan)
    → get_row SourceSpan.id o.id old ≡ some o
    → IsNodup (map SourceSpan.id old)
    → contains (matched_ids (place_all old [] new)) o.id
      ≡ (is_first old o && any (λ n. n.fingerprint == o.fingerprint) new)
matched_lem old new o stored d = elim (Bool-cases (is_first old o)) [
  | inl first ↦ rw first (matched-place_all old [] new o (first_match old o stored d first) d refl)
  | inr later ↦ rw later (unmatched-place_all old [] new o stored d later)
]
