-- ===== src/Spans/Stale.antt =====
-- ingest/spans.py: which old rows are marked stale.
use wikimind.Prelude.{
  String, ◌==◌, eq_iff, ◌≡◌, refl, Bool, true, false, not, ◌&&◌, Option, none, some, List, [], ◌∷◌,
  map, any, contains, IsNodup, if◌then◌else◌, arith, get_row, save_row, get_row-save_row,
  Bool-cases, inl, inr, is_some,
}
use wikimind.Spans.{
  SourceSpan, grow_matched, place_all, placed, matched_ids, save_all, mark_stale, anchor,
}
use wikimind.Spans.Contents.{place_one_cases, is_first, matched_lem}

-- The last row of a list that has an id.
abbrev last_with : String → List SourceSpan → Option SourceSpan
last_with id [] = none
last_with id (s ∷ ss) =
    let later = last_with id ss in
    if is_some later then later else if s.id == id then some s else none

abbrev or_else : Option SourceSpan → Option SourceSpan → Option SourceSpan
or_else none other = other
or_else (some s) other = some s

-- Saving rows one after another: the last one with an id is what the table has under it.
get_row-save_all :
    (id : String) (ss rows : List SourceSpan)
    → get_row SourceSpan.id id (save_all ss rows)
      ≡ or_else (last_with id ss) (get_row SourceSpan.id id rows)
unfolding save_all
get_row-save_all id [] rows = refl
get_row-save_all id (s ∷ ss) rows = ground (
  arith,
  get_row-save_all id ss (save_row SourceSpan.id s rows),
  get_row-save_row SourceSpan.id id s rows,
)

last_with_absent :
    (matched : List String) (old : List SourceSpan) (id : String)
    → contains (map SourceSpan.id old) id ≡ false
    → last_with id (mark_stale matched old) ≡ none
unfolding mark_stale
last_with_absent matched [] id h = refl
last_with_absent matched (q ∷ old) id h = elim (Bool-cases (contains matched q.id)) [
  | inl kept ↦ rw kept (ground (arith, last_with_absent matched old id))
  | inr marked ↦
      rw marked (ground (arith, eq_iff id q.id, eq_iff q.id id, last_with_absent matched old id))
]

-- An old span is among those marked stale exactly if its id is not matched.
last_with-mark_stale :
    (matched : List String) (old : List SourceSpan) (o : SourceSpan)
    → get_row SourceSpan.id o.id old ≡ some o
    → IsNodup (map SourceSpan.id old)
    → last_with o.id (mark_stale matched old)
      ≡ (if contains matched o.id then none else some (record o { stale = true }))
unfolding mark_stale get_row
last_with-mark_stale matched [] o h d = absurd (cc)
last_with-mark_stale matched (q ∷ old) o h d = elim (Bool-cases (contains matched q.id)) [
  | inl kept ↦ rw kept (
      ground (
        arith,
        eq_iff q.id o.id,
        last_with_absent matched old o.id,
        last_with-mark_stale matched old o,
        d.0,
        d.1,
      ))
  | inr marked ↦ rw marked (
      ground (
        arith,
        eq_iff q.id o.id,
        last_with_absent matched old o.id,
        last_with-mark_stale matched old o,
        d.0,
        d.1,
      ))
]

abbrev pub stale_flag : Option SourceSpan → Option Bool
stale_flag none = none
stale_flag (some s) = some s.stale

-- Of the returned spans, those with an old span's id are the matched ones, and are not stale.
last_with-placed :
    (old : List SourceSpan) (matched : List String) (new : List SourceSpan) (id : String)
    → contains (map SourceSpan.id new) id ≡ false
    → stale_flag (last_with id (map placed (place_all old matched new)))
      ≡ (if contains (matched_ids (place_all old matched new)) id then some false else none)
unfolding place_all matched_ids grow_matched placed
last_with-placed old matched [] id h = refl
last_with-placed old matched (n ∷ ns) id h = elim (place_one_cases old matched n) [
  | inl added ↦
      rw added (ground (arith, eq_iff id n.id, eq_iff n.id id, last_with-placed old matched ns id))
  | inr (o, reused, found, unseen) ↦
      rw reused (
        ground (arith, eq_iff id o.id, eq_iff o.id id, last_with-placed old (o.id ∷ matched) ns id))
]

-- After re-anchoring, each of the old spans is stored under its id, so that a claim's reference to it
-- does not dangle; and it is stale unless it is the first old span with its
-- fingerprint and some new span has that fingerprint. The old ids are unique, and the new spans' ids
-- are fresh.
pub stale-anchor :
    (old new rows : List SourceSpan) (o : SourceSpan)
    → get_row SourceSpan.id o.id old ≡ some o
    → IsNodup (map SourceSpan.id old)
    → contains (map SourceSpan.id new) o.id ≡ false
    → stale_flag (get_row SourceSpan.id o.id (anchor old new rows).1)
      ≡ some (not (is_first old o && any (λ n. n.fingerprint == o.fingerprint) new))
unfolding anchor
stale-anchor old new rows o stored d fresh =
    let placements = place_all old [] new in
    ground (
      arith,
      get_row-save_all o.id (mark_stale (matched_ids placements) old)
          (save_all (map placed placements) rows),
      get_row-save_all o.id (map placed placements) rows,
      last_with-mark_stale (matched_ids placements) old o stored d,
      last_with-placed old [] new o.id fresh,
      matched_lem old new o stored d,
    )
