-- ===== src/Spans.antt =====
-- ingest/spans.py: the persisted spans of a source, and their re-anchoring when the source is
-- ingested again. A session's pending rows and the table are one list of rows.
pub mod Contents
pub mod Stale
mod Examples
use wikimind.Prelude.{
  ℕ, zero, suc, String, ◌==◌, ◌+◌, Bool, true, false, not, Option, none, some, List, [], ◌∷◌, ◌++◌,
  map, filter, find, contains, if◌then◌else◌, save_row, length,
}

-- `LocatorKind` with the locator's JSON object.
pub data Locator : Type 0 where
  text_byte_range : ℕ → ℕ → Locator
  pdf_page_rect : ℕ → ℕ → Locator
  html_paragraph_offset : ℕ → ℕ → ℕ → Locator
  youtube_timestamp : ℕ → Locator

pub record SourceSpan : Type 0 where
  pub id : String
  pub source_id : String
  pub user_id : String
  pub locator : Locator
  pub text : String
  pub fingerprint : String
  pub stale : Bool

-- The decision for one new span: an old row takes its place, or it becomes a row of its own.
pub data Placement : Type 0 where
  reuse : SourceSpan → SourceSpan → Placement
  insert : SourceSpan → Placement

-- `old_by_fingerprint.get(…)`: the first old span with the fingerprint.
unfoldable pub match_of : List SourceSpan → String → Option SourceSpan
match_of old fingerprint = find (λ o. o.fingerprint == fingerprint) old

unfoldable pub place_one : List SourceSpan → List String → SourceSpan → Placement
unfolding match_of
place_one old matched n = elim (match_of old n.fingerprint) [
  | none ↦ insert n
  | some o ↦ if contains matched o.id then insert n else reuse o n
]

unfoldable pub grow_matched : Placement → List String → List String
grow_matched (reuse o n) matched = o.id ∷ matched
grow_matched (insert n) matched = matched

-- The loop over the new spans, with the ids that are matched so far.
unfoldable pub place_all : List SourceSpan → List String → List SourceSpan → List Placement
unfolding place_one grow_matched
place_all old matched [] = []
place_all old matched (n ∷ ns) =
    place_one old matched n ∷ place_all old (grow_matched (place_one old matched n) matched) ns

-- The span that the placement leaves in `final_spans`.
unfoldable pub placed : Placement → SourceSpan
placed (reuse o n) = record o { locator = n.locator; text = n.text; stale = false }
placed (insert n) = n

unfoldable pub matched_ids : List Placement → List String
matched_ids [] = []
matched_ids (reuse o n ∷ ps) = o.id ∷ matched_ids ps
matched_ids (insert n ∷ ps) = matched_ids ps

unfoldable pub save_all : List SourceSpan → List SourceSpan → List SourceSpan
save_all [] rows = rows
save_all (s ∷ ss) rows = save_all ss (save_row SourceSpan.id s rows)

-- `old_span.stale = True` for each old span that nothing matched.
unfoldable pub mark_stale : List String → List SourceSpan → List SourceSpan
mark_stale matched [] = []
mark_stale matched (o ∷ os) =
    let rest = mark_stale matched os in
    if contains matched o.id then rest else record o { stale = true } ∷ rest

-- The re-anchoring over the old spans that are known; it returns `final_spans` and the rows.
unfoldable pub anchor :
    List SourceSpan → List SourceSpan → List SourceSpan → List SourceSpan × List SourceSpan
unfolding place_all placed matched_ids save_all mark_stale
anchor old new rows =
    let placements = place_all old [] new in
    (
      map placed placements,
      save_all (mark_stale (matched_ids placements) old) (save_all (map placed placements) rows),
    )

unfoldable pub spans_of : String → List SourceSpan → List SourceSpan
spans_of source_id rows = filter (λ s. s.source_id == source_id) rows

anchor_or_add : List SourceSpan → List SourceSpan → List SourceSpan → List SourceSpan
anchor_or_add [] new rows = save_all new rows
anchor_or_add (o ∷ os) new rows = (anchor (o ∷ os) new rows).1

pub persist_spans : List SourceSpan → List SourceSpan → List SourceSpan
unfolding spans_of anchor_or_add
persist_spans [] rows = rows
persist_spans (s ∷ ss) rows = anchor_or_add (spans_of s.source_id rows) (s ∷ ss) rows

-- `existing_spans` if the caller has them, else those of the table.
existing_or_loaded : Option (List SourceSpan) → String → List SourceSpan → List SourceSpan
existing_or_loaded none source_id rows = spans_of source_id rows
existing_or_loaded (some existing) source_id rows = existing

reanchor_known :
    List SourceSpan → List SourceSpan → List SourceSpan → List SourceSpan × List SourceSpan
reanchor_known [] new rows = (new, persist_spans new rows)
reanchor_known (o ∷ os) new rows = anchor (o ∷ os) new rows

pub reanchor_spans :
    String
    → List SourceSpan
    → Option (List SourceSpan)
    → List SourceSpan
    → List SourceSpan × List SourceSpan
unfolding existing_or_loaded reanchor_known
reanchor_spans source_id new existing rows =
    reanchor_known (existing_or_loaded existing source_id rows) new rows
