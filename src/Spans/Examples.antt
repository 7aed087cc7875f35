-- ===== src/Spans/Examples.antt =====
-- Re-anchoring on concrete spans: one paragraph kept and moved, one lost, one of two equal ones kept,
-- one new.
use wikimind.Prelude.{
  ℕ, String, ◌≡◌, refl, false, true, some, List, [], ◌∷◌, get_row, save_row, not, ◌&&◌, any, ◌==◌,
  map, IsNodup,
}
use wikimind.Spans.{SourceSpan, html_paragraph_offset, match_of, anchor}
use wikimind.Spans.Contents.{is_first}
use wikimind.Spans.Stale.{stale_flag, stale-anchor}

abbrev span : String → ℕ → String → SourceSpan
span id paragraph fingerprint = record {
  id = id;
  source_id = "s1";
  user_id = "u1";
  locator = html_paragraph_offset paragraph 0 9;
  text = fingerprint;
  fingerprint = fingerprint;
  stale = false;
}

abbrev old : List SourceSpan
old = span "o1" 0 "kept" ∷ span "o2" 1 "lost" ∷ span "o3" 2 "kept" ∷ []

abbrev o1 : SourceSpan
o1 = span "o1" 0 "kept"

abbrev new : List SourceSpan
new = span "n1" 0 "fresh" ∷ span "n2" 1 "kept" ∷ []

old-IsNodup : IsNodup (map SourceSpan.id old)
old-IsNodup = (refl, (refl, (refl, tt)))

stale-anchor_example :
    stale_flag (get_row SourceSpan.id "o1" (anchor old new old).1)
    ≡ some (not (is_first old o1 && any (λ n. n.fingerprint == "kept") new))
unfolding get_row
stale-anchor_example = stale-anchor old new old o1 refl old-IsNodup refl

-- The first of the two equal paragraphs is kept; the second is stale, though its text is there.
equal_paragraphs_run :
    (stale_flag (get_row SourceSpan.id "o1" (anchor old new old).1) ≡ some false)
    × (stale_flag (get_row SourceSpan.id "o3" (anchor old new old).1) ≡ some true)
unfolding anchor match_of get_row save_row
equal_paragraphs_run = (refl, refl)
