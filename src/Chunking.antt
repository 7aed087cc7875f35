-- ===== src/Chunking.antt =====
-- ingest/utils.py `_split_by_token_window`: cutting a text into windows at blanks. A text is the
-- list of its characters; the tests for the blank and for white space are given.
pub mod Windows
pub mod Split
pub mod Paragraphs
pub mod Headings
mod Examples
use wikimind.Prelude.{
  ℕ, zero, suc, ◌+◌, ◌*◌, ◌/◌, Bool, true, false, not, ◌&&◌, Option, none, some, List, [], ◌∷◌,
  length, ltb, leb, if◌then◌else◌,
}

-- `len(text) // 4`
unfoldable pub estimate_tokens {ℓ} : {C : Type ℓ} → List C → ℕ
estimate_tokens text = length text / 4

-- The columns of `DocumentChunk` that the split decides; the document and the heading path are the
-- same for all chunks of a call.
pub record DocumentChunk {ℓ} (C : Type ℓ) : Type ℓ where
  pub content : List C
  pub token_count : ℕ
  pub chunk_index : ℕ

module _ {ℓ} {C : Type ℓ} where
  -- `text[:n]` and `text[n:]`
  unfoldable pub take : ℕ → List C → List C
  take zero cs = []
  take (suc n) [] = []
  take (suc n) (c ∷ cs) = c ∷ take n cs

  unfoldable pub drop : ℕ → List C → List C
  drop zero cs = cs
  drop (suc n) [] = []
  drop (suc n) (c ∷ cs) = drop n cs

  -- The leading characters that pass a test, left out.
  unfoldable pub drop_while : (C → Bool) → List C → List C
  drop_while p [] = []
  drop_while p (c ∷ cs) = let rest = drop_while p cs in if p c then rest else c ∷ cs

  unfoldable pub trim_last : (C → Bool) → C → List C → List C
  trim_last p c [] = if p c then [] else c ∷ []
  trim_last p c (d ∷ ds) = c ∷ d ∷ ds

  unfoldable pub rstrip : (C → Bool) → List C → List C
  unfolding trim_last
  rstrip p [] = []
  rstrip p (c ∷ cs) = trim_last p c (rstrip p cs)

module _ {ℓ} {C : Type ℓ} (is_blank is_white : C → Bool) where
  unfoldable pub strip : List C → List C
  unfolding drop_while rstrip
  strip text = rstrip is_white (drop_while is_white text)

  unfoldable pub later_or : Bool → Option ℕ → Option ℕ
  later_or here (some i) = some (suc i)
  later_or here none = if here then some 0 else none

  -- `rfind(" ", …)` in a window, counted from its start.
  unfoldable pub last_blank : List C → Option ℕ
  unfolding later_or
  last_blank [] = none
  last_blank (c ∷ cs) = later_or (is_blank c) (last_blank cs)

  -- `if split_at <= pos: split_at = end`
  unfoldable pub split_at : ℕ → Option ℕ → ℕ
  split_at end none = end
  split_at end (some zero) = end
  split_at end (some (suc i)) = suc i

  -- The end of the window at the start of `text`.
  unfoldable pub window_end : ℕ → List C → ℕ
  unfolding take last_blank split_at
  window_end max_chars text =
      if ltb max_chars (length text)
      then split_at max_chars (last_blank (take max_chars text))
      else length text

  -- A chunk for the content, unless it is empty.
  unfoldable pub chunk_of : ℕ → List C → List (DocumentChunk C)
  unfolding estimate_tokens
  chunk_of index [] = []
  chunk_of index (c ∷ cs) =
      record { content = c ∷ cs; token_count = estimate_tokens (c ∷ cs); chunk_index = index } ∷ []

  unfoldable pub prepend :
      List (DocumentChunk C) → Option (List (DocumentChunk C)) → Option (List (DocumentChunk C))
  prepend [] chunks = chunks
  prepend (c ∷ cs) none = none
  prepend (c ∷ cs) (some chunks) = some (c ∷ chunks)

  -- The `while` loop on what is left of the text, none where the fuel runs out.
  unfoldable pub windows : ℕ → ℕ → ℕ → List C → Option (List (DocumentChunk C))
  unfolding strip window_end chunk_of prepend take drop drop_while
  windows zero max_chars index text = none
  windows (suc fuel) max_chars index [] = some []
  windows (suc fuel) max_chars index (c ∷ cs) =
      let end = window_end max_chars (c ∷ cs) in
      let chunk = chunk_of index (strip (take end (c ∷ cs))) in
      prepend chunk
        (windows fuel max_chars (index + length chunk) (drop_while is_blank (drop end (c ∷ cs))))

  unfoldable pub split_by_token_window : ℕ → ℕ → List C → Option (List (DocumentChunk C))
  unfolding windows
  split_by_token_window max_chunk_tokens start_index text =
      windows (suc (length text)) (max_chunk_tokens * 4) start_index text
