-- ===== src/Chunking/Paragraphs.antt =====
-- ingest/utils.py `_split_by_paragraphs`, on the paragraphs that the regular expression gives.
pub mod Packing
use wikimind.Prelude.{
  ℕ, zero, suc, ◌+◌, Bool, true, false, not, ◌&&◌, Option, none, some, List, [], ◌∷◌, ◌++◌, length,
  ltb, if◌then◌else◌,
}
use wikimind.Chunking.{estimate_tokens, DocumentChunk, strip, chunk_of, split_by_token_window}

module _ {ℓ} {C : Type ℓ} (is_blank is_white : C → Bool) (newline : C) where
  -- `"\n\n".join(parts)`
  unfoldable pub join : List (List C) → List C
  join [] = []
  join (p ∷ []) = p
  join (p ∷ q ∷ ps) = p ++ (newline ∷ newline ∷ join (q ∷ ps))

  unfoldable pub one_chunk : ℕ → List C → List (DocumentChunk C)
  unfolding estimate_tokens
  one_chunk index content =
      record { content = content; token_count = estimate_tokens content; chunk_index = index } ∷ []

  -- The chunks of accumulated paragraphs: windows where they are too long for one.
  unfoldable pub flush : ℕ → ℕ → List C → Option (List (DocumentChunk C))
  unfolding estimate_tokens split_by_token_window one_chunk
  flush max_chunk_tokens index content =
      if ltb max_chunk_tokens (estimate_tokens content)
      then split_by_token_window is_blank is_white max_chunk_tokens index content
      else some (one_chunk index content)

  -- The last flush leaves empty content out.
  unfoldable pub flush_last : ℕ → ℕ → List C → Option (List (DocumentChunk C))
  unfolding flush
  flush_last max_chunk_tokens index [] = some []
  flush_last max_chunk_tokens index (c ∷ cs) = flush max_chunk_tokens index (c ∷ cs)

  unfoldable pub followed_by :
      List (DocumentChunk C) → Option (List (DocumentChunk C)) → Option (List (DocumentChunk C))
  followed_by chunks none = none
  followed_by chunks (some later) = some (chunks ++ later)

  -- `chunks.extend(…); chunk_index += …`, and on with `rest` at the next index.
  unfoldable pub extend :
      ℕ
      → Option (List (DocumentChunk C))
      → (ℕ → Option (List (DocumentChunk C)))
      → Option (List (DocumentChunk C))
  unfolding followed_by
  extend index none rest = none
  extend index (some chunks) rest = followed_by chunks (rest (index + length chunks))

  -- With paragraphs accumulated, `if estimate_tokens(candidate) > max_chunk_tokens`.
  unfoldable pub is_full : ℕ → List (List C) → List C → Bool
  unfolding estimate_tokens strip join
  is_full max_chunk_tokens [] para = false
  is_full max_chunk_tokens (p ∷ ps) para =
      ltb max_chunk_tokens
        (estimate_tokens (strip is_blank is_white (join ((p ∷ ps) ++ (para ∷ [])))))

  -- The loop over the paragraphs, with those accumulated so far, and the last flush.
  unfoldable pub pack : ℕ → List (List C) → List (List C) → ℕ → Option (List (DocumentChunk C))
  unfolding flush flush_last extend is_full strip join
  pack max_chunk_tokens [] parts index =
      flush_last max_chunk_tokens index (strip is_blank is_white (join parts))
  pack max_chunk_tokens (para ∷ paras) parts index =
      let alone = pack max_chunk_tokens paras (para ∷ []) in
      let together = pack max_chunk_tokens paras (parts ++ (para ∷ [])) index in
      if is_full max_chunk_tokens parts para
      then extend index (flush max_chunk_tokens index (strip is_blank is_white (join parts))) alone
      else together

  unfoldable pub split_by_paragraphs : ℕ → ℕ → List (List C) → Option (List (DocumentChunk C))
  unfolding pack
  split_by_paragraphs max_chunk_tokens start_index paragraphs =
      pack max_chunk_tokens paragraphs [] start_index
