-- ===== src/Chunking/Headings.antt =====
-- ingest/utils.py `chunk_text`, on the sections and paragraphs that its regular expressions give.
pub mod Bound
use wikimind.Prelude.{
  ℕ, zero, suc, ◌+◌, ◌-◌, Bool, true, false, not, ◌&&◌, Option, none, some, List, [], ◌∷◌, ◌++◌,
  length, ltb, leb, any, if◌then◌else◌,
}
use wikimind.Chunking.{estimate_tokens, DocumentChunk, strip, take}
use wikimind.Chunking.Paragraphs.{one_chunk, extend, split_by_paragraphs}

module _ {ℓ} (C : Type ℓ) where
  -- A part of the text: a heading with its level and its text, or what stands between headings.
  pub data Section : Type ℓ where
    heading : ℕ → List C → Section
    body : List C → Section

  -- A chunk before the numbers: its heading path and its content.
  pub record Headed : Type ℓ where
    pub heading_path : List (List C)
    pub content : List C

module _ {ℓ} {C : Type ℓ} (is_blank is_white : C → Bool) (newline : C) where
  -- `"\n".join(parts)`
  unfoldable pub join_lines : List (List C) → List C
  join_lines [] = []
  join_lines (p ∷ []) = p
  join_lines (p ∷ q ∷ ps) = p ++ (newline ∷ join_lines (q ∷ ps))

  unfoldable pub headed : List (List C) → List C → List (Headed C)
  headed path [] = []
  headed path (c ∷ cs) = record { heading_path = path; content = c ∷ cs } ∷ []

  is_nonempty : List C → Bool
  is_nonempty [] = false
  is_nonempty (c ∷ cs) = true

  -- `estimate_tokens(content) >= max_chunk_tokens and content`
  unfoldable pub is_large : ℕ → List C → Bool
  unfolding estimate_tokens is_nonempty
  is_large max_chunk_tokens content =
      leb max_chunk_tokens (estimate_tokens content) && is_nonempty content

  -- `[*current_headings[: level - 1], heading_text]`
  unfoldable pub path_after : Section C → List (List C) → List (List C)
  unfolding take strip
  path_after (heading level text) path =
      take (level - 1) path ++ (strip is_blank is_white text ∷ [])
  path_after (body text) path = path

  unfoldable pub content_after : Section C → List (List C) → List (List C)
  content_after (heading level text) current = current
  content_after (body text) current = current ++ (text ∷ [])

  -- The loop over the sections, with the path and the content so far, and the final chunk.
  unfoldable pub collect : ℕ → List (Section C) → List (List C) → List (List C) → List (Headed C)
  unfolding join_lines headed is_large path_after content_after strip
  collect max_chunk_tokens [] path current =
      headed path (strip is_blank is_white (join_lines current))
  collect max_chunk_tokens (s ∷ sections) path current =
      let content = strip is_blank is_white (join_lines (content_after s current)) in
      let fresh = collect max_chunk_tokens sections (path_after s path) [] in
      let more = collect max_chunk_tokens sections (path_after s path) (content_after s current) in
      if is_large max_chunk_tokens content
      then headed (path_after s path) content ++ fresh
      else more

  -- `if not chunks: chunks = [...]`
  unfoldable pub or_text : List C → List (Headed C) → List (Headed C)
  or_text text [] = record { heading_path = []; content = text } ∷ []
  or_text text (c ∷ cs) = c ∷ cs

  module _ (paragraphs_of : List C → List (List C)) where
    -- One chunk of the second loop.
    unfoldable pub resplit_one : ℕ → ℕ → List C → Option (List (DocumentChunk C))
    unfolding estimate_tokens one_chunk split_by_paragraphs
    resplit_one max_chunk_tokens idx content =
        if ltb max_chunk_tokens (estimate_tokens content)
        then split_by_paragraphs is_blank is_white newline max_chunk_tokens idx
            (paragraphs_of content)
        else some (one_chunk is_blank is_white newline idx content)

    unfoldable pub resplit : ℕ → List (Headed C) → ℕ → Option (List (DocumentChunk C))
    unfolding resplit_one extend
    resplit max_chunk_tokens [] idx = some []
    resplit max_chunk_tokens (c ∷ cs) idx =
        extend is_blank is_white newline idx (resplit_one max_chunk_tokens idx c.content)
          (resplit max_chunk_tokens cs)

    -- The chunks as they were numbered by the first loop.
    unfoldable pub numbered : List (Headed C) → ℕ → List (DocumentChunk C)
    unfolding one_chunk
    numbered [] idx = []
    numbered (c ∷ cs) idx =
        one_chunk is_blank is_white newline idx c.content ++ numbered cs (suc idx)

    unfoldable pub resplit_large : ℕ → List (Headed C) → Option (List (DocumentChunk C))
    unfolding estimate_tokens resplit numbered
    resplit_large max_chunk_tokens chunks =
        if any (λ c. ltb max_chunk_tokens (estimate_tokens c.content)) chunks
        then resplit max_chunk_tokens chunks 0
        else some (numbered chunks 0)

    unfoldable pub chunk_text : ℕ → List C → List (Section C) → Option (List (DocumentChunk C))
    unfolding collect or_text resplit_large
    chunk_text max_chunk_tokens text sections =
        resplit_large max_chunk_tokens (or_text text (collect max_chunk_tokens sections [] []))
