-- ===== src/Chunking/Split.antt =====
-- ingest/utils.py `_split_by_token_window`: it ends, its chunks fit, and no text is lost.
use wikimind.Prelude.{
  ℕ, zero, suc, ◌+◌, ◌*◌, ◌/◌, ◌≤◌, ◌<◌, ◌≡◌, refl, ap, subst, ◌∙◌, Bool, true, Option, none, some,
  List, [], ◌∷◌, ◌++◌, length, All, All-map, arith,
}
use wikimind.Chunking.{
  estimate_tokens, DocumentChunk, take, drop, drop_while, strip, window_end, chunk_of, prepend,
  windows, split_by_token_window,
}
use wikimind.Chunking.Windows.{
  length-take, length-drop, length-drop_while, ink, ink-drop_while, ink-strip, ink-take-drop,
  length-strip, window_end_bounds,
}

module _ {ℓ} {C : Type ℓ} where
  -- The chunk's content fits into so many characters, and its count is that of its content.
  abbrev pub IsWithin : ℕ → DocumentChunk C → Type 0
  IsWithin max_chars c = (length c.content ≤ max_chars) × (c.token_count ≡ length c.content / 4)

  -- The chunks are numbered one after another.
  abbrev pub IsNumbered : ℕ → List (DocumentChunk C) → Type 0
  IsNumbered index [] = Unit
  IsNumbered index (c ∷ cs) = (c.chunk_index ≡ index) × IsNumbered (suc index) cs

module _ {ℓ} {C : Type ℓ} (is_blank is_white : C → Bool) where
  abbrev pub ink_of : List (DocumentChunk C) → List C
  ink_of [] = []
  ink_of (c ∷ cs) = ink is_blank is_white c.content ++ ink_of cs

  -- What a split gives: chunks that fit, are numbered and have all the text but white space; to
  -- run out of fuel is no split.
  abbrev pub IsSplit : ℕ → ℕ → List C → Option (List (DocumentChunk C)) → Type ℓ
  IsSplit max_chars index text none = ◌≡◌ {A = List C} text text × (◌≡◌ {A = ℕ} 0 1)
  IsSplit max_chars index text (some chunks) =
      (ink_of chunks ≡ ink is_blank is_white text)
      × All (IsWithin max_chars) chunks
      × IsNumbered index chunks

  IsSplit-prepend :
      (max_chars index : ℕ) (content text rest : List C) (later : Option (List (DocumentChunk C)))
      → length content ≤ max_chars
      → ink is_blank is_white content ++ ink is_blank is_white rest ≡ ink is_blank is_white text
      → IsSplit max_chars (index + length (chunk_of is_blank is_white index content)) rest later
      → IsSplit max_chars index text
          (prepend is_blank is_white (chunk_of is_blank is_white index content) later)
  unfolding prepend chunk_of estimate_tokens
  IsSplit-prepend max_chars index [] text rest none le same h = absurd (ground (arith, h.1))
  IsSplit-prepend max_chars index [] text rest (some chunks) le same (inked, within, numbered) =
      let e : index + 0 ≡ index = omega arith in
      (inked ∙ same, within, subst (λ i. IsNumbered i chunks) e numbered)
  IsSplit-prepend max_chars index (c ∷ cs) text rest none le same h = absurd (ground (arith, h.1))
  IsSplit-prepend max_chars index (c ∷ cs) text rest (some chunks) le same
        (inked, within, numbered) =
      let e : index + 1 ≡ suc index = omega arith in
      (
        ap (λ r. ink is_blank is_white (c ∷ cs) ++ r) inked ∙ same,
        ((le, refl), within),
        (refl, subst (λ i. IsNumbered i chunks) e numbered),
      )

  length-shrinks :
      (end : ℕ) (c : C) (cs : List C)
      → 0 < end
      → length (drop_while is_blank (drop end (c ∷ cs))) ≤ length cs
  unfolding drop
  length-shrinks zero c cs lt = absurd (omega arith)
  length-shrinks (suc end) c cs lt =
      omega (arith, length-drop_while is_blank (drop end cs), length-drop end cs)

  module _ (white : (c : C) → is_blank c ≡ true → is_white c ≡ true) where
    windows_lem :
        (fuel max_chars index : ℕ) (text : List C)
        → 0 < max_chars
        → length text < fuel
        → IsSplit max_chars index text (windows is_blank is_white fuel max_chars index text)
    unfolding windows
    windows_lem zero max_chars index text lt enough = absurd (omega arith)
    windows_lem (suc fuel) max_chars index [] lt enough = (refl, tt, tt)
    windows_lem (suc fuel) max_chars index (c ∷ cs) lt enough =
        let end = window_end is_blank is_white max_chars (c ∷ cs) in
        let bounds = window_end_bounds is_blank is_white max_chars c cs lt in
        let piece = take end (c ∷ cs) in
        IsSplit-prepend max_chars index (strip is_blank is_white piece) (c ∷ cs)
          (drop_while is_blank (drop end (c ∷ cs))) _
          (omega (arith, bounds, length-strip is_blank is_white piece, length-take end (c ∷ cs)))
          (ap (λ l. l ++ ink is_blank is_white (drop_while is_blank (drop end (c ∷ cs))))
              (ink-strip is_blank is_white piece)
            ∙ ap (λ l. ink is_blank is_white piece ++ l)
                (ink-drop_while is_blank is_white is_blank white (drop end (c ∷ cs)))
            ∙ ink-take-drop is_blank is_white end (c ∷ cs))
          (windows_lem fuel max_chars _ _ lt
            (omega (arith, enough, length-shrinks end c cs bounds.0)))

    -- What a caller gets from a split into windows of so many tokens; to run out of fuel is no
    -- split.
    abbrev pub IsTokenSplit : ℕ → ℕ → List C → Option (List (DocumentChunk C)) → Type ℓ
    IsTokenSplit max_chunk_tokens index text none = ◌≡◌ {A = List C} text text × (◌≡◌ {A = ℕ} 0 1)
    IsTokenSplit max_chunk_tokens index text (some chunks) =
        (ink_of chunks ≡ ink is_blank is_white text)
        × All (λ c. c.token_count ≤ max_chunk_tokens) chunks
        × IsNumbered index chunks

    IsTokenSplit-IsSplit :
        (max_chunk_tokens index : ℕ) (text : List C) (o : Option (List (DocumentChunk C)))
        → IsSplit (max_chunk_tokens * 4) index text o
        → IsTokenSplit max_chunk_tokens index text o
    IsTokenSplit-IsSplit max_chunk_tokens index text none h = h
    IsTokenSplit-IsSplit max_chunk_tokens index text (some chunks) (inked, within, numbered) =
        (inked, All-map (λ c (fits, counts). omega (arith, fits, counts)) chunks within, numbered)

    -- For a positive number of tokens the split ends; no chunk has more tokens than that, the
    -- chunks are numbered from the start index on, and together they have the text's characters in
    -- their order, white space aside. A blank is white space.
    pub split_by_token_window_lem :
        (max_chunk_tokens start_index : ℕ) (text : List C)
        → 0 < max_chunk_tokens
        → IsTokenSplit max_chunk_tokens start_index text
            (split_by_token_window is_blank is_white max_chunk_tokens start_index text)
    unfolding split_by_token_window
    split_by_token_window_lem max_chunk_tokens start_index text lt =
        IsTokenSplit-IsSplit max_chunk_tokens start_index text _ (
          windows_lem (suc (length text)) (max_chunk_tokens * 4) start_index text (omega arith)
            (omega arith))
