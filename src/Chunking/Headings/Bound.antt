-- ===== src/Chunking/Headings/Bound.antt =====
-- ingest/utils.py `chunk_text`: no chunk exceeds the limit, and no text between headings is lost.
use wikimind.Prelude.{
  ℕ, suc, ◌<◌, ◌≡◌, refl, ap, subst, ◌∙◌, sym, Bool, true, false, Option, some, List, [], ◌∷◌, ◌++◌,
  ltb, any, arith, Bool-cases, inl, inr, append-nil,
}
use wikimind.Chunking.{estimate_tokens, DocumentChunk, strip}
use wikimind.Chunking.Windows.{ink, ink-strip}
use wikimind.Chunking.Paragraphs.{one_chunk, split_by_paragraphs}
use wikimind.Chunking.Paragraphs.Packing.{
  Packs, ink_all, Packs-one_chunk, Packs-extend, split_by_paragraphs_lem, ink-append,
  ink_all-append,
}
use wikimind.Chunking.Headings.{
  Section, heading, body, Headed, join_lines, headed, is_large, path_after, content_after, collect,
  or_text, resplit_one, resplit, numbered, resplit_large, chunk_text,
}

module _ {ℓ} {C : Type ℓ} (is_blank is_white : C → Bool) (newline : C)
    (white : (c : C) → is_blank c ≡ true → is_white c ≡ true)
    (white_newline : is_white newline ≡ true) (paragraphs_of : List C → List (List C))
    (split_keeps : (text : List C)
      → ink_all is_blank is_white newline white white_newline (paragraphs_of text)
        ≡ ink is_blank is_white text) where
  abbrev marks : List C → List C
  marks = ink is_blank is_white

  -- The characters of the chunks before the second loop, white space aside.
  abbrev pub marks_of : List (Headed C) → List C
  marks_of [] = []
  marks_of (c ∷ cs) = marks c.content ++ marks_of cs

  abbrev Fits : ℕ → ℕ → List C → Option (List (DocumentChunk C)) → Type ℓ
  Fits = Packs is_blank is_white newline white white_newline

  Fits-resplit_one :
      (max_chunk_tokens idx : ℕ) (content : List C)
      → 0 < max_chunk_tokens
      → Fits max_chunk_tokens idx
          (marks content)
          (resplit_one is_blank is_white newline paragraphs_of max_chunk_tokens idx content)
  unfolding resplit_one
  Fits-resplit_one max_chunk_tokens idx content lt =
      elim (Bool-cases (ltb max_chunk_tokens (estimate_tokens content))) [
        | inl long ↦ rw long (
            subst
              (λ l. Fits max_chunk_tokens idx l (
                split_by_paragraphs is_blank is_white newline max_chunk_tokens idx
                  (paragraphs_of content)))
              (split_keeps content)
              (split_by_paragraphs_lem is_blank is_white newline white white_newline
                max_chunk_tokens idx (paragraphs_of content) lt))
        | inr short ↦ rw short (
            Packs-one_chunk is_blank is_white newline white white_newline max_chunk_tokens idx
              content short)
      ]

  Fits-resplit :
      (max_chunk_tokens : ℕ) (chunks : List (Headed C)) (idx : ℕ)
      → 0 < max_chunk_tokens
      → Fits max_chunk_tokens idx
          (marks_of chunks)
          (resplit is_blank is_white newline paragraphs_of max_chunk_tokens chunks idx)
  unfolding resplit
  Fits-resplit max_chunk_tokens [] idx lt = (refl, tt, tt)
  Fits-resplit max_chunk_tokens (c ∷ cs) idx lt =
      Packs-extend is_blank is_white newline white white_newline max_chunk_tokens idx
        (marks c.content) (marks_of cs) _ _ (Fits-resplit_one max_chunk_tokens idx c.content lt)
        (λ i. Fits-resplit max_chunk_tokens cs i lt)

  Fits-numbered :
      (max_chunk_tokens : ℕ) (chunks : List (Headed C)) (idx : ℕ)
      → any (λ c. ltb max_chunk_tokens (estimate_tokens c.content)) chunks ≡ false
      → Fits max_chunk_tokens idx
          (marks_of chunks)
          (some (numbered is_blank is_white newline paragraphs_of chunks idx))
  unfolding numbered one_chunk
  Fits-numbered max_chunk_tokens [] idx h = (refl, tt, tt)
  Fits-numbered max_chunk_tokens (c ∷ cs) idx h =
      let (inked, within, counted) =
        Fits-numbered max_chunk_tokens cs (suc idx) (ground (arith, h)) in
      (ap (λ l. marks c.content ++ l) inked, (ground (arith, h), within), (refl, counted))

  Fits-resplit_large :
      (max_chunk_tokens : ℕ) (chunks : List (Headed C))
      → 0 < max_chunk_tokens
      → Fits max_chunk_tokens 0
          (marks_of chunks)
          (resplit_large is_blank is_white newline paragraphs_of max_chunk_tokens chunks)
  unfolding resplit_large
  Fits-resplit_large max_chunk_tokens chunks lt =
      elim (Bool-cases (any (λ c. ltb max_chunk_tokens (estimate_tokens c.content)) chunks)) [
        | inl some_long ↦ rw some_long (Fits-resplit max_chunk_tokens chunks 0 lt)
        | inr all_short ↦ rw all_short (Fits-numbered max_chunk_tokens chunks 0 all_short)
      ]

  -- The characters of the parts between headings.
  abbrev pub bodies : List (Section C) → List C
  bodies [] = []
  bodies (heading level text ∷ sections) = bodies sections
  bodies (body text ∷ sections) = marks text ++ bodies sections

  abbrev all_marks : List (List C) → List C
  all_marks = ink_all is_blank is_white newline white white_newline

  ink-join_lines :
      (ps : List (List C)) → marks (join_lines is_blank is_white newline ps) ≡ all_marks ps
  unfolding join_lines
  ink-join_lines [] = refl
  ink-join_lines (p ∷ []) = sym (append-nil (marks p))
  ink-join_lines (p ∷ q ∷ ps) =
      ink-append is_blank is_white newline white white_newline p
        (newline ∷ join_lines is_blank is_white newline (q ∷ ps))
      ∙ ap (λ l. marks p ++ l) (rw white_newline (ink-join_lines (q ∷ ps)))

  ink-content :
      (ps : List (List C))
      → marks (strip is_blank is_white (join_lines is_blank is_white newline ps)) ≡ all_marks ps
  ink-content ps =
      ink-strip is_blank is_white (join_lines is_blank is_white newline ps) ∙ ink-join_lines ps

  marks_of-headed :
      (path : List (List C)) (content : List C) (rest : List (Headed C))
      → marks_of (headed is_blank is_white newline path content ++ rest)
        ≡ marks content ++ marks_of rest
  unfolding headed
  marks_of-headed path [] rest = refl
  marks_of-headed path (c ∷ cs) rest = refl

  content_after_lem :
      (s : Section C) (sections : List (Section C)) (current : List (List C))
      → all_marks (content_after is_blank is_white newline s current) ++ bodies sections
        ≡ all_marks current ++ bodies (s ∷ sections)
  unfolding content_after
  content_after_lem (heading level text) sections current = refl
  content_after_lem (body text) sections current =
      ink_all-append is_blank is_white newline white white_newline current text (bodies sections)

  marks_of-collect :
      (max_chunk_tokens : ℕ) (sections : List (Section C)) (path current : List (List C))
      → marks_of (collect is_blank is_white newline max_chunk_tokens sections path current)
        ≡ all_marks current ++ bodies sections
  unfolding collect
  marks_of-collect max_chunk_tokens [] path current =
      let content = strip is_blank is_white (join_lines is_blank is_white newline current) in
      ap marks_of (sym (append-nil (headed is_blank is_white newline path content)))
      ∙ marks_of-headed path content []
      ∙ ap (λ l. l ++ []) (ink-content current)
  marks_of-collect max_chunk_tokens (s ∷ sections) path current =
      let next = content_after is_blank is_white newline s current in
      let content = strip is_blank is_white (join_lines is_blank is_white newline next) in
      let path' = path_after is_blank is_white newline s path in
      elim (Bool-cases (is_large is_blank is_white newline max_chunk_tokens content)) [
        | inl large ↦ rw large (
            marks_of-headed path' content
              (collect is_blank is_white newline max_chunk_tokens sections path' [])
            ∙ ap (λ l. marks content ++ l) (marks_of-collect max_chunk_tokens sections path' [])
            ∙ ap (λ l. l ++ bodies sections) (ink-content next)
            ∙ content_after_lem s sections current)
        | inr small ↦ rw small (
            marks_of-collect max_chunk_tokens sections path' next
            ∙ content_after_lem s sections current)
      ]

  -- What the chunks have to contain: the parts between headings, or the whole text where these
  -- give no chunk.
  abbrev pub expected : List C → List (Section C) → List (Headed C) → List C
  expected text sections [] = marks text
  expected text sections (c ∷ cs) = bodies sections

  marks_of-or_text :
      (text : List C) (sections : List (Section C)) (chunks : List (Headed C))
      → marks_of chunks ≡ bodies sections
      → marks_of (or_text is_blank is_white newline text chunks) ≡ expected text sections chunks
  unfolding or_text
  marks_of-or_text text sections [] h = append-nil (marks text)
  marks_of-or_text text sections (c ∷ cs) h = h

  -- For a positive limit the chunking ends; no chunk has more tokens than the limit, the chunks
  -- are numbered from 0 on, and together they have the characters of the parts between headings in
  -- their order, white space aside (of the whole text, where the parts give no chunk). The
  -- paragraphs of a text have all its characters but white space; blanks and newlines are that.
  pub chunk_text_lem :
      (max_chunk_tokens : ℕ) (text : List C) (sections : List (Section C))
      → 0 < max_chunk_tokens
      → Packs is_blank is_white newline white white_newline max_chunk_tokens 0
          (expected text sections
            (collect is_blank is_white newline max_chunk_tokens sections [] []))
          (chunk_text is_blank is_white newline paragraphs_of max_chunk_tokens text sections)
  unfolding chunk_text
  chunk_text_lem max_chunk_tokens text sections lt =
      let chunks = collect is_blank is_white newline max_chunk_tokens sections [] [] in
      subst
        (λ l. Packs is_blank is_white newline white white_newline max_chunk_tokens 0 l (
          resplit_large is_blank is_white newline paragraphs_of max_chunk_tokens
            (or_text is_blank is_white newline text chunks)))
        (marks_of-or_text text sections chunks (marks_of-collect max_chunk_tokens sections [] []))
        (Fits-resplit_large max_chunk_tokens (or_text is_blank is_white newline text chunks) lt)
