-- ===== src/Chunking/Paragraphs/Packing.antt =====
-- ingest/utils.py `_split_by_paragraphs`: its chunks fit and have all the text.
use wikimind.Prelude.{
  ℕ, suc, ◌+◌, ◌≤◌, ◌<◌, ◌≡◌, refl, ap, subst, ◌∙◌, sym, Bool, true, false, not, Option, none, some,
  List, [], ◌∷◌, ◌++◌, length, ltb, All, All-append, arith, Bool-cases, Option-cases, inl, inr,
  append_assoc, append-nil,
}
use wikimind.Chunking.{estimate_tokens, DocumentChunk, strip, split_by_token_window}
use wikimind.Chunking.Windows.{ink, ink-strip}
use wikimind.Chunking.Split.{IsTokenSplit, IsNumbered, ink_of, split_by_token_window_lem}
use wikimind.Chunking.Paragraphs.{
  join, one_chunk, flush, flush_last, followed_by, extend, is_full, pack, split_by_paragraphs,
}

IsNumbered-append {ℓ} :
    {C : Type ℓ} (index : ℕ) (xs ys : List (DocumentChunk C))
    → IsNumbered index xs
    → IsNumbered (index + length xs) ys
    → IsNumbered index (xs ++ ys)
IsNumbered-append index [] ys h g =
    let e : index + 0 ≡ index = omega arith in subst (λ i. IsNumbered i ys) e g
IsNumbered-append index (x ∷ xs) ys h g =
    let e : index + suc (length xs) ≡ suc index + length xs = omega arith in
    (h.0, IsNumbered-append (suc index) xs ys h.1 (subst (λ i. IsNumbered i ys) e g))

module _ {ℓ} {C : Type ℓ} (is_blank is_white : C → Bool) (newline : C)
    (white : (c : C) → is_blank c ≡ true → is_white c ≡ true)
    (white_newline : is_white newline ≡ true) where
  abbrev marks : List C → List C
  marks = ink is_blank is_white

  -- Chunks that fit, are numbered and have exactly these characters; to run out of fuel is none.
  abbrev pub Packs : ℕ → ℕ → List C → Option (List (DocumentChunk C)) → Type ℓ
  Packs max_chunk_tokens index inked none = ◌≡◌ {A = List C} inked inked × (◌≡◌ {A = ℕ} 0 1)
  Packs max_chunk_tokens index inked (some chunks) =
      (ink_of is_blank is_white chunks ≡ inked)
      × All (λ c. c.token_count ≤ max_chunk_tokens) chunks
      × IsNumbered index chunks

  pub ink-append : (xs ys : List C) → marks (xs ++ ys) ≡ marks xs ++ marks ys
  ink-append [] ys = refl
  ink-append (x ∷ xs) ys = elim (Bool-cases (not (is_white x))) [
    | inl black ↦ rw black (ap (λ l. x ∷ l) (ink-append xs ys))
    | inr blank ↦ rw blank (ink-append xs ys)
  ]

  ink_of-append :
      (xs ys : List (DocumentChunk C))
      → ink_of is_blank is_white (xs ++ ys)
        ≡ ink_of is_blank is_white xs ++ ink_of is_blank is_white ys
  ink_of-append [] ys = refl
  ink_of-append (x ∷ xs) ys =
      ap (λ l. marks x.content ++ l) (ink_of-append xs ys)
      ∙ sym (
          append_assoc (marks x.content) (ink_of is_blank is_white xs)
            (ink_of is_blank is_white ys))

  -- The paragraphs' characters, white space aside.
  abbrev pub ink_all : List (List C) → List C
  ink_all [] = []
  ink_all (p ∷ ps) = marks p ++ ink_all ps

  ink-join : (ps : List (List C)) → marks (join is_blank is_white newline ps) ≡ ink_all ps
  unfolding join
  ink-join [] = refl
  ink-join (p ∷ []) = sym (append-nil (marks p))
  ink-join (p ∷ q ∷ ps) =
      ink-append p (newline ∷ newline ∷ join is_blank is_white newline (q ∷ ps))
      ∙ ap (λ l. marks p ++ l) (rw white_newline (ink-join (q ∷ ps)))

  pub ink_all-append :
      (ps : List (List C)) (p : List C) (rest : List C)
      → ink_all (ps ++ (p ∷ [])) ++ rest ≡ ink_all ps ++ (marks p ++ rest)
  ink_all-append [] p rest = ap (λ l. l ++ rest) (append-nil (marks p))
  ink_all-append (q ∷ ps) p rest =
      append_assoc (marks q) (ink_all (ps ++ (p ∷ []))) rest
      ∙ ap (λ l. marks q ++ l) (ink_all-append ps p rest)
      ∙ sym (append_assoc (marks q) (ink_all ps) (marks p ++ rest))

  pub Packs-one_chunk :
      (max_chunk_tokens index : ℕ) (content : List C)
      → ltb max_chunk_tokens (estimate_tokens content) ≡ false
      → Packs max_chunk_tokens index
          (marks content)
          (some (one_chunk is_blank is_white newline index content))
  unfolding one_chunk
  Packs-one_chunk max_chunk_tokens index content h =
      (append-nil (marks content), (ground (arith, h), tt), (refl, tt))

  Packs-windows :
      (max_chunk_tokens index : ℕ) (content : List C)
      → 0 < max_chunk_tokens
      → Packs max_chunk_tokens index
          (marks content)
          (split_by_token_window is_blank is_white max_chunk_tokens index content)
  Packs-windows max_chunk_tokens index content lt =
      elim (Option-cases (split_by_token_window is_blank is_white max_chunk_tokens index content)) [
        | inl stuck ↦ absurd (
            ground (
              arith,
              (subst (IsTokenSplit is_blank is_white white max_chunk_tokens index content) stuck (
                  split_by_token_window_lem is_blank is_white white max_chunk_tokens index content
                    lt)).1,
            ))
        | inr (chunks, made) ↦ subst (Packs max_chunk_tokens index (marks content)) (sym made) (
            subst (IsTokenSplit is_blank is_white white max_chunk_tokens index content) made
              (split_by_token_window_lem is_blank is_white white max_chunk_tokens index content lt))
      ]

  Packs-flush :
      (max_chunk_tokens index : ℕ) (content : List C)
      → 0 < max_chunk_tokens
      → Packs max_chunk_tokens index
          (marks content)
          (flush is_blank is_white newline max_chunk_tokens index content)
  unfolding flush
  Packs-flush max_chunk_tokens index content lt =
      elim (Bool-cases (ltb max_chunk_tokens (estimate_tokens content))) [
        | inl long ↦ rw long (Packs-windows max_chunk_tokens index content lt)
        | inr short ↦ rw short (Packs-one_chunk max_chunk_tokens index content short)
      ]

  Packs-flush_last :
      (max_chunk_tokens index : ℕ) (content : List C)
      → 0 < max_chunk_tokens
      → Packs max_chunk_tokens index
          (marks content)
          (flush_last is_blank is_white newline max_chunk_tokens index content)
  unfolding flush_last
  Packs-flush_last max_chunk_tokens index [] lt = (refl, tt, tt)
  Packs-flush_last max_chunk_tokens index (c ∷ cs) lt =
      Packs-flush max_chunk_tokens index (c ∷ cs) lt

  Packs-followed_by :
      (max_chunk_tokens index : ℕ) (a b : List C) (chunks : List (DocumentChunk C))
      (later : Option (List (DocumentChunk C)))
      → Packs max_chunk_tokens index a (some chunks)
      → Packs max_chunk_tokens (index + length chunks) b later
      → Packs max_chunk_tokens index (a ++ b) (followed_by is_blank is_white newline chunks later)
  unfolding followed_by
  Packs-followed_by max_chunk_tokens index a b chunks none h g = (refl, g.1)
  Packs-followed_by max_chunk_tokens index a b chunks (some later) (inked, within, numbered)
        (inked', within', numbered') =
      (
        ink_of-append chunks later
            ∙ ap (λ l. l ++ ink_of is_blank is_white later) inked
            ∙ ap (λ l. a ++ l) inked',
        All-append (λ c. c.token_count ≤ max_chunk_tokens) chunks later within within',
        IsNumbered-append index chunks later numbered numbered',
      )

  pub Packs-extend :
      (max_chunk_tokens index : ℕ) (a b : List C) (o : Option (List (DocumentChunk C)))
      (rest : ℕ → Option (List (DocumentChunk C)))
      → Packs max_chunk_tokens index a o
      → ((i : ℕ) → Packs max_chunk_tokens i b (rest i))
      → Packs max_chunk_tokens index (a ++ b) (extend is_blank is_white newline index o rest)
  unfolding extend
  Packs-extend max_chunk_tokens index a b none rest h g = (refl, h.1)
  Packs-extend max_chunk_tokens index a b (some chunks) rest h g =
      Packs-followed_by max_chunk_tokens index a b chunks (rest (index + length chunks)) h
        (g (index + length chunks))

  Packs-pack :
      (max_chunk_tokens : ℕ) (paras parts : List (List C)) (index : ℕ)
      → 0 < max_chunk_tokens
      → Packs max_chunk_tokens index
          (ink_all parts ++ ink_all paras)
          (pack is_blank is_white newline max_chunk_tokens paras parts index)
  unfolding pack
  Packs-pack max_chunk_tokens [] parts index lt =
      subst
        (λ l. Packs max_chunk_tokens index l (
          flush_last is_blank is_white newline max_chunk_tokens index
            (strip is_blank is_white (join is_blank is_white newline parts))))
        (ink-strip is_blank is_white (join is_blank is_white newline parts)
          ∙ ink-join parts
          ∙ sym (append-nil (ink_all parts)))
        (Packs-flush_last max_chunk_tokens index _ lt)
  Packs-pack max_chunk_tokens (para ∷ paras) parts index lt =
      elim (Bool-cases (is_full is_blank is_white newline max_chunk_tokens parts para)) [
        | inl full ↦ rw full (
            Packs-extend max_chunk_tokens index (ink_all parts) (marks para ++ ink_all paras) _ _
              (subst
                (λ l. Packs max_chunk_tokens index l (
                  flush is_blank is_white newline max_chunk_tokens index
                    (strip is_blank is_white (join is_blank is_white newline parts))))
                (ink-strip is_blank is_white (join is_blank is_white newline parts)
                  ∙ ink-join parts)
                (Packs-flush max_chunk_tokens index _ lt))
              (λ i.
                subst
                  (λ l.
                    Packs max_chunk_tokens i l
                      (pack is_blank is_white newline max_chunk_tokens paras (para ∷ []) i))
                  (ap (λ l. l ++ ink_all paras) (append-nil (marks para)))
                  (Packs-pack max_chunk_tokens paras (para ∷ []) i lt)))
        | inr room ↦ rw room (
            subst
              (λ l. Packs max_chunk_tokens index l (
                pack is_blank is_white newline max_chunk_tokens paras (parts ++ (para ∷ [])) index))
              (ink_all-append parts para (ink_all paras))
              (Packs-pack max_chunk_tokens paras (parts ++ (para ∷ [])) index lt))
      ]

  -- For a positive number of tokens the split at paragraphs ends; no chunk has more tokens than
  -- that, the chunks are numbered from the start index on, and together they have the paragraphs'
  -- characters in their order, white space aside. Blanks and newlines are white space.
  pub split_by_paragraphs_lem :
      (max_chunk_tokens start_index : ℕ) (paragraphs : List (List C))
      → 0 < max_chunk_tokens
      → Packs max_chunk_tokens start_index
          (ink_all paragraphs)
          (split_by_paragraphs is_blank is_white newline max_chunk_tokens start_index paragraphs)
  unfolding split_by_paragraphs
  split_by_paragraphs_lem max_chunk_tokens start_index paragraphs lt =
      Packs-pack max_chunk_tokens paragraphs [] start_index lt
