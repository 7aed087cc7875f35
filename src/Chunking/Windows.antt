-- ===== src/Chunking/Windows.antt =====
-- ingest/utils.py `_split_by_token_window`: the windows, their ends, and their text.
use wikimind.Prelude.{
  ℕ, zero, suc, ◌≤◌, ◌<◌, ◌≡◌, refl, ap, ◌∙◌, Bool, true, not, some, List, [], ◌∷◌, ◌++◌, length,
  ltb, filter, if◌then◌else◌, arith, Bool-cases, Option-cases, inl, inr,
}
use wikimind.Chunking.{
  take, drop, drop_while, trim_last, rstrip, strip, later_or, last_blank, split_at, window_end,
}

module _ {ℓ} {C : Type ℓ} where
  pub length-take : (n : ℕ) (cs : List C) → length (take n cs) ≤ n
  unfolding take
  length-take zero cs = omega arith
  length-take (suc n) [] = omega arith
  length-take (suc n) (c ∷ cs) = omega (arith, length-take n cs)

  pub length-drop : (n : ℕ) (cs : List C) → length (drop n cs) ≤ length cs
  unfolding drop
  length-drop zero cs = omega arith
  length-drop (suc n) [] = omega arith
  length-drop (suc n) (c ∷ cs) = omega (arith, length-drop n cs)

  pub length-drop_while : (p : C → Bool) (cs : List C) → length (drop_while p cs) ≤ length cs
  unfolding drop_while
  length-drop_while p [] = omega arith
  length-drop_while p (c ∷ cs) = ground (arith, length-drop_while p cs)

  length-trim_last :
      (p : C → Bool) (c : C) (cs : List C) → length (trim_last p c cs) ≤ suc (length cs)
  unfolding trim_last
  length-trim_last p c [] = ground arith
  length-trim_last p c (d ∷ ds) = omega arith

  length-rstrip : (p : C → Bool) (cs : List C) → length (rstrip p cs) ≤ length cs
  unfolding rstrip
  length-rstrip p [] = omega arith
  length-rstrip p (c ∷ cs) = omega (arith, length-rstrip p cs, length-trim_last p c (rstrip p cs))

module _ {ℓ} {C : Type ℓ} (is_blank is_white : C → Bool) where
  -- The text without its white space.
  abbrev pub ink : List C → List C
  ink = filter (λ c. not (is_white c))

  pub ink-drop_while :
      (p : C → Bool)
      → ((c : C) → p c ≡ true → is_white c ≡ true)
      → (cs : List C) → ink (drop_while p cs) ≡ ink cs
  unfolding drop_while
  ink-drop_while p white [] = refl
  ink-drop_while p white (c ∷ cs) = elim (Bool-cases (p c)) [
    | inl dropped ↦ rw (dropped, white c dropped) (ink-drop_while p white cs)
    | inr kept ↦ rw kept refl
  ]

  ink-trim_last : (c : C) (cs : List C) → ink (trim_last is_white c cs) ≡ ink (c ∷ cs)
  unfolding trim_last
  ink-trim_last c [] = elim (Bool-cases (is_white c)) [
    | inl white ↦ rw white refl
    | inr black ↦ rw black (rw black refl)
  ]
  ink-trim_last c (d ∷ ds) = refl

  ink-rstrip : (cs : List C) → ink (rstrip is_white cs) ≡ ink cs
  unfolding rstrip
  ink-rstrip [] = refl
  ink-rstrip (c ∷ cs) =
      ink-trim_last c (rstrip is_white cs)
      ∙ ap (λ rest. if not (is_white c) then c ∷ rest else rest) (ink-rstrip cs)

  pub ink-strip : (cs : List C) → ink (strip is_blank is_white cs) ≡ ink cs
  unfolding strip
  ink-strip cs = ink-rstrip (drop_while is_white cs) ∙ ink-drop_while is_white (λ c h. h) cs

  pub ink-take-drop : (n : ℕ) (cs : List C) → ink (take n cs) ++ ink (drop n cs) ≡ ink cs
  unfolding take drop
  ink-take-drop zero cs = refl
  ink-take-drop (suc n) [] = refl
  ink-take-drop (suc n) (c ∷ cs) = elim (Bool-cases (not (is_white c))) [
    | inl black ↦ rw black (ap (λ rest. c ∷ rest) (ink-take-drop n cs))
    | inr white ↦ rw white (ink-take-drop n cs)
  ]

  pub length-strip : (cs : List C) → length (strip is_blank is_white cs) ≤ length cs
  unfolding strip
  length-strip cs =
      omega (arith, length-rstrip is_white (drop_while is_white cs), length-drop_while is_white cs)

  -- A blank is found inside the window.
  last_blank_less : (cs : List C) (i : ℕ) → last_blank is_blank is_white cs ≡ some i → i < length cs
  unfolding last_blank later_or
  last_blank_less [] i = λ h. absurd (ground (arith, h))
  last_blank_less (c ∷ cs) i = elim (Option-cases (last_blank is_blank is_white cs)) [
    | inl absent ↦ rw (absent, later_or) (λ h. ground (arith, h))
    | inr (j, there) ↦ rw (there, later_or) (λ h. ground (arith, h, last_blank_less cs j there))
  ]

  split_at_bounds :
      (end : ℕ) (cs : List C)
      → 0 < end
      → length cs ≤ end
      → (0 < split_at is_blank is_white end (last_blank is_blank is_white cs))
        × (split_at is_blank is_white end (last_blank is_blank is_white cs) ≤ end)
  unfolding split_at
  split_at_bounds end cs lt le = elim (Option-cases (last_blank is_blank is_white cs)) [
    | inl absent ↦ rw (absent, split_at) (lt, omega arith)
    | inr (zero, there) ↦ rw (there, split_at) (lt, omega arith)
    | inr (suc i, there) ↦
        rw (there, split_at) (omega arith, omega (arith, last_blank_less cs (suc i) there))
  ]

  pub window_end_bounds :
      (max_chars : ℕ) (c : C) (cs : List C)
      → 0 < max_chars
      → (0 < window_end is_blank is_white max_chars (c ∷ cs))
        × (window_end is_blank is_white max_chars (c ∷ cs) ≤ max_chars)
  unfolding window_end
  window_end_bounds max_chars c cs lt = elim (Bool-cases (ltb max_chars (length (c ∷ cs)))) [
    | inl longer ↦
        rw longer
          (split_at_bounds max_chars (take max_chars (c ∷ cs)) lt (length-take max_chars (c ∷ cs)))
    | inr last ↦ rw last (omega arith, ground (arith, last))
  ]
