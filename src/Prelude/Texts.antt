-- ===== src/Prelude/Texts.antt =====
-- The order of texts, and `sorted` of two of them.

use Prim.Native.Nat.{ℕ, zero, suc, Ordering, compare as compare_ℕ}
use Prim.Native.Char.{code}
use Prim.Native.String.compare
use Prim.Native.String.{String, [], ◌∷◌, compare, then, ◌++◌}
use mathlib.Core.Path.{◌≡◌, refl, sym, ◌∙◌, ap}
use native.Mathlib.Omega.{arith}
use text.Mathlib.TextEquality.{path_by_compare}

-- Texts one after the other, as in an f-string.
infixr 65 ◌+++◌
abbrev pub ◌+++◌ : String → String → String
s +++ t = s ++ t

-- `s[:n]`
unfoldable pub prefix : ℕ → String → String
prefix zero s = []
prefix (suc n) [] = []
prefix (suc n) (c ∷ s) = c ∷ prefix n s

flip : Ordering → Ordering
flip Ordering.lt = Ordering.gt
flip Ordering.eq = Ordering.eq
flip Ordering.gt = Ordering.lt

flip-compare_ℕ : (m n : ℕ) → compare_ℕ n m ≡ flip (compare_ℕ m n)
unfolding flip
flip-compare_ℕ m n = ground arith

flip-then : (o r : Ordering) → then (flip o) (flip r) ≡ flip (then o r)
unfolding flip
flip-then Ordering.lt r = refl
flip-then Ordering.eq r = refl
flip-then Ordering.gt r = refl

flip-compare : (s t : String) → compare t s ≡ flip (compare s t)
unfolding flip
flip-compare [] [] = rw (compare.nil-nil) refl
flip-compare [] (d ∷ t) = rw (compare.nil-cons d t, compare.cons-nil d t) refl
flip-compare (c ∷ s) [] = rw (compare.nil-cons c s, compare.cons-nil c s) refl
flip-compare (c ∷ s) (d ∷ t) =
    compare.cons-cons d c t s
    ∙ (rw (flip-compare_ℕ (code c) (code d), flip-compare s t)
          (flip-then (compare_ℕ (code c) (code d)) (compare s t))
        ∙ ap flip (sym (compare.cons-cons c d s t)))

-- `sorted([a, b])`
unfoldable pub sorted_pair : String → String → String × String
sorted_pair a b = elim (compare b a) [ Ordering.lt ↦ (b, a) | _ ↦ (a, b) ]

pub sorted_pair_comm : (a b : String) → sorted_pair a b ≡ sorted_pair b a
unfolding sorted_pair flip
sorted_pair_comm a b = ground (arith, flip-compare a b, path_by_compare a b)
