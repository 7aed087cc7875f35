-- ===== src/Prelude/Lookups.antt =====
-- A new row at the end of a table, and the queries for at most one row.
use mathlib.Core.Path.{◌≡◌, refl}
use mathlib.Core.Logic.{inl, inr}
use mathlib.Core.Bool.{Bool, true, false}
use mathlib.Core.Option.{none, some}
use mathlib.Core.List.{List, [], ◌∷◌, ◌++◌}
use native.Mathlib.Omega.{arith}
use wikimind.Prelude.Tests.{Bool-cases}
use wikimind.Prelude.Lists.{filter}
use wikimind.Prelude.Results.{ok, one_or_none}

module _ {ℓ} {A : Type ℓ} where
  pub filter-unmatched :
      (p : A → Bool) (q : A) (qs : List A) → p q ≡ false → filter p (qs ++ (q ∷ [])) ≡ filter p qs
  filter-unmatched p q [] h = rw h refl
  filter-unmatched p q (r ∷ rs) h = ground (arith, filter-unmatched p q rs)

  some_row : (x : A) (xs : List A) → one_or_none (x ∷ xs) ≡ ok none → ⊥
  some_row x [] h = ground arith
  some_row x (y ∷ xs) h = ground arith

  -- Where no row matches, a new one that does is the one that is found.
  pub one_new :
      (p : A → Bool) (xs : List A) (x : A)
      → one_or_none (filter p xs) ≡ ok none
      → p x ≡ true
      → one_or_none (filter p (xs ++ (x ∷ []))) ≡ ok (some x)
  one_new p [] x h passes = rw passes refl
  one_new p (y ∷ ys) x h passes = elim (Bool-cases (p y)) [
    | inl found ↦ absurd (some_row y (filter p ys) (rw found at h))
    | inr other ↦ rw other (one_new p ys x (rw other at h) passes)
  ]
