-- ===== src/Prelude/Sorting.antt =====
-- `order_by` and `sort`: insertion sort by a Boolean test of which element comes first.
use Prim.Native.Nat.{suc}
use mathlib.Core.Path.{◌≡◌, refl}
use mathlib.Core.List.{List, [], ◌∷◌}
use mathlib.Core.Logic.{inl, inr}
use mathlib.Core.Bool.{Bool}
use native.Mathlib.Omega.{arith}
use wikimind.Prelude.Tests.{if◌then◌else◌, Bool-cases}
use wikimind.Prelude.Lists.{length, All}

module _ {ℓ} {A : Type ℓ} (before : A → A → Bool) where
  abbrev pub insert_by : A → List A → List A
  insert_by a [] = a ∷ []
  insert_by a (b ∷ bs) = let rest = insert_by a bs in if before a b then a ∷ b ∷ bs else b ∷ rest

  -- A stable sort, if the test holds of equals.
  abbrev pub sort_by : List A → List A
  sort_by [] = []
  sort_by (a ∷ rest) = insert_by a (sort_by rest)

  length-insert_by : (a : A) (bs : List A) → length (insert_by a bs) ≡ suc (length bs)
  length-insert_by a [] = refl
  length-insert_by a (b ∷ bs) = ground (arith, length-insert_by a bs)

  pub length-sort_by : (bs : List A) → length (sort_by bs) ≡ length bs
  length-sort_by [] = refl
  length-sort_by (b ∷ bs) = ground (arith, length-insert_by b (sort_by bs), length-sort_by bs)

  module _ {κ} (P : A → Type κ) where
    All-insert_by : (a : A) (bs : List A) → P a → All P bs → All P (insert_by a bs)
    All-insert_by a [] h hs = (h, tt)
    All-insert_by a (b ∷ bs) h hs = elim (Bool-cases (before a b)) [
      | inl first ↦ rw first (h, hs)
      | inr later ↦ rw later (hs.0, All-insert_by a bs h hs.1)
    ]

    pub All-sort_by : (bs : List A) → All P bs → All P (sort_by bs)
    All-sort_by [] h = tt
    All-sort_by (b ∷ bs) h = All-insert_by b (sort_by bs) h.0 (All-sort_by bs h.1)
