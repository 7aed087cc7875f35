-- ===== src/Prelude/Pigeonhole.antt =====
-- Distinct identifiers that all stand in a list are no more than the list is long.
use Prim.Native.Nat.{suc, ◌≤◌}
use Prim.Native.String.{String}
use mathlib.Core.Path.{◌≡◌}
use mathlib.Core.Bool.{true, false}
use mathlib.Core.List.{List, [], ◌∷◌}
use native.Mathlib.Omega.{arith}
use text.Mathlib.Text.{◌==◌}
use wikimind.Prelude.Tests.{if◌then◌else◌, eq→path, eq_sym}
use wikimind.Prelude.Lists.{length, All, contains, IsNodup}

-- The list without the first occurrence of an identifier.
remove : String → List String → List String
remove c [] = []
remove c (x ∷ xs) = let rest = remove c xs in if c == x then xs else x ∷ rest

length-remove :
    (c : String) (xs : List String) → contains xs c ≡ true → suc (length (remove c xs)) ≡ length xs
unfolding remove
length-remove c [] h = absurd (ground arith)
length-remove c (x ∷ xs) h = ground (arith, length-remove c xs)

contains-remove :
    (c d : String) (xs : List String)
    → (c == d) ≡ false
    → contains xs d ≡ true
    → contains (remove c xs) d ≡ true
unfolding remove
contains-remove c d [] other h = h
contains-remove c d (x ∷ xs) other h =
    ground (arith, contains-remove c d xs, eq→path c x, eq→path d x, eq_sym c d)

All-remove :
    (c : String) (cs xs : List String)
    → contains cs c ≡ false
    → All (λ d. contains xs d ≡ true) cs
    → All (λ d. contains (remove c xs) d ≡ true) cs
All-remove c [] xs fresh h = tt
All-remove c (d ∷ cs) xs fresh h =
    (contains-remove c d xs (ground arith) h.0, All-remove c cs xs (ground arith) h.1)

pub pigeonhole :
    (cs xs : List String) → IsNodup cs → All (λ c. contains xs c ≡ true) cs → length cs ≤ length xs
pigeonhole [] xs distinct h = omega arith
pigeonhole (c ∷ cs) xs distinct h = omega (
  arith,
  length-remove c xs h.0,
  pigeonhole cs (remove c xs) distinct.1 (All-remove c cs xs distinct.0 h.1),
)
