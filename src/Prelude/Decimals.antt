-- ===== src/Prelude/Decimals.antt =====
-- `str(n)` of a natural number, and the number that a text of digits is.
use Prim.Native.Nat.{ℕ, zero, suc, ◌+◌, ◌-◌, ◌*◌, ◌/◌, ◌%◌, ◌<◌}
use Prim.Native.Char.{code}
use Prim.Native.String.append
use Prim.Native.String.{String, [], ◌∷◌, ◌++◌}
use mathlib.Core.Path.{◌≡◌, refl, sym, subst, ◌∙◌, ap}
use mathlib.Core.Logic.{inl, inr}
use mathlib.Core.Bool.{Bool, true, ◌&&◌}
use native.Mathlib.Omega.{arith}
use wikimind.Prelude.Tests.{if◌then◌else◌, ltb, leb, Bool-cases}

-- The character at a place of a text, as a text.
char_in : String → ℕ → String
char_in [] n = []
char_in (c ∷ s) zero = c ∷ []
char_in (c ∷ s) (suc n) = char_in s n

digit : ℕ → String
unfolding char_in
digit = char_in "0123456789"

decimal_in : ℕ → ℕ → String
unfolding digit
decimal_in zero n = []
decimal_in (suc fuel) n =
    let before = decimal_in fuel (n / 10) in if ltb n 10 then digit n else before ++ digit (n % 10)

unfoldable pub decimal : ℕ → String
unfolding decimal_in
decimal n = decimal_in (suc n) n

-- Every character is one of the ten digits.
unfoldable pub are_digits : String → Bool
are_digits [] = true
are_digits (c ∷ s) = leb 48 (code c) && leb (code c) 57 && are_digits s

are_digits-append :
    (s t : String) → are_digits s ≡ true → are_digits t ≡ true → are_digits (s ++ t) ≡ true
unfolding are_digits
are_digits-append [] t hs ht = subst (λ u. are_digits u ≡ true) (sym (append.nil t)) ht
are_digits-append (c ∷ s) t hs ht =
    subst (λ u. are_digits u ≡ true) (sym (append.cons c s t))
      (ground (arith, are_digits-append s t))

are_digits-char_in : (s : String) (n : ℕ) → are_digits s ≡ true → are_digits (char_in s n) ≡ true
unfolding are_digits char_in
are_digits-char_in [] n h = refl
are_digits-char_in (c ∷ s) zero h = ground arith
are_digits-char_in (c ∷ s) (suc n) h = are_digits-char_in s n (ground arith)

are_digits-digit : (n : ℕ) → are_digits (digit n) ≡ true
unfolding digit are_digits
are_digits-digit n = are_digits-char_in "0123456789" n refl

are_digits-decimal_in : (fuel n : ℕ) → are_digits (decimal_in fuel n) ≡ true
unfolding decimal_in are_digits
are_digits-decimal_in zero n = refl
are_digits-decimal_in (suc fuel) n = elim (Bool-cases (ltb n 10)) [
  | inl small ↦ rw small (are_digits-digit n)
  | inr big ↦ rw big (
      are_digits-append (decimal_in fuel (n / 10)) (digit (n % 10))
        (are_digits-decimal_in fuel (n / 10)) (are_digits-digit (n % 10)))
]

pub are_digits-decimal : (n : ℕ) → are_digits (decimal n) ≡ true
unfolding decimal
are_digits-decimal n = are_digits-decimal_in (suc n) n

pub value : String → ℕ → ℕ
value [] acc = acc
value (c ∷ s) acc = value s (acc * 10 + (code c - 48))

value-append : (s t : String) (acc : ℕ) → value (s ++ t) acc ≡ value t (value s acc)
unfolding value
value-append [] t acc = ap (λ u. value u acc) (append.nil t)
value-append (c ∷ s) t acc =
    ap (λ u. value u acc) (append.cons c s t) ∙ value-append s t (acc * 10 + (code c - 48))

value-digit : (n acc : ℕ) → n < 10 → value (digit n) acc ≡ acc * 10 + n
unfolding value digit char_in
value-digit zero acc h = refl
value-digit (suc zero) acc h = refl
value-digit (suc (suc zero)) acc h = refl
value-digit (suc (suc (suc zero))) acc h = refl
value-digit (suc (suc (suc (suc zero)))) acc h = refl
value-digit (suc (suc (suc (suc (suc zero))))) acc h = refl
value-digit (suc (suc (suc (suc (suc (suc zero)))))) acc h = refl
value-digit (suc (suc (suc (suc (suc (suc (suc zero))))))) acc h = refl
value-digit (suc (suc (suc (suc (suc (suc (suc (suc zero)))))))) acc h = refl
value-digit (suc (suc (suc (suc (suc (suc (suc (suc (suc zero))))))))) acc h = refl
value-digit (suc (suc (suc (suc (suc (suc (suc (suc (suc (suc n)))))))))) acc h =
    absurd (omega (arith, h))

value-decimal_in : (fuel n : ℕ) → n < fuel → value (decimal_in fuel n) 0 ≡ n
unfolding decimal_in
value-decimal_in zero n h = absurd (omega (arith, h))
value-decimal_in (suc fuel) n h = elim (Bool-cases (ltb n 10)) [
  | inl small ↦ rw small (ground (arith, value-digit n 0))
  | inr big ↦ rw big (
      ground (
        arith,
        value-append (decimal_in fuel (n / 10)) (digit (n % 10)) 0,
        value-decimal_in fuel (n / 10),
        value-digit (n % 10) (n / 10),
      ))
]

pub value-decimal : (n : ℕ) → value (decimal n) 0 ≡ n
unfolding decimal
value-decimal n = value-decimal_in (suc n) n (omega arith)

pub decimal_injective : (m n : ℕ) → decimal m ≡ decimal n → m ≡ n
decimal_injective m n e = sym (value-decimal m) ∙ (ap (λ s. value s 0) e ∙ value-decimal n)
