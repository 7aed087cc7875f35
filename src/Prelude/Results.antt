-- ===== src/Prelude/Results.antt =====
-- errors.py: the exceptions that the services raise, and actions that may change state and raise.
use Prim.Native.Nat.{ℕ}
use Prim.Native.String.{String}
use mathlib.Core.List.{List, [], ◌∷◌}
use text.Mathlib.Text.{◌==◌}
use mathlib.Core.Bool.{Bool, true, false}
use mathlib.Core.Option.{Option, none, some}
use wikimind.Prelude.Tests.{if◌then◌else◌}

-- `NotFoundError`, `GoneError`, `QueryError`, `UpstreamError` carry a message;
-- `QuotaExceededError` carries the resource, the use and the limit. `integrity_error` is the
-- database's refusal of a row that breaks a unique constraint, `no_result_found` and
-- `multiple_results_found` are what `.one()` raises, `invalid_token` is what the Fernet cipher raises, and
-- `http_error` is FastAPI's exception.
pub data Error : Type 0 where
  not_found : String → Error
  gone : String → Error
  query_error : String → Error
  upstream_error : String → Error
  value_error : String → Error
  quota_exceeded : String → ℕ → ℕ → Error
  integrity_error : Error
  invalid_token : Error
  no_result_found : Error
  multiple_results_found : Error
  http_error : ℕ → String → Error

pub data Result {ℓ} (A : Type ℓ) : Type ℓ where
  ok : A → Result A
  err : Error → Result A

abbrev pub is_ok {ℓ} : {A : Type ℓ} → Result A → Bool
is_ok (ok _) = true
is_ok (err _) = false

-- A service method: from the database to a result and the database that it leaves.
abbrev pub Action {ℓ κ} : Type ℓ → Type κ → Type (ℓ ⊔ κ)
Action S A = S → Result A × S

module _ {ℓ κ} {S : Type ℓ} {A : Type κ} where
  abbrev pub pure : A → Action S A
  pure a s = (ok a, s)

  abbrev pub raise : Error → Action S A
  raise e s = (err e, s)

module _ {ℓ κ μ} {S : Type ℓ} {A : Type κ} {B : Type μ} where
  abbrev pub resume : Result A → (A → Action S B) → Action S B
  resume (ok a) f s = f a s
  resume (err e) f s = (err e, s)

  infixl 10 ◌>>=◌ ◌>>◌
  abbrev pub ◌>>=◌ : Action S A → (A → Action S B) → Action S B
  ◌>>=◌ m f s = let (r, t) = m s in resume r f t

  abbrev pub ◌>>◌ : Action S A → Action S B → Action S B
  m >> n = m >>= λ _. n

module _ {ℓ κ} {S : Type ℓ} {A : Type κ} where
  -- The value of an optional row, or the exception that the caller raises for its absence.
  abbrev pub or_raise : Option A → Error → Action S A
  or_raise none e s = (err e, s)
  or_raise (some a) e s = (ok a, s)

module _ {ℓ} {A : Type ℓ} where
  -- `result.one()`: exactly one row.
  abbrev pub one : List A → Result A
  one [] = err no_result_found
  one (x ∷ []) = ok x
  one (x ∷ y ∷ xs) = err multiple_results_found

  -- `result.one_or_none()`: at most one row.
  abbrev pub one_or_none : List A → Result (Option A)
  one_or_none [] = ok none
  one_or_none (x ∷ []) = ok (some x)
  one_or_none (x ∷ y ∷ xs) = err multiple_results_found

-- `str(d.get(key, ""))`
abbrev pub text_of : Option String → String
text_of none = ""
text_of (some t) = t

-- The value of an optional text that Python takes for true: neither `None` nor empty.
abbrev pub truthy : Option String → Option String
truthy none = none
truthy (some t) = if t == "" then none else some t

module _ {ℓ κ} {S : Type ℓ} {A : Type κ} where
  -- database.py `get_session`: the request's writes are committed if it returns, and rolled back if
  -- an exception leaves it.
  abbrev pub roll_back : S → Result A × S → Result A × S
  roll_back before (ok a, after) = (ok a, after)
  roll_back before (err e, after) = (err e, before)
