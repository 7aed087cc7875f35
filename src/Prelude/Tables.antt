-- ===== src/Prelude/Tables.antt =====
-- A database table as the list of its rows: read by key, save, delete. `key` names the row's
-- primary key. `session.add` of a row that is there replaces it, and of a new row appends it.
use Prim.Native.Nat.{suc}
use Prim.Native.String.{String}
use mathlib.Core.Path.{◌≡◌, refl, subst, ap}
use mathlib.Core.List.{List, [], ◌∷◌, ◌++◌, map}
use mathlib.Core.Bool.{Bool, true, false, not}
use mathlib.Core.Logic.{inl, inr}
use mathlib.Core.Option
use mathlib.Core.Option.{Option, none, some}
use native.Mathlib.Omega.{arith}
use text.Mathlib.Text.{◌==◌}
use text.Mathlib.TextEquality.{eq_iff}
use wikimind.Prelude.Tests.{if◌then◌else◌, is_some, Bool-cases}
use wikimind.Prelude.Lists.{length, All, filter, any, IsDistinct}

module _ {ℓ} {R : Type ℓ} (key : R → String) where
  -- `session.get(Model, k)`
  unfoldable pub get_row : String → List R → Option R
  get_row k [] = none
  get_row k (r ∷ t) = if key r == k then some r else get_row k t

  -- `session.add(row)`
  unfoldable pub save_row : R → List R → List R
  save_row r [] = r ∷ []
  save_row r (q ∷ t) = if key q == key r then r ∷ t else q ∷ save_row r t

  -- `session.delete(row)`
  unfoldable pub delete_row : String → List R → List R
  delete_row k [] = []
  delete_row k (r ∷ t) = let rest = delete_row k t in if key r == k then rest else r ∷ rest

  pub delete_row-filter :
      (k : String) (t : List R) → delete_row k t ≡ filter (λ r. not (key r == k)) t
  unfolding delete_row
  delete_row-filter k [] = refl
  delete_row-filter k (r ∷ t) = ground (arith, delete_row-filter k t)

  pub get_row-save_row :
      (k : String) (r : R) (t : List R)
      → get_row k (save_row r t) ≡ (if key r == k then some r else get_row k t)
  unfolding get_row save_row
  get_row-save_row k r [] = refl
  get_row-save_row k r (q ∷ t) =
      ground
        (arith, get_row-save_row k r t, eq_iff (key q) (key r), eq_iff (key q) k, eq_iff (key r) k)

  pub get_row-delete_row :
      (k j : String) (t : List R)
      → get_row j (delete_row k t) ≡ (if k == j then none else get_row j t)
  unfolding get_row delete_row
  get_row-delete_row k j [] = ground arith
  get_row-delete_row k j (r ∷ t) =
      ground (arith, get_row-delete_row k j t, eq_iff (key r) k, eq_iff (key r) j, eq_iff k j)

  pub key-get_row : (k : String) (t : List R) (r : R) → get_row k t ≡ some r → key r ≡ k
  unfolding get_row
  key-get_row k [] r h = ground arith
  key-get_row k (q ∷ t) r h = ground (arith, key-get_row k t r, eq_iff (key q) k)

  -- Saving a row that is there keeps the keys, and with them the number of rows.
  pub length-save_row :
      (r : R) (t : List R)
      → length (save_row r t) ≡ (if is_some (get_row (key r) t) then length t else suc (length t))
  unfolding get_row save_row
  length-save_row r [] = refl
  length-save_row r (q ∷ t) = ground (arith, length-save_row r t)

  pub get_row-save_row_self :
      (k : String) (r : R) (t : List R) → key r ≡ k → get_row k (save_row r t) ≡ some r
  get_row-save_row_self k r t h = rw get_row-save_row (rw ((eq_iff (key r) k).1 h))

  -- An attribute change of a loaded row, written back in place.
  unfoldable pub update_row : String → (R → R) → List R → List R
  update_row k f [] = []
  update_row k f (r ∷ t) = if key r == k then f r ∷ t else r ∷ update_row k f t

  pub get_row-update_row :
      (k j : String) (f : R → R) (t : List R)
      → ((r : R) → key (f r) ≡ key r)
      → get_row j (update_row k f t) ≡ (if k == j then Option.map f (get_row j t) else get_row j t)
  unfolding get_row update_row
  get_row-update_row k j f [] h = ground arith
  get_row-update_row k j f (r ∷ t) h =
      ground
        (arith, h r, get_row-update_row k j f t h, eq_iff (key r) k, eq_iff (key r) j, eq_iff k j)

  pub length-update_row :
      (k : String) (f : R → R) (t : List R) → length (update_row k f t) ≡ length t
  unfolding update_row
  length-update_row k f [] = refl
  length-update_row k f (r ∷ t) = ground (arith, length-update_row k f t)

  pub get_row-append :
      (k : String) (t : List R) (r : R)
      → get_row k (t ++ (r ∷ []))
        ≡ (if is_some (get_row k t) then get_row k t else if key r == k then some r else none)
  unfolding get_row
  get_row-append k [] r = ground arith
  get_row-append k (q ∷ t) r = ground (arith, get_row-append k t r)

  pub get_row-map :
      (f : R → R) (k : String) (t : List R)
      → ((r : R) → key (f r) ≡ key r)
      → get_row k (map f t) ≡ Option.map f (get_row k t)
  unfolding get_row
  get_row-map f k [] h = refl
  get_row-map f k (r ∷ t) h = ground (arith, h r, get_row-map f k t h)

module _ {ℓ κ} {R : Type ℓ} (key : R → String) (P : R → Type κ) where
  found_or_later :
      (b : Bool) (q r : R) (later : Option R)
      → P q
      → (later ≡ some r → P r)
      → (if b then some q else later) ≡ some r
      → P r
  found_or_later true q r later h f e = subst P (ap (λ o. elim o [ none ↦ q | some x ↦ x ]) e) h
  found_or_later false q r later h f e = f e

  -- A row that is found has what every row has.
  pub All-get_row : (k : String) (t : List R) (r : R) → All P t → get_row key k t ≡ some r → P r
  unfolding get_row
  All-get_row k [] r h e = absurd (ground arith)
  All-get_row k (q ∷ t) r h e =
      found_or_later (key q == k) q r (get_row key k t) h.0 (All-get_row k t r h.1) e

  pub All-save_row : (r : R) (t : List R) → P r → All P t → All P (save_row key r t)
  unfolding save_row
  All-save_row r [] h hs = (h, tt)
  All-save_row r (q ∷ t) h hs = elim (Bool-cases (key q == key r)) [
    | inl same ↦ rw same (h, hs.1)
    | inr other ↦ rw other (hs.0, All-save_row r t h hs.1)
  ]

  -- An update of a row keeps what holds of every row, if it keeps it for the row that is found.
  pub All-update_row :
      (k : String) (f : R → R) (t : List R)
      → ((r : R) → get_row key k t ≡ some r → P r → P (f r))
      → All P t
      → All P (update_row key k f t)
  unfolding get_row update_row
  All-update_row k f [] keeps h = tt
  All-update_row k f (q ∷ t) keeps h = elim (Bool-cases (key q == k)) [
    | inl same ↦ rw same (keeps q (ground arith) h.0, h.1)
    | inr other ↦ rw other (h.0, All-update_row k f t (λ r found. keeps r (ground arith)) h.1)
  ]

-- An update that makes a row clash with no other keeps the rows distinct.
module _ {ℓ} {R : Type ℓ} (key : R → String) (clash : R → R → Bool) (f : R → R) where
  any-update_row :
      (k : String) (a : R) (t : List R)
      → ((b : R) → clash a (f b) ≡ false)
      → any (clash a) t ≡ false
      → any (clash a) (update_row key k f t) ≡ false
  unfolding update_row
  any-update_row k a [] free h = refl
  any-update_row k a (q ∷ t) free h = ground (arith, free q, any-update_row k a t free)

  any_free : (a : R) (t : List R) → ((b : R) → clash a b ≡ false) → any (clash a) t ≡ false
  any_free a [] free = refl
  any_free a (q ∷ t) free = rw (free q) (any_free a t free)

  pub IsDistinct-update_row :
      (k : String) (t : List R)
      → ((a b : R) → clash a (f b) ≡ false)
      → ((a b : R) → clash (f a) b ≡ false)
      → IsDistinct clash t
      → IsDistinct clash (update_row key k f t)
  unfolding update_row
  IsDistinct-update_row k [] right left h = tt
  IsDistinct-update_row k (q ∷ t) right left h = elim (Bool-cases (key q == k)) [
    | inl same ↦ rw same (any_free (f q) t (left q), h.1)
    | inr other ↦
        rw other (any-update_row k q t (right q) h.0, IsDistinct-update_row k t right left h.1)
  ]
