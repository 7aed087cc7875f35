-- ===== src/Taxonomy/Climbing.antt =====
-- services/taxonomy.py: following the parents of a proposed hierarchy.
use wikimind.Prelude.{
  ℕ, zero, suc, ◌+◌, ◌≤◌, ◌<◌, String, ◌≡◌, ◌≢◌, refl, ap, ◌∙◌, sym, Option, none, some, List, [],
  ◌∷◌, arith, true, false, length, is_some, get_row, delete_row, get_row-delete_row, contains,
  IsNodup, All,
}
use wikimind.Taxonomy.{Parent, parent_of}

abbrev pub step : List Parent → Option String → Option String
step mapping none = none
step mapping (some c) = parent_of mapping c

-- So many steps up.
abbrev pub climb : ℕ → List Parent → Option String → Option String
climb zero mapping current = current
climb (suc n) mapping current = climb n mapping (step mapping current)

-- Some number of steps leads past the root.
abbrev pub Ends : List Parent → Option String → Type 0
Ends mapping current = (n : ℕ) × (climb n mapping current ≡ none)

pub climb-none : (n : ℕ) (mapping : List Parent) → climb n mapping none ≡ none
climb-none zero mapping = refl
climb-none (suc n) mapping = climb-none n mapping

pub climb-add :
    (n k : ℕ) (mapping : List Parent) (current : Option String)
    → climb (n + k) mapping current ≡ climb k mapping (climb n mapping current)
climb-add zero k mapping current =
    let e : 0 + k ≡ k = omega arith in ap (λ m. climb m mapping current) e
climb-add (suc n) k mapping current =
    let e : suc n + k ≡ suc (n + k) = omega arith in
    ap (λ m. climb m mapping current) e ∙ climb-add n k mapping (step mapping current)

pub climb-suc :
    (n : ℕ) (mapping : List Parent) (current : Option String)
    → climb (suc n) mapping current ≡ step mapping (climb n mapping current)
climb-suc zero mapping current = refl
climb-suc (suc n) mapping current = climb-suc n mapping (step mapping current)

-- Once past the root, always.
pub climb_past :
    (n k : ℕ) (mapping : List Parent) (current : Option String)
    → n ≤ k
    → climb n mapping current ≡ none
    → climb k mapping current ≡ none
climb_past zero k mapping current le h = rw h (climb-none k mapping)
climb_past (suc n) zero mapping current le h = absurd (ground arith)
climb_past (suc n) (suc k) mapping current le h =
    climb_past n k mapping (step mapping current) (ground arith) h

-- A name that is reached again from itself never ends; by recursion on a bound of the steps.
cycle_open_within :
    (bound n k : ℕ) (mapping : List Parent) (c : String)
    → n < bound
    → climb (suc k) mapping (some c) ≡ some c
    → climb n mapping (some c) ≢ none
cycle_open_within zero n k mapping c lt loop h = absurd (ground arith)
cycle_open_within (suc bound) zero k mapping c lt loop h = absurd (ground arith)
cycle_open_within (suc bound) (suc n) k mapping c lt loop h =
    cycle_open_within bound n k mapping c (ground arith) loop (
      sym (ap (climb n mapping) loop)
      ∙ sym (climb-add (suc k) n mapping (some c))
      ∙ climb_past (suc n) (suc k + n) mapping (some c) (omega arith) h)

pub cycle_open :
    (k : ℕ) (mapping : List Parent) (c : String)
    → climb (suc k) mapping (some c) ≡ some c
    → (current : Option String) (j : ℕ) → climb j mapping current ≡ some c
    → (n : ℕ) → climb n mapping current ≢ none
cycle_open k mapping c loop current j reach n h =
    cycle_open_within (suc n) n k mapping c (omega arith) loop (
      sym (ap (climb n mapping) reach)
      ∙ sym (climb-add j n mapping current)
      ∙ climb_past n (j + n) mapping current (omega arith) h)

length-delete_row :
    (k : String) (mapping : List Parent)
    → length (delete_row Parent.name k mapping) ≤ length mapping
unfolding delete_row
length-delete_row k [] = omega arith
length-delete_row k (r ∷ t) = ground (arith, length-delete_row k t)

delete_row_less :
    (k : String) (mapping : List Parent)
    → is_some (get_row Parent.name k mapping) ≡ true
    → length (delete_row Parent.name k mapping) < length mapping
unfolding delete_row get_row
delete_row_less k [] h = absurd (ground arith)
delete_row_less k (r ∷ t) h = ground (arith, delete_row_less k t, length-delete_row k t)

abbrev pub IsKey : List Parent → String → Type 0
IsKey mapping c = is_some (get_row Parent.name c mapping) ≡ true

keys-delete_row :
    (x : String) (xs : List String) (mapping : List Parent)
    → contains xs x ≡ false
    → All (IsKey mapping) xs
    → All (IsKey (delete_row Parent.name x mapping)) xs
keys-delete_row x [] mapping f h = tt
keys-delete_row x (y ∷ ys) mapping f h = (
  ground (arith, get_row-delete_row Parent.name x y mapping, h.0),
  keys-delete_row x ys mapping (ground arith) h.1,
)

-- Distinct names that all have a row are no more than the rows.
pub keys_bounded :
    (xs : List String) (mapping : List Parent)
    → IsNodup xs
    → All (IsKey mapping) xs
    → length xs ≤ length mapping
keys_bounded [] mapping d h = omega arith
keys_bounded (x ∷ xs) mapping d h = ground (
  arith,
  keys_bounded xs (delete_row Parent.name x mapping) d.1 (keys-delete_row x xs mapping d.0 h.1),
  delete_row_less x mapping h.0,
)
