-- ===== src/Taxonomy/Cycles.antt =====
-- services/taxonomy.py `_has_cycles`: it terminates, and it finds the chains that have no end.
use wikimind.Prelude.{
  ℕ, zero, suc, ◌+◌, ◌<◌, String, ◌==◌, ◌≡◌, ◌≢◌, ◌↔◌, refl, ap, ◌∙◌, sym, Bool, true, false,
  Option, none, some, List, [], ◌∷◌, length, contains, IsNodup, All, is_some, get_row, arith,
  eq_iff, Bool-cases, Option-cases, inl, inr,
}
use wikimind.Taxonomy.{Parent, parent_of, parent_in, walk, any_cycle, or_next, has_cycles}
use wikimind.Taxonomy.Climbing.{step, climb, Ends, climb-suc, cycle_open, keys_bounded, IsKey}

module _ (mapping : List Parent) where
  parent-IsKey : (c p : String) → parent_of mapping c ≡ some p → IsKey mapping c
  unfolding parent_of parent_in
  parent-IsKey c p h = elim (Option-cases (get_row Parent.name c mapping)) [
    | inl absent ↦ absurd (ground (arith, absent))
    | inr (row, there) ↦ rw there refl
  ]

  -- A verdict on a chain that starts at `current`, from which the visited names lead up to it.
  abbrev Verdict : Option String → Option Bool → Type 0
  Verdict start none = ◌≡◌ {A = ℕ} 0 1
  Verdict start (some false) = Ends mapping start
  Verdict start (some true) = (n : ℕ) → climb n mapping start ≢ none

  -- The visited name was met on the way from `start`, and leads to `current` in one step or more.
  abbrev LeadsTo : Option String → Option String → String → Type 0
  LeadsTo start current v =
      (j : ℕ) × (k : ℕ) × (climb j mapping start ≡ some v)
      × (climb (suc k) mapping (some v) ≡ current)

  -- The fuel is enough: every visited name has a row, unless the chain has ended.
  abbrev Enough : ℕ → List String → Option String → Type 0
  Enough fuel visited none = 0 < fuel
  Enough fuel visited (some c) =
      All (IsKey mapping) visited × (fuel + length visited ≡ suc (suc (length mapping)))

  extend :
      (start : Option String) (c : String) (visited : List String)
      → All (LeadsTo start (some c)) visited
      → All (LeadsTo start (parent_of mapping c)) visited
  extend start c [] h = tt
  extend start c (v ∷ vs) ((j, k, met, leads), h) = (
    (j, suc k, met, climb-suc (suc k) mapping (some v) ∙ ap (step mapping) leads),
    extend start c vs h,
  )

  met_again :
      (start : Option String) (c : String) (visited : List String)
      → All (LeadsTo start (some c)) visited
      → contains visited c ≡ true
      → Verdict start (some true)
  met_again start c [] h seen n = absurd (ground arith)
  met_again start c (v ∷ vs) ((j, k, met, leads), h) seen n = elim (Bool-cases (c == v)) [
    | inl same ↦
        let e : v ≡ c = sym ((eq_iff c v).0 same) in
        cycle_open k mapping v (leads ∙ ap some (sym e)) start j met n
    | inr other ↦ met_again start c vs h (ground arith) n
  ]

  Enough-step :
      (fuel : ℕ) (visited : List String) (c : String) (next : Option String)
      → parent_of mapping c ≡ next
      → IsNodup visited
      → Enough (suc fuel) visited (some c)
      → Enough fuel (c ∷ visited) next
  Enough-step fuel visited c none p d (keys, sum) =
      ground (arith, keys_bounded visited mapping d keys)
  Enough-step fuel visited c (some q) p d (keys, sum) = ((parent-IsKey c q p, keys), ground arith)

  walk_lem :
      (start : Option String) (fuel : ℕ) (visited : List String) (current : Option String)
      → IsNodup visited
      → Enough fuel visited current
      → All (LeadsTo start current) visited
      → ((j : ℕ) × (climb j mapping start ≡ current))
      → Verdict start (walk fuel mapping visited current)
  unfolding walk
  walk_lem start zero visited none d enough path reach = absurd (ground arith)
  walk_lem start zero visited (some c) d enough path reach =
      absurd (ground (arith, keys_bounded visited mapping d enough.0))
  walk_lem start (suc fuel) visited none d enough path reach = reach
  walk_lem start (suc fuel) visited (some c) d enough path (j, reach) =
      elim (Bool-cases (contains visited c)) [
        | inl seen ↦ rw seen (met_again start c visited path seen)
        | inr fresh ↦ rw fresh (
            walk_lem start fuel (c ∷ visited) (parent_of mapping c) (fresh, d)
              (Enough-step fuel visited c _ refl d enough)
              ((j, 0, reach, refl), extend start c visited path)
              (suc j, climb-suc j mapping start ∙ ap (step mapping) reach))
      ]

  -- One name's loop finishes: true if the chain has no end, false if it has.
  chain_lem :
      (name : String)
      → Verdict (some name) (walk (suc (suc (length mapping))) mapping [] (some name))
  chain_lem name =
      walk_lem (some name) (suc (suc (length mapping))) [] (some name) tt (tt, omega arith) tt
        (0, refl)

  -- The verdict on several chains.
  abbrev Verdicts : List Parent → Option Bool → Type 0
  Verdicts rows none = ◌≡◌ {A = ℕ} 0 1
  Verdicts rows (some false) = All (λ row. Ends mapping (some row.name)) rows
  Verdicts rows (some true) = (All (λ row. Ends mapping (some row.name)) rows) → ◌≡◌ {A = ℕ} 0 1

  Verdicts-or_next :
      (row : Parent) (rows : List Parent) (first rest : Option Bool)
      → Verdict (some row.name) first
      → Verdicts rows rest
      → Verdicts (row ∷ rows) (or_next first rest)
  unfolding or_next
  Verdicts-or_next row rows none rest h hs = absurd (ground arith)
  Verdicts-or_next row rows (some true) rest h hs = λ ((n, ends), _). absurd (h n ends)
  Verdicts-or_next row rows (some false) none h hs = hs
  Verdicts-or_next row rows (some false) (some true) h hs = λ (_, all_end). hs all_end
  Verdicts-or_next row rows (some false) (some false) h hs = (h, hs)

  any_cycle_lem :
      (rows : List Parent) → Verdicts rows (any_cycle (suc (suc (length mapping))) mapping rows)
  unfolding any_cycle
  any_cycle_lem [] = tt
  any_cycle_lem (row ∷ rows) =
      Verdicts-or_next row rows _ _ (chain_lem row.name) (any_cycle_lem rows)

  verdict_iff :
      (verdict : Option Bool)
      → Verdicts mapping verdict
      → (is_some verdict ≡ true)
        × ((verdict ≡ some false) ↔ All (λ row. Ends mapping (some row.name)) mapping)
  verdict_iff none h = absurd (ground arith)
  verdict_iff (some true) h =
      (refl, (λ e. absurd (ground arith), λ all_end. absurd (ground (arith, h all_end))))
  verdict_iff (some false) h = (refl, (λ _. h, λ _. refl))

  -- The cycle check always finishes, within two steps more than the mapping has names for each
  -- name, and it finds no cycle exactly if every name's chain of parents ends at a root.
  pub has_cycles_lem :
      (is_some (has_cycles mapping) ≡ true)
      × ((has_cycles mapping ≡ some false) ↔ All (λ row. Ends mapping (some row.name)) mapping)
  unfolding has_cycles
  has_cycles_lem =
      verdict_iff (any_cycle (suc (suc (length mapping))) mapping mapping) (any_cycle_lem mapping)
