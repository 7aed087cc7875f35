-- ===== src/Router/Budget/Once.antt =====
-- engine/llm_router.py `_check_budget`: a notice is not repeated within a month.
use wikimind.Prelude.{
  ℕ, ◌<◌, ◌≤◌, String, ◌≡◌, refl, true, List, [], ◌∷◌, eqb, count, count-append, arith, Bool-cases,
  inl, inr, ◌⊎◌,
}
use wikimind.Router.Budget.{Notice, BudgetState, Settings, Check, is_sent, check_budget, check_all}
use wikimind.Router.Budget.Telling.{tells, moves, Tells-check_budget}

module _ (n : Notice) (m : ℕ) (u : String) where
  -- The months of the checks do not go back, and are not before `from`.
  abbrev pub Ordered : ℕ → List Check → Type 0
  Ordered from [] = Unit
  Ordered from (c ∷ cs) = (from ≤ c.month) × Ordered c.month cs

  -- The notice was sent and its flag holds, or its month is over.
  abbrev Silent : ℕ → BudgetState → Type 0
  Silent from st = ((is_sent n m u st ≡ true) × (m ≤ from)) ⊎ (m < from)

  Silent-check_budget :
      (settings : Settings) (from : ℕ) (c : Check) (st : BudgetState)
      → from ≤ c.month
      → Silent from st
      → (count (tells n m u) (check_budget settings c st).0 ≡ 0)
        × Silent c.month (check_budget settings c st).1
  Silent-check_budget settings from c st le (inr over) =
      ((Tells-check_budget n m u settings c st).only_concerned (ground arith), inr (omega arith))
  Silent-check_budget settings from c st le (inl (there, past)) =
      let said = Tells-check_budget n m u settings c st in
      (
        said.not_again there,
        elim (Bool-cases (moves n m u c)) [
          | inl moved ↦ inr (ground arith)
          | inr stays ↦ inl (said.kept there stays, omega arith)
        ],
      )

  Silent-check_all :
      (settings : Settings) (from : ℕ) (cs : List Check) (st : BudgetState)
      → Ordered from cs
      → Silent from st
      → count (tells n m u) (check_all settings cs st).0 ≡ 0
  unfolding check_all
  Silent-check_all settings from [] st order silent = refl
  Silent-check_all settings from (c ∷ cs) st (le, order) silent =
      let (nothing, still) = Silent-check_budget settings from c st le silent in
      ground (
        arith,
        nothing,
        count-append (tells n m u) (check_budget settings c st).0
            (check_all settings cs (check_budget settings c st).1).0,
        Silent-check_all settings c.month cs (check_budget settings c st).1 order still,
      )

  Silent-after_telling :
      (settings : Settings) (c : Check) (st : BudgetState)
      → count (tells n m u) (check_budget settings c st).0 ≡ 1
      → Silent c.month (check_budget settings c st).1
  Silent-after_telling settings c st h =
      let said = Tells-check_budget n m u settings c st in
      inl (said.remembered h, ground (arith, said.only_concerned, h))

  -- While the clock does not go back, a router sends a user at most one warning, and at most one
  -- notice that the budget is exceeded, in a month, whatever the spend, the budget and Redis do.
  pub told_once :
      (settings : Settings) (from : ℕ) (cs : List Check) (st : BudgetState)
      → Ordered from cs
      → count (tells n m u) (check_all settings cs st).0 ≤ 1
  unfolding check_all
  told_once settings from [] st order = omega arith
  told_once settings from (c ∷ cs) st (le, order) =
      let (events, between) = check_budget settings c st in
      let said = Tells-check_budget n m u settings c st in
      let parts = count-append (tells n m u) events (check_all settings cs between).0 in
      elim (Bool-cases (eqb (count (tells n m u) events) 1)) [
        | inl told ↦ ground (
          arith,
          parts,
          told,
          Silent-check_all settings c.month cs between order
              (Silent-after_telling settings c st (ground (arith, told))),
        )
        | inr quiet ↦
            ground
              (arith, parts, quiet, said.at_most_one, told_once settings c.month cs between order)
      ]
