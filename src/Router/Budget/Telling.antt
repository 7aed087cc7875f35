-- ===== src/Router/Budget/Telling.antt =====
-- engine/llm_router.py `_check_budget`: what one check tells, and what it remembers.
use wikimind.Prelude.{
  ℕ, ◌*◌, ◌≤◌, String, ◌==◌, ◌≡◌, refl, ap, ◌∙◌, Bool, true, false, not, ◌&&◌, List, ◌++◌, eqb, leb,
  count, count-append, if◌then◌else◌, get_row-save_row, get_row-delete_row, arith, eq_iff,
  Bool-cases, inl, inr,
}
use wikimind.Router.Budget.{
  Notice, warning, exceeded, is_notice, Flag, BudgetState, Settings, Check, Event, sent, with_sent,
  is_month, is_sent, budget_flag_is_set, set_budget_flag, forget_old, read_spend, notify,
  notify_both, check_budget,
}

-- The event is that notice to that user in that month.
abbrev pub tells : Notice → ℕ → String → Event → Bool
tells notice month user_id e =
    is_notice e.notice notice && (e.user_id == user_id && eqb e.month month)

module _ (n : Notice) (m : ℕ) (u : String) where
  pub notify_count :
      (k : Notice) (c : Check) (due : Bool) (st : BudgetState)
      → count (tells n m u) (notify k c due st).0
        ≡ (if due && (is_notice k n && (c.user_id == u && eqb c.month m)) then 1 else 0)
  unfolding notify
  notify_count k c true st = ground arith
  notify_count k c false st = refl

  is_sent-set_budget_flag :
      (k : Notice) (c : Check) (st : BudgetState)
      → is_sent n m u (set_budget_flag k c st)
        ≡ (if is_notice k n && c.user_id == u then eqb c.month m else is_sent n m u st)
  unfolding set_budget_flag is_sent with_sent sent is_notice is_month
  is_sent-set_budget_flag k c st = ground (
    arith,
    get_row-save_row Flag.user_id u (record { user_id = c.user_id; month = c.month }) (sent k st),
  )

  is_sent-notify :
      (k : Notice) (c : Check) (due : Bool) (st : BudgetState)
      → is_sent n m u (notify k c due st).1
        ≡ (if due && (is_notice k n && c.user_id == u) then eqb c.month m else is_sent n m u st)
  unfolding notify
  is_sent-notify k c true st = is_sent-set_budget_flag k c st
  is_sent-notify k c false st = refl

  is_sent-forget_old :
      (k : Notice) (c : Check) (st : BudgetState)
      → is_sent n m u (forget_old k c st) ≡ (
          if is_notice k n && c.user_id == u
          then is_sent n m u st && eqb c.month m
          else is_sent n m u st)
  unfolding forget_old is_sent with_sent sent is_notice is_month
  is_sent-forget_old k c st =
      ground (arith, get_row-delete_row Flag.user_id c.user_id u (sent k st), eq_iff c.user_id u)

  is_sent-read_spend :
      (settings : Settings) (c : Check) (st : BudgetState)
      → is_sent n m u (read_spend settings c st).1 ≡ is_sent n m u st
  unfolding read_spend is_sent sent
  is_sent-read_spend settings c st = ground arith

  abbrev pub flag_for : Bool → Bool → Notice → Bool
  flag_for w x warning = w
  flag_for w x exceeded = x

  abbrev pub concerns : Check → Bool
  concerns c = c.user_id == u && eqb c.month m

  -- The check is of the same user in another month.
  abbrev pub moves : Check → Bool
  moves c = c.user_id == u && not (eqb c.month m)

  -- What a check's notices and the state after it are to those before: `told` says that the
  -- notice was sent before.
  pub record Tells (c : Check) (told : Bool) (before : BudgetState) (r : List Event × BudgetState)
      : Type 0 where
    pub at_most_one : count (tells n m u) r.0 ≤ 1
    pub only_concerned : concerns c ≡ false → count (tells n m u) r.0 ≡ 0
    pub not_again : told ≡ true → count (tells n m u) r.0 ≡ 0
    pub remembered : count (tells n m u) r.0 ≡ 1 → is_sent n m u r.1 ≡ true
    pub kept : is_sent n m u before ≡ true → moves c ≡ false → is_sent n m u r.1 ≡ true

  pub twice :
      (c : Check) (first second : Bool) (st : BudgetState)
      → count (tells n m u) (
          (notify warning c first st).0
          ++ (notify exceeded c second (notify warning c first st).1).0)
        ≡ (if flag_for first second n && concerns c then 1 else 0)
  unfolding is_notice
  twice c first second st = ground (
    arith,
    count-append (tells n m u) (notify warning c first st).0
        (notify exceeded c second (notify warning c first st).1).0,
    notify_count warning c first st,
    notify_count exceeded c second (notify warning c first st).1,
  )

  twice_sent :
      (c : Check) (first second : Bool) (st : BudgetState)
      → is_sent n m u (notify exceeded c second (notify warning c first st).1).1
        ≡ (if flag_for first second n && c.user_id == u then eqb c.month m else is_sent n m u st)
  unfolding is_notice
  twice_sent c first second st = ground (
    arith,
    is_sent-notify warning c first st,
    is_sent-notify exceeded c second (notify warning c first st).1,
  )

  pub Tells-notify_both :
      (settings : Settings) (c : Check) (w x : Bool) (spend : ℕ) (st : BudgetState)
      → Tells c (flag_for w x n) st (notify_both settings c w x (spend, st))
  unfolding notify_both
  Tells-notify_both settings c w x spend st = elim (Bool-cases (eqb settings.monthly_budget 0)) [
    | inl no_budget ↦ rw no_budget (record {
      at_most_one = omega arith;
      only_concerned = λ _. refl;
      not_again = λ _. refl;
      remembered = λ h. absurd (ground (arith, h));
      kept = λ h _. h;
    })
    | inr budget ↦
        let first = leb (settings.warning_pct * settings.monthly_budget) (spend * 100) && not w in
        let second = leb settings.monthly_budget spend && not x in
        let counted = twice c first second st in
        let sent_after = twice_sent c first second st in
        rw budget (record {
          at_most_one = ground (arith, counted);
          only_concerned = λ h. ground (arith, counted, h);
          not_again = λ h. ground (arith, counted, h);
          remembered = λ h. ground (arith, counted, sent_after, h);
          kept = λ h g. ground (arith, sent_after, h, g);
        })
  ]

  fresh_of : Check → BudgetState → BudgetState
  unfolding forget_old
  fresh_of c st = forget_old exceeded c (forget_old warning c st)

  is_sent-fresh_of :
      (c : Check) (st : BudgetState)
      → is_sent n m u (fresh_of c st)
        ≡ (if c.user_id == u then is_sent n m u st && eqb c.month m else is_sent n m u st)
  unfolding fresh_of is_notice
  is_sent-fresh_of c st = ground (
    arith,
    is_sent-forget_old warning c st,
    is_sent-forget_old exceeded c (forget_old warning c st),
  )

  -- For a check of that user in that month the flag is the one that the check reads.
  is_sent_concerned :
      (c : Check) (st : BudgetState)
      → concerns c ≡ true
      → is_sent n c.month c.user_id st ≡ is_sent n m u st
  is_sent_concerned c st h =
      let same_user : c.user_id ≡ u = (eq_iff c.user_id u).0 (ground (arith, h)) in
      let same_month : c.month ≡ m = ground (arith, h) in
      ap (λ w. is_sent n c.month w st) same_user ∙ ap (λ k. is_sent n k u st) same_month

  flag-fresh_of :
      (c : Check) (st : BudgetState)
      → is_sent n m u st ≡ true
      → concerns c ≡ true
      → flag_for
          (budget_flag_is_set warning c (fresh_of c st))
          (budget_flag_is_set exceeded c (fresh_of c st))
          n
        ≡ true
  unfolding budget_flag_is_set
  flag-fresh_of c st h g =
      ground (arith, is_sent_concerned c (fresh_of c st) g, is_sent-fresh_of c st, h, g)

  pub Tells-check_budget :
      (settings : Settings) (c : Check) (st : BudgetState)
      → Tells c (is_sent n m u st) st (check_budget settings c st)
  unfolding check_budget fresh_of
  Tells-check_budget settings c st =
      let fresh = fresh_of c st in
      let w = budget_flag_is_set warning c fresh in
      let x = budget_flag_is_set exceeded c fresh in
      let kept_fresh = is_sent-fresh_of c st in
      elim (Bool-cases (w && x)) [
        | inl both ↦ rw both (record {
          at_most_one = omega arith;
          only_concerned = λ _. refl;
          not_again = λ _. refl;
          remembered = λ h. absurd (ground (arith, h));
          kept = λ h g. ground (arith, kept_fresh, h, g);
        })
        | inr one ↦
            let (spend, read) = read_spend settings c fresh in
            let said = Tells-notify_both settings c w x spend read in
            let same_sent = is_sent-read_spend settings c fresh in
            rw one (record {
              at_most_one = said.at_most_one;
              only_concerned = said.only_concerned;
              not_again = λ h. elim (Bool-cases (concerns c)) [
                | inl about ↦ said.not_again (flag-fresh_of c st h about)
                | inr other ↦ said.only_concerned other
              ];
              remembered = said.remembered;
              kept = λ h g. said.kept (ground (arith, same_sent, kept_fresh, h, g)) g;
            })
      ]
