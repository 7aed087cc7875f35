-- ===== src/Router/Budget/Examples.antt =====
-- engine/llm_router.py `_check_budget`: a user who passes both thresholds.
use wikimind.Prelude.{
  ℕ, ◌≤◌, ◌≡◌, true, [], ◌∷◌, count, arith, get_row, save_row, delete_row, eq_refl,
}
use wikimind.Router.Budget.{
  warning, BudgetState, Settings, Check, check_budget, check_all, budget_flag_is_set, is_sent,
  is_month, sent, forget_old, with_sent, read_spend, valid_spend, notify_both, notify,
  set_budget_flag, is_key, is_notice,
}
use wikimind.Router.Budget.Telling.{tells}
use wikimind.Router.Budget.Once.{told_once}

abbrev settings : Settings
settings = record { monthly_budget = 50; warning_pct = 80; cache_seconds = 60 }

abbrev check : ℕ → ℕ → Check
check now spend = record {
  user_id = "u1";
  month = 24300;
  now = now;
  redis_answers = true;
  logged_spend = spend;
}

abbrev nothing_sent : BudgetState
nothing_sent = record { warning_sent = []; exceeded_sent = []; cached_spend = []; redis_keys = [] }

told_once_example :
    count
      (tells warning 24300 "u1")
      (check_all settings (check 1 45 ∷ check 100 70 ∷ check 200 80 ∷ []) nothing_sent).0
    ≤ 1
told_once_example =
    told_once warning 24300 "u1" settings 0 (check 1 45 ∷ check 100 70 ∷ check 200 80 ∷ [])
      nothing_sent (ground arith)

-- The first check of all is told, so that the other router's is not.
first_told :
    count (tells warning 24300 "u1") (check_budget settings (check 1 45) nothing_sent).0 ≡ 1
unfolding check_budget forget_old budget_flag_is_set is_sent is_month sent with_sent read_spend
    valid_spend notify_both notify set_budget_flag is_key is_notice get_row save_row delete_row
first_told = ground (arith, eq_refl "u1")
