-- ===== src/Router/Budget.antt =====
-- engine/llm_router.py `_check_budget`: the warnings about the monthly budget. Money is whole
-- micro-dollars, the warning threshold whole percent, a month its number since year 0.
pub mod Telling
pub mod Once
mod Examples
use wikimind.Prelude.{
  ℕ, suc, ◌+◌, ◌*◌, ◌<◌, String, ◌==◌, Bool, true, false, not, ◌&&◌, ◌||◌, Option, none, some, List,
  [], ◌∷◌, ◌++◌, any, eqb, leb, ltb, if◌then◌else◌, get_row, save_row, delete_row,
}

-- The two dictionaries of sent notices, by their names.
pub data Notice : Type 0 where
  warning exceeded : Notice

unfoldable pub is_notice : Notice → Notice → Bool
is_notice warning warning = true
is_notice exceeded exceeded = true
is_notice n m = false

-- An item of `_budget_warning_sent` or `_budget_exceeded_sent`.
pub record Flag : Type 0 where
  pub user_id : String
  pub month : ℕ

-- An item of `_cached_spend` with that of `_cache_expires_at`.
pub record CachedSpend : Type 0 where
  pub user_id : String
  pub spend : ℕ
  pub expires_at : ℕ

-- The key `wikimind:budget:{flag}:{user}:{year}:{month}` in Redis. It lives for 35 days, longer
-- than the month that it names.
pub record RedisKey : Type 0 where
  pub notice : Notice
  pub user_id : String
  pub month : ℕ

-- The router's dictionaries, and the Redis that all routers share.
pub record BudgetState : Type 0 where
  pub warning_sent : List Flag
  pub exceeded_sent : List Flag
  pub cached_spend : List CachedSpend
  pub redis_keys : List RedisKey

-- The budget's settings; a budget of 0 is none.
pub record Settings : Type 0 where
  pub monthly_budget : ℕ
  pub warning_pct : ℕ
  pub cache_seconds : ℕ

-- A check: the user, the clock, whether Redis answers, and the month's sum in the cost log.
pub record Check : Type 0 where
  pub user_id : String
  pub month : ℕ
  pub now : ℕ
  pub redis_answers : Bool
  pub logged_spend : ℕ

-- A notice that is emitted, with the month of its check.
pub record Event : Type 0 where
  pub notice : Notice
  pub user_id : String
  pub month : ℕ

unfoldable pub sent : Notice → BudgetState → List Flag
sent warning st = st.warning_sent
sent exceeded st = st.exceeded_sent

unfoldable pub with_sent : Notice → List Flag → BudgetState → BudgetState
with_sent warning flags st = record st { warning_sent = flags }
with_sent exceeded flags st = record st { exceeded_sent = flags }

-- `local_flags.get(user_id) == month_key`
unfoldable pub is_month : ℕ → Option Flag → Bool
is_month month none = false
is_month month (some f) = eqb f.month month

unfoldable pub is_sent : Notice → ℕ → String → BudgetState → Bool
unfolding sent is_month
is_sent notice month user_id st = is_month month (get_row Flag.user_id user_id (sent notice st))

unfoldable pub is_key : Notice → ℕ → String → RedisKey → Bool
unfolding is_notice
is_key notice month user_id k =
    is_notice k.notice notice && (k.user_id == user_id && eqb k.month month)

unfoldable pub budget_flag_is_set : Notice → Check → BudgetState → Bool
unfolding is_sent is_key
budget_flag_is_set notice c st =
    is_sent notice c.month c.user_id st
    || (c.redis_answers && any (is_key notice c.month c.user_id) st.redis_keys)

unfoldable pub set_budget_flag : Notice → Check → BudgetState → BudgetState
unfolding sent with_sent
set_budget_flag notice c st =
    let flags =
      save_row Flag.user_id (record { user_id = c.user_id; month = c.month }) (sent notice st) in
    let local = with_sent notice flags st in
    if c.redis_answers
    then record local {
      redis_keys =
          record { notice = notice; user_id = c.user_id; month = c.month } ∷ local.redis_keys;
    }
    else local

-- `if user_id in flags and flags[user_id] != month_key: del flags[user_id]`
unfoldable pub forget_old : Notice → Check → BudgetState → BudgetState
unfolding sent with_sent is_sent
forget_old notice c st =
    if is_sent notice c.month c.user_id st
    then st
    else with_sent notice (delete_row Flag.user_id c.user_id (sent notice st)) st

-- The spend that is cached and still valid.
unfoldable pub valid_spend : Check → Option CachedSpend → Option ℕ
valid_spend c none = none
valid_spend c (some row) = if ltb c.now row.expires_at then some row.spend else none

unfoldable pub read_spend : Settings → Check → BudgetState → ℕ × BudgetState
unfolding valid_spend
read_spend settings c st =
    elim (valid_spend c (get_row CachedSpend.user_id c.user_id st.cached_spend)) [
      | some spend ↦ (spend, st)
      | none ↦ (
        c.logged_spend,
        record st {
          cached_spend =
              save_row CachedSpend.user_id
                (record {
                  user_id = c.user_id;
                  spend = c.logged_spend;
                  expires_at = c.now + settings.cache_seconds;
                })
                st.cached_spend;
        },
      )
    ]

-- A notice that is due and not set is emitted, and its flag set.
unfoldable pub notify : Notice → Check → Bool → BudgetState → List Event × BudgetState
unfolding set_budget_flag
notify notice c due st =
    if due
    then (
      record { notice = notice; user_id = c.user_id; month = c.month } ∷ [],
      set_budget_flag notice c st,
    )
    else ([], st)

unfoldable pub notify_both :
    Settings → Check → Bool → Bool → ℕ × BudgetState → List Event × BudgetState
unfolding notify
notify_both settings c warned exceeded_before (spend, st) =
    if eqb settings.monthly_budget 0
    then ([], st)
    else let (first, told) =
        notify warning c
          (leb (settings.warning_pct * settings.monthly_budget) (spend * 100) && not warned) st in
      let (second, after) =
        notify exceeded c (leb settings.monthly_budget spend && not exceeded_before) told in
      (first ++ second, after)

unfoldable pub check_budget : Settings → Check → BudgetState → List Event × BudgetState
unfolding forget_old budget_flag_is_set read_spend notify_both
check_budget settings c st =
    let fresh = forget_old exceeded c (forget_old warning c st) in
    let warned = budget_flag_is_set warning c fresh in
    let exceeded_before = budget_flag_is_set exceeded c fresh in
    if warned && exceeded_before
    then ([], fresh)
    else notify_both settings c warned exceeded_before (read_spend settings c fresh)

-- Checks one after another, with all that they emit.
unfoldable pub check_all : Settings → List Check → BudgetState → List Event × BudgetState
unfolding check_budget
check_all settings [] st = ([], st)
check_all settings (c ∷ cs) st =
    let (events, between) = check_budget settings c st in
    let (later, after) = check_all settings cs between in (events ++ later, after)
