-- ===== src/Billing.antt =====
-- services/billing.py `apply_entitlement`, `handle_variant_updated` and services/quota.py
-- `get_effective_plan`: what a subscription's state gives a user, and what the quotas read back.
pub mod Lifecycle
pub mod Webhook
pub mod Samples
mod Examples
use wikimind.Prelude.{
  ℕ, String, ◌==◌, Bool, true, false, Option, none, some, List, [], ◌∷◌, ltb, eqb, filter, find,
  contains, if◌then◌else◌, get_row, save_row, Result, ok, err, Action, ◌>>=◌, one, truthy,
}
use wikimind.Accounts.{Plan, User, Db}

-- `select(Plan).where(Plan.is_default == True)` and `.one()`
unfoldable pub default_plan : Db → Result Plan
default_plan db = one (filter (λ p. p.is_default) db.plans)

-- The plan of a user whose `plan_id` is set and whose entitlement has not run out.
unfoldable pub current_plan : ℕ → User → Db → Option Plan
current_plan now user db = elim (truthy user.plan_id) [
  | none ↦ none
  | some plan_id ↦ elim user.plan_effective_until [
    | none ↦ get_row Plan.id plan_id db.plans
    | some until ↦ if ltb now until then get_row Plan.id plan_id db.plans else none
  ]
]

unfoldable pub get_effective_plan : ℕ → String → Db → Result Plan
unfolding default_plan current_plan
get_effective_plan now user_id db = elim (get_row User.id user_id db.users) [
  | none ↦ default_plan db
  | some user ↦ elim (current_plan now user db) [ none ↦ default_plan db | some plan ↦ ok plan ]
]

-- The user row that a subscription status leaves; an unknown status changes nothing.
unfoldable pub entitle : String → Option ℕ → Plan → Plan → User → User
entitle ls_status period_end plan default user =
    if contains ("active" ∷ "on_trial" ∷ "past_due" ∷ []) ls_status
    then record user { plan_id = some plan.id; plan_effective_until = none }
    else if contains ("cancelled" ∷ "paused" ∷ []) ls_status
    then record user { plan_id = some plan.id; plan_effective_until = period_end }
    else if contains ("expired" ∷ "unpaid" ∷ []) ls_status
    then record user { plan_id = some default.id; plan_effective_until = none }
    else user

-- An unknown plan name returns before the default plan is read.
unfoldable pub apply_entitlement : User → String → String → Option ℕ → Action Db (Unit {0})
unfolding default_plan entitle
apply_entitlement user ls_status plan_name period_end db =
    elim (get_row Plan.name plan_name db.plans) [
      | none ↦ (ok tt, db)
      | some plan ↦ elim (default_plan db) [
        | err e ↦ (err e, db)
        | ok default ↦ (
          ok tt,
          record db {
            users = save_row User.id (entitle ls_status period_end plan default user) db.users;
          },
        )
      ]
    ]
