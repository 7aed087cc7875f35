-- ===== src/Billing/Lifecycle.antt =====
-- The subscription life cycle end to end: what `apply_entitlement` writes is what
-- `get_effective_plan` reads.
use wikimind.Prelude.{
  ℕ, String, ◌≡◌, ◌≢◌, Option, none, some, ltb, if◌then◌else◌, get_row, save_row,
  get_row-save_row_self, ok, arith, eq_iff,
}
use wikimind.Accounts.{Plan, User, Db}
use wikimind.Billing.{default_plan, get_effective_plan, entitle, apply_entitlement}

-- The subscription states that Lemon Squeezy documents.
pub data LsStatus : Type 0 where
  active on_trial past_due cancelled paused expired unpaid : LsStatus

abbrev pub status_text : LsStatus → String
status_text active = "active"
status_text on_trial = "on_trial"
status_text past_due = "past_due"
status_text cancelled = "cancelled"
status_text paused = "paused"
status_text expired = "expired"
status_text unpaid = "unpaid"

-- The plan that a subscriber is promised at a time: the paid one while the subscription runs, until
-- the period's end (if one is known) once it is cancelled or paused, the default one after that.
abbrev pub promised : LsStatus → Option ℕ → ℕ → Plan → Plan → Plan
promised expired period_end now plan default = default
promised unpaid period_end now plan default = default
promised cancelled none now plan default = plan
promised cancelled (some until) now plan default = if ltb now until then plan else default
promised paused none now plan default = plan
promised paused (some until) now plan default = if ltb now until then plan else default
promised _ period_end now plan default = plan

module _ (db : Db) (user : User) (plan default : Plan)
    (named : get_row Plan.name plan.name db.plans ≡ some plan)
    (stored : get_row Plan.id plan.id db.plans ≡ some plan) (chosen : default_plan db ≡ ok default)
    (default_stored : get_row Plan.id default.id db.plans ≡ some default) (plan_key : plan.id ≢ "")
    (default_key : default.id ≢ "") where
  -- The database after the call, whatever the status.
  after_entitlement :
      (status : String) (period_end : Option ℕ)
      → (apply_entitlement user status plan.name period_end db).1 ≡ record db {
        users = save_row User.id (entitle status period_end plan default user) db.users;
      }
  unfolding apply_entitlement
  after_entitlement status period_end = ground (arith, named, chosen)

  row_after :
      (status : String) (period_end : Option ℕ)
      → get_row User.id user.id
          (save_row User.id (entitle status period_end plan default user) db.users)
        ≡ some (entitle status period_end plan default user)
  row_after status period_end =
      get_row-save_row_self User.id user.id (entitle status period_end plan default user) db.users
        (unfold entitle in ground arith)

  -- After a status change the quotas see exactly the promised plan, at every later time.
  pub effective_after_entitlement :
      (status : LsStatus) (period_end : Option ℕ) (now : ℕ)
      → get_effective_plan now user.id
          (apply_entitlement user (status_text status) plan.name period_end db).1
        ≡ ok (promised status period_end now plan default)
  unfolding get_effective_plan entitle
  effective_after_entitlement active period_end now =
      rw after_entitlement
        (ground (arith, row_after "active" period_end, stored, eq_iff plan.id ""))
  effective_after_entitlement on_trial period_end now =
      rw after_entitlement
        (ground (arith, row_after "on_trial" period_end, stored, eq_iff plan.id ""))
  effective_after_entitlement past_due period_end now =
      rw after_entitlement
        (ground (arith, row_after "past_due" period_end, stored, eq_iff plan.id ""))
  effective_after_entitlement cancelled none now =
      rw after_entitlement (ground (arith, row_after "cancelled" none, stored, eq_iff plan.id ""))
  effective_after_entitlement cancelled (some until) now =
      rw after_entitlement
        (ground (arith, row_after "cancelled" (some until), stored, chosen, eq_iff plan.id ""))
  effective_after_entitlement paused none now =
      rw after_entitlement (ground (arith, row_after "paused" none, stored, eq_iff plan.id ""))
  effective_after_entitlement paused (some until) now =
      rw after_entitlement
        (ground (arith, row_after "paused" (some until), stored, chosen, eq_iff plan.id ""))
  effective_after_entitlement expired period_end now =
      rw after_entitlement
        (ground (arith, row_after "expired" period_end, default_stored, eq_iff default.id ""))
  effective_after_entitlement unpaid period_end now =
      rw after_entitlement
        (ground (arith, row_after "unpaid" period_end, default_stored, eq_iff default.id ""))
