-- ===== src/Billing/Examples.antt =====
-- The subscription life cycle on concrete rows.
use wikimind.Prelude.{◌≡◌, refl, some, get_row, ok}
use wikimind.Billing.{default_plan, get_effective_plan, apply_entitlement}
use wikimind.Billing.Lifecycle.{LsStatus, effective_after_entitlement}
use wikimind.Billing.Samples.{free, pro, ann, start, p1-ne-empty, p0-ne-empty}

effective_after_entitlement_example :
    get_effective_plan 500 "u1" (apply_entitlement ann "cancelled" "pro" (some 400) start).1
    ≡ ok free
unfolding get_row default_plan
effective_after_entitlement_example =
    effective_after_entitlement start ann pro free refl refl refl refl p1-ne-empty p0-ne-empty
      LsStatus.cancelled (some 400) 500
