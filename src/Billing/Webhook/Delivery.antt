-- ===== src/Billing/Webhook/Delivery.antt =====
-- api/routes/billing.py, the webhook as Lemon Squeezy sees it: a repeated delivery.
use wikimind.Prelude.{
  ℕ, String, ◌≡◌, refl, ◌∙◌, Bool, true, false, Option, none, some, List, [], ◌∷◌, is_some,
  if◌then◌else◌, get_row, get_row-save_row_self, Result, ok, err, Action, ◌>>=◌, pure, resume,
  text_of, truthy, arith, Option-cases, inl, inr,
}
use wikimind.Accounts.{Plan, User, Subscription, WebhookEvent, Db}
use wikimind.Billing.{apply_entitlement}
use wikimind.Billing.Webhook.{
  Payload, Variant, Wire, Reply, duplicate, plan_of_variant, set_price, handle_variant_updated,
  refresh_variant, refresh_variants, handle_product_updated, refresh_listed, refresh_product,
  resolve_user, handle_subscription_active, handle_subscription_cancelled,
  handle_subscription_expired, save_subscription, mark_cancelled, cancel_until, mark_expired,
  dispatch_event, save_user, process_user_event, process_webhook_event, add_event, settle,
  handle_event, handle_webhook, find_subscription,
}

-- The action leaves the table of processed events alone, whether it returns or raises.
record KeepsEvents {ℓ} {A : Type ℓ} (m : Action Db A) : Type ℓ where
  at : (db : Db) → (m db).1.webhook_events ≡ db.webhook_events

module _ {A B : Type 0} where
  KeepsEvents-resume :
      (r : Result A) (f : A → Action Db B)
      → ((a : A) → KeepsEvents (f a))
      → KeepsEvents (resume r f)
  KeepsEvents-resume (ok a) f h = h a
  KeepsEvents-resume (err e) f h = record { at = λ db. refl }

  KeepsEvents-bind :
      (m : Action Db A) (f : A → Action Db B)
      → KeepsEvents m
      → ((a : A) → KeepsEvents (f a))
      → KeepsEvents (m >>= f)
  KeepsEvents-bind m f hm hf = record {
    at = λ db. (KeepsEvents-resume (m db).0 f hf).at (m db).1 ∙ hm.at db;
  }

module _ {A : Type 0} where
  KeepsEvents-pure : (a : A) → KeepsEvents (pure a)
  KeepsEvents-pure a = record { at = λ db. refl }

  KeepsEvents-if :
      (b : Bool) (m n : Action Db A)
      → KeepsEvents m
      → KeepsEvents n
      → KeepsEvents (if b then m else n)
  KeepsEvents-if true m n hm hn = hm
  KeepsEvents-if false m n hm hn = hn

set_price-KeepsEvents :
    (now price : ℕ) (plan : Option Plan) → KeepsEvents (set_price now price plan)
unfolding set_price
set_price-KeepsEvents now price none = record { at = λ db. refl }
set_price-KeepsEvents now price (some plan) = record { at = λ db. ground arith }

plan_of_variant-KeepsEvents : (v : String) → KeepsEvents (plan_of_variant v)
unfolding plan_of_variant
plan_of_variant-KeepsEvents v = record { at = λ db. refl }

apply_entitlement-KeepsEvents :
    (user : User) (status name : String) (end : Option ℕ)
    → KeepsEvents (apply_entitlement user status name end)
unfolding apply_entitlement
apply_entitlement-KeepsEvents user status name end = record { at = λ db. ground arith }

mark_cancelled_events :
    (sub : Option Subscription) (db : Db)
    → (mark_cancelled sub db).webhook_events ≡ db.webhook_events
unfolding mark_cancelled
mark_cancelled_events none db = refl
mark_cancelled_events (some sub) db = refl

mark_expired_events :
    (sub : Option Subscription) (db : Db) → (mark_expired sub db).webhook_events ≡ db.webhook_events
unfolding mark_expired
mark_expired_events none db = refl
mark_expired_events (some sub) db = refl

handle_subscription_active-KeepsEvents :
    (now : ℕ) (user : User) (payload : Payload) (plan : Option Plan) (name : String)
    → KeepsEvents (handle_subscription_active now user payload plan name)
unfolding handle_subscription_active save_subscription
handle_subscription_active-KeepsEvents now user payload plan name = record {
  at = λ db. (apply_entitlement-KeepsEvents user (text_of payload.status) name none).at _;
}

cancel_until-KeepsEvents :
    (user : User) (name : String) (period_end : Result (Option ℕ))
    → KeepsEvents (cancel_until user name period_end)
unfolding cancel_until
cancel_until-KeepsEvents user name (err e) = record { at = λ db. refl }
cancel_until-KeepsEvents user name (ok period_end) =
    apply_entitlement-KeepsEvents user "cancelled" name period_end

handle_subscription_cancelled-KeepsEvents :
    (user : User) (payload : Payload) (name : String)
    → KeepsEvents (handle_subscription_cancelled user payload name)
unfolding handle_subscription_cancelled
handle_subscription_cancelled-KeepsEvents user payload name = record {
  at = λ db.
      (cancel_until-KeepsEvents user name payload.ends_at).at _
      ∙ mark_cancelled_events (find_subscription payload db) db;
}

handle_subscription_expired-KeepsEvents :
    (user : User) (payload : Payload) (name : String)
    → KeepsEvents (handle_subscription_expired user payload name)
unfolding handle_subscription_expired
handle_subscription_expired-KeepsEvents user payload name = record {
  at = λ db.
      (apply_entitlement-KeepsEvents user "expired" name none).at _
      ∙ mark_expired_events (find_subscription payload db) db;
}

save_user-KeepsEvents : (user : User) → KeepsEvents (save_user user)
unfolding save_user
save_user-KeepsEvents user = record { at = λ db. refl }

ruleset keeps_events = (
  KeepsEvents-pure, KeepsEvents-if, KeepsEvents-bind, set_price-KeepsEvents,
  plan_of_variant-KeepsEvents, save_user-KeepsEvents, handle_subscription_active-KeepsEvents,
  handle_subscription_cancelled-KeepsEvents, handle_subscription_expired-KeepsEvents,
)

dispatch_event-KeepsEvents :
    (now : ℕ) (event_type : String) (payload : Payload) (user : User) (plan : Option Plan)
    → KeepsEvents (dispatch_event now event_type payload user plan)
unfolding dispatch_event
dispatch_event-KeepsEvents now event_type payload user plan = search keeps_events

process_user_event-KeepsEvents :
    (now : ℕ) (event_type : String) (payload : Payload) (found : Option User)
    → KeepsEvents (process_user_event now event_type payload found)
unfolding process_user_event
process_user_event-KeepsEvents now event_type payload none = search keeps_events
process_user_event-KeepsEvents now event_type payload (some found) =
    search (keeps_events, dispatch_event-KeepsEvents)

resolve_user-KeepsEvents : (payload : Payload) → KeepsEvents (resolve_user payload)
unfolding resolve_user
resolve_user-KeepsEvents payload = record { at = λ db. ground arith }

handle_variant_updated-KeepsEvents :
    (now : ℕ) (payload : Payload) → KeepsEvents (handle_variant_updated now payload)
unfolding handle_variant_updated
handle_variant_updated-KeepsEvents now payload = record { at = λ db. ground arith }

refresh_variant-KeepsEvents : (now : ℕ) (v : Variant) → KeepsEvents (refresh_variant now v)
unfolding refresh_variant
refresh_variant-KeepsEvents now v = record { at = λ db. ground arith }

refresh_variants-KeepsEvents : (now : ℕ) (vs : List Variant) → KeepsEvents (refresh_variants now vs)
unfolding refresh_variants
refresh_variants-KeepsEvents now [] = search keeps_events
refresh_variants-KeepsEvents now (v ∷ vs) =
    KeepsEvents-bind (refresh_variant now v) _ (refresh_variant-KeepsEvents now v)
      (λ _. refresh_variants-KeepsEvents now vs)

refresh_listed-KeepsEvents :
    (now : ℕ) (variants : Option (List Variant)) → KeepsEvents (refresh_listed now variants)
unfolding refresh_listed
refresh_listed-KeepsEvents now none = search keeps_events
refresh_listed-KeepsEvents now (some vs) = refresh_variants-KeepsEvents now vs

refresh_product-KeepsEvents :
    (wire : Wire) (now : ℕ) (product : Option String)
    → KeepsEvents (refresh_product wire now product)
unfolding refresh_product
refresh_product-KeepsEvents wire now none = search keeps_events
refresh_product-KeepsEvents wire now (some id) =
    refresh_listed-KeepsEvents now (wire.list_variants id)

handle_product_updated-KeepsEvents :
    (wire : Wire) (now : ℕ) (payload : Payload)
    → KeepsEvents (handle_product_updated wire now payload)
unfolding handle_product_updated
handle_product_updated-KeepsEvents wire now payload =
    refresh_product-KeepsEvents wire now (truthy payload.data_id)

process_webhook_event-KeepsEvents :
    (wire : Wire) (now : ℕ) (payload : Payload)
    → KeepsEvents (process_webhook_event wire now payload)
unfolding process_webhook_event
process_webhook_event-KeepsEvents wire now payload = search (
  keeps_events, handle_variant_updated-KeepsEvents, handle_product_updated-KeepsEvents,
  resolve_user-KeepsEvents, process_user_event-KeepsEvents,
)

abbrev event_row : String → Db → Option WebhookEvent
event_row id db = get_row WebhookEvent.lemon_squeezy_event_id id db.webhook_events

-- An event that was recorded and processed is found again.
settled_event :
    (wire : Wire) (now : ℕ) (body : String) (payload : Payload) (db : Db)
    → is_some (
        event_row
          (text_of payload.webhook_id)
          (process_webhook_event wire now payload (add_event wire now body payload db)).1)
      ≡ true
settled_event wire now body payload db =
    rw ((process_webhook_event-KeepsEvents wire now payload).at _)
      (unfold add_event in rw get_row-save_row_self)

handle_event-handle_event :
    (wire : Wire) (now later : ℕ) (body : String) (payload : Payload) (db : Db) {r : Reply}
    → (handle_event wire now body payload db).0 ≡ ok r
    → handle_event wire later body payload (handle_event wire now body payload db).1
      ≡ (ok duplicate, (handle_event wire now body payload db).1)
unfolding handle_event settle
handle_event-handle_event wire now later body payload db h =
    ground (arith, settled_event wire now body payload db)

-- Once a delivery is answered with success, every repetition of it, at any later time, is answered
-- `duplicate` and changes nothing.
pub handle_webhook-handle_webhook :
    (wire : Wire) (secret : String) (now later : ℕ) (body signature : String) (db : Db) {r : Reply}
    → (handle_webhook wire secret now body signature db).0 ≡ ok r
    → handle_webhook wire secret later body signature
        (handle_webhook wire secret now body signature db).1
      ≡ (ok duplicate, (handle_webhook wire secret now body signature db).1)
unfolding handle_webhook
handle_webhook-handle_webhook wire secret now later body signature db {r} h =
    elim (Option-cases (wire.loads body)) [
      | inl e ↦ ground arith
      | inr (payload, e) ↦
          ground (arith, handle_event-handle_event wire now later body payload db {r = r})
    ]
