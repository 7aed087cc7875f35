-- ===== src/Billing/Webhook.antt =====
-- api/routes/billing.py: the Lemon Squeezy webhook, from the signature to the committed rows.
pub mod Delivery
mod Examples
use wikimind.Prelude.{
  ℕ, String, ◌==◌, Bool, true, false, not, Option, none, some, List, [], ◌∷◌, eqb, filter, contains,
  is_some, if◌then◌else◌, get_row, save_row, Result, ok, err, value_error, http_error, Action,
  ◌>>=◌, ◌>>◌, pure, raise, one_or_none, text_of, truthy,
}
use wikimind.Accounts.{Plan, User, Subscription, WebhookEvent, Db}
use wikimind.Billing.{apply_entitlement}

-- A variant in Lemon Squeezy's answer: its id and price, where it has them.
pub record Variant : Type 0 where
  pub id : Option String
  pub price : Option ℕ

-- The parts of the JSON payload that the handlers read; a missing key is `none`.
pub record Payload : Type 0 where
  pub event_name : Option String
  pub webhook_id : Option String
  pub data_id : Option String
  pub custom_user_id : Option String
  pub status : Option String
  pub customer_id : Option String
  pub variant_id : Option String
  pub item_subscription_id : Option String
  pub ends_at : Result (Option ℕ)
  pub price : Option ℕ

-- What the handler calls: hashing, the JSON parser, and Lemon Squeezy's list of variants.
pub record Wire : Type 0 where
  pub hmac_sha256 : String → String → String
  pub sha256 : String → String
  pub loads : String → Option Payload
  pub list_variants : String → Option (List Variant)

pub data Reply : Type 0 where
  done duplicate : Reply

has_variant : String → Plan → Bool
has_variant variant_id plan = elim plan.lemon_squeezy_variant_id [
  | none ↦ false
  | some v ↦ v == variant_id
]

plan_of_variant : String → Action Db (Option Plan)
unfolding has_variant
plan_of_variant variant_id db = (one_or_none (filter (has_variant variant_id) db.plans), db)

-- Sets the price if it differs; the reply says whether it did.
set_price : ℕ → ℕ → Option Plan → Action Db Bool
set_price now price none db = (ok false, db)
set_price now price (some plan) db = if eqb plan.price_cents price then (ok false, db) else (
  ok true,
  record db {
    plans = save_row Plan.id (record plan { price_cents = price; updated_at = now }) db.plans;
  },
)

handle_variant_updated : ℕ → Payload → Action Db Bool
unfolding plan_of_variant set_price
handle_variant_updated now payload = elim (truthy payload.data_id) [
  | none ↦ pure false
  | some variant_id ↦ elim payload.price [
    | none ↦ pure false
    | some price ↦ plan_of_variant variant_id >>= set_price now price
  ]
]

-- One variant of the product: one without an id or a price is skipped.
refresh_variant : ℕ → Variant → Action Db Bool
unfolding plan_of_variant set_price
refresh_variant now variant = elim (truthy variant.id) [
  | none ↦ pure false
  | some variant_id ↦ elim variant.price [
    | none ↦ pure false
    | some price ↦ plan_of_variant variant_id >>= set_price now price
  ]
]

refresh_variants : ℕ → List Variant → Action Db (Unit {0})
refresh_variants now [] = pure tt
refresh_variants now (v ∷ vs) = do refresh_variant now v; refresh_variants now vs

-- A failed call of Lemon Squeezy is logged and refreshes nothing.
refresh_listed : ℕ → Option (List Variant) → Action Db (Unit {0})
refresh_listed now none = pure tt
refresh_listed now (some variants) = refresh_variants now variants

refresh_product : Wire → ℕ → Option String → Action Db (Unit {0})
refresh_product wire now none = pure tt
refresh_product wire now (some product_id) = refresh_listed now (wire.list_variants product_id)

handle_product_updated : Wire → ℕ → Payload → Action Db (Unit {0})
handle_product_updated wire now payload = refresh_product wire now (truthy payload.data_id)

has_customer : String → User → Bool
has_customer customer_id user = elim user.lemon_squeezy_customer_id [
  | none ↦ false
  | some c ↦ c == customer_id
]

-- The user id of the event: the custom data's, or that of the customer's account.
resolve_user_id : Payload → Action Db (Option String)
unfolding has_customer
resolve_user_id payload db = elim (truthy payload.custom_user_id) [
  | some user_id ↦ (ok (some user_id), db)
  | none ↦ elim (truthy payload.customer_id) [
    | none ↦ (ok none, db)
    | some customer_id ↦ elim (one_or_none (filter (has_customer customer_id) db.users)) [
      | err e ↦ (err e, db)
      | ok none ↦ (ok none, db)
      | ok (some found) ↦ (ok (some found.id), db)
    ]
  ]
]

resolve_user : Payload → Action Db (Option User)
unfolding resolve_user_id
resolve_user payload = do
  user_id ← resolve_user_id payload
  elim user_id [ none ↦ pure none | some id ↦ λ db. (ok (get_row User.id id db.users), db) ]

subscription_id : Payload → String
subscription_id payload = elim (truthy payload.item_subscription_id) [
  | some id ↦ id
  | none ↦ text_of payload.data_id
]

plan_id_or_empty : Option Plan → String
plan_id_or_empty none = ""
plan_id_or_empty (some plan) = plan.id

-- The subscription row of `subscription_created`, `_updated` and `_resumed`.
active_row : ℕ → User → Payload → Option Plan → Option Subscription → Subscription
unfolding subscription_id plan_id_or_empty
active_row now user payload plan (some sub) = record sub { status = text_of payload.status }
active_row now user payload plan none = record {
  lemon_squeezy_subscription_id = subscription_id payload;
  user_id = user.id;
  plan_id = plan_id_or_empty plan;
  lemon_squeezy_customer_id = text_of payload.customer_id;
  status = text_of payload.status;
  cancel_at_period_end = false;
  current_period_start = now;
  current_period_end = now;
}

save_subscription : Subscription → Db → Db
save_subscription sub db = record db {
  subscriptions = save_row Subscription.lemon_squeezy_subscription_id sub db.subscriptions;
}

find_subscription : Payload → Db → Option Subscription
unfolding subscription_id
find_subscription payload db =
    get_row Subscription.lemon_squeezy_subscription_id (subscription_id payload) db.subscriptions

pub handle_subscription_active : ℕ → User → Payload → Option Plan → String → Action Db (Unit {0})
unfolding active_row save_subscription find_subscription
handle_subscription_active now user payload plan plan_name db =
    apply_entitlement user (text_of payload.status) plan_name none
      (save_subscription (active_row now user payload plan (find_subscription payload db)) db)

-- The status of a known subscription is rewritten; an unknown one is not created.
mark_cancelled : Option Subscription → Db → Db
unfolding save_subscription
mark_cancelled none db = db
mark_cancelled (some sub) db =
    save_subscription (record sub { status = "cancelled"; cancel_at_period_end = true }) db

cancel_until : User → String → Result (Option ℕ) → Action Db (Unit {0})
cancel_until user plan_name (err e) db = (err e, db)
cancel_until user plan_name (ok period_end) db =
    apply_entitlement user "cancelled" plan_name period_end db

-- A date that does not parse raises, after the subscription's row is changed.
pub handle_subscription_cancelled : User → Payload → String → Action Db (Unit {0})
unfolding mark_cancelled find_subscription cancel_until
handle_subscription_cancelled user payload plan_name db =
    cancel_until user plan_name payload.ends_at (mark_cancelled (find_subscription payload db) db)

mark_expired : Option Subscription → Db → Db
unfolding save_subscription
mark_expired none db = db
mark_expired (some sub) db = save_subscription (record sub { status = "expired" }) db

pub handle_subscription_expired : User → Payload → String → Action Db (Unit {0})
unfolding mark_expired find_subscription
handle_subscription_expired user payload plan_name db =
    apply_entitlement user "expired" plan_name none (mark_expired (find_subscription payload db) db)

-- The customer id is kept the first time that an event brings it.
link_customer : Payload → User → User
link_customer payload user = elim (truthy payload.customer_id) [
  | none ↦ user
  | some customer_id ↦
      if is_some (truthy user.lemon_squeezy_customer_id)
      then user
      else record user { lemon_squeezy_customer_id = some customer_id }
]

plan_name_or_pro : Option Plan → String
plan_name_or_pro none = "pro"
plan_name_or_pro (some plan) = plan.name

dispatch_event : ℕ → String → Payload → User → Option Plan → Action Db (Unit {0})
unfolding plan_name_or_pro
dispatch_event now event_type payload user plan =
    if contains ("subscription_created" ∷ "subscription_updated" ∷ "subscription_resumed" ∷ [])
      event_type
    then handle_subscription_active now user payload plan (plan_name_or_pro plan)
    else if event_type == "subscription_cancelled"
    then handle_subscription_cancelled user payload (plan_name_or_pro plan)
    else if event_type == "subscription_expired"
    then handle_subscription_expired user payload (plan_name_or_pro plan)
    else pure tt

save_user : User → Action Db (Unit {0})
save_user user db = (ok tt, record db { users = save_row User.id user db.users })

-- The events of one user.
process_user_event : ℕ → String → Payload → Option User → Action Db (Unit {0})
unfolding link_customer save_user plan_of_variant
process_user_event now event_type payload none = pure tt
process_user_event now event_type payload (some found) = do
  let user = link_customer payload found
  save_user user
  plan ← plan_of_variant (text_of payload.variant_id)
  dispatch_event now event_type payload user plan

pub process_webhook_event : Wire → ℕ → Payload → Action Db (Unit {0})
unfolding process_user_event
process_webhook_event wire now payload =
    if text_of payload.event_name == "variant_updated"
    then handle_variant_updated now payload >> pure tt
    else if text_of payload.event_name == "product_updated"
    then handle_product_updated wire now payload
    else resolve_user payload >>= process_user_event now (text_of payload.event_name) payload

pub add_event : Wire → ℕ → String → Payload → Db → Db
add_event wire now body payload db = record db {
  webhook_events =
      save_row WebhookEvent.lemon_squeezy_event_id
        (record {
          lemon_squeezy_event_id = text_of payload.webhook_id;
          event_type = text_of payload.event_name;
          processed_at = now;
          payload_hash = wire.sha256 body;
        })
        db.webhook_events;
}

-- `session.commit()` on success, and the request's rollback when an exception leaves the handler.
pub settle : Db → Result (Unit {0}) × Db → Result Reply × Db
settle before (ok _, after) = (ok done, after)
settle before (err e, after) = (err e, before)

handle_event : Wire → ℕ → String → Payload → Action Db Reply
handle_event wire now body payload db =
    if is_some
      (get_row WebhookEvent.lemon_squeezy_event_id (text_of payload.webhook_id) db.webhook_events)
    then (ok duplicate, db)
    else settle db (process_webhook_event wire now payload (add_event wire now body payload db))

pub handle_webhook : Wire → String → ℕ → String → String → Action Db Reply
unfolding handle_event
handle_webhook wire secret now body signature db =
    if wire.hmac_sha256 secret body == signature
    then elim (wire.loads body) [
      | none ↦ (err (value_error "json"), db)
      | some payload ↦
          if text_of payload.webhook_id == ""
          then (err (http_error 400 "Missing webhook_id"), db)
          else handle_event wire now body payload db
    ]
    else (err (http_error 401 "Invalid webhook signature"), db)
