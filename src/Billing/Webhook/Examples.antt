-- ===== src/Billing/Webhook/Examples.antt =====
-- The webhook on concrete deliveries.
use wikimind.Prelude.{
  ◌==◌, ◌≡◌, refl, none, some, if◌then◌else◌, get_row, save_row, ok, err, http_error,
}
use wikimind.Billing.{default_plan, apply_entitlement}
use wikimind.Billing.Samples.{start}
use wikimind.Billing.Webhook.{
  Payload, Wire, done, duplicate, process_webhook_event, settle, handle_webhook,
  handle_subscription_active, plan_of_variant, resolve_user, dispatch_event, add_event,
}
use wikimind.Billing.Webhook.Delivery.{handle_webhook-handle_webhook}

abbrev renewal : Payload
renewal = record {
  event_name = some "subscription_updated";
  webhook_id = some "e1";
  data_id = some "s1";
  custom_user_id = some "u1";
  status = some "cancelled";
  customer_id = some "c1";
  variant_id = some "v1";
  item_subscription_id = none;
  ends_at = ok (some 400);
  price = none;
}

abbrev wire : Wire
wire = record {
  hmac_sha256 = λ key body. key;
  sha256 = λ body. body;
  loads = λ body. if body == "{}" then some renewal else none;
  list_variants = λ product. none;
}

first_delivery : (handle_webhook wire "key" 7 "{}" "key" start).0 ≡ ok done
unfolding handle_webhook settle process_webhook_event resolve_user get_row save_row plan_of_variant
    dispatch_event handle_subscription_active default_plan apply_entitlement add_event
first_delivery = refl

handle_webhook-handle_webhook_example :
    handle_webhook wire "key" 9 "{}" "key" (handle_webhook wire "key" 7 "{}" "key" start).1
    ≡ (ok duplicate, (handle_webhook wire "key" 7 "{}" "key" start).1)
handle_webhook-handle_webhook_example =
    handle_webhook-handle_webhook wire "key" 7 9 "{}" "key" start first_delivery

forged_delivery :
    (handle_webhook wire "key" 7 "{}" "guess" start).0
    ≡ err (http_error 401 "Invalid webhook signature")
unfolding handle_webhook
forged_delivery = refl
