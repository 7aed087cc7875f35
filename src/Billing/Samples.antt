-- ===== src/Billing/Samples.antt =====
-- Concrete rows for the tests of billing: two plans and one subscriber.
use wikimind.Prelude.{String, ◌≢◌, true, false, none, some, [], ◌∷◌, arith, eq_iff}
use wikimind.Accounts.{Plan, User, Db}

abbrev pub free : Plan
free = record {
  id = "p0";
  name = "free";
  price_cents = 0;
  max_sources = some 10;
  max_articles = some 10;
  max_queries_per_day = some 5;
  max_storage_bytes = some 1000;
  max_active_shares = some 1;
  daily_llm_spend_cap_cents = some 50;
  allowed_exports = "markdown" ∷ [];
  mcp_enabled = false;
  llm_provider = "openai_compatible";
  llm_model = "gpt-4o-mini";
  byok_allowed = false;
  is_default = true;
  is_active = true;
  lemon_squeezy_variant_id = none;
  updated_at = 0;
}

abbrev pub pro : Plan
pro = record free {
  id = "p1";
  name = "pro";
  price_cents = 900;
  is_default = false;
  lemon_squeezy_variant_id = some "v1";
}

abbrev pub ann : User
ann = record {
  id = "u1";
  plan_id = none;
  plan_effective_until = none;
  lemon_squeezy_customer_id = none;
}

abbrev pub start : Db
start = record {
  users = ann ∷ [];
  plans = free ∷ pro ∷ [];
  subscriptions = [];
  webhook_events = [];
}

pub p1-ne-empty : ◌≢◌ {A = String} "p1" ""
p1-ne-empty = ground (arith, eq_iff "p1" "")

pub p0-ne-empty : ◌≢◌ {A = String} "p0" ""
p0-ne-empty = ground (arith, eq_iff "p0" "")
