-- ===== src/Accounts.antt =====
-- models/tables/billing.py and the account columns of models/tables/core.py: the rows that
-- billing and quotas read and write. Times are microseconds since the epoch, dates are days,
-- money is whole cents and, for LLM costs, whole micro-dollars.
use wikimind.Prelude.{ℕ, String, Bool, Option, List}

pub record Plan : Type 0 where
  pub id : String
  pub name : String
  pub price_cents : ℕ
  pub max_sources : Option ℕ
  pub max_articles : Option ℕ
  pub max_queries_per_day : Option ℕ
  pub max_storage_bytes : Option ℕ
  pub max_active_shares : Option ℕ
  pub daily_llm_spend_cap_cents : Option ℕ
  pub allowed_exports : List String
  pub mcp_enabled : Bool
  pub llm_provider : String
  pub llm_model : String
  pub byok_allowed : Bool
  pub is_default : Bool
  pub is_active : Bool
  pub lemon_squeezy_variant_id : Option String
  pub updated_at : ℕ

pub record User : Type 0 where
  pub id : String
  pub plan_id : Option String
  pub plan_effective_until : Option ℕ
  pub lemon_squeezy_customer_id : Option String

pub record Subscription : Type 0 where
  pub lemon_squeezy_subscription_id : String
  pub user_id : String
  pub plan_id : String
  pub lemon_squeezy_customer_id : String
  pub status : String
  pub cancel_at_period_end : Bool
  pub current_period_start : ℕ
  pub current_period_end : ℕ

pub record WebhookEvent : Type 0 where
  pub lemon_squeezy_event_id : String
  pub event_type : String
  pub processed_at : ℕ
  pub payload_hash : String

-- The billing tables and the user table.
pub record Db : Type 0 where
  pub users : List User
  pub plans : List Plan
  pub subscriptions : List Subscription
  pub webhook_events : List WebhookEvent
