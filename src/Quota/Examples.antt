-- ===== src/Quota/Examples.antt =====
-- Quotas on concrete rows: a plan with small limits and two users.
use wikimind.Prelude.{ℕ, String, ◌≡◌, refl, ◌+◌, ◌-◌, min, false, true, none, some, List, [], ◌∷◌}
use wikimind.Accounts.{Plan}
use wikimind.Quota.{Usage, limit_of, queries_on}
use wikimind.Quota.Queries.{run_queries, run_queries_lem}
use wikimind.Quota.Admission.{Ingested, created}

abbrev small : Plan
small = record {
  id = "p0";
  name = "free";
  price_cents = 0;
  max_sources = some 2;
  max_articles = some 3;
  max_queries_per_day = some 3;
  max_storage_bytes = some 1000;
  max_active_shares = some 1;
  daily_llm_spend_cap_cents = some 50;
  allowed_exports = "markdown" ∷ [];
  mcp_enabled = false;
  llm_provider = "openai_compatible";
  llm_model = "gpt-4o-mini";
  byok_allowed = false;
  is_default = true;
  is_active = true;
  lemon_squeezy_variant_id = none;
  updated_at = 0;
}

abbrev usage : Usage
usage = record {
  sources = "u1" ∷ "u2" ∷ [];
  articles = [];
  shares = record { user_id = "u1"; revoked = true } ∷ [];
  storage = record { user_id = "u1"; total_bytes = 600 } ∷ [];
  query_counts = record { user_id = "u1"; date = 5; count = 1 } ∷ [];
  costs = [];
}

run_queries_lem_example :
    ((run_queries 4 "u1" small 5 usage).0 ≡ min 4 (3 - queries_on "u1" 5 usage))
    × (queries_on "u1" 5 (run_queries 4 "u1" small 5 usage).1
        ≡ queries_on "u1" 5 usage + (run_queries 4 "u1" small 5 usage).0)
unfolding limit_of
run_queries_lem_example = run_queries_lem 4 "u1" small 5 3 usage refl

abbrev uploads : List (String × ℕ)
uploads = ("u1", 300) ∷ ("u2", 900) ∷ ("u1", 200) ∷ []

abbrev requests : List (String × Ingested)
requests = ("u1", created 9) ∷ ("u2", created 0) ∷ ("u1", created 4) ∷ []
