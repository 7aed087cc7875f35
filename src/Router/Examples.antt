-- ===== src/Router/Examples.antt =====
-- engine/llm_router.py and services/plan_routing.py on concrete providers and calls.
use wikimind.Prelude.{
  String, ◌≡◌, refl, Bool, true, false, ◌&&◌, none, some, [], ◌∷◌, find, ok, err, invalid_token,
  upstream_error, arith, get_row,
}
use wikimind.Accounts.{Plan, Db}
use wikimind.Billing.{get_effective_plan, default_plan, current_plan}
use wikimind.Billing.Samples.{free}
use wikimind.Router.{
  Provider, anthropic, openai, google, Config, ProviderCache, Instance, Outcome, answered,
  provider_failed, Call, KeyAnswer, key_found, store_failed, key_raised, is_usable,
  execute_with_fallback, candidate_order, get_model, resolve_user_key,
}
use wikimind.Router.Cache.{IsClean, execute_with_fallback-IsClean}
use wikimind.Router.Fallback.{
  or_all_failed, strict_result, result_of, replies, is_tried, answer,
  execute_with_fallback_falls_back,
}
use wikimind.Router.Plans.{CompletionRequest, Admission, plan_call, chosen, restrict}

abbrev enabled_ones : Provider → Bool
enabled_ones anthropic = true
enabled_ones openai = true
enabled_ones p = false

abbrev cfg : Config
cfg = record {
  default_provider = anthropic;
  enabled = enabled_ones;
  model = λ p. some "m";
  api_key = λ p. some "system";
  openai_compatible_enabled = true;
  openai_compatible_model = some "local";
  openai_compatible_base_url = some "http://localhost";
  fallback_enabled = true;
}

abbrev own_keys : Provider → KeyAnswer
own_keys google = key_found (some "mine")
own_keys p = key_found none

-- The key that is stored for Google cannot be decrypted.
abbrev broken_keys : Provider → KeyAnswer
broken_keys google = key_raised invalid_token
broken_keys p = store_failed

-- Anthropic is down; the others answer with the model that they were asked for.
abbrev operation : Instance → Provider → String → Outcome String
operation i anthropic m = provider_failed (upstream_error "down")
operation i p m = answered m

abbrev lenient_call : Call String
lenient_call = record {
  stored_key = own_keys;
  operation = operation;
  disable_fallback = false;
  model_override = none;
}

abbrev strict_call : Call String
strict_call = record lenient_call { disable_fallback = true }

abbrev no_clients : ProviderCache
no_clients p = none

no_clients-IsClean : IsClean no_clients
no_clients-IsClean = record { at = λ p i h. absurd (ground arith) }

execute_with_fallback-IsClean_example :
    IsClean (execute_with_fallback cfg lenient_call (some google) no_clients).1
execute_with_fallback-IsClean_example =
    execute_with_fallback-IsClean cfg lenient_call (some google) no_clients no_clients-IsClean

falls_back_run :
    or_all_failed
      (λ p. result_of (answer cfg lenient_call p))
      (find
        (λ p. is_tried cfg lenient_call p && replies (answer cfg lenient_call p))
        (candidate_order cfg none))
    ≡ ok "m"
unfolding candidate_order is_usable get_model resolve_user_key
falls_back_run = refl

execute_with_fallback_falls_back_example :
    (execute_with_fallback cfg lenient_call none no_clients).0
    ≡ or_all_failed
        (λ p. result_of (answer cfg lenient_call p))
        (find
          (λ p. is_tried cfg lenient_call p && replies (answer cfg lenient_call p))
          (candidate_order cfg none))
execute_with_fallback_falls_back_example =
    execute_with_fallback_falls_back cfg lenient_call none no_clients no_clients-IsClean refl refl

-- A key that cannot be decrypted ends the call: no other candidate is asked.
undecryptable_run :
    (execute_with_fallback cfg
      (record lenient_call { stored_key = broken_keys })
      (some google)
      no_clients).0
    ≡ err invalid_token
unfolding execute_with_fallback candidate_order is_usable get_model resolve_user_key
undecryptable_run = refl

abbrev plan : Plan
plan = record free { llm_provider = "anthropic" }

abbrev db : Db
db = record { users = []; plans = plan ∷ []; subscriptions = []; webhook_events = [] }

abbrev admission : Admission
admission = record {
  billing_enabled = true;
  db = some db;
  usage = record {
    sources = [];
    articles = [];
    shares = [];
    storage = [];
    query_counts = [];
    costs = [];
  };
  now = 5;
  date = 1;
}

abbrev request : CompletionRequest
request = record {
  preferred_provider = some openai;
  model_override = none;
  disable_fallback = false;
}

lookup : get_effective_plan admission.now "u1" db ≡ ok plan
unfolding get_effective_plan default_plan current_plan get_row
lookup = refl

-- A plan whose provider is switched off: another provider is asked for the plan's model.
abbrev off : Config
off = record cfg { default_provider = openai; enabled = λ p. elim p [ openai ↦ true | _ ↦ false ] }

skipped_provider_run :
    or_all_failed
      (λ q. strict_result true (
        answer off
          (plan_call off own_keys operation "u1" db plan admission request no_clients anthropic)
          q))
      (chosen off own_keys operation "u1" db plan admission request no_clients anthropic)
    ≡ ok "gpt-4o-mini"
unfolding candidate_order is_usable restrict get_model resolve_user_key
skipped_provider_run = refl
