-- ===== src/Router/Plans.antt =====
-- services/plan_routing.py: which provider and model a user's plan allows.
use wikimind.Prelude.{
  ℕ, String, ◌==◌, ◌≡◌, refl, Bool, true, false, Option, none, some, find, Result, ok, err,
  value_error, if◌then◌else◌, is_some,
}
use wikimind.Accounts.{Plan, Db}
use wikimind.Billing.{get_effective_plan}
use wikimind.Quota.{Usage, check_daily_llm_spend}
use wikimind.Router.{
  Provider, anthropic, openai, openai_compatible, google, ollama, mock, Config, ProviderCache,
  Instance, Outcome, Call, KeyAnswer, execute_with_fallback, candidate_order, resolve_user_key,
}
use wikimind.Router.Cache.{IsClean}
use wikimind.Router.Fallback.{
  or_all_failed, strict_result, is_tried, answer, execute_with_fallback_strict,
}

-- `Provider(name)`
unfoldable pub parse_provider : String → Result Provider
parse_provider name =
    if name == "anthropic"
    then ok anthropic
    else if name == "openai"
    then ok openai
    else if name == "openai_compatible"
    then ok openai_compatible
    else if name == "google"
    then ok google
    else if name == "ollama"
    then ok ollama
    else if name == "mock"
    then ok mock
    else err (value_error name)

-- The routing fields of a completion request.
pub record CompletionRequest : Type 0 where
  pub preferred_provider : Option Provider
  pub model_override : Option String
  pub disable_fallback : Bool

-- The tables and the clock that a request is admitted with. `db` is none where no session is given
-- or reading the plan raises an error other than the database's own answer.
pub record Admission : Type 0 where
  pub billing_enabled : Bool
  pub db : Option Db
  pub usage : Usage
  pub now : ℕ
  pub date : ℕ

module _ {ℓ} {A : Type ℓ} (cfg : Config) (stored_key : Provider → KeyAnswer)
    (operation : Instance → Provider → String → Outcome A) where
  abbrev pub call_of : CompletionRequest → Call A
  call_of request = record {
    stored_key = stored_key;
    operation = operation;
    disable_fallback = request.disable_fallback;
    model_override = request.model_override;
  }

  unfoldable pub complete : CompletionRequest → ProviderCache → Result A × ProviderCache
  unfolding execute_with_fallback
  complete request = execute_with_fallback cfg (call_of request) request.preferred_provider

  -- `router.has_user_key`; the look-up may raise.
  unfoldable pub has_user_key : Provider → Result Bool
  unfolding resolve_user_key
  has_user_key p = elim (resolve_user_key stored_key p) [
    | err e ↦ err e
    | ok key ↦ ok (is_some key)
  ]

  -- Whether the user brings a key of their own: it is not looked up where the plan allows none.
  unfoldable pub uses_own_key : Plan → Provider → Result Bool
  unfolding has_user_key
  uses_own_key plan p = if plan.byok_allowed then has_user_key p else ok false

  -- What the plan leaves of a request.
  unfoldable pub restrict : Plan → Provider → CompletionRequest → CompletionRequest
  restrict plan p request = record request {
    preferred_provider = some p;
    model_override = some plan.llm_model;
    disable_fallback = true;
  }

  -- The call under a plan whose spend cap is kept. `Provider(…)` raises on a name that is none,
  -- in the key lookup or after it.
  unfoldable pub complete_on_plan :
      Plan → CompletionRequest → ProviderCache → Result A × ProviderCache
  unfolding parse_provider complete uses_own_key restrict
  complete_on_plan plan request cache = elim (parse_provider plan.llm_provider) [
    | err e ↦ (err e, cache)
    | ok p ↦ elim (uses_own_key plan p) [
      | err e ↦ (err e, cache)
      | ok own ↦ complete (if own then request else restrict plan p request) cache
    ]
  ]

  unfoldable pub complete_within_cap :
      String → Plan → Admission → CompletionRequest → ProviderCache → Result A × ProviderCache
  unfolding complete_on_plan check_daily_llm_spend
  complete_within_cap user_id plan admission request cache =
      elim (check_daily_llm_spend user_id plan admission.date admission.usage) [
        | err e ↦ (err e, cache)
        | ok _ ↦ complete_on_plan plan request cache
      ]

  -- The call under the user's plan; where the lookup raises, the request passes as it is.
  unfoldable pub complete_hosted :
      String → Db → Admission → CompletionRequest → ProviderCache → Result A × ProviderCache
  unfolding complete complete_within_cap get_effective_plan
  complete_hosted user_id db admission request cache =
      elim (get_effective_plan admission.now user_id db) [
        | err _ ↦ complete request cache
        | ok plan ↦ complete_within_cap user_id plan admission request cache
      ]

  unfoldable pub plan_aware_complete :
      String → Admission → CompletionRequest → ProviderCache → Result A × ProviderCache
  unfolding complete complete_hosted
  plan_aware_complete user_id admission request cache = elim admission.db [
    | none ↦ complete request cache
    | some db ↦
        if admission.billing_enabled
        then complete_hosted user_id db admission request cache
        else complete request cache
  ]

  module _ (user_id : String) (db : Db) (plan : Plan) (admission : Admission)
      (request : CompletionRequest) (cache : ProviderCache) (p : Provider) where
    -- The call that the plan makes of the request.
    abbrev pub plan_call : Call A
    plan_call = call_of (restrict plan p request)

    -- The provider that a restricted request ends at.
    abbrev pub chosen : Option Provider
    chosen = find (is_tried cfg plan_call) (candidate_order cfg (some p))

    complete_hosted_restricted :
        IsClean cache
        → get_effective_plan admission.now user_id db ≡ ok plan
        → check_daily_llm_spend user_id plan admission.date admission.usage ≡ ok tt
        → parse_provider plan.llm_provider ≡ ok p
        → uses_own_key plan p ≡ ok false
        → (complete_hosted user_id db admission request cache).0
          ≡ or_all_failed (λ q. strict_result true (answer cfg plan_call q)) chosen
    unfolding complete_hosted complete_within_cap complete_on_plan complete restrict
    complete_hosted_restricted clean lookup spend named own =
        rw (lookup, complete_hosted, spend, complete_within_cap, named, complete_on_plan, own)
          (execute_with_fallback_strict cfg plan_call (some p) cache clean refl)

    -- With billing on and a session, a user whose plan is found, who keeps the daily spend cap and
    -- who does not bring an allowed key of their own gets the first candidate that is not skipped,
    -- the plan's provider first, asked for the plan's model; its failure is raised.
    pub plan_aware_complete_restricted :
        IsClean cache
        → admission.billing_enabled ≡ true
        → admission.db ≡ some db
        → get_effective_plan admission.now user_id db ≡ ok plan
        → check_daily_llm_spend user_id plan admission.date admission.usage ≡ ok tt
        → parse_provider plan.llm_provider ≡ ok p
        → uses_own_key plan p ≡ ok false
        → (plan_aware_complete user_id admission request cache).0
          ≡ or_all_failed (λ q. strict_result true (answer cfg plan_call q)) chosen
    unfolding plan_aware_complete
    plan_aware_complete_restricted clean on has_db lookup spend named own =
        rw (has_db, plan_aware_complete, on)
          (complete_hosted_restricted clean lookup spend named own)
