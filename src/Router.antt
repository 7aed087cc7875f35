-- ===== src/Router.antt =====
-- engine/llm_router.py: which providers are tried for a call, in which order, with which keys.
pub mod Order
pub mod Fallback
pub mod Cache
pub mod Plans
pub mod Budget
mod Examples
use wikimind.Prelude.{
  ℕ, String, ◌==◌, Bool, true, false, not, ◌&&◌, ◌||◌, Option, none, some, List, [], ◌∷◌, ◌++◌, eqb,
  any, filter, is_some, if◌then◌else◌, Result, ok, err, Error, upstream_error, truthy,
}

-- models/enums.py `Provider`, in the order of its declaration.
pub data Provider : Type 0 where
  anthropic openai openai_compatible google ollama mock : Provider

unfoldable pub index : Provider → ℕ
index anthropic = 0
index openai = 1
index openai_compatible = 2
index google = 3
index ollama = 4
index mock = 5

unfoldable pub same : Provider → Provider → Bool
unfolding index
same p q = eqb (index p) (index q)

abbrev pub all_providers : List Provider
all_providers = anthropic ∷ openai ∷ openai_compatible ∷ google ∷ ollama ∷ mock ∷ []

unfoldable pub among : List Provider → Provider → Bool
unfolding same
among ps p = any (same p) ps

-- The settings and the runtime configuration that the router reads. `enabled` and `model` are the
-- provider's own section, none where the settings have no such section.
pub record Config : Type 0 where
  pub default_provider : Provider
  pub enabled : Provider → Bool
  pub model : Provider → Option String
  pub api_key : Provider → Option String
  pub openai_compatible_enabled : Bool
  pub openai_compatible_model : Option String
  pub openai_compatible_base_url : Option String
  pub fallback_enabled : Bool

unfoldable pub is_config_enabled : Config → Provider → Bool
is_config_enabled cfg openai_compatible = cfg.openai_compatible_enabled
is_config_enabled cfg p = cfg.enabled p

-- `order.append(p)` unless it is there.
unfoldable pub add_provider : List Provider → Provider → List Provider
unfolding among
add_provider order p = if among order p then order else order ++ (p ∷ [])

unfoldable pub add_enabled : Config → List Provider → List Provider → List Provider
unfolding is_config_enabled add_provider
add_enabled cfg [] order = order
add_enabled cfg (p ∷ ps) order =
    add_enabled cfg ps (if is_config_enabled cfg p then add_provider order p else order)

unfoldable pub preferred_first : Option Provider → List Provider
preferred_first none = []
preferred_first (some p) = p ∷ []

unfoldable pub get_provider_order : Config → Option Provider → List Provider
unfolding preferred_first add_provider add_enabled
get_provider_order cfg preferred =
    add_enabled cfg all_providers (add_provider (preferred_first preferred) cfg.default_provider)

-- The providers that a user may have a key for are tried last.
unfoldable pub candidate_order : Config → Option Provider → List Provider
unfolding get_provider_order
candidate_order cfg preferred =
    add_provider (add_provider (add_provider (get_provider_order cfg preferred) anthropic) openai)
      google

unfoldable pub is_provider_available : Config → Provider → Bool
is_provider_available cfg openai_compatible =
    is_some (truthy (cfg.api_key openai_compatible))
    && (is_some (truthy cfg.openai_compatible_model)
        && is_some (truthy cfg.openai_compatible_base_url))
is_provider_available cfg ollama = cfg.enabled ollama
is_provider_available cfg mock = cfg.enabled mock
is_provider_available cfg p = cfg.enabled p && is_some (truthy (cfg.api_key p))

-- What the key store does with a look-up: it gives the user's key if there is one, the database
-- fails (`SQLAlchemyError`, `OSError`), or something else is raised, such as the errors of the
-- decryption.
pub data KeyAnswer : Type 0 where
  key_found : Option String → KeyAnswer
  store_failed : KeyAnswer
  key_raised : Error → KeyAnswer

unfoldable pub read_key : KeyAnswer → Result (Option String)
read_key (key_found key) = ok key
read_key store_failed = ok none
read_key (key_raised e) = err e

-- A user's own key; `stored` is the key store's answer. Local providers take none. A failing
-- database counts as no key; any other error is raised.
unfoldable pub resolve_user_key : (Provider → KeyAnswer) → Provider → Result (Option String)
unfolding read_key
resolve_user_key stored ollama = ok none
resolve_user_key stored mock = ok none
resolve_user_key stored p = read_key (stored p)

or_unknown : Option String → String
or_unknown none = "unknown"
or_unknown (some m) = m

configured_model : Config → Provider → String
unfolding or_unknown
configured_model cfg openai_compatible = or_unknown (truthy cfg.openai_compatible_model)
configured_model cfg p = or_unknown (cfg.model p)

unfoldable pub get_model : Config → Provider → Option String → String
unfolding configured_model
get_model cfg provider model_override = elim (truthy model_override) [
  | some m ↦ m
  | none ↦ configured_model cfg provider
]

-- A client object: its provider and the user's key that it was made with, if any.
pub record Instance : Type 0 where
  pub provider : Provider
  pub api_key_override : Option String

abbrev pub ProviderCache : Type 0
ProviderCache = Provider → Option Instance

put_instance : Provider → Instance → ProviderCache → ProviderCache
unfolding same
put_instance p i cache q = if same p q then some i else cache q

-- Making a client is taken not to fail.
unfoldable pub get_provider_instance :
    Provider → Option String → ProviderCache → Instance × ProviderCache
unfolding put_instance
get_provider_instance p (some key) cache =
    (record { provider = p; api_key_override = some key }, cache)
get_provider_instance p none cache = elim (cache p) [
  | some i ↦ (i, cache)
  | none ↦
      let i : Instance = record { provider = p; api_key_override = none } in
      (i, put_instance p i cache)
]

-- What a provider does with a call: it answers, it fails with one of the errors that the router
-- catches, or something else is raised.
pub data Outcome {ℓ} (A : Type ℓ) : Type ℓ where
  answered : A → Outcome A
  provider_failed : Error → Outcome A
  crashed : Error → Outcome A

-- One call of the router: the key store's answers, the operation and the request's options.
pub record Call {ℓ} (A : Type ℓ) : Type ℓ where
  pub stored_key : Provider → KeyAnswer
  pub operation : Instance → Provider → String → Outcome A
  pub disable_fallback : Bool
  pub model_override : Option String

module _ {ℓ} {A : Type ℓ} (cfg : Config) (call : Call A) where
  -- `if not user_key and not self._is_provider_available(provider): continue`
  unfoldable pub is_usable : Option String → Provider → Bool
  unfolding is_provider_available
  is_usable user_key p = is_some (truthy user_key) || is_provider_available cfg p

  -- The attempt at one provider, and the cache after it.
  unfoldable pub attempt : Option String → Provider → ProviderCache → Outcome A × ProviderCache
  unfolding get_provider_instance get_model
  attempt user_key p cache =
      let (i, after) = get_provider_instance p user_key cache in
      (call.operation i p (get_model cfg p call.model_override), after)

  -- What follows an attempt; `rest` tries the remaining providers.
  unfoldable pub after_attempt :
      (ProviderCache → Result A × ProviderCache)
      → Outcome A × ProviderCache
      → Result A × ProviderCache
  after_attempt rest (answered a, cache) = (ok a, cache)
  after_attempt rest (crashed e, cache) = (err e, cache)
  after_attempt rest (provider_failed e, cache) =
      if call.disable_fallback
      then (err (upstream_error "Provider failed"), cache)
      else if cfg.fallback_enabled
      then rest cache
      else (err e, cache)

  -- One round of the loop. The key is read before the `try`: what its look-up raises ends the call.
  unfoldable pub try_provider :
      (ProviderCache → Result A × ProviderCache)
      → Result (Option String)
      → Provider
      → ProviderCache
      → Result A × ProviderCache
  unfolding is_usable attempt after_attempt
  try_provider rest (err e) p cache = (err e, cache)
  try_provider rest (ok user_key) p cache =
      if is_usable user_key p then after_attempt rest (attempt user_key p cache) else rest cache

  unfoldable pub try_providers : List Provider → ProviderCache → Result A × ProviderCache
  unfolding try_provider resolve_user_key
  try_providers [] cache = (err (upstream_error "All LLM providers failed"), cache)
  try_providers (p ∷ ps) cache =
      try_provider (try_providers ps) (resolve_user_key call.stored_key p) p cache

  unfoldable pub execute_with_fallback : Option Provider → ProviderCache → Result A × ProviderCache
  unfolding candidate_order try_providers
  execute_with_fallback preferred = try_providers (candidate_order cfg preferred)
