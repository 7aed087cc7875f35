-- ===== src/Router/Cache.antt =====
-- engine/llm_router.py `_get_provider_instance`: the shared clients never carry a user's key.
use wikimind.Prelude.{
  String, ◌≡◌, refl, ap, true, Option, none, some, List, [], ◌∷◌, Result, ok, err, arith,
  Option-cases, Bool-cases, inl, inr,
}
use wikimind.Router.{
  Provider, index, same, Config, Instance, ProviderCache, put_instance, get_provider_instance,
  Outcome, answered, provider_failed, crashed, Call, is_usable, attempt, after_attempt,
  try_provider, try_providers, execute_with_fallback, candidate_order, resolve_user_key, get_model,
}

-- The instance that the system's own key makes.
abbrev pub system_instance : Provider → Instance
system_instance p = record { provider = p; api_key_override = none }

-- Every cached instance is the system's for its provider.
pub record IsClean (cache : ProviderCache) : Type 0 where
  pub at : (p : Provider) (i : Instance) → cache p ≡ some i → i ≡ system_instance p

same→path : (p q : Provider) → same p q ≡ true → p ≡ q
unfolding same index
same→path p q h = ground arith

-- The instance that a provider and a key give, whatever a clean cache holds.
abbrev pub instance_for : Provider → Option String → Instance
instance_for p key = record { provider = p; api_key_override = key }

put_instance-IsClean :
    (p : Provider) (cache : ProviderCache)
    → IsClean cache
    → IsClean (put_instance p (system_instance p) cache)
unfolding put_instance
put_instance-IsClean p cache c = record { at = λ q i h. ground (arith, same→path p q, c.at q i) }

pub get_provider_instance_lem :
    (p : Provider) (key : Option String) (cache : ProviderCache)
    → IsClean cache
    → ((get_provider_instance p key cache).0 ≡ instance_for p key)
      × IsClean (get_provider_instance p key cache).1
unfolding get_provider_instance
get_provider_instance_lem p (some key) cache c = (refl, c)
get_provider_instance_lem p none cache c = elim (Option-cases (cache p)) [
  | inl absent ↦ rw (absent, get_provider_instance) (refl, put_instance-IsClean p cache c)
  | inr (i, there) ↦ rw (there, get_provider_instance) (c.at p i there, c)
]

module _ {ℓ} {A : Type ℓ} (cfg : Config) (call : Call A) where
  -- What a provider does with the call, on the client that a key makes.
  abbrev pub answer_with : Option String → Provider → Outcome A
  answer_with user_key p =
      call.operation (instance_for p user_key) p (get_model cfg p call.model_override)

  pub attempt_lem :
      (user_key : Option String) (p : Provider) (cache : ProviderCache)
      → IsClean cache
      → ((attempt cfg call user_key p cache).0 ≡ answer_with user_key p)
        × IsClean (attempt cfg call user_key p cache).1
  unfolding attempt
  attempt_lem user_key p cache c =
      let made = get_provider_instance_lem p user_key cache c in
      (ap (λ i. call.operation i p (get_model cfg p call.model_override)) made.0, made.1)

  after_attempt-IsClean :
      (rest : ProviderCache → Result A × ProviderCache) (o : Outcome A) (cache : ProviderCache)
      → IsClean cache
      → ((k : ProviderCache) → IsClean k → IsClean (rest k).1)
      → IsClean (after_attempt cfg call rest (o, cache)).1
  unfolding after_attempt
  after_attempt-IsClean rest (answered a) cache c h = c
  after_attempt-IsClean rest (crashed e) cache c h = c
  after_attempt-IsClean rest (provider_failed e) cache c h =
      elim (Bool-cases call.disable_fallback) [
        | inl strict ↦ rw strict c
        | inr lenient ↦ rw lenient (elim (Bool-cases cfg.fallback_enabled) [
          | inl on ↦ rw on (h cache c)
          | inr off ↦ rw off c
        ])
      ]

  try_provider-IsClean :
      (rest : ProviderCache → Result A × ProviderCache) (key : Result (Option String))
      (p : Provider) (cache : ProviderCache)
      → IsClean cache
      → ((k : ProviderCache) → IsClean k → IsClean (rest k).1)
      → IsClean (try_provider cfg call rest key p cache).1
  unfolding try_provider
  try_provider-IsClean rest (err e) p cache c h = c
  try_provider-IsClean rest (ok user_key) p cache c h =
      elim (Bool-cases (is_usable cfg call user_key p)) [
        | inl usable ↦ rw usable (
            after_attempt-IsClean rest (attempt cfg call user_key p cache).0
              (attempt cfg call user_key p cache).1 (attempt_lem user_key p cache c).1 h)
        | inr skipped ↦ rw skipped (h cache c)
      ]

  try_providers-IsClean :
      (ps : List Provider) (cache : ProviderCache)
      → IsClean cache
      → IsClean (try_providers cfg call ps cache).1
  unfolding try_providers
  try_providers-IsClean [] cache c = c
  try_providers-IsClean (p ∷ ps) cache c =
      try_provider-IsClean (try_providers cfg call ps) (resolve_user_key call.stored_key p) p cache
        c (try_providers-IsClean ps)

  -- However a call goes, the shared cache holds no client that was made with a user's key.
  pub execute_with_fallback-IsClean :
      (preferred : Option Provider) (cache : ProviderCache)
      → IsClean cache
      → IsClean (execute_with_fallback cfg call preferred cache).1
  unfolding execute_with_fallback
  execute_with_fallback-IsClean preferred = try_providers-IsClean (candidate_order cfg preferred)
