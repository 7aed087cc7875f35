-- ===== src/Router/Fallback.antt =====
-- engine/llm_router.py `_execute_with_fallback`: whose answer a call returns.
use wikimind.Prelude.{
  ◌≡◌, refl, ap, ◌∙◌, Bool, true, false, not, ◌&&◌, ◌||◌, Option, none, some, List, [], ◌∷◌, find,
  String, Result, ok, err, upstream_error, if◌then◌else◌, arith, Bool-cases, inl, inr,
}
use wikimind.Router.{
  Provider, Config, ProviderCache, Outcome, answered, provider_failed, crashed, Call, is_usable,
  after_attempt, try_provider, try_providers, execute_with_fallback, candidate_order,
  resolve_user_key,
}
use wikimind.Router.Cache.{IsClean, answer_with, attempt_lem}

module _ {ℓ} {A : Type ℓ} where
  -- The provider did not fail with an error that the router catches.
  abbrev pub replies : Outcome A → Bool
  replies (answered a) = true
  replies (provider_failed e) = false
  replies (crashed e) = true

  abbrev pub result_of : Outcome A → Result A
  result_of (answered a) = ok a
  result_of (provider_failed e) = err e
  result_of (crashed e) = err e

  -- The result where the first attempt decides: a failure is raised, wrapped if the request
  -- disables the fallback.
  abbrev pub strict_result : Bool → Outcome A → Result A
  strict_result disabled (answered a) = ok a
  strict_result disabled (provider_failed e) =
      if disabled then err (upstream_error "Provider failed") else err e
  strict_result disabled (crashed e) = err e

  abbrev pub or_all_failed : (Provider → Result A) → Option Provider → Result A
  or_all_failed f none = err (upstream_error "All LLM providers failed")
  or_all_failed f (some p) = f p

  or_all_failed-if :
      (f : Provider → Result A) (b : Bool) (p : Provider) (rest : Option Provider)
      → (if b then f p else or_all_failed f rest) ≡ or_all_failed f (if b then some p else rest)
  or_all_failed-if f true p rest = refl
  or_all_failed-if f false p rest = refl

module _ {ℓ} {A : Type ℓ} (cfg : Config) (call : Call A) where
  falls_back-after_attempt :
      (rest : ProviderCache → Result A × ProviderCache) (o : Outcome A) (cache : ProviderCache)
      {r : Result A}
      → call.disable_fallback ≡ false
      → cfg.fallback_enabled ≡ true
      → (rest cache).0 ≡ r
      → (after_attempt cfg call rest (o, cache)).0 ≡ (if replies o then result_of o else r)
  unfolding after_attempt
  falls_back-after_attempt rest (answered a) cache d f h = refl
  falls_back-after_attempt rest (crashed e) cache d f h = refl
  falls_back-after_attempt rest (provider_failed e) cache d f h = rw (d, f) h

  strict-after_attempt :
      (rest : ProviderCache → Result A × ProviderCache) (o : Outcome A) (cache : ProviderCache)
      → call.disable_fallback || not cfg.fallback_enabled ≡ true
      → (after_attempt cfg call rest (o, cache)).0 ≡ strict_result call.disable_fallback o
  unfolding after_attempt
  strict-after_attempt rest (answered a) cache h = refl
  strict-after_attempt rest (crashed e) cache h = refl
  strict-after_attempt rest (provider_failed e) cache h = elim (Bool-cases call.disable_fallback) [
    | inl disabled ↦ rw disabled refl
    | inr on ↦ elim (Bool-cases cfg.fallback_enabled) [
      | inl enabled ↦ absurd (ground arith)
      | inr off ↦ rw (on, off) refl
    ]
  ]

  -- Whether the loop stops to deal with a provider: its key cannot be read, it has one, or it is
  -- available.
  abbrev pub is_tried_with : Result (Option String) → Provider → Bool
  is_tried_with (err e) p = true
  is_tried_with (ok user_key) p = is_usable cfg call user_key p

  abbrev pub is_tried : Provider → Bool
  is_tried p = is_tried_with (resolve_user_key call.stored_key p) p

  -- What the call gets at a provider: what the look-up of the user's key raises, or what the
  -- provider does on the client that its key or the system's makes.
  abbrev pub met_with : Result (Option String) → Provider → Outcome A
  met_with (err e) p = crashed e
  met_with (ok user_key) p = answer_with cfg call user_key p

  abbrev pub answer : Provider → Outcome A
  answer p = met_with (resolve_user_key call.stored_key p) p

  try_provider_falls_back :
      (rest : ProviderCache → Result A × ProviderCache) (key : Result (Option String))
      (p : Provider) (cache : ProviderCache) {r : Result A}
      → IsClean cache
      → call.disable_fallback ≡ false
      → cfg.fallback_enabled ≡ true
      → ((k : ProviderCache) → IsClean k → (rest k).0 ≡ r)
      → (try_provider cfg call rest key p cache).0 ≡ (
          if is_tried_with key p && replies (met_with key p) then result_of (met_with key p) else r)
  unfolding try_provider
  try_provider_falls_back rest (err e) p cache c d f h = refl
  try_provider_falls_back rest (ok user_key) p cache {r} c d f h =
      elim (Bool-cases (is_usable cfg call user_key p)) [
        | inl usable ↦
            let (same_outcome, clean) = attempt_lem cfg call user_key p cache c in
            rw usable (
              falls_back-after_attempt rest _ _ d f (h _ clean)
              ∙ ap (λ o. if replies o then result_of o else r) same_outcome)
        | inr skipped ↦ rw skipped (h cache c)
      ]

  try_provider_strict :
      (rest : ProviderCache → Result A × ProviderCache) (key : Result (Option String))
      (p : Provider) (cache : ProviderCache) {r : Result A}
      → IsClean cache
      → call.disable_fallback || not cfg.fallback_enabled ≡ true
      → (rest cache).0 ≡ r
      → (try_provider cfg call rest key p cache).0
        ≡ (if is_tried_with key p then strict_result call.disable_fallback (met_with key p) else r)
  unfolding try_provider
  try_provider_strict rest (err e) p cache c s h = refl
  try_provider_strict rest (ok user_key) p cache c s h =
      elim (Bool-cases (is_usable cfg call user_key p)) [
        | inl usable ↦ rw usable (
            strict-after_attempt rest _ _ s
            ∙ ap (strict_result call.disable_fallback) (attempt_lem cfg call user_key p cache c).0)
        | inr skipped ↦ rw skipped h
      ]

  try_providers_falls_back :
      (ps : List Provider) (cache : ProviderCache)
      → IsClean cache
      → call.disable_fallback ≡ false
      → cfg.fallback_enabled ≡ true
      → (try_providers cfg call ps cache).0
        ≡ or_all_failed
            (λ p. result_of (answer p))
            (find (λ p. is_tried p && replies (answer p)) ps)
  unfolding try_providers
  try_providers_falls_back [] cache c d f = refl
  try_providers_falls_back (p ∷ ps) cache c d f =
      try_provider_falls_back (try_providers cfg call ps) (resolve_user_key call.stored_key p) p
        cache c d f (λ k clean. try_providers_falls_back ps k clean d f)
      ∙ or_all_failed-if (λ q. result_of (answer q)) (is_tried p && replies (answer p)) p _

  try_providers_strict :
      (ps : List Provider) (cache : ProviderCache)
      → IsClean cache
      → call.disable_fallback || not cfg.fallback_enabled ≡ true
      → (try_providers cfg call ps cache).0
        ≡ or_all_failed (λ p. strict_result call.disable_fallback (answer p)) (find is_tried ps)
  unfolding try_providers
  try_providers_strict [] cache c h = refl
  try_providers_strict (p ∷ ps) cache c h =
      try_provider_strict (try_providers cfg call ps) (resolve_user_key call.stored_key p) p cache c
        h (try_providers_strict ps cache c h)
      ∙ or_all_failed-if (λ q. strict_result call.disable_fallback (answer q)) (is_tried p) p _

  -- With the fallback allowed by the request and the configuration and a cache without clients of
  -- users' keys, a call ends at the first candidate that does not fail with an error that the
  -- router catches, among those that have a key, are available, or whose key's look-up raises
  -- anything but a failure of the database. It returns that candidate's answer or raises what was
  -- raised there; where there is no such candidate, all providers failed.
  pub execute_with_fallback_falls_back :
      (preferred : Option Provider) (cache : ProviderCache)
      → IsClean cache
      → call.disable_fallback ≡ false
      → cfg.fallback_enabled ≡ true
      → (execute_with_fallback cfg call preferred cache).0
        ≡ or_all_failed
            (λ p. result_of (answer p))
            (find (λ p. is_tried p && replies (answer p)) (candidate_order cfg preferred))
  unfolding execute_with_fallback
  execute_with_fallback_falls_back preferred =
      try_providers_falls_back (candidate_order cfg preferred)

  -- With the fallback switched off by the request or the configuration, a call ends at the first
  -- candidate that is not skipped, even if it fails.
  pub execute_with_fallback_strict :
      (preferred : Option Provider) (cache : ProviderCache)
      → IsClean cache
      → call.disable_fallback || not cfg.fallback_enabled ≡ true
      → (execute_with_fallback cfg call preferred cache).0
        ≡ or_all_failed
            (λ p. strict_result call.disable_fallback (answer p))
            (find is_tried (candidate_order cfg preferred))
  unfolding execute_with_fallback
  execute_with_fallback_strict preferred = try_providers_strict (candidate_order cfg preferred)
