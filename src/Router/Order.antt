-- ===== src/Router/Order.antt =====
-- engine/llm_router.py `_get_provider_order`: the order of the candidates.
use wikimind.Prelude.{
  ◌≡◌, refl, ◌∙◌, false, Option, none, some, List, [], ◌∷◌, ◌++◌, any-append, arith, Bool-cases,
  inl, inr,
}
use wikimind.Router.{
  Provider, anthropic, openai, google, Config, same, among, all_providers, is_config_enabled,
  add_provider, add_enabled, preferred_first, get_provider_order, candidate_order,
}

same_sym : (p q : Provider) → same p q ≡ same q p
unfolding same
same_sym p q = ground arith

-- No provider stands twice in the list.
abbrev pub NoRepeats : List Provider → Type 0
NoRepeats [] = Unit
NoRepeats (p ∷ ps) = (among ps p ≡ false) × NoRepeats ps

NoRepeats-append :
    (ps : List Provider) (q : Provider)
    → NoRepeats ps
    → among ps q ≡ false
    → NoRepeats (ps ++ (q ∷ []))
unfolding among
NoRepeats-append [] q h f = (refl, tt)
NoRepeats-append (p ∷ ps) q h f = (
  ground (arith, h.0, same_sym p q, any-append (same p) ps (q ∷ [])),
  NoRepeats-append ps q h.1 (ground arith),
)

add_provider-NoRepeats :
    (ps : List Provider) (q : Provider) → NoRepeats ps → NoRepeats (add_provider ps q)
unfolding add_provider
add_provider-NoRepeats ps q h = elim (Bool-cases (among ps q)) [
  | inl there ↦ rw there h
  | inr absent ↦ rw absent (NoRepeats-append ps q h absent)
]

add_enabled-NoRepeats :
    (cfg : Config) (ps order : List Provider)
    → NoRepeats order
    → NoRepeats (add_enabled cfg ps order)
unfolding add_enabled
add_enabled-NoRepeats cfg [] order h = h
add_enabled-NoRepeats cfg (p ∷ ps) order h = elim (Bool-cases (is_config_enabled cfg p)) [
  | inl on ↦ rw on (add_enabled-NoRepeats cfg ps _ (add_provider-NoRepeats order p h))
  | inr off ↦ rw off (add_enabled-NoRepeats cfg ps order h)
]

preferred_first-NoRepeats : (preferred : Option Provider) → NoRepeats (preferred_first preferred)
unfolding preferred_first among
preferred_first-NoRepeats none = tt
preferred_first-NoRepeats (some p) = (refl, tt)

-- The first provider of a list, or another where the list is empty.
abbrev pub first_or : Provider → List Provider → Provider
first_or q [] = q
first_or q (p ∷ ps) = p

first_or-add_provider :
    (order : List Provider) (p q : Provider) → first_or q (add_provider order p) ≡ first_or p order
unfolding add_provider among
first_or-add_provider [] p q = refl
first_or-add_provider (o ∷ os) p q = ground arith

first_or-add_enabled :
    (cfg : Config) (ps : List Provider) (o q : Provider) (os : List Provider)
    → first_or q (add_enabled cfg ps (o ∷ os)) ≡ o
unfolding add_enabled add_provider
first_or-add_enabled cfg [] o q os = refl
first_or-add_enabled cfg (p ∷ ps) o q os = elim (Bool-cases (is_config_enabled cfg p)) [
  | inl on ↦ rw on (elim (Bool-cases (among (o ∷ os) p)) [
    | inl there ↦ rw (there, add_provider) (first_or-add_enabled cfg ps o q os)
    | inr absent ↦ rw (absent, add_provider) (first_or-add_enabled cfg ps o q (os ++ (p ∷ [])))
  ])
  | inr off ↦ rw off (first_or-add_enabled cfg ps o q os)
]

abbrev pub preferred_or : Provider → Option Provider → Provider
preferred_or default none = default
preferred_or default (some p) = p

module _ (cfg : Config) where
  get_provider_order-NoRepeats :
      (preferred : Option Provider) → NoRepeats (get_provider_order cfg preferred)
  unfolding get_provider_order
  get_provider_order-NoRepeats preferred = add_enabled-NoRepeats cfg all_providers _ (
      add_provider-NoRepeats (preferred_first preferred) cfg.default_provider
        (preferred_first-NoRepeats preferred))

  first_or-get_provider_order :
      (preferred : Option Provider) (q : Provider)
      → first_or q (get_provider_order cfg preferred) ≡ preferred_or cfg.default_provider preferred
  unfolding get_provider_order preferred_first
  first_or-get_provider_order none q =
      first_or-add_enabled cfg all_providers cfg.default_provider q []
  first_or-get_provider_order (some p) q = elim (Bool-cases (among (p ∷ []) cfg.default_provider)) [
    | inl there ↦ rw (there, add_provider) (first_or-add_enabled cfg all_providers p q [])
    | inr absent ↦
        rw (absent, add_provider)
          (first_or-add_enabled cfg all_providers p q (cfg.default_provider ∷ []))
  ]

  -- Each candidate is tried at most once, and the preferred provider first; the default one where
  -- none is preferred.
  pub candidate_order_lem :
      (preferred : Option Provider) (q : Provider)
      → NoRepeats (candidate_order cfg preferred)
        × (first_or q (candidate_order cfg preferred) ≡ preferred_or cfg.default_provider preferred)
  unfolding candidate_order
  candidate_order_lem preferred q = (
    add_provider-NoRepeats _ google (
        add_provider-NoRepeats _ openai
          (add_provider-NoRepeats _ anthropic (get_provider_order-NoRepeats preferred))),
    first_or-add_provider
          (add_provider (add_provider (get_provider_order cfg preferred) anthropic) openai) google q
        ∙ first_or-add_provider (add_provider (get_provider_order cfg preferred) anthropic) openai
            google
        ∙ first_or-add_provider (get_provider_order cfg preferred) anthropic openai
        ∙ first_or-get_provider_order preferred anthropic,
  )
