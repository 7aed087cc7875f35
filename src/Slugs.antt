-- ===== src/Slugs.antt =====
-- slug.py: the slug of a new article, unique among the user's articles.
pub mod Candidates
pub mod Unique
mod Examples
use wikimind.Prelude.{
  ℕ, zero, suc, String, ◌==◌, ◌+++◌, decimal, Bool, true, false, ◌&&◌, Option, none, some, List, [],
  ◌∷◌, any, if◌then◌else◌, Result, ok, err, value_error,
}

-- The columns of an article that the search for a slug reads.
pub record Article : Type 0 where
  pub slug : String
  pub user_id : String

-- The `slugify` package, with the maximal length, and Python's `repr` of a text.
pub record Text : Type 0 where
  pub slugify : String → ℕ → String
  pub repr : String → String

-- Some article of the user has the slug.
unfoldable pub is_taken : String → List Article → String → Bool
is_taken user_id articles slug = any (λ a. a.slug == slug && a.user_id == user_id) articles

-- `f"{base}-{suffix}"`
unfoldable pub suffixed : String → ℕ → String
suffixed base suffix = base +++ ("-" +++ decimal suffix)

-- The loop: a candidate is tried per attempt, and the next one has the next suffix.
unfoldable pub try_candidates : (String → Bool) → String → ℕ → ℕ → String → Option String
unfolding suffixed
try_candidates taken base zero suffix candidate = none
try_candidates taken base (suc attempts) suffix candidate =
    let later = try_candidates taken base attempts (suc suffix) (suffixed base suffix) in
    if taken candidate then later else some candidate

unfoldable pub attempts_or_default : Option ℕ → ℕ → ℕ
attempts_or_default none slug_max_attempts = slug_max_attempts
attempts_or_default (some n) slug_max_attempts = n

unfoldable pub base_slug : Text → String → String → ℕ → String
base_slug text title prefix max_length = prefix +++ text.slugify title max_length

-- `slug_max_attempts` is the setting that stands for an absent `max_attempts`.
unfoldable pub generate_unique_slug :
    Text
    → (slug_max_attempts : ℕ) → String
    → List Article
    → (user_id prefix : String) → (max_length : ℕ) → Option ℕ
    → Result String
unfolding try_candidates is_taken attempts_or_default base_slug
generate_unique_slug text slug_max_attempts title articles user_id prefix max_length max_attempts =
    let attempts = attempts_or_default max_attempts slug_max_attempts in
    let base = base_slug text title prefix max_length in
    elim (try_candidates (is_taken user_id articles) base attempts 2 base) [
      | some slug ↦ ok slug
      | none ↦ err (
          value_error (
            "Could not generate unique slug for "
            +++ (text.repr title +++ (" after " +++ (decimal attempts +++ " attempts")))))
    ]
