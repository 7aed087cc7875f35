-- ===== src/Slugs/Unique.antt =====
-- slug.py: the slug that the search returns is new, and the search returns one.
use wikimind.Prelude.{
  ℕ, ◌<◌, String, ◌==◌, eq_sym, ◌≡◌, refl, Bool, true, false, List, [], ◌∷◌, map, filter, contains,
  count, length, All-map, pigeonhole, arith, Option, Option-cases, inl, inr, Result, ok, err,
  if◌then◌else◌,
}
use wikimind.Slugs.{
  Article, Text, is_taken, try_candidates, attempts_or_default, base_slug, generate_unique_slug,
}
use wikimind.Slugs.Candidates.{
  tried, IsNodup-tried, length-tried, All-tried, untaken, base-ne-suffixed,
}

-- The slugs of the user's articles.
slugs_of : String → List Article → List String
slugs_of user_id articles = map Article.slug (filter (λ a. a.user_id == user_id) articles)

contains-slugs_of :
    (user_id : String) (articles : List Article) (slug : String)
    → is_taken user_id articles slug ≡ true
    → contains (slugs_of user_id articles) slug ≡ true
unfolding is_taken slugs_of
contains-slugs_of user_id [] slug h = absurd (ground arith)
contains-slugs_of user_id (a ∷ articles) slug h =
    ground (arith, contains-slugs_of user_id articles slug, eq_sym a.slug slug)

length-slugs_of :
    (user_id : String) (articles : List Article)
    → length (slugs_of user_id articles) ≡ count (λ a. a.user_id == user_id) articles
unfolding slugs_of
length-slugs_of user_id [] = refl
length-slugs_of user_id (a ∷ articles) = ground (arith, length-slugs_of user_id articles)

-- Whether the search returned a slug that no article of the user has.
abbrev pub is_new : String → List Article → Result String → Bool
is_new user_id articles (ok slug) = if is_taken user_id articles slug then false else true
is_new user_id articles (err e) = false

-- If the user has fewer articles than the attempts that are allowed, the search for a slug returns
-- one, and no article of the user has it.
pub generate_unique_slug_lem :
    (text : Text) (slug_max_attempts : ℕ) (title : String) (articles : List Article)
    (user_id prefix : String) (max_length : ℕ) (max_attempts : Option ℕ)
    → count (λ a. a.user_id == user_id) articles
      < attempts_or_default max_attempts slug_max_attempts
    → is_new user_id articles (
        generate_unique_slug text slug_max_attempts title articles user_id prefix max_length
          max_attempts)
      ≡ true
unfolding generate_unique_slug
generate_unique_slug_lem text slug_max_attempts title articles user_id prefix max_length
      max_attempts few =
    let attempts = attempts_or_default max_attempts slug_max_attempts in
    let base = base_slug text title prefix max_length in
    let taken = is_taken user_id articles in
    elim (Option-cases (try_candidates taken base attempts 2 base)) [
      | inl failed ↦ absurd (
          omega (
            arith,
            few,
            length-slugs_of user_id articles,
            length-tried base base attempts 2,
            pigeonhole (tried base attempts 2 base) (slugs_of user_id articles)
                (IsNodup-tried base base attempts 2 (λ k h. base-ne-suffixed base k))
                (All-map (contains-slugs_of user_id articles) (tried base attempts 2 base)
                  (All-tried taken base base attempts 2 failed)),
          ))
      | inr (slug, found) ↦ ground (arith, found, untaken taken base base slug attempts 2 found)
    ]
