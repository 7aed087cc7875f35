-- ===== src/Confidence.antt =====
-- engine/confidence.py: the scores of articles and claims. Floats are taken as the exact
-- fractions that they stand for: an article's base score in parts of 365000, a decayed one in parts
-- of 365000 * 3650, a claim's in parts of 20.
mod Examples
use wikimind.Prelude.{
  ℤ, pos, negsuc, ℕ, zero, suc, ◌+◌, ◌-◌, ◌*◌, String, ◌==◌, Bool, true, false, List, [], ◌∷◌,
  length, min, max, if◌then◌else◌,
}

-- `max(0, value)`
unfoldable pub max_zero : ℤ → ℕ
max_zero (pos n) = n
max_zero (negsuc n) = 0

-- `_clamp01` of a fraction of `one`; no fraction here is negative.
unfoldable pub clamp01 : ℕ → ℕ → ℕ
clamp01 one value = min one value

abbrev pub article_one : ℕ
article_one = 365000

-- 40% of `min(1.0, count / 4)`
unfoldable pub source_component : ℤ → ℕ
unfolding max_zero
source_component source_count = 36500 * min 4 (max_zero source_count)

-- 30% of `max(0.0, 1.0 - days / 365)`
unfoldable pub recency_component : ℤ → ℕ
unfolding max_zero
recency_component age_days = 300 * (365 - max_zero age_days)

-- 20% of the baseline 0.7
abbrev pub quality_component : ℕ
quality_component = 51100

-- 10% of `max(0.0, 1.0 - 0.25 * count)`
unfoldable pub contradiction_component : ℤ → ℕ
unfolding max_zero
contradiction_component contradiction_count = 9125 * (4 - max_zero contradiction_count)

unfoldable pub compute_confidence : ℤ → ℤ → ℤ → ℕ
unfolding clamp01 source_component recency_component contradiction_component
compute_confidence source_count newest_source_age_days contradiction_count = clamp01 article_one (
    source_component source_count
    + recency_component newest_source_age_days
    + quality_component
    + contradiction_component contradiction_count)

-- The decay multiplier `max(0.5, 1.0 - (days / 365) * 0.3)` in parts of 3650.
unfoldable pub decay_multiplier : ℤ → ℕ
unfolding max_zero
decay_multiplier days = max 1825 (3650 - 3 * max_zero days)

unfoldable pub apply_decay : ℕ → ℤ → ℕ
unfolding clamp01 decay_multiplier
apply_decay base days_since_reinforced =
    clamp01 (article_one * 3650) (base * decay_multiplier days_since_reinforced)

-- `_CLAIM_CONFIDENCE_BASELINES.get(level, 0.3)`
unfoldable pub claim_baseline : String → ℕ
claim_baseline level =
    if level == "sourced"
    then 16
    else if level == "mixed"
    then 10
    else if level == "inferred"
    then 6
    else if level == "opinion"
    then 4
    else 6

unfoldable pub compute_claim_confidence : (String → String) → String → ℤ → ℕ
unfolding clamp01 max_zero claim_baseline
compute_claim_confidence lower confidence_level source_count =
    clamp01 20 (claim_baseline (lower confidence_level) + min 4 (max_zero source_count))

unfoldable pub sum : List ℕ → ℕ
sum [] = 0
sum (x ∷ xs) = x + sum xs

-- The mean as a numerator and a denominator, of scores in parts of `one`.
unfoldable pub aggregate_claim_confidence : ℕ → List ℕ → ℕ × ℕ
unfolding sum clamp01
aggregate_claim_confidence one [] = (1, 2)
aggregate_claim_confidence one (x ∷ xs) =
    (clamp01 (one * length (x ∷ xs)) (sum (x ∷ xs)), one * length (x ∷ xs))
