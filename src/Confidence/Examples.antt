-- ===== src/Confidence/Examples.antt =====
-- engine/confidence.py on concrete scores.
use wikimind.Prelude.{◌≡◌, refl, [], ◌∷◌}
use wikimind.Confidence.{aggregate_claim_confidence}

average : aggregate_claim_confidence 20 (16 ∷ 10 ∷ []) ≡ (26, 40)
unfolding aggregate_claim_confidence
average = refl
