-- ===== src/ApiKeys/Mask.antt =====
-- services/api_keys.py `mask_api_key`
use Prim.Native.String.{[], ◌∷◌}
use wikimind.Prelude.{prefix, ℕ, zero, suc, ◌-◌, String, ◌+++◌, leb, if◌then◌else◌, ◌≡◌, refl}

size : String → ℕ
size [] = 0
size (c ∷ s) = suc (size s)

suffix_from : ℕ → String → String
suffix_from zero s = s
suffix_from (suc n) [] = []
suffix_from (suc n) (c ∷ s) = suffix_from n s

pub mask_api_key : String → String
unfolding size prefix suffix_from
mask_api_key key =
    if leb (size key) 8 then "****" else prefix 4 key +++ "..." +++ suffix_from (size key - 4) key

masked_key : mask_api_key "sk-proj-abcdwxyz" ≡ "sk-p...wxyz"
unfolding mask_api_key
masked_key = refl

masked_short_key : mask_api_key "sk-12345" ≡ "****"
unfolding mask_api_key
masked_short_key = refl
