-- ===== src/Slugs/Candidates.antt =====
-- slug.py: the candidates that the loop tries are all different.

use Prim.Native.String.append
use wikimind.Prelude.{
  ℕ, zero, suc, ◌≤◌, String, ne→eq_false, ◌+++◌, decimal, decimal_injective, ◌≡◌, ◌≢◌, refl, sym,
  ◌∙◌, Bool, true, false, List, [], ◌∷◌, contains, IsNodup, length, All, arith, none, some,
}
use text.Mathlib.TextLemmas.{append_cancel_left, append-nil, cons≢nil}
use wikimind.Slugs.{suffixed, try_candidates}

-- What the loop tries in so many attempts, if every one fails.
unfoldable pub tried : String → ℕ → ℕ → String → List String
tried base zero suffix candidate = []
tried base (suc attempts) suffix candidate =
    candidate ∷ tried base attempts (suc suffix) (suffixed base suffix)

suffixed_injective : (base : String) (j k : ℕ) → suffixed base j ≡ suffixed base k → j ≡ k
unfolding suffixed
suffixed_injective base j k e = decimal_injective j k (
    append_cancel_left "-" (decimal j) (decimal k)
      (append_cancel_left base ("-" +++ decimal j) ("-" +++ decimal k) e))

pub base-ne-suffixed : (base : String) (k : ℕ) → base ≢ suffixed base k
unfolding suffixed
base-ne-suffixed base k e = cons≢nil (
    sym (append.cons _ _ (decimal k))
    ∙ append_cancel_left base ("-" +++ decimal k) "" (sym e ∙ sym (append-nil base)))

contains-tried :
    (base c : String) (attempts suffix : ℕ)
    → ((k : ℕ) → suffix ≤ k → c ≢ suffixed base k)
    → contains (tried base attempts (suc suffix) (suffixed base suffix)) c ≡ false
unfolding tried
contains-tried base c zero suffix new = refl
contains-tried base c (suc attempts) suffix new =
    rw (ne→eq_false c (suffixed base suffix) (new suffix (omega arith)))
      (contains-tried base c attempts (suc suffix) (λ k h. new k (omega (arith, h))))

pub IsNodup-tried :
    (base candidate : String) (attempts suffix : ℕ)
    → ((k : ℕ) → suffix ≤ k → candidate ≢ suffixed base k)
    → IsNodup (tried base attempts suffix candidate)
unfolding tried
IsNodup-tried base candidate zero suffix new = tt
IsNodup-tried base candidate (suc attempts) suffix new = (
  contains-tried base candidate attempts suffix new,
  IsNodup-tried base (suffixed base suffix) attempts (suc suffix)
      (λ k h e. absurd (omega (arith, suffixed_injective base suffix k e, h))),
)

pub length-tried :
    (base candidate : String) (attempts suffix : ℕ)
    → length (tried base attempts suffix candidate) ≡ attempts
unfolding tried
length-tried base candidate zero suffix = refl
length-tried base candidate (suc attempts) suffix =
    omega (arith, length-tried base (suffixed base suffix) attempts (suc suffix))

-- A loop without a result has found every candidate taken.
pub All-tried :
    (taken : String → Bool) (base candidate : String) (attempts suffix : ℕ)
    → try_candidates taken base attempts suffix candidate ≡ none
    → All (λ c. taken c ≡ true) (tried base attempts suffix candidate)
unfolding tried try_candidates
All-tried taken base candidate zero suffix h = tt
All-tried taken base candidate (suc attempts) suffix h =
    (ground arith, All-tried taken base (suffixed base suffix) attempts (suc suffix) (ground arith))

-- A result is a candidate that is not taken.
pub untaken :
    (taken : String → Bool) (base candidate slug : String) (attempts suffix : ℕ)
    → try_candidates taken base attempts suffix candidate ≡ some slug
    → taken slug ≡ false
unfolding try_candidates
untaken taken base candidate slug zero suffix h = absurd (ground arith)
untaken taken base candidate slug (suc attempts) suffix h =
    ground (arith, untaken taken base (suffixed base suffix) slug attempts (suc suffix))
