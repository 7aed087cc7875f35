-- ===== src/Contradictions/Examples.antt =====
-- One finding between two articles, found again in another order, and settled.
use wikimind.Prelude.{◌≡◌, refl, true, none, some, List, [], ◌∷◌, All, IsDistinct, get_row}
use wikimind.Contradictions.{Db, Text, Finding, resolved, create_from_finding, insert_contradiction}
use wikimind.Contradictions.Fingerprint.{reordered, create_from_finding_again}
use wikimind.Contradictions.Lifecycle.{
  Call, detect, resolve, perform_all, is_settled, both_active, is_settled-perform_all, one_active,
}

abbrev text : Text
text = record { strip_lower = λ s. s; sha256 = λ s. s }

abbrev finding : Finding
finding = record {
  claim_a = "x is fast";
  claim_b = "x is slow";
  article_a_id = "a1";
  article_b_id = "a2";
  source_finding_id = none;
}

abbrev empty : Db
empty = record { articles = []; contradictions = [] }

create_from_finding_again_example :
    create_from_finding text "c2" 9
      (reordered true true finding)
      "u1"
      (create_from_finding text "c1" 5 finding "u1" empty).1
    ≡ create_from_finding text "c1" 5 finding "u1" empty
unfolding create_from_finding insert_contradiction get_row
create_from_finding_again_example =
    create_from_finding_again text "c1" "c2" 5 9 finding "u1" true true empty refl

abbrev calls : List Call
calls =
    detect "c1" 5 finding "u1"
    ∷ resolve 6 "c1" "u1" resolved (some "x was measured")
    ∷ detect "c2" 7 finding "u1"
    ∷ []

is_settled-perform_all_example :
    All (λ r. is_settled r ≡ true) (perform_all text calls empty).contradictions
is_settled-perform_all_example = is_settled-perform_all text calls empty tt

one_active_example : IsDistinct both_active (perform_all text calls empty).contradictions
one_active_example = one_active text calls empty refl tt
