-- ===== src/Contradictions/Fingerprint.antt =====
-- services/contradiction.py `_claim_fingerprint` and `create_from_finding`: one row for a finding,
-- in whichever order it names the articles and the claims.
use wikimind.Prelude.{
  ℕ, String, eq_refl, sorted_pair_comm, ◌≡◌, refl, Bool, true, none, some, List, [], ◌∷◌, ◌++◌,
  find, arith, Option-cases, inl, inr, if◌then◌else◌, is_ok,
}
use wikimind.Contradictions.{
  Contradiction, Db, Text, Finding, claim_fingerprint, is_duplicate, new_contradiction,
  create_from_finding,
}

-- The order in which a finding names its articles, and its claims.
unfoldable pub reordered : Bool → Bool → Finding → Finding
reordered articles claims f = record {
  claim_a = if claims then f.claim_b else f.claim_a;
  claim_b = if claims then f.claim_a else f.claim_b;
  article_a_id = if articles then f.article_b_id else f.article_a_id;
  article_b_id = if articles then f.article_a_id else f.article_b_id;
  source_finding_id = f.source_finding_id;
}

claim_fingerprint_articles :
    (text : Text) (a b c d : String)
    → claim_fingerprint text b a c d ≡ claim_fingerprint text a b c d
unfolding claim_fingerprint
claim_fingerprint_articles text a b c d = rw (claim_fingerprint, sorted_pair_comm b a) refl

claim_fingerprint_claims :
    (text : Text) (a b c d : String)
    → claim_fingerprint text a b d c ≡ claim_fingerprint text a b c d
unfolding claim_fingerprint
claim_fingerprint_claims text a b c d =
    rw (claim_fingerprint, sorted_pair_comm (text.strip_lower d) (text.strip_lower c)) refl

fingerprint_of : Text → Finding → String
fingerprint_of text f = claim_fingerprint text f.article_a_id f.article_b_id f.claim_a f.claim_b

fingerprint_of-reordered :
    (text : Text) (articles claims : Bool) (f : Finding)
    → fingerprint_of text (reordered articles claims f) ≡ fingerprint_of text f
unfolding fingerprint_of reordered
fingerprint_of-reordered text articles claims f = ground (
  arith,
  claim_fingerprint_articles text f.article_a_id f.article_b_id f.claim_a f.claim_b,
  claim_fingerprint_articles text f.article_a_id f.article_b_id f.claim_b f.claim_a,
  claim_fingerprint_claims text f.article_a_id f.article_b_id f.claim_a f.claim_b,
)

find-append :
    (user_id fingerprint : String) (rows : List Contradiction) (c : Contradiction)
    → find (is_duplicate user_id fingerprint) rows ≡ none
    → is_duplicate user_id fingerprint c ≡ true
    → find (is_duplicate user_id fingerprint) (rows ++ (c ∷ [])) ≡ some c
find-append user_id fingerprint [] c absent h = ground arith
find-append user_id fingerprint (r ∷ rows) c absent h =
    ground (arith, find-append user_id fingerprint rows c)

-- A finding that has been stored is not stored again: the same finding later, with its articles in
-- either order and its claims in either order, returns the row of the first and changes nothing.
pub create_from_finding_again :
    (text : Text) (new_id later_id : String) (now later : ℕ) (finding : Finding) (user_id : String)
    (articles claims : Bool) (db : Db)
    → let stored = create_from_finding text new_id now finding user_id db in
      is_ok stored.0 ≡ true
      → create_from_finding text later_id later (reordered articles claims finding) user_id stored.1
        ≡ stored
unfolding create_from_finding fingerprint_of
create_from_finding_again text new_id later_id now later finding user_id articles claims db fine =
    let new = new_contradiction text new_id now finding user_id in
    let same = fingerprint_of-reordered text articles claims finding in
    elim (Option-cases (find (is_duplicate user_id new.claim_fingerprint) db.contradictions)) [
      | inr (existing, found) ↦ ground (arith, found, same)
      | inl absent ↦ ground (
        arith,
        same,
        absent,
        find-append user_id new.claim_fingerprint db.contradictions new absent (
            unfold is_duplicate new_contradiction in
            ground (arith, eq_refl user_id, eq_refl new.claim_fingerprint)),
      )
    ]
