-- ===== src/Contradictions.antt =====
-- services/contradiction.py and the contradiction table of models/tables/lint.py: contradictions
-- between claims of two articles, from the linter's findings to their resolution. The id of a new
-- row and the time of a call are arguments; a commit is the state that a call leaves.
pub mod Fingerprint
pub mod Lifecycle
mod Examples
use wikimind.Prelude.{
  sort_by, ℕ, zero, suc, String, ◌==◌, ◌+++◌, sorted_pair, Bool, true, false, ◌&&◌, Option, none,
  some, List, [], ◌∷◌, ◌++◌, map, leb, filter, find, is_some, if◌then◌else◌, get_row, update_row,
  Result, ok, err, not_found, integrity_error, Action,
}

pub data ContradictionStatus : Type 0 where
  active : ContradictionStatus
  resolved : ContradictionStatus
  dismissed : ContradictionStatus

pub record Article : Type 0 where
  pub id : String
  pub title : String

pub record Contradiction : Type 0 where
  pub id : String
  pub claim_a : String
  pub claim_b : String
  pub article_a_id : String
  pub article_b_id : String
  pub source_finding_id : Option String
  pub claim_fingerprint : String
  pub detected_at : ℕ
  pub status : ContradictionStatus
  pub resolution : Option String
  pub resolved_at : Option ℕ
  pub resolved_by : Option String
  pub user_id : String

pub record Db : Type 0 where
  pub articles : List Article
  pub contradictions : List Contradiction

-- The row with the titles of its articles.
pub record ContradictionResponse : Type 0 where
  pub contradiction : Contradiction
  pub article_a_title : Option String
  pub article_b_title : Option String

-- `claim.strip().lower()`, and SHA-256 as a hexadecimal text.
pub record Text : Type 0 where
  pub strip_lower : String → String
  pub sha256 : String → String

abbrev pub is_active : ContradictionStatus → Bool
is_active active = true
is_active resolved = false
is_active dismissed = false

same_status : ContradictionStatus → ContradictionStatus → Bool
same_status active active = true
same_status resolved resolved = true
same_status dismissed dismissed = true
same_status _ _ = false

title_of : Db → String → Option String
title_of db article_id = elim (get_row Article.id article_id db.articles) [
  | none ↦ none
  | some article ↦ some article.title
]

-- `_to_response`
to_response : Db → Contradiction → ContradictionResponse
unfolding title_of
to_response db c = record {
  contradiction = c;
  article_a_title = title_of db c.article_a_id;
  article_b_title = title_of db c.article_b_id;
}

-- `order_by(detected_at.desc())`, rows of one time in the table's order.
newest_first : List Contradiction → List Contradiction
newest_first = sort_by (λ c d. leb d.detected_at c.detected_at)

-- `.offset(n)` and `.limit(n)`
skip : ℕ → List Contradiction → List Contradiction
skip zero cs = cs
skip (suc n) [] = []
skip (suc n) (c ∷ cs) = skip n cs

first : ℕ → List Contradiction → List Contradiction
first zero cs = []
first (suc n) [] = []
first (suc n) (c ∷ cs) = c ∷ first n cs

is_listed : String → Option ContradictionStatus → Contradiction → Bool
unfolding same_status
is_listed user_id none c = c.user_id == user_id
is_listed user_id (some status) c = c.user_id == user_id && same_status c.status status

pub list_contradictions :
    String → Option ContradictionStatus → (limit offset : ℕ) → Db → List ContradictionResponse
unfolding newest_first is_listed skip first to_response
list_contradictions user_id status limit offset db =
    map (to_response db) (
      first limit
        (skip offset (newest_first (filter (is_listed user_id status) db.contradictions))))

-- The row of an id, if it belongs to the user.
owned_by : String → Option Contradiction → Option Contradiction
owned_by user_id none = none
owned_by user_id (some c) = if c.user_id == user_id then some c else none

pub get_contradiction : String → String → Db → Result ContradictionResponse
unfolding owned_by to_response
get_contradiction contradiction_id user_id db =
    elim (owned_by user_id (get_row Contradiction.id contradiction_id db.contradictions)) [
      | none ↦ err (not_found "Contradiction not found")
      | some c ↦ ok (to_response db c)
    ]

-- The new columns of a row whose status a user sets.
unfoldable pub set_status :
    ℕ → String → ContradictionStatus → Option String → Contradiction → Contradiction
set_status now user_id active resolution c = record c {
  status = active;
  resolution = resolution;
  resolved_at = none;
  resolved_by = none;
}
set_status now user_id new_status resolution c = record c {
  status = new_status;
  resolution = resolution;
  resolved_at = some now;
  resolved_by = some user_id;
}

pub resolve_contradiction :
    ℕ → String → String → ContradictionStatus → Option String → Action Db ContradictionResponse
unfolding owned_by set_status to_response
resolve_contradiction now contradiction_id user_id new_status resolution db =
    elim (owned_by user_id (get_row Contradiction.id contradiction_id db.contradictions)) [
      | none ↦ (err (not_found "Contradiction not found"), db)
      | some c ↦ (
        ok (to_response db (set_status now user_id new_status resolution c)),
        record db {
          contradictions =
              update_row Contradiction.id contradiction_id
                (set_status now user_id new_status resolution) db.contradictions;
        },
      )
    ]

-- `_claim_fingerprint`
pub claim_fingerprint : Text → (article_a_id article_b_id claim_a claim_b : String) → String
claim_fingerprint text article_a_id article_b_id claim_a claim_b =
    let ids = sorted_pair article_a_id article_b_id in
    let claims = sorted_pair (text.strip_lower claim_a) (text.strip_lower claim_b) in
    text.sha256 (ids.0 +++ ("|" +++ (ids.1 +++ ("|" +++ (claims.0 +++ ("|" +++ claims.1))))))

-- The user's active row with a fingerprint.
unfoldable pub is_duplicate : String → String → Contradiction → Bool
is_duplicate user_id fingerprint c =
    c.user_id == user_id && (is_active c.status && c.claim_fingerprint == fingerprint)

-- A linter's finding: the two claims with their articles, and the finding's row.
pub record Finding : Type 0 where
  pub claim_a : String
  pub claim_b : String
  pub article_a_id : String
  pub article_b_id : String
  pub source_finding_id : Option String

pub new_contradiction : Text → String → ℕ → Finding → String → Contradiction
unfolding claim_fingerprint
new_contradiction text new_id now finding user_id = record {
  id = new_id;
  claim_a = finding.claim_a;
  claim_b = finding.claim_b;
  article_a_id = finding.article_a_id;
  article_b_id = finding.article_b_id;
  source_finding_id = finding.source_finding_id;
  claim_fingerprint =
      claim_fingerprint text finding.article_a_id finding.article_b_id finding.claim_a
        finding.claim_b;
  detected_at = now;
  status = active;
  resolution = none;
  resolved_at = none;
  resolved_by = none;
  user_id = user_id;
}

-- The row that the flush inserts.
pub insert_contradiction : Contradiction → Action Db Contradiction
insert_contradiction new db =
    if is_some (get_row Contradiction.id new.id db.contradictions)
    then (err integrity_error, db)
    else (ok new, record db { contradictions = db.contradictions ++ (new ∷ []) })

pub create_from_finding : Text → (new_id : String) → ℕ → Finding → String → Action Db Contradiction
unfolding is_duplicate new_contradiction insert_contradiction
create_from_finding text new_id now finding user_id db =
    let new = new_contradiction text new_id now finding user_id in
    elim (find (is_duplicate user_id new.claim_fingerprint) db.contradictions) [
      | some existing ↦ (ok existing, db)
      | none ↦ insert_contradiction new db
    ]
