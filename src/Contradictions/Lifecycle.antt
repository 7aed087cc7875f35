-- ===== src/Contradictions/Lifecycle.antt =====
-- services/contradiction.py: what stays true of the rows while findings come in and users resolve,
-- dismiss and reopen.
use wikimind.Prelude.{
  ℕ, String, ◌==◌, eq_sym, ◌≡◌, refl, Bool, true, false, not, ◌&&◌, Option, none, some, List, [],
  ◌∷◌, ◌++◌, find, any, all, is_some, All, All-append, All-update_row, IsDistinct,
  IsDistinct-append, IsDistinct-update_row, get_row, update_row, Result, ok, arith, Option-cases,
  Bool-cases, inl, inr, if◌then◌else◌,
}
use wikimind.Contradictions.{
  Contradiction, ContradictionStatus, Db, Text, Finding, is_active, owned_by, set_status,
  resolve_contradiction, is_duplicate, insert_contradiction, new_contradiction, create_from_finding,
}

pub data Call : Type 0 where
  detect : (new_id : String) → ℕ → Finding → String → Call
  resolve : ℕ → String → String → ContradictionStatus → Option String → Call

unfoldable pub perform : Text → Call → Db → Db
perform text (detect new_id now finding user_id) db =
    (create_from_finding text new_id now finding user_id db).1
perform text (resolve now contradiction_id user_id status resolution) db =
    (resolve_contradiction now contradiction_id user_id status resolution db).1

unfoldable pub perform_all : Text → List Call → Db → Db
unfolding perform
perform_all text [] db = db
perform_all text (c ∷ cs) db = perform_all text cs (perform text c db)

-- A row that is not active says when its owner settled it, and an active one says nothing.
unfoldable pub is_settled : Contradiction → Bool
is_settled c =
    if is_active c.status
    then not (is_some c.resolved_at) && not (is_some c.resolved_by)
    else is_some c.resolved_at
      && elim c.resolved_by [ none ↦ false | some user_id ↦ user_id == c.user_id ]

is_settled-set_status :
    (now : ℕ) (contradiction_id user_id : String) (status : ContradictionStatus)
    (resolution : Option String) (rows : List Contradiction) (c r : Contradiction)
    → owned_by user_id (get_row Contradiction.id contradiction_id rows) ≡ some c
    → get_row Contradiction.id contradiction_id rows ≡ some r
    → is_settled (set_status now user_id status resolution r) ≡ true
unfolding is_settled set_status owned_by
is_settled-set_status now contradiction_id user_id status resolution rows c r owned found =
    ground (arith, eq_sym r.user_id user_id)

-- The statuses of `resolve` that settle a row.
abbrev pub settles : Call → Bool
settles (detect new_id now finding user_id) = true
settles (resolve now contradiction_id user_id status resolution) = not (is_active status)

-- Two active rows of one user with one fingerprint.
unfoldable pub both_active : Contradiction → Contradiction → Bool
unfolding is_duplicate
both_active a b = is_active a.status && is_duplicate a.user_id a.claim_fingerprint b

both_active_sym : (a b : Contradiction) → both_active a b ≡ both_active b a
unfolding both_active is_duplicate
both_active_sym a b =
    ground (arith, eq_sym a.user_id b.user_id, eq_sym a.claim_fingerprint b.claim_fingerprint)

not_both_active :
    (a : Contradiction) (rows : List Contradiction)
    → find (is_duplicate a.user_id a.claim_fingerprint) rows ≡ none
    → any (both_active a) rows ≡ false
unfolding both_active
not_both_active a [] h = refl
not_both_active a (r ∷ rows) h = ground (arith, not_both_active a rows)

inserted :
    (P : List Contradiction → Type 0) (new : Contradiction) (db : Db)
    → P db.contradictions
    → P (db.contradictions ++ (new ∷ []))
    → P (insert_contradiction new db).1.contradictions
unfolding insert_contradiction
inserted P new db kept added =
    elim (Bool-cases (is_some (get_row Contradiction.id new.id db.contradictions))) [
      | inl taken ↦ rw (taken, insert_contradiction) kept
      | inr fresh ↦ rw (fresh, insert_contradiction) added
    ]

found_or_inserted :
    (P : List Contradiction → Type 0) (new : Contradiction) (db : Db) (o : Option Contradiction)
    → P db.contradictions
    → (o ≡ none → P (db.contradictions ++ (new ∷ [])))
    → P
        (elim o as (λ _. Result Contradiction × Db) [
          | some existing ↦ (ok existing, db)
          | none ↦ insert_contradiction new db
        ]).1.contradictions
found_or_inserted P new db none kept added = inserted P new db kept (added refl)
found_or_inserted P new db (some existing) kept added = kept

-- What a finding leaves: the rows as they were, or a new row at their end.
detected :
    (P : List Contradiction → Type 0) (text : Text) (new_id : String) (now : ℕ) (finding : Finding)
    (user_id : String) (db : Db)
    → let new = new_contradiction text new_id now finding user_id in
      P db.contradictions
      → (find (is_duplicate user_id new.claim_fingerprint) db.contradictions ≡ none
          → P (db.contradictions ++ (new ∷ [])))
      → P (create_from_finding text new_id now finding user_id db).1.contradictions
unfolding create_from_finding insert_contradiction
detected P text new_id now finding user_id db kept added =
    let new = new_contradiction text new_id now finding user_id in
    found_or_inserted P new db (find (is_duplicate user_id new.claim_fingerprint) db.contradictions)
      kept added

-- What a user's call leaves: the rows as they were, or the owner's row with its new status.
settled :
    (P : List Contradiction → Type 0) (now : ℕ) (contradiction_id user_id : String)
    (status : ContradictionStatus) (resolution : Option String) (db : Db)
    → P db.contradictions
    → ((c : Contradiction)
        → owned_by user_id (get_row Contradiction.id contradiction_id db.contradictions) ≡ some c
        → P (
            update_row Contradiction.id contradiction_id
              (set_status now user_id status resolution)
              db.contradictions))
    → P (resolve_contradiction now contradiction_id user_id status resolution db).1.contradictions
unfolding resolve_contradiction
settled P now contradiction_id user_id status resolution db kept changed =
    elim (Option-cases
      (owned_by user_id (get_row Contradiction.id contradiction_id db.contradictions))) [
        | inl missing ↦ rw (missing, resolve_contradiction) kept
        | inr (c, owned) ↦ rw (owned, resolve_contradiction) (changed c owned)
      ]

perform-is_settled :
    (text : Text) (c : Call) (db : Db)
    → All (λ r. is_settled r ≡ true) db.contradictions
    → All (λ r. is_settled r ≡ true) (perform text c db).contradictions
unfolding perform create_from_finding resolve_contradiction
perform-is_settled text (detect new_id now finding user_id) db h =
    detected (All (λ r. is_settled r ≡ true)) text new_id now finding user_id db h (λ absent.
      All-append (λ r. is_settled r ≡ true) db.contradictions _ h
        (unfold is_settled new_contradiction in (refl, tt)))
perform-is_settled text (resolve now contradiction_id user_id status resolution) db h =
    settled (All (λ r. is_settled r ≡ true)) now contradiction_id user_id status resolution db h
      (λ c owned.
        All-update_row Contradiction.id (λ r. is_settled r ≡ true) contradiction_id
          (set_status now user_id status resolution) db.contradictions
          (λ r found kept.
            is_settled-set_status now contradiction_id user_id status resolution db.contradictions c
              r owned found)
          h)

-- Through any findings and any calls of any users, a row that is resolved or dismissed carries a
-- time and its owner as the one who settled it, and an active row carries neither.
pub is_settled-perform_all :
    (text : Text) (calls : List Call) (db : Db)
    → All (λ r. is_settled r ≡ true) db.contradictions
    → All (λ r. is_settled r ≡ true) (perform_all text calls db).contradictions
unfolding perform_all
is_settled-perform_all text [] db h = h
is_settled-perform_all text (c ∷ cs) db h =
    is_settled-perform_all text cs (perform text c db) (perform-is_settled text c db h)

not_active_right :
    (now : ℕ) (user_id : String) (status : ContradictionStatus) (resolution : Option String)
    (a b : Contradiction)
    → is_active status ≡ false
    → both_active a (set_status now user_id status resolution b) ≡ false
unfolding both_active is_duplicate set_status
not_active_right now user_id status resolution a b settled = ground arith

not_active_left :
    (now : ℕ) (user_id : String) (status : ContradictionStatus) (resolution : Option String)
    (a b : Contradiction)
    → is_active status ≡ false
    → both_active (set_status now user_id status resolution a) b ≡ false
unfolding both_active is_duplicate set_status
not_active_left now user_id status resolution a b settled = ground arith

perform-both_active :
    (text : Text) (c : Call) (db : Db)
    → settles c ≡ true
    → IsDistinct both_active db.contradictions
    → IsDistinct both_active (perform text c db).contradictions
unfolding perform create_from_finding resolve_contradiction
perform-both_active text (detect new_id now finding user_id) db s h =
    detected (IsDistinct both_active) text new_id now finding user_id db h (λ absent.
      IsDistinct-append both_active db.contradictions _ both_active_sym
        (not_both_active _ db.contradictions (unfold new_contradiction in absent)) h)
perform-both_active text (resolve now contradiction_id user_id status resolution) db s h =
    settled (IsDistinct both_active) now contradiction_id user_id status resolution db h (λ c owned.
      IsDistinct-update_row Contradiction.id both_active (set_status now user_id status resolution)
        contradiction_id db.contradictions
        (λ a b. not_active_right now user_id status resolution a b (ground arith))
        (λ a b. not_active_left now user_id status resolution a b (ground arith)) h)

-- As long as no call sets a status back to active, a user has at most one active row for a
-- fingerprint, whatever findings come in.
pub one_active :
    (text : Text) (calls : List Call) (db : Db)
    → all settles calls ≡ true
    → IsDistinct both_active db.contradictions
    → IsDistinct both_active (perform_all text calls db).contradictions
unfolding perform_all
one_active text [] db s h = h
one_active text (c ∷ cs) db s h =
    one_active text cs (perform text c db) (ground arith)
      (perform-both_active text c db (ground arith) h)
