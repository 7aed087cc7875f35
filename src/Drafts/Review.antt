-- ===== src/Drafts/Review.antt =====
-- services/draft.py: a review happens once.
use wikimind.Prelude.{
  ℕ, suc, String, ◌==◌, ◌≡◌, refl, subst, sym, Bool, false, Option, none, some, List, [], ◌∷◌, ◌++◌,
  find, count, is_some, is_ok, IsDistinct, get_row, update_row, truthy, Result, ok, err, arith,
  Option-cases, Bool-cases, inl, inr, if◌then◌else◌,
}
use wikimind.Drafts.{
  Source, CompilationDraft, CompilationResult, Article, Db, Services, awaits_review,
  get_draft_for_source, create_draft, draft_of, review, guide, keep_guidance, finish_approval,
  save_reviewed, reviewed_result, approve, approve_draft, reject, reject_draft, set_draft,
}
use wikimind.Drafts.Rows.{
  same_id, IsReviewed, IsReviewed-update_row, IsReviewed-append, count-update_row,
}

-- Saving an article does not touch the drafts.
pub record KeepsDrafts (services : Services) : Type 0 where
  pub drafts_kept :
      (result : CompilationResult) (source : Source) (db : Db)
      → (services.save_article result source db).1.drafts ≡ db.drafts

pub data Call : Type 0 where
  submission : (draft_id : String) → Source → CompilationResult → List String → Call
  approval : ℕ → String → String → Option String → Call
  rejection : ℕ → String → String → Call

unfoldable pub perform : Services → Call → Db → Db
perform services (submission draft_id source result takeaways) db =
    (create_draft services draft_id source result takeaways db).1
perform services (approval now source_id user_id guidance) db =
    (approve_draft services now source_id user_id guidance db).1
perform services (rejection now source_id user_id) db = (reject_draft now source_id user_id db).1

unfoldable pub perform_all : Services → List Call → Db → Db
unfolding perform
perform_all services [] db = db
perform_all services (c ∷ cs) db = perform_all services cs (perform services c db)

review-keeps :
    (status : String) (now : ℕ) (guidance : Option String) (d : CompilationDraft)
    → (review status now guidance d).id ≡ d.id
unfolding review
review-keeps status now none d = refl
review-keeps status now (some text) d = refl

guide-keeps : (guidance : Option String) (d : CompilationDraft) → (guide guidance d).id ≡ d.id
unfolding guide
guide-keeps none d = refl
guide-keeps (some text) d = refl

-- What holds of the rows however the values of one draft change.
abbrev AnyChange : (List CompilationDraft → Type 0) → String → List CompilationDraft → Type 0
AnyChange P id rows =
    (f : CompilationDraft → CompilationDraft)
    → ((d : CompilationDraft) → (f d).id ≡ d.id)
    → P (update_row CompilationDraft.id id f rows)

module _ (P : List CompilationDraft → Type 0) (services : Services) (now : ℕ)
    (guidance : Option String) (draft : CompilationDraft) where
  guided :
      (db : Db)
      → P db.drafts
      → AnyChange P draft.id db.drafts
      → P (keep_guidance services guidance draft db).drafts
  unfolding keep_guidance set_draft
  guided db kept changed = elim (Bool-cases (services.had_committed draft)) [
    | inl committed ↦ rw committed (changed (guide guidance) (guide-keeps guidance))
    | inr rolled_back ↦ rw rolled_back kept
  ]

  save_result :
      (r : Result Article × Db)
      → P r.1.drafts
      → AnyChange P draft.id r.1.drafts
      → P (finish_approval services now guidance draft r).1.drafts
  unfolding finish_approval set_draft
  save_result (err e, db) kept changed = guided db kept changed
  save_result (ok article, db) kept changed =
      changed (review "approved" now guidance) (review-keeps "approved" now guidance)

  compiled_result :
      (source : Source) (result : Result CompilationResult) (db : Db)
      → KeepsDrafts services
      → P db.drafts
      → AnyChange P draft.id db.drafts
      → P (save_reviewed services now guidance draft source result db).1.drafts
  unfolding save_reviewed
  compiled_result source (err e) db law kept changed = guided db kept changed
  compiled_result source (ok result) db law kept changed =
      save_result (services.save_article result source db)
        (subst P (sym (law.drafts_kept result source db)) kept)
        (subst (AnyChange P draft.id) (sym (law.drafts_kept result source db)) changed)

  found_source :
      (user_id : String) (source : Option Source) (db : Db)
      → KeepsDrafts services
      → P db.drafts
      → AnyChange P draft.id db.drafts
      → P (approve services now user_id guidance draft source db).1.drafts
  unfolding approve
  found_source user_id none db law kept changed = kept
  found_source user_id (some source) db law kept changed =
      compiled_result source (reviewed_result services user_id draft source guidance) db law kept
        changed

-- What a review leaves: the drafts as they were, or the found draft with other values.
approved :
    (P : List CompilationDraft → Type 0) (services : Services) (now : ℕ)
    (source_id user_id : String) (guidance : Option String) (db : Db)
    → KeepsDrafts services
    → P db.drafts
    → ((p : CompilationDraft)
        → find (awaits_review source_id user_id) db.drafts ≡ some p
        → AnyChange P p.id db.drafts)
    → P (approve_draft services now source_id user_id guidance db).1.drafts
unfolding approve_draft get_draft_for_source
approved P services now source_id user_id guidance db law kept changed =
    elim (Option-cases (find (awaits_review source_id user_id) db.drafts)) [
      | inl missing ↦ rw (missing, approve_draft, get_draft_for_source) kept
      | inr (p, found) ↦
          rw (found, approve_draft, get_draft_for_source)
            (found_source P services now (truthy guidance) p user_id
              (get_row Source.id source_id db.sources) db law kept (changed p found))
    ]

rejected :
    (P : List CompilationDraft → Type 0) (now : ℕ) (source_id user_id : String) (db : Db)
    → P db.drafts
    → ((p : CompilationDraft)
        → find (awaits_review source_id user_id) db.drafts ≡ some p
        → P (update_row CompilationDraft.id p.id (review "rejected" now none) db.drafts))
    → P (reject_draft now source_id user_id db).1.drafts
unfolding reject_draft get_draft_for_source reject
rejected P now source_id user_id db kept changed =
    elim (Option-cases (find (awaits_review source_id user_id) db.drafts)) [
      | inl missing ↦ rw (missing, reject_draft, get_draft_for_source) kept
      | inr (p, found) ↦
          rw (found, reject_draft, get_draft_for_source)
            (elim (Option-cases (get_row Source.id source_id db.sources)) [
              | inl gone ↦ rw (gone, reject) kept
              | inr (source, there) ↦ rw (there, reject) (changed p found)
            ])
    ]

drafted :
    (P : List CompilationDraft → Type 0) (services : Services) (draft_id : String) (source : Source)
    (result : CompilationResult) (takeaways : List String) (db : Db)
    → P db.drafts
    → (is_some (get_row CompilationDraft.id draft_id db.drafts) ≡ false
        → P (db.drafts ++ (draft_of services draft_id source result takeaways ∷ [])))
    → P (create_draft services draft_id source result takeaways db).1.drafts
unfolding create_draft
drafted P services draft_id source result takeaways db kept added =
    elim (Bool-cases (is_some (get_row CompilationDraft.id draft_id db.drafts))) [
      | inl taken ↦ rw (taken, create_draft) kept
      | inr fresh ↦ rw (fresh, create_draft) (added fresh)
    ]

-- A draft that has been approved or rejected stays as it was left, through any further compilations
-- and reviews of any source by any user, if saving an article does not touch the drafts.
pub IsReviewed-perform_all :
    (services : Services) (calls : List Call) (d : CompilationDraft) (db : Db)
    → KeepsDrafts services
    → IsReviewed d db.drafts
    → IsReviewed d (perform_all services calls db).drafts
unfolding perform_all perform
IsReviewed-perform_all services [] d db law h = h
IsReviewed-perform_all services (submission draft_id source result takeaways ∷ cs) d db law h =
    IsReviewed-perform_all services cs d _ law (
      drafted (IsReviewed d) services draft_id source result takeaways db h
        (λ fresh. IsReviewed-append d _ db.drafts (unfold draft_of in fresh) h))
IsReviewed-perform_all services (approval now source_id user_id guidance ∷ cs) d db law h =
    IsReviewed-perform_all services cs d _ law (
      approved (IsReviewed d) services now source_id user_id guidance db law h
        (λ p found f keeps. IsReviewed-update_row d p f source_id user_id db.drafts keeps found h))
IsReviewed-perform_all services (rejection now source_id user_id ∷ cs) d db law h =
    IsReviewed-perform_all services cs d _ law (
      rejected (IsReviewed d) now source_id user_id db h (λ p found.
        IsReviewed-update_row d p _ source_id user_id db.drafts (review-keeps "rejected" now none)
          found h))

not_pending :
    (source_id user_id status : String) (now : ℕ) (guidance : Option String) (d : CompilationDraft)
    → (status == "pending") ≡ false
    → awaits_review source_id user_id (review status now guidance d) ≡ false
unfolding awaits_review review
not_pending source_id user_id status now none d h = ground arith
not_pending source_id user_id status now (some text) d h = ground arith

-- Whether a call returned, together with the drafts that it left.
abbrev pub outcome {ℓ} : {A : Type ℓ} → Result A × Db → Bool × List CompilationDraft
outcome r = (is_ok r.0, r.1.drafts)

-- The number of pending drafts before a review, by its outcome.
abbrev pub before : (CompilationDraft → Bool) → Bool × List CompilationDraft → ℕ
before f r = if r.0 then suc (count f r.1) else count f r.1

-- With drafts of different ids, a rejection that returns leaves one pending draft of the source less
-- and one that raises leaves as many.
pub reject_draft_lem :
    (now : ℕ) (source_id user_id : String) (db : Db)
    → IsDistinct same_id db.drafts
    → count (awaits_review source_id user_id) db.drafts
      ≡ before (awaits_review source_id user_id) (outcome (reject_draft now source_id user_id db))
unfolding reject_draft get_draft_for_source reject
reject_draft_lem now source_id user_id db distinct =
    elim (Option-cases (find (awaits_review source_id user_id) db.drafts)) [
      | inl missing ↦ ground (arith, missing)
      | inr (p, found) ↦ elim (Option-cases (get_row Source.id source_id db.sources)) [
        | inl gone ↦ ground (arith, found, gone)
        | inr (source, there) ↦ ground (
          arith,
          found,
          there,
          count-update_row (awaits_review source_id user_id) (review "rejected" now none) p
              db.drafts distinct found (not_pending source_id user_id "rejected" now none p refl),
        )
      ]
    ]
