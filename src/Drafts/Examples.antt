-- ===== src/Drafts/Examples.antt =====
-- One source with a draft, approved, and then rejected in vain.
use wikimind.Prelude.{
  String, ◌≡◌, refl, true, none, some, [], ◌∷◌, count, get_row, ok, err, not_found,
}
use wikimind.Drafts.{
  Source, CompilationDraft, CompilationResult, Db, Services, review_pending, awaits_review,
  reject_draft, get_draft_for_source,
}
use wikimind.Drafts.Rows.{IsReviewed}
use wikimind.Drafts.Review.{
  KeepsDrafts, approval, rejection, perform_all, IsReviewed-perform_all, reject_draft_lem, before,
  outcome,
}

abbrev source : Source
source = record {
  id = "s1";
  user_id = "u1";
  title = none;
  clean_text = some "text";
  file_path = none;
  status = review_pending;
  error_message = none;
}

abbrev draft_with : String → CompilationDraft
draft_with status = record {
  id = "d1";
  user_id = "u1";
  source_id = "s1";
  title = "Note";
  summary = "";
  key_takeaways = "[]";
  draft_result_json = "{}";
  user_guidance = none;
  status = status;
  reviewed_at = none;
}

abbrev with_draft : String → Db
with_draft status = record { sources = source ∷ []; drafts = draft_with status ∷ [] }

abbrev result : CompilationResult
result = record { title = "Note"; summary = ""; article_body = "" }

abbrev services : Services
services = record {
  dumps = λ takeaways. "[]";
  model_dump_json = λ r. "{}";
  model_validate_json = λ json. ok result;
  had_committed = λ draft. true;
  read = λ user_id path. ok none;
  compile_with_guidance = λ doc guidance. ok (some result);
  save_article = λ r s db. (ok (record { slug = "note"; title = r.title }), db);
}

services-KeepsDrafts : KeepsDrafts services
services-KeepsDrafts = record { drafts_kept = λ r s db. refl }

approved-IsReviewed : IsReviewed (draft_with "approved") (with_draft "approved").drafts
unfolding get_row
approved-IsReviewed = record { stored = refl; reviewed = refl; distinct = (refl, tt) }

IsReviewed-perform_all_example :
    IsReviewed
      (draft_with "approved")
      (perform_all services
        (approval 5 "s1" "u1" none ∷ rejection 6 "s1" "u1" ∷ [])
        (with_draft "approved")).drafts
IsReviewed-perform_all_example =
    IsReviewed-perform_all services (approval 5 "s1" "u1" none ∷ rejection 6 "s1" "u1" ∷ [])
      (draft_with "approved") (with_draft "approved") services-KeepsDrafts approved-IsReviewed

reject_draft_lem_example :
    count (awaits_review "s1" "u1") (with_draft "pending").drafts
    ≡ before (awaits_review "s1" "u1") (outcome (reject_draft 5 "s1" "u1" (with_draft "pending")))
reject_draft_lem_example = reject_draft_lem 5 "s1" "u1" (with_draft "pending") (refl, tt)

-- A second review finds no pending draft.
rejected_again :
    (reject_draft 6 "s1" "u1" (with_draft "approved")).0
    ≡ err (not_found "No pending draft for this source")
unfolding reject_draft get_draft_for_source
rejected_again = refl
