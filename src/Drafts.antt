-- ===== src/Drafts.antt =====
-- services/draft.py: compilation drafts that a user approves or rejects. The compiler, the raw
-- storage and the JSON codec are given; ids and times of a call are arguments.
pub mod Rows
pub mod Review
mod Examples
use wikimind.Prelude.{
  ℕ, String, ◌==◌, Bool, true, false, ◌&&◌, Option, none, some, List, [], ◌∷◌, ◌++◌, find,
  if◌then◌else◌, get_row, save_row, update_row, Result, ok, err, not_found, Action, is_some,
  integrity_error, truthy,
}

pub data IngestStatus : Type 0 where
  pending processing review_pending compiled failed : IngestStatus

-- models/tables/core.py `Source`: the columns that compilation reads and writes.
pub record Source : Type 0 where
  pub id : String
  pub user_id : String
  pub title : Option String
  pub clean_text : Option String
  pub file_path : Option String
  pub status : IngestStatus
  pub error_message : Option String

pub record CompilationDraft : Type 0 where
  pub id : String
  pub user_id : String
  pub source_id : String
  pub title : String
  pub summary : String
  pub key_takeaways : String
  pub draft_result_json : String
  pub user_guidance : Option String
  pub status : String
  pub reviewed_at : Option ℕ

pub record Db : Type 0 where
  pub sources : List Source
  pub drafts : List CompilationDraft

pub record NormalizedDocument : Type 0 where
  pub raw_source_id : String
  pub clean_text : String
  pub title : String

pub record CompilationResult : Type 0 where
  pub title : String
  pub summary : String
  pub article_body : String

pub record Article : Type 0 where
  pub slug : String
  pub title : String

-- The parts of the system that a review calls: the codec of takeaways and results, the raw
-- storage, the guided compilation and the saving of an article; and whether these two had committed
-- the session of a draft's review before they raised.
pub record Services : Type 0 where
  pub dumps : List String → String
  pub model_dump_json : CompilationResult → String
  pub model_validate_json : String → Result CompilationResult
  pub read : String → String → Result (Option String)
  pub compile_with_guidance : NormalizedDocument → String → Result (Option CompilationResult)
  pub save_article : CompilationResult → Source → Action Db Article
  pub had_committed : CompilationDraft → Bool

pub draft_of : Services → String → Source → CompilationResult → List String → CompilationDraft
draft_of services draft_id source result takeaways = record {
  id = draft_id;
  user_id = source.user_id;
  source_id = source.id;
  title = result.title;
  summary = result.summary;
  key_takeaways = services.dumps takeaways;
  draft_result_json = services.model_dump_json result;
  user_guidance = none;
  status = "pending";
  reviewed_at = none;
}

-- The source as it was loaded is written back with its new status.
pub create_draft :
    Services
    → (draft_id : String) → Source
    → CompilationResult
    → List String
    → Action Db CompilationDraft
unfolding draft_of
create_draft services draft_id source result takeaways db =
    let draft = draft_of services draft_id source result takeaways in
    if is_some (get_row CompilationDraft.id draft_id db.drafts)
    then (err integrity_error, db)
    else (
      ok draft,
      record db {
        sources = save_row Source.id (record source { status = review_pending }) db.sources;
        drafts = db.drafts ++ (draft ∷ []);
      },
    )

unfoldable pub awaits_review : String → String → CompilationDraft → Bool
awaits_review source_id user_id d =
    d.source_id == source_id && (d.user_id == user_id && d.status == "pending")

pub get_draft_for_source : String → String → Db → Result CompilationDraft
unfolding awaits_review
get_draft_for_source source_id user_id db =
    elim (find (awaits_review source_id user_id) db.drafts) [
      | none ↦ err (not_found "No pending draft for this source")
      | some draft ↦ ok draft
    ]

title_or_untitled : Option String → String
title_or_untitled title = elim (truthy title) [ none ↦ "Untitled" | some t ↦ t ]

-- The cleaned text, or the raw file in a user's storage where the row has none.
unfoldable pub content_of : Services → String → Source → Result (Option String)
content_of services user_id source = elim source.clean_text [
  | some text ↦ ok (some text)
  | none ↦ elim (truthy source.file_path) [
    | none ↦ ok none
    | some path ↦ services.read user_id path
  ]
]

pub document_of : Source → String → NormalizedDocument
unfolding title_or_untitled
document_of source content = record {
  raw_source_id = source.id;
  clean_text = content;
  title = title_or_untitled source.title;
}

compiled_or_failed : Result (Option CompilationResult) → Result CompilationResult
compiled_or_failed (err e) = err e
compiled_or_failed (ok none) = err (not_found "Guided compilation failed")
compiled_or_failed (ok (some result)) = ok result

recompile : Services → Source → String → Result (Option String) → Result CompilationResult
unfolding compiled_or_failed document_of
recompile services source guidance (err e) = err e
recompile services source guidance (ok none) = err (not_found "Source has no content file")
recompile services source guidance (ok (some content)) =
    compiled_or_failed (services.compile_with_guidance (document_of source content) guidance)

-- The result that is saved: the source compiled with the guidance, or the draft's own.
pub reviewed_result :
    Services → String → CompilationDraft → Source → Option String → Result CompilationResult
unfolding recompile content_of
reviewed_result services user_id draft source none =
    services.model_validate_json draft.draft_result_json
reviewed_result services user_id draft source (some guidance) =
    recompile services source guidance (content_of services user_id source)

pub record ApproveDraftResponse : Type 0 where
  pub article_slug : String
  pub article_title : String

unfoldable pub review : String → ℕ → Option String → CompilationDraft → CompilationDraft
review status now guidance draft = elim guidance [
  | none ↦ record draft { status = status; reviewed_at = some now }
  | some text ↦ record draft { status = status; reviewed_at = some now; user_guidance = some text }
]

set_draft : (CompilationDraft → CompilationDraft) → String → Db → Db
set_draft f draft_id db = record db { drafts = update_row CompilationDraft.id draft_id f db.drafts }

-- `draft.user_guidance = guidance`
unfoldable pub guide : Option String → CompilationDraft → CompilationDraft
guide none draft = draft
guide (some text) draft = record draft { user_guidance = some text }

-- An exception leaves the guidance on the draft if the session had been committed since it was set.
keep_guidance : Services → Option String → CompilationDraft → Db → Db
unfolding set_draft guide
keep_guidance services guidance draft db =
    if services.had_committed draft then set_draft (guide guidance) draft.id db else db

-- The draft is marked once its article is saved. An exception of the saving leaves what that had
-- committed.
pub finish_approval :
    Services
    → ℕ
    → Option String
    → CompilationDraft
    → Result Article × Db
    → Result ApproveDraftResponse × Db
unfolding set_draft review keep_guidance
finish_approval services now guidance draft (err e, db) =
    (err e, keep_guidance services guidance draft db)
finish_approval services now guidance draft (ok article, db) = (
  ok (record { article_slug = article.slug; article_title = article.title }),
  set_draft (review "approved" now guidance) draft.id db,
)

pub save_reviewed :
    Services
    → ℕ
    → Option String
    → CompilationDraft
    → Source
    → Result CompilationResult
    → Action Db ApproveDraftResponse
unfolding finish_approval keep_guidance
save_reviewed services now guidance draft source (err e) db =
    (err e, keep_guidance services guidance draft db)
save_reviewed services now guidance draft source (ok result) db =
    finish_approval services now guidance draft (services.save_article result source db)

approve :
    Services
    → ℕ
    → String
    → Option String
    → CompilationDraft
    → Option Source
    → Action Db ApproveDraftResponse
unfolding save_reviewed reviewed_result
approve services now user_id guidance draft none db = (err (not_found "Source not found"), db)
approve services now user_id guidance draft (some source) db =
    save_reviewed services now guidance draft source
      (reviewed_result services user_id draft source guidance) db

pub approve_draft : Services → ℕ → String → String → Option String → Action Db ApproveDraftResponse
unfolding get_draft_for_source approve
approve_draft services now source_id user_id guidance db =
    elim (get_draft_for_source source_id user_id db) [
      | err e ↦ (err e, db)
      | ok draft ↦
          approve services now user_id (truthy guidance) draft
            (get_row Source.id source_id db.sources) db
    ]

reject : ℕ → CompilationDraft → Option Source → Action Db String
unfolding review
reject now draft none db = (err (not_found "Source not found"), db)
reject now draft (some source) db = (
  ok source.id,
  record db {
    sources = save_row Source.id (record source { status = pending }) db.sources;
    drafts = update_row CompilationDraft.id draft.id (review "rejected" now none) db.drafts;
  },
)

pub reject_draft : ℕ → String → String → Action Db String
unfolding get_draft_for_source reject
reject_draft now source_id user_id db = elim (get_draft_for_source source_id user_id db) [
  | err e ↦ (err e, db)
  | ok draft ↦ reject now draft (get_row Source.id source_id db.sources) db
]
