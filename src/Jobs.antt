-- ===== src/Jobs.antt =====
-- jobs/worker.py `compile_source`: a compilation as a background job, from the row of a running
-- job to its end. A job works in short sessions, between which other processes commit and in which
-- the database may raise. Progress messages and logs are left out, as is what a finished job starts next.
pub mod Outcomes
pub mod Endings
pub mod Failures
mod Examples
use wikimind.Prelude.{
  ℕ, String, ◌==◌, ◌+++◌, Bool, true, false, ◌&&◌, Option, none, some, List, [], ◌∷◌, ◌++◌, filter,
  if◌then◌else◌, get_row, update_row, Result, ok, err, Error, value_error, one_or_none, is_some,
}
use wikimind.Drafts
use wikimind.Drafts.{
  Source, CompilationDraft, NormalizedDocument, CompilationResult, Article, Services, create_draft,
  content_of, document_of,
}

pub data JobStatus : Type 0 where
  queued running complete failed : JobStatus

pub data JobType : Type 0 where
  compile_source_job lint_wiki_job recompile_article_job sweep_wikilinks_job : JobType

pub record Job : Type 0 where
  pub id : String
  pub user_id : String
  pub job_type : JobType
  pub status : JobStatus
  pub source_id : Option String
  pub started_at : Option ℕ
  pub completed_at : Option ℕ
  pub error : Option String
  pub result_summary : Option String

pub record Db : Type 0 where
  pub compiling : Drafts.Db
  pub jobs : List Job

-- The compiler's calls that a job makes, and the text of an exception.
pub record Compiler : Type 0 where
  pub services : Services
  pub extract_takeaways : NormalizedDocument → Result (List String)
  pub compile : NormalizedDocument → Result (Option CompilationResult)
  pub message : Error → String

unfoldable pub is_running : JobStatus → Bool
is_running running = true
is_running status = false

-- The running jobs of a source, as the query of the failure handler selects them.
unfoldable pub runs_for : String → Job → Bool
unfolding is_running
runs_for source_id job =
    is_running job.status && elim job.source_id [ none ↦ false | some id ↦ id == source_id ]

unfoldable pub complete_job : ℕ → String → Job → Job
complete_job now summary job = record job {
  status = complete;
  completed_at = some now;
  result_summary = some summary;
}

unfoldable pub fail_job : ℕ → String → Job → Job
fail_job now message job = record job {
  status = failed;
  completed_at = some now;
  error = some message;
}

-- `job = await session.get(Job, job_id)`, and its end if it is there.
unfoldable pub end_job : (Job → Job) → String → Db → Db
end_job f job_id db = record db { jobs = update_row Job.id job_id f db.jobs }

-- `_build_normalized_doc`
pub build_normalized_doc : Compiler → Source → Result NormalizedDocument
build_normalized_doc compiler source = elim (content_of compiler.services source.user_id source) [
  | err e ↦ err e
  | ok none ↦ err (value_error ("No content available for source " +++ source.id))
  | ok (some content) ↦ ok (document_of source content)
]

-- The compiler's result, or the exception for its absence.
pub result_or_raise : Result (Option CompilationResult) → Result CompilationResult
result_or_raise (err e) = err e
result_or_raise (ok none) = err (value_error "Compiler returned no result")
result_or_raise (ok (some result)) = ok result

abbrev pub Step : Type 0
Step = Db → Result (Unit {0}) × Db

-- What a job meets: what other processes commit before its session n, and what the database raises
-- there, if it does. Session 0 creates the job, 1 reads the source again, 2 creates the draft or
-- saves the article, 3 completes the job, and 4 records a failure.
pub record World : Type 0 where
  pub commits : ℕ → Db → Db
  pub refuses : ℕ → Option Error

unfoldable pub served : Option Error → Step → Step
served none step db = step db
served (some e) step db = (err e, db)

-- A session: other processes come first, then its own statements and its commit, or what the
-- database raises, after which nothing of the session is kept.
unfoldable pub session : World → ℕ → Step → Step
unfolding served
session world n step db = served (world.refuses n) step (world.commits n db)

-- The last session of a saved article's job.
finish : World → (Job → Job) → String → Step
unfolding session end_job
finish world f job_id = session world 3 (λ seen. (ok tt, end_job f job_id seen))

-- What follows the creation of a draft, with a second commit in the same session.
after_draft :
    World → ℕ → String → String → Db → Result CompilationDraft × Drafts.Db → Result (Unit {0}) × Db
unfolding served end_job complete_job
after_draft world now job_id title db (err e, d) = (err e, record db { compiling = d })
after_draft world now job_id title db (ok draft, d) =
    served (world.refuses 3)
      (λ seen.
        (ok tt, end_job (complete_job now ("Draft created for review: " +++ title)) job_id seen))
      (record db { compiling = d })

write_draft :
    Compiler
    → World
    → (draft_id : String) → ℕ
    → String
    → Source
    → List String
    → Result CompilationResult
    → Step
unfolding session after_draft
write_draft compiler world draft_id now job_id source takeaways (err e) db = (err e, db)
write_draft compiler world draft_id now job_id source takeaways (ok result) db =
    session world 2
      (λ seen.
        after_draft world now job_id result.title seen
          (create_draft compiler.services draft_id source result takeaways seen.compiling))
      db

takeaways_then :
    Compiler
    → World
    → (draft_id : String) → ℕ
    → String
    → Source
    → NormalizedDocument
    → Result (List String)
    → Step
unfolding write_draft result_or_raise
takeaways_then compiler world draft_id now job_id source doc (err e) db = (err e, db)
takeaways_then compiler world draft_id now job_id source doc (ok takeaways) db =
    write_draft compiler world draft_id now job_id source takeaways
      (result_or_raise (compiler.compile doc)) db

-- `_compile_interactive`: the language model first, then a draft and the end of the job.
pub compile_interactive :
    Compiler → World → (draft_id : String) → ℕ → String → Source → NormalizedDocument → Step
unfolding takeaways_then
compile_interactive compiler world draft_id now job_id source doc db =
    takeaways_then compiler world draft_id now job_id source doc (compiler.extract_takeaways doc) db

after_saving : World → ℕ → String → Db → Result Article × Drafts.Db → Result (Unit {0}) × Db
unfolding finish complete_job
after_saving world now job_id db (err e, d) = (err e, record db { compiling = d })
after_saving world now job_id db (ok article, d) =
    finish world (complete_job now ("Created article: " +++ article.slug)) job_id
      (record db { compiling = d })

save_row_of : Compiler → World → ℕ → String → CompilationResult → Option Source → Step
unfolding after_saving
save_row_of compiler world now job_id result none db =
    (err (value_error "Source disappeared during compile"), db)
save_row_of compiler world now job_id result (some source) db =
    after_saving world now job_id db (compiler.services.save_article result source db.compiling)

save_compiled : Compiler → World → ℕ → String → String → Result CompilationResult → Step
unfolding session save_row_of
save_compiled compiler world now job_id source_id (err e) db = (err e, db)
save_compiled compiler world now job_id source_id (ok result) db =
    session world 2
      (λ seen.
        save_row_of compiler world now job_id result
          (get_row Source.id source_id seen.compiling.sources) seen)
      db

-- `_compile_direct`: the article is saved to the source as it then is, and the job ends.
pub compile_direct : Compiler → World → ℕ → String → Source → NormalizedDocument → Step
unfolding save_compiled result_or_raise
compile_direct compiler world now job_id source doc db =
    save_compiled compiler world now job_id source.id (result_or_raise (compiler.compile doc)) db

pub compile_doc :
    Compiler
    → World
    → (interactive : Bool) → (draft_id : String) → ℕ
    → String
    → Source
    → Result NormalizedDocument
    → Step
unfolding compile_interactive compile_direct
compile_doc compiler world interactive draft_id now job_id source (err e) db = (err e, db)
compile_doc compiler world interactive draft_id now job_id source (ok doc) db =
    if interactive
    then compile_interactive compiler world draft_id now job_id source doc db
    else compile_direct compiler world now job_id source doc db

-- A source that is gone by now ends the call, without an exception.
reread : Compiler → World → Bool → String → ℕ → String → Option Source → Step
unfolding compile_doc build_normalized_doc
reread compiler world interactive draft_id now job_id none db = (ok tt, db)
reread compiler world interactive draft_id now job_id (some source) db =
    compile_doc compiler world interactive draft_id now job_id source
      (build_normalized_doc compiler source) db

-- The body of the `try`: the document is the one that is given, or it is read again.
pub attempt :
    Compiler
    → World
    → (interactive : Bool) → (draft_id : String) → ℕ
    → String
    → Source
    → Option NormalizedDocument
    → Step
unfolding session compile_doc reread
attempt compiler world interactive draft_id now job_id source (some doc) db =
    compile_doc compiler world interactive draft_id now job_id source (ok doc) db
attempt compiler world interactive draft_id now job_id source none db =
    session world 1
      (λ seen.
        reread compiler world interactive draft_id now job_id
          (get_row Source.id source.id seen.compiling.sources) seen)
      db

unfoldable pub mark_failed : String → Source → Source
mark_failed message source = record source { status = Drafts.failed; error_message = some message }

fail_source : String → String → Drafts.Db → Drafts.Db
unfolding mark_failed
fail_source source_id message d = record d {
  sources = update_row Source.id source_id (mark_failed message) d.sources;
}

-- `scalar_one_or_none()` of the running jobs: with two of them it raises, and nothing is recorded.
record_failure : ℕ → String → String → Result (Option Job) → Db → Db
unfolding fail_source fail_job
record_failure now source_id message (err e) db = db
record_failure now source_id message (ok none) db = record db {
  compiling = fail_source source_id message db.compiling;
}
record_failure now source_id message (ok (some job)) db = record db {
  compiling = fail_source source_id message db.compiling;
  jobs = update_row Job.id job.id (fail_job now message) db.jobs;
}

-- The `except` clause, which catches every exception, those of its own session too.
pub recover : Compiler → World → ℕ → String → Result (Unit {0}) × Db → Db
unfolding record_failure runs_for
recover compiler world now source_id (ok _, db) = db
recover compiler world now source_id (err e, db) =
    let seen = world.commits 4 db in
    elim (world.refuses 4) [
      | some _ ↦ seen
      | none ↦
          record_failure now source_id (compiler.message e)
            (one_or_none (filter (runs_for source_id) seen.jobs)) seen
    ]

unfoldable pub new_job : String → ℕ → String → String → Job
new_job job_id now source_id user_id = record {
  id = job_id;
  user_id = user_id;
  job_type = compile_source_job;
  status = running;
  source_id = some source_id;
  started_at = some now;
  completed_at = none;
  error = none;
  result_summary = none;
}

unfoldable pub mark_processing : Source → Source
mark_processing source = record source { status = Drafts.processing; error_message = none }

-- The first session: the source is being processed, and its job runs.
unfoldable pub start : String → ℕ → String → String → Db → Db
unfolding mark_processing new_job
start job_id now source_id user_id db = record db {
  compiling = record {
    sources = update_row Source.id source_id mark_processing db.compiling.sources;
    drafts = db.compiling.drafts;
  };
  jobs = db.jobs ++ (new_job job_id now source_id user_id ∷ []);
}

-- What the database raises in the first session reaches the caller; nothing else does.
pub compile_source :
    Compiler
    → World
    → (interactive : Bool) → (job_id draft_id : String) → ℕ
    → (source_id user_id : String) → Option NormalizedDocument
    → Step
unfolding served attempt recover start mark_processing
compile_source compiler world interactive job_id draft_id now source_id user_id doc db =
    elim (get_row Source.id source_id db.compiling.sources) [
      | none ↦ (ok tt, db)
      | some source ↦
          served (world.refuses 0)
            (λ seen. (
              ok tt,
              recover compiler world now source_id (
                  attempt compiler world interactive draft_id now job_id (mark_processing source)
                    doc (start job_id now source_id user_id seen)),
            ))
            db
    ]
