-- ===== src/Jobs/Endings.antt =====
-- jobs/worker.py `compile_source`: when the job that it starts has ended.

use wikimind.Prelude.{
  ℕ, String, eq_refl, ◌≡◌, ◌∙◌, refl, Bool, true, false, Option, none, some, List, [], ◌∷◌, ◌++◌,
  filter, is_some, get_row, update_row, get_row-update_row, get_row-append, key-get_row, Result, ok,
  err, arith, Option-cases, inl, inr,
}
use wikimind.Drafts.{Source, NormalizedDocument}
use wikimind.Jobs.{
  Job, JobStatus, complete, failed, Db, Compiler, runs_for, is_running, complete_job, fail_job,
  end_job, World, record_failure, recover, new_job, mark_processing, start, compile_source,
}
use wikimind.Jobs.Outcomes.{Outcome, attempt-Outcome}

abbrev pub is_ended : JobStatus → Bool
is_ended complete = true
is_ended failed = true
is_ended status = false

-- Whether a job is there and has ended.
unfoldable pub has_ended : String → Db → Bool
has_ended job_id db = elim (get_row Job.id job_id db.jobs) [
  | none ↦ false
  | some job ↦ is_ended job.status
]

-- Other processes leave the job alone, start no other job of the source, and keep the source.
pub record LeavesAlone (elsewhere : ℕ → Db → Db) (job_id source_id : String) : Type 0 where
  pub job_kept :
      (n : ℕ) (db : Db)
      → get_row Job.id job_id (elsewhere n db).jobs ≡ get_row Job.id job_id db.jobs
  pub runs_kept :
      (n : ℕ) (db : Db)
      → filter (runs_for source_id) (elsewhere n db).jobs ≡ filter (runs_for source_id) db.jobs
  pub source_kept :
      (n : ℕ) (db : Db)
      → is_some (get_row Source.id source_id (elsewhere n db).compiling.sources)
        ≡ is_some (get_row Source.id source_id db.compiling.sources)

module _ (job_id source_id : String) where
  -- The job runs, and it is the only running job of its source.
  abbrev IsAlive : List Job → Type 0
  IsAlive jobs =
      (j : Job) × (j.id ≡ job_id)
      × (get_row Job.id job_id jobs ≡ some j)
      × (filter (runs_for source_id) jobs ≡ (j ∷ []))

  completed :
      (now : ℕ) (summary : String) (db : Db)
      → IsAlive db.jobs
      → has_ended job_id (end_job (complete_job now summary) job_id db) ≡ true
  unfolding has_ended end_job complete_job
  completed now summary db (j, i, stored, only) = ground (
    arith,
    stored,
    eq_refl job_id,
    get_row-update_row Job.id job_id job_id (complete_job now summary) db.jobs (λ j. refl),
  )

  module _ (world : World) (law : LeavesAlone world.commits job_id source_id) where
    IsAlive-commits : (n : ℕ) (db : Db) → IsAlive db.jobs → IsAlive (world.commits n db).jobs
    IsAlive-commits n db (j, i, stored, only) =
        (j, i, law.job_kept n db ∙ stored, law.runs_kept n db ∙ only)

    abbrev Ended : Result (Unit {0}) × Db → Type 0
    Ended =
        Outcome job_id source_id IsAlive (λ db. has_ended job_id db ≡ true) world IsAlive-commits
          completed law.source_kept

    recover-Outcome :
        (compiler : Compiler) (now : ℕ) (r : Result (Unit {0}) × Db)
        → world.refuses 4 ≡ none
        → Ended r
        → has_ended job_id (recover compiler world now source_id r) ≡ true
    unfolding recover record_failure
    recover-Outcome compiler now (ok u, db) recorded done = done
    recover-Outcome compiler now (err e, db) recorded alive =
        let later = IsAlive-commits 4 db alive in
        rw (recorded, recover, later.3)
          (unfold has_ended fail_job in
            ground (
              arith,
              later.1,
              later.2,
              eq_refl job_id,
              get_row-update_row Job.id job_id job_id (fail_job now (compiler.message e))
                  (world.commits 4 db).jobs (λ j. refl),
            ))

filter-append :
    (source_id : String) (jobs : List Job) (j : Job)
    → filter (runs_for source_id) jobs ≡ []
    → runs_for source_id j ≡ true
    → filter (runs_for source_id) (jobs ++ (j ∷ [])) ≡ (j ∷ [])
filter-append source_id [] j idle runs = ground arith
filter-append source_id (k ∷ jobs) j idle runs = ground (arith, filter-append source_id jobs j)

pub kept_source :
    (source_id : String) (sources : List Source)
    → is_some (get_row Source.id source_id sources) ≡ true
    → is_some (get_row Source.id source_id (update_row Source.id source_id mark_processing sources))
      ≡ true
unfolding mark_processing
kept_source source_id sources there = ground (
  arith,
  eq_refl source_id,
  get_row-update_row Source.id source_id source_id mark_processing sources (λ s. refl),
)

started :
    (job_id source_id user_id : String) (now : ℕ) (jobs : List Job)
    → get_row Job.id job_id jobs ≡ none
    → filter (runs_for source_id) jobs ≡ []
    → IsAlive job_id source_id (jobs ++ (new_job job_id now source_id user_id ∷ []))
unfolding new_job
started job_id source_id user_id now jobs fresh idle = (
  new_job job_id now source_id user_id,
  refl,
  ground (
    arith,
    fresh,
    eq_refl job_id,
    get_row-append Job.id job_id jobs (new_job job_id now source_id user_id),
  ),
  filter-append source_id jobs (new_job job_id now source_id user_id) idle
      (unfold runs_for is_running in eq_refl source_id),
)

-- If a source is there, no other job of it runs, other processes keep the source, leave the new job
-- alone and start no other job of the source, and the database raises neither in the session that
-- creates the job nor in the one that records a failure, then `compile_source` ends its job as
-- complete or failed: whatever the compiler and the storage answer or raise, whether the database
-- raises in the sessions between, whether it drafts or saves, and whatever document it is given.
pub compile_source_ends :
    (compiler : Compiler) (world : World) (interactive : Bool) (job_id draft_id : String) (now : ℕ)
    (source_id user_id : String) (doc : Option NormalizedDocument) (db : Db)
    → LeavesAlone world.commits job_id source_id
    → world.refuses 0 ≡ none
    → world.refuses 4 ≡ none
    → is_some (get_row Source.id source_id db.compiling.sources) ≡ true
    → get_row Job.id job_id db.jobs ≡ none
    → filter (runs_for source_id) db.jobs ≡ []
    → has_ended job_id
        (compile_source compiler world interactive job_id draft_id now source_id user_id doc db).1
      ≡ true
unfolding compile_source
compile_source_ends compiler world interactive job_id draft_id now source_id user_id doc db law
      begun recorded there fresh idle =
    elim (Option-cases (get_row Source.id source_id db.compiling.sources)) [
      | inl gone ↦ absurd (ground arith)
      | inr (source, found) ↦
          rw (found, compile_source, begun)
            (recover-Outcome job_id source_id world law compiler now _ recorded (
              attempt-Outcome job_id source_id (IsAlive job_id source_id)
                (λ db. has_ended job_id db ≡ true) world
                (IsAlive-commits job_id source_id world law) (completed job_id source_id)
                law.source_kept compiler interactive draft_id now (mark_processing source) doc
                (start job_id now source_id user_id db)
                (unfold mark_processing in
                  key-get_row Source.id source_id db.compiling.sources source found)
                (kept_source source_id db.compiling.sources there)
                (unfold start in started job_id source_id user_id now db.jobs fresh idle)))
    ]
