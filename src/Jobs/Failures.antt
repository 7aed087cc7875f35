-- ===== src/Jobs/Failures.antt =====
-- jobs/worker.py `compile_source`: failures beside another running job of the source.
use wikimind.Prelude.{
  ℕ, String, eq_refl, ◌≡◌, ◌∙◌, refl, Bool, true, false, Option, none, some, List, [], ◌∷◌, ◌++◌,
  filter, is_some, get_row, get_row-update_row, get_row-append, key-get_row, Result, ok, err, arith,
  Option-cases, inl, inr,
}
use wikimind.Drafts.{Source, NormalizedDocument}
use wikimind.Jobs.{
  Job, JobStatus, failed, Db, Compiler, runs_for, is_running, complete_job, end_job, World, served,
  record_failure, recover, new_job, mark_processing, start, compile_source,
}
use wikimind.Jobs.Outcomes.{Outcome, attempt-Outcome}
use wikimind.Jobs.Endings.{LeavesAlone, kept_source}

abbrev is_failed : JobStatus → Bool
is_failed failed = true
is_failed status = false

-- Whether a job is there and is recorded as failed.
unfoldable pub has_failed : String → Db → Bool
has_failed job_id db = elim (get_row Job.id job_id db.jobs) [
  | none ↦ false
  | some job ↦ is_failed job.status
]

filter_all-append :
    (p : Job → Bool) (xs ys : List Job) → filter p (xs ++ ys) ≡ filter p xs ++ filter p ys
filter_all-append p [] ys = refl
filter_all-append p (x ∷ xs) ys = ground (arith, filter_all-append p xs ys)

at_least_two :
    (old : Job) (others : List Job) (j : Job)
    → (a : Job) × (b : Job) × (rest : List Job) × ((old ∷ others) ++ (j ∷ []) ≡ (a ∷ b ∷ rest))
at_least_two old [] j = (old, j, [], refl)
at_least_two old (k ∷ others) j = (old, k, others ++ (j ∷ []), refl)

running→not_failed : (status : JobStatus) → is_running status ≡ true → is_failed status ≡ false
unfolding is_running
running→not_failed status h = ground arith

module _ (job_id source_id : String) where
  -- The job runs, and so does another one of its source.
  abbrev IsBeside : List Job → Type 0
  IsBeside jobs =
      (j : Job) × (a : Job) × (b : Job) × (others : List Job) × (get_row Job.id job_id jobs
        ≡ some j)
      × (is_running j.status ≡ true)
      × (filter (runs_for source_id) jobs ≡ (a ∷ b ∷ others))

  not_failed : (db : Db) → IsBeside db.jobs → has_failed job_id db ≡ false
  unfolding has_failed
  not_failed db (j, a, b, others, stored, runs, two) =
      ground (arith, stored, running→not_failed j.status runs)

  completed :
      (now : ℕ) (summary : String) (db : Db)
      → IsBeside db.jobs
      → has_failed job_id (end_job (complete_job now summary) job_id db) ≡ false
  unfolding has_failed end_job complete_job
  completed now summary db (j, a, b, others, stored, runs, two) = ground (
    arith,
    stored,
    eq_refl job_id,
    get_row-update_row Job.id job_id job_id (complete_job now summary) db.jobs (λ j. refl),
  )

  started :
      (user_id : String) (now : ℕ) (jobs : List Job) (old : Job) (others : List Job)
      → get_row Job.id job_id jobs ≡ none
      → filter (runs_for source_id) jobs ≡ (old ∷ others)
      → IsBeside (jobs ++ (new_job job_id now source_id user_id ∷ []))
  unfolding new_job runs_for is_running
  started user_id now jobs old others fresh stale =
      let j = new_job job_id now source_id user_id in
      let stored : get_row Job.id job_id (jobs ++ (j ∷ [])) ≡ some j =
        ground (arith, fresh, eq_refl job_id, get_row-append Job.id job_id jobs j) in
      let added : filter (runs_for source_id) (j ∷ []) ≡ (j ∷ []) = rw (eq_refl source_id) refl in
      let all : filter (runs_for source_id) (jobs ++ (j ∷ [])) ≡ ((old ∷ others) ++ (j ∷ [])) =
        rw (filter_all-append (runs_for source_id) jobs (j ∷ []), stale, added) refl in
      let (a, b, rest, two) = at_least_two old others j in (j, a, b, rest, stored, refl, all ∙ two)

  module _ (world : World) (law : LeavesAlone world.commits job_id source_id) where
    IsBeside-commits : (n : ℕ) (db : Db) → IsBeside db.jobs → IsBeside (world.commits n db).jobs
    IsBeside-commits n db (j, a, b, others, stored, runs, two) =
        (j, a, b, others, law.job_kept n db ∙ stored, runs, law.runs_kept n db ∙ two)

    abbrev Unfailed : Result (Unit {0}) × Db → Type 0
    Unfailed =
        Outcome job_id source_id IsBeside (λ db. has_failed job_id db ≡ false) world
          IsBeside-commits completed law.source_kept

    -- With two running jobs the failure handler raises, and nothing is recorded.
    recover-Unfailed :
        (compiler : Compiler) (now : ℕ) (r : Result (Unit {0}) × Db)
        → Unfailed r
        → has_failed job_id (recover compiler world now source_id r) ≡ false
    unfolding recover record_failure
    recover-Unfailed compiler now (ok u, db) done = done
    recover-Unfailed compiler now (err e, db) beside =
        let later = IsBeside-commits 4 db beside in
        elim (Option-cases (world.refuses 4)) [
          | inr (e, refused) ↦ rw (refused, recover) (not_failed (world.commits 4 db) later)
          | inl working ↦ rw (working, recover, later.6) (not_failed (world.commits 4 db) later)
        ]

-- If another job of the source runs and stays running, as a worker that was killed leaves one, then
-- the job that `compile_source` starts is never recorded as failed: whatever the compiler, the
-- storage or the database raise, whether it drafts or saves, and whatever document it is given. The
-- source is there, and other processes keep it, leave the new job alone and neither start nor end
-- a job of the source.
pub failure_not_recorded :
    (compiler : Compiler) (world : World) (interactive : Bool) (job_id draft_id : String) (now : ℕ)
    (source_id user_id : String) (doc : Option NormalizedDocument) (db : Db) (old : Job)
    (others : List Job)
    → LeavesAlone world.commits job_id source_id
    → is_some (get_row Source.id source_id db.compiling.sources) ≡ true
    → get_row Job.id job_id db.jobs ≡ none
    → filter (runs_for source_id) db.jobs ≡ (old ∷ others)
    → has_failed job_id
        (compile_source compiler world interactive job_id draft_id now source_id user_id doc db).1
      ≡ false
unfolding compile_source served get_row
failure_not_recorded compiler world interactive job_id draft_id now source_id user_id doc db old
      others law there fresh stale =
    elim (Option-cases (get_row Source.id source_id db.compiling.sources)) [
      | inl gone ↦ absurd (ground arith)
      | inr (source, found) ↦ elim (Option-cases (world.refuses 0)) [
        | inr (e, refused) ↦
            rw (found, compile_source, refused) (unfold has_failed in rw fresh refl)
        | inl begun ↦
            rw (found, compile_source, begun)
              (recover-Unfailed job_id source_id world law compiler now _ (
                attempt-Outcome job_id source_id (IsBeside job_id source_id)
                  (λ db. has_failed job_id db ≡ false) world
                  (IsBeside-commits job_id source_id world law) (completed job_id source_id)
                  law.source_kept compiler interactive draft_id now (mark_processing source) doc
                  (start job_id now source_id user_id db)
                  (unfold mark_processing in
                    key-get_row Source.id source_id db.compiling.sources source found)
                  (kept_source source_id db.compiling.sources there)
                  (unfold start in
                    started job_id source_id user_id now db.jobs old others fresh stale)))
      ]
    ]
