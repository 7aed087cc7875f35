-- ===== src/Jobs/Outcomes.antt =====
-- jobs/worker.py `compile_source`: what holds of its body, from two facts about the jobs. One holds
-- while the job runs, whatever else happens; completing the job turns it into the other.
use wikimind.Prelude.{
  ℕ, String, ◌≡◌, ◌∙◌, sym, subst, Bool, true, false, Option, none, some, List, is_some, get_row,
  Result, ok, err, arith, Option-cases, inl, inr,
}
use wikimind.Drafts
use wikimind.Drafts.{
  Source, CompilationDraft, NormalizedDocument, CompilationResult, Article, create_draft,
}
use wikimind.Jobs.{
  Job, Db, Compiler, complete_job, end_job, Step, World, served, session, finish, after_draft,
  write_draft, takeaways_then, compile_interactive, after_saving, save_row_of, save_compiled,
  compile_direct, compile_doc, reread, attempt,
}

module _ (job_id source_id : String) (Alive : List Job → Type 0) (Done : Db → Type 0)
    (world : World) (keeps : (n : ℕ) (db : Db) → Alive db.jobs → Alive (world.commits n db).jobs)
    (ends : (now : ℕ) (summary : String) (db : Db)
      → Alive db.jobs
      → Done (end_job (complete_job now summary) job_id db))
    (source_kept : (n : ℕ) (db : Db)
      → is_some (get_row Source.id source_id (world.commits n db).compiling.sources)
        ≡ is_some (get_row Source.id source_id db.compiling.sources)) where
  -- A body that returns is done, and one that raises has left the job running.
  abbrev pub Outcome : Result (Unit {0}) × Db → Type 0
  Outcome (ok u, db) = Done db
  Outcome (err e, db) = Alive db.jobs

  -- A session that the database refuses leaves the job running.
  served-Outcome :
      (n : ℕ) (step : Step) (db : Db)
      → Alive db.jobs
      → Outcome (step db)
      → Outcome (served (world.refuses n) step db)
  unfolding served
  served-Outcome n step db alive done = elim (Option-cases (world.refuses n)) [
    | inl working ↦ rw working done
    | inr (e, refused) ↦ rw refused alive
  ]

  session-Outcome :
      (n : ℕ) (step : Step) (db : Db)
      → Alive db.jobs
      → Outcome (step (world.commits n db))
      → Outcome (session world n step db)
  unfolding session
  session-Outcome n step db alive = served-Outcome n step (world.commits n db) (keeps n db alive)

  after_draft-Outcome :
      (now : ℕ) (title : String) (db : Db) (r : Result CompilationDraft × Drafts.Db)
      → Alive db.jobs
      → Outcome (after_draft world now job_id title db r)
  unfolding after_draft
  after_draft-Outcome now title db (err e, d) alive = alive
  after_draft-Outcome now title db (ok draft, d) alive =
      served-Outcome 3 _ (record db { compiling = d }) alive
        (ends now _ (record db { compiling = d }) alive)

  write_draft-Outcome :
      (compiler : Compiler) (draft_id : String) (now : ℕ) (source : Source)
      (takeaways : List String) (r : Result CompilationResult) (db : Db)
      → Alive db.jobs
      → Outcome (write_draft compiler world draft_id now job_id source takeaways r db)
  unfolding write_draft
  write_draft-Outcome compiler draft_id now source takeaways (err e) db alive = alive
  write_draft-Outcome compiler draft_id now source takeaways (ok result) db alive =
      session-Outcome 2 _ db alive
        (after_draft-Outcome now result.title (world.commits 2 db) _ (keeps 2 db alive))

  takeaways_then-Outcome :
      (compiler : Compiler) (draft_id : String) (now : ℕ) (source : Source)
      (doc : NormalizedDocument) (r : Result (List String)) (db : Db)
      → Alive db.jobs
      → Outcome (takeaways_then compiler world draft_id now job_id source doc r db)
  unfolding takeaways_then
  takeaways_then-Outcome compiler draft_id now source doc (err e) db alive = alive
  takeaways_then-Outcome compiler draft_id now source doc (ok takeaways) db alive =
      write_draft-Outcome compiler draft_id now source takeaways _ db alive

  after_saving-Outcome :
      (now : ℕ) (db : Db) (r : Result Article × Drafts.Db)
      → Alive db.jobs
      → Outcome (after_saving world now job_id db r)
  unfolding after_saving finish
  after_saving-Outcome now db (err e, d) alive = alive
  after_saving-Outcome now db (ok article, d) alive =
      session-Outcome 3 _ (record db { compiling = d }) alive
        (ends now _ (world.commits 3 (record db { compiling = d }))
          (keeps 3 (record db { compiling = d }) alive))

  save_row_of-Outcome :
      (compiler : Compiler) (now : ℕ) (result : CompilationResult) (s : Option Source) (db : Db)
      → Alive db.jobs
      → Outcome (save_row_of compiler world now job_id result s db)
  unfolding save_row_of
  save_row_of-Outcome compiler now result none db alive = alive
  save_row_of-Outcome compiler now result (some source) db alive =
      after_saving-Outcome now db _ alive

  save_compiled-Outcome :
      (compiler : Compiler) (now : ℕ) (id : String) (r : Result CompilationResult) (db : Db)
      → Alive db.jobs
      → Outcome (save_compiled compiler world now job_id id r db)
  unfolding save_compiled
  save_compiled-Outcome compiler now id (err e) db alive = alive
  save_compiled-Outcome compiler now id (ok result) db alive =
      session-Outcome 2 _ db alive
        (save_row_of-Outcome compiler now result _ (world.commits 2 db) (keeps 2 db alive))

  compile_doc-Outcome :
      (compiler : Compiler) (interactive : Bool) (draft_id : String) (now : ℕ) (source : Source)
      (doc : Result NormalizedDocument) (db : Db)
      → Alive db.jobs
      → Outcome (compile_doc compiler world interactive draft_id now job_id source doc db)
  unfolding compile_doc compile_interactive compile_direct
  compile_doc-Outcome compiler interactive draft_id now source (err e) db alive = alive
  compile_doc-Outcome compiler true draft_id now source (ok doc) db alive =
      takeaways_then-Outcome compiler draft_id now source doc _ db alive
  compile_doc-Outcome compiler false draft_id now source (ok doc) db alive =
      save_compiled-Outcome compiler now source.id _ db alive

  reread-Outcome :
      (compiler : Compiler) (interactive : Bool) (draft_id : String) (now : ℕ) (s : Option Source)
      (db : Db)
      → is_some s ≡ true
      → Alive db.jobs
      → Outcome (reread compiler world interactive draft_id now job_id s db)
  unfolding reread
  reread-Outcome compiler interactive draft_id now none db there alive = absurd (ground arith)
  reread-Outcome compiler interactive draft_id now (some source) db there alive =
      compile_doc-Outcome compiler interactive draft_id now source _ db alive

  pub attempt-Outcome :
      (compiler : Compiler) (interactive : Bool) (draft_id : String) (now : ℕ) (source : Source)
      (doc : Option NormalizedDocument) (db : Db)
      → source.id ≡ source_id
      → is_some (get_row Source.id source_id db.compiling.sources) ≡ true
      → Alive db.jobs
      → Outcome (attempt compiler world interactive draft_id now job_id source doc db)
  unfolding attempt
  attempt-Outcome compiler interactive draft_id now source (some doc) db same there alive =
      compile_doc-Outcome compiler interactive draft_id now source (ok doc) db alive
  attempt-Outcome compiler interactive draft_id now source none db same there alive =
      session-Outcome 1 _ db alive (
        reread-Outcome compiler interactive draft_id now _ (world.commits 1 db)
          (subst (λ i. is_some (get_row Source.id i (world.commits 1 db).compiling.sources) ≡ true)
            (sym same) (source_kept 1 db ∙ there))
          (keeps 1 db alive))
