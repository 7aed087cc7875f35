-- ===== src/Jobs/Examples.antt =====
-- A compilation of one source, with the article's session refused by the database: alone, and beside
-- a job that a killed worker left running.
use wikimind.Prelude.{
  eqb, if◌then◌else◌, integrity_error, ◌≡◌, refl, true, false, none, some, [], ◌∷◌, get_row, ok,
  err, value_error,
}
use wikimind.Drafts
use wikimind.Drafts.{Source, CompilationResult, NormalizedDocument, Services}
use wikimind.Jobs.{
  Job, running, compile_source_job, Db, Compiler, World, runs_for, is_running, compile_source,
}
use wikimind.Jobs.Failures.{has_failed, failure_not_recorded}
use wikimind.Jobs.Endings.{LeavesAlone, has_ended, compile_source_ends}

abbrev source : Source
source = record {
  id = "s1";
  user_id = "u1";
  title = some "Note";
  clean_text = some "text";
  file_path = none;
  status = Drafts.pending;
  error_message = none;
}

abbrev services : Services
services = record {
  dumps = λ takeaways. "[]";
  model_dump_json = λ r. "{}";
  model_validate_json = λ json. err (value_error "unused");
  had_committed = λ draft. false;
  read = λ user_id path. ok none;
  compile_with_guidance = λ doc guidance. ok none;
  save_article = λ r s db. (ok (record { slug = "note"; title = r.title }), db);
}

abbrev result : CompilationResult
result = record { title = "Note"; summary = "A note"; article_body = "text" }

abbrev compiler : Compiler
compiler = record {
  services = services;
  extract_takeaways = λ doc. ok [];
  compile = λ doc. ok (some result);
  message = λ e. "no model";
}

abbrev idle : Db
idle = record { compiling = record { sources = source ∷ []; drafts = [] }; jobs = [] }

abbrev doc : NormalizedDocument
doc = record { raw_source_id = "s1"; clean_text = "text"; title = "Note" }

-- Nobody else works; the session that would save the article is refused.
abbrev alone : World
alone = record {
  commits = λ n db. db;
  refuses = λ n. if eqb n 2 then some integrity_error else none;
}

nobody-LeavesAlone : LeavesAlone (λ n db. db) "j1" "s1"
nobody-LeavesAlone = record {
  job_kept = λ n db. refl;
  runs_kept = λ n db. refl;
  source_kept = λ n db. refl;
}

compile_source_ends_example :
    has_ended "j1" (compile_source compiler alone false "j1" "d1" 5 "s1" "u1" none idle).1 ≡ true
unfolding get_row
compile_source_ends_example =
    compile_source_ends compiler alone false "j1" "d1" 5 "s1" "u1" none idle nobody-LeavesAlone refl
      refl refl refl refl

abbrev left_over : Job
left_over = record {
  id = "j0";
  user_id = "u1";
  job_type = compile_source_job;
  status = running;
  source_id = some "s1";
  started_at = some 1;
  completed_at = none;
  error = none;
  result_summary = none;
}

abbrev busy : Db
busy = record idle { jobs = left_over ∷ [] }

failure_not_recorded_example :
    has_failed "j1" (compile_source compiler alone false "j1" "d1" 5 "s1" "u1" (some doc) busy).1
    ≡ false
unfolding get_row runs_for is_running
failure_not_recorded_example =
    failure_not_recorded compiler alone false "j1" "d1" 5 "s1" "u1" (some doc) busy left_over []
      nobody-LeavesAlone refl refl refl
