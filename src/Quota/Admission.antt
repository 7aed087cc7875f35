-- ===== src/Quota/Admission.antt =====
-- api/routes/ingest.py: an ingest request, from the quota checks to the new source row.
use wikimind.Prelude.{
  ℕ, zero, ◌*◌, String, ◌==◌, Option, none, some, List, [], ◌∷◌, count, Result, ok, err, Error,
  Action, ◌>>◌, roll_back,
}
use wikimind.Accounts.{Plan}
use wikimind.Quota.{Usage, check_source_quota, check_storage_quota, commit_storage}

-- What the ingest service does with a request that passed the checks: a new source, an earlier one
-- that has the same content (`token_count` of either), or an exception.
pub data Ingested : Type 0 where
  created : ℕ → Ingested
  replayed : ℕ → Ingested
  failed : Error → Ingested

-- `if plan and source.token_count: await commit_storage(session, user_id, source.token_count * 4)`
count_bytes : Option Plan → String → ℕ → Usage → Usage
count_bytes none user_id tokens usage = usage
count_bytes (some plan) user_id zero usage = usage
count_bytes (some plan) user_id tokens usage = commit_storage user_id (tokens * 4) usage

store_source : Option Plan → String → Ingested → Action Usage (Unit {0})
unfolding count_bytes
store_source plan user_id (created tokens) usage =
    (ok tt, count_bytes plan user_id tokens (record usage { sources = user_id ∷ usage.sources }))
store_source plan user_id (replayed tokens) usage = (ok tt, count_bytes plan user_id tokens usage)
store_source plan user_id (failed e) usage = (err e, usage)

and_then : Result (Unit {0}) → Result (Unit {0}) → Result (Unit {0})
and_then (ok tt) next = next
and_then (err e) next = err e

check_ingest : Option Plan → String → Action Usage (Unit {0})
unfolding and_then
check_ingest none user_id usage = (ok tt, usage)
check_ingest (some plan) user_id usage = (
  and_then (check_source_quota user_id plan usage) (check_storage_quota user_id plan usage),
  usage,
)

-- The whole request: an exception rolls back what it wrote.
pub ingest_url : Option Plan → String → Ingested → Action Usage (Unit {0})
unfolding check_ingest store_source
ingest_url plan user_id outcome usage =
    roll_back usage ((check_ingest plan user_id >> store_source plan user_id outcome) usage)

abbrev pub sources_of : String → Usage → ℕ
sources_of user_id usage = count (λ owner. owner == user_id) usage.sources

-- A series of requests of any users, each under the plan that its user has.
pub serve : (String → Option Plan) → List (String × Ingested) → Usage → Usage
serve plan_of [] usage = usage
serve plan_of ((user_id, outcome) ∷ rest) usage =
    serve plan_of rest (ingest_url (plan_of user_id) user_id outcome usage).1
