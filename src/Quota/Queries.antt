-- ===== src/Quota/Queries.antt =====
-- services/quota.py `check_query_quota`: how many queries a day lets through.
use wikimind.Prelude.{
  ℕ, zero, suc, ◌+◌, ◌-◌, ◌≤◌, ◌<◌, min, String, eq_iff, eq_refl, ◌≡◌, ◌≢◌, refl, Bool, true, false,
  none, some, List, [], ◌∷◌, find, is_ok, ltb, ltb→lt, arith, Option-cases, Bool-cases, inl, inr,
}
use wikimind.Accounts.{Plan}
use wikimind.Quota.{
  Usage, QueryCount, limit_of, is_count_of, ensure_count, increment_count, queries_on,
  check_query_quota,
}

abbrev count_in : String → ℕ → List QueryCount → ℕ
count_in user_id date rows = elim (find (is_count_of user_id date) rows) [
  | none ↦ 0
  | some row ↦ row.count
]

-- A row of 0 that is put in reads as no row does.
count_in-ensure_count :
    (u v : String) (d e : ℕ) (rows : List QueryCount)
    → count_in v e (ensure_count u d rows) ≡ count_in v e rows
unfolding ensure_count is_count_of
count_in-ensure_count u v d e rows = elim (Option-cases (find (is_count_of u d) rows)) [
  | inl absent ↦ ground (arith, eq_iff u v)
  | inr (row, present) ↦ ground arith
]

find-ensure_count :
    (u : String) (d : ℕ) (rows : List QueryCount)
    → find (is_count_of u d) (ensure_count u d rows) ≢ none
unfolding ensure_count is_count_of
find-ensure_count u d rows = ground (arith, eq_refl u)

-- With a row for the day, the increment adds one.
count_in-increment_self :
    (u : String) (d : ℕ) (rows : List QueryCount)
    → find (is_count_of u d) rows ≢ none
    → count_in u d (increment_count u d rows) ≡ suc (count_in u d rows)
unfolding increment_count is_count_of
count_in-increment_self u d [] h = absurd (h refl)
count_in-increment_self u d (row ∷ rows) h =
    ground (arith, count_in-increment_self u d rows, eq_iff row.user_id u)

-- One accepted query, one refused query, as the row of the day shows it.
module _ (u : String) (plan : Plan) (d limit : ℕ)
    (limited : limit_of plan.max_queries_per_day ≡ some limit) where
  accepted :
      (usage : Usage)
      → queries_on u d usage < limit
      → (is_ok (check_query_quota u plan d usage).0 ≡ true)
        × (queries_on u d (check_query_quota u plan d usage).1 ≡ suc (queries_on u d usage))
  unfolding check_query_quota queries_on
  accepted usage h = ground (
    arith,
    limited,
    count_in-ensure_count u u d d usage.query_counts,
    count_in-increment_self u d (ensure_count u d usage.query_counts),
    find-ensure_count u d usage.query_counts,
  )

  refused :
      (usage : Usage)
      → limit ≤ queries_on u d usage
      → (is_ok (check_query_quota u plan d usage).0 ≡ false)
        × (queries_on u d (check_query_quota u plan d usage).1 ≡ queries_on u d usage)
  unfolding check_query_quota queries_on
  refused usage h = ground (arith, limited, count_in-ensure_count u u d d usage.query_counts)

-- `n` queries one after another; how many were accepted, and the rows after them.
abbrev pub tick : Bool → ℕ → ℕ
tick true n = suc n
tick false n = n

pub run_queries : ℕ → String → Plan → ℕ → Usage → ℕ × Usage
run_queries zero u plan d usage = (0, usage)
run_queries (suc n) u plan d usage =
    let (k, after) = run_queries n u plan d (check_query_quota u plan d usage).1 in
    (tick (is_ok (check_query_quota u plan d usage).0) k, after)

-- Of `n` queries of a user on one day a plan with a daily limit accepts as many as are left, and
-- the day's row counts exactly the accepted ones.
pub run_queries_lem :
    (n : ℕ) (u : String) (plan : Plan) (d limit : ℕ) (usage : Usage)
    → limit_of plan.max_queries_per_day ≡ some limit
    → ((run_queries n u plan d usage).0 ≡ min n (limit - queries_on u d usage))
      × (queries_on u d (run_queries n u plan d usage).1
          ≡ queries_on u d usage + (run_queries n u plan d usage).0)
unfolding run_queries
run_queries_lem zero u plan d limit usage h = omega arith
run_queries_lem (suc n) u plan d limit usage h =
    elim (Bool-cases (ltb (queries_on u d usage) limit)) [
      | inl room ↦
          let step = accepted u plan d limit h usage (ltb→lt _ _ room) in
          let rest = run_queries_lem n u plan d limit (check_query_quota u plan d usage).1 h in
          rw (step.0) (omega (arith, ltb→lt _ _ room))
      | inr full ↦
          let step = refused u plan d limit h usage (ground arith) in
          let rest = run_queries_lem n u plan d limit (check_query_quota u plan d usage).1 h in
          rw (step.0) (ground arith)
    ]
