-- ===== src/Quota.antt =====
-- services/quota.py: the checks that a request passes before it may create something, and
-- services/plan_routing.py, which picks the model that a plan pays for.
pub mod Queries
pub mod Admission
mod Examples
use wikimind.Prelude.{
  ℕ, zero, suc, String, ◌==◌, ◌+◌, ◌/◌, Bool, true, false, not, ◌&&◌, Option, none, some, List, [],
  ◌∷◌, leb, eqb, count, find, contains, if◌then◌else◌, get_row, save_row, Result, ok, err,
  quota_exceeded, Action,
}
use wikimind.Accounts.{Plan}

-- A share link's columns that the quota reads.
pub record Share : Type 0 where
  pub user_id : String
  pub revoked : Bool

pub record StorageUsage : Type 0 where
  pub user_id : String
  pub total_bytes : ℕ

pub record QueryCount : Type 0 where
  pub user_id : String
  pub date : ℕ
  pub count : ℕ

-- A row of `costlog`; the cost is in micro-dollars.
pub record Cost : Type 0 where
  pub user_id : String
  pub date : ℕ
  pub micro_usd : ℕ

-- `sources` and `articles` hold the owner of each row.
pub record Usage : Type 0 where
  pub sources : List String
  pub articles : List String
  pub shares : List Share
  pub storage : List StorageUsage
  pub query_counts : List QueryCount
  pub costs : List Cost

-- `if not plan.max_…: return`: neither `None` nor 0 is a limit.
unfoldable pub limit_of : Option ℕ → Option ℕ
limit_of none = none
limit_of (some zero) = none
limit_of (some (suc n)) = some (suc n)

-- `if count >= limit: raise QuotaExceededError(resource, count, limit)`
unfoldable pub check_limit : String → Option ℕ → ℕ → Result (Unit {0})
check_limit resource none used = ok tt
check_limit resource (some limit) used =
    if leb limit used then err (quota_exceeded resource used limit) else ok tt

unfoldable pub check_source_quota : String → Plan → Usage → Result (Unit {0})
unfolding limit_of check_limit
check_source_quota user_id plan usage =
    check_limit "source" (limit_of plan.max_sources)
      (count (λ owner. owner == user_id) usage.sources)

unfoldable pub check_article_quota : String → Plan → Usage → Result (Unit {0})
unfolding limit_of check_limit
check_article_quota user_id plan usage =
    check_limit "article" (limit_of plan.max_articles)
      (count (λ owner. owner == user_id) usage.articles)

-- The row of the user's storage, if there is one.
unfoldable pub storage_row : String → Usage → Option StorageUsage
storage_row user_id usage = get_row StorageUsage.user_id user_id usage.storage

check_storage_limit : Option ℕ → Option StorageUsage → Result (Unit {0})
unfolding check_limit
check_storage_limit limit none = ok tt
check_storage_limit limit (some row) = check_limit "storage" limit row.total_bytes

unfoldable pub reserve_storage : String → Plan → Usage → Result (Unit {0})
unfolding limit_of check_storage_limit storage_row
reserve_storage user_id plan usage =
    check_storage_limit (limit_of plan.max_storage_bytes) (storage_row user_id usage)

unfoldable pub check_storage_quota : String → Plan → Usage → Result (Unit {0})
unfolding reserve_storage
check_storage_quota = reserve_storage

-- `UPDATE … SET total_bytes = total_bytes + :n WHERE user_id = :u`: with no such row, nothing.
add_bytes : String → ℕ → List StorageUsage → List StorageUsage
add_bytes user_id n [] = []
add_bytes user_id n (row ∷ rows) =
    (if row.user_id == user_id then record row { total_bytes = row.total_bytes + n } else row)
    ∷ add_bytes user_id n rows

unfoldable pub commit_storage : String → ℕ → Usage → Usage
unfolding add_bytes
commit_storage user_id n usage = record usage { storage = add_bytes user_id n usage.storage }

unfoldable pub is_count_of : String → ℕ → QueryCount → Bool
is_count_of user_id date row = row.user_id == user_id && eqb row.date date

-- `INSERT … VALUES (:uid, :d, 0) ON CONFLICT DO NOTHING`
ensure_count : String → ℕ → List QueryCount → List QueryCount
unfolding is_count_of
ensure_count user_id date rows = elim (find (is_count_of user_id date) rows) [
  | none ↦ record { user_id = user_id; date = date; count = 0 } ∷ rows
  | some _ ↦ rows
]

-- `UPDATE query_count SET count = count + 1 WHERE user_id = :uid AND date = :d`
increment_count : String → ℕ → List QueryCount → List QueryCount
unfolding is_count_of
increment_count user_id date [] = []
increment_count user_id date (row ∷ rows) =
    (if is_count_of user_id date row then record row { count = suc row.count } else row)
    ∷ increment_count user_id date rows

-- The count of the day, 0 where there is no row.
unfoldable pub queries_on : String → ℕ → Usage → ℕ
queries_on user_id date usage = elim (find (is_count_of user_id date) usage.query_counts) [
  | none ↦ 0
  | some row ↦ row.count
]

with_count_row : String → ℕ → Usage → Usage
unfolding ensure_count
with_count_row user_id date usage = record usage {
  query_counts = ensure_count user_id date usage.query_counts;
}

with_query : String → ℕ → Usage → Usage
unfolding increment_count
with_query user_id date usage = record usage {
  query_counts = increment_count user_id date usage.query_counts;
}

query_or_raise : ℕ → String → ℕ → Action Usage (Unit {0})
unfolding with_query queries_on
query_or_raise limit user_id date usage =
    if leb limit (queries_on user_id date usage)
    then (err (quota_exceeded "query" (queries_on user_id date usage) limit), usage)
    else (ok tt, with_query user_id date usage)

check_query_limit : Option ℕ → String → ℕ → Action Usage (Unit {0})
unfolding query_or_raise with_count_row
check_query_limit none user_id date usage = (ok tt, usage)
check_query_limit (some limit) user_id date usage =
    query_or_raise limit user_id date (with_count_row user_id date usage)

-- The check that also counts the query, on the day `date`.
unfoldable pub check_query_quota : String → Plan → ℕ → Action Usage (Unit {0})
unfolding limit_of check_query_limit
check_query_quota user_id plan date =
    check_query_limit (limit_of plan.max_queries_per_day) user_id date

unfoldable pub is_active_share : String → Share → Bool
is_active_share user_id share = share.user_id == user_id && not share.revoked

unfoldable pub check_share_quota : String → Plan → Usage → Result (Unit {0})
unfolding limit_of check_limit is_active_share
check_share_quota user_id plan usage =
    check_limit "share_link" (limit_of plan.max_active_shares)
      (count (is_active_share user_id) usage.shares)

unfoldable pub check_export_format : Plan → String → Result (Unit {0})
check_export_format plan format =
    if contains plan.allowed_exports format then ok tt else err (quota_exceeded "export" 0 0)

unfoldable pub check_mcp_access : Plan → Result (Unit {0})
check_mcp_access plan = if plan.mcp_enabled then ok tt else err (quota_exceeded "mcp" 0 0)

-- `SUM(cost_usd)` of the user's day
unfoldable pub spent_on : String → ℕ → List Cost → ℕ
spent_on user_id date [] = 0
spent_on user_id date (c ∷ cs) =
    (if c.user_id == user_id && eqb c.date date then c.micro_usd else 0) + spent_on user_id date cs

-- `int(today_usd * 100)`: a cent is 10,000 micro-dollars, and a part of one is dropped.
unfoldable pub check_daily_llm_spend : String → Plan → ℕ → Usage → Result (Unit {0})
unfolding limit_of check_limit spent_on
check_daily_llm_spend user_id plan date usage =
    check_limit "llm_spend" (limit_of plan.daily_llm_spend_cap_cents)
      (spent_on user_id date usage.costs / 10000)
