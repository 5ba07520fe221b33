-- ===== src/Audit/Query.antt =====
-- internal/audit/sqlite.go: the queries, as functions on the rows of the table, and how they fail.
pub mod Percentile
pub mod Groups
pub mod Top
pub mod Purged
use linkedin_api.Base.{
  ℕ, zero, suc, ◌+◌, ◌*◌, ◌/◌, ◌⊎◌, inl, inr, Bool, not, ◌&&◌, Option, none, some, List, [], ◌∷◌,
  leb, ◌==◌, if◌then◌else◌, length, is_nil, get_elem?, keep, Text, codes, text_eq,
}
use linkedin_api.Base.Dict.{Dict, get, put}
use linkedin_api.Domain.Errors.{Err}
use linkedin_api.Audit.Report.{Count, Summary}
use linkedin_api.Audit.Store.{Row, Table, bool_to_int, milliseconds}

-- WHERE ts >= ?
unfoldable pub window : ℕ → Table → Table
window since table = keep (λ r. leb (milliseconds since) r.ts) table

-- SUM(CASE WHEN ... THEN 1 ELSE 0 END)
unfoldable pub count_if {ℓ} : {A : Type ℓ} → (A → Bool) → List A → ℕ
count_if p [] = 0
count_if p (x ∷ xs) = bool_to_int (p x) + count_if p xs

unfoldable pub sum : (Row → ℕ) → Table → ℕ
sum f [] = 0
sum f (r ∷ rows) = f r + sum f rows

-- ORDER BY latency_ms
unfoldable pub insert_number : ℕ → List ℕ → List ℕ
insert_number n [] = n ∷ []
insert_number n (m ∷ ms) = let rest = insert_number n ms in if leb n m then n ∷ m ∷ ms else m ∷ rest

unfoldable pub sort_numbers : List ℕ → List ℕ
unfolding insert_number
sort_numbers [] = []
sort_numbers (n ∷ ns) = insert_number n (sort_numbers ns)

abbrev pub latencies : Table → List ℕ
latencies [] = []
latencies (r ∷ rows) = r.latency_ms ∷ latencies rows

-- percentile. Without a row, the code makes zero of sql.ErrNoRows.
unfoldable pub percentile : ℕ → Table → ℕ → ℕ
unfolding window sort_numbers
percentile since table p =
    let rows = window since table in
    elim (get_elem? (sort_numbers (latencies rows)) (length rows * p / 100)) [
      | none ↦ 0
      | some v ↦ v
    ]

-- GROUP BY a column, with COUNT(*).
abbrev pub tally : Text → Dict ℕ → Dict ℕ
tally key m = put key (elim (get key m) [ none ↦ 1 | some n ↦ suc n ]) m

unfoldable pub groups : (Row → Text) → Table → Dict ℕ
unfolding get put
groups key [] = []
groups key (r ∷ rows) = tally (key r) (groups key rows)

-- outcomes
unfoldable pub outcomes : ℕ → Table → Dict ℕ
unfolding window groups
outcomes since table =
    groups (λ r. r.upstream_outcome)
      (keep (λ r. not (is_nil r.upstream_outcome)) (window since table))

-- What Summary returns if no query fails.
unfoldable pub summary : ℕ → Table → Summary
unfolding window count_if sum percentile outcomes text_eq
summary since table =
    let rows = window since table in
    record {
      since = since;
      total = length rows;
      cache_hits = sum (λ r. r.cached) rows;
      cache_misses = count_if (λ r. r.cached == 0 && r.upstream_called == 1) rows;
      upstream_hits = sum (λ r. r.upstream_called) rows;
      rate_limited = count_if (λ r. not (text_eq r.rate_decision (codes "allowed"))) rows;
      auth_failures = count_if (λ r. text_eq r.error_class (codes "unauthorized")) rows;
      not_found = count_if (λ r. text_eq r.error_class (codes "profile_not_found")) rows;
      server_errors = count_if (λ r. leb 500 r.status) rows;
      avg_latency_ms =
          if is_nil rows then none else some (sum (λ r. r.latency_ms) rows, length rows);
      p95_latency_ms = percentile since table 95;
      outcomes = outcomes since table;
    }

-- ORDER BY c DESC: groups of one size stand in any order in SQL, here in that of `groups`.
unfoldable pub insert_group : Text × ℕ → Dict ℕ → Dict ℕ
insert_group g [] = g ∷ []
insert_group g (h ∷ m) = let rest = insert_group g m in if leb h.1 g.1 then g ∷ h ∷ m else h ∷ rest

unfoldable pub sort_groups : Dict ℕ → Dict ℕ
unfolding insert_group
sort_groups [] = []
sort_groups (g ∷ m) = insert_group g (sort_groups m)

-- LIMIT
unfoldable pub take {ℓ} : {A : Type ℓ} → ℕ → List A → List A
take zero xs = []
take (suc n) [] = []
take (suc n) (x ∷ xs) = x ∷ take n xs

-- topBy, with the column that groups the rows that a query keeps.
unfoldable pub top_by : (Row → Text) → ℕ → Table → Dict ℕ
unfolding groups sort_groups take
top_by key limit rows = take limit (sort_groups (groups key rows))

abbrev pub counts : Dict ℕ → List Count
counts [] = []
counts ((k, n) ∷ m) = record { key = k; count = n } ∷ counts m

unfoldable pub top_profiles : ℕ → ℕ → Table → List Count
unfolding top_by window
top_profiles since limit table =
    counts (
      top_by (λ r. r.profile_id) limit (keep (λ r. not (is_nil r.profile_id)) (window since table)))

unfoldable pub top_clients : ℕ → ℕ → Table → List Count
unfolding top_by window
top_clients since limit table = counts (top_by (λ r. r.client_ip) limit (window since table))

unfoldable pub top_upstream_clients : ℕ → ℕ → Table → List Count
unfolding top_by window
top_upstream_clients since limit table =
    counts
      (top_by (λ r. r.client_ip) limit (keep (λ r. r.upstream_called == 1) (window since table)))

-- The error of each query, if it fails. topBy and the methods that call it return it as it is.
pub record Failures : Type 0 where
  pub scan : Option Err
  pub percentile : Option Err
  pub outcomes : Option Err
  pub top_profiles : Option Err
  pub top_clients : Option Err
  pub top_upstream_clients : Option Err

abbrev pub unless {ℓ} : {A : Type ℓ} → Option Err → A → Err ⊎ A
unless none x = inr x
unless (some err) x = inl err

-- Summary: its row, then the percentile, then the outcomes, until one fails.
unfoldable pub query_summary : Failures → ℕ → Table → Err ⊎ Summary
unfolding summary
query_summary f since table = elim f.scan [
  | some err ↦ inl err
  | none ↦ elim f.percentile [ some err ↦ inl err | none ↦ unless f.outcomes (summary since table) ]
]
