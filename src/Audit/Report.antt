-- ===== src/Audit/Report.antt =====
-- internal/audit/sqlite.go: the answers of the usage queries. The average is the sum of the latencies
-- over their number, which SQLite divides as floating-point numbers; there is none over no row.
use linkedin_api.Base.{ℕ, Option, Text}
use linkedin_api.Base.Dict.{Dict}

pub record Count : Type 0 where
  pub key : Text
  pub count : ℕ

pub record Summary : Type 0 where
  pub since : ℕ
  pub total : ℕ
  pub cache_hits : ℕ
  pub cache_misses : ℕ
  pub upstream_hits : ℕ
  pub rate_limited : ℕ
  pub auth_failures : ℕ
  pub not_found : ℕ
  pub server_errors : ℕ
  pub avg_latency_ms : Option (ℕ × ℕ)
  pub p95_latency_ms : ℕ
  pub outcomes : Dict ℕ
