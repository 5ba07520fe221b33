-- ===== src/Observability.antt =====
-- internal/observability: the collectors that NewMetrics registers, with their labels, and the level and
-- format of the logger. Help texts, buckets and the collectors of the Go runtime and the process are
-- left out. What the collectors count is a field of each component's state.
mod Tests
use linkedin_api.Base.{
  ◌≡◌, refl, Bool, true, false, not, ◌&&◌, ◌||◌, Option, none, some, List, [], ◌∷◌, arith,
  if◌then◌else◌, any, Text, codes, text_eq, inl, inr, Bool-cases,
}
use linkedin_api.Base.{trim_space, lower}

pub data Kind : Type 0 where
  counter gauge histogram : Kind

pub record Collector : Type 0 where
  pub kind : Kind
  pub name : Text
  pub labels : List Text

abbrev pub describe : Kind → Text → List Text → Collector
describe kind name labels = record { kind = kind; name = name; labels = labels }

-- NewMetrics: the fields of Metrics, in the order in which they are registered.
abbrev pub metrics : List Collector
metrics =
    describe counter (codes "http_requests_total")
      (codes "route" ∷ codes "method" ∷ codes "status" ∷ [])
    ∷ describe histogram (codes "http_request_duration_seconds") (codes "route" ∷ [])
    ∷ describe counter (codes "upstream_requests_total") (codes "endpoint" ∷ codes "status" ∷ [])
    ∷ describe histogram (codes "upstream_request_duration_seconds") (codes "endpoint" ∷ [])
    ∷ describe counter (codes "upstream_retries_total") []
    ∷ describe counter (codes "upstream_timeouts_total") []
    ∷ describe counter (codes "upstream_rate_limited_total") []
    ∷ describe counter (codes "upstream_auth_failures_total") []
    ∷ describe counter (codes "parse_failures_total") []
    ∷ describe counter (codes "profile_cache_total") (codes "result" ∷ [])
    ∷ describe counter (codes "profiles_retrieved_total") (codes "result" ∷ [])
    ∷ describe counter (codes "upstream_rejected_total") (codes "reason" ∷ [])
    ∷ describe gauge (codes "upstream_circuit_open") []
    ∷ describe counter (codes "upstream_circuit_trips_total") []
    ∷ describe counter (codes "upstream_requests_coalesced_total") []
    ∷ describe gauge (codes "upstream_session_healthy") []
    ∷ describe counter (codes "caller_session_invalid_total") []
    ∷ describe gauge (codes "caller_sessions_unhealthy") []
    ∷ describe counter (codes "audit_events_written_total") []
    ∷ describe counter (codes "audit_events_dropped_total") []
    ∷ describe counter (codes "audit_write_errors_total") []
    ∷ []

pub data Level : Type 0 where
  debug info warn error : Level

-- parseLevel
unfoldable pub parse_level : Text → Level
unfolding lower trim_space text_eq
parse_level level =
    let s = lower (trim_space level) in
    if text_eq s (codes "debug")
    then debug
    else if text_eq s (codes "warn") || text_eq s (codes "warning")
    then warn
    else if text_eq s (codes "error")
    then error
    else info

pub data Format : Type 0 where
  text_format json_format : Format

-- NewLogger
unfoldable pub new_logger : Text → Text → Level × Format
unfolding parse_level
new_logger level format =
    (parse_level level, if text_eq (lower format) (codes "text") then text_format else json_format)
