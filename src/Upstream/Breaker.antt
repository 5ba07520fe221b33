-- ===== src/Upstream/Breaker.antt =====
-- internal/upstream/guard.go: the breaker that composes two sub-breakers. `record` is a reserved word, so
-- that is `record_result` here.
pub mod Invariant
pub mod Isolation
pub mod Trips
pub mod Cooldown
pub mod Probe
pub mod Tests
use linkedin_api.Base.{
  ℕ, zero, suc, ◌+◌, ◌-◌, ◌*◌, ◌/◌, ◌%◌, ◌^◌, ◌≤◌, ◌<◌, ◌≡◌, refl, sym, ap, ◌∙◌, subst, fun_ext,
  ◌≢◌, ◌↔◌, ◌⊎◌, inl, inr, Bool, true, false, not, ◌&&◌, ◌||◌, Option, none, some, List, [], ◌∷◌,
  ◌++◌, map, arith, ltb, leb, ◌==◌, ==_iff, if◌then◌else◌, Bool-cases, Option-cases, is_some,
  is_none, length, length-append, is_nil, get_elem?, remove_at, length-remove_at, keep,
  length-keep-le, any, all, All, All-append, All-keep, All-remove_at, Text, codes, text_eq,
  text_eq_iff, text_eq_refl, String,
}
use linkedin_api.Base.Duration.{second, of_seconds, shl, dur_lt, add_duration}
use linkedin_api.Domain.{CredentialMode, mode_server, mode_caller}
use linkedin_api.Domain.Errors.{
  Code, code_invalid_request, code_unauthorized, code_caller_session_invalid,
  code_profile_not_found, code_rate_limited, code_upstream_auth_failed, code_upstream_rate_limited,
  code_upstream_timeout, code_upstream_unavailable, code_upstream_parse_error, code_internal, Err,
  Error, error_code, error_retry_after, as_error,
}
use linkedin_api.Upstream.SubBreaker.{
  FailCat, SubBreaker, blocking, can_probe, cat_auth, cat_general, cat_none, classify,
  classify_code, close, fail, is_auth, is_general, max_session_strikes, new_sub, next_strikes,
  probe_result, retry_after_of, retry_after_seconds, settle, trip, trip_cooldown,
}

-- The gauges and counters that `sync` keeps, and the lines that it logs.
pub record Metrics : Type 0 where
  pub circuit_trips : ℕ
  pub circuit_open : ℕ
  pub session_healthy : ℕ

pub data Notice : Type 0 where
  session_unhealthy : ℕ → Notice
  session_recovered : Notice

pub record Breaker : Type 0 where
  pub general : SubBreaker
  pub session : SubBreaker
  pub metrics : Option Metrics
  pub logger : Option (List Notice)

-- New: both sub-breakers closed, the session reported healthy.
pub record Config : Type 0 where
  pub max_concurrency : ℕ
  pub failure_threshold : ℕ
  pub breaker_cooldown : ℕ
  pub session_threshold : ℕ
  pub session_cooldown : ℕ

unfoldable pub new_breaker : Config → Breaker
unfolding new_sub
new_breaker c = record {
  general = new_sub c.failure_threshold c.breaker_cooldown false;
  session = new_sub c.session_threshold c.session_cooldown true;
  metrics = some (record { circuit_trips = 0; circuit_open = 0; session_healthy = 1 });
  logger = some [];
}

abbrev pub is_server : CredentialMode → Bool
is_server mode_server = true
is_server mode_caller = false

-- The last part of `blocked`: it admits one probe at most, the general breaker's first.
unfoldable pub admit_probe : Breaker → ℕ → CredentialMode → Breaker
unfolding can_probe
admit_probe b now mode =
    if can_probe b.general now
    then record b { general = record (b.general) { probing = true } }
    else if is_server mode && can_probe b.session now
    then record b { session = record (b.session) { probing = true } }
    else b

-- `none` admits the call.
unfoldable pub blocked : Breaker → ℕ → CredentialMode → Option ℕ × Breaker
unfolding blocking admit_probe
blocked b now mode = elim (blocking b.general now) [
  | some ra ↦ (some ra, b)
  | none ↦ elim (if is_server mode then blocking b.session now else none) [
    | some ra ↦ (some ra, b)
    | none ↦ (none, admit_probe b now mode)
  ]
]

abbrev pub gauge : Bool → ℕ
gauge b = if b then 1 else 0

abbrev pub differ : Bool → Bool → Bool
differ a b = if a then not b else b

unfoldable pub sync_metrics : SubBreaker → SubBreaker → Bool → Bool → Metrics → Metrics
sync_metrics g s prev_general_open prev_session_open m =
    let rose = λ (now before : Bool). if now && not before then 1 else 0 in
    let is_open = g.is_open || s.is_open in
    record {
      circuit_trips =
          m.circuit_trips + rose g.is_open prev_general_open + rose s.is_open prev_session_open;
      circuit_open =
          if differ is_open (prev_general_open || prev_session_open)
          then gauge is_open
          else m.circuit_open;
      session_healthy =
          if differ s.is_open prev_session_open then gauge (not s.is_open) else m.session_healthy;
    }

unfoldable pub sync_log : SubBreaker → Bool → ℕ → List Notice → List Notice
sync_log s prev_session_open now log =
    if differ s.is_open prev_session_open
    then (if s.is_open
        then elim s.open_until [
          | none ↦ log ++ session_unhealthy 1 ∷ []
          | some until ↦ log ++ session_unhealthy (retry_after_seconds until now) ∷ []
        ]
        else log ++ session_recovered ∷ [])
    else log

unfoldable pub sync : Breaker → ℕ → Bool → Bool → Breaker
sync b now prev_general_open prev_session_open = record b {
  metrics = elim b.metrics [
    | none ↦ none
    | some m ↦ some (sync_metrics b.general b.session prev_general_open prev_session_open m)
  ];
  logger = elim b.logger [
    | none ↦ none
    | some log ↦ some (sync_log b.session prev_session_open now log)
  ];
}

-- record
unfoldable pub record_result : Breaker → Option Err → ℕ → CredentialMode → Breaker
record_result b err now mode =
    let cat = classify err in
    let ra = retry_after_of err in
    let g = settle b.general cat (is_general cat) now ra in
    let s = if is_server mode then settle b.session cat (is_auth cat) now ra else b.session in
    sync (record b { general = g; session = s }) now b.general.is_open b.session.is_open
