-- ===== src/Upstream/Breaker/Invariant.antt =====
-- The breaker between two calls: what holds of each sub-breaker, and of the gauges.
use linkedin_api.Base.{
  ℕ, ◌≤◌, ◌<◌, ◌≡◌, inl, inr, Bool, true, not, ◌||◌, Option, none, some, List, [], ◌∷◌, arith,
  if◌then◌else◌, Option-cases, is_some,
}
use linkedin_api.Domain.{CredentialMode, mode_server, mode_caller}
use linkedin_api.Domain.Errors.{Err}
use linkedin_api.Upstream.Breaker.{
  Metrics, Breaker, Config, new_breaker, is_server, blocked, gauge, sync_metrics, sync,
  record_result,
}
use linkedin_api.Upstream.SubBreaker.{
  FailCat, classify, retry_after_of, is_general, is_auth, max_session_strikes, SubBreaker,
  can_probe, settle,
}

pub record SubInv (s : SubBreaker) : Type 0 where
  pub threshold_pos : 0 < s.threshold
  pub below : s.failures < s.threshold
  pub strikes_capped : s.strikes ≤ max_session_strikes
  pub until_open : is_some s.open_until ≡ s.is_open
  pub probe_open : s.probing ≡ true → s.is_open ≡ true

-- The gauges tell the truth.
abbrev pub Gauges : Bool → Bool → Option Metrics → Type 0
Gauges general session none = Unit {0}
Gauges general session (some m) =
    (m.circuit_open ≡ gauge (general || session)) × (m.session_healthy ≡ gauge (not session))

pub record Inv (b : Breaker) : Type 0 where
  pub general : SubInv b.general
  pub session : SubInv b.session
  pub gauges : Gauges b.general.is_open b.session.is_open b.metrics

pub settle-SubInv :
    (s : SubBreaker) (cat : FailCat) (failed : Bool) (now ra : ℕ)
    → SubInv s
    → SubInv (settle s cat failed now ra)
unfolding settle
settle-SubInv s cat failed now ra h = ground arith

sync_metrics-Gauges :
    (g s : SubBreaker) (pg ps : Bool) (m : Metrics)
    → m.circuit_open ≡ gauge (pg || ps)
    → m.session_healthy ≡ gauge (not ps)
    → ((sync_metrics g s pg ps m).circuit_open ≡ gauge (g.is_open || s.is_open))
      × ((sync_metrics g s pg ps m).session_healthy ≡ gauge (not s.is_open))
unfolding sync_metrics
sync_metrics-Gauges g s pg ps m h k = ground arith

blocking_open : (s : SubBreaker) (now : ℕ) → SubInv s → can_probe s now ≡ true → s.is_open ≡ true
unfolding can_probe
blocking_open s now h e = ground arith

pub blocked-Inv :
    (b : Breaker) (now : ℕ) (mode : CredentialMode) → Inv b → Inv (blocked b now mode).1
unfolding blocked
blocked-Inv b now mode h = ground arith

-- One sub-breaker's part of `record`.
settle_session-SubInv :
    (s : SubBreaker) (cat : FailCat) (now ra : ℕ) (mode : CredentialMode)
    → SubInv s
    → SubInv (if is_server mode then settle s cat (is_auth cat) now ra else s)
settle_session-SubInv s cat now ra mode_server h = settle-SubInv s cat (is_auth cat) now ra h
settle_session-SubInv s cat now ra mode_caller h = h

sync-Gauges :
    (b : Breaker) (now : ℕ) (pg ps : Bool)
    → ((m : Metrics)
        → b.metrics ≡ some m
        → (m.circuit_open ≡ gauge (pg || ps)) × (m.session_healthy ≡ gauge (not ps)))
    → Gauges b.general.is_open b.session.is_open (sync b now pg ps).metrics
unfolding sync
sync-Gauges b now pg ps h = elim (Option-cases b.metrics) [
  | inl e ↦ rw (e, sync) tt
  | inr (m, e) ↦ rw (e, sync) (sync_metrics-Gauges b.general b.session pg ps m (h m e).0 (h m e).1)
]

known-Gauges :
    (pg ps : Bool) (o : Option Metrics)
    → Gauges pg ps o
    → (m : Metrics) → o ≡ some m
    → (m.circuit_open ≡ gauge (pg || ps)) × (m.session_healthy ≡ gauge (not ps))
known-Gauges pg ps none h m e = cc
known-Gauges pg ps (some n) h m e = ground arith

pub record_result-Inv :
    (b : Breaker) (err : Option Err) (now : ℕ) (mode : CredentialMode)
    → Inv b
    → Inv (record_result b err now mode)
unfolding record_result sync
record_result-Inv b err now mode h = record {
  general = settle-SubInv b.general cat (is_general cat) now ra h.general;
  session = settle_session-SubInv b.session cat now ra mode h.session;
  gauges =
      sync-Gauges settled now b.general.is_open b.session.is_open
        (known-Gauges b.general.is_open b.session.is_open b.metrics h.gauges);
}
  where
    cat : FailCat
    cat = classify err

    ra : ℕ
    ra = retry_after_of err

    settled : Breaker
    settled = record b {
      general = settle b.general cat (is_general cat) now ra;
      session = if is_server mode then settle b.session cat (is_auth cat) now ra else b.session;
    }

-- A guard's history as the breaker sees it: tests on the way in, results on the way out.
pub data Event : Type 0 where
  enters : ℕ → CredentialMode → Event
  records : Option Err → ℕ → CredentialMode → Event

unfoldable pub step : Breaker → Event → Breaker
step b (enters now mode) = (blocked b now mode).1
step b (records err now mode) = record_result b err now mode

unfoldable pub run : Breaker → List Event → Breaker
run b [] = b
run b (e ∷ es) = run (step b e) es

pub step-Inv : (b : Breaker) (e : Event) → Inv b → Inv (step b e)
unfolding step
step-Inv b (enters now mode) h = blocked-Inv b now mode h
step-Inv b (records err now mode) h = record_result-Inv b err now mode h

pub run-Inv : (b : Breaker) (es : List Event) → Inv b → Inv (run b es)
unfolding run
run-Inv b [] h = h
run-Inv b (e ∷ es) h = run-Inv (step b e) es (step-Inv b e h)

pub new_breaker-Inv :
    (c : Config) → 0 < c.failure_threshold → 0 < c.session_threshold → Inv (new_breaker c)
unfolding new_breaker
new_breaker-Inv c h k = ground arith

-- From a new breaker with positive thresholds, after any tests and results: failure counts stay
-- below thresholds, strikes are at most four, a sub-breaker has a reopening instant exactly when it
-- is open and probes only while open, and the gauges for an open circuit and a healthy session tell
-- the truth.
pub run-new_breaker-Inv :
    (c : Config) (es : List Event)
    → 0 < c.failure_threshold
    → 0 < c.session_threshold
    → Inv (run (new_breaker c) es)
run-new_breaker-Inv c es h k = run-Inv (new_breaker c) es (new_breaker-Inv c h k)
