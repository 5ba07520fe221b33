-- ===== src/Upstream/Breaker/Probe.antt =====
-- Open, half-open and closed: who is let through, and how a probe decides.
use linkedin_api.Base.{
  ℕ, ◌≤◌, ◌<◌, ◌≡◌, true, false, Option, none, some, arith, if◌then◌else◌, is_some,
}
use linkedin_api.Base.Duration.{add_duration}
use linkedin_api.Domain.{CredentialMode, mode_server, mode_caller}
use linkedin_api.Domain.Errors.{Err}
use linkedin_api.Upstream.Breaker.{Breaker, blocked, sync, record_result}
use linkedin_api.Upstream.SubBreaker.{
  classify, retry_after_of, is_general, retry_after_seconds, trip_cooldown, settle,
}

-- Before its reopening instant an open general breaker refuses every call, of either mode, with a
-- hint, and nothing changes.
pub blocked_until :
    (b : Breaker) (until now : ℕ) (mode : CredentialMode)
    → b.general.open_until ≡ some until
    → now < until
    → blocked b now mode ≡ (some (retry_after_seconds until now), b)
unfolding blocked
blocked_until b until now mode e h = ground arith

-- From its reopening instant on, an open general breaker that is not probing admits a
-- caller-session call as its one probe, leaves the session breaker alone, and until a result comes
-- in refuses any further call, of either mode and at any time.
pub single_probe :
    (b : Breaker) (until now later : ℕ) (mode : CredentialMode)
    → b.general.open_until ≡ some until
    → b.general.probing ≡ false
    → until ≤ now
    → let (verdict, b') = blocked b now mode_caller in
      (verdict ≡ none)
      × (b'.general ≡ record (b.general) { probing = true })
      × (b'.session ≡ b.session)
      × (is_some (blocked b' later mode).0 ≡ true)
unfolding blocked
single_probe b until now later mode e p h = ground arith

-- A probe of the server's session: general breaker closed, session breaker past its instant.
pub single_session_probe :
    (b : Breaker) (until now later : ℕ)
    → b.general.open_until ≡ none
    → b.session.open_until ≡ some until
    → b.session.probing ≡ false
    → until ≤ now
    → let (verdict, b') = blocked b now mode_server in
      (verdict ≡ none)
      × (b'.session ≡ record (b.session) { probing = true })
      × (is_some (blocked b' later mode_server).0 ≡ true)
      × ((blocked b' later mode_caller).0 ≡ none)
unfolding blocked
single_session_probe b until now later g e p h = ground arith

-- A result that comes in while the general breaker probes ends the probe and clears the count; the
-- breaker is open afterwards exactly when the result was a general failure, and then until the
-- instant that trip computes.
pub probe_decides :
    (b : Breaker) (err : Option Err) (now : ℕ) (mode : CredentialMode)
    → b.general.probing ≡ true
    → let g = (record_result b err now mode).general in
      (g.probing ≡ false)
      × (g.failures ≡ 0)
      × (g.is_open ≡ is_general (classify err))
      × (g.open_until ≡ (
          if is_general (classify err)
          then some (add_duration now (trip_cooldown b.general (retry_after_of err)))
          else none))
unfolding record_result sync settle trip_cooldown
probe_decides b err now mode p = ground arith
