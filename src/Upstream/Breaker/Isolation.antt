-- ===== src/Upstream/Breaker/Isolation.antt =====
-- Server and caller sessions are kept apart.
use linkedin_api.Base.{ℕ, ◌≡◌, refl, ◌∙◌, false, Option, List, [], ◌∷◌, arith, All}
use linkedin_api.Domain.{CredentialMode, mode_server, mode_caller}
use linkedin_api.Domain.Errors.{Err}
use linkedin_api.Upstream.Breaker.{Breaker, blocked, sync, record_result}
use linkedin_api.Upstream.SubBreaker.{cat_auth, classify, SubBreaker, settle}
use linkedin_api.Upstream.Breaker.Invariant.{Event, enters, records, step, run}

abbrev IsCaller : Event → Type 0
IsCaller (enters now mode) = mode ≡ mode_caller
IsCaller (records err now mode) = mode ≡ mode_caller

pub record_result_caller :
    (b : Breaker) (err : Option Err) (now : ℕ)
    → (record_result b err now mode_caller).session ≡ b.session
unfolding record_result sync
record_result_caller b err now = refl

pub blocked_caller : (b : Breaker) (now : ℕ) → (blocked b now mode_caller).1.session ≡ b.session
unfolding blocked
blocked_caller b now = ground arith

step_caller : (b : Breaker) (e : Event) → IsCaller e → (step b e).session ≡ b.session
unfolding step
step_caller b (enters now mode_server) h = cc
step_caller b (enters now mode_caller) h = blocked_caller b now
step_caller b (records err now mode_server) h = cc
step_caller b (records err now mode_caller) h = record_result_caller b err now

-- However many caller-session calls run and whatever they return, the session breaker stays as it
-- was.
pub session-run_caller :
    (b : Breaker) (es : List Event) → All IsCaller es → (run b es).session ≡ b.session
unfolding run
session-run_caller b [] h = refl
session-run_caller b (e ∷ es) h = session-run_caller (step b e) es h.1 ∙ step_caller b e h.0

-- The verdict on a caller-session call, and the general breaker it leaves, do not depend on the
-- session breaker.
pub blocked_ignores_session :
    (b : Breaker) (s : SubBreaker) (now : ℕ)
    → ((blocked (record b { session = s }) now mode_caller).0 ≡ (blocked b now mode_caller).0)
      × ((blocked (record b { session = s }) now mode_caller).1.general
          ≡ (blocked b now mode_caller).1.general)
unfolding blocked
blocked_ignores_session b s now = ground arith

-- An authentication failure never moves a general breaker that is not probing, in either mode.
pub record_auth_general :
    (b : Breaker) (err : Option Err) (now : ℕ) (mode : CredentialMode)
    → classify err ≡ cat_auth
    → b.general.probing ≡ false
    → (record_result b err now mode).general ≡ b.general
unfolding record_result sync settle
record_auth_general b err now mode h k = ground arith
