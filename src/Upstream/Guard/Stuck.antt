-- ===== src/Upstream/Guard/Stuck.antt =====
-- internal/upstream/guard.go: the general breaker after a probe that the rate limiter turned away.
use linkedin_api.Base.{
  ℕ, ◌≤◌, ◌≡◌, refl, Bool, true, false, Option, none, some, List, [], ◌∷◌, arith, is_some,
}
use linkedin_api.Domain.{CredentialMode, mode_caller}
use linkedin_api.Domain.Errors.{Err}
use linkedin_api.Upstream.Breaker.{Breaker, blocked}
use linkedin_api.Upstream.Guard.{
  Guard, is_refused, Call, enters, releases, pending_mode, reject, release, enter, step, run,
}
use linkedin_api.Upstream.Guard.Cases.{enter_cases}

-- The general breaker waits for a probe, and no call is on its way.
pub record IsStuck {L : Type 0} (g : Guard L) : Type 0 where
  pub probing : g.breaker.general.probing ≡ true
  pub until : is_some g.breaker.general.open_until ≡ true
  pub idle : g.pending ≡ []

blocked_general :
    (b : Breaker) (now : ℕ) (mode : CredentialMode)
    → b.general.probing ≡ true
    → is_some b.general.open_until ≡ true
    → (is_some (blocked b now mode).0 ≡ true) × ((blocked b now mode).1 ≡ b)
unfolding blocked
blocked_general b now mode p u = ground arith

admits_general :
    (b : Breaker) (until now : ℕ)
    → b.general.open_until ≡ some until
    → b.general.probing ≡ false
    → until ≤ now
    → let r = blocked b now mode_caller in
      (r.0 ≡ none) × (r.1.general.probing ≡ true) × (is_some r.1.general.open_until ≡ true)
unfolding blocked
admits_general b until now go gp h = ground arith

module _ {L : Type 0} where
  release-IsStuck :
      (g : Guard L) (n : ℕ) (err : Option Err) (now : ℕ) → IsStuck g → release g n err now ≡ g
  unfolding release pending_mode
  release-IsStuck g n err now h = ground arith

module _ {L : Type 0} (allow : L → ℕ → Bool × L) where
  pub enter-IsStuck :
      (g : Guard L) (now : ℕ) (mode : CredentialMode)
      → IsStuck g
      → (is_refused (enter allow g now mode).0 ≡ true) × IsStuck (enter allow g now mode).1
  unfolding reject
  enter-IsStuck g now mode h =
      let (refuses, same) = blocked_general g.breaker now mode h.probing h.until in
      enter_cases allow (λ r. (is_refused r.0 ≡ true) × IsStuck r.1) g now mode
        (λ ra e.
          (refl, record { probing = rw same h.probing; until = rw same h.until; idle = h.idle }))
        (λ e a. cc) (λ e a. cc)

  step-IsStuck : (g : Guard L) (c : Call) → IsStuck g → IsStuck (step allow g c)
  unfolding step
  step-IsStuck g (enters now mode) h = (enter-IsStuck g now mode h).1
  step-IsStuck g (releases n err now) h = rw (release-IsStuck g n err now h) h

  run-IsStuck : (g : Guard L) (cs : List Call) → IsStuck g → IsStuck (run allow g cs)
  unfolding run
  run-IsStuck g [] h = h
  run-IsStuck g (c ∷ cs) h = run-IsStuck (step allow g c) cs (step-IsStuck g c h)

  pub leaks_general :
      (g : Guard L) (until now : ℕ)
      → g.breaker.general.open_until ≡ some until
      → g.breaker.general.probing ≡ false
      → until ≤ now
      → (allow g.limiter now).0 ≡ false
      → g.pending ≡ []
      → (is_refused (enter allow g now mode_caller).0 ≡ true)
        × IsStuck (enter allow g now mode_caller).1
  unfolding reject
  leaks_general g until now go gp h a c =
      let (verdict, p, u) = admits_general g.breaker until now go gp h in
      enter_cases allow (λ r. (is_refused r.0 ≡ true) × IsStuck r.1) g now mode_caller
        (λ ra e. cc (verdict, e)) (λ e b. (refl, record { probing = p; until = u; idle = c }))
        (λ e b. cc (a, b))

  -- When the general breaker's cooldown is over and nothing is on its way, a caller-session call
  -- that the rate limiter refuses leaves the probe marked: every call of either mode from then on
  -- is refused, at any instant and after any further calls.
  pub general_probe_leaks :
      (g : Guard L) (until now later : ℕ) (mode : CredentialMode) (cs : List Call)
      → g.breaker.general.open_until ≡ some until
      → g.breaker.general.probing ≡ false
      → until ≤ now
      → (allow g.limiter now).0 ≡ false
      → g.pending ≡ []
      → let g' = (enter allow g now mode_caller).1 in
        (is_refused (enter allow g now mode_caller).0 ≡ true)
        × (is_refused (enter allow (run allow g' cs) later mode).0 ≡ true)
  general_probe_leaks g until now later mode cs go gp h a c =
      let (r, stuck) = leaks_general g until now go gp h a c in
      (r, (enter-IsStuck _ later mode (run-IsStuck _ cs stuck)).0)
