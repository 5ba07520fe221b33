-- ===== src/Upstream/Guard/Leak.antt =====
-- A probe that the rate limiter turns away. `blocked` has marked it by then, no release function is
-- handed out, and nothing else clears the mark.
use linkedin_api.Base.{
  ℕ, ◌≤◌, ◌≡◌, refl, inl, inr, Bool, true, false, Option, none, some, List, [], ◌∷◌, arith,
  Option-cases, is_some, All,
}
use linkedin_api.Domain.{CredentialMode, mode_server, mode_caller}
use linkedin_api.Domain.Errors.{Err}
use linkedin_api.Upstream.Breaker.{Breaker, blocked}
use linkedin_api.Upstream.Guard.{
  Guard, is_refused, Call, enters, releases, pending_mode, fired, reject, take_slot, release, enter,
  step, run,
}
use linkedin_api.Upstream.Guard.Cases.{enter_cases}
use linkedin_api.Upstream.Breaker.Isolation.{blocked_caller, record_result_caller}

abbrev IsCallerEntry : ℕ × CredentialMode → Type 0
IsCallerEntry p = p.1 ≡ mode_caller

-- The session breaker waits for a probe, and no call of the server's session is on its way.
pub record IsSessionStuck {L : Type 0} (g : Guard L) : Type 0 where
  pub probing : g.breaker.session.probing ≡ true
  pub until : is_some g.breaker.session.open_until ≡ true
  pub callers : All IsCallerEntry g.pending

blocked_server :
    (b : Breaker) (now : ℕ)
    → b.session.probing ≡ true
    → is_some b.session.open_until ≡ true
    → (is_some (blocked b now mode_server).0 ≡ true) × ((blocked b now mode_server).1 ≡ b)
unfolding blocked
blocked_server b now p u = ground arith

admits_session :
    (b : Breaker) (until now : ℕ)
    → b.general.open_until ≡ none
    → b.session.open_until ≡ some until
    → b.session.probing ≡ false
    → until ≤ now
    → let r = blocked b now mode_server in
      (r.0 ≡ none) × (r.1.session.probing ≡ true) × (is_some r.1.session.open_until ≡ true)
unfolding blocked
admits_session b until now go so sp h = ground arith

caller_mode :
    (n : ℕ) (ps : List (ℕ × CredentialMode)) (mode : CredentialMode)
    → All IsCallerEntry ps
    → pending_mode n ps ≡ some mode
    → mode ≡ mode_caller
unfolding pending_mode
caller_mode n [] mode h e = cc
caller_mode n ((m, mode') ∷ ps) mode h e = ground (arith, caller_mode n ps mode h.1)

callers-fired :
    (n : ℕ) (ps : List (ℕ × CredentialMode)) → All IsCallerEntry ps → All IsCallerEntry (fired n ps)
unfolding fired
callers-fired n [] h = tt
callers-fired n ((m, mode) ∷ ps) h = ground (arith, callers-fired n ps h.1)

module _ {L : Type 0} where
  release-IsSessionStuck :
      (g : Guard L) (n : ℕ) (err : Option Err) (now : ℕ)
      → IsSessionStuck g
      → IsSessionStuck (release g n err now)
  unfolding release
  release-IsSessionStuck g n err now h = elim (Option-cases (pending_mode n g.pending)) [
    | inl e ↦ rw (e, release) h
    | inr (mode, e) ↦
        let s = record_result_caller g.breaker err now in
        rw (e, release, caller_mode n g.pending mode h.callers e)
          (record {
            probing = rw s h.probing;
            until = rw s h.until;
            callers = callers-fired n g.pending h.callers;
          })
  ]

module _ {L : Type 0} where
  take_slot-IsSessionStuck :
      (g : Guard L) → IsSessionStuck g → IsSessionStuck (take_slot g mode_caller).1
  unfolding take_slot reject
  take_slot-IsSessionStuck g h = ground arith

module _ {L : Type 0} (allow : L → ℕ → Bool × L) where
  -- What a call of `Enter` for the server's session meets.
  enter_server :
      (g : Guard L) (now : ℕ)
      → IsSessionStuck g
      → (is_refused (enter allow g now mode_server).0 ≡ true)
        × IsSessionStuck (enter allow g now mode_server).1
  unfolding reject
  enter_server g now h =
      let (refuses, same) = blocked_server g.breaker now h.probing h.until in
      enter_cases allow (λ r. (is_refused r.0 ≡ true) × IsSessionStuck r.1) g now mode_server
        (λ ra e. (
          refl,
          record { probing = rw same h.probing; until = rw same h.until; callers = h.callers },
        ))
        (λ e a. cc) (λ e a. cc)

  enter_caller :
      (g : Guard L) (now : ℕ) → IsSessionStuck g → IsSessionStuck (enter allow g now mode_caller).1
  unfolding reject take_slot
  enter_caller g now h =
      let s = blocked_caller g.breaker now in
      enter_cases allow (λ r. IsSessionStuck r.1) g now mode_caller
        (λ ra e. record { probing = rw s h.probing; until = rw s h.until; callers = h.callers })
        (λ e a. record { probing = rw s h.probing; until = rw s h.until; callers = h.callers })
        (λ e a.
          take_slot-IsSessionStuck _
            (record { probing = rw s h.probing; until = rw s h.until; callers = h.callers }))

  step-IsSessionStuck :
      (g : Guard L) (c : Call) → IsSessionStuck g → IsSessionStuck (step allow g c)
  unfolding step
  step-IsSessionStuck g (enters now mode_server) h = (enter_server g now h).1
  step-IsSessionStuck g (enters now mode_caller) h = enter_caller g now h
  step-IsSessionStuck g (releases n err now) h = release-IsSessionStuck g n err now h

  run-IsSessionStuck :
      (g : Guard L) (cs : List Call) → IsSessionStuck g → IsSessionStuck (run allow g cs)
  unfolding run
  run-IsSessionStuck g [] h = h
  run-IsSessionStuck g (c ∷ cs) h =
      run-IsSessionStuck (step allow g c) cs (step-IsSessionStuck g c h)

  leaks_session :
      (g : Guard L) (until now : ℕ)
      → g.breaker.general.open_until ≡ none
      → g.breaker.session.open_until ≡ some until
      → g.breaker.session.probing ≡ false
      → until ≤ now
      → (allow g.limiter now).0 ≡ false
      → All IsCallerEntry g.pending
      → (is_refused (enter allow g now mode_server).0 ≡ true)
        × IsSessionStuck (enter allow g now mode_server).1
  unfolding reject
  leaks_session g until now go so sp h a c =
      let (verdict, p, u) = admits_session g.breaker until now go so sp h in
      enter_cases allow (λ r. (is_refused r.0 ≡ true) × IsSessionStuck r.1) g now mode_server
        (λ ra e. cc (verdict, e)) (λ e b. (refl, record { probing = p; until = u; callers = c }))
        (λ e b. cc (a, b))

  -- When the session breaker's cooldown is over, the general breaker is closed, and the entries on
  -- their way are all of callers' sessions, a server-session call that the rate limiter refuses
  -- leaves the probe marked: every server-session call from then on is refused, at any instant and
  -- after any further calls of Enter and of release functions, whatever their results.
  pub session_probe_leaks :
      (g : Guard L) (until now later : ℕ) (cs : List Call)
      → g.breaker.general.open_until ≡ none
      → g.breaker.session.open_until ≡ some until
      → g.breaker.session.probing ≡ false
      → until ≤ now
      → (allow g.limiter now).0 ≡ false
      → All IsCallerEntry g.pending
      → let g' = (enter allow g now mode_server).1 in
        (is_refused (enter allow g now mode_server).0 ≡ true)
        × (is_refused (enter allow (run allow g' cs) later mode_server).0 ≡ true)
  session_probe_leaks g until now later cs go so sp h a c =
      let (r, stuck) = leaks_session g until now go so sp h a c in
      (r, (enter_server _ later (run-IsSessionStuck _ cs stuck)).0)
