-- ===== src/Upstream/Guard/Capacity.antt =====
-- The concurrency ceiling, and the release functions.
use linkedin_api.Base.{
  ℕ, suc, ◌-◌, ◌≤◌, ◌<◌, ◌≡◌, refl, inl, inr, Bool, true, Option, none, some, List, [], ◌∷◌, arith,
  Option-cases, is_some, length,
}
use linkedin_api.Domain.{CredentialMode}
use linkedin_api.Domain.Errors.{Err}
use linkedin_api.Upstream.Breaker.{Config, record_result}
use linkedin_api.Upstream.Breaker.Invariant
use linkedin_api.Upstream.Breaker.Invariant.{blocked-Inv, record_result-Inv, new_breaker-Inv}
use linkedin_api.Upstream.Guard.Cases.{enter_cases}
use linkedin_api.Upstream.Guard.{
  Guard, Call, enters, releases, Reason, rate, circuit_open, pending_mode, fired, new_guard, reject,
  take_slot, release, enter, step, run,
}

-- The entries' numbers fall along the list, newest first, and stay under the bound.
abbrev pub Below : ℕ → List (ℕ × CredentialMode) → Type 0
Below n [] = Unit {0}
Below n ((m, mode) ∷ ps) = (m < n) × Below m ps

-- The slots held are the entries whose release has not run, and they fit the semaphore.
pub record Inv {L : Type 0} (g : Guard L) : Type 0 where
  pub breaker : Invariant.Inv g.breaker
  pub slots : g.held ≡ length g.pending
  pub fits : g.held ≤ g.capacity
  pub fresh : Below g.next_entry g.pending

length-fired :
    (n : ℕ) (ps : List (ℕ × CredentialMode))
    → is_some (pending_mode n ps) ≡ true
    → suc (length (fired n ps)) ≡ length ps
unfolding fired pending_mode
length-fired n [] h = cc
length-fired n ((m, mode) ∷ ps) h = ground (arith, length-fired n ps)

Below-mono : (a b : ℕ) (ps : List (ℕ × CredentialMode)) → a ≤ b → Below a ps → Below b ps
Below-mono a b [] h k = tt
Below-mono a b ((m, mode) ∷ ps) h k = (omega arith, k.1)

fired-Below : (n b : ℕ) (ps : List (ℕ × CredentialMode)) → Below b ps → Below b (fired n ps)
unfolding fired
fired-Below n b [] h = tt
fired-Below n b ((m, mode) ∷ ps) h = ground (arith, fired-Below n m ps h.1, Below-mono m b ps)

pending_mode-above :
    (n b : ℕ) (ps : List (ℕ × CredentialMode)) → Below b ps → b ≤ n → pending_mode n ps ≡ none
unfolding pending_mode
pending_mode-above n b [] h k = refl
pending_mode-above n b ((m, mode) ∷ ps) h k = ground (arith, pending_mode-above n m ps h.1)

pending_mode-fired :
    (n b : ℕ) (ps : List (ℕ × CredentialMode)) → Below b ps → pending_mode n (fired n ps) ≡ none
unfolding pending_mode fired
pending_mode-fired n b [] h = refl
pending_mode-fired n b ((m, mode) ∷ ps) h =
    ground (arith, pending_mode-above n m ps h.1, pending_mode-fired n m ps h.1)

module _ {L : Type 0} where
  reject-Inv : (g : Guard L) (r : Reason) → Inv g → Inv (reject g r)
  unfolding reject
  reject-Inv g r h = record { breaker = h.breaker; slots = h.slots; fits = h.fits; fresh = h.fresh }

  take_slot-Inv : (g : Guard L) (mode : CredentialMode) → Inv g → Inv (take_slot g mode).1
  unfolding take_slot reject
  take_slot-Inv g mode h = ground arith

  released-Inv :
      (g : Guard L) (n : ℕ) (err : Option Err) (now : ℕ) (mode : CredentialMode)
      → Inv g
      → pending_mode n g.pending ≡ some mode
      → Inv (record g {
        breaker = record_result g.breaker err now mode;
        held = g.held - 1;
        pending = fired n g.pending;
      })
  released-Inv g n err now mode h e =
      let shorter = length-fired n g.pending (rw e) in
      record {
        breaker = record_result-Inv g.breaker err now mode h.breaker;
        slots = omega (arith, h.slots);
        fits = omega (arith, h.fits);
        fresh = fired-Below n g.next_entry g.pending h.fresh;
      }

  release-Inv :
      (g : Guard L) (n : ℕ) (err : Option Err) (now : ℕ) → Inv g → Inv (release g n err now)
  unfolding release
  release-Inv g n err now h = elim (Option-cases (pending_mode n g.pending)) [
    | inl e ↦ rw (e, release) h
    | inr (mode, e) ↦ rw (e, release) (released-Inv g n err now mode h e)
  ]

  -- On a guard that keeps its invariant, calling a release function again changes nothing: no slot
  -- is freed twice and no second result reaches the breaker.
  pub release_once :
      (g : Guard L) (n : ℕ) (err err' : Option Err) (now now' : ℕ)
      → Inv g
      → release (release g n err now) n err' now' ≡ release g n err now
  unfolding release
  release_once g n err err' now now' h =
      ground (arith, pending_mode-fired n g.next_entry g.pending h.fresh)

  new_guard-Inv :
      (c : Config) (l : L) → 0 < c.failure_threshold → 0 < c.session_threshold → Inv (new_guard c l)
  unfolding new_guard
  new_guard-Inv c l h k = record {
    breaker = new_breaker-Inv c h k;
    slots = refl;
    fits = omega arith;
    fresh = tt;
  }

  module _ (allow : L → ℕ → Bool × L) where
    enter-Inv :
        (g : Guard L) (now : ℕ) (mode : CredentialMode) → Inv g → Inv (enter allow g now mode).1
    enter-Inv g now mode h =
        let b = blocked-Inv g.breaker now mode h.breaker in
        enter_cases allow (λ r. Inv r.1) g now mode
          (λ ra e.
            reject-Inv _ circuit_open
              (record { breaker = b; slots = h.slots; fits = h.fits; fresh = h.fresh }))
          (λ e a.
            reject-Inv _ rate
              (record { breaker = b; slots = h.slots; fits = h.fits; fresh = h.fresh }))
          (λ e a.
            take_slot-Inv _ mode
              (record { breaker = b; slots = h.slots; fits = h.fits; fresh = h.fresh }))

    step-Inv : (g : Guard L) (c : Call) → Inv g → Inv (step allow g c)
    unfolding step
    step-Inv g (enters now mode) h = enter-Inv g now mode h
    step-Inv g (releases n err now) h = release-Inv g n err now h

    run-Inv : (g : Guard L) (cs : List Call) → Inv g → Inv (run allow g cs)
    unfolding run
    run-Inv g [] h = h
    run-Inv g (c ∷ cs) h = run-Inv (step allow g c) cs (step-Inv g c h)

    pub run-new_guard-Inv :
        (c : Config) (l : L) (cs : List Call)
        → 0 < c.failure_threshold
        → 0 < c.session_threshold
        → Inv (run allow (new_guard c l) cs)
    run-new_guard-Inv c l cs h k = run-Inv (new_guard c l) cs (new_guard-Inv c l h k)
