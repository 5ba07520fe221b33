-- ===== src/Upstream/Breaker/Trips.antt =====
-- When a sub-breaker opens, for how long, and how it closes again.
use linkedin_api.Base.{
  ℕ, suc, ◌+◌, ◌≤◌, ◌<◌, ◌≡◌, refl, sym, ap, ◌∙◌, subst, true, false, Option, none, some, List, [],
  ◌∷◌, ◌++◌, arith, length, All,
}
use linkedin_api.Base.Duration.{add_duration}
use linkedin_api.Domain.{CredentialMode}
use linkedin_api.Domain.Errors.{Err}
use linkedin_api.Upstream.Breaker.{Breaker, sync, record_result}
use linkedin_api.Upstream.SubBreaker.{
  cat_general, classify, retry_after_of, SubBreaker, trip_cooldown, settle,
}
use linkedin_api.Upstream.Breaker.Invariant.{Event, enters, records, step, run}

-- Closed, and counting.
abbrev pub IsQuiet : SubBreaker → Type 0
IsQuiet s = (s.open_until ≡ none) × (s.is_open ≡ false) × (s.probing ≡ false)

-- An operation that failed as the upstream's general fault, in whatever mode.
abbrev pub IsGeneralFailure : Event → Type 0
IsGeneralFailure (enters now mode) = ⊥
IsGeneralFailure (records err now mode) = classify err ≡ cat_general

settle_below :
    (s : SubBreaker) (now ra : ℕ)
    → IsQuiet s
    → s.failures + 1 < s.threshold
    → settle s cat_general true now ra ≡ record s { failures = s.failures + 1 }
unfolding settle
settle_below s now ra q h = ground arith

settle_trips :
    (s : SubBreaker) (now ra : ℕ)
    → IsQuiet s
    → s.threshold ≤ s.failures + 1
    → let s' = settle s cat_general true now ra in
      (s'.is_open ≡ true)
      × (s'.failures ≡ 0)
      × (s'.open_until ≡ some (add_duration now (trip_cooldown s ra)))
unfolding settle trip_cooldown
settle_trips s now ra q h = ground arith

general-record_result :
    (b : Breaker) (err : Option Err) (now : ℕ) (mode : CredentialMode)
    → classify err ≡ cat_general
    → (record_result b err now mode).general
      ≡ settle b.general cat_general true now (retry_after_of err)
unfolding record_result sync
general-record_result b err now mode e = rw e

record_below :
    (b : Breaker) (e : Event)
    → IsGeneralFailure e
    → IsQuiet b.general
    → b.general.failures + 1 < b.general.threshold
    → (step b e).general ≡ record (b.general) { failures = b.general.failures + 1 }
unfolding step
record_below b (enters now mode) f q h = absurd f
record_below b (records err now mode) f q h =
    general-record_result b err now mode f ∙ settle_below b.general now (retry_after_of err) q h

abbrev bump : SubBreaker → ℕ → SubBreaker
bump g n = record g { failures = g.failures + n }

run_below :
    (b : Breaker) (es : List Event)
    → All IsGeneralFailure es
    → IsQuiet b.general
    → b.general.failures + length es < b.general.threshold
    → (run b es).general ≡ bump b.general (length es)
unfolding run
run_below b [] f q h =
    let e : b.general.failures ≡ b.general.failures + 0 = omega arith in
    ap (λ n. record (b.general) { failures = n }) e
run_below b (e ∷ es) f q h =
    let p = record_below b e f.0 q (omega arith) in
    let rest = run_below (step b e) es f.1 (subst IsQuiet (sym p) q) (rw p (omega arith)) in
    let sum : b.general.failures + 1 + length es ≡ b.general.failures + suc (length es) =
      omega arith in
    rest ∙ ap (λ g. bump g (length es)) p ∙ ap (λ n. record (b.general) { failures = n }) sum

run-append : (b : Breaker) (es : List Event) (e : Event) → run b (es ++ e ∷ []) ≡ step (run b es) e
unfolding run
run-append b [] e = refl
run-append b (x ∷ es) e = run-append (step b x) es e

-- A closed general breaker with no failure counted stays closed, and counts each failure, through
-- any row of general failures shorter than its threshold, whatever the modes.
pub run_below_threshold :
    (b : Breaker) (es : List Event)
    → All IsGeneralFailure es
    → IsQuiet b.general
    → b.general.failures ≡ 0
    → length es < b.general.threshold
    → ((run b es).general.is_open ≡ false) × ((run b es).general.failures ≡ length es)
run_below_threshold b es f q z h = rw (run_below b es f q (omega arith)) (q.1, omega arith)

-- The general failure that completes the threshold, after a row of general failures one shorter
-- from a closed breaker with none counted, opens the general breaker for the cooldown computed by
-- trip from that failure's instant and Retry-After hint, and clears the count.
pub run_at_threshold :
    (b : Breaker) (es : List Event) (err : Option Err) (now : ℕ) (mode : CredentialMode)
    → All IsGeneralFailure es
    → classify err ≡ cat_general
    → IsQuiet b.general
    → b.general.failures ≡ 0
    → suc (length es) ≡ b.general.threshold
    → let g = (run b (es ++ records err now mode ∷ [])).general in
      (g.is_open ≡ true)
      × (g.failures ≡ 0)
      × (g.open_until ≡ some (add_duration now (trip_cooldown b.general (retry_after_of err))))
unfolding step trip_cooldown
run_at_threshold b es err now mode f fe q z h =
    rw (run-append b es (records err now mode), general-record_result (run b es) err now mode fe)
      (rw (run_below b es f q (omega arith))
        (settle_trips (bump b.general (length es)) now (retry_after_of err) q (omega arith)))
