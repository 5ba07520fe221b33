-- ===== src/Upstream/Guard.antt =====
-- internal/upstream/guard.go: `Guard`. The rate limiter of golang.org/x/time/rate is a parameter: a
-- state and its `Allow`. The semaphore channel is its number of held slots. A release function is
-- the number of the entry in `pending`, which holds the entries whose `once` has not fired.
mod Cases
pub mod Capacity
pub mod Leak
pub mod Stuck
pub mod Tests
use linkedin_api.Base.{
  ℕ, zero, suc, ◌+◌, ◌-◌, ◌*◌, ◌/◌, ◌%◌, ◌^◌, ◌≤◌, ◌<◌, ◌≡◌, refl, sym, ap, ◌∙◌, subst, fun_ext,
  ◌≢◌, ◌↔◌, ◌⊎◌, inl, inr, Bool, true, false, not, ◌&&◌, ◌||◌, Option, none, some, List, [], ◌∷◌,
  ◌++◌, map, arith, ltb, leb, ◌==◌, ==_iff, if◌then◌else◌, Bool-cases, Option-cases, is_some,
  is_none, length, length-append, is_nil, get_elem?, remove_at, length-remove_at, keep,
  length-keep-le, any, all, All, All-append, All-keep, All-remove_at, Text, codes, text_eq,
  text_eq_iff, text_eq_refl, String,
}
use linkedin_api.Domain.{CredentialMode, mode_server, mode_caller}
use linkedin_api.Domain.Errors.{
  Code, Err, Error, plain, nil, cause, upstream_unavailable, upstream_rate_limited,
  with_retry_after,
}
use linkedin_api.Upstream.Breaker.{Breaker, Config, new_breaker, blocked, record_result}

-- UpstreamRejected by its label.
pub record Rejected : Type 0 where
  pub circuit_open : ℕ
  pub rate : ℕ
  pub concurrency : ℕ

pub data Reason : Type 0 where
  circuit_open rate concurrency : Reason

pub record Guard (L : Type 0) : Type 0 where
  pub breaker : Breaker
  pub limiter : L
  pub capacity : ℕ
  pub held : ℕ
  pub rejected : Option Rejected
  pub pending : List (ℕ × CredentialMode)
  pub next_entry : ℕ

-- What `Enter` returns: the entry's release function, or an error.
pub data Entry : Type 0 where
  entered : ℕ → Entry
  refused : Error → Entry

abbrev pub is_refused : Entry → Bool
is_refused (entered n) = false
is_refused (refused e) = true

pub data Call : Type 0 where
  enters : ℕ → CredentialMode → Call
  releases : ℕ → Option Err → ℕ → Call

unfoldable pub count_reason : Reason → Rejected → Rejected
count_reason circuit_open r = record r { circuit_open = r.circuit_open + 1 }
count_reason rate r = record r { rate = r.rate + 1 }
count_reason concurrency r = record r { concurrency = r.concurrency + 1 }

-- The mode of an entry whose release has not run.
unfoldable pub pending_mode : ℕ → List (ℕ × CredentialMode) → Option CredentialMode
pending_mode n [] = none
pending_mode n ((m, mode) ∷ ps) = if m == n then some mode else pending_mode n ps

unfoldable pub fired : ℕ → List (ℕ × CredentialMode) → List (ℕ × CredentialMode)
fired n [] = []
fired n ((m, mode) ∷ ps) = if m == n then ps else (m, mode) ∷ fired n ps

module _ {L : Type 0} where
  unfoldable pub new_guard : Config → L → Guard L
  new_guard c limiter = record {
    breaker = new_breaker c;
    limiter = limiter;
    capacity = c.max_concurrency;
    held = 0;
    rejected = some (record { circuit_open = 0; rate = 0; concurrency = 0 });
    pending = [];
    next_entry = 0;
  }

  unfoldable pub reject : Guard L → Reason → Guard L
  unfolding count_reason
  reject g reason = record g {
    rejected = elim g.rejected [ none ↦ none | some r ↦ some (count_reason reason r) ];
  }

  -- The select on the semaphore.
  unfoldable pub take_slot : Guard L → CredentialMode → Entry × Guard L
  take_slot g mode =
      if ltb g.held g.capacity
      then (
        entered g.next_entry,
        record g {
          held = g.held + 1;
          pending = (g.next_entry, mode) ∷ g.pending;
          next_entry = g.next_entry + 1;
        },
      )
      else (
        refused (upstream_unavailable (cause (plain (codes "upstream concurrency limit reached")))),
        reject g concurrency,
      )

  -- The release function of an entry: the first call frees the slot and reports the result.
  unfoldable pub release : Guard L → ℕ → Option Err → ℕ → Guard L
  release g n err now = elim (pending_mode n g.pending) [
    | none ↦ g
    | some mode ↦ record g {
      breaker = record_result g.breaker err now mode;
      held = g.held - 1;
      pending = fired n g.pending;
    }
  ]

  -- `allow` is the limiter's `Allow` at an instant, and the limiter after it.
  module _ (allow : L → ℕ → Bool × L) where
    unfoldable pub enter : Guard L → ℕ → CredentialMode → Entry × Guard L
    enter g now mode =
        let (verdict, b) = blocked g.breaker now mode in
        let g' = record g { breaker = b } in
        elim verdict [
          | some retry_after ↦ (
            refused (
                with_retry_after retry_after
                  (upstream_unavailable (cause (plain (codes "upstream circuit open"))))),
            reject g' circuit_open,
          )
          | none ↦
              let (allowed, l) = allow g.limiter now in
              let g'' = record g' { limiter = l } in
              if allowed then take_slot g'' mode else (
                refused (
                    upstream_rate_limited 1
                      (cause (plain (codes "aggregate upstream rate exceeded")))),
                reject g'' rate,
              )
        ]

    -- A history of the guard: the calls of `Enter`, and of release functions.
    unfoldable pub step : Guard L → Call → Guard L
    step g (enters now mode) = (enter g now mode).1
    step g (releases n err now) = release g n err now

    unfoldable pub run : Guard L → List Call → Guard L
    run g [] = g
    run g (c ∷ cs) = run (step g c) cs
