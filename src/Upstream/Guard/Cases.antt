-- ===== src/Upstream/Guard/Cases.antt =====
-- The three ways in which `Enter` ends.
use linkedin_api.Base.{
  ℕ, ◌≡◌, inl, inr, Bool, true, false, none, some, Bool-cases, Option-cases, codes,
}
use linkedin_api.Domain.{CredentialMode}
use linkedin_api.Upstream.Breaker.{blocked}
use linkedin_api.Upstream.Guard.{Guard, Entry, refused, rate, reject, take_slot, enter}
use linkedin_api.Upstream.Guard.{circuit_open}
use linkedin_api.Domain.Errors.{
  upstream_unavailable, upstream_rate_limited, with_retry_after, plain, cause,
}

module _ {L : Type 0} (allow : L → ℕ → Bool × L) (P : Entry × Guard L → Type 0) where
  pub enter_cases :
      (g : Guard L) (now : ℕ) (mode : CredentialMode)
      → let g' = record g { breaker = (blocked g.breaker now mode).1 } in
        let g'' = record g' { limiter = (allow g.limiter now).1 } in
        ((ra : ℕ)
          → (blocked g.breaker now mode).0 ≡ some ra
          → P (
            refused (
                with_retry_after ra
                  (upstream_unavailable (cause (plain (codes "upstream circuit open"))))),
            reject g' circuit_open,
          ))
        → ((blocked g.breaker now mode).0 ≡ none
            → (allow g.limiter now).0 ≡ false
            → P (
              refused (
                  upstream_rate_limited 1
                    (cause (plain (codes "aggregate upstream rate exceeded")))),
              reject g'' rate,
            ))
        → ((blocked g.breaker now mode).0 ≡ none
            → (allow g.limiter now).0 ≡ true
            → P (take_slot g'' mode))
        → P (enter allow g now mode)
  unfolding enter
  enter_cases g now mode circuit limit slot = elim (Option-cases (blocked g.breaker now mode).0) [
    | inr (ra, e) ↦ rw (e, enter) (circuit ra e)
    | inl e ↦ elim (Bool-cases (allow g.limiter now).0) [
      | inl a ↦ rw (e, enter) (rw a (slot e a))
      | inr a ↦ rw (e, enter) (rw a (limit e a))
    ]
  ]
