-- ===== src/Linkedin/Client.antt =====
-- internal/linkedin/client.go: one attempt and the retry loop. The network is a world `W`: `send`
-- is the request with everything up to the response, `sleep` the wait with its random jitter, which
-- is false when the deadline ends it. The loop runs on fuel, one unit for each attempt.
pub mod Retries
use linkedin_api.Base.{
  Sum-cases, ℕ, zero, suc, ◌+◌, ◌-◌, ◌≤◌, ◌<◌, ◌≡◌, refl, sym, ◌∙◌, subst, ◌⊎◌, inl, inr, Bool,
  true, false, not, ◌&&◌, ◌||◌, Option, none, some, arith, leb, ◌==◌, if◌then◌else◌, Bool-cases,
  Text,
}
use linkedin_api.Base.Int.{ℤ}
use linkedin_api.Base.Duration.{shl}
use linkedin_api.Domain.Errors.{
  Code, Err, cause, structured, internal, upstream_parse, error_code, code_upstream_timeout,
  code_upstream_rate_limited,
}
use linkedin_api.Audit.Event.{Event, add_retry}
use linkedin_api.Linkedin.Credential.{Credential}
use linkedin_api.Linkedin.Status.{
  classify_status, classify_transport, retryable_status, retryable_code, parse_retry_after,
  read_body, is_auth_failed,
}

-- `body` is what io.ReadAll makes of the response's body up to one byte past the limit.
pub record Response : Type 0 where
  pub status : ℕ
  pub retry_after : Text
  pub body : Err ⊎ Text

-- http.NewRequestWithContext refuses the request; http.Client.Do fails, by time-out or not, with the
-- context over or not; or there is a response.
pub data Outcome : Type 0 where
  malformed : Err → Outcome
  failed : Bool → Bool → Err → Outcome
  answered : Response → Outcome

-- `until` reads an HTTP date as the seconds to go.
pub record Network (W : Type 0) : Type 0 where
  pub send : W → Text → Credential → Outcome × W
  pub sleep : W → ℕ → Bool × W
  pub until : Text → Option ℤ

pub record Client (W : Type 0) : Type 0 where
  pub max_retries : ℕ
  pub retry_backoff : ℕ
  pub upstream_retries : ℕ
  pub upstream_timeouts : ℕ
  pub upstream_rate_limited : ℕ
  pub upstream_auth_failures : ℕ
  pub event : Option Event
  pub world : W

abbrev pub is_timeout : Code → Bool
is_timeout c = elim c [ code_upstream_timeout ↦ true | _ ↦ false ]

abbrev pub is_rate_limited : Code → Bool
is_rate_limited c = elim c [ code_upstream_rate_limited ↦ true | _ ↦ false ]

module _ {W : Type 0} where
  abbrev pub count_failure : Code → Client W → Client W
  count_failure c s =
      if is_rate_limited c
      then record s { upstream_rate_limited = s.upstream_rate_limited + 1 }
      else if is_auth_failed c
      then record s { upstream_auth_failures = s.upstream_auth_failures + 1 }
      else s

  abbrev pub count_retry : Client W → Client W
  count_retry s = record s { upstream_retries = s.upstream_retries + 1; event = add_retry s.event }

module _ {W : Type 0} (o : Network W) where
  -- The body or the error, and whether a retry is worth it.
  unfoldable pub attempt : Client W → Text → Credential → (Err ⊎ Text) × (Bool × Client W)
  unfolding classify_transport retryable_code read_body parse_retry_after classify_status
      retryable_status
  attempt s target cred =
      let (outcome, w) = o.send s.world target cred in
      let s1 = record s { world = w } in
      elim outcome [
        | malformed err ↦ (inl (structured (internal (cause err))), (false, s1))
        | failed timed_out done err ↦
            let derr = classify_transport timed_out err in
            (
              inl (structured derr),
              (
                retryable_code (error_code derr) && not done,
                if is_timeout (error_code derr)
                    then record s1 { upstream_timeouts = s1.upstream_timeouts + 1 }
                    else s1,
              ),
            )
        | answered resp ↦
            if resp.status == 200
            then (
              elim (read_body resp.body) [
                | inl err ↦ inl (structured (upstream_parse (cause err)))
                | inr raw ↦ inr raw
              ],
              (false, s1),
            )
            else let derr =
                classify_status resp.status (parse_retry_after o.until resp.retry_after) in
              (
                inl (structured derr),
                (retryable_status resp.status, count_failure (error_code derr) s1),
              )
      ]

  unfoldable pub get_loop : ℕ → ℕ → Client W → Text → Credential → Option ((Err ⊎ Text) × Client W)
  unfolding attempt shl
  get_loop zero n s target cred = none
  get_loop (suc fuel) n s target cred =
      let (r, (retry, s1)) = attempt s target cred in
      elim r [
        | inr body ↦ some (inr body, s1)
        | inl err ↦ elim (leb s1.max_retries n || not retry) [
          | true ↦ some (inl err, s1)
          | false ↦
              let (slept, w) = o.sleep s1.world (shl s1.retry_backoff n) in
              let s2 = record s1 { world = w } in
              elim slept [
                | false ↦ some (inl err, s2)
                | true ↦ get_loop fuel (n + 1) (count_retry s2) target cred
              ]
        ]
      ]

  unfoldable pub get_target : Client W → Text → Credential → Option ((Err ⊎ Text) × Client W)
  unfolding get_loop
  get_target s target cred = get_loop (s.max_retries + 1) 0 s target cred
