-- ===== src/Linkedin/Client/Retries.antt =====
-- internal/linkedin/client.go: how many attempts the retry loop makes.
use linkedin_api.Base.{
  Sum-cases, ℕ, zero, suc, ◌+◌, ◌-◌, ◌≤◌, ◌<◌, ◌≡◌, refl, sym, ◌∙◌, subst, ◌⊎◌, inl, inr, not, ◌||◌,
  Option, some, arith, leb, Bool-cases, Text,
}
use linkedin_api.Base.Duration.{shl}
use linkedin_api.Domain.Errors.{Err}
use linkedin_api.Linkedin.Credential.{Credential}
use linkedin_api.Linkedin.Client.{Network, Client, count_retry, attempt, get_loop, get_target}

-- A count of the attempts, to build a request and to send it: `send` adds one, and sleeping none.
pub record Sent {W : Type 0} (o : Network W) (sent : W → ℕ) : Type 0 where
  pub send_one :
      (w : W) (target : Text) (cred : Credential) → sent (o.send w target cred).1 ≡ sent w + 1
  pub sleep_none : (w : W) (d : ℕ) → sent (o.sleep w d).1 ≡ sent w

module _ {W : Type 0} (o : Network W) (sent : W → ℕ) (c : Sent o sent) where
  -- What a loop that starts at attempt `n` does: it answers, makes one attempt more than it counts
  -- retries, and counts no more retries than are left.
  pub record Bounded (n : ℕ) (s : Client W) (answer : Option ((Err ⊎ Text) × Client W))
      : Type 0 where
    pub result : Err ⊎ Text
    pub after : Client W
    pub answers : answer ≡ some (result, after)
    pub requests : sent after.world + s.upstream_retries ≡ sent s.world + after.upstream_retries + 1
    pub retries : after.upstream_retries ≤ s.upstream_retries + (s.max_retries - n)

  attempt-same :
      (s : Client W) (target : Text) (cred : Credential)
      → let s1 = (attempt o s target cred).1.1 in
        (s1.max_retries ≡ s.max_retries)
        × (s1.upstream_retries ≡ s.upstream_retries)
        × (sent s1.world ≡ sent s.world + 1)
  unfolding attempt
  attempt-same s target cred = ground (arith, c.send_one s.world target cred)

  ends-Bounded :
      (n : ℕ) (s after : Client W) (r : Err ⊎ Text)
      → sent after.world ≡ sent s.world + 1
      → after.upstream_retries ≡ s.upstream_retries
      → Bounded n s (some (r, after))
  ends-Bounded n s after r h k = record {
    result = r;
    after = after;
    answers = refl;
    requests = omega (arith, h, k);
    retries = omega (arith, k);
  }

  goes_on-Bounded :
      (n : ℕ) (s s1 : Client W) (answer : Option ((Err ⊎ Text) × Client W))
      → n < s.max_retries
      → s1.max_retries ≡ s.max_retries
      → sent s1.world ≡ sent s.world + 1
      → s1.upstream_retries ≡ s.upstream_retries + 1
      → Bounded (n + 1) s1 answer
      → Bounded n s answer
  goes_on-Bounded n s s1 answer lt same h k b = record {
    result = b.result;
    after = b.after;
    answers = b.answers;
    requests = omega (arith, h, k, b.requests);
    retries = omega (arith, lt, same, k, b.retries);
  }

  step-Bounded :
      (m n : ℕ) (s : Client W) (target : Text) (cred : Credential)
      → (n < s.max_retries
          → (s' : Client W) → s'.max_retries ≡ s.max_retries
          → Bounded (n + 1) s' (get_loop o m (n + 1) s' target cred))
      → Bounded n s (get_loop o (suc m) n s target cred)
  unfolding get_loop
  step-Bounded m n s target cred rest =
      let (r, (retry, s1)) = attempt o s target cred in
      let (max, retries, one) = attempt-same s target cred in
      let (slept, w) = o.sleep s1.world (shl s1.retry_backoff n) in
      let s2 = record s1 { world = w } in
      let one' : sent w ≡ sent s.world + 1 = c.sleep_none s1.world (shl s1.retry_backoff n) ∙ one in
      let answer = get_loop o (suc m) n s target cred in
      elim (Sum-cases r) [
        | inr (body, e) ↦
            let q : answer ≡ some (inr body, s1) = ground (arith, e) in
            subst (Bounded n s) (sym q) (ends-Bounded n s s1 (inr body) one retries)
        | inl (err, e) ↦ elim (Bool-cases (leb s1.max_retries n || not retry)) [
          | inl stop ↦
              let q : answer ≡ some (inl err, s1) = ground (arith, e, stop) in
              subst (Bounded n s) (sym q) (ends-Bounded n s s1 (inl err) one retries)
          | inr go ↦ elim (Bool-cases slept) [
            | inr cut ↦
                let q : answer ≡ some (inl err, s2) = ground (arith, e, go, cut) in
                subst (Bounded n s) (sym q) (ends-Bounded n s s2 (inl err) one' retries)
            | inl woke ↦
                let s3 = count_retry s2 in
                let q : answer ≡ get_loop o m (n + 1) s3 target cred =
                  ground (arith, e, go, woke) in
                let lt : n < s.max_retries = ground (arith, go, max) in
                subst (Bounded n s) (sym q) (
                  goes_on-Bounded n s s3 (get_loop o m (n + 1) s3 target cred) lt max one'
                    (omega (arith, retries)) (rest lt s3 max))
          ]
        ]
      ]

  get_loop-Bounded :
      (m n : ℕ) (s : Client W) (target : Text) (cred : Credential)
      → m + n ≡ s.max_retries
      → Bounded n s (get_loop o (suc m) n s target cred)
  get_loop-Bounded zero n s target cred h =
      step-Bounded zero n s target cred (λ lt. absurd (omega arith))
  get_loop-Bounded (suc m) n s target cred h =
      step-Bounded (suc m) n s target cred
        (λ lt s' same. get_loop-Bounded m (n + 1) s' target cred (omega (arith, h, same)))

  -- In a world that counts the attempts, to build a request and to send it, the retry loop answers,
  -- with at most MaxRetries retries, and has made one attempt more than the retries it has counted.
  pub get_target-Bounded :
      (s : Client W) (target : Text) (cred : Credential) → Bounded 0 s (get_target o s target cred)
  unfolding get_target
  get_target-Bounded s target cred =
      let fuel : suc s.max_retries ≡ s.max_retries + 1 = omega arith in
      subst (λ k. Bounded 0 s (get_loop o k 0 s target cred)) fuel
        (get_loop-Bounded s.max_retries 0 s target cred (omega arith))
