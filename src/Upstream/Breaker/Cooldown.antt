-- ===== src/Upstream/Breaker/Cooldown.antt =====
-- How long a trip blocks: `trip_cooldown` without its machine words, and the Retry-After hint.
use linkedin_api.Base.{
  ℕ, zero, suc, ◌+◌, ◌-◌, ◌*◌, ◌^◌, ◌≤◌, ◌<◌, ◌≡◌, true, false, arith, if◌then◌else◌,
}
use linkedin_api.Base.Duration.{second, two_63, shl, dur_lt, of_seconds_small, dur_lt_small}
use linkedin_api.Upstream.SubBreaker.{
  max_session_strikes, SubBreaker, retry_after_seconds, next_strikes, trip_cooldown,
}
use Prim.Native.Nat.{max, min}

dur_max : (a b : ℕ) → a < two_63 → b < two_63 → (if dur_lt a b then b else a) ≡ max a b
dur_max a b h k = rw (dur_lt_small a b h k) (ground arith)

shl_strikes : (c k : ℕ) → c * 8 < two_63 → k ≤ 3 → (shl c k ≡ c * 2 ^ k) × (shl c k < two_63)
unfolding shl
shl_strikes c zero h k = (omega arith, omega arith)
shl_strikes c (suc zero) h k = (omega arith, omega arith)
shl_strikes c (suc (suc zero)) h k = (omega arith, omega arith)
shl_strikes c (suc (suc (suc zero))) h k = (omega arith, omega arith)
shl_strikes c (suc (suc (suc (suc n)))) h k = absurd (omega arith)

next_strikes_grow :
    (s : SubBreaker)
    → s.grow ≡ true
    → s.strikes ≤ max_session_strikes
    → next_strikes s - 1 ≡ min s.strikes 3
unfolding next_strikes
next_strikes_grow s g h = ground arith

-- While neither overflows, a growing sub-breaker with at most four strikes blocks on a trip for its
-- cooldown doubled min(strikes, 3) times, or for the Retry-After time if that is longer.
pub trip_cooldown_grow :
    (s : SubBreaker) (ra : ℕ)
    → s.grow ≡ true
    → s.strikes ≤ max_session_strikes
    → s.cooldown * 8 < two_63
    → ra * second < two_63
    → trip_cooldown s ra ≡ max (s.cooldown * 2 ^ min s.strikes 3) (ra * second)
unfolding trip_cooldown
trip_cooldown_grow s ra g h c r =
    let k : min s.strikes 3 ≤ 3 = omega arith in
    let w = shl_strikes s.cooldown (min s.strikes 3) c k in
    rw (next_strikes_grow s g h, of_seconds_small ra r, g, w.0) (dur_max _ _ (rw w.0 at (w.1)) r)

-- The general sub-breaker does not grow.
pub trip_cooldown_flat :
    (s : SubBreaker) (ra : ℕ)
    → s.grow ≡ false
    → s.cooldown < two_63
    → ra * second < two_63
    → trip_cooldown s ra ≡ max s.cooldown (ra * second)
unfolding trip_cooldown
trip_cooldown_flat s ra g c r = rw (of_seconds_small ra r, g) (dur_max s.cooldown (ra * second) c r)

-- The hint is at least a second, and a client that waits one second more than it finds the instant
-- passed.
pub retry_after_seconds_bounds :
    (until now : ℕ)
    → (1 ≤ retry_after_seconds until now)
      × (until < now + (retry_after_seconds until now + 1) * second)
unfolding retry_after_seconds
retry_after_seconds_bounds until now = ground arith
