-- ===== src/Upstream/SubBreaker.antt =====
-- internal/upstream/guard.go: failCat and subBreaker. `open` is a reserved word, so that is `is_open` here.
-- The zero time is `none`. Instants are nanoseconds; durations are 64-bit patterns (Base.Duration). The
-- Retry-After hint divides whole nanoseconds, where the source goes through float64 seconds: the two agree
-- for spans below 2 ^ 23 seconds.
use linkedin_api.Base.{
  ℕ, ◌+◌, ◌-◌, ◌/◌, Bool, true, false, not, ◌&&◌, Option, none, some, ltb, leb, if◌then◌else◌,
}
use linkedin_api.Base.Duration.{second, of_seconds, shl, dur_lt, add_duration}
use linkedin_api.Domain.Errors.{
  Code, code_upstream_auth_failed, code_upstream_rate_limited, code_upstream_timeout,
  code_upstream_unavailable, code_upstream_parse_error, Err, error_code, error_retry_after,
  as_error,
}

-- failCat
pub data FailCat : Type 0 where
  cat_none cat_general cat_auth : FailCat

-- The switch of `classify`.
unfoldable pub classify_code : Code → FailCat
classify_code code_upstream_auth_failed = cat_auth
classify_code code_upstream_rate_limited = cat_general
classify_code code_upstream_unavailable = cat_general
classify_code code_upstream_timeout = cat_general
classify_code code_upstream_parse_error = cat_general
classify_code _ = cat_none

-- An operation's result: `none` is a nil error.
unfoldable pub classify : Option Err → FailCat
unfolding classify_code
classify none = cat_none
classify (some e) = elim (as_error e) [ none ↦ cat_none | some de ↦ classify_code (error_code de) ]

unfoldable pub retry_after_of : Option Err → ℕ
retry_after_of none = 0
retry_after_of (some e) = elim (as_error e) [ none ↦ 0 | some de ↦ error_retry_after de ]

abbrev pub is_general : FailCat → Bool
is_general cat_general = true
is_general _ = false

abbrev pub is_auth : FailCat → Bool
is_auth cat_auth = true
is_auth _ = false

abbrev pub max_session_strikes : ℕ
max_session_strikes = 4

pub record SubBreaker : Type 0 where
  pub threshold : ℕ
  pub cooldown : ℕ
  pub grow : Bool
  pub failures : ℕ
  pub strikes : ℕ
  pub open_until : Option ℕ
  pub probing : Bool
  pub is_open : Bool

-- retryAfterSeconds
unfoldable pub retry_after_seconds : ℕ → ℕ → ℕ
retry_after_seconds until now = let d = (until - now) / second in if leb 1 d then d else 1

-- `none` where the source returns (0, false), and otherwise the hint.
unfoldable pub blocking : SubBreaker → ℕ → Option ℕ
blocking s now = elim s.open_until [
  | none ↦ none
  | some until ↦
      if ltb now until
      then some (retry_after_seconds until now)
      else if s.probing
      then some 1
      else none
]

unfoldable pub can_probe : SubBreaker → ℕ → Bool
can_probe s now = elim s.open_until [
  | none ↦ false
  | some until ↦ not (ltb now until) && not s.probing
]

-- The strikes and the cooldown that `trip` computes.
unfoldable pub next_strikes : SubBreaker → ℕ
next_strikes s =
    if s.grow
    then (if ltb s.strikes max_session_strikes then s.strikes + 1 else s.strikes)
    else s.strikes

unfoldable pub trip_cooldown : SubBreaker → ℕ → ℕ
unfolding next_strikes
trip_cooldown s retry_after =
    let cd = if s.grow then shl s.cooldown (next_strikes s - 1) else s.cooldown in
    let ra = of_seconds retry_after in if dur_lt cd ra then ra else cd

unfoldable pub trip : SubBreaker → ℕ → ℕ → SubBreaker
unfolding next_strikes
trip s now retry_after = record s {
  strikes = next_strikes s;
  open_until = some (add_duration now (trip_cooldown s retry_after));
  failures = 0;
  is_open = true;
}

unfoldable pub fail : SubBreaker → ℕ → ℕ → SubBreaker
unfolding trip
fail s now retry_after =
    let s' = record s { failures = s.failures + 1 } in
    if leb s.threshold (s.failures + 1) then trip s' now retry_after else s'

unfoldable pub close : SubBreaker → SubBreaker
close s = record s { open_until = none; failures = 0; strikes = 0; is_open = false }

unfoldable pub probe_result : SubBreaker → ℕ → Bool → ℕ → SubBreaker
unfolding trip close
probe_result s now failed retry_after =
    let s' = record s { probing = false } in if failed then trip s' now retry_after else close s'

unfoldable pub new_sub : ℕ → ℕ → Bool → SubBreaker
new_sub threshold cooldown grow = record {
  threshold = threshold;
  cooldown = cooldown;
  grow = grow;
  failures = 0;
  strikes = 0;
  open_until = none;
  probing = false;
  is_open = false;
}

-- One `switch` of `record`: the category that counts as this sub-breaker's failure is `failed`.
unfoldable pub settle : SubBreaker → FailCat → Bool → ℕ → ℕ → SubBreaker
unfolding probe_result fail
settle s cat failed now retry_after =
    if s.probing
    then probe_result s now failed retry_after
    else if failed
    then fail s now retry_after
    else elim cat [ cat_none ↦ record s { failures = 0 } | _ ↦ s ]
