-- ===== src/Base/Duration.antt =====
-- Go's `time.Duration`: a signed 64-bit count of nanoseconds, kept as its bit pattern below 2 ^ 64.
-- An instant is a number of nanoseconds since the epoch.
use Prim.Native.Nat.{ℕ, ◌+◌, ◌-◌, ◌*◌, ◌%◌, ◌^◌, ◌<◌}
use mathlib.Core.Path.{◌≡◌}
use mathlib.Core.Bool.{Bool}
use native.Mathlib.Omega.{arith}
use linkedin_api.Base.Tests.{ltb, if◌then◌else◌}

abbrev pub two_63 : ℕ
two_63 = 9_223_372_036_854_775_808

abbrev pub two_64 : ℕ
two_64 = 18_446_744_073_709_551_616

abbrev pub second : ℕ
second = 1_000_000_000

-- time.Duration(n) * time.Second, for 0 <= n.
unfoldable pub of_seconds : ℕ → ℕ
of_seconds n = (n * second) % two_64

-- d << k
unfoldable pub shl : ℕ → ℕ → ℕ
shl d k = (d * 2 ^ k) % two_64

-- a < b as signed numbers: flipping the top bit turns the signed order into the unsigned one.
unfoldable pub dur_lt : ℕ → ℕ → Bool
dur_lt a b = ltb ((a + two_63) % two_64) ((b + two_63) % two_64)

-- t.Add(d); an instant before the epoch is not represented.
unfoldable pub add_duration : ℕ → ℕ → ℕ
add_duration t d = if ltb d two_63 then t + d else t - (two_64 - d)

pub of_seconds_small : (n : ℕ) → n * second < two_63 → of_seconds n ≡ n * second
unfolding of_seconds
of_seconds_small n h = omega arith

pub dur_lt_small : (a b : ℕ) → a < two_63 → b < two_63 → dur_lt a b ≡ ltb a b
unfolding dur_lt
dur_lt_small a b h k = ground arith

pub add_duration_small : (t d : ℕ) → d < two_63 → add_duration t d ≡ t + d
unfolding add_duration
add_duration_small t d h = ground arith
