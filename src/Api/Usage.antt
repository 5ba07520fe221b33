-- ===== src/Api/Usage.antt =====
-- internal/api/usage.go: the clamps of the usage query. The two parsers of the standard library
-- have their results as arguments.
use linkedin_api.Base.{
  ℕ, ◌≤◌, ◌<◌, ◌||◌, Option, none, some, List, arith, ltb, leb, ◌==◌, if◌then◌else◌,
}
use linkedin_api.Base.Duration.{two_63}
use linkedin_api.Audit.Report.{Summary, Count}
use linkedin_api.Base.Int.{ℤ, pos, negsuc}

-- usageResponse
pub record UsageResponse : Type 0 where
  pub window : ℕ
  pub summary : Summary
  pub top_profiles : List Count
  pub top_clients : List Count
  pub top_upstream_clients : List Count

abbrev pub default_usage_window : ℕ
default_usage_window = 86_400_000_000_000

abbrev pub max_usage_window : ℕ
max_usage_window = 2_592_000_000_000_000

-- `parsed` is what time.ParseDuration returned, as a 64-bit pattern.
unfoldable pub parse_window : Option ℕ → ℕ
parse_window none = default_usage_window
parse_window (some d) =
    if d == 0 || leb two_63 d
    then default_usage_window
    else if ltb max_usage_window d
    then max_usage_window
    else d

abbrev pub default_usage_limit : ℕ
default_usage_limit = 10

abbrev pub max_usage_limit : ℕ
max_usage_limit = 100

-- `parsed` is what strconv.Atoi returned.
unfoldable pub parse_limit : Option ℤ → ℕ
parse_limit none = default_usage_limit
parse_limit (some (negsuc n)) = default_usage_limit
parse_limit (some (pos n)) =
    if ltb n 1 then default_usage_limit else if ltb max_usage_limit n then max_usage_limit else n

-- A window is positive and at most the maximum, and so is a limit, whatever the query says.
pub parse_window-Bounds :
    (parsed : Option ℕ) (raw : Option ℤ)
    → (0 < parse_window parsed)
      × (parse_window parsed ≤ max_usage_window)
      × (0 < parse_limit raw)
      × (parse_limit raw ≤ max_usage_limit)
unfolding parse_window parse_limit
parse_window-Bounds none none = ground arith
parse_window-Bounds none (some (pos n)) = ground arith
parse_window-Bounds none (some (negsuc n)) = ground arith
parse_window-Bounds (some d) none = ground arith
parse_window-Bounds (some d) (some (pos n)) = ground arith
parse_window-Bounds (some d) (some (negsuc n)) = ground arith
