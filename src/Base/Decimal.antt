-- ===== src/Base/Decimal.antt =====
-- strconv on decimal texts: Atoi and Itoa.
use Prim.Native.Nat.{ℕ, zero, suc, ◌+◌, ◌*◌, ◌-◌, ◌/◌, ◌%◌}
use mathlib.Core.Bool.{Bool, true, false, ◌&&◌}
use mathlib.Core.List.{[], ◌∷◌, ◌++◌}
use mathlib.Core.Option.{Option, none, some}
use linkedin_api.Base.Tests.{ltb, leb, if◌then◌else◌, ◌==◌}
use linkedin_api.Base.Texts.{Text}
use linkedin_api.Base.Int.{ℤ, pos, negsuc}
use linkedin_api.Base.Duration.{two_63}

abbrev pub is_digit : ℕ → Bool
is_digit c = leb b'0' c && leb c b'9'

-- The number that a text of digits spells, after the digits of `n`.
unfoldable pub digits : ℕ → Text → Option ℕ
digits n [] = some n
digits n (c ∷ s) = elim (is_digit c) [ true ↦ digits (10 * n + (c - b'0')) s | false ↦ none ]

unfoldable pub natural : Text → Option ℕ
unfolding digits
natural [] = none
natural (c ∷ s) = digits 0 (c ∷ s)

abbrev pub positive : Option ℕ → Option ℤ
positive none = none
positive (some n) = if ltb n two_63 then some (pos n) else none

abbrev pub negative : Option ℕ → Option ℤ
negative none = none
negative (some zero) = some (pos 0)
negative (some (suc n)) = if ltb n two_63 then some (negsuc n) else none

-- strconv.Atoi: a sign or none, digits, and a value that an int64 holds.
unfoldable pub atoi : Text → Option ℤ
unfolding natural
atoi [] = none
atoi (c ∷ s) =
    if c == b'-' then negative (natural s) else positive (natural (if c == b'+' then s else c ∷ s))

-- strconv.Itoa of a natural number; `fuel` is no less than the number.
unfoldable pub itoa_go : ℕ → ℕ → Text
itoa_go zero n = (b'0' + n % 10) ∷ []
itoa_go (suc fuel) n = elim (ltb n 10) [
  | true ↦ (b'0' + n) ∷ []
  | false ↦ itoa_go fuel (n / 10) ++ ((b'0' + n % 10) ∷ [])
]

unfoldable pub itoa : ℕ → Text
unfolding itoa_go
itoa n = itoa_go n n
