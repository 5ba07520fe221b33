-- ===== src/Base/Texts.antt =====
-- Go strings as lists of bytes, with the functions of package strings that the program calls.
use Prim.Native.Nat.{ℕ, ◌+◌}
use Prim.Native.Char.{code}
use Prim.Native.String.{String}
use mathlib.Core.Path.{◌≡◌, refl}
use mathlib.Core.Logic.{◌↔◌}
use mathlib.Core.Bool.{Bool, true, false, ◌&&◌, ◌||◌}
use mathlib.Core.List.{◌++◌, List, [], ◌∷◌}
use native.Mathlib.Omega.{arith}
use linkedin_api.Base.Lists.{is_nil, All}
use mathlib.Core.Option.{Option, none, some}
use linkedin_api.Base.Tests.{leb, if◌then◌else◌, ◌==◌}

abbrev pub Text : Type 0
Text = List ℕ

-- A literal: the bytes of an ASCII text.
abbrev pub codes : String → Text
codes String.[] = []
codes (String.◌∷◌ c s) = code c ∷ codes s

unfoldable pub text_eq : Text → Text → Bool
text_eq [] [] = true
text_eq (a ∷ s) (b ∷ t) = a == b && text_eq s t
text_eq _ _ = false

pub text_eq_iff : (s t : Text) → (text_eq s t ≡ true) ↔ (s ≡ t)
unfolding text_eq
text_eq_iff [] [] = ground arith
text_eq_iff [] (b ∷ t) = ground arith
text_eq_iff (a ∷ s) [] = ground arith
text_eq_iff (a ∷ s) (b ∷ t) = ground (arith, text_eq_iff s t)

pub text_eq_refl : (s : Text) → text_eq s s ≡ true
text_eq_refl s = (text_eq_iff s s).1 refl

-- unicode.IsSpace on ASCII; the spaces beyond ASCII are not modelled.
unfoldable pub is_space : ℕ → Bool
is_space c = c == b' ' || (leb 9 c && leb c 13)

unfoldable pub trim_left : (ℕ → Bool) → Text → Text
trim_left p [] = []
trim_left p (c ∷ s) = let rest = trim_left p s in if p c then rest else c ∷ s

-- Drops the trailing bytes that pass a test.
unfoldable pub trim_right : (ℕ → Bool) → Text → Text
trim_right p [] = []
trim_right p (c ∷ s) = let rest = trim_right p s in if is_nil rest && p c then [] else c ∷ rest

-- strings.Trim with a set of bytes, and strings.TrimSpace.
unfoldable pub trim : (ℕ → Bool) → Text → Text
unfolding trim_left trim_right
trim p s = trim_right p (trim_left p s)

unfoldable pub trim_space : Text → Text
unfolding trim is_space
trim_space s = trim is_space s

-- strings.Split(s, sep) for a one-byte separator: never the empty list.
unfoldable pub split_on : ℕ → Text → Text × List Text
split_on sep [] = ([], [])
split_on sep (c ∷ s) =
    let (word, rest) = split_on sep s in if c == sep then ([], word ∷ rest) else (c ∷ word, rest)

unfoldable pub split : ℕ → Text → List Text
unfolding split_on
split sep s = let (word, rest) = split_on sep s in word ∷ rest

-- The part before the first byte that passes a test, and the part after it, if there is one.
unfoldable pub cut : (ℕ → Bool) → Text → Option (Text × Text)
cut p [] = none
cut p (c ∷ s) =
    let rest = cut p s in
    if p c
    then some ([], s)
    else elim rest [ none ↦ none | some (before, after) ↦ some (c ∷ before, after) ]

-- The part after the last byte that passes a test, as by strings.LastIndexByte.
unfoldable pub after_last : (ℕ → Bool) → Text → Option Text
after_last p [] = none
after_last p (c ∷ s) =
    let rest = after_last p s in
    elim rest [ some after ↦ some after | none ↦ if p c then some s else none ]

unfoldable pub any_byte : (ℕ → Bool) → Text → Bool
any_byte p [] = false
any_byte p (c ∷ s) = p c || any_byte p s

-- strings.HasPrefix and strings.TrimPrefix
unfoldable pub strip_prefix : Text → Text → Option Text
strip_prefix [] s = some s
strip_prefix (a ∷ p) [] = none
strip_prefix (a ∷ p) (c ∷ s) = if a == c then strip_prefix p s else none

-- strings.ToLower on ASCII.
unfoldable pub to_lower : ℕ → ℕ
to_lower c = if leb b'A' c && leb c b'Z' then c + 32 else c

unfoldable pub lower : Text → Text
unfolding to_lower
lower [] = []
lower (c ∷ s) = to_lower c ∷ lower s

-- The parts of a split hold no separator.
pub split_on_free :
    (sep : ℕ) (s : Text)
    → (any_byte (λ c. c == sep) (split_on sep s).0 ≡ false)
      × All (λ w. any_byte (λ c. c == sep) w ≡ false) (split_on sep s).1
unfolding split_on any_byte
split_on_free sep [] = (refl, tt)
split_on_free sep (c ∷ s) = ground (arith, split_on_free sep s)

-- A word without a separator is the first part of a split.
pub split_on-free :
    (sep : ℕ) (e s : Text)
    → any_byte (λ c. c == sep) e ≡ false
    → (split_on sep (e ++ (sep ∷ s)) ≡ (e, split sep s)) × (split_on sep e ≡ (e, []))
unfolding split split_on any_byte
split_on-free sep [] s h = (ground arith, refl)
split_on-free sep (c ∷ e) s h = ground (arith, split_on-free sep e s)

-- Texts joined by commas, as by strings.Join.
abbrev pub join : List Text → Text
join [] = []
join (e ∷ []) = e
join (e ∷ more) = e ++ (b',' ∷ join more)

after_last-none : (p : ℕ → Bool) (s : Text) → after_last p s ≡ none → any_byte p s ≡ false
unfolding after_last any_byte
after_last-none p [] h = refl
after_last-none p (c ∷ s) h = ground (arith, after_last-none p s)

-- What stands after the last separator holds none.
pub after_last_free : (p : ℕ → Bool) (s t : Text) → after_last p s ≡ some t → any_byte p t ≡ false
unfolding after_last
after_last_free p [] t h = cc
after_last_free p (c ∷ s) t h = ground (arith, after_last_free p s t, after_last-none p s)
