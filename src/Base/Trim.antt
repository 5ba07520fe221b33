-- ===== src/Base/Trim.antt =====
-- What strings.TrimSpace leaves of a text that stands between spaces.
use Prim.Native.Nat.{ℕ, ◌≤◌}
use mathlib.Core.Path.{◌≡◌, refl, sym, ap, ◌∙◌}
use mathlib.Core.Logic.{inl, inr}
use mathlib.Core.Bool.{Bool, true, false}
use mathlib.Core.List.{◌++◌, [], ◌∷◌}
use native.Mathlib.Omega.{arith}
use linkedin_api.Base.Lists.{all, length}
use linkedin_api.Base.Tests.{◌==◌, Bool-cases}
use linkedin_api.Base.Texts.{Text, trim_left, trim_right, trim, is_space, any_byte}

length-trim_left-le : (p : ℕ → Bool) (s : Text) → length (trim_left p s) ≤ length s
unfolding trim_left
length-trim_left-le p [] = omega arith
length-trim_left-le p (c ∷ s) = ground (arith, length-trim_left-le p s)

length-trim_right-le : (p : ℕ → Bool) (s : Text) → length (trim_right p s) ≤ length s
unfolding trim_right
length-trim_right-le p [] = omega arith
length-trim_right-le p (c ∷ s) = ground (arith, length-trim_right-le p s)

trim_left-append :
    (p : ℕ → Bool) (l s : Text) → all p l ≡ true → trim_left p (l ++ s) ≡ trim_left p s
unfolding trim_left
trim_left-append p [] s h = refl
trim_left-append p (c ∷ l) s h = ground (arith, trim_left-append p l s)

trim_right-append :
    (p : ℕ → Bool) (s r : Text) → all p r ≡ true → trim_right p (s ++ r) ≡ trim_right p s
unfolding trim_right
trim_right-append p [] [] h = refl
trim_right-append p [] (c ∷ r) h = ground (arith, trim_right-append p [] r)
trim_right-append p (c ∷ s) r h = ground (arith, trim_right-append p s r h)

-- A trimmed text does not begin with what is trimmed.
trim-begins : (p : ℕ → Bool) (c : ℕ) (s : Text) → trim p (c ∷ s) ≡ c ∷ s → p c ≡ false
unfolding trim trim_left
trim-begins p c s h = elim (Bool-cases (p c)) [
  | inr e ↦ e
  | inl e ↦
      let short : trim_right p (trim_left p s) ≡ c ∷ s = ground (arith, e, h) in
      absurd (
        omega
          (arith, ap length short, length-trim_right-le p (trim_left p s), length-trim_left-le p s))
]

-- What is trimmed from both sides of a trimmed text.
pub trim-padded :
    (p : ℕ → Bool) (l s r : Text)
    → all p l ≡ true
    → all p r ≡ true
    → trim p s ≡ s
    → trim p (l ++ (s ++ r)) ≡ s
unfolding trim trim_left trim_right
trim-padded p l [] r hl hr h = ap (trim_right p) (trim_left-append p l r hl ∙ blank r hr)
  where
    blank : (r : Text) → all p r ≡ true → trim_left p r ≡ []
    blank [] h = refl
    blank (c ∷ r) h = ground (arith, blank r)
trim-padded p l (c ∷ s) r hl hr h =
    let begins = trim-begins p c s h in
    let kept : trim_left p (c ∷ (s ++ r)) ≡ c ∷ (s ++ r) = ground (arith, begins) in
    let alone : trim_left p (c ∷ s) ≡ c ∷ s = ground (arith, begins) in
    ap (trim_right p) (trim_left-append p l (c ∷ (s ++ r)) hl ∙ kept)
    ∙ trim_right-append p (c ∷ s) r hr
    ∙ (ap (trim_right p) (sym alone) ∙ h)

any_byte-append :
    (p : ℕ → Bool) (s t : Text)
    → any_byte p s ≡ false
    → any_byte p t ≡ false
    → any_byte p (s ++ t) ≡ false
unfolding any_byte
any_byte-append p [] t h k = k
any_byte-append p (c ∷ s) t h k = ground (arith, any_byte-append p s t)

space-no_comma : (s : Text) → all is_space s ≡ true → any_byte (λ c. c == b',') s ≡ false
unfolding any_byte is_space
space-no_comma [] h = refl
space-no_comma (c ∷ s) h = ground (arith, space-no_comma s)

-- A text without a comma between spaces has no comma.
pub padded-no_comma :
    (l s r : Text)
    → all is_space l ≡ true
    → all is_space r ≡ true
    → any_byte (λ c. c == b',') s ≡ false
    → any_byte (λ c. c == b',') (l ++ (s ++ r)) ≡ false
padded-no_comma l s r hl hr h =
    any_byte-append _ l (s ++ r) (space-no_comma l hl)
      (any_byte-append _ s r h (space-no_comma r hr))
