-- ===== src/Linkedin/Parse/Links.antt =====
-- internal/linkedin/parse/sections.go and profile.go: links, names and the lists of distinct names.
use linkedin_api.Base.{
  ℕ, ◌≡◌, refl, inl, inr, Bool, false, not, ◌&&◌, ◌||◌, none, some, List, [], ◌∷◌, ◌++◌, arith,
  ◌==◌, if◌then◌else◌, Bool-cases, is_nil, any, Text, codes, text_eq, text_eq_iff, text_eq_refl,
}
use linkedin_api.Base.{trim_space, after_last, cut, any_byte}

-- The bytes of a simple id: none of "(),".
unfoldable pub compound : ℕ → Bool
compound c = c == b'(' || c == b')' || c == b','

unfoldable pub entity_url : Text → Text → Text
unfolding after_last any_byte compound
entity_url urn kind = elim (after_last (λ c. c == b':') urn) [
  | none ↦ []
  | some id ↦
      if is_nil id || any_byte compound id
      then []
      else codes "https://www.linkedin.com/" ++ (kind ++ (b'/' ∷ (id ++ (b'/' ∷ []))))
]

unfoldable pub first_non_empty : List Text → Text
unfolding trim_space
first_non_empty [] = []
first_non_empty (v ∷ vals) =
    let rest = first_non_empty vals in if is_nil (trim_space v) then rest else v

pub record DashLocale : Type 0 where
  pub country : Text
  pub language : Text

unfoldable pub locale_string : DashLocale → Text
unfolding trim_space
locale_string l =
    let lang = trim_space l.language in
    let country = trim_space l.country in
    if is_nil lang then [] else if is_nil country then lang else lang ++ (b'_' ∷ country)

unfoldable pub hashtag_name : Text → Text
unfolding cut trim_space
hashtag_name urn = elim (cut (λ c. c == b'(') urn) [
  | none ↦ []
  | some (_, rest) ↦ elim (cut (λ c. c == b',' || c == b')') rest) [
    | none ↦ trim_space rest
    | some (name, _) ↦ trim_space name
  ]
]

-- Whether a text is in a list, which stands for the map `seen` too.
unfoldable pub has : Text → List Text → Bool
has s texts = any (text_eq s) texts

-- The loop that drops empty names and those seen before.
unfoldable pub distinct : List Text → List Text → List Text
unfolding has text_eq
distinct seen [] = []
distinct seen (s ∷ more) =
    let dup = is_nil s || has s seen in
    let rest = distinct (if dup then seen else s ∷ seen) more in if dup then rest else s ∷ rest

-- `xs` without some of its entries, in its order.
pub data Sublist : List Text → List Text → Type 0 where
  done : Sublist [] []
  keep_one : {xs ys : List Text} → (x : Text) → Sublist xs ys → Sublist (x ∷ xs) (x ∷ ys)
  drop_one : {xs ys : List Text} → (x : Text) → Sublist xs ys → Sublist xs (x ∷ ys)

abbrev pub NoDup : List Text → Type 0
NoDup [] = Unit {0}
NoDup (x ∷ xs) = (has x xs ≡ false) × NoDup xs

distinct-has :
    (w : Text) (seen names : List Text)
    → has w (distinct seen names) ≡ (has w names && (not (has w seen) && not (is_nil w)))
unfolding distinct has
distinct-has w seen [] = refl
distinct-has w seen (s ∷ more) =
    ground (arith, distinct-has w seen more, distinct-has w (s ∷ seen) more, text_eq_iff w s)

distinct-Sublist : (seen names : List Text) → Sublist (distinct seen names) names
unfolding distinct
distinct-Sublist seen [] = done
distinct-Sublist seen (s ∷ more) = elim (Bool-cases (is_nil s || has s seen)) [
  | inl e ↦ rw e (drop_one s (distinct-Sublist seen more))
  | inr e ↦ rw e (keep_one s (distinct-Sublist (s ∷ seen) more))
]

distinct-NoDup : (seen names : List Text) → NoDup (distinct seen names)
unfolding distinct has
distinct-NoDup seen [] = tt
distinct-NoDup seen (s ∷ more) = ground (
  arith,
  distinct-NoDup seen more,
  distinct-NoDup (s ∷ seen) more,
  distinct-has s (s ∷ seen) more,
  text_eq_refl s,
)

-- The list of the distinct names that are not empty, in their order.
pub record Collected (names out : List Text) : Type 0 where
  pub ordered : Sublist out names
  pub no_dup : NoDup out
  pub members : (w : Text) → has w out ≡ (has w names && not (is_nil w))

pub distinct-Collected : (names : List Text) → Collected names (distinct [] names)
unfolding has
distinct-Collected names = record {
  ordered = distinct-Sublist [] names;
  no_dup = distinct-NoDup [] names;
  members = λ w. distinct-has w [] names;
}
