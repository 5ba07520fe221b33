-- ===== src/Startup.antt =====
-- cmd/server/main.go: profileSections, the configured sections resolved against the closed set.
mod Tests
pub mod Wiring
pub mod Run
use linkedin_api.Base.{
  Sum-cases, ℕ, zero, suc, ◌+◌, ◌-◌, ◌*◌, ◌/◌, ◌%◌, ◌^◌, ◌≤◌, ◌<◌, ◌≡◌, refl, sym, ap, ◌∙◌, subst,
  fun_ext, ◌≢◌, ◌↔◌, ◌⊎◌, inl, inr, Bool, true, false, not, ◌&&◌, ◌||◌, Option, none, some, List,
  [], ◌∷◌, ◌++◌, map, arith, ltb, leb, ◌==◌, ==_iff, if◌then◌else◌, Bool-cases, Option-cases,
  is_some, is_none, length, length-append, is_nil, get_elem?, remove_at, length-remove_at, keep,
  length-keep-le, any, all, All, All-append, All-keep, All-remove_at, Text, codes, text_eq,
  text_eq_iff, text_eq_refl, String,
}
use linkedin_api.Base.{trim_space, lower}
use linkedin_api.Base.Dict.{Dict, Fresh, Distinct}
use linkedin_api.Domain.Errors.{Err, plain}
use linkedin_api.Domain.Profile.{Profile}
use linkedin_api.Linkedin.Endpoints.{parse_section}
use linkedin_api.Linkedin.Parse.Json.{Json}
use linkedin_api.Linkedin.Parse.Links.{has, NoDup}
use linkedin_api.Linkedin.Parse.Order.{apply_all, Reordered, apply_all-Reordered}

-- The loop; `seen` is the map of sections that are in the output.
unfoldable pub profile_sections : List Text → List Text → Err ⊎ List Text
unfolding parse_section trim_space lower has text_eq
profile_sections seen [] = inr []
profile_sections seen (name ∷ names) = elim (parse_section (lower (trim_space name))) [
  | none ↦ inl (plain (codes "unknown PROFILE_SECTIONS entry"))
  | some sec ↦
      let dup = has sec seen in
      let rest = profile_sections (if dup then seen else sec ∷ seen) names in
      elim rest [ inl err ↦ inl err | inr out ↦ inr (if dup then out else sec ∷ out) ]
]

-- A section that is supported and has not been seen.
abbrev pub New : List Text → Text → Type 0
New seen s = (is_some (parse_section s) ≡ true) × (has s seen ≡ false)

-- Different sections, supported and not seen before.
abbrev pub Chosen : List Text → List Text → Type 0
Chosen seen out = NoDup out × All (New seen) out

parse_section_lem : (n s : Text) → parse_section n ≡ some s → is_some (parse_section s) ≡ true
unfolding parse_section
parse_section_lem n s h = subst (λ t. is_some (parse_section t) ≡ true) same known
  where
    known : is_some (parse_section n) ≡ true
    known = ground (arith, h)

    same : n ≡ s
    same = ground (arith, h)

-- What is new beside one more section is new without it, and is not that section.
without :
    (sec : Text) (seen out : List Text)
    → All (New (sec ∷ seen)) out
    → (has sec out ≡ false) × All (New seen) out
unfolding has
without sec seen [] h = (refl, tt)
without sec seen (s ∷ out) h =
    let (a, b) = without sec seen out h.1 in
    let apart : (text_eq sec s ≡ false) × (has s seen ≡ false) =
      ground (arith, h.0.1, text_eq_iff sec s, text_eq_iff s sec) in
    (ground (arith, apart, a), ((h.0.0, apart.1), b))

profile_sections-Chosen :
    (seen names out : List Text) → profile_sections seen names ≡ inr out → Chosen seen out
unfolding profile_sections
profile_sections-Chosen seen [] [] h = (tt, tt)
profile_sections-Chosen seen [] (s ∷ out) h = cc
profile_sections-Chosen seen (name ∷ names) out h =
    elim (Option-cases (parse_section (lower (trim_space name)))) [
      | inl e ↦ absurd (ground (arith, e, h))
      | inr (sec, e) ↦ elim (Bool-cases (has sec seen)) [
        | inl dup ↦ elim (Sum-cases (profile_sections seen names)) [
          | inl (err, q) ↦ absurd (ground (arith, e, dup, q, h))
          | inr (rest, q) ↦
              let same : rest ≡ out = ground (arith, e, dup, q, h) in
              subst (Chosen seen) same (profile_sections-Chosen seen names rest q)
        ]
        | inr new ↦ elim (Sum-cases (profile_sections (sec ∷ seen) names)) [
          | inl (err, q) ↦ absurd (ground (arith, e, new, q, h))
          | inr (rest, q) ↦
              let same : sec ∷ rest ≡ out = ground (arith, e, new, q, h) in
              let (nodup, all_new) = profile_sections-Chosen (sec ∷ seen) names rest q in
              let (apart, rest_new) = without sec seen rest all_new in
              let known = parse_section_lem (lower (trim_space name)) sec e in
              subst (Chosen seen) same ((apart, nodup), ((known, new), rest_new))
        ]
      ]
    ]

abbrev pub responses : (Text → Text) → List Text → Dict Text
responses f [] = []
responses f (s ∷ out) = (s, f s) ∷ responses f out

has-Fresh :
    (f : Text → Text) (s : Text) (out : List Text) → has s out ≡ false → Fresh s (responses f out)
unfolding has
has-Fresh f s [] h = tt
has-Fresh f s (t ∷ out) h =
    (ground (arith, h, text_eq_iff s t, text_eq_iff t s), has-Fresh f s out (ground (arith, h)))

responses-Distinct : (f : Text → Text) (out : List Text) → NoDup out → Distinct (responses f out)
responses-Distinct f [] h = tt
responses-Distinct f (s ∷ out) h = (has-Fresh f s out h.0, responses-Distinct f out h.1)

-- When the configured section names are accepted, the profile does not depend on the order in which
-- the responses of the resulting sections, whatever they are, are applied to it.
pub apply_all-profile_sections :
    (names out : List Text) (f : Text → Text) (j : Json) (p : Profile) {m : Dict Text}
    → profile_sections [] names ≡ inr out
    → Reordered (responses f out) m
    → apply_all j p (responses f out) ≡ apply_all j p m
apply_all-profile_sections names out f j p h r =
    let chosen = profile_sections-Chosen [] names out h in
    apply_all-Reordered j p r (responses-Distinct f out chosen.0)
