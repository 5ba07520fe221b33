-- ===== src/Linkedin/Parse/Order.antt =====
-- internal/linkedin/parse/sections.go: what parseSection returns, and that sections can be applied in
-- any order.
use linkedin_api.Base.{
  ◌≡◌, refl, ap, ◌∙◌, ◌≢◌, inl, inr, true, false, Option, none, some, List, [], ◌∷◌, arith,
  Bool-cases, Option-cases, is_nil, Text, codes, text_eq, text_eq_iff, text_eq_refl,
}
use linkedin_api.Base.Dict.{Dict, get, put, get-put}
use linkedin_api.Base.Dict.{Fresh, Distinct}
use linkedin_api.Domain.Profile.{Profile}
use linkedin_api.Linkedin.Parse.Json.{Json, Envelope}
use linkedin_api.Linkedin.Parse.Sections.{
  by_urn, decode_elements, parse_section, Field, experience, education, skills, certifications,
  languages, volunteer, projects, test_scores, field_of, apply_field, apply_section, last_item,
  entry_of, present,
}

get-by_urn :
    (j : Json) (included : List Text) (m : Dict Text) (urn : Text)
    → get urn (by_urn j included m) ≡ last_item j included urn (get urn m)
unfolding by_urn
get-by_urn j [] m urn = refl
get-by_urn j (item ∷ included) m urn = elim (Option-cases (j.entity_urn item)) [
  | inl e ↦ rw e (get-by_urn j included m urn)
  | inr (u, e) ↦ elim (Bool-cases (is_nil u)) [
    | inl b ↦ rw (e, b) (get-by_urn j included m urn)
    | inr b ↦ rw (e, b) (rw (get-put u urn item m) at (get-by_urn j included (put u item m) urn))
  ]
]

decode_elements_lem {ℓ} :
    {T : Type ℓ} (j : Json) (decode : Text → Option T) (included elements : List Text)
    → decode_elements decode (by_urn j included []) elements
      ≡ present (entry_of j decode included) elements
unfolding decode_elements get
decode_elements_lem j decode included [] = refl
decode_elements_lem j decode included (urn ∷ elements) =
    ground (arith, get-by_urn j included [] urn, decode_elements_lem j decode included elements)

-- For a response whose envelope decodes, parseSection returns, without an error, the entries that
-- decode, in the order of the elements, each from the last included item that carries the element's
-- URN; elements without one, and those that do not decode, are skipped.
pub parse_section_lem {ℓ} :
    {T : Type ℓ} (j : Json) (raw : Text) (resp : Envelope) (decode : Text → Option T)
    → j.envelope raw ≡ inr resp
    → parse_section j raw decode ≡ (present (entry_of j decode resp.included) resp.elements, none)
unfolding parse_section
parse_section_lem j raw resp decode h =
    ground (arith, h, decode_elements_lem j decode resp.included resp.elements)

commute :
    (j : Json) (p : Profile) (f g : Field) (r s : Text)
    → f ≢ g
    → (apply_field j (apply_field j p f r).0 g s).0 ≡ (apply_field j (apply_field j p g s).0 f r).0
unfolding apply_field
commute j p f g r s ne = ground arith

-- The names of the sections.
field_name : Field → Text
field_name experience = codes "experience"
field_name education = codes "education"
field_name skills = codes "skills"
field_name certifications = codes "certifications"
field_name languages = codes "languages"
field_name volunteer = codes "volunteer"
field_name projects = codes "projects"
field_name test_scores = codes "test_scores"

field_of-name : (s : Text) (f : Field) → field_of s ≡ some f → text_eq s (field_name f) ≡ true
unfolding field_of field_name
field_of-name s f h = ground arith

apply_section-commute :
    (j : Json) (p : Profile) (a b r s : Text)
    → text_eq a b ≡ false
    → (apply_section j (apply_section j p a r).0 b s).0
      ≡ (apply_section j (apply_section j p b s).0 a r).0
unfolding apply_section
apply_section-commute j p a b r s h = elim (Option-cases (field_of a)) [
  | inl e ↦ ground (arith, e)
  | inr (f, e) ↦ elim (Option-cases (field_of b)) [
    | inl e' ↦ ground (arith, e, e')
    | inr (g, e') ↦
        let ne : f ≢ g = λ q. absurd (
          ground (
            arith,
            h,
            (text_eq_iff a (field_name f)).0 (field_of-name a f e),
            (text_eq_iff b (field_name g)).0 (field_of-name b g e'),
            ap field_name q,
            text_eq_refl a,
          )) in
        ground (arith, e, e', commute j p f g r s ne)
  ]
]

-- Sections' responses by name, applied one after another.
unfoldable pub apply_all : Json → Profile → Dict Text → Profile
unfolding apply_section
apply_all j p [] = p
apply_all j p ((section, raw) ∷ more) = apply_all j (apply_section j p section raw).0 more

-- The same responses in another order.
pub data Reordered : Dict Text → Dict Text → Type 0 where
  same : Reordered [] []
  on_tail : {l m : Dict Text} → (x : Text × Text) → Reordered l m → Reordered (x ∷ l) (x ∷ m)
  swap : {l : Dict Text} → (x y : Text × Text) → Reordered (x ∷ y ∷ l) (y ∷ x ∷ l)
  chain : {l m n : Dict Text} → Reordered l m → Reordered m n → Reordered l n

Fresh-Reordered : {l m : Dict Text} → (k : Text) → Reordered l m → Fresh k l → Fresh k m
Fresh-Reordered k same h = h
Fresh-Reordered k (on_tail x r) h = (h.0, Fresh-Reordered k r h.1)
Fresh-Reordered k (swap x y) h = (h.1.0, (h.0, h.1.1))
Fresh-Reordered k (chain r s) h = Fresh-Reordered k s (Fresh-Reordered k r h)

Distinct-Reordered : {l m : Dict Text} → Reordered l m → Distinct l → Distinct m
Distinct-Reordered same d = d
Distinct-Reordered (on_tail x r) d = (Fresh-Reordered x.0 r d.0, Distinct-Reordered r d.1)
Distinct-Reordered (swap x y) d =
    ((ground (arith, d.0.0, text_eq_iff x.0 y.0, text_eq_iff y.0 x.0), d.1.0), (d.0.1, d.1.1))
Distinct-Reordered (chain r s) d = Distinct-Reordered s (Distinct-Reordered r d)

-- The profile does not depend on the order in which the responses of sections with distinct names
-- are applied to it.
pub apply_all-Reordered :
    (j : Json) (p : Profile) {l m : Dict Text}
    → Reordered l m
    → Distinct l
    → apply_all j p l ≡ apply_all j p m
unfolding apply_all
apply_all-Reordered j p same d = refl
apply_all-Reordered j p (on_tail x r) d = apply_all-Reordered j (apply_section j p x.0 x.1).0 r d.1
apply_all-Reordered j p (swap {l} x y) d =
    ap (λ q. apply_all j q l)
      (apply_section-commute j p x.0 y.0 x.1 y.1
        (ground (arith, d.0.0, text_eq_iff x.0 y.0, text_eq_iff y.0 x.0)))
apply_all-Reordered j p (chain r s) d =
    apply_all-Reordered j p r d ∙ apply_all-Reordered j p s (Distinct-Reordered r d)
