-- ===== src/Linkedin/Parse/Sections.antt =====
-- internal/linkedin/parse/sections.go: ApplySection and parseSection. The switch on a section's
-- name is the table `field_of` and the assignments are the clauses of `apply_field`.
use linkedin_api.Base.{
  ℕ, inl, inr, not, ◌&&◌, Option, none, some, List, [], ◌∷◌, if◌then◌else◌, length, is_nil, Text,
  codes, text_eq,
}
use linkedin_api.Base.Dict.{Dict, get, put}
use linkedin_api.Domain.Errors.{Err, upstream_parse, cause, structured}
use linkedin_api.Domain.Profile.{Profile}
use linkedin_api.Linkedin.Parse.Json.{Json}
use linkedin_api.Linkedin.Parse.Decode.{
  decode_experience, decode_education, decode_skill, decode_certification, decode_language,
  decode_volunteer, decode_project, decode_test_score,
}

-- The loop over `included` that fills byURN.
unfoldable pub by_urn : Json → List Text → Dict Text → Dict Text
unfolding put
by_urn j [] m = m
by_urn j (item ∷ included) m =
    let m' : Dict Text = elim (j.entity_urn item) [
      | none ↦ m
      | some urn ↦ if is_nil urn then m else put urn item m
    ] in
    by_urn j included m'

-- The loop over the ordered URNs.
unfoldable pub decode_elements {ℓ} :
    {T : Type ℓ} → (Text → Option T) → Dict Text → List Text → List T
unfolding get
decode_elements decode m [] = []
decode_elements decode m (urn ∷ elements) =
    let rest = decode_elements decode m elements in
    elim (get urn m) [
      | none ↦ rest
      | some item ↦ elim (decode item) [ none ↦ rest | some v ↦ v ∷ rest ]
    ]

-- The parsed entries and the error.
unfoldable pub parse_section {ℓ} :
    {T : Type ℓ} → Json → Text → (Text → Option T) → List T × Option Err
unfolding by_urn decode_elements
parse_section j raw decode = elim (j.envelope raw) [
  | inl err ↦ ([], some (structured (upstream_parse (cause err))))
  | inr resp ↦ (decode_elements decode (by_urn j resp.included []) resp.elements, none)
]

-- The sections that the switch knows.
pub data Field : Type 0 where
  experience education skills certifications languages volunteer projects test_scores : Field

unfoldable pub field_of : Text → Option Field
field_of s =
    if text_eq s (codes "experience")
    then some experience
    else if text_eq s (codes "education")
    then some education
    else if text_eq s (codes "skills")
    then some skills
    else if text_eq s (codes "certifications")
    then some certifications
    else if text_eq s (codes "languages")
    then some languages
    else if text_eq s (codes "volunteer")
    then some volunteer
    else if text_eq s (codes "projects")
    then some projects
    else if text_eq s (codes "test_scores")
    then some test_scores
    else none

-- The profile afterwards, the number of entries, and the error.
unfoldable pub apply_field : Json → Profile → Field → Text → Profile × (ℕ × Option Err)
unfolding parse_section decode_experience decode_education decode_skill decode_certification
    decode_language decode_volunteer decode_project decode_test_score
apply_field j p experience raw =
    let (v, err) = parse_section j raw (decode_experience j) in
    (record p { experience = v }, (length v, err))
apply_field j p education raw =
    let (v, err) = parse_section j raw (decode_education j) in
    (record p { education = v }, (length v, err))
apply_field j p skills raw =
    let (v, err) = parse_section j raw (decode_skill j) in
    (record p { skills = v }, (length v, err))
apply_field j p certifications raw =
    let (v, err) = parse_section j raw (decode_certification j) in
    (record p { certifications = v }, (length v, err))
apply_field j p languages raw =
    let (v, err) = parse_section j raw (decode_language j) in
    (record p { languages = v }, (length v, err))
apply_field j p volunteer raw =
    let (v, err) = parse_section j raw (decode_volunteer j) in
    (record p { volunteer_experience = v }, (length v, err))
apply_field j p projects raw =
    let (v, err) = parse_section j raw (decode_project j) in
    (record p { projects = v }, (length v, err))
apply_field j p test_scores raw =
    let (v, err) = parse_section j raw (decode_test_score j) in
    (record p { test_scores = v }, (length v, err))

unfoldable pub apply_section : Json → Profile → Text → Text → Profile × (ℕ × Option Err)
unfolding field_of apply_field
apply_section j p section raw = elim (field_of section) [
  | none ↦ (p, (0, none))
  | some f ↦ apply_field j p f raw
]

-- What `included` says of a URN, by the last item that carries it.
abbrev pub last_item : Json → List Text → Text → Option Text → Option Text
last_item j [] urn found = found
last_item j (item ∷ included) urn found = last_item j included urn (elim (j.entity_urn item) [
  | none ↦ found
  | some u ↦ if not (is_nil u) && text_eq u urn then some item else found
])

-- What the loop answers for an element.
abbrev pub entry_of {ℓ} : {T : Type ℓ} → Json → (Text → Option T) → List Text → Text → Option T
entry_of j decode included urn = elim (last_item j included urn none) [
  | none ↦ none
  | some item ↦ decode item
]

-- The values that a partial function has on a list, in its order.
abbrev pub present {ℓ κ} : {A : Type ℓ} → {T : Type κ} → (A → Option T) → List A → List T
present f [] = []
present f (x ∷ xs) = let rest = present f xs in elim (f x) [ none ↦ rest | some v ↦ v ∷ rest ]
