-- ===== src/Linkedin/Endpoints.antt =====
-- internal/linkedin/endpoints.go and the two fetches of client.go. `encode` is url.Values.Encode. The
-- set of sections is the keys of the map from sections to resources.
use linkedin_api.Base.{
  ◌≡◌, sym, ◌∙◌, ◌⊎◌, inl, false, Option, none, some, [], ◌∷◌, ◌++◌, arith, if◌then◌else◌, is_some,
  Text, codes, text_eq, text_eq_iff,
}
use linkedin_api.Base.Dict.{Dict, get}
use linkedin_api.Domain.Errors.{Err, plain, structured, internal, cause}
use linkedin_api.Linkedin.Credential.{Credential}
use linkedin_api.Linkedin.Client.{Network, Client, get_target}
use linkedin_api.Linkedin.Parse.Sections.{field_of, apply_section}
use linkedin_api.Linkedin.Parse.Json.{Json}
use linkedin_api.Domain.Profile.{Profile}

abbrev pub profile_request : Text → Text × Dict Text
profile_request public_id = (
  codes "/voyager/api/identity/dash/profiles",
  (codes "q", codes "memberIdentity") ∷ (codes "memberIdentity", public_id) ∷ [],
)

unfoldable pub section_resource : Dict Text
section_resource =
    (codes "experience", codes "profilePositions")
    ∷ (codes "education", codes "profileEducations")
    ∷ (codes "skills", codes "profileSkills")
    ∷ (codes "certifications", codes "profileCertifications")
    ∷ (codes "languages", codes "profileLanguages")
    ∷ (codes "volunteer", codes "profileVolunteerExperiences")
    ∷ (codes "projects", codes "profileProjects")
    ∷ (codes "test_scores", codes "profileTestScores")
    ∷ []

unfoldable pub section_request : Text → Text → Option (Text × Dict Text)
unfolding section_resource get
section_request section profile_urn = elim (get section section_resource) [
  | none ↦ none
  | some resource ↦ some (
    codes "/voyager/api/identity/dash/" ++ resource,
    (codes "q", codes "viewee") ∷ (codes "profileUrn", profile_urn) ∷ [],
  )
]

-- ParseSection
unfoldable pub parse_section : Text → Option Text
unfolding section_resource get
parse_section name = if is_some (get name section_resource) then some name else none

abbrev pub unknown_section : Err
unknown_section = plain (codes "unknown profile section")

module _ {W : Type 0} (o : Network W) (encode : Dict Text → Text) (base_url : Text) where
  unfoldable pub fetch_profile : Client W → Text → Credential → Option ((Err ⊎ Text) × Client W)
  unfolding get_target
  fetch_profile s public_id cred =
      let (path, query) = profile_request public_id in
      get_target o s (base_url ++ (path ++ (b'?' ∷ encode query))) cred

  unfoldable pub fetch_profile_section :
      Client W → Text → Text → Credential → Option ((Err ⊎ Text) × Client W)
  unfolding section_request get_target
  fetch_profile_section s section profile_urn cred = elim (section_request section profile_urn) [
    | none ↦ some (inl (structured (internal (cause unknown_section))), s)
    | some (path, query) ↦ get_target o s (base_url ++ (path ++ (b'?' ∷ encode query))) cred
  ]

text_eq_sym : (s t : Text) → text_eq s t ≡ text_eq t s
text_eq_sym s t = ground (arith, text_eq_iff s t, text_eq_iff t s)

-- The sections that may be requested are those whose responses are assigned to a field of the
-- profile.
section_resource-field_of :
    (section : Text) → is_some (get section section_resource) ≡ is_some (field_of section)
unfolding section_resource get field_of
section_resource-field_of s = ground (
  arith,
  text_eq_sym s (codes "experience"),
  text_eq_sym s (codes "education"),
  text_eq_sym s (codes "skills"),
  text_eq_sym s (codes "certifications"),
  text_eq_sym s (codes "languages"),
  text_eq_sym s (codes "volunteer"),
  text_eq_sym s (codes "projects"),
  text_eq_sym s (codes "test_scores"),
)

-- A section that ParseSection refuses is refused by FetchProfileSection before any request, and its
-- response, whatever it were, would change no profile.
pub fetch_profile_section-closed :
    {W : Type 0} (o : Network W) (encode : Dict Text → Text) (base_url : Text) (s : Client W)
    (section profile_urn : Text) (cred : Credential) (j : Json) (p : Profile) (raw : Text)
    → parse_section section ≡ none
    → (fetch_profile_section o encode base_url s section profile_urn cred
        ≡ some (inl (structured (internal (cause unknown_section))), s))
      × (apply_section j p section raw ≡ (p, (0, none)))
unfolding fetch_profile_section section_request parse_section apply_section
fetch_profile_section-closed o encode base_url s section profile_urn cred j p raw h =
    let unlisted : is_some (get section section_resource) ≡ false = ground (arith, h) in
    let unknown : is_some (field_of section) ≡ false =
      sym (section_resource-field_of section) ∙ unlisted in
    (ground (arith, unlisted), ground (arith, unknown))
