-- ===== src/Linkedin/Parse/TopCard.antt =====
-- internal/linkedin/parse/profile.go: the profile of a DASH profiles response, and its URN.
use linkedin_api.Base.{
  ℕ, ◌*◌, ◌≡◌, refl, ◌≢◌, ◌⊎◌, inl, inr, Bool, false, not, ◌&&◌, Option, none, some, List, [], ◌∷◌,
  ◌++◌, map, arith, if◌then◌else◌, is_some, is_nil, Text, codes, text_eq,
}
use linkedin_api.Base.{trim_space}
use linkedin_api.Base.Int.{is_nonpositive, to_ℕ}
use linkedin_api.Domain.Errors.{
  error_code, code_profile_not_found, code_upstream_parse_error, Error, Err, upstream_parse,
  not_found, cause,
}
use linkedin_api.Domain.Profile.{Image, Location, Website, Profile}
use linkedin_api.Linkedin.Parse.Image.{image, str_ptr}
use linkedin_api.Linkedin.Parse.Links.{
  locale_string, hashtag_name, distinct, Collected, distinct-Collected,
}
use linkedin_api.Linkedin.Parse.Json.{Json, DashPhoto, DashProfile, DashWebsite}
pub use linkedin_api.Urlx.{ProfileRef}
use linkedin_api.Linkedin.Parse.Decode.{clean_text}

-- (*dashPhoto).image
unfoldable pub photo_image : Option DashPhoto → Option Image
unfolding image
photo_image none = none
photo_image (some d) = elim d.display_image [ none ↦ none | some v ↦ image v ]

unfoldable pub verified : DashProfile → Bool
verified e = elim e.verification_data [
  | none ↦ false
  | some none ↦ false
  | some (some v) ↦ not (is_nil v) && not (text_eq v (codes "null"))
]

unfoldable pub location : DashProfile → Option Location
location e = elim e.location [
  | none ↦ none
  | some country ↦
      if is_nil country then none else some (record { country_code = country; text = [] })
]

unfoldable pub sites : List DashWebsite → List Website
sites [] = []
sites (w ∷ websites) =
    let rest = sites websites in
    if is_nil w.url then rest else record { url = w.url; category = w.category } ∷ rest

unfoldable pub language : DashProfile → Text
unfolding locale_string
language e = elim e.primary_locale [ none ↦ [] | some l ↦ locale_string l ]

unfoldable pub supported_locales : DashProfile → List Text
unfolding distinct locale_string
supported_locales e = distinct [] (map locale_string e.supported_locales)

-- Milliseconds become the nanoseconds in which instants are counted.
unfoldable pub created : DashProfile → Option ℕ
created e = if is_nonpositive e.created then none else some (to_ℕ e.created * 1000000)

unfoldable pub creator_website : DashProfile → Text
unfolding trim_space
creator_website e = elim e.creator_info [
  | none ↦ []
  | some c ↦ elim c.creator_website [ none ↦ [] | some t ↦ trim_space t ]
]

-- The URNs that the loop of `topics` reads.
abbrev pub hashtag_urns : DashProfile → List Text
hashtag_urns e = elim e.creator_info [ none ↦ [] | some c ↦ c.associated_hashtag_urns ]

unfoldable pub topics : DashProfile → List Text
unfolding distinct hashtag_name
topics e = distinct [] (map hashtag_name (hashtag_urns e))

unfoldable pub profile_of : Json → ProfileRef → DashProfile → Profile
unfolding clean_text trim_space str_ptr language supported_locales verified photo_image location
    sites creator_website topics created
profile_of j ref e =
    let first = clean_text j e.first_name in
    let last = clean_text j e.last_name in
    record {
      public_identifier = ref.public_id;
      profile_url = ref.canonical_url;
      first_name = first;
      last_name = last;
      full_name = trim_space (first ++ (b' ' ∷ last));
      headline = clean_text j e.headline;
      summary = str_ptr (clean_text j e.summary);
      profile_language = language e;
      supported_locales = supported_locales e;
      location = location e;
      profile_picture = photo_image e.profile_picture;
      background_image = photo_image e.background_picture;
      websites = sites e.websites;
      creator_website = creator_website e;
      topics = topics e;
      verified = verified e;
      influencer = e.influencer;
      premium = e.premium;
      creator = e.creator;
      top_voice = is_some e.top_voice_badge;
      student = e.student;
      memorialized = e.memorialized;
      created_at = created e;
      experience = [];
      education = [];
      skills = [];
      certifications = [];
      languages = [];
      volunteer_experience = [];
      projects = [];
      test_scores = [];
    }

unfoldable pub profile : Json → Text → ProfileRef → Error ⊎ Profile
unfolding profile_of
profile j raw ref = elim (j.dash_response raw) [
  | inl err ↦ inl (upstream_parse (cause err))
  | inr [] ↦ inl (not_found (codes "the requested LinkedIn profile was not found"))
  | inr (e ∷ _) ↦ inr (profile_of j ref e)
]

unfoldable pub profile_urn : Json → Text → Text
profile_urn j raw = elim (j.entity_urns raw) [ none ↦ [] | some [] ↦ [] | some (u ∷ _) ↦ u ]

-- The supported locales and the topics of a response are each its names without the empty ones and
-- without repetition, in its order.
pub names-Collected :
    (e : DashProfile)
    → Collected (map locale_string e.supported_locales) (supported_locales e)
      × Collected (map hashtag_name (hashtag_urns e)) (topics e)
unfolding supported_locales topics
names-Collected e = (
  distinct-Collected (map locale_string e.supported_locales),
  distinct-Collected (map hashtag_name (hashtag_urns e)),
)

-- A profile's identity is the request's, whatever the response; no response makes a profile that
-- already has sections.
pub record Requested (ref : ProfileRef) (p : Profile) : Type 0 where
  pub identifier : p.public_identifier ≡ ref.public_id
  pub url : p.profile_url ≡ ref.canonical_url
  pub experience : p.experience ≡ []
  pub education : p.education ≡ []
  pub skills : p.skills ≡ []
  pub certifications : p.certifications ≡ []
  pub languages : p.languages ≡ []
  pub volunteer : p.volunteer_experience ≡ []
  pub projects : p.projects ≡ []
  pub test_scores : p.test_scores ≡ []

-- The answer for a response: an error whose code says whether it decoded, or such a profile.
abbrev pub Answer : Json → Text → ProfileRef → Error ⊎ Profile → Type 0
Answer j raw ref (inr p) = Requested ref p
Answer j raw ref (inl e) =
    ((error_code e ≡ code_profile_not_found) × (j.dash_response raw ≡ inr []))
    ⊎ ((error_code e ≡ code_upstream_parse_error)
        × ((es : List DashProfile) → j.dash_response raw ≢ inr es))

-- A response that does not decode gives a parse error, one without elements a not-found error, and
-- any other a profile with the request's identifier and URL and no sections.
pub profile-Answer :
    (j : Json) (raw : Text) (ref : ProfileRef) → Answer j raw ref (profile j raw ref)
unfolding profile profile_of
profile-Answer j raw ref = go (j.dash_response raw) refl
  where
    go :
        (r : Err ⊎ List DashProfile)
        → j.dash_response raw ≡ r
        → Answer j raw ref (profile j raw ref)
    go (inl err) h = rw (profile, h) (inr (refl, λ es q. absurd (ground (arith, h, q))))
    go (inr []) h = rw (profile, h) (inl (refl, h))
    go (inr (e ∷ es)) h =
        rw (profile, h)
          (record {
            identifier = refl;
            url = refl;
            experience = refl;
            education = refl;
            skills = refl;
            certifications = refl;
            languages = refl;
            volunteer = refl;
            projects = refl;
            test_scores = refl;
          })
