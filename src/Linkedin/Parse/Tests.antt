-- ===== src/Linkedin/Parse/Tests.antt =====
-- Runs of the parsers, with a small JSON decoder given as a table.
use linkedin_api.Base.{
  ◌≡◌, refl, inl, inr, Option, none, some, [], ◌∷◌, Text, codes, text_eq, true, false,
  if◌then◌else◌,
}
use linkedin_api.Base.Int.{ℤ, pos, negsuc}
use linkedin_api.Domain.Errors.{plain}
use linkedin_api.Domain.Profile.{Image}
use linkedin_api.Linkedin.Parse.Image.{Artifact, VectorImage, image, Resolved, image-Resolved}
use linkedin_api.Linkedin.Parse.Links.{entity_url, hashtag_name}
use linkedin_api.Linkedin.Parse.Json.{Json, Envelope, RawExperience, DashProfile}
use linkedin_api.Linkedin.Parse.Decode.{decode_skill}
use linkedin_api.Linkedin.Parse.Sections.{parse_section, present, entry_of}
use linkedin_api.Linkedin.Parse.Order.{parse_section_lem}
use linkedin_api.Linkedin.Parse.TopCard.{ProfileRef, topics, supported_locales}

abbrev artifact : ℤ → Text → Artifact
artifact w s = record { width = w; height = pos 10; segment = s }

abbrev picture : VectorImage
picture = record {
  root_url = codes "https://media/";
  artifacts =
      artifact (pos 400) (codes "big")
      ∷ artifact (negsuc 0) (codes "bad")
      ∷ artifact (pos 100) (codes "small")
      ∷ [];
}

abbrev resolved : Image
resolved = record {
  url = codes "https://media/big";
  variants =
      record { width = 100; height = pos 10; url = codes "https://media/small" }
      ∷ record { width = 400; height = pos 10; url = codes "https://media/big" }
      ∷ [];
}

image_run : image (some picture) ≡ some resolved
unfolding image
image_run = refl

image-Resolved_example : Resolved picture resolved
image-Resolved_example = image-Resolved picture resolved image_run

entity_url_run :
    entity_url (codes "urn:li:fsd_company:123") (codes "company")
    ≡ codes "https://www.linkedin.com/company/123/"
unfolding entity_url
entity_url_run = refl

entity_url_compound : entity_url (codes "urn:li:x:(1,2)") (codes "company") ≡ []
unfolding entity_url
entity_url_compound = refl

hashtag_name_run : hashtag_name (codes "urn:li:fsd_hashtag:(go,urn:li:activity:-)") ≡ codes "go"
unfolding hashtag_name
hashtag_name_run = refl

abbrev pub member : DashProfile
member = record {
  first_name = codes "Ada";
  last_name = codes "Lovelace";
  headline = [];
  summary = [];
  premium = true;
  influencer = false;
  creator = true;
  student = false;
  memorialized = false;
  created = pos 5;
  profile_picture = none;
  background_picture = none;
  location = some (codes "gb");
  websites = [];
  primary_locale = none;
  supported_locales =
      record { language = codes "en"; country = codes "US" }
      ∷ record { language = codes " en"; country = codes "US" }
      ∷ record { language = []; country = codes "US" }
      ∷ [];
  creator_info = some (record {
    creator_website = none;
    associated_hashtag_urns = codes "a:(go,b)" ∷ codes "nothing" ∷ codes "a:(go)" ∷ [];
  });
  top_voice_badge = none;
  verification_data = none;
}

names_run : supported_locales member ≡ codes "en_US" ∷ []
unfolding supported_locales text_eq
names_run = refl

topics_run : topics member ≡ codes "go" ∷ []
unfolding topics text_eq
topics_run = refl

abbrev job : RawExperience
job = record {
  title = codes "Engineer";
  company_name = codes "Acme ";
  company_urn = [];
  location_name = [];
  geo_location_name = [];
  description = [];
  date_range = none;
}

abbrev urns : Text → Option Text
urns s =
    if text_eq s (codes "old")
    then some (codes "u1")
    else if text_eq s (codes "new")
    then some (codes "u1")
    else if text_eq s (codes "other")
    then some (codes "u2")
    else none

abbrev response : Envelope
response = record {
  elements = codes "u2" ∷ codes "u1" ∷ codes "u3" ∷ [];
  included = codes "old" ∷ codes "other" ∷ codes "new" ∷ codes "odd" ∷ [];
}

abbrev pub json : Json
json = record {
  envelope = λ s. if text_eq s (codes "section") then inr response else inl (plain (codes "bad"));
  entity_urn = urns;
  raw_experience = λ s. if text_eq s (codes "new") then some job else none;
  raw_education = λ s. none;
  raw_skill = λ s. some s;
  raw_certification = λ s. none;
  raw_language = λ s. none;
  raw_volunteer = λ s. none;
  raw_project = λ s. none;
  raw_test_score = λ s. none;
  dash_response = λ s. if text_eq s (codes "page") then inr (member ∷ []) else inr [];
  entity_urns = λ s. some (codes "urn:li:fsd_profile:1" ∷ []);
  unescape_string = λ s. s;
}

parse_section_run :
    parse_section json (codes "section") (decode_skill json)
    ≡ (codes "other" ∷ codes "new" ∷ [], none)
unfolding parse_section decode_skill text_eq
parse_section_run = refl

parse_section_lem_example :
    parse_section json (codes "section") (decode_skill json)
    ≡ (present (entry_of json (decode_skill json) response.included) response.elements, none)
unfolding text_eq
parse_section_lem_example =
    parse_section_lem json (codes "section") response (decode_skill json) refl

abbrev pub ref : ProfileRef
ref = record { public_id = codes "ada"; canonical_url = codes "https://www.linkedin.com/in/ada/" }
