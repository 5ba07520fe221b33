-- ===== src/Linkedin/Parse/Json.antt =====
-- internal/linkedin/parse/sections.go and profile.go: the structs that responses are decoded into.
-- encoding/json and html are parameters: a `Json` holds what `json.Unmarshal` makes of a text for
-- each of these structs, and `html.UnescapeString`.
use linkedin_api.Base.{Text, Option, List, Bool, ◌⊎◌}
use linkedin_api.Base.Int.{ℤ}
use linkedin_api.Domain.Errors.{Err}
use linkedin_api.Linkedin.Parse.Image.{VectorImage}
use linkedin_api.Linkedin.Parse.Links.{DashLocale}

pub record RawDate : Type 0 where
  pub year : ℤ
  pub month : ℤ
  pub day : ℤ

pub record RawDateRange : Type 0 where
  pub start : Option RawDate
  pub end : Option RawDate

-- The envelope of a section: the ordered URNs and the included texts.
pub record Envelope : Type 0 where
  pub elements : List Text
  pub included : List Text

pub record RawExperience : Type 0 where
  pub title : Text
  pub company_name : Text
  pub company_urn : Text
  pub location_name : Text
  pub geo_location_name : Text
  pub description : Text
  pub date_range : Option RawDateRange

pub record RawEducation : Type 0 where
  pub school_name : Text
  pub school_urn : Text
  pub company_urn : Text
  pub degree_name : Text
  pub field_of_study : Text
  pub grade : Text
  pub activities : Text
  pub description : Text
  pub date_range : Option RawDateRange

pub record RawCertification : Type 0 where
  pub name : Text
  pub authority : Text
  pub company_urn : Text
  pub url : Text
  pub license_number : Text
  pub date_range : Option RawDateRange

pub record RawLanguage : Type 0 where
  pub name : Text
  pub proficiency : Text

pub record RawVolunteer : Type 0 where
  pub role : Text
  pub company_name : Text
  pub company_urn : Text
  pub cause : Text
  pub description : Text
  pub date_range : Option RawDateRange

pub record RawProject : Type 0 where
  pub title : Text
  pub description : Text
  pub date_range : Option RawDateRange

pub record RawTestScore : Type 0 where
  pub name : Text
  pub score : Text
  pub description : Text
  pub date_on : Option RawDate

pub record DashWebsite : Type 0 where
  pub url : Text
  pub category : Text

-- `creator_website` is the text of the nested struct.
pub record DashCreator : Type 0 where
  pub creator_website : Option Text
  pub associated_hashtag_urns : List Text

-- `display_image` holds the vector image of the nested struct.
pub record DashPhoto : Type 0 where
  pub display_image : Option (Option VectorImage)

-- `location` holds the country code, `top_voice_badge` the badge's text, and `verification_data`
-- the raw text of `verified` inside the two nested structs.
pub record DashProfile : Type 0 where
  pub first_name : Text
  pub last_name : Text
  pub headline : Text
  pub summary : Text
  pub premium : Bool
  pub influencer : Bool
  pub creator : Bool
  pub student : Bool
  pub memorialized : Bool
  pub created : ℤ
  pub profile_picture : Option DashPhoto
  pub background_picture : Option DashPhoto
  pub location : Option Text
  pub websites : List DashWebsite
  pub primary_locale : Option DashLocale
  pub supported_locales : List DashLocale
  pub creator_info : Option DashCreator
  pub top_voice_badge : Option Text
  pub verification_data : Option (Option Text)

-- `none` stands for an error whose value the program drops.
pub record Json : Type 0 where
  pub envelope : Text → Err ⊎ Envelope
  pub entity_urn : Text → Option Text
  pub raw_experience : Text → Option RawExperience
  pub raw_education : Text → Option RawEducation
  pub raw_skill : Text → Option Text
  pub raw_certification : Text → Option RawCertification
  pub raw_language : Text → Option RawLanguage
  pub raw_volunteer : Text → Option RawVolunteer
  pub raw_project : Text → Option RawProject
  pub raw_test_score : Text → Option RawTestScore
  pub dash_response : Text → Err ⊎ List DashProfile
  pub entity_urns : Text → Option (List Text)
  pub unescape_string : Text → Text
