-- ===== src/Domain/Profile.antt =====
-- internal/domain/profile.go. A pointer field is an `Option`; a nil slice and an empty one are the
-- same list, since the program only asks for a slice's length.
use linkedin_api.Base.{ℕ, Text, codes, Option, Bool, List}
use linkedin_api.Base.Int.{ℤ}
use linkedin_api.Base.Dict.{Dict}

abbrev pub schema_version : Text
schema_version = codes "2.2"

pub record Date : Type 0 where
  pub year : ℤ
  pub month : ℤ
  pub day : ℤ

pub record DateRange : Type 0 where
  pub start : Option Date
  pub end : Option Date

pub record Experience : Type 0 where
  pub title : Text
  pub company : Text
  pub company_url : Text
  pub location : Text
  pub description : Text
  pub date_range : Option DateRange

pub record Education : Type 0 where
  pub school : Text
  pub school_url : Text
  pub degree : Text
  pub field_of_study : Text
  pub grade : Text
  pub activities : Text
  pub description : Text
  pub date_range : Option DateRange

pub record Certification : Type 0 where
  pub name : Text
  pub authority : Text
  pub authority_url : Text
  pub url : Text
  pub license_number : Text
  pub date_range : Option DateRange

pub record Language : Type 0 where
  pub name : Text
  pub proficiency : Text

pub record VolunteerExperience : Type 0 where
  pub role : Text
  pub organization : Text
  pub organization_url : Text
  pub cause : Text
  pub description : Text
  pub date_range : Option DateRange

pub record Project : Type 0 where
  pub title : Text
  pub description : Text
  pub date_range : Option DateRange

pub record TestScore : Type 0 where
  pub name : Text
  pub score : Text
  pub description : Text
  pub date : Option Date

pub record Location : Type 0 where
  pub country_code : Text
  pub text : Text

pub record ImageVariant : Type 0 where
  pub width : ℕ
  pub height : ℤ
  pub url : Text

pub record Image : Type 0 where
  pub url : Text
  pub variants : List ImageVariant

pub record Website : Type 0 where
  pub url : Text
  pub category : Text

pub record Profile : Type 0 where
  pub public_identifier : Text
  pub profile_url : Text
  pub first_name : Text
  pub last_name : Text
  pub full_name : Text
  pub headline : Text
  pub summary : Option Text
  pub profile_language : Text
  pub supported_locales : List Text
  pub location : Option Location
  pub profile_picture : Option Image
  pub background_image : Option Image
  pub websites : List Website
  pub creator_website : Text
  pub topics : List Text
  pub verified : Bool
  pub influencer : Bool
  pub premium : Bool
  pub creator : Bool
  pub top_voice : Bool
  pub student : Bool
  pub memorialized : Bool
  pub created_at : Option ℕ
  pub experience : List Experience
  pub education : List Education
  pub skills : List Text
  pub certifications : List Certification
  pub languages : List Language
  pub volunteer_experience : List VolunteerExperience
  pub projects : List Project
  pub test_scores : List TestScore

pub record Meta : Type 0 where
  pub retrieved_at : ℕ
  pub schema_version : Text
  pub source : Text
  pub cached : Bool
  pub sections : Dict Text

pub record ProfileResult : Type 0 where
  pub profile : Profile
  pub meta : Meta
