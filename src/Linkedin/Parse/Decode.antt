-- ===== src/Linkedin/Parse/Decode.antt =====
-- internal/linkedin/parse/sections.go: the decoders, the shared parser and the switch on a section.
-- A decoder's pair of a value and a flag is an `Option`.
use linkedin_api.Base.{
  Bool, not, ◌&&◌, ◌||◌, Option, none, some, [], ◌∷◌, if◌then◌else◌, is_none, is_nil, Text, codes,
}
use linkedin_api.Base.{trim_space}
use linkedin_api.Base.Int.{is_zero}
use linkedin_api.Domain.Profile.{
  Date, DateRange, Experience, Education, Certification, Language, VolunteerExperience, Project,
  TestScore,
}
use linkedin_api.Linkedin.Parse.Links.{entity_url, first_non_empty}
use linkedin_api.Linkedin.Parse.Json.{
  Json, RawDate, RawDateRange, RawExperience, RawEducation, RawCertification, RawVolunteer,
}

unfoldable pub date : Option RawDate → Option Date
date none = none
date (some d) =
    if is_zero d.year then none else some (record { year = d.year; month = d.month; day = d.day })

unfoldable pub date_range : Option RawDateRange → Option DateRange
unfolding date
date_range none = none
date_range (some r) =
    if is_none (date r.start) && is_none (date r.end)
    then none
    else some (record { start = date r.start; end = date r.end })

-- A decoded entry, kept if the test says that it has content.
abbrev pub kept {ℓ} : {A : Type ℓ} → A → Bool → Option A
kept a b = if b then some a else none

unfoldable pub clean_text : Json → Text → Text
clean_text j s = j.unescape_string s

unfoldable pub experience_of : Json → RawExperience → Experience
unfolding clean_text trim_space entity_url first_non_empty date_range
experience_of j p = record {
  title = clean_text j p.title;
  company = trim_space (clean_text j p.company_name);
  company_url = entity_url p.company_urn (codes "company");
  location = clean_text j (first_non_empty (p.location_name ∷ p.geo_location_name ∷ []));
  description = clean_text j p.description;
  date_range = date_range p.date_range;
}

unfoldable pub decode_experience : Json → Text → Option Experience
unfolding experience_of
decode_experience j raw = elim (j.raw_experience raw) [
  | none ↦ none
  | some p ↦ let e = experience_of j p in kept e (not (is_nil e.title) || not (is_nil e.company))
]

unfoldable pub education_of : Json → RawEducation → Education
unfolding clean_text entity_url date_range
education_of j e =
    let link = entity_url e.school_urn (codes "school") in
    record {
      school = clean_text j e.school_name;
      school_url = if is_nil link then entity_url e.company_urn (codes "company") else link;
      degree = clean_text j e.degree_name;
      field_of_study = clean_text j e.field_of_study;
      grade = clean_text j e.grade;
      activities = clean_text j e.activities;
      description = clean_text j e.description;
      date_range = date_range e.date_range;
    }

unfoldable pub decode_education : Json → Text → Option Education
unfolding education_of
decode_education j raw = elim (j.raw_education raw) [
  | none ↦ none
  | some p ↦ let e = education_of j p in kept e (not (is_nil e.school))
]

unfoldable pub decode_skill : Json → Text → Option Text
unfolding clean_text
decode_skill j raw = elim (j.raw_skill raw) [
  | none ↦ none
  | some s ↦ let name = clean_text j s in kept name (not (is_nil name))
]

unfoldable pub certification_of : Json → RawCertification → Certification
unfolding clean_text trim_space entity_url date_range
certification_of j c = record {
  name = clean_text j c.name;
  authority = clean_text j c.authority;
  authority_url = entity_url c.company_urn (codes "company");
  url = trim_space c.url;
  license_number = clean_text j c.license_number;
  date_range = date_range c.date_range;
}

unfoldable pub decode_certification : Json → Text → Option Certification
unfolding certification_of
decode_certification j raw = elim (j.raw_certification raw) [
  | none ↦ none
  | some p ↦ let c = certification_of j p in kept c (not (is_nil c.name))
]

unfoldable pub decode_language : Json → Text → Option Language
unfolding clean_text
decode_language j raw = elim (j.raw_language raw) [
  | none ↦ none
  | some l ↦
      let name = clean_text j l.name in
      kept (record { name = name; proficiency = l.proficiency }) (not (is_nil name))
]

unfoldable pub volunteer_of : Json → RawVolunteer → VolunteerExperience
unfolding clean_text trim_space entity_url date_range
volunteer_of j v = record {
  role = clean_text j v.role;
  organization = trim_space (clean_text j v.company_name);
  organization_url = entity_url v.company_urn (codes "company");
  cause = clean_text j v.cause;
  description = clean_text j v.description;
  date_range = date_range v.date_range;
}

unfoldable pub decode_volunteer : Json → Text → Option VolunteerExperience
unfolding volunteer_of
decode_volunteer j raw = elim (j.raw_volunteer raw) [
  | none ↦ none
  | some p ↦ let v = volunteer_of j p in kept v (not (is_nil v.role) || not (is_nil v.organization))
]

unfoldable pub decode_project : Json → Text → Option Project
unfolding clean_text date_range
decode_project j raw = elim (j.raw_project raw) [
  | none ↦ none
  | some p ↦
      let out : Project = record {
        title = clean_text j p.title;
        description = clean_text j p.description;
        date_range = date_range p.date_range;
      } in
      kept out (not (is_nil out.title))
]

unfoldable pub decode_test_score : Json → Text → Option TestScore
unfolding clean_text date
decode_test_score j raw = elim (j.raw_test_score raw) [
  | none ↦ none
  | some t ↦
      let out : TestScore = record {
        name = clean_text j t.name;
        score = clean_text j t.score;
        description = clean_text j t.description;
        date = date t.date_on;
      } in
      kept out (not (is_nil out.name) || not (is_nil out.score))
]
