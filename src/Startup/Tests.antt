-- ===== src/Startup/Tests.antt =====
-- A configured list of sections, and two orders of their responses.
use linkedin_api.Base.{◌≡◌, refl, true, inr, none, List, [], ◌∷◌, Text, codes}
use linkedin_api.Linkedin.Parse.Tests.{json, ref, member}
use linkedin_api.Linkedin.Parse.TopCard.{profile_of}
use linkedin_api.Linkedin.Parse.Order.{apply_all, swap}
use linkedin_api.Config.Tests.{settings}
use linkedin_api.Startup.Run.{Outcomes, complete, listens, unready, shuts_down, closes_writer, run}
use linkedin_api.Startup.{profile_sections, responses, apply_all-profile_sections}

abbrev names : List Text
names = codes " Skills" ∷ codes "experience" ∷ codes "skills" ∷ []

abbrev chosen : List Text
chosen = codes "skills" ∷ codes "experience" ∷ []

profile_sections_run : profile_sections [] names ≡ inr chosen
unfolding profile_sections
profile_sections_run = refl

abbrev answer : Text → Text
answer s = codes "section"

apply_all-profile_sections_example :
    apply_all json (profile_of json ref member) (responses answer chosen)
    ≡ apply_all json
        (profile_of json ref member)
        ((codes "experience", codes "section") ∷ (codes "skills", codes "section") ∷ [])
apply_all-profile_sections_example =
    apply_all-profile_sections names chosen answer json (profile_of json ref member)
      profile_sections_run
      (swap (codes "skills", codes "section") (codes "experience", codes "section"))

-- A run whose writer's store opens, and that a signal ends.
abbrev outcomes : Outcomes
outcomes = record {
  loaded = inr (record settings { audit = record (settings.audit) { enabled = true } });
  opened = none;
  ended = none;
  shutdown = none;
}

complete_run : run outcomes ≡ (complete, listens true ∷ unready ∷ shuts_down ∷ closes_writer ∷ [])
unfolding run
complete_run = refl
