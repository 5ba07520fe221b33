-- ===== src/Service/Profile/Enrichment.antt =====
-- internal/service/profile.go: what the optional sections can and cannot do to a profile.
use linkedin_api.Base.{
  ℕ, ◌≡◌, refl, ◌∙◌, subst, ◌⊎◌, inr, not, ◌&&◌, ◌||◌, some, List, [], ◌∷◌, arith, if◌then◌else◌,
  is_some, is_nil, Text, text_eq_iff,
}
use linkedin_api.Base.Dict.{Dict, put}
use linkedin_api.Domain.{CredentialMode, mode_server, mode_caller}
use linkedin_api.Domain.Profile
use linkedin_api.Domain.Profile.{ProfileResult, Meta, schema_version}
use linkedin_api.Audit.Event.{mark_upstream_called}
use linkedin_api.Linkedin.Credential.{Credential, is_caller}
use linkedin_api.Linkedin.Parse.Json.{Json}
use linkedin_api.Linkedin.Parse.Sections.{apply_section}
use linkedin_api.Linkedin.Parse.TopCard.{ProfileRef}
use linkedin_api.Service.State.{
  Outside, ProfileService, failure_of, note, section_ok, section_empty, section_unavailable,
}
use linkedin_api.Service.Retrieval.{fetch_core, enrich_section, enrich, enrich_result, retrieve}
use linkedin_api.Base.Dict.{get, get-put}
use linkedin_api.Linkedin.Parse.Links.{has}
use linkedin_api.Linkedin.Parse.Sections.{apply_field}

-- A profile without the fields of the optional sections.
abbrev pub without_sections : Profile.Profile → Profile.Profile
without_sections p = record p {
  experience = [];
  education = [];
  skills = [];
  certifications = [];
  languages = [];
  volunteer_experience = [];
  projects = [];
  test_scores = [];
}

apply_section-without :
    (j : Json) (p : Profile.Profile) (section raw : Text)
    → without_sections (apply_section j p section raw).0 ≡ without_sections p
unfolding apply_section apply_field
apply_section-without j p section raw = ground arith

abbrev pub IsStatus : Text → Type 0
IsStatus st = (st ≡ section_ok) ⊎ ((st ≡ section_empty) ⊎ (st ≡ section_unavailable))

module _ {W : Type 0} (o : Outside W) where
  enrich_section-kept :
      (w : W) (p : Profile.Profile) (section urn : Text) (mode : CredentialMode) (cred : Credential)
      → let (st, (p', w')) = enrich_section o w p section urn mode cred in
        (without_sections p' ≡ without_sections p) × IsStatus st
  unfolding enrich_section
  enrich_section-kept w p section urn mode cred = grind (arith, apply_section-without)

  enrich-kept :
      (w : W) (p : Profile.Profile) (sections : List Text) (urn : Text) (mode : CredentialMode)
      (cred : Credential) (status : Dict Text)
      → without_sections (enrich o w p sections urn mode cred status).1.0 ≡ without_sections p
  unfolding enrich
  enrich-kept w p [] urn mode cred status = refl
  enrich-kept w p (section ∷ sections) urn mode cred status =
      let (st, (p', w')) = enrich_section o w p section urn mode cred in
      enrich-kept w' p' sections urn mode cred (put section st status)
      ∙ (enrich_section-kept w p section urn mode cred).0

  enrich-statuses :
      (w : W) (p : Profile.Profile) (sections : List Text) (urn : Text) (mode : CredentialMode)
      (cred : Credential) (status : Dict Text) (name : Text)
      → is_some (get name (enrich o w p sections urn mode cred status).0)
        ≡ (has name sections || is_some (get name status))
  unfolding enrich has
  enrich-statuses w p [] urn mode cred status name = refl
  enrich-statuses w p (section ∷ sections) urn mode cred status name =
      let (st, (p', w')) = enrich_section o w p section urn mode cred in
      ground (
        arith,
        enrich-statuses w' p' sections urn mode cred (put section st status) name,
        get-put section name st status,
        text_eq_iff section name,
        text_eq_iff name section,
      )

  enrich-IsStatus :
      (w : W) (p : Profile.Profile) (sections : List Text) (urn : Text) (mode : CredentialMode)
      (cred : Credential) (status : Dict Text)
      → ((name st : Text) → get name status ≡ some st → IsStatus st)
      → (name st : Text) → get name (enrich o w p sections urn mode cred status).0 ≡ some st
      → IsStatus st
  unfolding enrich
  enrich-IsStatus w p [] urn mode cred status h name st e = h name st e
  enrich-IsStatus w p (section ∷ sections) urn mode cred status h name st e =
      let (st1, (p', w')) = enrich_section o w p section urn mode cred in
      enrich-IsStatus w' p' sections urn mode cred (put section st1 status)
        (λ m u q. ground (
          arith,
          h m u,
          get-put section m st1 status,
          q,
          (enrich_section-kept w p section urn mode cred).1,
        ))
        name st e

-- What enrichment makes of a result: the same profile but for the sections' fields, the same
-- metadata but for the statuses, and a status for each configured section and no other.
pub record Enriched (sections : List Text) (urn : Text) (r r' : ProfileResult) : Type 0 where
  pub core : without_sections r'.profile ≡ without_sections r.profile
  pub meta : record (r'.meta) { sections = [] } ≡ record (r.meta) { sections = [] }
  pub names :
      (name : Text) → is_some (get name r'.meta.sections) ≡ (not (is_nil urn) && has name sections)
  pub statuses : (name st : Text) → get name r'.meta.sections ≡ some st → IsStatus st

module _ {W : Type 0} (o : Outside W) where
  enrich_result-Enriched :
      (s : ProfileService W) (r : ProfileResult) (urn : Text) (cred : Credential)
      → r.meta.sections ≡ []
      → Enriched s.enrich_sections urn r (enrich_result o s r urn cred).0
  unfolding enrich_result get has
  enrich_result-Enriched s r urn cred e =
      let mode : CredentialMode = if is_caller cred then mode_caller else mode_server in
      record {
        core = ground (arith, enrich-kept o s.world r.profile s.enrich_sections urn mode cred []);
        meta = ground arith;
        names = λ name.
            ground (
              arith,
              e,
              enrich-statuses o s.world r.profile s.enrich_sections urn mode cred [] name,
            );
        statuses = λ name st. ground (
          arith,
          e,
          enrich-IsStatus o s.world r.profile s.enrich_sections urn mode cred []
              (λ m u q. absurd (ground (arith, q))) name st,
        );
      }

  fetch_core-sections :
      (s : ProfileService W) (ref : ProfileRef) (cred : Credential) (r : ProfileResult) (urn : Text)
      → (fetch_core o s ref cred).0 ≡ inr (r, urn)
      → r.meta.sections ≡ []
  unfolding fetch_core
  fetch_core-sections s ref cred r urn h = ground (arith, h)

  fetch_core-configured :
      (s : ProfileService W) (ref : ProfileRef) (cred : Credential)
      → (fetch_core o s ref cred).1.enrich_sections ≡ s.enrich_sections
  unfolding fetch_core
  fetch_core-configured s ref cred = ground arith

  -- A retrieval that is let in and whose core call succeeds is a success whatever becomes of the
  -- sections: its profile is the core profile but for the sections' fields, its metadata the core
  -- metadata but for the statuses, which name exactly the configured sections if the profile has a
  -- URN and none otherwise, each as ok, empty or unavailable.
  pub retrieve-Enriched :
      (s : ProfileService W) (ref : ProfileRef) (cred : Credential) (permit : ℕ) (r : ProfileResult)
      (urn : Text)
      → (o.enter s.world mode_server).0 ≡ inr permit
      → let s1 = record s {
        event = mark_upstream_called s.event;
        world = (o.enter s.world mode_server).1;
      } in
        (fetch_core o s1 ref cred).0 ≡ inr (r, urn)
        → (r' : ProfileResult) × ((retrieve o s ref cred).0 ≡ inr r')
          × Enriched s.enrich_sections urn r r'
  unfolding retrieve
  retrieve-Enriched s ref cred permit r urn he hc =
      let s1 = note mark_upstream_called (record s { world = (o.enter s.world mode_server).1 }) in
      let (core, s2) = fetch_core o s1 ref cred in
      let s3 = record s2 { world = o.release s2.world permit (failure_of core) } in
      (
        (enrich_result o s3 r urn cred).0,
        ground (arith, he, hc),
        subst (λ names. Enriched names urn r (enrich_result o s3 r urn cred).0)
            (fetch_core-configured s1 ref cred)
            (enrich_result-Enriched s3 r urn cred (fetch_core-sections s1 ref cred r urn hc)),
      )
