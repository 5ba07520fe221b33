-- ===== src/Service/Retrieval.antt =====
-- internal/service/profile.go. A retrieval: the core fetch, the enrichment by sections, and what is
-- remembered of both. A fetch of sections runs them one after another, in the order in which the
-- goroutines get to apply theirs.
use linkedin_api.Base.{
  ◌⊎◌, inl, inr, false, not, ◌||◌, List, [], ◌∷◌, ◌==◌, if◌then◌else◌, is_some, is_nil, Text,
}
use linkedin_api.Base.Dict.{Dict, put}
use linkedin_api.Domain.{CredentialMode, mode_server, mode_caller}
use linkedin_api.Domain.Errors.{Err, structured, error_code}
use linkedin_api.Domain.Profile
use linkedin_api.Domain.Profile.{ProfileResult, schema_version}
use linkedin_api.Audit.Event.{mark_upstream_called, set_upstream_outcome, outcome_ok}
use linkedin_api.Linkedin.Credential.{Credential, is_caller}
use linkedin_api.Linkedin.Parse.Sections.{apply_section}
use linkedin_api.Linkedin.Parse.TopCard.{ProfileRef, profile, profile_urn}
use linkedin_api.Service.State.{
  source_linkedin, section_ok, section_empty, section_unavailable, is_not_found, is_parse_error,
  has_code, err_code, cache_set, negative_remember, count_parse_failure, note, Outside,
  ProfileService, failure_of,
}

module _ {W : Type 0} (o : Outside W) where
  -- The core result with the profile's URN.
  unfoldable pub fetch_core :
      ProfileService W → ProfileRef → Credential → (Err ⊎ (ProfileResult × Text)) × ProfileService W
  unfolding profile profile_urn
  fetch_core s ref cred =
      let (fetched, w) = o.fetch_profile s.world ref.public_id cred in
      let s1 = record s { world = w } in
      elim fetched [
        | inl err ↦ (inl err, s1)
        | inr raw ↦ elim (profile o.json raw ref) [
          | inl err ↦ (
            inl (structured err),
            if is_parse_error (error_code err) then count_parse_failure s1 else s1,
          )
          | inr p ↦ (
            inr (
              record {
                profile = p;
                meta = record {
                  retrieved_at = o.clock w;
                  schema_version = schema_version;
                  source = source_linkedin;
                  cached = false;
                  sections = [];
                };
              },
              profile_urn o.json raw,
            ),
            s1,
          )
        ]
      ]

  -- The status of a section, the profile and the world.
  unfoldable pub enrich_section :
      W → Profile.Profile → Text → Text → CredentialMode → Credential → Text × (Profile.Profile × W)
  unfolding apply_section
  enrich_section w p section urn mode cred =
      let (taken, w1) = o.take_semaphore w in
      if not taken
      then (section_unavailable, (p, w1))
      else let (entered, w2) = o.enter w1 mode in
        elim entered [
          | inl err ↦ (section_unavailable, (p, o.give_semaphore w2))
          | inr permit ↦
              let (fetched, w3) = o.fetch_profile_section w2 section urn cred in
              let w4 = o.give_semaphore (o.release w3 permit (failure_of fetched)) in
              elim fetched [
                | inl err ↦ (section_unavailable, (p, w4))
                | inr raw ↦
                    let (p', (n, err)) = apply_section o.json p section raw in
                    (
                      if is_some err
                          then section_unavailable
                          else if n == 0
                          then section_empty
                          else section_ok,
                      (p', w4),
                    )
              ]
        ]

  unfoldable pub enrich :
      W
      → Profile.Profile
      → List Text
      → Text
      → CredentialMode
      → Credential
      → Dict Text
      → Dict Text × (Profile.Profile × W)
  unfolding put enrich_section
  enrich w p [] urn mode cred status = (status, (p, w))
  enrich w p (section ∷ sections) urn mode cred status =
      let (st, (p', w')) = enrich_section w p section urn mode cred in
      enrich w' p' sections urn mode cred (put section st status)

  unfoldable pub enrich_result :
      ProfileService W → ProfileResult → Text → Credential → ProfileResult × ProfileService W
  unfolding enrich
  enrich_result s result urn cred =
      let (status, (p, w)) =
        enrich s.world result.profile s.enrich_sections urn
          (if is_caller cred then mode_caller else mode_server) cred [] in
      if is_nil urn || is_nil s.enrich_sections then (result, s) else (
        record { profile = p; meta = record (result.meta) { sections = status } },
        record s { world = w },
      )

  unfoldable pub retrieve :
      ProfileService W → ProfileRef → Credential → (Err ⊎ ProfileResult) × ProfileService W
  unfolding fetch_core enrich_result err_code has_code
  retrieve s ref cred =
      let (entered, w) = o.enter s.world mode_server in
      let s1 = record s { world = w } in
      elim entered [
        | inl err ↦ (inl err, s1)
        | inr permit ↦
            let (core, s2) = fetch_core (note mark_upstream_called s1) ref cred in
            let s3 = record s2 { world = o.release s2.world permit (failure_of core) } in
            elim core [
              | inl err ↦
                  let s4 = note (set_upstream_outcome (err_code err)) s3 in
                  (
                    inl err,
                    if has_code is_not_found err
                        then record s4 {
                          negative =
                              negative_remember s4.negative ref.public_id (o.pick s4.world)
                                (o.clock s4.world);
                        }
                        else s4,
                  )
              | inr (result, urn) ↦
                  let (result', s4) = enrich_result s3 result urn cred in
                  let s5 = note (set_upstream_outcome outcome_ok) s4 in
                  (
                    inr result',
                    record s5 {
                      cache = cache_set s5.cache ref.public_id result' (o.clock s5.world);
                    },
                  )
            ]
      ]
