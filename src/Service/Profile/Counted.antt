-- ===== src/Service/Profile/Counted.antt =====
-- internal/service/profile.go: worlds that count permits and semaphore slots, and what the calls on the way
-- of a retrieval do to the counts.
use linkedin_api.Base.{
  Bool, true, if◌then◌else◌, Sum-cases, ℕ, ◌+◌, ◌-◌, ◌≡◌, refl, ◌∙◌, inl, inr, Option, List, [],
  ◌∷◌, arith, if◌then◌else◌, Text,
}
use linkedin_api.Base.Dict.{Dict, put}
use linkedin_api.Domain.{CredentialMode, mode_server, mode_caller}
use linkedin_api.Domain.Errors.{Err}
use linkedin_api.Domain.Profile
use linkedin_api.Domain.Profile.{ProfileResult, Meta, schema_version}
use linkedin_api.Linkedin.Credential.{Credential, is_caller}
use linkedin_api.Linkedin.Parse.TopCard.{ProfileRef}
use linkedin_api.Service.State.{Outside, ProfileService, failure_of}
use linkedin_api.Service.Retrieval.{fetch_core, enrich_section, enrich, enrich_result}

-- Two counts of a world, permits out and semaphore slots taken, and whether a permit is out. `enter`
-- and `take_semaphore` raise their count when they grant, the release of a permit that is out and of
-- a slot lowers it, and nothing else changes either.
pub record Counted {W : Type 0} (o : Outside W) (held slots : W → ℕ) : Type 0 where
  pub out : W → ℕ → Bool
  pub enter_out :
      (w : W) (m : CredentialMode) (n : ℕ) → (o.enter w m).0 ≡ inr n → out (o.enter w m).1 n ≡ true
  pub enter_held :
      (w : W) (m : CredentialMode)
      → held (o.enter w m).1 ≡ elim (o.enter w m).0 [ inl err ↦ held w | inr permit ↦ held w + 1 ]
  pub enter_slots : (w : W) (m : CredentialMode) → slots (o.enter w m).1 ≡ slots w
  pub release_held :
      (w : W) (n : ℕ) (e : Option Err)
      → held (o.release w n e) ≡ (if out w n then held w - 1 else held w)
  pub release_slots : (w : W) (n : ℕ) (e : Option Err) → slots (o.release w n e) ≡ slots w
  pub take_held : (w : W) → held (o.take_semaphore w).1 ≡ held w
  pub take_slots :
      (w : W)
      → slots (o.take_semaphore w).1 ≡ (if (o.take_semaphore w).0 then slots w + 1 else slots w)
  pub give_held : (w : W) → held (o.give_semaphore w) ≡ held w
  pub give_slots : (w : W) → slots (o.give_semaphore w) ≡ slots w - 1
  pub profile_out :
      (w : W) (id : Text) (c : Credential) (n : ℕ) → out (o.fetch_profile w id c).1 n ≡ out w n
  pub section_out :
      (w : W) (section urn : Text) (c : Credential) (n : ℕ)
      → out (o.fetch_profile_section w section urn c).1 n ≡ out w n
  pub profile_held : (w : W) (id : Text) (c : Credential) → held (o.fetch_profile w id c).1 ≡ held w
  pub profile_slots :
      (w : W) (id : Text) (c : Credential) → slots (o.fetch_profile w id c).1 ≡ slots w
  pub section_held :
      (w : W) (section urn : Text) (c : Credential)
      → held (o.fetch_profile_section w section urn c).1 ≡ held w
  pub section_slots :
      (w : W) (section urn : Text) (c : Credential)
      → slots (o.fetch_profile_section w section urn c).1 ≡ slots w

abbrev pub Level : {W : Type 0} → (W → ℕ) → (W → ℕ) → W → W → Type 0
Level held slots w w' = (held w' ≡ held w) × (slots w' ≡ slots w)

module _ {W : Type 0} (o : Outside W) (held slots : W → ℕ) (c : Counted o held slots) where
  enrich_section-Level :
      (w : W) (p : Profile.Profile) (section urn : Text) (mode : CredentialMode) (cred : Credential)
      → Level held slots w (enrich_section o w p section urn mode cred).1.1
  unfolding enrich_section
  enrich_section-Level w p section urn mode cred =
      let w1 = (o.take_semaphore w).1 in
      let w2 = (o.enter w1 mode).1 in
      let (fetched, w3) = o.fetch_profile_section w2 section urn cred in
      elim (Sum-cases (o.enter w1 mode).0) [
        | inl (err, e) ↦ ground (
          arith,
          e,
          c.enter_held w1 mode,
          c.enter_slots w1 mode,
          c.take_held w,
          c.take_slots w,
          c.give_held w2,
          c.give_slots w2,
        )
        | inr (permit, e) ↦
            let w4 = o.release w3 permit (failure_of fetched) in
            ground (
              arith,
              e,
              c.enter_held w1 mode,
              c.enter_slots w1 mode,
              c.take_held w,
              c.take_slots w,
              c.enter_out w1 mode permit e,
              c.section_out w2 section urn cred permit,
              c.section_held w2 section urn cred,
              c.section_slots w2 section urn cred,
              c.release_held w3 permit (failure_of fetched),
              c.release_slots w3 permit (failure_of fetched),
              c.give_held w4,
              c.give_slots w4,
            )
      ]

  enrich-Level :
      (w : W) (p : Profile.Profile) (sections : List Text) (urn : Text) (mode : CredentialMode)
      (cred : Credential) (status : Dict Text)
      → Level held slots w (enrich o w p sections urn mode cred status).1.1
  unfolding enrich
  enrich-Level w p [] urn mode cred status = (refl, refl)
  enrich-Level w p (section ∷ sections) urn mode cred status =
      let (st, (p', w')) = enrich_section o w p section urn mode cred in
      let (a, b) = enrich_section-Level w p section urn mode cred in
      let (a', b') = enrich-Level w' p' sections urn mode cred (put section st status) in
      (a' ∙ a, b' ∙ b)

  pub fetch_core-Level :
      (s : ProfileService W) (ref : ProfileRef) (cred : Credential)
      → Level held slots s.world (fetch_core o s ref cred).1.world
  unfolding fetch_core
  fetch_core-Level s ref cred =
      ground (
        arith,
        c.profile_held s.world ref.public_id cred,
        c.profile_slots s.world ref.public_id cred,
      )

  pub enrich_result-Level :
      (s : ProfileService W) (r : ProfileResult) (urn : Text) (cred : Credential)
      → Level held slots s.world (enrich_result o s r urn cred).1.world
  unfolding enrich_result
  enrich_result-Level s r urn cred =
      let mode : CredentialMode = if is_caller cred then mode_caller else mode_server in
      ground (arith, enrich-Level s.world r.profile s.enrich_sections urn mode cred [])
