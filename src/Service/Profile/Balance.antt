-- ===== src/Service/Profile/Balance.antt =====
-- internal/service/profile.go: every permit and every semaphore slot is given back.
use linkedin_api.Base.{true, Sum-cases, ℕ, ◌≡◌, refl, ap, ◌∙◌, inl, inr, arith, Bool-cases, Text}
use linkedin_api.Domain.{CredentialMode, mode_server, mode_caller}
use linkedin_api.Domain.Errors.{Err}
use linkedin_api.Domain.Profile.{ProfileResult}
use linkedin_api.Audit.Event.{mark_upstream_called}
use linkedin_api.Linkedin.Credential.{Credential}
use linkedin_api.Linkedin.Parse.TopCard.{ProfileRef}
use linkedin_api.Service.CallerHealth.{unhealthy}
use linkedin_api.Service.Profile.{
  get_server, on_miss, caller_failed, caller_done, get_caller, get_profile,
}
use linkedin_api.Service.State.{
  Outside, ProfileService, Flight, leads, joins, failure_of, cache_get, negative_blocked,
  count_miss, update_caller_gauge, note,
}
use linkedin_api.Service.Retrieval.{fetch_core, retrieve}
use linkedin_api.Service.Profile.Counted.{Counted, Level, fetch_core-Level, enrich_result-Level}

module _ {W : Type 0} (o : Outside W) (held slots : W → ℕ) (c : Counted o held slots) where
  fetch_core-out :
      (s : ProfileService W) (ref : ProfileRef) (cred : Credential) (n : ℕ)
      → c.out (fetch_core o s ref cred).1.world n ≡ c.out s.world n
  unfolding fetch_core
  fetch_core-out s ref cred n = ground (arith, c.profile_out s.world ref.public_id cred n)

  -- A refused call has taken nothing, and one that was let in has given back its permit.
  refused-Level :
      (w : W) (mode : CredentialMode) (err : Err)
      → (o.enter w mode).0 ≡ inl err
      → Level held slots w (o.enter w mode).1
  refused-Level w mode err e = ground (arith, e, c.enter_held w mode, c.enter_slots w mode)

  core_call-Level :
      (w : W) (mode : CredentialMode) (permit : ℕ) (s : ProfileService W) (ref : ProfileRef)
      (cred : Credential)
      → (o.enter w mode).0 ≡ inr permit
      → s.world ≡ (o.enter w mode).1
      → let (core, s') = fetch_core o s ref cred in
        Level held slots w (o.release s'.world permit (failure_of core))
  core_call-Level w mode permit s ref cred e q =
      let (core, s') = fetch_core o s ref cred in
      let (a, b) = fetch_core-Level o held slots c s ref cred in
      let a' : held s'.world ≡ held (o.enter w mode).1 = a ∙ ap held q in
      let b' : slots s'.world ≡ slots (o.enter w mode).1 = b ∙ ap slots q in
      let still : c.out s'.world permit ≡ true =
        fetch_core-out s ref cred permit
        ∙ (ap (λ v. c.out v permit) q ∙ c.enter_out w mode permit e) in
      ground (
        arith,
        e,
        a',
        b',
        still,
        c.enter_held w mode,
        c.enter_slots w mode,
        c.release_held s'.world permit (failure_of core),
        c.release_slots s'.world permit (failure_of core),
      )

  retrieve-Level :
      (s : ProfileService W) (ref : ProfileRef) (cred : Credential)
      → Level held slots s.world (retrieve o s ref cred).1.world
  unfolding retrieve
  retrieve-Level s ref cred =
      let (entered, w) = o.enter s.world mode_server in
      let s1 = note mark_upstream_called (record s { world = w }) in
      let (core, s2) = fetch_core o s1 ref cred in
      elim (Sum-cases entered) [
        | inl (err, e) ↦ ground (arith, e, refused-Level s.world mode_server err e)
        | inr (permit, e) ↦
            let released = core_call-Level s.world mode_server permit s1 ref cred e refl in
            let s3 = record s2 { world = o.release s2.world permit (failure_of core) } in
            elim (Sum-cases core) [
              | inl (err, q) ↦ ground (arith, e, q, released)
              | inr (found, q) ↦ ground (
                arith,
                e,
                q,
                released,
                enrich_result-Level o held slots c s3 found.0 found.1 cred,
              )
            ]
      ]

  caller_failed-Level :
      (s : ProfileService W) (fp : Text) (err : Err)
      → Level held slots s.world (caller_failed o s fp err).1.world
  unfolding caller_failed update_caller_gauge
  caller_failed-Level s fp err = ground arith

  caller_done-Level :
      (s : ProfileService W) (cred : Credential) (r : ProfileResult) (urn : Text)
      → Level held slots s.world (caller_done o s cred r urn).1.world
  unfolding caller_done update_caller_gauge
  caller_done-Level s cred r urn = ground (arith, enrich_result-Level o held slots c s r urn cred)

  get_caller-Level :
      (s : ProfileService W) (ref : ProfileRef) (cred : Credential)
      → Level held slots s.world (get_caller o s ref cred).1.world
  unfolding get_caller
  get_caller-Level s ref cred =
      let (bad, health) = unhealthy s.caller_health cred.fingerprint (o.clock s.world) in
      let (entered, w) = o.enter s.world mode_caller in
      let s2 = note mark_upstream_called (record s { caller_health = health; world = w }) in
      let (core, s3) = fetch_core o s2 ref cred in
      elim (Bool-cases bad) [
        | inl b ↦ ground (arith, b)
        | inr b ↦ elim (Sum-cases entered) [
          | inl (err, e) ↦ ground (arith, b, e, refused-Level s.world mode_caller err e)
          | inr (permit, e) ↦
              let released = core_call-Level s.world mode_caller permit s2 ref cred e refl in
              let s4 = record s3 { world = o.release s3.world permit (failure_of core) } in
              elim (Sum-cases core) [
                | inl (err, q) ↦
                    ground (arith, b, e, q, released, caller_failed-Level s4 cred.fingerprint err)
                | inr (found, q) ↦
                    ground (arith, b, e, q, released, caller_done-Level s4 cred found.0 found.1)
              ]
        ]
      ]

  on_miss-Level :
      (flight : Flight) (s : ProfileService W) (ref : ProfileRef) (cred : Credential)
      → Level held slots s.world (on_miss o flight s ref cred).1.world
  unfolding on_miss
  on_miss-Level (leads shared) s ref cred = ground (arith, retrieve-Level (count_miss s) ref cred)
  on_miss-Level (joins r) s ref cred = ground arith

  get_server-Level :
      (flight : Flight) (s : ProfileService W) (ref : ProfileRef) (cred : Credential)
      → Level held slots s.world (get_server o flight s ref cred).1.world
  unfolding get_server
  get_server-Level flight s ref cred =
      let now = o.clock s.world in
      let asked = record s {
        cache = (cache_get s.cache ref.public_id now).1;
        negative = (negative_blocked s.negative ref.public_id now).1;
      } in
      ground (arith, on_miss-Level flight asked ref cred)

  -- In a world that counts permits and semaphore slots, a request for a profile ends with as many
  -- of both out as it began with, whatever succeeds or fails on its way: each Enter that let it in
  -- has had its release, and each semaphore slot is free again.
  pub get_profile-Level :
      (flight : Flight) (s : ProfileService W) (ref : ProfileRef) (cred : Credential)
      → Level held slots s.world (get_profile o flight s ref cred).1.world
  unfolding get_profile
  get_profile-Level flight s ref cred =
      ground (arith, get_caller-Level s ref cred, get_server-Level flight s ref cred)
