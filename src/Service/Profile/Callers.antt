-- ===== src/Service/Profile/Callers.antt =====
-- internal/service/profile.go and internal/upstream/guard.go: caller sessions do not move the breaker of
-- the server session.
use linkedin_api.Base.{
  Sum-cases, ℕ, ◌≡◌, refl, ap, ◌∙◌, inl, inr, Bool, true, Option, some, List, [], ◌∷◌, arith,
  Bool-cases, Text,
}
use linkedin_api.Base.Dict.{Dict, put}
use linkedin_api.Domain.{mode_caller}
use linkedin_api.Domain.Errors.{Err}
use linkedin_api.Domain.Profile
use linkedin_api.Domain.Profile.{ProfileResult}
use linkedin_api.Audit.Event.{mark_upstream_called}
use linkedin_api.Linkedin.Credential.{Credential, is_caller}
use linkedin_api.Linkedin.Parse.Json.{Json}
use linkedin_api.Linkedin.Parse.TopCard.{ProfileRef}
use linkedin_api.Upstream.SubBreaker.{SubBreaker}
use linkedin_api.Upstream.Breaker.Isolation.{blocked_caller, record_result_caller}
use linkedin_api.Upstream.Guard.{
  Guard, Entry, entered, refused, enter, take_slot, release, reject, pending_mode,
}
use linkedin_api.Service.CallerHealth.{unhealthy}
use linkedin_api.Service.Profile.Guarded.{entry_result, World, Fetches, guarded}
use linkedin_api.Service.Profile.{caller_failed, caller_done, get_caller, get_profile}
use linkedin_api.Service.State.{
  Outside, ProfileService, Flight, failure_of, update_caller_gauge, note,
}
use linkedin_api.Service.Retrieval.{fetch_core, enrich_section, enrich, enrich_result}

module _ {L : Type 0} (allow : L → ℕ → Bool × L) where
  enter_caller :
      (g : Guard L) (now : ℕ)
      → (enter allow g now mode_caller).1.breaker.session ≡ g.breaker.session
  unfolding enter take_slot reject
  enter_caller g now = ground (arith, blocked_caller g.breaker now)

  release_caller :
      (g : Guard L) (n : ℕ) (err : Option Err) (now : ℕ)
      → pending_mode n g.pending ≡ some mode_caller
      → (release g n err now).breaker.session ≡ g.breaker.session
  unfolding release
  release_caller g n err now h = ground (arith, h, record_result_caller g.breaker err now)

  enter_permit :
      (g : Guard L) (now n : ℕ)
      → (enter allow g now mode_caller).0 ≡ entered n
      → pending_mode n (enter allow g now mode_caller).1.pending ≡ some mode_caller
  unfolding enter take_slot pending_mode
  enter_permit g now n h = ground (arith, h)

-- The entry behind a permit.
entered_of : (entry : Entry) (n : ℕ) → entry_result entry ≡ inr n → entry ≡ entered n
entered_of (entered m) n h = ground (arith, h)
entered_of (refused e) n h = cc

module _ {L C : Type 0} (allow : L → ℕ → Bool × L) (fetches : Fetches C) (concurrency : ℕ)
    (json : Json) where
  abbrev o : Outside (World L C)
  o = guarded allow fetches concurrency json

  abbrev session : World L C → SubBreaker
  session w = w.guard.breaker.session

  enter-session : (w : World L C) → session (o.enter w mode_caller).1 ≡ session w
  unfolding guarded
  enter-session w = enter_caller allow w.guard w.now

  -- A caller's entry and its release, with no other change to the guard in between.
  bracket :
      (w w' : World L C) (n : ℕ) (err : Option Err)
      → (o.enter w mode_caller).0 ≡ inr n
      → w'.guard ≡ (o.enter w mode_caller).1.guard
      → session (o.release w' n err) ≡ session w
  unfolding guarded
  bracket w w' n err h q =
      let (entry, g) = enter allow w.guard w.now mode_caller in
      let out : pending_mode n w'.guard.pending ≡ some mode_caller =
        ap (λ v. pending_mode n v.pending) q
        ∙ enter_permit allow w.guard w.now n (entered_of entry n h) in
      release_caller allow w'.guard n err w'.now out
      ∙ (ap (λ v. v.breaker.session) q ∙ enter_caller allow w.guard w.now)

  enrich_section-session :
      (w : World L C) (p : Profile.Profile) (section urn : Text) (cred : Credential)
      → session (enrich_section o w p section urn mode_caller cred).1.1 ≡ session w
  unfolding enrich_section guarded
  enrich_section-session w p section urn cred =
      let w1 = (o.take_semaphore w).1 in
      let w2 = (o.enter w1 mode_caller).1 in
      let (fetched, w3) = o.fetch_profile_section w2 section urn cred in
      let taken : session w1 ≡ session w = ground arith in
      elim (Sum-cases (o.enter w1 mode_caller).0) [
        | inl (err, e) ↦ ground (arith, e, taken, enter-session w1)
        | inr (n, e) ↦ ground (arith, e, taken, bracket w1 w3 n (failure_of fetched) e refl)
      ]

  enrich-session :
      (w : World L C) (p : Profile.Profile) (sections : List Text) (urn : Text) (cred : Credential)
      (status : Dict Text)
      → session (enrich o w p sections urn mode_caller cred status).1.1 ≡ session w
  unfolding enrich
  enrich-session w p [] urn cred status = refl
  enrich-session w p (section ∷ sections) urn cred status =
      let (st, (p', w')) = enrich_section o w p section urn mode_caller cred in
      enrich-session w' p' sections urn cred (put section st status)
      ∙ enrich_section-session w p section urn cred

  enrich_result-session :
      (s : ProfileService (World L C)) (r : ProfileResult) (urn : Text) (cred : Credential)
      → is_caller cred ≡ true
      → session (enrich_result o s r urn cred).1.world ≡ session s.world
  unfolding enrich_result
  enrich_result-session s r urn cred h =
      ground (arith, h, enrich-session s.world r.profile s.enrich_sections urn cred [])

  fetch_core-guard :
      (s : ProfileService (World L C)) (ref : ProfileRef) (cred : Credential)
      → (fetch_core o s ref cred).1.world.guard ≡ s.world.guard
  unfolding fetch_core guarded
  fetch_core-guard s ref cred = ground arith

  caller_failed-session :
      (s : ProfileService (World L C)) (fp : Text) (err : Err)
      → session (caller_failed o s fp err).1.world ≡ session s.world
  unfolding caller_failed update_caller_gauge
  caller_failed-session s fp err = ground arith

  caller_done-session :
      (s : ProfileService (World L C)) (cred : Credential) (r : ProfileResult) (urn : Text)
      → is_caller cred ≡ true
      → session (caller_done o s cred r urn).1.world ≡ session s.world
  unfolding caller_done update_caller_gauge
  caller_done-session s cred r urn h = ground (arith, enrich_result-session s r urn cred h)

  get_caller-session :
      (s : ProfileService (World L C)) (ref : ProfileRef) (cred : Credential)
      → is_caller cred ≡ true
      → session (get_caller o s ref cred).1.world ≡ session s.world
  unfolding get_caller
  get_caller-session s ref cred h =
      let (bad, health) = unhealthy s.caller_health cred.fingerprint (o.clock s.world) in
      let (entry, w) = o.enter s.world mode_caller in
      let s2 = note mark_upstream_called (record s { caller_health = health; world = w }) in
      let (core, s3) = fetch_core o s2 ref cred in
      elim (Bool-cases bad) [
        | inl b ↦ ground (arith, b)
        | inr b ↦ elim (Sum-cases entry) [
          | inl (err, e) ↦ ground (arith, b, e, enter-session s.world)
          | inr (n, e) ↦
              let w4 = o.release s3.world n (failure_of core) in
              let s4 = record s3 { world = w4 } in
              let same : session w4 ≡ session s.world =
                bracket s.world s3.world n (failure_of core) e (fetch_core-guard s2 ref cred) in
              elim (Sum-cases core) [
                | inl (err, q) ↦
                    ground (arith, b, e, q, same, caller_failed-session s4 cred.fingerprint err)
                | inr (found, q) ↦
                    ground (arith, b, e, q, same, caller_done-session s4 cred found.0 found.1 h)
              ]
        ]
      ]

  -- With the guard as the service's gate and any client, a request with a caller session leaves the
  -- breaker of the server session as it is, whatever LinkedIn answers.
  pub get_profile-session :
      (flight : Flight) (s : ProfileService (World L C)) (ref : ProfileRef) (cred : Credential)
      → is_caller cred ≡ true
      → (get_profile o flight s ref cred).1.world.guard.breaker.session
        ≡ s.world.guard.breaker.session
  unfolding get_profile
  get_profile-session flight s ref cred h = rw (get_profile, h) (get_caller-session s ref cred h)
