-- ===== src/Service/Profile.antt =====
-- internal/service/profile.go. The requests of ProfileService: a server request goes through the
-- caches and a flight, a caller request through the health of its session.
pub mod Isolation
pub mod Memory
pub mod Counted
pub mod Balance
pub mod Guarded
pub mod Callers
pub mod Shut
pub mod Enrichment
pub mod Tests
use linkedin_api.Base.{
  ◌⊎◌, inl, inr, Bool, true, not, none, some, arith, if◌then◌else◌, Text, codes,
}
use linkedin_api.Domain.{mode_caller}
use linkedin_api.Domain.Errors.{Err, structured, not_found}
use linkedin_api.Domain.Profile
use linkedin_api.Domain.Profile.{ProfileResult}
use linkedin_api.Audit.Event.{
  mark_cache_hit, mark_upstream_called, set_upstream_outcome, outcome_ok,
  outcome_caller_auth_failed, outcome_caller_expired,
}
use linkedin_api.Cache.Ttl.{get_result}
use linkedin_api.Cache.Negative.{is_blocked}
use linkedin_api.Linkedin.Credential.{Credential, is_caller}
use linkedin_api.Linkedin.Parse.TopCard.{ProfileRef, profile}
use linkedin_api.Service.CallerHealth.{unhealthy, mark_unhealthy, clear}
use linkedin_api.Service.State.{
  is_auth_failed, has_code, err_code, cache_get, negative_blocked, err_caller_session_invalid,
  Flight, count_failure, count_success, count_hit, count_negative, count_miss, count_invalid,
  count_coalesced, update_caller_gauge, note, leads, joins, Outside, ProfileService, failure_of,
}
use linkedin_api.Service.Retrieval.{fetch_core, enrich_result, retrieve}

module _ {W : Type 0} (o : Outside W) where
  abbrev pub do_flight :
      Flight
      → ProfileService W
      → ProfileRef
      → Credential
      → (Err ⊎ ProfileResult) × (Bool × ProfileService W)
  do_flight (leads shared) s ref cred = let (r, s') = retrieve o s ref cred in (r, (shared, s'))
  do_flight (joins r) s ref cred = (r, (true, s))

  abbrev pub count_result : Err ⊎ ProfileResult → ProfileService W → ProfileService W
  count_result (inl err) s = count_failure s
  count_result (inr r) s = count_success s

  -- The rest of `getServer` once neither cache answers.
  unfoldable pub on_miss :
      Flight → ProfileService W → ProfileRef → Credential → (Err ⊎ ProfileResult) × ProfileService W
  unfolding retrieve
  on_miss flight s ref cred =
      let (r, (shared, s')) = do_flight flight (count_miss s) ref cred in
      (r, count_result r (count_coalesced shared s'))

  unfoldable pub get_server :
      Flight → ProfileService W → ProfileRef → Credential → (Err ⊎ ProfileResult) × ProfileService W
  unfolding get_result is_blocked on_miss
  get_server flight s ref cred =
      let (found, cache) = cache_get s.cache ref.public_id (o.clock s.world) in
      let s1 = record s { cache = cache } in
      elim found [
        | some cached ↦ (
          inr (record cached { meta = record (cached.meta) { cached = true } }),
          note mark_cache_hit (count_hit s1),
        )
        | none ↦
            let (is_negative, negative) =
              negative_blocked s1.negative ref.public_id (o.clock s1.world) in
            let s2 = record s1 { negative = negative } in
            if is_negative
            then (
              inl (structured (not_found (codes "the requested LinkedIn profile was not found"))),
              count_negative s2,
            )
            else on_miss flight s2 ref cred
      ]

  -- The branch of `getCaller` for a failed core call.
  unfoldable pub caller_failed :
      ProfileService W → Text → Err → (Err ⊎ ProfileResult) × ProfileService W
  unfolding mark_unhealthy update_caller_gauge err_code has_code
  caller_failed s fp err =
      let s1 = count_failure s in
      let marked = record s1 {
        caller_health =
            mark_unhealthy s1.caller_health fp (o.pick s1.world) (o.clock s1.world)
              (o.clock s1.world);
      } in
      if has_code is_auth_failed err
      then (
        inl err_caller_session_invalid,
        note (set_upstream_outcome outcome_caller_auth_failed)
            (count_invalid (update_caller_gauge marked)),
      )
      else (inl err, note (set_upstream_outcome (err_code err)) s1)

  -- The end of `getCaller` after a core call that succeeded.
  unfoldable pub caller_done :
      ProfileService W
      → Credential
      → ProfileResult
      → Text
      → (Err ⊎ ProfileResult) × ProfileService W
  unfolding clear update_caller_gauge enrich_result
  caller_done s cred result urn =
      let (result', s1) = enrich_result o s result urn cred in
      let s2 = record s1 { caller_health = clear s1.caller_health cred.fingerprint } in
      (inr result', note (set_upstream_outcome outcome_ok) (count_success (update_caller_gauge s2)))

  unfoldable pub get_caller :
      ProfileService W → ProfileRef → Credential → (Err ⊎ ProfileResult) × ProfileService W
  unfolding unhealthy fetch_core caller_failed caller_done
  get_caller s ref cred =
      let (is_unhealthy, health) = unhealthy s.caller_health cred.fingerprint (o.clock s.world) in
      let s1 = record s { caller_health = health } in
      if is_unhealthy
      then (
        inl err_caller_session_invalid,
        note (set_upstream_outcome outcome_caller_expired) (count_invalid (count_failure s1)),
      )
      else let (entered, w) = o.enter s1.world mode_caller in
        let s2 = record s1 { world = w } in
        elim entered [
          | inl err ↦ (inl err, count_failure s2)
          | inr permit ↦
              let (core, s3) = fetch_core o (note mark_upstream_called s2) ref cred in
              let s4 = record s3 { world = o.release s3.world permit (failure_of core) } in
              elim core [
                | inl err ↦ caller_failed s4 cred.fingerprint err
                | inr (result, urn) ↦ caller_done s4 cred result urn
              ]
        ]

  unfoldable pub get_profile :
      Flight → ProfileService W → ProfileRef → Credential → (Err ⊎ ProfileResult) × ProfileService W
  unfolding get_server get_caller
  get_profile flight s ref cred =
      if is_caller cred then get_caller s ref cred else get_server flight s ref cred
