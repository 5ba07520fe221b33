-- ===== src/Service/Profile/Memory.antt =====
-- internal/service/profile.go: what the service remembers of an answer, and that it then asks nobody.
use linkedin_api.Base.{
  Sum-cases, ℕ, ◌≡◌, ◌∙◌, inl, inr, true, false, none, some, arith, ltb, is_nil, Text, codes,
}
use linkedin_api.Domain.{mode_caller, mode_server}
use linkedin_api.Domain.Errors.{Err, structured, not_found}
use linkedin_api.Domain.Profile.{ProfileResult}
use linkedin_api.Audit.Event.{mark_upstream_called}
use linkedin_api.Cache.Ttl.{TtlCache, get_result, set}
use linkedin_api.Cache.Negative.{NegativeTtl, is_blocked, remember}
use linkedin_api.Linkedin.Credential.{Credential}
use linkedin_api.Linkedin.Parse.TopCard.{ProfileRef}
use linkedin_api.Service.CallerHealth.{unhealthy, mark_unhealthy}
use linkedin_api.Service.Profile.{get_server, caller_failed, get_caller}
use linkedin_api.Service.State.{
  Outside, ProfileService, Flight, is_not_found, is_auth_failed, has_code, cache_get, cache_set,
  update_caller_gauge, note, err_caller_session_invalid,
}
use linkedin_api.Service.Retrieval.{fetch_core, enrich_result, retrieve}
use linkedin_api.Base.Duration.{add_duration}
use linkedin_api.Cache.Ttl.Laws.{read-set_self}
use linkedin_api.Base.Expiry.{check-mark_self}

module _ {W : Type 0} (o : Outside W) where
  fetch_core-cache :
      (s : ProfileService W) (ref : ProfileRef) (cred : Credential)
      → let s' = (fetch_core o s ref cred).1 in (s'.cache ≡ s.cache) × (s'.negative ≡ s.negative)
  unfolding fetch_core
  fetch_core-cache s ref cred = ground arith

  enrich_result-cache :
      (s : ProfileService W) (r : ProfileResult) (urn : Text) (cred : Credential)
      → (enrich_result o s r urn cred).1.cache ≡ s.cache
  unfolding enrich_result
  enrich_result-cache s r urn cred = ground arith

  -- A retrieval that succeeds has stored its result.
  retrieve-stores :
      (s s' : ProfileService W) (ref : ProfileRef) (cred : Credential) (r : ProfileResult)
      → retrieve o s ref cred ≡ (inr r, s')
      → s'.cache ≡ cache_set s.cache ref.public_id r (o.clock s'.world)
  unfolding retrieve
  retrieve-stores s s' ref cred r h = grind (arith, h, fetch_core-cache, enrich_result-cache)

  -- After a retrieval that succeeded and stored its result, every server request for the profile is
  -- answered by that result, marked as cached, with nothing done upstream, as long as the cache
  -- stays so and the time to live since the store has not passed.
  pub get_server-retrieve :
      (flight : Flight) (s s' t : ProfileService W) (ref : ProfileRef) (cred cred' : Credential)
      (c : TtlCache ProfileResult) (r : ProfileResult)
      → s.cache ≡ some c
      → retrieve o s ref cred ≡ (inr r, s')
      → t.cache ≡ s'.cache
      → ltb (add_duration (o.clock s'.world) c.ttl) (o.clock t.world) ≡ false
      → let (answer, t') = get_server o flight t ref cred' in
        (answer ≡ inr (record r { meta = record (r.meta) { cached = true } }))
        × (t'.world ≡ t.world)
  unfolding get_server get_result
  get_server-retrieve flight s s' t ref cred cred' c r hc hr ht live =
      let stored = retrieve-stores s s' ref cred r hr in
      let now = o.clock s'.world in
      let at : t.cache ≡ some (set c ref.public_id r now now) = rw hc at (ht ∙ stored) in
      let found = read-set_self c ref.public_id r now now (o.clock t.world) in
      ground (arith, at, found, live)

  retrieve-remembers :
      (s : ProfileService W) (ref : ProfileRef) (cred : Credential) (n : NegativeTtl) (permit : ℕ)
      (err : Err)
      → s.negative ≡ some n
      → (o.enter s.world mode_server).0 ≡ inr permit
      → (retrieve o s ref cred).0 ≡ inl err
      → has_code is_not_found err ≡ true
      → let s' = (retrieve o s ref cred).1 in
        s'.negative
        ≡ some (remember n ref.public_id (o.pick s'.world) (o.clock s'.world) (o.clock s'.world))
  unfolding retrieve
  retrieve-remembers s ref cred n permit err hn he hr hf =
      let s1 = note mark_upstream_called (record s { world = (o.enter s.world mode_server).1 }) in
      let (core, s2) = fetch_core o s1 ref cred in
      let same = (fetch_core-cache s1 ref cred).1 in
      elim (Sum-cases core) [
        | inl (e, q) ↦ ground (arith, q, he, hn, hr, hf, same)
        | inr (found, q) ↦ absurd (ground (arith, q, he, hr))
      ]

  -- After a retrieval that was let in and failed as not found, every server request for the profile
  -- that the result cache does not answer fails as not found, with nothing done upstream, as long
  -- as the negative cache stays so and the negative time to live has not passed.
  pub get_server-not_found :
      (flight : Flight) (s t : ProfileService W) (ref : ProfileRef) (cred cred' : Credential)
      (n : NegativeTtl) (permit : ℕ) (err : Err)
      → s.negative ≡ some n
      → (o.enter s.world mode_server).0 ≡ inr permit
      → (retrieve o s ref cred).0 ≡ inl err
      → has_code is_not_found err ≡ true
      → let s' = (retrieve o s ref cred).1 in
        t.negative ≡ s'.negative
        → (cache_get t.cache ref.public_id (o.clock t.world)).0 ≡ none
        → ltb (add_duration (o.clock s'.world) n.ttl) (o.clock t.world) ≡ false
        → let (answer, t') = get_server o flight t ref cred' in
          (answer
            ≡ inl (structured (not_found (codes "the requested LinkedIn profile was not found"))))
          × (t'.world ≡ t.world)
  unfolding get_server is_blocked remember
  get_server-not_found flight s t ref cred cred' n permit err hn he hr hf ht hc live =
      let s' = (retrieve o s ref cred).1 in
      let now = o.clock s'.world in
      let remembered = remember n ref.public_id (o.pick s'.world) now now in
      let at : t.negative ≡ some remembered =
        ht ∙ retrieve-remembers s ref cred n permit err hn he hr hf in
      let blocked =
        check-mark_self n.max n.ttl (o.pick s'.world) now now (o.clock t.world) ref.public_id
          n.entries in
      ground (arith, at, blocked, live, hc)

  -- Nothing but a missing profile is remembered as missing.
  pub retrieve-negative_same :
      (s : ProfileService W) (ref : ProfileRef) (cred : Credential) (err : Err)
      → (retrieve o s ref cred).0 ≡ inl err
      → has_code is_not_found err ≡ false
      → ((retrieve o s ref cred).1.negative ≡ s.negative)
        × ((retrieve o s ref cred).1.cache ≡ s.cache)
  unfolding retrieve
  retrieve-negative_same s ref cred err hr hf =
      let s1 = note mark_upstream_called (record s { world = (o.enter s.world mode_server).1 }) in
      let (core, s2) = fetch_core o s1 ref cred in
      let same = fetch_core-cache s1 ref cred in
      elim (Sum-cases (o.enter s.world mode_server).0) [
        | inl (e, q) ↦ ground (arith, q)
        | inr (permit, e) ↦ elim (Sum-cases core) [
          | inl (e', q) ↦ ground (arith, q, e, hr, hf, same)
          | inr (found, q) ↦ absurd (ground (arith, q, e, hr))
        ]
      ]

  -- The tracker after a request that LinkedIn rejected.
  rejected_lem :
      (s : ProfileService W) (ref : ProfileRef) (cred : Credential) (permit : ℕ) (err : Err)
      → (unhealthy s.caller_health cred.fingerprint (o.clock s.world)).0 ≡ false
      → (o.enter s.world mode_caller).0 ≡ inr permit
      → (o.fetch_profile (o.enter s.world mode_caller).1 ref.public_id cred).0 ≡ inl err
      → has_code is_auth_failed err ≡ true
      → let (answer, s') = get_caller o s ref cred in
        let health = (unhealthy s.caller_health cred.fingerprint (o.clock s.world)).1 in
        let now = o.clock s'.world in
        (answer ≡ inl err_caller_session_invalid)
        × (s'.caller_health ≡ mark_unhealthy health cred.fingerprint (o.pick s'.world) now now)
  unfolding get_caller fetch_core caller_failed update_caller_gauge
  rejected_lem s ref cred permit err hu he hf ha = ground (arith, hu, he, hf, ha)

  -- When a request with a caller session that has a fingerprint and is not known as unhealthy is
  -- let in and LinkedIn rejects the session, it fails with the controlled error, and every later
  -- request with that session fails with it too and does nothing upstream, as long as the tracker
  -- stays so and the retention window has not passed.
  pub get_caller-rejected :
      (s t : ProfileService W) (ref ref' : ProfileRef) (cred : Credential) (permit : ℕ) (err : Err)
      → is_nil cred.fingerprint ≡ false
      → (unhealthy s.caller_health cred.fingerprint (o.clock s.world)).0 ≡ false
      → (o.enter s.world mode_caller).0 ≡ inr permit
      → (o.fetch_profile (o.enter s.world mode_caller).1 ref.public_id cred).0 ≡ inl err
      → has_code is_auth_failed err ≡ true
      → t.caller_health ≡ (get_caller o s ref cred).1.caller_health
      → ltb
          (add_duration (o.clock (get_caller o s ref cred).1.world) s.caller_health.ttl)
          (o.clock t.world)
        ≡ false
      → ((get_caller o s ref cred).0 ≡ inl err_caller_session_invalid)
        × ((get_caller o t ref' cred).0 ≡ inl err_caller_session_invalid)
        × ((get_caller o t ref' cred).1.world ≡ t.world)
  unfolding get_caller unhealthy mark_unhealthy
  get_caller-rejected s t ref ref' cred permit err nn hu he hf ha ht live =
      let (answered, marked) = rejected_lem s ref cred permit err hu he hf ha in
      let h = (unhealthy s.caller_health cred.fingerprint (o.clock s.world)).1 in
      let s' = (get_caller o s ref cred).1 in
      let now = o.clock s'.world in
      let at : t.caller_health ≡ mark_unhealthy h cred.fingerprint (o.pick s'.world) now now =
        ht ∙ marked in
      let found =
        check-mark_self h.max h.ttl (o.pick s'.world) now now (o.clock t.world) cred.fingerprint
          h.entries in
      let again : ((get_caller o t ref' cred).0 ≡ inl err_caller_session_invalid)
          × ((get_caller o t ref' cred).1.world ≡ t.world) =
        ground (arith, nn, at, live, found) in
      (answered, again.0, again.1)
