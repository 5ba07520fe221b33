-- ===== src/Service/Profile/Isolation.antt =====
-- internal/service/profile.go: caller requests and server requests share nothing but what is upstream.
use linkedin_api.Base.{◌≡◌, refl, true, false, arith, Text}
use linkedin_api.Domain.Profile.{ProfileResult}
use linkedin_api.Linkedin.Credential.{Credential, is_caller}
use linkedin_api.Linkedin.Parse.TopCard.{ProfileRef}
use linkedin_api.Service.Profile.{
  get_server, on_miss, caller_failed, caller_done, get_caller, get_profile,
}
use linkedin_api.Service.State.{
  Outside, ProfileService, Flight, leads, joins, cache_get, negative_blocked, count_miss,
  update_caller_gauge,
}
use linkedin_api.Service.Retrieval.{fetch_core, enrich_result, retrieve}

module _ {W : Type 0} (o : Outside W) where
  fetch_core-same :
      (s : ProfileService W) (ref : ProfileRef) (cred : Credential)
      → let s' = (fetch_core o s ref cred).1 in
        (s'.cache ≡ s.cache) × (s'.negative ≡ s.negative) × (s'.caller_health ≡ s.caller_health)
  unfolding fetch_core
  fetch_core-same s ref cred = ground arith

  enrich_result-same :
      (s : ProfileService W) (r : ProfileResult) (urn : Text) (cred : Credential)
      → let s' = (enrich_result o s r urn cred).1 in
        (s'.cache ≡ s.cache) × (s'.negative ≡ s.negative) × (s'.caller_health ≡ s.caller_health)
  unfolding enrich_result
  enrich_result-same s r urn cred = ground arith

  retrieve-same :
      (s : ProfileService W) (ref : ProfileRef) (cred : Credential)
      → (retrieve o s ref cred).1.caller_health ≡ s.caller_health
  unfolding retrieve
  retrieve-same s ref cred = ground arith

  get_caller-same :
      (s : ProfileService W) (ref : ProfileRef) (cred : Credential)
      → let s' = (get_caller o s ref cred).1 in (s'.cache ≡ s.cache) × (s'.negative ≡ s.negative)
  unfolding get_caller caller_failed caller_done update_caller_gauge
  get_caller-same s ref cred = ground arith

  -- A request with a caller session leaves the result cache and the negative cache as they are, and
  -- its answer does not depend on any other request's flight.
  pub get_profile-caller :
      (flight other : Flight) (s : ProfileService W) (ref : ProfileRef) (cred : Credential)
      → is_caller cred ≡ true
      → let (r, s') = get_profile o flight s ref cred in
        (s'.cache ≡ s.cache)
        × (s'.negative ≡ s.negative)
        × (get_profile o other s ref cred ≡ (r, s'))
  unfolding get_profile
  get_profile-caller flight other s ref cred h =
      let (a, b) = get_caller-same s ref cred in rw h (a, b, refl)

  on_miss-same :
      (flight : Flight) (s : ProfileService W) (ref : ProfileRef) (cred : Credential)
      → (on_miss o flight s ref cred).1.caller_health ≡ s.caller_health
  unfolding on_miss
  on_miss-same (leads shared) s ref cred = ground (arith, retrieve-same (count_miss s) ref cred)
  on_miss-same (joins r) s ref cred = ground arith

  -- A request with the server session leaves the health of caller sessions as it is.
  pub get_profile-server :
      (flight : Flight) (s : ProfileService W) (ref : ProfileRef) (cred : Credential)
      → is_caller cred ≡ false
      → (get_profile o flight s ref cred).1.caller_health ≡ s.caller_health
  unfolding get_profile get_server
  get_profile-server flight s ref cred h =
      let now = o.clock s.world in
      let asked = record s {
        cache = (cache_get s.cache ref.public_id now).1;
        negative = (negative_blocked s.negative ref.public_id now).1;
      } in
      ground (arith, h, on_miss-same flight asked ref cred)
