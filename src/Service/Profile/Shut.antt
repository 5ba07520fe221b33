-- ===== src/Service/Profile/Shut.antt =====
-- internal/service/profile.go: the service behind a gate that refuses every call. No request gets past
-- it, of either mode, and with the guard as the gate a lost probe shuts it for good.
use linkedin_api.Base.{
  ℕ, ◌≤◌, ◌≡◌, refl, ap, ◌∙◌, inl, Bool, true, false, ◌&&◌, some, List, [], ◌∷◌, arith, is_some,
  is_nil,
}
use linkedin_api.Domain.{CredentialMode, mode_server, mode_caller}
use linkedin_api.Domain.Errors.{Err, structured}
use linkedin_api.Linkedin.Credential.{Credential, is_caller}
use linkedin_api.Linkedin.Parse.Json.{Json}
use linkedin_api.Linkedin.Parse.TopCard.{ProfileRef}
use linkedin_api.Service.CallerHealth.{unhealthy}
use linkedin_api.Service.State.{
  Outside, ProfileService, Flight, leads, joins, count_miss, cache_get, negative_blocked,
}
use linkedin_api.Service.Retrieval.{retrieve}
use linkedin_api.Service.Profile.{get_profile, get_caller, get_server, on_miss}
use linkedin_api.Service.Profile.Guarded.{World, Fetches, guarded, entry_result}
use linkedin_api.Upstream.Guard.{Entry, entered, refused, is_refused, enter}
use linkedin_api.Upstream.Guard.Stuck.{IsStuck, enter-IsStuck, leaks_general}

-- What a call of the gate leaves, when it refuses, and what it does not move.
pub record Refusal {W C : Type 0} (o : Outside W) (shut : W → Bool) (client : W → C) (w : W)
    (mode : CredentialMode) : Type 0 where
  pub err : Err
  pub refuses : (o.enter w mode).0 ≡ inl err
  pub still : shut (o.enter w mode).1 ≡ true
  pub same : client (o.enter w mode).1 ≡ client w

module _ {W C : Type 0} (o : Outside W) (shut : W → Bool) (client : W → C)
    (refusal : (w : W) (mode : CredentialMode) → shut w ≡ true → Refusal o shut client w mode) where
  -- The gate stays shut, and the client is as it was.
  abbrev pub Kept : W → W → Type 0
  Kept w w' = (shut w' ≡ true) × (client w' ≡ client w)

  retrieve-Kept :
      (s : ProfileService W) (ref : ProfileRef) (cred : Credential)
      → shut s.world ≡ true
      → Kept s.world (retrieve o s ref cred).1.world
  unfolding retrieve
  retrieve-Kept s ref cred h =
      let r = refusal s.world mode_server h in ground (arith, r.refuses, r.still, r.same)

  get_caller-Kept :
      (s : ProfileService W) (ref : ProfileRef) (cred : Credential)
      → shut s.world ≡ true
      → Kept s.world (get_caller o s ref cred).1.world
  unfolding get_caller
  get_caller-Kept s ref cred h =
      let r = refusal s.world mode_caller h in ground (arith, h, r.refuses, r.still, r.same)

  on_miss-Kept :
      (flight : Flight) (s : ProfileService W) (ref : ProfileRef) (cred : Credential)
      → shut s.world ≡ true
      → Kept s.world (on_miss o flight s ref cred).1.world
  unfolding on_miss
  on_miss-Kept (leads shared) s ref cred h = ground (arith, retrieve-Kept (count_miss s) ref cred h)
  on_miss-Kept (joins r) s ref cred h = ground (arith, h)

  get_server-Kept :
      (flight : Flight) (s : ProfileService W) (ref : ProfileRef) (cred : Credential)
      → shut s.world ≡ true
      → Kept s.world (get_server o flight s ref cred).1.world
  unfolding get_server
  get_server-Kept flight s ref cred h =
      let now = o.clock s.world in
      let asked = record s {
        cache = (cache_get s.cache ref.public_id now).1;
        negative = (negative_blocked s.negative ref.public_id now).1;
      } in
      ground (arith, h, on_miss-Kept flight asked ref cred h)

  pub get_profile-Kept :
      (flight : Flight) (s : ProfileService W) (ref : ProfileRef) (cred : Credential)
      → shut s.world ≡ true
      → Kept s.world (get_profile o flight s ref cred).1.world
  unfolding get_profile
  get_profile-Kept flight s ref cred h =
      ground (arith, get_caller-Kept s ref cred h, get_server-Kept flight s ref cred h)

-- A request and the time at which it comes.
pub record Incoming : Type 0 where
  pub flight : Flight
  pub ref : ProfileRef
  pub cred : Credential
  pub at : ℕ

module _ {L C : Type 0} (allow : L → ℕ → Bool × L) (fetches : Fetches C) (concurrency : ℕ)
    (json : Json) where
  abbrev gate : Outside (World L C)
  gate = guarded allow fetches concurrency json

  -- The service after requests at their times, one after another.
  unfoldable pub get_all : List Incoming → ProfileService (World L C) → ProfileService (World L C)
  unfolding get_profile
  get_all [] s = s
  get_all (i ∷ more) s =
      let now = record s { world = record (s.world) { now = i.at } } in
      get_all more (get_profile gate i.flight now i.ref i.cred).1

  abbrev shut : World L C → Bool
  shut w =
      w.guard.breaker.general.probing
      && is_some w.guard.breaker.general.open_until
      && is_nil w.guard.pending

  shut-IsStuck : (w : World L C) → shut w ≡ true → IsStuck w.guard
  shut-IsStuck w h = record {
    probing = ground (arith, h);
    until = ground (arith, h);
    idle = ground (arith, h);
  }

  IsStuck-shut : (w : World L C) → IsStuck w.guard → shut w ≡ true
  IsStuck-shut w h = rw (h.probing, h.until, h.idle) refl

  refused_lem : (e : Entry) → is_refused e ≡ true → (err : Err) × (entry_result e ≡ inl err)
  refused_lem (entered n) h = cc
  refused_lem (refused e) h = (structured e, refl)

  refusal :
      (w : World L C) (mode : CredentialMode)
      → shut w ≡ true
      → Refusal gate shut (λ v. v.client) w mode
  unfolding guarded
  refusal w mode h =
      let (r, stuck) = enter-IsStuck allow w.guard w.now mode (shut-IsStuck w h) in
      let (err, e) = refused_lem (enter allow w.guard w.now mode).0 r in
      record {
        err = err;
        refuses = e;
        still = IsStuck-shut (record w { guard = (enter allow w.guard w.now mode).1 }) stuck;
        same = refl;
      }

  get_all-client :
      (incoming : List Incoming) (s : ProfileService (World L C))
      → shut s.world ≡ true
      → (get_all incoming s).world.client ≡ s.world.client
  unfolding get_all
  get_all-client [] s h = refl
  get_all-client (i ∷ more) s h =
      let now = record s { world = record (s.world) { now = i.at } } in
      let k = get_profile-Kept gate shut (λ v. v.client) refusal i.flight now i.ref i.cred h in
      get_all-client more (get_profile gate i.flight now i.ref i.cred).1 k.0 ∙ k.1

  -- With the guard as the service's gate, when the general breaker's cooldown is over and nothing
  -- is on its way, one request with a caller session that is not known as unhealthy and that the
  -- rate limiter refuses is the end: the client is never called again, whichever requests of either
  -- mode come afterwards and at whatever times.
  pub get_all-never_calls :
      (flight : Flight) (s : ProfileService (World L C)) (ref : ProfileRef) (cred : Credential)
      (until : ℕ) (incoming : List Incoming)
      → s.world.guard.breaker.general.open_until ≡ some until
      → s.world.guard.breaker.general.probing ≡ false
      → until ≤ s.world.now
      → (allow s.world.guard.limiter s.world.now).0 ≡ false
      → s.world.guard.pending ≡ []
      → is_caller cred ≡ true
      → (unhealthy s.caller_health cred.fingerprint s.world.now).0 ≡ false
      → (get_all incoming (get_profile gate flight s ref cred).1).world.client ≡ s.world.client
  unfolding get_profile get_caller guarded
  get_all-never_calls flight s ref cred until incoming go gp h a c m u =
      let (r, stuck) = leaks_general allow s.world.guard until s.world.now go gp h a c in
      let (err, e) = refused_lem (enter allow s.world.guard s.world.now mode_caller).0 r in
      let w = record (s.world) { guard = (enter allow s.world.guard s.world.now mode_caller).1 } in
      let lost : (get_profile gate flight s ref cred).1.world ≡ w =
        rw (m, u, e, get_profile, get_caller, guarded) refl in
      let shut' = ap shut lost ∙ IsStuck-shut w stuck in
      get_all-client incoming (get_profile gate flight s ref cred).1 shut' ∙ ap (λ v. v.client) lost
