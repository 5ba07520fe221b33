-- ===== src/Service/Profile/Guarded.antt =====
-- internal/service/profile.go and internal/upstream/guard.go: the service with the guard as its gate, as
-- cmd/server/main.go puts them together. The client is any function of its own state, with the time
-- that a call takes; a semaphore that is full is not waited for, which stands for the deadline's end.
use linkedin_api.Base.{
  ℕ, ◌+◌, ◌-◌, ◌≡◌, refl, ◌⊎◌, inl, inr, Bool, true, false, arith, ltb, if◌then◌else◌, is_some,
  Text,
}
use linkedin_api.Domain.Errors.{Err, structured}
use linkedin_api.Linkedin.Credential.{Credential}
use linkedin_api.Linkedin.Parse.Json.{Json}
use linkedin_api.Linkedin.Parse.TopCard.{ProfileRef}
use linkedin_api.Upstream.Guard.{
  Guard, Entry, entered, refused, enter, take_slot, release, reject, pending_mode,
}
use linkedin_api.Service.Profile.{get_profile}
use linkedin_api.Service.State.{Outside, ProfileService, Flight}
use linkedin_api.Service.Profile.Balance.{get_profile-Level}
use linkedin_api.Service.Profile.Counted.{Counted}

pub record World (L C : Type 0) : Type 0 where
  pub guard : Guard L
  pub slots : ℕ
  pub now : ℕ
  pub client : C

-- A client: its answers, the time that they take, and the state it has afterwards.
pub record Fetches (C : Type 0) : Type 0 where
  pub profile : C → Text → Credential → (Err ⊎ Text) × (ℕ × C)
  pub section : C → Text → Text → Credential → (Err ⊎ Text) × (ℕ × C)

abbrev pub entry_result : Entry → Err ⊎ ℕ
entry_result (entered n) = inr n
entry_result (refused e) = inl (structured e)

module _ {L C : Type 0} (allow : L → ℕ → Bool × L) (fetches : Fetches C) (concurrency : ℕ)
    (json : Json) where
  unfoldable pub guarded : Outside (World L C)
  unfolding enter take_slot release
  guarded = record {
    clock = λ w. w.now;
    pick = λ w. 0;
    enter = λ w mode.
        let (entry, g) = enter allow w.guard w.now mode in
        (entry_result entry, record w { guard = g });
    release = λ w n err. record w { guard = release w.guard n err w.now };
    fetch_profile = λ w id cred.
        let (r, (t, c)) = fetches.profile w.client id cred in
        (r, record w { now = w.now + t; client = c });
    fetch_profile_section = λ w section urn cred.
        let (r, (t, c)) = fetches.section w.client section urn cred in
        (r, record w { now = w.now + t; client = c });
    take_semaphore = λ w.
        if ltb w.slots concurrency then (true, record w { slots = w.slots + 1 }) else (false, w);
    give_semaphore = λ w. record w { slots = w.slots - 1 };
    json = json;
  }

  guarded-Counted : Counted guarded (λ w. w.guard.held) (λ w. w.slots)
  unfolding guarded enter take_slot release reject pending_mode
  guarded-Counted = record {
    out = λ w n. is_some (pending_mode n w.guard.pending);
    enter_out = λ w m n e. ground (arith, e);
    enter_held = λ w m. ground arith;
    enter_slots = λ w m. ground arith;
    release_held = λ w n e. ground arith;
    release_slots = λ w n e. ground arith;
    take_held = λ w. ground arith;
    take_slots = λ w. ground arith;
    give_held = λ w. refl;
    give_slots = λ w. refl;
    profile_out = λ w id c n. refl;
    section_out = λ w s u c n. refl;
    profile_held = λ w id c. refl;
    profile_slots = λ w id c. refl;
    section_held = λ w s u c. refl;
    section_slots = λ w s u c. refl;
  }

  -- With the guard as the service's gate and any client, a request for a profile, of either mode
  -- and whatever succeeds or fails on its way, ends with as many slots of the guard and of the
  -- enrichment semaphore held as it began with.
  pub get_profile-held :
      (flight : Flight) (s : ProfileService (World L C)) (ref : ProfileRef) (cred : Credential)
      → let w = (get_profile guarded flight s ref cred).1.world in
        (w.guard.held ≡ s.world.guard.held) × (w.slots ≡ s.world.slots)
  get_profile-held = get_profile-Level guarded (λ w. w.guard.held) (λ w. w.slots) guarded-Counted
