-- ===== src/Service/Profile/Tests.antt =====
-- The profile service in a small world with one LinkedIn profile, where LinkedIn rejects every
-- caller session.
use linkedin_api.Base.{
  ℕ, Bool, not, ◌==◌, List, arith, ◌+◌, ◌-◌, ◌≡◌, refl, ◌⊎◌, inl, inr, true, false, none, some, [],
  ◌∷◌, if◌then◌else◌, codes, text_eq,
}
use linkedin_api.Domain.Errors.{Err, structured, not_found}
use linkedin_api.Domain.Profile.{ProfileResult, schema_version}
use linkedin_api.Cache.Ttl.{get_result}
use linkedin_api.Linkedin.Credential.{Credential, is_caller}
use linkedin_api.Linkedin.Parse.TopCard.{ProfileRef}
use linkedin_api.Service.Profile.{get_server, get_caller, get_profile}
use linkedin_api.Service.State.{
  Outside, ProfileService, leads, has_code, err_caller_session_invalid, section_ok, section_empty,
}
use linkedin_api.Service.Retrieval.{fetch_core, retrieve}
use linkedin_api.Base.Duration.{add_duration}
use linkedin_api.Base.Dict.{get}
use linkedin_api.Domain.Errors.{Cause, upstream_auth}
use linkedin_api.Linkedin.Credential.{server_credential, new_caller_credential}
use linkedin_api.Linkedin.Parse.Tests.{json, ref, member}
use linkedin_api.Linkedin.Parse.TopCard.{profile_of}
use linkedin_api.Service.Profile.Isolation.{get_profile-caller}
use linkedin_api.Service.Profile.Memory.{
  get_server-retrieve, get_server-not_found, get_caller-rejected,
}
use linkedin_api.Service.Profile.Guarded
use linkedin_api.Service.Profile.Shut.{Incoming, get_all, get_all-never_calls}
use linkedin_api.Service.CallerHealth.{unhealthy}
use linkedin_api.Service.Profile.Callers.{get_profile-session}
use linkedin_api.Service.Profile.Guarded.{Fetches, guarded, get_profile-held}
use linkedin_api.Upstream.Breaker.{Config, blocked, new_breaker, record_result, sync}
use linkedin_api.Upstream.SubBreaker.{new_sub, settle, classify}
use linkedin_api.Base.Expiry.{check}
use linkedin_api.Upstream.Guard.{new_guard, pending_mode}
use linkedin_api.Service.Profile.Enrichment.{Enriched, retrieve-Enriched}

pub record World : Type 0 where
  pub held : ℕ
  pub slots : ℕ
  pub time : ℕ

abbrev rejected : Err
rejected = structured (upstream_auth Cause.nil)

abbrev pub outside : Outside World
outside = record {
  clock = λ w. w.time;
  pick = λ w. 0;
  enter = λ w mode. (inr 7, record w { held = w.held + 1 });
  release = λ w permit err. record w { held = w.held - 1 };
  fetch_profile = λ w id cred. (
    if is_caller cred
        then inl rejected
        else if text_eq id (codes "ada")
        then inr (codes "page")
        else inr (codes "empty"),
    record w { time = w.time + 1 },
  );
  fetch_profile_section = λ w section urn cred. (inr (codes "section"), w);
  take_semaphore = λ w. (true, record w { slots = w.slots + 1 });
  give_semaphore = λ w. record w { slots = w.slots - 1 };
  json = json;
}

abbrev pub start : ProfileService World
start = record {
  cache = some (record { entries = []; ttl = 60; max_entries = 2 });
  negative = some (record { entries = []; ttl = 60; max = 2 });
  caller_health = record { ttl = 60; max = 4096; entries = [] };
  metrics = record {
    hit = 0;
    negative = 0;
    miss = 0;
    coalesced = 0;
    success = 0;
    failure = 0;
    parse_failures = 0;
    caller_session_invalid = 0;
    caller_sessions_unhealthy = 0;
  };
  profile_timeout = 15_000_000_000;
  enrich_sections = codes "skills" ∷ codes "education" ∷ [];
  enrich_concurrency = 4;
  event = none;
  world = record { held = 0; slots = 0; time = 10 };
}

abbrev caller : Credential
caller = new_caller_credential (λ s. s) (λ s. s) (codes "a") (codes "b")

abbrev nobody : ProfileRef
nobody = record { public_id = codes "nobody"; canonical_url = [] }

abbrev limits : Config
limits = record {
  max_concurrency = 2;
  failure_threshold = 3;
  breaker_cooldown = 60;
  session_threshold = 1;
  session_cooldown = 60;
}

-- A client that answers at once, behind a limiter that always allows.
abbrev fetches : Fetches ℕ
fetches = record {
  profile = λ c id cred. (inr (codes "page"), (1, c + 1));
  section = λ c section urn cred. (inr (codes "section"), (1, c + 1));
}

abbrev behind_guard : Outside (Guarded.World ℕ ℕ)
behind_guard = guarded (λ l now. (true, l)) fetches 4 json

abbrev guarded_start : ProfileService (Guarded.World ℕ ℕ)
guarded_start = record {
  cache = start.cache;
  negative = start.negative;
  caller_health = start.caller_health;
  metrics = start.metrics;
  profile_timeout = start.profile_timeout;
  enrich_sections = start.enrich_sections;
  enrich_concurrency = 4;
  event = none;
  world = record { guard = new_guard limits 0; slots = 0; now = 10; client = 0 };
}

-- The core call and both sections reach the client.
guarded_run :
    (get_profile behind_guard (leads false) guarded_start ref server_credential).1.world.client ≡ 3
unfolding get_profile guarded new_guard text_eq check blocked new_breaker new_sub pending_mode
    record_result sync settle classify
guarded_run = refl

get_profile-held_example :
    let w = (get_profile behind_guard (leads false) guarded_start ref server_credential).1.world in
    (w.guard.held ≡ guarded_start.world.guard.held) × (w.slots ≡ guarded_start.world.slots)
get_profile-held_example =
    get_profile-held (λ l now. (true, l)) fetches 4 json (leads false) guarded_start ref
      server_credential

get_profile-caller_example :
    (get_profile outside (leads false) start ref caller).1.cache ≡ start.cache
unfolding new_caller_credential
get_profile-caller_example =
    (get_profile-caller outside (leads false) (leads true) start ref caller refl).0

abbrev result_or : ProfileResult → Err ⊎ ProfileResult → ProfileResult
result_or r (inl err) = r
result_or r (inr r') = r'

abbrev core : ProfileResult
core = record {
  profile = profile_of json ref member;
  meta = record {
    retrieved_at = 11;
    schema_version = schema_version;
    source = codes "linkedin";
    cached = false;
    sections = [];
  };
}

abbrev found : ProfileResult
found = result_or core (retrieve outside start ref server_credential).0

abbrev after : ProfileService World
after = (retrieve outside start ref server_credential).1

-- The first retrieval fills the skills, finds no education, and says so.
statuses_run :
    found.meta.sections ≡ (codes "skills", section_ok) ∷ (codes "education", section_empty) ∷ []
unfolding retrieve text_eq get
statuses_run = refl

get_server-retrieve_example :
    (get_server outside (leads false) after ref server_credential).0
    ≡ inr (record found { meta = record (found.meta) { cached = true } })
unfolding retrieve text_eq get add_duration
get_server-retrieve_example =
    (get_server-retrieve outside (leads false) start after after ref server_credential
      server_credential (record { entries = []; ttl = 60; max_entries = 2 }) found refl refl refl
      refl).0

abbrev after_nobody : ProfileService World
after_nobody = (retrieve outside start nobody server_credential).1

abbrev no_profile : Err
no_profile = structured (not_found (codes "the requested LinkedIn profile was not found"))

get_server-not_found_example :
    (get_server outside (leads false) after_nobody nobody server_credential).0 ≡ inl no_profile
unfolding retrieve text_eq get add_duration has_code get_result
get_server-not_found_example =
    (get_server-not_found outside (leads false) start after_nobody nobody server_credential
      server_credential (record { entries = []; ttl = 60; max = 2 }) 7 no_profile refl refl refl
      refl refl refl refl).0

-- The caller's session is rejected once, and then no longer tried.
get_caller-rejected_example :
    let s' = (get_caller outside start ref caller).1 in
    (get_caller outside s' nobody caller).0 ≡ inl err_caller_session_invalid
unfolding get_caller has_code new_caller_credential unhealthy add_duration check get
get_caller-rejected_example =
    (get_caller-rejected outside start (get_caller outside start ref caller).1 ref nobody caller 7
      rejected refl refl refl refl refl refl refl).1

retrieve-Enriched_example :
    (r' : ProfileResult) × ((retrieve outside start ref server_credential).0 ≡ inr r')
    × Enriched start.enrich_sections (codes "urn:li:fsd_profile:1") core r'
unfolding fetch_core text_eq
retrieve-Enriched_example =
    retrieve-Enriched outside start ref server_credential 7 core (codes "urn:li:fsd_profile:1") refl
      refl

get_profile-session_example :
    (get_profile behind_guard (leads false) guarded_start ref caller).1.world.guard.breaker.session
    ≡ guarded_start.world.guard.breaker.session
unfolding new_caller_credential
get_profile-session_example =
    get_profile-session (λ l now. (true, l)) fetches 4 json (leads false) guarded_start ref caller
      refl

-- The cooldown of the general breaker is over.
abbrev reopening : ProfileService (Guarded.World ℕ ℕ)
reopening = record guarded_start {
  world = record (guarded_start.world) {
    guard = record (new_guard limits 0) {
      breaker = record (new_breaker limits) {
        general = record (new_sub 3 60 false) { open_until = some 5; is_open = true };
      };
    };
  };
}

-- A server request long after.
abbrev later : List Incoming
later = record { flight = leads false; ref = ref; cred = server_credential; at = 1_000_000 } ∷ []

-- The limiter allows no call at the instant 10.
abbrev not_at_ten : ℕ → ℕ → Bool × ℕ
not_at_ten l now = (not (now == 10), l)

get_all-never_calls_example :
    let s =
      get_all not_at_ten fetches 4 json later
        (get_profile (guarded not_at_ten fetches 4 json) (leads false) reopening ref caller).1 in
    s.world.client ≡ 0
unfolding new_caller_credential new_guard new_breaker new_sub unhealthy check get
get_all-never_calls_example =
    get_all-never_calls not_at_ten fetches 4 json (leads false) reopening ref caller 5 later refl
      refl (omega arith) refl refl refl refl
