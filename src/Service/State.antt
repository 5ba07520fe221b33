-- ===== src/Service/State.antt =====
-- internal/service/profile.go. The state of ProfileService, its dependencies, its constants and the
-- readings of its errors and counters. What the service calls is a world `W` with the operations of
-- an `Outside`: the clock, the gate, the LinkedIn client and the enrichment semaphore. Time passes
-- and other requests run only in those operations. An absent cache is cache.Noop, an absent negative
-- cache openNegative, and an `Outside` whose `enter` always grants is passthroughGate.
use linkedin_api.Base.{
  ℕ, ◌+◌, ◌⊎◌, inl, inr, Bool, true, false, ◌||◌, Option, none, some, List, leb, ◌==◌,
  if◌then◌else◌, Text, codes,
}
use linkedin_api.Base.Duration.{two_63}
use linkedin_api.Domain.{CredentialMode}
use linkedin_api.Domain.Errors.{
  Code, Err, structured, as_error, error_code, code_text, caller_session_invalid,
  code_profile_not_found, code_upstream_auth_failed, code_upstream_parse_error,
}
use linkedin_api.Domain.Profile.{ProfileResult}
use linkedin_api.Audit.Event.{Event}
use linkedin_api.Cache.Ttl.{TtlCache, get_result, set}
use linkedin_api.Cache.Negative.{NegativeTtl, is_blocked, remember}
use linkedin_api.Linkedin.Credential.{Credential}
use linkedin_api.Linkedin.Parse.Json.{Json}
use linkedin_api.Service.CallerHealth.{CallerHealth, new_caller_health, tracked}

-- The dependencies. A permit stands for the release function that Enter returned; `pick` is the
-- entry that a range over a map meets first.
pub record Outside (W : Type 0) : Type 0 where
  pub clock : W → ℕ
  pub pick : W → ℕ
  pub enter : W → CredentialMode → (Err ⊎ ℕ) × W
  pub release : W → ℕ → Option Err → W
  pub fetch_profile : W → Text → Credential → (Err ⊎ Text) × W
  pub fetch_profile_section : W → Text → Text → Credential → (Err ⊎ Text) × W
  pub take_semaphore : W → Bool × W
  pub give_semaphore : W → W
  pub json : Json

pub record Metrics : Type 0 where
  pub hit : ℕ
  pub negative : ℕ
  pub miss : ℕ
  pub coalesced : ℕ
  pub success : ℕ
  pub failure : ℕ
  pub parse_failures : ℕ
  pub caller_session_invalid : ℕ
  pub caller_sessions_unhealthy : ℕ

pub record ProfileService (W : Type 0) : Type 0 where
  pub cache : Option (TtlCache ProfileResult)
  pub negative : Option NegativeTtl
  pub caller_health : CallerHealth
  pub metrics : Metrics
  pub profile_timeout : ℕ
  pub enrich_sections : List Text
  pub enrich_concurrency : ℕ
  pub event : Option Event
  pub world : W

abbrev pub source_linkedin : Text
source_linkedin = codes "linkedin"

abbrev pub section_ok : Text
section_ok = codes "ok"

abbrev pub section_empty : Text
section_empty = codes "empty"

abbrev pub section_unavailable : Text
section_unavailable = codes "unavailable"

abbrev pub is_not_found : Code → Bool
is_not_found c = elim c [ code_profile_not_found ↦ true | _ ↦ false ]

abbrev pub is_auth_failed : Code → Bool
is_auth_failed c = elim c [ code_upstream_auth_failed ↦ true | _ ↦ false ]

abbrev pub is_parse_error : Code → Bool
is_parse_error c = elim c [ code_upstream_parse_error ↦ true | _ ↦ false ]

-- Whether the first structured error of a chain has a code that passes a test.
unfoldable pub has_code : (Code → Bool) → Err → Bool
unfolding as_error
has_code p err = elim (as_error err) [ none ↦ false | some de ↦ p (error_code de) ]

unfoldable pub err_code : Err → Text
unfolding as_error code_text
err_code err = elim (as_error err) [
  | none ↦ codes "unexpected_error"
  | some de ↦ code_text (error_code de)
]

-- The error that a call's release gets.
abbrev pub failure_of {ℓ} : {A : Type ℓ} → Err ⊎ A → Option Err
failure_of r = elim r [ inl err ↦ some err | inr a ↦ none ]

abbrev pub cache_get :
    Option (TtlCache ProfileResult)
    → Text
    → ℕ
    → Option ProfileResult × Option (TtlCache ProfileResult)
cache_get none key now = (none, none)
cache_get (some c) key now = let (r, c') = get_result c key now now in (r, some c')

abbrev pub cache_set :
    Option (TtlCache ProfileResult) → Text → ProfileResult → ℕ → Option (TtlCache ProfileResult)
cache_set none key r now = none
cache_set (some c) key r now = some (set c key r now now)

abbrev pub negative_blocked : Option NegativeTtl → Text → ℕ → Bool × Option NegativeTtl
negative_blocked none key now = (false, none)
negative_blocked (some n) key now = let (b, n') = is_blocked n key now in (b, some n')

abbrev pub negative_remember : Option NegativeTtl → Text → ℕ → ℕ → Option NegativeTtl
negative_remember none key pick now = none
negative_remember (some n) key pick now = some (remember n key pick now now)

abbrev pub default_profile_timeout : ℕ
default_profile_timeout = 15_000_000_000

abbrev pub default_enrich_concurrency : ℕ
default_enrich_concurrency = 4

abbrev pub err_caller_session_invalid : Err
err_caller_session_invalid = structured (
    caller_session_invalid (
      codes
        "the supplied LinkedIn session is invalid or expired; provide a fresh authorized session"))

-- How singleflight answers a `Do`: the call leads, and then says whether its result went to others
-- too, or it gets the result of a call for the same key that is under way.
pub data Flight : Type 0 where
  leads : Bool → Flight
  joins : Err ⊎ ProfileResult → Flight

module _ {W : Type 0} where
  -- `concurrency` is never negative here; durations are signed 64-bit patterns.
  unfoldable pub new_profile_service :
      Option (TtlCache ProfileResult)
      → Option NegativeTtl
      → ℕ
      → ℕ
      → List Text
      → ℕ
      → W
      → ProfileService W
  unfolding new_caller_health
  new_profile_service cache negative timeout caller_ttl sections concurrency w = record {
    cache = cache;
    negative = negative;
    caller_health = new_caller_health caller_ttl;
    metrics = record {
      hit = 0;
      negative = 0;
      miss = 0;
      coalesced = 0;
      success = 0;
      failure = 0;
      parse_failures = 0;
      caller_session_invalid = 0;
      caller_sessions_unhealthy = 0;
    };
    profile_timeout =
        if timeout == 0 || leb two_63 timeout then default_profile_timeout else timeout;
    enrich_sections = sections;
    enrich_concurrency = if concurrency == 0 then default_enrich_concurrency else concurrency;
    event = none;
    world = w;
  }

  abbrev pub count_failure : ProfileService W → ProfileService W
  count_failure s = record s { metrics = record (s.metrics) { failure = s.metrics.failure + 1 } }

  abbrev pub count_success : ProfileService W → ProfileService W
  count_success s = record s { metrics = record (s.metrics) { success = s.metrics.success + 1 } }

  abbrev pub count_hit : ProfileService W → ProfileService W
  count_hit s = record s { metrics = record (s.metrics) { hit = s.metrics.hit + 1 } }

  abbrev pub count_negative : ProfileService W → ProfileService W
  count_negative s = record s { metrics = record (s.metrics) { negative = s.metrics.negative + 1 } }

  abbrev pub count_miss : ProfileService W → ProfileService W
  count_miss s = record s { metrics = record (s.metrics) { miss = s.metrics.miss + 1 } }

  abbrev pub count_parse_failure : ProfileService W → ProfileService W
  count_parse_failure s = record s {
    metrics = record (s.metrics) { parse_failures = s.metrics.parse_failures + 1 };
  }

  abbrev pub count_invalid : ProfileService W → ProfileService W
  count_invalid s = record s {
    metrics = record (s.metrics) { caller_session_invalid = s.metrics.caller_session_invalid + 1 };
  }

  abbrev pub count_coalesced : Bool → ProfileService W → ProfileService W
  count_coalesced shared s =
      if shared
      then record s { metrics = record (s.metrics) { coalesced = s.metrics.coalesced + 1 } }
      else s

  unfoldable pub update_caller_gauge : ProfileService W → ProfileService W
  unfolding tracked
  update_caller_gauge s = record s {
    metrics = record (s.metrics) { caller_sessions_unhealthy = tracked s.caller_health };
  }

  abbrev pub note : (Option Event → Option Event) → ProfileService W → ProfileService W
  note f s = record s { event = f s.event }
