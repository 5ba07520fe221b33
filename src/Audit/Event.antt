-- ===== src/Audit/Event.antt =====
-- internal/audit/record.go: the event that a request's handling annotates and its final record. The
-- event of a context is `none` while auditing is off; every annotation then does nothing.
use linkedin_api.Base.{
  ℕ, ◌+◌, Bool, true, false, Option, none, some, [], ◌++◌, if◌then◌else◌, is_nil, Text, codes,
}

pub record Record : Type 0 where
  pub time : ℕ
  pub request_id : Text
  pub client_ip : Text
  pub key_id : Text
  pub profile_id : Text
  pub credential_mode : Text
  pub cred_fp : Text
  pub status : ℕ
  pub rate_decision : Text
  pub cached : Bool
  pub upstream_called : Bool
  pub upstream_outcome : Text
  pub retries : ℕ
  pub latency : ℕ
  pub error_class : Text
  pub sections : Text

pub record Event : Type 0 where
  pub profile_id : Text
  pub credential_mode : Text
  pub cred_fp : Text
  pub cached : Bool
  pub upstream_called : Bool
  pub upstream_outcome : Text
  pub retries : ℕ
  pub rate_decision : Text
  pub error_class : Text
  pub sections : Text

abbrev pub decision_allowed : Text
decision_allowed = codes "allowed"

abbrev pub decision_ip_limited : Text
decision_ip_limited = codes "ip_limited"

abbrev pub outcome_ok : Text
outcome_ok = codes "ok"

abbrev pub outcome_caller_auth_failed : Text
outcome_caller_auth_failed = codes "caller_session_auth_failed"

abbrev pub outcome_caller_expired : Text
outcome_caller_expired = codes "caller_session_expired"

abbrev pub anonymous_key : Text
anonymous_key = codes "anonymous"

-- KeyID; `digest` is the hexadecimal form of the first six bytes of a text's SHA-256 sum.
unfoldable pub key_id : (Text → Text) → Text → Text
key_id digest key = if is_nil key then anonymous_key else codes "key_" ++ digest key

abbrev pub new_event : Event
new_event = record {
  profile_id = [];
  credential_mode = [];
  cred_fp = [];
  cached = false;
  upstream_called = false;
  upstream_outcome = [];
  retries = 0;
  rate_decision = decision_allowed;
  error_class = [];
  sections = [];
}

abbrev pub set_profile_id : Text → Option Event → Option Event
set_profile_id id none = none
set_profile_id id (some e) = some (record e { profile_id = id })

abbrev pub set_credential : Text → Text → Option Event → Option Event
set_credential mode fp none = none
set_credential mode fp (some e) = some (record e { credential_mode = mode; cred_fp = fp })

abbrev pub mark_cache_hit : Option Event → Option Event
mark_cache_hit none = none
mark_cache_hit (some e) = some (record e { cached = true })

abbrev pub mark_upstream_called : Option Event → Option Event
mark_upstream_called none = none
mark_upstream_called (some e) = some (record e { upstream_called = true })

abbrev pub set_upstream_outcome : Text → Option Event → Option Event
set_upstream_outcome outcome none = none
set_upstream_outcome outcome (some e) = some (record e { upstream_outcome = outcome })

abbrev pub add_retry : Option Event → Option Event
add_retry none = none
add_retry (some e) = some (record e { retries = e.retries + 1 })

abbrev pub set_rate_decision : Text → Option Event → Option Event
set_rate_decision decision none = none
set_rate_decision decision (some e) = some (record e { rate_decision = decision })

abbrev pub set_error : Text → Option Event → Option Event
set_error class none = none
set_error class (some e) = some (record e { error_class = class })

abbrev pub set_sections : Text → Option Event → Option Event
set_sections sections none = none
set_sections sections (some e) = some (record e { sections = sections })

abbrev pub snapshot : Event → Record → Record
snapshot e base = record base {
  profile_id = e.profile_id;
  credential_mode = e.credential_mode;
  cred_fp = e.cred_fp;
  cached = e.cached;
  upstream_called = e.upstream_called;
  upstream_outcome = e.upstream_outcome;
  retries = e.retries;
  rate_decision = e.rate_decision;
  error_class = e.error_class;
  sections = e.sections;
}
