-- ===== src/Config.antt =====
-- internal/config/config.go: the configuration and Validate. A float64 stands for whether it is positive,
-- and a duration is its 64-bit pattern; url.Parse is a field of `Urls`, whose failure is none.
pub mod Tests
pub mod Env
pub mod Load
pub mod Secrets
use linkedin_api.Base.{
  ℕ, zero, suc, ◌+◌, ◌-◌, ◌*◌, ◌/◌, ◌%◌, ◌^◌, ◌≤◌, ◌<◌, ◌≡◌, refl, sym, ap, ◌∙◌, subst, fun_ext,
  ◌≢◌, ◌↔◌, ◌⊎◌, inl, inr, Bool, true, false, not, ◌&&◌, ◌||◌, Option, none, some, List, [], ◌∷◌,
  ◌++◌, map, arith, ltb, leb, ◌==◌, ==_iff, if◌then◌else◌, Bool-cases, Option-cases, is_some,
  is_none, length, length-append, is_nil, get_elem?, remove_at, length-remove_at, keep,
  length-keep-le, any, all, All, All-append, All-keep, All-remove_at, Text, codes, text_eq,
  text_eq_iff, text_eq_refl, String,
}
use linkedin_api.Base.{lower}
use linkedin_api.Base.Duration.{two_63}
use linkedin_api.Base.Int.{ℤ, pos, negsuc, is_nonpositive, to_ℕ}
use linkedin_api.Urlx.{Urls, Url, is_linkedin_host}
use linkedin_api.Upstream.Breaker
use linkedin_api.Upstream.Guard
use linkedin_api.Upstream.Guard.{new_guard}
use linkedin_api.Upstream.Guard.Capacity
use linkedin_api.Upstream.Guard.Capacity.{run-new_guard-Inv}
use linkedin_api.Cache.Negative
use linkedin_api.Cache.Negative.{new_negative, run-new_negative-IsValid}

pub record ServerConfig : Type 0 where
  pub port : ℤ
  pub read_timeout : ℕ
  pub write_timeout : ℕ
  pub idle_timeout : ℕ
  pub shutdown_timeout : ℕ
  pub trusted_proxy_depth : ℤ

pub record LinkedinConfig : Type 0 where
  pub li_at : Text
  pub jsession_id : Text
  pub base_url : Text
  pub user_agent : Text
  pub accept_language : Text
  pub timeout : ℕ
  pub max_retries : ℤ
  pub retry_backoff : ℕ
  pub profile_timeout : ℕ
  pub allow_caller_session : Bool
  pub sections : List Text
  pub enrichment_concurrency : ℤ

pub record CacheConfig : Type 0 where
  pub enabled : Bool
  pub ttl : ℕ
  pub max_entries : ℤ

pub record RateLimitConfig : Type 0 where
  pub enabled : Bool
  pub rps_positive : Bool
  pub burst : ℤ

pub record UpstreamConfig : Type 0 where
  pub max_concurrency : ℤ
  pub rate_rps_positive : Bool
  pub rate_burst : ℤ
  pub breaker_threshold : ℤ
  pub breaker_cooldown : ℕ
  pub session_threshold : ℤ
  pub session_cooldown : ℕ
  pub caller_session_ttl : ℕ
  pub negative_cache_ttl : ℕ

pub record AuditConfig : Type 0 where
  pub enabled : Bool
  pub db_path : Text
  pub retention : ℕ
  pub buffer_size : ℤ
  pub batch_size : ℤ
  pub flush_interval : ℕ
  pub admin_keys : List Text

pub record Configuration : Type 0 where
  pub env : Text
  pub server : ServerConfig
  pub linkedin : LinkedinConfig
  pub cache : CacheConfig
  pub rate_limit : RateLimitConfig
  pub upstream : UpstreamConfig
  pub audit : AuditConfig
  pub log_level : Text
  pub log_format : Text
  pub metrics_enabled : Bool

-- d <= 0, i < 0 and 65535 < i
abbrev pub no_time : ℕ → Bool
no_time d = d == 0 || leb two_63 d

abbrev pub is_negative : ℤ → Bool
is_negative (pos n) = false
is_negative (negsuc n) = true

unfoldable pub is_production : Configuration → Bool
unfolding lower text_eq
is_production c = text_eq (lower c.env) (codes "production")

unfoldable pub bad_base_url : Urls → Text → Bool
unfolding is_linkedin_host text_eq
bad_base_url u base = elim (u.parse_url base) [
  | none ↦ true
  | some url ↦ not (text_eq url.scheme (codes "https")) || not (is_linkedin_host url.host)
]

-- The guards of Validate, in their order, each with the name that its problem starts with.
unfoldable pub upstream_guards : UpstreamConfig → List (Bool × Text)
upstream_guards c =
    (is_nonpositive c.max_concurrency, codes "UPSTREAM_MAX_CONCURRENCY")
    ∷ (not c.rate_rps_positive || is_nonpositive c.rate_burst, codes "UPSTREAM_RATE_RPS")
    ∷ (is_nonpositive c.breaker_threshold, codes "UPSTREAM_BREAKER_THRESHOLD")
    ∷ (no_time c.breaker_cooldown, codes "UPSTREAM_BREAKER_COOLDOWN")
    ∷ (is_nonpositive c.session_threshold, codes "UPSTREAM_SESSION_THRESHOLD")
    ∷ (no_time c.session_cooldown, codes "UPSTREAM_SESSION_COOLDOWN")
    ∷ (no_time c.caller_session_ttl, codes "CALLER_SESSION_UNHEALTHY_TTL")
    ∷ []

unfoldable pub audit_guards : AuditConfig → List (Bool × Text)
audit_guards c =
    (c.enabled && is_nil c.db_path, codes "AUDIT_DB_PATH")
    ∷ (c.enabled && no_time c.retention, codes "AUDIT_RETENTION")
    ∷ (c.enabled && is_nonpositive c.buffer_size, codes "AUDIT_BUFFER_SIZE")
    ∷ (c.enabled && is_nonpositive c.batch_size, codes "AUDIT_BATCH_SIZE")
    ∷ (c.enabled && no_time c.flush_interval, codes "AUDIT_FLUSH_INTERVAL")
    ∷ []

unfoldable pub guards : Urls → Configuration → List (Bool × Text)
unfolding bad_base_url upstream_guards audit_guards is_production text_eq
guards u c =
    let li = c.linkedin in
    (is_nonpositive c.server.port || ltb 65535 (to_ℕ c.server.port), codes "SERVER_PORT")
    ∷ (is_negative c.server.trusted_proxy_depth, codes "TRUSTED_PROXY_DEPTH")
    ∷ (bad_base_url u li.base_url, codes "LINKEDIN_BASE_URL")
    ∷ (is_negative li.max_retries, codes "HTTP_MAX_RETRIES")
    ∷ (no_time li.timeout, codes "HTTP_REQUEST_TIMEOUT")
    ∷ (no_time li.profile_timeout, codes "PROFILE_TIMEOUT")
    ∷ (is_nonpositive li.enrichment_concurrency, codes "ENRICHMENT_CONCURRENCY")
    ∷ (not (is_nil li.li_at) && is_nil li.user_agent, codes "LINKEDIN_USER_AGENT")
    ∷ (not (is_nonpositive li.max_retries) && no_time li.retry_backoff, codes "HTTP_RETRY_BACKOFF")
    ∷ (c.cache.enabled && is_nonpositive c.cache.max_entries, codes "CACHE_MAX_ENTRIES")
    ∷ (
      c.rate_limit.enabled && (not c.rate_limit.rps_positive || is_nonpositive c.rate_limit.burst),
      codes "RATE_LIMIT_RPS",
    )
    ∷ (upstream_guards c.upstream
        ++ (audit_guards c.audit
            ++ ((
              not (text_eq c.log_format (codes "json") || text_eq c.log_format (codes "text")),
              codes "LOG_FORMAT",
            )
                ∷ (is_production c && is_nil li.li_at, codes "LINKEDIN_LI_AT")
                ∷ (is_production c && is_nil li.jsession_id, codes "LINKEDIN_JSESSIONID")
                ∷ [])))

-- The problems collected.
unfoldable pub problems : List (Bool × Text) → List Text
problems [] = []
problems ((bad, name) ∷ gs) = let rest = problems gs in if bad then name ∷ rest else rest

-- Validate returns nil if there are none.
unfoldable pub validate : Urls → Configuration → List Text
unfolding guards problems
validate u c = problems (guards u c)

-- What cmd/server/main.go hands to upstream.New.
unfoldable pub guard_config : UpstreamConfig → Breaker.Config
guard_config c = record {
  max_concurrency = to_ℕ c.max_concurrency;
  failure_threshold = to_ℕ c.breaker_threshold;
  breaker_cooldown = c.breaker_cooldown;
  session_threshold = to_ℕ c.session_threshold;
  session_cooldown = c.session_cooldown;
}

abbrev Passed : List (Bool × Text) → Type 0
Passed gs = All (λ g. g.0 ≡ false) gs

problems-Passed : (gs : List (Bool × Text)) → problems gs ≡ [] → Passed gs
unfolding problems
problems-Passed [] h = tt
problems-Passed ((true, name) ∷ gs) h = cc
problems-Passed ((false, name) ∷ gs) h = (refl, problems-Passed gs h)

positive : (i : ℤ) → is_nonpositive i ≡ false → 0 < to_ℕ i
positive (pos zero) h = cc
positive (pos (suc n)) h = omega arith
positive (negsuc n) h = cc

-- With a configuration that Validate accepts and caching enabled, whatever the limiter, after any
-- calls, the guard that the server builds keeps its invariant of slots, entries and breakers, and a
-- negative cache that it builds keeps to CACHE_MAX_ENTRIES entries under distinct keys.
pub validate-Ready :
    {L : Type 0} (u : Urls) (c : Configuration) (allow : L → ℕ → Bool × L) (l : L)
    (cs : List Guard.Call) (ns : List Negative.Call)
    → validate u c ≡ []
    → c.cache.enabled ≡ true
    → Capacity.Inv (Guard.run allow (new_guard (guard_config c.upstream) l) cs)
      × Negative.IsValid
          (to_ℕ c.cache.max_entries)
          (Negative.run (new_negative c.upstream.negative_cache_ttl (to_ℕ c.cache.max_entries)) ns)
unfolding validate guards upstream_guards guard_config
validate-Ready u c allow l cs ns h e =
    let p = problems-Passed (guards u c) h in
    let from_cache = p.1.1.1.1.1.1.1.1.1 in
    let from_upstream = from_cache.1.1 in
    let entries : is_nonpositive c.cache.max_entries ≡ false = ground (arith, e, from_cache.0) in
    (
      run-new_guard-Inv allow (guard_config c.upstream) l cs
          (positive c.upstream.breaker_threshold from_upstream.1.1.0)
          (positive c.upstream.session_threshold from_upstream.1.1.1.1.0),
      run-new_negative-IsValid c.upstream.negative_cache_ttl (to_ℕ c.cache.max_entries) ns
          (positive c.cache.max_entries entries),
    )
