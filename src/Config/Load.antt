-- ===== src/Config/Load.antt =====
-- internal/config/config.go: Load, which fills the configuration from the environment and validates it.
pub mod Kinds
pub mod Documented
use linkedin_api.Base.{
  ℕ, ◌*◌, ◌≡◌, refl, ap, ◌∙◌, ◌⊎◌, inl, inr, Bool, true, Option, none, some, List, [], ◌∷◌,
  if◌then◌else◌, is_nil, Text, codes,
}
use linkedin_api.Base.Duration.{second}
use linkedin_api.Base.Decimal.{atoi}
use linkedin_api.Base.Int.{ℤ, pos}
use linkedin_api.Urlx.{Urls, Url, is_linkedin_host}
use linkedin_api.Config.{Configuration, validate, guards, bad_base_url, problems}
use linkedin_api.Config.Env.{
  Env, Parsers, get_env, get_env_parsed, get_env_int, get_env_bool, get_env_csv, get_env_csv_or,
  parse_bool,
}

abbrev pub millisecond : ℕ
millisecond = 1_000_000

abbrev pub minute : ℕ
minute = 60 * second

abbrev pub hour : ℕ
hour = 60 * minute

-- The readers of the environment, by key and default.
pub record Readers : Type 0 where
  pub get_env : Text → Text → Text
  pub get_env_int : Text → ℤ → ℤ
  pub get_env_float : Text → Bool → Bool
  pub get_env_bool : Text → Bool → Bool
  pub get_env_duration : Text → ℕ → ℕ
  pub get_env_csv : Text → List Text
  pub get_env_csv_or : Text → List Text → List Text

abbrev pub readers : Parsers → Env → Readers
readers p env = record {
  get_env = get_env env;
  get_env_int = get_env_int env;
  get_env_float = get_env_parsed p.parse_float env;
  get_env_bool = get_env_bool env;
  get_env_duration = get_env_parsed p.parse_duration env;
  get_env_csv = get_env_csv env;
  get_env_csv_or = get_env_csv_or env;
}

-- The configuration that Load reads, before it is validated.
unfoldable pub read_config : Readers → Configuration
read_config r = record {
  env = r.get_env (codes "ENV") (codes "development");
  server = record {
    port = r.get_env_int (codes "SERVER_PORT") (pos 8080);
    read_timeout = r.get_env_duration (codes "SERVER_READ_TIMEOUT") (10 * second);
    write_timeout = r.get_env_duration (codes "SERVER_WRITE_TIMEOUT") (20 * second);
    idle_timeout = r.get_env_duration (codes "SERVER_IDLE_TIMEOUT") (90 * second);
    shutdown_timeout = r.get_env_duration (codes "SHUTDOWN_TIMEOUT") (15 * second);
    trusted_proxy_depth = r.get_env_int (codes "TRUSTED_PROXY_DEPTH") (pos 0);
  };
  linkedin = record {
    li_at = r.get_env (codes "LINKEDIN_LI_AT") [];
    jsession_id = r.get_env (codes "LINKEDIN_JSESSIONID") [];
    base_url = r.get_env (codes "LINKEDIN_BASE_URL") (codes "https://www.linkedin.com");
    user_agent = r.get_env (codes "LINKEDIN_USER_AGENT") [];
    accept_language = r.get_env (codes "LINKEDIN_ACCEPT_LANGUAGE") (codes "en-US,en;q=0.9");
    timeout = r.get_env_duration (codes "HTTP_REQUEST_TIMEOUT") (10 * second);
    max_retries = r.get_env_int (codes "HTTP_MAX_RETRIES") (pos 2);
    retry_backoff = r.get_env_duration (codes "HTTP_RETRY_BACKOFF") (300 * millisecond);
    profile_timeout = r.get_env_duration (codes "PROFILE_TIMEOUT") (15 * second);
    allow_caller_session = r.get_env_bool (codes "LINKEDIN_ALLOW_CALLER_SESSION") true;
    sections =
        r.get_env_csv_or (codes "PROFILE_SECTIONS") (codes "experience" ∷ codes "education" ∷ []);
    enrichment_concurrency = r.get_env_int (codes "ENRICHMENT_CONCURRENCY") (pos 4);
  };
  cache = record {
    enabled = r.get_env_bool (codes "CACHE_ENABLED") true;
    ttl = r.get_env_duration (codes "CACHE_TTL") (10 * minute);
    max_entries = r.get_env_int (codes "CACHE_MAX_ENTRIES") (pos 1000);
  };
  rate_limit = record {
    enabled = r.get_env_bool (codes "RATE_LIMIT_ENABLED") true;
    rps_positive = r.get_env_float (codes "RATE_LIMIT_RPS") true;
    burst = r.get_env_int (codes "RATE_LIMIT_BURST") (pos 10);
  };
  upstream = record {
    max_concurrency = r.get_env_int (codes "UPSTREAM_MAX_CONCURRENCY") (pos 4);
    rate_rps_positive = r.get_env_float (codes "UPSTREAM_RATE_RPS") true;
    rate_burst = r.get_env_int (codes "UPSTREAM_RATE_BURST") (pos 10);
    breaker_threshold = r.get_env_int (codes "UPSTREAM_BREAKER_THRESHOLD") (pos 5);
    breaker_cooldown = r.get_env_duration (codes "UPSTREAM_BREAKER_COOLDOWN") (30 * second);
    session_threshold = r.get_env_int (codes "UPSTREAM_SESSION_THRESHOLD") (pos 2);
    session_cooldown = r.get_env_duration (codes "UPSTREAM_SESSION_COOLDOWN") (5 * minute);
    caller_session_ttl = r.get_env_duration (codes "CALLER_SESSION_UNHEALTHY_TTL") (5 * minute);
    negative_cache_ttl = r.get_env_duration (codes "UPSTREAM_NEG_CACHE_TTL") minute;
  };
  audit = record {
    enabled = r.get_env_bool (codes "AUDIT_ENABLED") true;
    db_path = r.get_env (codes "AUDIT_DB_PATH") (codes "audit.db");
    retention = r.get_env_duration (codes "AUDIT_RETENTION") (30 * (24 * hour));
    buffer_size = r.get_env_int (codes "AUDIT_BUFFER_SIZE") (pos 4096);
    batch_size = r.get_env_int (codes "AUDIT_BATCH_SIZE") (pos 128);
    flush_interval = r.get_env_duration (codes "AUDIT_FLUSH_INTERVAL") second;
    admin_keys = r.get_env_csv (codes "AUDIT_ADMIN_KEYS");
  };
  log_level = r.get_env (codes "LOG_LEVEL") (codes "info");
  log_format = r.get_env (codes "LOG_FORMAT") (codes "json");
  metrics_enabled = r.get_env_bool (codes "METRICS_ENABLED") true;
}

abbrev pub checked : Urls → Configuration → List Text ⊎ Configuration
checked u c = let found = validate u c in if is_nil found then inr c else inl found

-- Load: the problems, or the configuration.
unfoldable pub load : Parsers → Urls → Env → List Text ⊎ Configuration
unfolding read_config validate
load p u env = checked u (read_config (readers p env))
