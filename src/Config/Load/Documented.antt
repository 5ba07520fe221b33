-- ===== src/Config/Load/Documented.antt =====
-- What .env.example documents of each variable that Load reads: its key, its kind and its default, a
-- text in the variable's own syntax. The example's credentials are placeholders: no default.
use linkedin_api.Base.{
  ◌≡◌, refl, inl, inr, true, some, [], is_nil, if◌then◌else◌, codes, split, trim_space,
}
use linkedin_api.Base.Decimal.{atoi}
use linkedin_api.Urlx.{Urls}
use linkedin_api.Config.{Configuration, validate}
use linkedin_api.Config.Env.{Env, Parsers, parse_bool}
use linkedin_api.Config.Load.{load, read_config, readers}
use linkedin_api.Config.Load.Kinds.{
  Reads, Chosen, Listed, get_env_parsed-Reads, get_env-Chosen, get_env_csv_or-Listed,
  get_env_csv-Listed,
}

pub record Documented (p : Parsers) (e : Env) (c : Configuration) : Type 0 where
  pub env : Chosen e (codes "ENV") (codes "development") c.env
  pub server_port : Reads atoi e (codes "SERVER_PORT") (codes "8080") c.server.port
  pub server_read_timeout :
      Reads p.parse_duration e (codes "SERVER_READ_TIMEOUT") (codes "10s") c.server.read_timeout
  pub server_write_timeout :
      Reads p.parse_duration e (codes "SERVER_WRITE_TIMEOUT") (codes "20s") c.server.write_timeout
  pub server_idle_timeout :
      Reads p.parse_duration e (codes "SERVER_IDLE_TIMEOUT") (codes "90s") c.server.idle_timeout
  pub shutdown_timeout :
      Reads p.parse_duration e (codes "SHUTDOWN_TIMEOUT") (codes "15s") c.server.shutdown_timeout
  pub trusted_proxy_depth :
      Reads atoi e (codes "TRUSTED_PROXY_DEPTH") (codes "0") c.server.trusted_proxy_depth
  pub linkedin_li_at : Chosen e (codes "LINKEDIN_LI_AT") [] c.linkedin.li_at
  pub linkedin_jsessionid : Chosen e (codes "LINKEDIN_JSESSIONID") [] c.linkedin.jsession_id
  pub linkedin_base_url :
      Chosen e (codes "LINKEDIN_BASE_URL") (codes "https://www.linkedin.com") c.linkedin.base_url
  pub linkedin_user_agent : Chosen e (codes "LINKEDIN_USER_AGENT") [] c.linkedin.user_agent
  pub linkedin_accept_language :
      Chosen e
        (codes "LINKEDIN_ACCEPT_LANGUAGE")
        (codes "en-US,en;q=0.9")
        c.linkedin.accept_language
  pub http_request_timeout :
      Reads p.parse_duration e (codes "HTTP_REQUEST_TIMEOUT") (codes "10s") c.linkedin.timeout
  pub http_max_retries : Reads atoi e (codes "HTTP_MAX_RETRIES") (codes "2") c.linkedin.max_retries
  pub http_retry_backoff :
      Reads p.parse_duration e (codes "HTTP_RETRY_BACKOFF") (codes "300ms") c.linkedin.retry_backoff
  pub profile_timeout :
      Reads p.parse_duration e (codes "PROFILE_TIMEOUT") (codes "15s") c.linkedin.profile_timeout
  pub profile_sections :
      Listed e (codes "PROFILE_SECTIONS") (codes "experience,education") c.linkedin.sections
  pub enrichment_concurrency :
      Reads atoi e (codes "ENRICHMENT_CONCURRENCY") (codes "4") c.linkedin.enrichment_concurrency
  pub linkedin_allow_caller_session :
      Reads parse_bool e
        (codes "LINKEDIN_ALLOW_CALLER_SESSION")
        (codes "true")
        c.linkedin.allow_caller_session
  pub cache_enabled : Reads parse_bool e (codes "CACHE_ENABLED") (codes "true") c.cache.enabled
  pub cache_ttl : Reads p.parse_duration e (codes "CACHE_TTL") (codes "10m") c.cache.ttl
  pub cache_max_entries :
      Reads atoi e (codes "CACHE_MAX_ENTRIES") (codes "1000") c.cache.max_entries
  pub rate_limit_enabled :
      Reads parse_bool e (codes "RATE_LIMIT_ENABLED") (codes "true") c.rate_limit.enabled
  pub rate_limit_rps :
      Reads p.parse_float e (codes "RATE_LIMIT_RPS") (codes "5") c.rate_limit.rps_positive
  pub rate_limit_burst : Reads atoi e (codes "RATE_LIMIT_BURST") (codes "10") c.rate_limit.burst
  pub upstream_max_concurrency :
      Reads atoi e (codes "UPSTREAM_MAX_CONCURRENCY") (codes "4") c.upstream.max_concurrency
  pub upstream_rate_rps :
      Reads p.parse_float e (codes "UPSTREAM_RATE_RPS") (codes "5") c.upstream.rate_rps_positive
  pub upstream_rate_burst :
      Reads atoi e (codes "UPSTREAM_RATE_BURST") (codes "10") c.upstream.rate_burst
  pub upstream_breaker_threshold :
      Reads atoi e (codes "UPSTREAM_BREAKER_THRESHOLD") (codes "5") c.upstream.breaker_threshold
  pub upstream_breaker_cooldown :
      Reads p.parse_duration e
        (codes "UPSTREAM_BREAKER_COOLDOWN")
        (codes "30s")
        c.upstream.breaker_cooldown
  pub upstream_session_threshold :
      Reads atoi e (codes "UPSTREAM_SESSION_THRESHOLD") (codes "2") c.upstream.session_threshold
  pub upstream_session_cooldown :
      Reads p.parse_duration e
        (codes "UPSTREAM_SESSION_COOLDOWN")
        (codes "5m")
        c.upstream.session_cooldown
  pub caller_session_unhealthy_ttl :
      Reads p.parse_duration e
        (codes "CALLER_SESSION_UNHEALTHY_TTL")
        (codes "5m")
        c.upstream.caller_session_ttl
  pub upstream_neg_cache_ttl :
      Reads p.parse_duration e
        (codes "UPSTREAM_NEG_CACHE_TTL")
        (codes "1m")
        c.upstream.negative_cache_ttl
  pub log_level : Chosen e (codes "LOG_LEVEL") (codes "info") c.log_level
  pub log_format : Chosen e (codes "LOG_FORMAT") (codes "json") c.log_format
  pub metrics_enabled :
      Reads parse_bool e (codes "METRICS_ENABLED") (codes "true") c.metrics_enabled
  pub audit_enabled : Reads parse_bool e (codes "AUDIT_ENABLED") (codes "true") c.audit.enabled
  pub audit_db_path : Chosen e (codes "AUDIT_DB_PATH") (codes "audit.db") c.audit.db_path
  pub audit_retention :
      Reads p.parse_duration e (codes "AUDIT_RETENTION") (codes "720h") c.audit.retention
  pub audit_buffer_size :
      Reads atoi e (codes "AUDIT_BUFFER_SIZE") (codes "4096") c.audit.buffer_size
  pub audit_batch_size : Reads atoi e (codes "AUDIT_BATCH_SIZE") (codes "128") c.audit.batch_size
  pub audit_flush_interval :
      Reads p.parse_duration e (codes "AUDIT_FLUSH_INTERVAL") (codes "1s") c.audit.flush_interval
  pub audit_admin_keys : Listed e (codes "AUDIT_ADMIN_KEYS") [] c.audit.admin_keys

-- What time.ParseDuration and strconv.ParseFloat make of the documented defaults.
pub record ReadsDefaults (p : Parsers) : Type 0 where
  pub at_10s : p.parse_duration (codes "10s") ≡ some 10_000_000_000
  pub at_20s : p.parse_duration (codes "20s") ≡ some 20_000_000_000
  pub at_90s : p.parse_duration (codes "90s") ≡ some 90_000_000_000
  pub at_15s : p.parse_duration (codes "15s") ≡ some 15_000_000_000
  pub at_300ms : p.parse_duration (codes "300ms") ≡ some 300_000_000
  pub at_10m : p.parse_duration (codes "10m") ≡ some 600_000_000_000
  pub at_30s : p.parse_duration (codes "30s") ≡ some 30_000_000_000
  pub at_5m : p.parse_duration (codes "5m") ≡ some 300_000_000_000
  pub at_1m : p.parse_duration (codes "1m") ≡ some 60_000_000_000
  pub at_720h : p.parse_duration (codes "720h") ≡ some 2_592_000_000_000_000
  pub at_1s : p.parse_duration (codes "1s") ≡ some 1_000_000_000
  pub five : p.parse_float (codes "5") ≡ some true

read_config-Documented :
    (p : Parsers) (env : Env) → ReadsDefaults p → Documented p env (read_config (readers p env))
unfolding read_config atoi parse_bool split trim_space
read_config-Documented p env h = record {
  env = get_env-Chosen env _ _;
  server_port = get_env_parsed-Reads atoi env _ _ _ refl;
  server_read_timeout = get_env_parsed-Reads p.parse_duration env _ _ _ h.at_10s;
  server_write_timeout = get_env_parsed-Reads p.parse_duration env _ _ _ h.at_20s;
  server_idle_timeout = get_env_parsed-Reads p.parse_duration env _ _ _ h.at_90s;
  shutdown_timeout = get_env_parsed-Reads p.parse_duration env _ _ _ h.at_15s;
  trusted_proxy_depth = get_env_parsed-Reads atoi env _ _ _ refl;
  linkedin_li_at = get_env-Chosen env _ _;
  linkedin_jsessionid = get_env-Chosen env _ _;
  linkedin_base_url = get_env-Chosen env _ _;
  linkedin_user_agent = get_env-Chosen env _ _;
  linkedin_accept_language = get_env-Chosen env _ _;
  http_request_timeout = get_env_parsed-Reads p.parse_duration env _ _ _ h.at_10s;
  http_max_retries = get_env_parsed-Reads atoi env _ _ _ refl;
  http_retry_backoff = get_env_parsed-Reads p.parse_duration env _ _ _ h.at_300ms;
  profile_timeout = get_env_parsed-Reads p.parse_duration env _ _ _ h.at_15s;
  profile_sections = get_env_csv_or-Listed env _ (codes "experience,education");
  enrichment_concurrency = get_env_parsed-Reads atoi env _ _ _ refl;
  linkedin_allow_caller_session = get_env_parsed-Reads parse_bool env _ _ _ refl;
  cache_enabled = get_env_parsed-Reads parse_bool env _ _ _ refl;
  cache_ttl = get_env_parsed-Reads p.parse_duration env _ _ _ h.at_10m;
  cache_max_entries = get_env_parsed-Reads atoi env _ _ _ refl;
  rate_limit_enabled = get_env_parsed-Reads parse_bool env _ _ _ refl;
  rate_limit_rps = get_env_parsed-Reads p.parse_float env _ _ _ h.five;
  rate_limit_burst = get_env_parsed-Reads atoi env _ _ _ refl;
  upstream_max_concurrency = get_env_parsed-Reads atoi env _ _ _ refl;
  upstream_rate_rps = get_env_parsed-Reads p.parse_float env _ _ _ h.five;
  upstream_rate_burst = get_env_parsed-Reads atoi env _ _ _ refl;
  upstream_breaker_threshold = get_env_parsed-Reads atoi env _ _ _ refl;
  upstream_breaker_cooldown = get_env_parsed-Reads p.parse_duration env _ _ _ h.at_30s;
  upstream_session_threshold = get_env_parsed-Reads atoi env _ _ _ refl;
  upstream_session_cooldown = get_env_parsed-Reads p.parse_duration env _ _ _ h.at_5m;
  caller_session_unhealthy_ttl = get_env_parsed-Reads p.parse_duration env _ _ _ h.at_5m;
  upstream_neg_cache_ttl = get_env_parsed-Reads p.parse_duration env _ _ _ h.at_1m;
  log_level = get_env-Chosen env _ _;
  log_format = get_env-Chosen env _ _;
  metrics_enabled = get_env_parsed-Reads parse_bool env _ _ _ refl;
  audit_enabled = get_env_parsed-Reads parse_bool env _ _ _ refl;
  audit_db_path = get_env-Chosen env _ _;
  audit_retention = get_env_parsed-Reads p.parse_duration env _ _ _ h.at_720h;
  audit_buffer_size = get_env_parsed-Reads atoi env _ _ _ refl;
  audit_batch_size = get_env_parsed-Reads atoi env _ _ _ refl;
  audit_flush_interval = get_env_parsed-Reads p.parse_duration env _ _ _ h.at_1s;
  audit_admin_keys = get_env_csv-Listed env _;
}

-- If the parsers read the defaults of .env.example as documented, Load takes for every variable
-- that .env.example names the value that is set (of the two rates in requests per second, whether
-- it is positive), or the default that it documents when the variable is unset, empty or not
-- readable (for a text: unset or empty; for a list: without an entry), with no default for the
-- credentials; it returns that configuration if Validate finds no problem in it, and the problems
-- if it does.
pub load-Documented :
    (p : Parsers) (u : Urls) (env : Env)
    → ReadsDefaults p
    → (c : Configuration) × Documented p env c
      × (load p u env ≡ (if is_nil (validate u c) then inr c else inl (validate u c)))
unfolding load
load-Documented p u env h = (read_config (readers p env), read_config-Documented p env h, refl)
