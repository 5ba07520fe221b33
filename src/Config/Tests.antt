-- ===== src/Config/Tests.antt =====
-- A configuration that passes.
use linkedin_api.Base.{
  ◌⊎◌, Text, Option, ℕ, ◌≡◌, refl, inl, inr, some, trim_space, any_byte, strip_prefix, cut, true,
  false, none, List, [], ◌∷◌, codes, text_eq, is_space, is_nil, if◌then◌else◌,
}
use linkedin_api.Base.Decimal.{atoi}
use linkedin_api.Base.Dict.{get}
use linkedin_api.Base.Int.{ℤ, pos, negsuc}
use linkedin_api.Urlx.Tests.{urls}
use linkedin_api.Upstream.Guard
use linkedin_api.Upstream.Guard.{new_guard}
use linkedin_api.Upstream.Guard.Capacity
use linkedin_api.Domain.{mode_server}
use linkedin_api.Cache.Negative
use linkedin_api.Cache.Negative.{new_negative}
use linkedin_api.Config.Env.{Env, Parsers, get_env, get_env_parsed, get_env_csv, get_env_csv-join}
use linkedin_api.Config.Load.{load}
use linkedin_api.Config.Load.Documented.{Documented, load-Documented}
use linkedin_api.Config.{Configuration, validate, guard_config, validate-Ready}

abbrev minute : ℕ
minute = 60_000_000_000

abbrev pub settings : Configuration
settings = record {
  env = codes "development";
  server = record {
    port = pos 8080;
    read_timeout = minute;
    write_timeout = minute;
    idle_timeout = minute;
    shutdown_timeout = minute;
    trusted_proxy_depth = pos 1;
  };
  linkedin = record {
    li_at = [];
    jsession_id = [];
    base_url = codes "https://www.linkedin.com";
    user_agent = [];
    accept_language = [];
    timeout = minute;
    max_retries = pos 2;
    retry_backoff = minute;
    profile_timeout = minute;
    allow_caller_session = true;
    sections = [];
    enrichment_concurrency = pos 4;
  };
  cache = record { enabled = true; ttl = minute; max_entries = pos 100 };
  rate_limit = record { enabled = true; rps_positive = true; burst = pos 5 };
  upstream = record {
    max_concurrency = pos 4;
    rate_rps_positive = true;
    rate_burst = pos 5;
    breaker_threshold = pos 5;
    breaker_cooldown = minute;
    session_threshold = pos 2;
    session_cooldown = minute;
    caller_session_ttl = minute;
    negative_cache_ttl = minute;
  };
  audit = record {
    enabled = false;
    db_path = [];
    retention = 0;
    buffer_size = pos 0;
    batch_size = negsuc 0;
    flush_interval = 0;
    admin_keys = [];
  };
  log_level = codes "info";
  metrics_enabled = true;
  log_format = codes "json";
}

validate_run : validate urls settings ≡ []
unfolding validate
validate_run = refl

abbrev calls : List Guard.Call
calls = Guard.enters 1 mode_server ∷ Guard.releases 0 none 2 ∷ []

abbrev lookups : List Negative.Call
lookups = Negative.remembers (codes "a") 0 5 5 ∷ Negative.blocks (codes "a") 6 ∷ []

validate-Ready_example :
    Capacity.Inv
      (Guard.run {L = ℕ} (λ l now. (true, l)) (new_guard (guard_config settings.upstream) 0) calls)
    × Negative.IsValid 100 (Negative.run (new_negative minute 100) lookups)
validate-Ready_example =
    validate-Ready urls settings (λ l now. (true, l)) 0 calls lookups validate_run refl

-- A blank between commas, and spaces around the entries.
abbrev keys : Env
keys name = some (codes "k1, , k2 ")

get_env_csv-join_example :
    get_env_csv keys (codes "AUDIT_ADMIN_KEYS") ≡ codes "k1" ∷ codes "k2" ∷ []
unfolding trim_space any_byte is_space
get_env_csv-join_example =
    get_env_csv-join keys (codes "AUDIT_ADMIN_KEYS")
      (record { left = []; entry = codes "k1"; right = [] })
      (record { left = codes " "; entry = []; right = [] }
        ∷ record { left = codes " "; entry = codes "k2"; right = codes " " }
        ∷ [])
      refl
      (
        record { spaces_left = refl; spaces_right = refl; trimmed = refl; no_comma = refl },
        (
          record { spaces_left = refl; spaces_right = refl; trimmed = refl; no_comma = refl },
          (record { spaces_left = refl; spaces_right = refl; trimmed = refl; no_comma = refl }, tt),
        ),
      )

-- The defaults, and no others.
abbrev parsers : Parsers
parsers = record {
  parse_duration = λ s. get s (
      (codes "10s", 10_000_000_000)
      ∷ (codes "20s", 20_000_000_000)
      ∷ (codes "90s", 90_000_000_000)
      ∷ (codes "15s", 15_000_000_000)
      ∷ (codes "300ms", 300_000_000)
      ∷ (codes "10m", 600_000_000_000)
      ∷ (codes "30s", 30_000_000_000)
      ∷ (codes "5m", 300_000_000_000)
      ∷ (codes "1m", 60_000_000_000)
      ∷ (codes "720h", 2_592_000_000_000_000)
      ∷ (codes "1s", 1_000_000_000)
      ∷ []);
  parse_float = λ s. if text_eq s (codes "5") then some true else none;
}

abbrev port_80 : Env
port_80 key =
    if text_eq key (codes "SERVER_PORT")
    then some (codes " 80 ")
    else if text_eq key (codes "CACHE_TTL")
    then some (codes "soon")
    else none

abbrev port_and_ttl : List Text ⊎ Configuration → Option (ℤ × ℕ)
port_and_ttl (inl problems) = none
port_and_ttl (inr c) = some (c.server.port, c.cache.ttl)

-- The port is read, and the time to live is not.
load_run : port_and_ttl (load parsers urls port_80) ≡ some (pos 80, 600_000_000_000)
unfolding load strip_prefix cut text_eq get get_env_parsed atoi get_env
load_run = refl

load-Documented_example :
    (c : Configuration) × Documented parsers port_80 c
    × (load parsers urls port_80
        ≡ (if is_nil (validate urls c) then inr c else inl (validate urls c)))
unfolding text_eq get
load-Documented_example = load-Documented parsers urls port_80 (record {
  at_10s = refl;
  at_20s = refl;
  at_90s = refl;
  at_15s = refl;
  at_300ms = refl;
  at_10m = refl;
  at_30s = refl;
  at_5m = refl;
  at_1m = refl;
  at_720h = refl;
  at_1s = refl;
  five = refl;
})
