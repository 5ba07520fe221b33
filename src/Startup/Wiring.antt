-- ===== src/Startup/Wiring.antt =====
-- cmd/server/main.go: what run builds from the configuration.
use linkedin_api.Base.{not, ◌&&◌, ◌*◌, Option, none, some, List, if◌then◌else◌, Text, is_none}
use linkedin_api.Base.Int.{to_ℕ}
use linkedin_api.Base.Duration.{second}
use linkedin_api.Domain.Errors.{Err}
use linkedin_api.Cache.Ttl.{new_ttl}
use linkedin_api.Cache.Negative.{new_negative}
use linkedin_api.Audit.Writer.{Writer, new_writer}
use linkedin_api.Service.State.{ProfileService, new_profile_service}
use linkedin_api.Config.{Configuration, AuditConfig, no_time}

-- The service, with the sections that profileSections chose and its world.
unfoldable pub build_service : {W : Type 0} → Configuration → List Text → W → ProfileService W
unfolding new_profile_service
build_service c sections w =
    let entries = to_ℕ c.cache.max_entries in
    let ttl = c.upstream.negative_cache_ttl in
    new_profile_service (if c.cache.enabled then some (new_ttl c.cache.ttl entries) else none)
      (if c.cache.enabled && not (no_time ttl) then some (new_negative ttl entries) else none)
      c.linkedin.profile_timeout c.upstream.caller_session_ttl sections
      (to_ℕ c.linkedin.enrichment_concurrency) w

-- The writer, if auditing is on and audit.Open succeeds.
unfoldable pub build_writer : AuditConfig → Option Err → Option Writer
unfolding new_writer
build_writer c opened =
    if c.enabled && is_none opened
    then some (
        new_writer (record {
          buffer_size = to_ℕ c.buffer_size;
          batch_size = to_ℕ c.batch_size;
          flush_interval = c.flush_interval;
          retention = c.retention;
          purge_interval = 3600 * second;
        }))
    else none
