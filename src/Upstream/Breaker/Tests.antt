-- ===== src/Upstream/Breaker/Tests.antt =====
-- The breaker at concrete inputs: a config with thresholds three and two, cooldowns of thirty
-- seconds and of five minutes.
use linkedin_api.Base.{◌*◌, ◌≡◌, refl, true, false, Option, none, some, [], ◌∷◌, ◌++◌, arith, codes}
use linkedin_api.Base.Duration.{second, of_seconds, shl, dur_lt, add_duration}
use linkedin_api.Domain.{mode_server, mode_caller}
use linkedin_api.Domain.Errors.{Err, as_error}
use linkedin_api.Upstream.Breaker.{
  Notice, Breaker, Config, new_breaker, blocked, sync_metrics, sync_log, sync, record_result,
}
use linkedin_api.Upstream.SubBreaker.{
  classify, retry_after_of, retry_after_seconds, trip_cooldown, settle,
}
use linkedin_api.Domain.Errors.{structured, upstream_timeout, upstream_auth, nil, wrapped}
use linkedin_api.Upstream.Breaker.Invariant.{Inv, enters, records, step, run, run-new_breaker-Inv}
use linkedin_api.Upstream.Breaker.Trips.{run_at_threshold}
use linkedin_api.Upstream.Breaker.Probe.{single_probe}

abbrev config : Config
config = record {
  max_concurrency = 2;
  failure_threshold = 3;
  breaker_cooldown = 30 * second;
  session_threshold = 2;
  session_cooldown = 300 * second;
}

abbrev timeout : Option Err
timeout = some (structured (upstream_timeout nil))

abbrev auth : Option Err
auth = some (wrapped (codes "service") (structured (upstream_auth nil)))

abbrev start : Breaker
start = record {
  general = record {
    threshold = 3;
    cooldown = 30 * second;
    grow = false;
    failures = 0;
    strikes = 0;
    open_until = none;
    probing = false;
    is_open = false;
  };
  session = record {
    threshold = 2;
    cooldown = 300 * second;
    grow = true;
    failures = 0;
    strikes = 0;
    open_until = none;
    probing = false;
    is_open = false;
  };
  metrics = some (record { circuit_trips = 0; circuit_open = 0; session_healthy = 1 });
  logger = some [];
}

abbrev opened : Breaker
opened = record start { general = record (start.general) { open_until = some 50; is_open = true } }

-- Three timeouts open the circuit, and the trip is counted.
trips_once :
    (run start (
      records timeout 1 mode_caller
      ∷ records timeout 2 mode_server
      ∷ records timeout 3 mode_caller
      ∷ [])).metrics
    ≡ some (record { circuit_trips = 1; circuit_open = 1; session_healthy = 1 })
unfolding run step record_result settle sync sync_metrics sync_log classify retry_after_of as_error
trips_once = refl

-- Two authentication failures of the server's session open its breaker, and the pause is logged.
session_trips :
    (run start (records auth 1 mode_server ∷ records auth 2 mode_server ∷ [])).logger
    ≡ some (Notice.session_unhealthy 300 ∷ [])
unfolding run step record_result settle sync sync_metrics sync_log classify retry_after_of as_error
    retry_after_seconds add_duration trip_cooldown shl of_seconds dur_lt
session_trips = refl

run-new_breaker-Inv_example :
    Inv (run (new_breaker config) (records timeout 1 mode_caller ∷ enters 2 mode_server ∷ []))
run-new_breaker-Inv_example =
    run-new_breaker-Inv config (records timeout 1 mode_caller ∷ enters 2 mode_server ∷ [])
      (omega arith) (omega arith)

run_at_threshold_example :
    (run start (
      (records timeout 1 mode_caller ∷ records timeout 2 mode_server ∷ [])
      ++ records timeout 3 mode_caller ∷ [])).general.is_open
    ≡ true
unfolding classify as_error
run_at_threshold_example =
    (run_at_threshold start (records timeout 1 mode_caller ∷ records timeout 2 mode_server ∷ [])
      timeout 3 mode_caller (refl, (refl, tt)) refl (refl, refl, refl) refl refl).0

single_probe_example : (blocked opened 60 mode_caller).0 ≡ none
single_probe_example = (single_probe opened 50 60 70 mode_server refl refl (omega arith)).0
