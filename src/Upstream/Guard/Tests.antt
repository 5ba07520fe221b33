-- ===== src/Upstream/Guard/Tests.antt =====
-- The guard at concrete inputs: a limiter that holds a number of tokens and never refills.
use linkedin_api.Base.{ℕ, zero, suc, ◌*◌, ◌≡◌, refl, Bool, true, false, none, some, [], ◌∷◌, arith}
use linkedin_api.Domain.{mode_server, mode_caller}
use linkedin_api.Upstream.Breaker.{Config, new_breaker, blocked}
use linkedin_api.Upstream.Guard.{
  Guard, is_refused, enters, releases, new_guard, reject, take_slot, enter, step, run,
}
use linkedin_api.Base.Duration.{second}
use linkedin_api.Upstream.Guard.Capacity.{Inv, run-new_guard-Inv}
use linkedin_api.Upstream.Guard.Leak.{session_probe_leaks}

spend : ℕ → ℕ → Bool × ℕ
spend zero now = (false, zero)
spend (suc n) now = (true, n)

abbrev config : Config
config = record {
  max_concurrency = 2;
  failure_threshold = 3;
  breaker_cooldown = 30 * second;
  session_threshold = 2;
  session_cooldown = 300 * second;
}

abbrev start : Guard ℕ
start = record {
  breaker = record {
    general = record {
      threshold = 3;
      cooldown = 30 * second;
      grow = false;
      failures = 0;
      strikes = 0;
      open_until = none;
      probing = false;
      is_open = false;
    };
    session = record {
      threshold = 2;
      cooldown = 300 * second;
      grow = true;
      failures = 0;
      strikes = 1;
      open_until = some 50;
      probing = false;
      is_open = true;
    };
    metrics = none;
    logger = none;
  };
  limiter = 0;
  capacity = 2;
  held = 1;
  rejected = none;
  pending = (0, mode_caller) ∷ [];
  next_entry = 1;
}

-- A third entry finds no slot.
ceiling :
    (enter spend
      (run spend (new_guard config 9) (enters 1 mode_caller ∷ enters 2 mode_server ∷ []))
      3
      mode_caller).1.held
    ≡ 2
unfolding new_guard new_breaker run step enter blocked take_slot reject spend
ceiling = refl

abbrev one_entered : Guard ℕ
one_entered = run spend (new_guard config 9) (enters 1 mode_caller ∷ [])

one_entered-Inv : Inv one_entered
one_entered-Inv =
    run-new_guard-Inv spend config 9 (enters 1 mode_caller ∷ []) (omega arith) (omega arith)

-- Caller-session calls go on, and the server's session is never let through again.
session_probe_leaks_example :
    is_refused
      (enter spend
        (run spend
          (enter spend start 60 mode_server).1
          (enters 61 mode_caller ∷ releases 0 none 62 ∷ []))
        1_000_000
        mode_server).0
    ≡ true
unfolding spend
session_probe_leaks_example =
    (session_probe_leaks spend start 50 60 1_000_000
      (enters 61 mode_caller ∷ releases 0 none 62 ∷ []) refl refl refl (omega arith) refl
      (refl, tt)).1
