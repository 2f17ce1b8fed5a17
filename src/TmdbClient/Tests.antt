-- ===== src/TmdbClient/Tests.antt =====
-- Runs of the client, and its theorems at concrete inputs.
use ani_vault.Base.{
  arith, ℕ, zero, suc, ◌+◌, ◌≤◌, ◌≡◌, ◌≢◌, refl, true, false, none, some, [], ◌∷◌, ◌++◌,
}
use ani_vault.Sync.{free}
use ani_vault.RateLimiter.{Limiter, try_acquire}
use ani_vault.StateMachine.{
  Machine, normal, cache_only, should_make_request, handle_error, handle_429, get_retry_delay,
  handle_success,
}
use ani_vault.Semaphore.{async_enter}
use ani_vault.TmdbClient.{
  with_response, Response, answers, fails, infrastructure, rate_limit_exceeded, done, failed,
  backs_off, obeys, polls, Client, Settings, apply_rate_limiting, execute_with_retry, make_request,
}
use ani_vault.TmdbClient.Calm.{backoffs, IsFree, EndsFrom}
use ani_vault.TmdbClient.Waiting.{Earns, apply_rate_limiting-Ends}
use ani_vault.TmdbClient.Attempts.{failures, verdict, powers, execute_with_retry-outcome}
use ani_vault.TmdbClient.{◌>>◌}
use ani_vault.TmdbClient.Service.{reset, reset-make_request}
use ani_vault.TmdbClient.Request.{make_request-outcome, make_request-cache_only}

abbrev clock : ℕ → ℕ
clock n = 100 + n

-- The first call fails with 503, the second with 429 and a header, and the others answer.
abbrev respond : ℕ → Response ℕ
respond zero = fails (with_response 503 none)
respond (suc zero) = fails (with_response 429 (some 12))
respond (suc (suc n)) = answers n

abbrev settings : Settings
settings = record { retry_attempts = 3; retry_delay = 5; poll_delay = 1 }

-- An empty bucket that earns a token in 3 ticks.
abbrev bucket : Limiter
bucket = record { unit = 5; capacity = 3; refill_rate = 2; tokens = 0; last_refill = 99 }

abbrev machine : Machine
machine = record {
  second = 10;
  error_threshold = 60;
  time_window = 100;
  max_retry_after = 300;
  state = normal;
  error_timestamps = [];
  success_timestamps = [];
  last_429_time = 0;
  retry_after_delay = 0;
}

abbrev start : Client
start = record {
  limiter = free bucket;
  semaphore = record { second = 10; concurrency_limit = 2; value = 1 };
  machine = free machine;
  readings = 0;
  calls = 0;
  slept = [];
}

abbrev tripped : Client
tripped = record start { machine = free (record machine { state = cache_only }) }

start-IsFree : IsFree start
start-IsFree = record { free_limiter = refl; free_machine = refl }

bucket-Earns : Earns bucket (clock 0)
bucket-Earns = record {
  rate_positive = omega arith;
  capacity_positive = omega arith;
  valid = record { bounded = omega arith };
  refilled_before = omega arith;
}

normal-closed : normal ≢ cache_only
normal-closed = λ e. grind (arith, e)

make_request_runs :
    ((make_request settings clock respond 5 true start).0 ≡ done 0)
    × ((make_request settings clock respond 5 true start).1.slept
        ≡ polls 1 ∷ backs_off 5 ∷ obeys 10 ∷ backs_off 10 ∷ [])
unfolding make_request should_make_request async_enter try_acquire handle_error handle_429
    get_retry_delay ani_vault.RateLimiter.reset handle_success
make_request_runs = (refl, refl)

execute_with_retry-outcome_example :
    (after : Client) × (execute_with_retry settings clock respond start
      ≡ (verdict (respond (0 + failures respond 3 0)), after))
    × IsFree after
    × (after.calls ≡ suc (0 + failures respond 3 0))
    × (failures respond 3 0 ≤ 3)
    × (after.semaphore ≡ start.semaphore)
    × (backoffs after.slept ≡ [] ++ powers 5 0 (failures respond 3 0))
unfolding backoffs
execute_with_retry-outcome_example =
    execute_with_retry-outcome settings clock respond start start-IsFree

apply_rate_limiting-Ends_example : EndsFrom (apply_rate_limiting settings clock 5) start
apply_rate_limiting-Ends_example =
    apply_rate_limiting-Ends settings clock (λ n. omega arith) 4 start start-IsFree bucket-Earns
      (omega arith)

make_request-outcome_example :
    (after : Client) × (make_request settings clock respond 5 false start
      ≡ (verdict (respond (0 + failures respond 3 0)), after))
    × IsFree after
    × (after.calls ≡ suc (0 + failures respond 3 0))
    × (after.semaphore ≡ start.semaphore)
make_request-outcome_example =
    make_request-outcome settings clock respond 4 false (λ n. omega arith) start start-IsFree
      normal-closed (omega arith) bucket-Earns (omega arith)

tripped_is_refused :
    (after : Client) × (make_request settings clock respond 5 true tripped
      ≡ (failed (infrastructure rate_limit_exceeded), after))
    × (after.limiter ≡ tripped.limiter)
    × (after.semaphore ≡ tripped.semaphore)
    × (after.calls ≡ 0)
    × (after.slept ≡ [])
    × (after.machine ≡ tripped.machine)
tripped_is_refused =
    make_request-cache_only settings clock respond 5 true tripped
      (record { free_limiter = refl; free_machine = refl }) refl

reset-make_request_example :
    (after : Client) × ((reset settings clock >> make_request settings clock respond 1 true) tripped
      ≡ (verdict (respond (0 + failures respond 3 0)), after))
    × IsFree after
    × (after.calls ≡ suc (0 + failures respond 3 0))
    × (after.semaphore ≡ tripped.semaphore)
reset-make_request_example =
    reset-make_request settings clock respond true (λ n. omega arith) tripped
      (record { free_limiter = refl; free_machine = refl }) (omega arith) (omega arith)
      (omega arith)
