-- ===== src/StateMachine.antt =====
-- `RateLimitState` and `RateLimitStateMachine` of src/anivault/infrastructure/state_machine.py.
--
-- Times and delays are clock ticks, `second` of them to a second. `error_threshold` is in whole
-- percent, and the error rate is compared without the rounding of floats. A method that calls
-- `time.time()` twice takes both readings. A header `Retry-After` is not negative.
pub mod Methods
pub mod Reach
pub mod Window
mod Tests
use ani_vault.Base.{
  ℕ, suc, ◌+◌, ◌-◌, ◌*◌, min, Bool, true, false, Option, none, some, List, [], ◌∷◌, ◌++◌, length,
  ltb, leb, ◌==◌, if◌then◌else◌,
}
use ani_vault.Sync.{Method, pure, gets, modify, with_lock, ◌>>=◌, ◌>>◌}

-- None of the methods raises.
pub data NoError : Type 0 where

pub data RateLimitState : Type 0 where
  normal throttle sleep_then_resume cache_only : RateLimitState

pub record Machine : Type 0 where
  pub second : ℕ
  pub error_threshold : ℕ
  pub time_window : ℕ
  pub max_retry_after : ℕ
  pub state : RateLimitState
  pub error_timestamps : List ℕ
  pub success_timestamps : List ℕ
  pub last_429_time : ℕ
  pub retry_after_delay : ℕ

-- __init__
abbrev pub init : ℕ → ℕ → ℕ → ℕ → Machine
init second error_threshold time_window max_retry_after = record {
  second = second;
  error_threshold = error_threshold;
  time_window = time_window;
  max_retry_after = max_retry_after;
  state = normal;
  error_timestamps = [];
  success_timestamps = [];
  last_429_time = 0;
  retry_after_delay = 0;
}

-- The loop of `_clean_old_timestamps` over one deque: `t < now - window`.
unfoldable pub drop_old : ℕ → ℕ → List ℕ → List ℕ
drop_old window now [] = []
drop_old window now (t ∷ ts) = if ltb (t + window) now then drop_old window now ts else t ∷ ts

-- _clean_old_timestamps
unfoldable pub clean : ℕ → Machine → Machine
unfolding drop_old
clean now m = record m {
  error_timestamps = drop_old m.time_window now m.error_timestamps;
  success_timestamps = drop_old m.time_window now m.success_timestamps;
}

-- _should_trigger_circuit_breaker
unfoldable pub should_trigger : Machine → Bool
should_trigger m =
    let error_count = length m.error_timestamps in
    let total_requests = error_count + length m.success_timestamps in
    if error_count == 0
    then false
    else if ltb total_requests 10
    then false
    else leb (m.error_threshold * total_requests) (error_count * 100)

-- The new delay after a 429: the header, capped, or twice the last delay, at most a minute.
unfoldable pub next_delay : Machine → Option ℕ → ℕ
next_delay m (some retry_after) = min retry_after m.max_retry_after
next_delay m none = min (60 * m.second) (m.retry_after_delay * 2)

-- The block under the lock in `handle_429`.
unfoldable pub throttled : Option ℕ → ℕ → ℕ → Machine → Machine
unfolding clean next_delay
throttled retry_after now cleaned_at m = clean cleaned_at (record m {
  last_429_time = now;
  error_timestamps = m.error_timestamps ++ now ∷ [];
  retry_after_delay = next_delay m retry_after;
  state = throttle;
})

unfoldable pub handle_429 : Option ℕ → ℕ → ℕ → Method NoError Machine Unit
unfolding throttled with_lock modify
handle_429 retry_after now cleaned_at = with_lock (modify (throttled retry_after now cleaned_at))

-- `now - last_429_time >= retry_after_delay`
unfoldable pub delay_over : ℕ → Machine → Bool
delay_over now m = leb (m.last_429_time + m.retry_after_delay) now

-- The tests of `handle_success` on the state.
unfoldable pub recover : ℕ → RateLimitState → Machine → Machine
unfolding delay_over
recover now throttle m =
    if delay_over now m then record m { state = normal; retry_after_delay = 0 } else m
recover now sleep_then_resume m = record m { state = normal }
recover now normal m = m
recover now cache_only m = m

-- The block under the lock in `handle_success`.
unfoldable pub succeeded : ℕ → ℕ → Machine → Machine
unfolding clean recover
succeeded now cleaned_at m =
    let m' =
      clean cleaned_at (record m { success_timestamps = m.success_timestamps ++ now ∷ [] }) in
    recover now m'.state m'

unfoldable pub handle_success : ℕ → ℕ → Method NoError Machine Unit
unfolding succeeded with_lock modify
handle_success now cleaned_at = with_lock (modify (succeeded now cleaned_at))

-- The error is recorded and the old timestamps are dropped.
unfoldable pub record_error : ℕ → ℕ → Machine → Machine
unfolding clean
record_error now cleaned_at m =
    clean cleaned_at (record m { error_timestamps = m.error_timestamps ++ now ∷ [] })

-- The call of `handle_429` under the lock takes the lock again; `at_429` and `cleaned_at_429` are
-- the readings that it would make.
unfoldable pub handle_error : ℕ → ℕ → ℕ → ℕ → ℕ → Method NoError Machine Unit
unfolding record_error should_trigger handle_429 with_lock modify gets pure ◌>>=◌ ◌>>◌
handle_error status_code now cleaned_at at_429 cleaned_at_429 = with_lock do
  modify (record_error now cleaned_at)
  tripped ← gets should_trigger
  if tripped
      then modify (λ m. record m { state = cache_only })
      else if status_code == 429
      then handle_429 none at_429 cleaned_at_429
      else pure tt

-- The answer of `should_make_request`.
unfoldable pub admits : ℕ → RateLimitState → Machine → Bool
unfolding delay_over
admits now cache_only m = false
admits now throttle m = delay_over now m
admits now normal m = true
admits now sleep_then_resume m = true

unfoldable pub should_make_request : ℕ → Method NoError Machine Bool
unfolding admits with_lock gets
should_make_request now = with_lock (gets (λ m. admits now m.state m))

-- `max(0.0, delay - (now - last))` in the state `throttle`, and 0 in the others.
unfoldable pub remaining_delay : ℕ → RateLimitState → Machine → ℕ
remaining_delay now throttle m = m.last_429_time + m.retry_after_delay - now
remaining_delay now normal m = 0
remaining_delay now sleep_then_resume m = 0
remaining_delay now cache_only m = 0

unfoldable pub get_retry_delay : ℕ → Method NoError Machine ℕ
unfolding remaining_delay with_lock gets
get_retry_delay now = with_lock (gets (λ m. remaining_delay now m.state m))

unfoldable pub reset : Method NoError Machine Unit
unfolding with_lock modify
reset = with_lock (
    modify λ m. record m {
      state = normal;
      error_timestamps = [];
      success_timestamps = [];
      last_429_time = 0;
      retry_after_delay = 0;
    })

-- The property `state`.
unfoldable pub current : Method NoError Machine RateLimitState
unfolding with_lock gets
current = with_lock (gets (λ m. m.state))

-- The timestamps of a deque that lie in the window: `ts >= now - window`.
unfoldable pub count_recent : ℕ → ℕ → List ℕ → ℕ
count_recent window now [] = 0
count_recent window now (t ∷ ts) =
    let rest = count_recent window now ts in if leb now (t + window) then suc rest else rest

-- What `get_stats` returns. The rate is given by its two counts.
pub record Stats : Type 0 where
  pub stats_state : RateLimitState
  pub recent_errors : ℕ
  pub recent_successes : ℕ
  pub retry_delay : ℕ
  pub stats_last_429_time : ℕ

unfoldable pub get_stats : ℕ → Method NoError Machine Stats
unfolding count_recent remaining_delay with_lock gets
get_stats now = with_lock (
    gets λ m. record {
      stats_state = m.state;
      recent_errors = count_recent m.time_window now m.error_timestamps;
      recent_successes = count_recent m.time_window now m.success_timestamps;
      retry_delay = remaining_delay now m.state m;
      stats_last_429_time = m.last_429_time;
    })
