-- ===== src/Semaphore.antt =====
-- `SemaphoreManager` of src/anivault/infrastructure/semaphore_manager.py, over `threading.Semaphore`.
--
-- A `threading.Semaphore` is its counter: `acquire` takes one if it is positive, and else waits;
-- `release` gives one back, with no bound. Times are clock ticks, `second` of them to a second.
-- What a thread does while it waits is in `Threads`.
pub mod Threads
pub mod Safety
mod Tests
use ani_vault.Base.{
  ℕ, suc, ◌+◌, ◌-◌, ◌*◌, Bool, true, false, Option, none, some, ltb, if◌then◌else◌,
}
use ani_vault.Base.Int.{ℤ, pos, pos_part, leb_ℤ, ltb_ℤ}

pub data Error : Type 0 where
  validation_error resource_unavailable : Error

pub record Manager : Type 0 where
  pub second : ℕ
  pub concurrency_limit : ℕ
  -- `_semaphore._value`
  pub value : ℕ

pub data Built : Type 0 where
  built : Manager → Built
  refused : Error → Built

-- __init__
unfoldable pub init : ℕ → ℤ → Built
init second concurrency_limit =
    if leb_ℤ concurrency_limit (pos 0)
    then refused validation_error
    else built (record {
      second = second;
      concurrency_limit = pos_part concurrency_limit;
      value = pos_part concurrency_limit;
    })

-- What a call of `acquire` comes to at once: it raises, it takes one, or it waits, for ever or
-- until the timeout.
pub data Attempt : Type 0 where
  raises : Error → Attempt
  acquires : Manager → Attempt
  waits : Option ℕ → Attempt

-- `self._semaphore.acquire(timeout=timeout)`
unfoldable pub semaphore_acquire : Option ℕ → Manager → Attempt
semaphore_acquire timeout m =
    if ltb 0 m.value then acquires (record m { value = m.value - 1 }) else waits timeout

unfoldable pub acquire : Option ℤ → Manager → Attempt
unfolding semaphore_acquire
acquire none m = semaphore_acquire none m
acquire (some timeout) m =
    if ltb_ℤ timeout (pos 0)
    then raises validation_error
    else semaphore_acquire (some (pos_part timeout)) m

unfoldable pub release : Manager → Manager
release m = record m { value = suc m.value }

-- __enter__, with the default timeout of 30 seconds
unfoldable pub enter : Manager → Attempt
unfolding acquire
enter m = acquire (some (pos (30 * m.second))) m

-- What `__enter__` does with the answer of `acquire`: `False`, after a timeout, is raised.
unfoldable pub entered : Bool → Option Error
entered true = none
entered false = some resource_unavailable

-- __exit__
unfoldable pub exit : Manager → Manager
unfolding release
exit m = release m

-- __aenter__: the same calls, so it blocks the event loop while it waits
unfoldable pub async_enter : Manager → Attempt
unfolding acquire
async_enter m = acquire (some (pos (30 * m.second))) m

-- __aexit__
unfoldable pub async_exit : Manager → Manager
unfolding release
async_exit m = release m

unfoldable pub get_available_count : Manager → ℕ
get_available_count m = m.value

-- max(0, active)
unfoldable pub get_active_count : Manager → ℕ
unfolding get_available_count
get_active_count m = m.concurrency_limit - get_available_count m
