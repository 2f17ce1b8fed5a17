-- ===== src/TmdbClient.antt =====
-- How `TMDBClient` of src/anivault/infrastructure/tmdb/tmdb_client.py makes one request, over the
-- rate limiter, the semaphore manager and the state machine.
--
-- `clock` gives the readings of the clock and `respond` what the calls of the API come to, each by
-- its number since the client was made; both are parameters. A sleep is recorded with its reason and
-- its ticks. One request runs at a time: what other tasks do between its steps is not modelled.
use ani_vault.Base.{
  ℕ, zero, suc, ◌+◌, ◌*◌, Bool, true, false, ◌&&◌, Option, none, some, List, [], ◌∷◌, ◌++◌, ltb,
  leb, ◌==◌, if◌then◌else◌,
}
use Prim.Native.Nat.{◌^◌}
use ani_vault.Base.Int.{pos}
use ani_vault.Sync.{Guarded, Method, returned, raised, blocked}
use ani_vault.RateLimiter as RateLimiter
use ani_vault.RateLimiter.{Limiter, try_acquire}
use ani_vault.StateMachine.{
  NoError, Machine, RateLimitState, normal, throttle, sleep_then_resume, cache_only, handle_429,
  handle_success, handle_error, should_make_request, get_retry_delay, current,
}
use ani_vault.Semaphore.{Manager, raises, acquires, waits, async_enter, async_exit}
pub mod Waiting
pub mod Calm
pub mod Returns
pub mod Handling
pub mod Attempts
pub mod Permission
pub mod Request
pub mod Service
mod Tests

-- A `TMDbException`: with a response, its status code and the header `Retry-After`, or with a
-- message only, in which `timeout` or `connection` is found or not.
pub data TmdbException : Type 0 where
  with_response : ℕ → Option ℕ → TmdbException
  with_message : Bool → Bool → TmdbException

-- What a call of the API comes to: an answer, a `TMDbException`, or another exception.
pub data Response (A : Type 0) : Type 0 where
  answers : A → Response A
  fails : TmdbException → Response A
  breaks : Response A

pub data ErrorCode : Type 0 where
  authentication_error rate_limit_exceeded request_failed server_error timeout : ErrorCode
  connection_error media_not_found invalid_media_type : ErrorCode

-- What leaves a request: an `InfrastructureError`, an `ApplicationError` of the semaphore or of the
-- limiter, or an exception that is no `AniVaultError`.
pub data Failure : Type 0 where
  infrastructure : ErrorCode → Failure
  unavailable unexpected : Failure

-- `stuck` is a thread that waits for a lock which it holds, or a loop that has run out of fuel.
pub data Outcome (A : Type 0) : Type 0 where
  done : A → Outcome A
  failed : Failure → Outcome A
  stuck : Outcome A

pub data Sleep : Type 0 where
  polls backs_off obeys : ℕ → Sleep

pub record Client : Type 0 where
  pub limiter : Guarded Limiter
  pub semaphore : Manager
  pub machine : Guarded Machine
  pub readings : ℕ
  pub calls : ℕ
  pub slept : List Sleep

pub record Settings : Type 0 where
  pub retry_attempts : ℕ
  pub retry_delay : ℕ
  -- 0.1 seconds
  pub poll_delay : ℕ

abbrev pub Step : Type 0 → Type 0
Step A = Client → Outcome A × Client

infixl 5 ◌>>=◌ ◌>>◌
unfoldable pub ◌>>=◌ : {A B : Type 0} → Step A → (A → Step B) → Step B
◌>>=◌ m f c =
    let (o, c') = m c in
    elim o [ done a ↦ f a c' | failed e ↦ (failed e, c') | stuck ↦ (stuck, c') ]

unfoldable pub ◌>>◌ : {B : Type 0} → Step (Unit {0}) → Step B → Step B
unfolding ◌>>=◌
m >> k = m >>= λ _. k

unfoldable pub sleep : Sleep → Step (Unit {0})
sleep s c = (done tt, record c { slept = c.slept ++ s ∷ [] })

-- `if retry_delay > 0: await asyncio.sleep(retry_delay)`
unfoldable pub sleep_if_positive : ℕ → Step (Unit {0})
unfolding sleep
sleep_if_positive d c = if ltb 0 d then sleep (obeys d) c else (done tt, c)

-- A call of the state machine that makes some readings of the clock.
unfoldable pub on_machine : {A : Type 0} → ℕ → Method NoError Machine A → Step A
on_machine readings method c = elim (method c.machine) [
  | returned a g ↦ (done a, record c { machine = g; readings = c.readings + readings })
  | raised e g ↦ (failed unexpected, record c { machine = g; readings = c.readings + readings })
  | blocked ↦ (stuck, c)
]

-- A call of the rate limiter that makes one reading.
unfoldable pub on_limiter : {A : Type 0} → Method RateLimiter.Error Limiter A → Step A
on_limiter method c = elim (method c.limiter) [
  | returned a g ↦ (done a, record c { limiter = g; readings = suc c.readings })
  | raised e g ↦ (failed unavailable, record c { limiter = g; readings = suc c.readings })
  | blocked ↦ (stuck, c)
]

abbrev pub is_server_error : ℕ → Bool
is_server_error code = leb 500 code && ltb code 600

abbrev pub is_client_error : ℕ → Bool
is_client_error code = leb 400 code && ltb code 500

unfoldable pub convert_tmdb_exception : TmdbException → ErrorCode
convert_tmdb_exception (with_response status_code header) =
    if status_code == 401
    then authentication_error
    else if status_code == 403
    then authentication_error
    else if status_code == 429
    then rate_limit_exceeded
    else if is_client_error status_code
    then request_failed
    else if is_server_error status_code
    then server_error
    else request_failed
convert_tmdb_exception (with_message has_timeout has_connection) =
    if has_timeout then timeout else if has_connection then connection_error else request_failed

module _ (settings : Settings) (clock : ℕ → ℕ) where
  open settings use {retry_attempts, retry_delay, poll_delay}

  -- `is_server_error` and the other codes make the same call.
  unfoldable pub report_error : ℕ → Step (Unit {0})
  unfolding on_machine
  report_error status_code c =
      on_machine 2
        (handle_error status_code (clock c.readings) (clock (suc c.readings))
          (clock (2 + c.readings)) (clock (3 + c.readings)))
        c

  unfoldable pub report_429 : Option ℕ → Step (Unit {0})
  unfolding on_machine
  report_429 retry_after c =
      on_machine 2 (handle_429 retry_after (clock c.readings) (clock (suc c.readings))) c

  unfoldable pub ask_retry_delay : Step ℕ
  unfolding on_machine
  ask_retry_delay c = on_machine 1 (get_retry_delay (clock c.readings)) c

  unfoldable pub reset_limiter : Step (Unit {0})
  unfolding on_limiter
  reset_limiter c = on_limiter (RateLimiter.reset (clock c.readings)) c

  unfoldable pub process_error_response : TmdbException → Step (Unit {0})
  unfolding report_error report_429 ask_retry_delay reset_limiter sleep_if_positive ◌>>=◌ ◌>>◌
  process_error_response (with_response status_code header) =
      if status_code == 429
      then (do report_429 header; delay ← ask_retry_delay; sleep_if_positive delay; reset_limiter)
      else report_error status_code
  process_error_response (with_message has_timeout has_connection) = report_error 0

  -- The delay before the next attempt, if there is one.
  unfoldable pub back_off : ℕ → Step (Unit {0})
  unfolding sleep
  back_off attempt c =
      if ltb attempt retry_attempts
      then sleep (backs_off (retry_delay * 2 ^ attempt)) c
      else (done tt, c)

  unfoldable pub handle_tmdb_exception : TmdbException → ℕ → Step (Unit {0})
  unfolding process_error_response back_off ◌>>◌
  handle_tmdb_exception exception attempt = do process_error_response exception; back_off attempt

  unfoldable pub report_success : Step (Unit {0})
  unfolding on_machine
  report_success c = on_machine 2 (handle_success (clock c.readings) (clock (suc c.readings))) c

  unfoldable pub handle_retry_exhaustion : {A : Type 0} → Option TmdbException → Outcome A
  unfolding convert_tmdb_exception
  handle_retry_exhaustion (some e) = failed (infrastructure (convert_tmdb_exception e))
  handle_retry_exhaustion none = failed (infrastructure request_failed)

  module _ {A : Type 0} (respond : ℕ → Response A) where
    -- The attempts that are left, from one on.
    unfoldable pub attempts : ℕ → ℕ → Option TmdbException → Step A
    unfolding handle_tmdb_exception report_success handle_retry_exhaustion ◌>>=◌ ◌>>◌
    attempts zero attempt last c = (handle_retry_exhaustion last, c)
    attempts (suc left) attempt last c =
        let called = record c { calls = suc c.calls } in
        let next = attempts left (suc attempt) in
        elim (respond c.calls) [
          | answers a ↦ (do report_success; λ c'. (done a, c')) called
          | breaks ↦ (failed unexpected, called)
          | fails e ↦ (do handle_tmdb_exception e attempt; next (some e)) called
        ]

    unfoldable pub execute_with_retry : Step A
    unfolding attempts
    execute_with_retry = attempts (suc retry_attempts) 0 none

  -- `fuel` is the number of times that a token is asked for.
  unfoldable pub apply_rate_limiting : ℕ → Step (Unit {0})
  unfolding on_limiter sleep ◌>>=◌ ◌>>◌
  apply_rate_limiting zero c = (stuck, c)
  apply_rate_limiting (suc fuel) c =
      let again = apply_rate_limiting fuel in
      (do
        granted ← on_limiter (try_acquire (pos 1) (clock c.readings))
        (if granted then (λ c'. (done tt, c')) else (do sleep (polls poll_delay); again)))
        c

  -- A refused request, in the state that is read then.
  unfoldable pub refused : RateLimitState → Step (Unit {0})
  unfolding ask_retry_delay sleep_if_positive ◌>>=◌ ◌>>◌
  refused cache_only c = (failed (infrastructure rate_limit_exceeded), c)
  refused normal c = (do delay ← ask_retry_delay; sleep_if_positive delay) c
  refused throttle c = (do delay ← ask_retry_delay; sleep_if_positive delay) c
  refused sleep_then_resume c = (do delay ← ask_retry_delay; sleep_if_positive delay) c

  unfoldable pub check_request_permissibility : Step (Unit {0})
  unfolding on_machine refused ◌>>=◌ ◌>>◌
  check_request_permissibility c =
      (do
        permitted ← on_machine 1 (should_make_request (clock c.readings))
        (if permitted
            then (λ c'. (done tt, c'))
            else (do state ← on_machine 0 current; refused state)))
        c

  module _ {A : Type 0} (respond : ℕ → Response A) (fuel : ℕ) (slot_comes : Bool) where
    -- async with self.semaphore_manager: the slot is given back whatever the body comes to; a
    -- manager without one waits, and `slot_comes` says whether another thread gives one back in time.
    unfoldable pub with_slot : Step A → Step A
    with_slot body c = elim (async_enter c.semaphore) [
      | raises e ↦ (failed unavailable, c)
      | waits limit ↦
          let (o, c') = body c in
          if slot_comes
          then (o, record c' { semaphore = async_exit c'.semaphore })
          else (failed unavailable, c)
      | acquires m ↦
          let (o, c') = body (record c { semaphore = m }) in
          (o, record c' { semaphore = async_exit c'.semaphore })
    ]

    unfoldable pub make_request : Step A
    unfolding check_request_permissibility with_slot apply_rate_limiting execute_with_retry ◌>>◌
        ◌>>=◌
    make_request = do
      check_request_permissibility
      with_slot (do apply_rate_limiting fuel; execute_with_retry respond)
