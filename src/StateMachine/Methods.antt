-- ===== src/StateMachine/Methods.antt =====
-- What the methods of the state machine do when their lock is free.
use ani_vault.Base.{ℕ, ◌+◌, ◌-◌, min, ◌≡◌, ◌≢◌, ◌↔◌, refl, Bool, true, false, some, arith, leb}
use ani_vault.Sync.{returned, blocked, free}
use ani_vault.StateMachine.{
  cache_only, Machine, should_trigger, throttled, handle_429, record_error, handle_error,
  should_make_request, get_retry_delay,
}

-- `handle_error` on a free lock: an error that opens the breaker, and one with another code than
-- 429, is recorded and gives the lock back; a 429 that does not open the breaker never returns,
-- since `handle_429` asks for the lock that its caller holds.
pub handle_error-outcome :
    (code now cleaned at cleaned' : ℕ) (m : Machine)
    → (should_trigger (record_error now cleaned m) ≡ true
        → handle_error code now cleaned at cleaned' (free m)
          ≡ returned tt (free (record (record_error now cleaned m) { state = cache_only })))
      × (should_trigger (record_error now cleaned m) ≡ false
          → code ≢ 429
          → handle_error code now cleaned at cleaned' (free m)
            ≡ returned tt (free (record_error now cleaned m)))
      × (should_trigger (record_error now cleaned m) ≡ false
          → handle_error 429 now cleaned at cleaned' (free m) ≡ blocked)
unfolding handle_error
handle_error-outcome code now cleaned at cleaned' m =
    (λ p. ground arith, λ p q. ground arith, λ p. ground arith)

-- After a 429 at `now` with the header `r`, requests are refused exactly until the header's delay,
-- cut at the maximum, is over; the recommended delay is what is left of it.
pub handle_429-should_make_request :
    (r now cleaned later : ℕ) (m : Machine)
    → (m' : Machine) × (handle_429 (some r) now cleaned (free m) ≡ returned tt (free m'))
      × (should_make_request later (free m')
          ≡ returned (leb (now + min r m.max_retry_after) later) (free m'))
      × (get_retry_delay later (free m')
          ≡ returned (now + min r m.max_retry_after - later) (free m'))
unfolding handle_429 should_make_request get_retry_delay
handle_429-should_make_request r now cleaned later m =
    (throttled (some r) now cleaned m, refl, refl, refl)

-- Outside the state `cache_only` a request is allowed exactly when the recommended delay is 0.
pub should_make_request-get_retry_delay :
    (now : ℕ) (m : Machine) (b : Bool) (d : ℕ)
    → m.state ≢ cache_only
    → should_make_request now (free m) ≡ returned b (free m)
    → get_retry_delay now (free m) ≡ returned d (free m)
    → (b ≡ true) ↔ (d ≡ 0)
unfolding should_make_request get_retry_delay
should_make_request-get_retry_delay now m b d h p q = ground arith
