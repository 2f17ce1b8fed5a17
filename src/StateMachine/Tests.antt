-- ===== src/StateMachine/Tests.antt =====
-- Runs of the state machine, and its theorems at concrete inputs.
use ani_vault.Base.{
  ℕ, ◌+◌, ◌-◌, ◌*◌, ◌≤◌, ◌<◌, ◌≡◌, ◌≢◌, ◌↔◌, refl, true, false, none, some, [], ◌∷◌, All, arith,
  min, leb, length,
}
use ani_vault.Sync.{returned, blocked, free}
use ani_vault.StateMachine.{
  cache_only, Machine, init, should_trigger, record_error, throttled, handle_error, handle_429,
  should_make_request, get_retry_delay, succeeded, drop_old, count_recent,
}
use ani_vault.StateMachine.Methods.{
  handle_error-outcome, handle_429-should_make_request, should_make_request-get_retry_delay,
}
use ani_vault.StateMachine.Reach.{
  Reach, here, next, report, success, too_many, HasNoHeader, IsValid, Reach-IsValid,
  no_delay_without_header, cache_only-stays,
}
use ani_vault.StateMachine.Window.{should_trigger_iff, length-drop_old}

-- Delays in milliseconds, and the defaults of the constructor.
abbrev new : Machine
new = init 1000 60 300000 300000

abbrev after_429 : Machine
after_429 = throttled none 5 6 new

after_429_reached : Reach HasNoHeader new after_429
unfolding report
after_429_reached = next (too_many none 5 6) here tt refl

after_429_reached_any : Reach (λ e. Unit) new after_429
unfolding report
after_429_reached_any = next (too_many none 5 6) here tt refl

-- Nine errors; the tenth response opens the breaker.
abbrev failing : Machine
failing = record new { error_timestamps = 1 ∷ 2 ∷ 3 ∷ 4 ∷ 5 ∷ 6 ∷ 7 ∷ 8 ∷ 9 ∷ [] }

abbrev open_breaker : Machine
open_breaker = record (record_error 10 10 failing) { state = cache_only }

breaker_opens : handle_error 500 10 10 0 0 (free failing) ≡ returned tt (free open_breaker)
unfolding handle_error
breaker_opens = refl

-- A single 429 reported as an error is enough to block the thread.
first_429_blocks : handle_error 429 10 10 10 10 (free new) ≡ blocked
unfolding handle_error
first_429_blocks = refl

handle_error-outcome_example :
    (should_trigger (record_error 10 10 new) ≡ true
      → handle_error 500 10 10 10 10 (free new)
        ≡ returned tt (free (record (record_error 10 10 new) { state = cache_only })))
    × (should_trigger (record_error 10 10 new) ≡ false
        → ◌≢◌ {A = ℕ} 500 429
        → handle_error 500 10 10 10 10 (free new) ≡ returned tt (free (record_error 10 10 new)))
    × (should_trigger (record_error 10 10 new) ≡ false
        → handle_error 429 10 10 10 10 (free new) ≡ blocked)
handle_error-outcome_example = handle_error-outcome 500 10 10 10 10 new

handle_429-should_make_request_example :
    (m : Machine) × (handle_429 (some 2000) 5 6 (free new) ≡ returned tt (free m))
    × (should_make_request 9 (free m) ≡ returned (leb (5 + min 2000 300000) 9) (free m))
    × (get_retry_delay 9 (free m) ≡ returned (5 + min 2000 300000 - 9) (free m))
handle_429-should_make_request_example = handle_429-should_make_request 2000 5 6 9 new

should_make_request-get_retry_delay_example : (true ≡ true) ↔ (◌≡◌ {A = ℕ} 0 0)
unfolding should_make_request get_retry_delay
should_make_request-get_retry_delay_example =
    should_make_request-get_retry_delay 9 new true 0 (λ e. cc) refl refl

Reach-IsValid_example : IsValid after_429
Reach-IsValid_example = Reach-IsValid 1000 60 300000 300000 after_429_reached_any

no_delay_without_header_example :
    (get_retry_delay 7 (free after_429) ≡ returned 0 (free after_429))
    × (after_429.state ≢ cache_only
        → should_make_request 7 (free after_429) ≡ returned true (free after_429))
unfolding throttled
no_delay_without_header_example =
    no_delay_without_header 1000 60 300000 300000 7 after_429_reached (omega arith)

cache_only-stays_example :
    ((succeeded 20 20 open_breaker).state ≡ cache_only)
    × (should_make_request 30 (free (succeeded 20 20 open_breaker))
        ≡ returned false (free (succeeded 20 20 open_breaker)))
unfolding report
cache_only-stays_example =
    cache_only-stays {m = open_breaker} 30 refl (next (success 20 20) here tt refl)

should_trigger_iff_example :
    (should_trigger (record_error 10 10 failing) ≡ true)
    ↔ ((0 < 10) × (10 ≤ 10 + 0) × (60 * (10 + 0) ≤ 10 * 100))
unfolding count_recent
should_trigger_iff_example =
    should_trigger_iff 10 10 failing 10 0 (omega arith) (omega arith) tt refl refl

drops_uncounted :
    (length (drop_old 5 10 (1 ∷ 7 ∷ [])) ≡ count_recent 5 10 (1 ∷ 7 ∷ []))
    × All (λ t. 10 ≤ t + 5) (drop_old 5 10 (1 ∷ 7 ∷ []))
drops_uncounted = length-drop_old 5 10 (1 ∷ 7 ∷ []) (omega arith)
