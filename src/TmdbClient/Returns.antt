-- ===== src/TmdbClient/Returns.antt =====
-- The methods of the state machine return, as the client calls them.
use ani_vault.Base.{arith, ℕ, ◌≡◌, refl, inl, inr, false, Option, ◌==◌, Bool-cases}
use ani_vault.StateMachine.{
  cache_only, throttled, remaining_delay, succeeded, should_trigger, record_error, handle_error,
  handle_429, get_retry_delay, handle_success,
}
use ani_vault.StateMachine.Methods.{handle_error-outcome}
use ani_vault.TmdbClient.{}
use ani_vault.TmdbClient.Calm.{Returns}

-- A code other than 429 makes `handle_error` return, since it then takes its lock once only.
pub handle_error-Returns :
    (status_code now cleaned at cleaned' : ℕ)
    → (status_code == 429) ≡ false
    → Returns (handle_error status_code now cleaned at cleaned')
unfolding Returns
handle_error-Returns status_code now cleaned at cleaned' other m =
    let outcome = handle_error-outcome status_code now cleaned at cleaned' m in
    elim (Bool-cases (should_trigger (record_error now cleaned m))) [
      | inl trips ↦
          (tt, record (record_error now cleaned m) { state = cache_only }, outcome.0 trips)
      | inr stays ↦
          (tt, record_error now cleaned m, outcome.1 stays (λ e. ground (arith, e, other)))
    ]

pub handle_429-Returns :
    (header : Option ℕ) (now cleaned : ℕ) → Returns (handle_429 header now cleaned)
unfolding Returns handle_429
handle_429-Returns header now cleaned m = (tt, throttled header now cleaned m, refl)

pub get_retry_delay-Returns : (now : ℕ) → Returns (get_retry_delay now)
unfolding Returns get_retry_delay
get_retry_delay-Returns now m = (remaining_delay now m.state m, m, refl)

pub handle_success-Returns : (now cleaned : ℕ) → Returns (handle_success now cleaned)
unfolding Returns handle_success
handle_success-Returns now cleaned m = (tt, succeeded now cleaned m, refl)
