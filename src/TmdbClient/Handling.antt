-- ===== src/TmdbClient/Handling.antt =====
-- The handling of one response: it always ends, and may back off.
use Prim.Native.Nat.{◌^◌}
use mathlib.Core.List.{append-nil}
use ani_vault.Base.{
  ℕ, suc, ◌*◌, ◌≡◌, refl, ap, sym, ◌∙◌, inl, inr, false, Option, [], ◌∷◌, ◌++◌, ltb, ◌==◌,
  if◌then◌else◌, Bool-cases,
}
use ani_vault.Sync.{free}
use ani_vault.TmdbClient.Returns.{
  handle_error-Returns, handle_429-Returns, get_retry_delay-Returns, handle_success-Returns,
}
use ani_vault.TmdbClient.{
  TmdbException, with_response, with_message, done, backs_off, obeys, Client, Settings, ◌>>◌, sleep,
  sleep_if_positive, on_limiter, report_error, report_429, ask_retry_delay, reset_limiter,
  process_error_response, back_off, handle_tmdb_exception, report_success,
}
use ani_vault.TmdbClient.Calm.{
  backoffs, backoffs-append, IsFree, IsCalm-refl, EndsFrom, Ends, Ends->>=, >>=-done,
  on_machine-EndsFrom, free_eta, sleep-EndsFrom,
}
use ani_vault.RateLimiter as RateLimiter
use ani_vault.RateLimiter.{Limiter, full}

module _ (settings : Settings) (clock : ℕ → ℕ) where
  report_error-Ends :
      (status_code : ℕ)
      → (status_code == 429) ≡ false
      → Ends (report_error settings clock status_code)
  unfolding Ends EndsFrom report_error
  report_error-Ends status_code other c locks =
      on_machine-EndsFrom 2 _ c (handle_error-Returns status_code _ _ _ _ other) locks

  report_429-Ends : (header : Option ℕ) → Ends (report_429 settings clock header)
  unfolding Ends EndsFrom report_429
  report_429-Ends header c locks = on_machine-EndsFrom 2 _ c (handle_429-Returns header _ _) locks

  pub ask_retry_delay-Ends : Ends (ask_retry_delay settings clock)
  unfolding Ends EndsFrom ask_retry_delay
  ask_retry_delay-Ends c locks = on_machine-EndsFrom 1 _ c (get_retry_delay-Returns _) locks

  pub sleep_if_positive-Ends : (d : ℕ) → Ends (sleep_if_positive d)
  unfolding Ends EndsFrom sleep_if_positive backoffs
  sleep_if_positive-Ends d c locks = elim (Bool-cases (ltb 0 d)) [
    | inl long ↦ rw (long, sleep_if_positive) (sleep-EndsFrom (obeys d) c refl locks)
    | inr short ↦ rw (short, sleep_if_positive) (tt, c, refl, IsCalm-refl c locks)
  ]

  reset_limiter-Ends : Ends (reset_limiter settings clock)
  unfolding Ends EndsFrom reset_limiter on_limiter RateLimiter.reset
  reset_limiter-Ends c locks = (
    tt,
    record c {
      limiter = free (record c.limiter.object {
        tokens = full c.limiter.object;
        last_refill = clock c.readings;
      });
      readings = suc c.readings;
    },
    ap (λ g. on_limiter (RateLimiter.reset (clock c.readings)) (record c { limiter = g }))
        (free_eta c.limiter locks.free_limiter),
    record {
      free_after = record { free_limiter = refl; free_machine = locks.free_machine };
      same_calls = refl;
      same_semaphore = refl;
      same_backoffs = refl;
    },
  )

  pub process_error_response-Ends :
      (e : TmdbException) → Ends (process_error_response settings clock e)
  unfolding process_error_response ◌>>◌
  process_error_response-Ends (with_message t k) = report_error-Ends 0 refl
  process_error_response-Ends (with_response status_code header) =
      elim (Bool-cases (status_code == 429)) [
        | inl limited ↦
            rw (limited, process_error_response)
              (Ends->>= _ _ (report_429-Ends header) (λ u.
                Ends->>= _ _ ask_retry_delay-Ends
                  (λ d. Ends->>= _ _ (sleep_if_positive-Ends d) (λ v. reset_limiter-Ends))))
        | inr other ↦ rw (other, process_error_response) (report_error-Ends status_code other)
      ]

  pub report_success-Ends : Ends (report_success settings clock)
  unfolding Ends EndsFrom report_success
  report_success-Ends c locks = on_machine-EndsFrom 2 _ c (handle_success-Returns _ _) locks

  -- The handler ends, and backs off unless it was the last attempt.
  pub handle_tmdb_exception-backoffs :
      (e : TmdbException) (attempt : ℕ) (c : Client)
      → IsFree c
      → (c' : Client) × (handle_tmdb_exception settings clock e attempt c ≡ (done tt, c'))
        × IsFree c'
        × (c'.calls ≡ c.calls)
        × (c'.semaphore ≡ c.semaphore)
        × (backoffs c'.slept
            ≡ backoffs c.slept
              ++ (if ltb attempt settings.retry_attempts
                  then settings.retry_delay * 2 ^ attempt ∷ []
                  else []))
  unfolding handle_tmdb_exception back_off sleep ◌>>◌ Ends EndsFrom backoffs
  handle_tmdb_exception-backoffs e attempt c locks =
      let (u, d, ended, calm) = process_error_response-Ends e c locks in
      let delay = settings.retry_delay * 2 ^ attempt in
      let goes_on =
        >>=-done (process_error_response settings clock e) (λ v. back_off settings clock attempt)
          ended in
      let free_after = calm.free_after in
      elim (Bool-cases (ltb attempt settings.retry_attempts)) [
        | inl again ↦ (
          record d { slept = d.slept ++ backs_off delay ∷ [] },
          goes_on ∙ rw (again, back_off) refl,
          record { free_limiter = free_after.free_limiter; free_machine = free_after.free_machine },
          calm.same_calls,
          calm.same_semaphore,
          rw again (
              backoffs-append d.slept (backs_off delay ∷ [])
              ∙ ap (λ r. r ++ delay ∷ []) calm.same_backoffs),
        )
        | inr over ↦ (
          d,
          goes_on ∙ rw (over, back_off) refl,
          free_after,
          calm.same_calls,
          calm.same_semaphore,
          rw over (calm.same_backoffs ∙ sym (append-nil (backoffs c.slept))),
        )
      ]
