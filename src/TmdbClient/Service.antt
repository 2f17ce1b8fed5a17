-- ===== src/TmdbClient/Service.antt =====
-- `reset` and `get_stats` of the client, and a request after a reset.
use ani_vault.Base.{arith, ℕ, suc, ◌+◌, ◌<◌, ◌≡◌, refl, ap, ◌∙◌, Bool, []}
use ani_vault.Sync.{free}
use ani_vault.StateMachine as StateMachine
use ani_vault.StateMachine.{NoError, Machine, RateLimitState, normal, cache_only}
use ani_vault.Semaphore.{get_active_count, get_available_count}
use ani_vault.RateLimiter as RateLimiter
use ani_vault.RateLimiter.{Limiter, full, get_tokens_available}
use ani_vault.TmdbClient.{
  Response, done, Client, Settings, Step, ◌>>=◌, ◌>>◌, on_machine, on_limiter, reset_limiter,
  make_request,
}
use ani_vault.TmdbClient.Calm.{IsFree, >>=-done, free_eta}
use ani_vault.TmdbClient.Attempts.{failures, verdict}
use ani_vault.TmdbClient.Request.{make_request-outcome}

pub record ClientStats : Type 0 where
  pub tokens_available : ℕ
  pub capacity_stat : ℕ
  pub refill_rate_stat : ℕ
  pub active_requests : ℕ
  pub available_slots : ℕ
  pub concurrency_limit_stat : ℕ
  pub machine_stats : StateMachine.Stats

module _ (settings : Settings) (clock : ℕ → ℕ) where
  unfoldable pub get_stats : Step ClientStats
  unfolding on_limiter on_machine ◌>>=◌
  get_stats c =
      (do
        tokens ← on_limiter (get_tokens_available (clock c.readings))
        λ c'.
            ((do
              stats ← on_machine 1 (StateMachine.get_stats (clock c'.readings))
              λ c''. (
                done (record {
                  tokens_available = tokens;
                  capacity_stat = c'.limiter.object.capacity;
                  refill_rate_stat = c'.limiter.object.refill_rate;
                  active_requests = get_active_count c'.semaphore;
                  available_slots = get_available_count c'.semaphore;
                  concurrency_limit_stat = c'.semaphore.concurrency_limit;
                  machine_stats = stats;
                }),
                c'',
              ))
              c'))
        c

  unfoldable pub reset : Step (Unit {0})
  unfolding reset_limiter on_machine ◌>>◌
  reset = do reset_limiter settings clock; on_machine 0 StateMachine.reset

  -- The client after a reset.
  after_reset : Client → Client
  after_reset c = record c {
    limiter = free (record (c.limiter.object) {
      tokens = full c.limiter.object;
      last_refill = clock c.readings;
    });
    machine = free (record (c.machine.object) {
      state = normal;
      error_timestamps = [];
      success_timestamps = [];
      last_429_time = 0;
      retry_after_delay = 0;
    });
    readings = suc c.readings;
  }

  no_more : (n : ℕ) → n + 0 ≡ n
  no_more n = omega arith

  reset-after : (c : Client) → IsFree c → reset c ≡ (done tt, after_reset c)
  unfolding reset after_reset reset_limiter on_limiter on_machine RateLimiter.reset
      StateMachine.reset ◌>>◌ ◌>>=◌
  reset-after c locks =
      ap (λ g. reset (record c { limiter = g })) (free_eta c.limiter locks.free_limiter)
      ∙ ap (λ g. reset (record c { limiter = free c.limiter.object; machine = g }))
          (free_eta c.machine locks.free_machine)
      ∙ ap (λ n. (done tt, record (after_reset c) { readings = n })) (no_more (suc c.readings))

  -- After a reset of a client whose locks are free and which has a slot, whatever the state of its
  -- breaker and of its bucket, a request ends with what the response after the leading failures
  -- means, though a token is asked for only once: there is one. The slot is given back. Here the
  -- clock grows and the bucket earns and holds tokens.
  pub reset-make_request :
      {A : Type 0} (respond : ℕ → Response A) (slot_comes : Bool)
      → ((n : ℕ) → clock n < clock (suc n))
      → (c : Client) → IsFree c
      → 0 < c.semaphore.value
      → 0 < c.limiter.object.refill_rate
      → 0 < c.limiter.object.capacity
      → (after : Client) × ((reset >> make_request settings clock respond 1 slot_comes) c
          ≡ (verdict (respond (c.calls + failures respond settings.retry_attempts c.calls)), after))
        × IsFree after
        × (after.calls ≡ suc (c.calls + failures respond settings.retry_attempts c.calls))
        × (after.semaphore ≡ c.semaphore)
  unfolding after_reset ◌>>◌
  reset-make_request respond slot_comes ticks c locks slots earning holding =
      let (after, ran, free_after, calls, slots_after) =
        make_request-outcome settings clock respond 0 slot_comes ticks (after_reset c)
          (record { free_limiter = refl; free_machine = refl }) (λ e. grind (arith, e)) slots
          (record {
            rate_positive = earning;
            capacity_positive = holding;
            valid = record { bounded = omega arith };
            refilled_before = ticks c.readings;
          })
          (grind (arith, holding)) in
      (
        after,
        >>=-done reset (λ u. make_request settings clock respond 1 slot_comes) (reset-after c locks)
            ∙ ran,
        free_after,
        calls,
        slots_after,
      )
