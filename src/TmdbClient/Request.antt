-- ===== src/TmdbClient/Request.antt =====
-- A whole request: refused by an open breaker, or run with a slot that is given back.
use ani_vault.Base.{arith, ℕ, zero, suc, ◌+◌, ◌-◌, ◌≤◌, ◌<◌, ◌≡◌, ◌≢◌, refl, ap, sym, ◌∙◌, Bool}
use mathlib.Core.Path.{subst}
use ani_vault.StateMachine.{cache_only}
use ani_vault.Semaphore.{
  Manager, acquires, acquire, semaphore_acquire, async_enter, async_exit, release,
}
use ani_vault.RateLimiter.{Limiter}
use ani_vault.TmdbClient.{
  Response, infrastructure, rate_limit_exceeded, Outcome, done, failed, stuck, Client, Settings,
  Step, ◌>>=◌, ◌>>◌, check_request_permissibility, with_slot, apply_rate_limiting,
  execute_with_retry, make_request,
}
use ani_vault.TmdbClient.Calm.{free_eta, IsFree, EndsFrom, >>=-done}
use ani_vault.TmdbClient.Permission.{asked, check-closed, check-open}
use ani_vault.TmdbClient.Waiting.{Earns, apply_rate_limiting-Ends}
use ani_vault.TmdbClient.Attempts.{failures, verdict, execute_with_retry-outcome}

clock_grows :
    (clock : ℕ → ℕ) → ((n : ℕ) → clock n < clock (suc n)) → (n k : ℕ) → clock n ≤ clock (k + n)
clock_grows clock ticks n zero =
    let same : n ≡ 0 + n = omega arith in
    let here : clock n ≤ clock n = omega arith in subst (λ x. clock n ≤ clock x) same here
clock_grows clock ticks n (suc k) =
    let later : clock n ≤ clock (suc (k + n)) =
      omega (arith, ticks (k + n), clock_grows clock ticks n k) in
    let next : suc (k + n) ≡ suc k + n = omega arith in subst (λ x. clock n ≤ clock x) next later

clock_mono :
    (clock : ℕ → ℕ) → ((n : ℕ) → clock n < clock (suc n)) → (n m : ℕ) → n ≤ m → clock n ≤ clock m
clock_mono clock ticks n m h =
    let split : (m - n) + n ≡ m = omega (arith, h) in
    subst (λ x. clock n ≤ clock x) split (clock_grows clock ticks n (m - n))

Earns-later : (l : Limiter) (now later : ℕ) → Earns l now → now ≤ later → Earns l later
Earns-later l now later earns h = record {
  rate_positive = earns.rate_positive;
  capacity_positive = earns.capacity_positive;
  valid = earns.valid;
  refilled_before = omega (arith, earns.refilled_before, h);
}

-- A slot that is there is taken at once.
async_enter-acquires :
    (m : Manager) → 0 < m.value → async_enter m ≡ acquires (record m { value = m.value - 1 })
unfolding async_enter acquire semaphore_acquire
async_enter-acquires m h = ground (arith, h)

module _ (settings : Settings) (clock : ℕ → ℕ) where
  module _ {A : Type 0} (respond : ℕ → Response A) (fuel : ℕ) (slot_comes : Bool)
      (ticks : (n : ℕ) → clock n < clock (suc n)) where
    open settings use {retry_attempts}

    -- The body of the request, once it has its slot.
    body-outcome :
        (c : Client)
        → IsFree c
        → Earns c.limiter.object (clock c.readings)
        → c.limiter.object.unit ≤ c.limiter.object.tokens + suc fuel
        → (after : Client) × ((apply_rate_limiting settings clock (suc fuel)
                >> execute_with_retry settings clock respond)
              c
            ≡ (verdict (respond (c.calls + failures respond retry_attempts c.calls)), after))
          × IsFree after
          × (after.calls ≡ suc (c.calls + failures respond retry_attempts c.calls))
          × (after.semaphore ≡ c.semaphore)
    unfolding EndsFrom ◌>>◌
    body-outcome c locks earns enough =
        let (u, d, ended, calm) =
          apply_rate_limiting-Ends settings clock ticks fuel c locks earns enough in
        let (after, ran, free_after, calls, bound, slots, slept) =
          execute_with_retry-outcome settings clock respond d calm.free_after in
        (
          after,
          >>=-done (apply_rate_limiting settings clock (suc fuel))
                (λ v. execute_with_retry settings clock respond) ended
              ∙ ran
              ∙ ap (λ k. (verdict (respond (k + failures respond retry_attempts k)), after))
                  calm.same_calls,
          free_after,
          calls ∙ ap (λ k. suc (k + failures respond retry_attempts k)) calm.same_calls,
          slots ∙ calm.same_semaphore,
        )

    taken : Client → Client
    taken c = record c { semaphore = record c.semaphore { value = c.semaphore.value - 1 } }

    given_back : Client → Client
    given_back c = record c { semaphore = async_exit c.semaphore }

    with_slot-taken :
        (steps : ℕ) (body : Step A) (c after : Client) (o : Outcome A)
        → 0 < c.semaphore.value
        → body (taken c) ≡ (o, after)
        → with_slot settings clock respond steps slot_comes body c ≡ (o, given_back after)
    unfolding with_slot taken given_back
    with_slot-taken steps body c after o slots ran =
        rw (async_enter-acquires c.semaphore slots, with_slot) (ap (λ q. (q.0, given_back q.1)) ran)

    returned-slot :
        (m n : Manager) → 0 < m.value → n ≡ record m { value = m.value - 1 } → async_exit n ≡ m
    unfolding async_exit release
    returned-slot m n slots e =
        let back : suc (m.value - 1) ≡ m.value = omega (arith, slots) in
        ap async_exit e ∙ ap (λ v. record m { value = v }) back

    -- A request from a client whose locks are free, whose breaker is not open, which has a slot and
    -- whose bucket earns a unit at every tick of a growing clock, with a fuel above the units that
    -- are missing for a token: it ends with what the response after the leading failures means; the
    -- slot is given back whatever that is, and the locks are free again.
    pub make_request-outcome :
        (c : Client)
        → IsFree c
        → c.machine.object.state ≢ cache_only
        → 0 < c.semaphore.value
        → Earns c.limiter.object (clock c.readings)
        → c.limiter.object.unit ≤ c.limiter.object.tokens + suc fuel
        → (after : Client) × (make_request settings clock respond (suc fuel) slot_comes c
            ≡ (verdict (respond (c.calls + failures respond retry_attempts c.calls)), after))
          × IsFree after
          × (after.calls ≡ suc (c.calls + failures respond retry_attempts c.calls))
          × (after.semaphore ≡ c.semaphore)
    unfolding make_request taken given_back ◌>>◌
    make_request-outcome c locks closed slots earns enough =
        let (d, checked, calm, limiter, read) = check-closed settings clock c locks closed in
        let free_after = calm.free_after in
        let body : Step A =
          apply_rate_limiting settings clock (suc fuel)
          >> execute_with_retry settings clock respond in
        let slots' : 0 < d.semaphore.value =
          subst (λ m. 0 < m.value) (sym calm.same_semaphore) slots in
        let earns' : Earns d.limiter.object (clock d.readings) =
          subst (λ l. Earns l.object (clock d.readings)) (sym limiter)
            (Earns-later c.limiter.object (clock c.readings) (clock d.readings) earns
              (clock_mono clock ticks c.readings d.readings (omega (arith, read)))) in
        let enough' : d.limiter.object.unit ≤ d.limiter.object.tokens + suc fuel =
          subst (λ l. l.object.unit ≤ l.object.tokens + suc fuel) (sym limiter) enough in
        let (after, ran, locks', calls, semaphore) =
          body-outcome (taken d)
            (record {
              free_limiter = free_after.free_limiter;
              free_machine = free_after.free_machine;
            })
            earns' enough' in
        (
          given_back after,
          >>=-done (check_request_permissibility settings clock)
                (λ u. with_slot settings clock respond (suc fuel) slot_comes body) checked
              ∙ with_slot-taken (suc fuel) body d after _ slots' ran
              ∙ ap
                  (λ k.
                    (verdict (respond (k + failures respond retry_attempts k)), given_back after))
                  calm.same_calls,
          record { free_limiter = locks'.free_limiter; free_machine = locks'.free_machine },
          calls ∙ ap (λ k. suc (k + failures respond retry_attempts k)) calm.same_calls,
          returned-slot d.semaphore after.semaphore slots' semaphore ∙ calm.same_semaphore,
        )

  module _ {A : Type 0} (respond : ℕ → Response A) (fuel : ℕ) (slot_comes : Bool) where
    -- With the breaker open a request fails as rate limited, without a call of the API, a sleep, a
    -- token or a slot, and leaves the state machine as it was.
    pub make_request-cache_only :
        (c : Client)
        → IsFree c
        → c.machine.object.state ≡ cache_only
        → (after : Client) × (make_request settings clock respond fuel slot_comes c
            ≡ (failed (infrastructure rate_limit_exceeded), after))
          × (after.limiter ≡ c.limiter)
          × (after.semaphore ≡ c.semaphore)
          × (after.calls ≡ c.calls)
          × (after.slept ≡ c.slept)
          × (after.machine ≡ c.machine)
    unfolding make_request asked ◌>>◌ ◌>>=◌
    make_request-cache_only c locks open_ = (
      asked settings clock 0 (asked settings clock 1 c),
      ap
          (λ q. elim (q.0) [
            | done u ↦
                with_slot settings clock respond fuel slot_comes
                  (apply_rate_limiting settings clock fuel
                    >> execute_with_retry settings clock respond)
                  q.1
            | failed x ↦ (failed x, q.1)
            | stuck ↦ (stuck, q.1)
          ])
          (check-open settings clock c locks open_),
      refl,
      refl,
      refl,
      refl,
      sym (free_eta c.machine locks.free_machine),
    )
