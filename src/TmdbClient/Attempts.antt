-- ===== src/TmdbClient/Attempts.antt =====
-- The retries of a request: what they come to, and how long they back off.
use Prim.Native.Nat.{◌^◌}
use mathlib.Core.List.{append_assoc, append-nil}
use ani_vault.Base.{
  arith, ℕ, zero, suc, ◌+◌, ◌*◌, ◌≤◌, ◌≡◌, ◌≢◌, refl, ap, sym, ◌∙◌, ◌⊎◌, inl, inr, true, false,
  Option, none, some, List, [], ◌∷◌, ◌++◌, ltb,
}
use ani_vault.TmdbClient.{
  TmdbException, Response, answers, fails, breaks, infrastructure, unexpected, Outcome, done,
  failed, Client, Settings, ◌>>◌, convert_tmdb_exception, handle_tmdb_exception, report_success,
  attempts, execute_with_retry,
}
use ani_vault.TmdbClient.Calm.{backoffs, IsFree, EndsFrom, Ends, >>=-done}
use ani_vault.TmdbClient.Handling.{report_success-Ends, handle_tmdb_exception-backoffs}

module _ {A : Type 0} (respond : ℕ → Response A) where
  -- How many of the next responses, `n` at most, are failures before the first that is none.
  unfoldable pub failures : ℕ → ℕ → ℕ
  failures zero k = 0
  failures (suc n) k =
      let rest = failures n (suc k) in
      elim (respond k) [ fails e ↦ suc rest | answers a ↦ 0 | breaks ↦ 0 ]

-- What a response means for the request if no attempt follows it.
unfoldable pub verdict : {A : Type 0} → Response A → Outcome A
verdict (answers a) = done a
verdict breaks = failed unexpected
verdict (fails e) = failed (infrastructure (convert_tmdb_exception e))

-- The first delays of an exponential backoff, from one attempt on.
unfoldable pub powers : ℕ → ℕ → ℕ → List ℕ
powers delay attempt zero = []
powers delay attempt (suc n) = delay * 2 ^ attempt ∷ powers delay (suc attempt) n

Response-cases :
    {A : Type 0} (r : Response A)
    → ((a : A) × (r ≡ answers a)) ⊎ (((e : TmdbException) × (r ≡ fails e)) ⊎ (r ≡ breaks))
Response-cases (answers a) = inl (a, refl)
Response-cases (fails e) = inr (inl (e, refl))
Response-cases breaks = inr (inr refl)

module _ {A : Type 0} (settings : Settings) (clock : ℕ → ℕ) (respond : ℕ → Response A) where
  open settings use {retry_attempts, retry_delay}

  -- What the attempts come to from a client: the outcome, the calls and the delays.
  record Attempted (left attempt : ℕ) (last : Option TmdbException) (c : Client) : Type 0 where
    after : Client
    ran :
        attempts settings clock respond (suc left) attempt last c
        ≡ (verdict (respond (c.calls + failures respond left c.calls)), after)
    locks_after : IsFree after
    calls_after : after.calls ≡ suc (c.calls + failures respond left c.calls)
    semaphore_after : after.semaphore ≡ c.semaphore
    backoffs_after :
        backoffs after.slept
        ≡ backoffs c.slept ++ powers retry_delay attempt (failures respond left c.calls)

  abbrev called : Client → Client
  called c = record c { calls = suc c.calls }

  attempts-answers :
      (left attempt : ℕ) (last : Option TmdbException) (c c' : Client) (a : A)
      → respond c.calls ≡ answers a
      → report_success settings clock (called c) ≡ (done tt, c')
      → attempts settings clock respond (suc left) attempt last c ≡ (done a, c')
  unfolding attempts ◌>>◌
  attempts-answers left attempt last c c' a h e =
      rw (h, attempts) (>>=-done (report_success settings clock) (λ u d. (done a, d)) e)

  attempts-fails :
      (left attempt : ℕ) (last : Option TmdbException) (c c' : Client) (x : TmdbException)
      → respond c.calls ≡ fails x
      → handle_tmdb_exception settings clock x attempt (called c) ≡ (done tt, c')
      → attempts settings clock respond (suc left) attempt last c
        ≡ attempts settings clock respond left (suc attempt) (some x) c'
  unfolding attempts ◌>>◌
  attempts-fails left attempt last c c' x h e =
      rw (h, attempts)
        (>>=-done (handle_tmdb_exception settings clock x attempt)
          (λ u. attempts settings clock respond left (suc attempt) (some x)) e)

  called-IsFree : (c : Client) → IsFree c → IsFree (called c)
  called-IsFree c locks = record {
    free_limiter = locks.free_limiter;
    free_machine = locks.free_machine;
  }

  failures_stop :
      (left k : ℕ) → ((x : TmdbException) → respond k ≢ fails x) → failures respond left k ≡ 0
  unfolding failures
  failures_stop zero k h = refl
  failures_stop (suc left) k h = elim (Response-cases (respond k)) [
    | inl (a, e) ↦ rw (e, failures) refl
    | inr (inr e) ↦ rw (e, failures) refl
    | inr (inl (x, e)) ↦ elim (h x e) [ ]
  ]

  no_more : (k : ℕ) → failures respond 0 k ≡ 0
  unfolding failures
  no_more k = refl

  failures-le : (left k : ℕ) → failures respond left k ≤ left
  unfolding failures
  failures-le zero k = omega arith
  failures-le (suc left) k = ground (arith, failures-le left (suc k))

  failures_more :
      (left k : ℕ) (x : TmdbException)
      → respond k ≡ fails x
      → failures respond (suc left) k ≡ suc (failures respond left (suc k))
  unfolding failures
  failures_more left k x e = rw (e, failures) refl

  -- The attempts that end with the next response.
  stopped :
      (left attempt : ℕ) (last : Option TmdbException) (c after : Client)
      → failures respond left c.calls ≡ 0
      → attempts settings clock respond (suc left) attempt last c
        ≡ (verdict (respond c.calls), after)
      → IsFree after
      → after.calls ≡ suc c.calls
      → after.semaphore ≡ c.semaphore
      → backoffs after.slept ≡ backoffs c.slept
      → Attempted left attempt last c
  unfolding powers
  stopped left attempt last c after none_failed ran locks calls semaphore slept = record {
    after = after;
    ran = ran ∙ ap (λ k. (verdict (respond k), after)) (omega (arith, none_failed));
    locks_after = locks;
    calls_after = omega (arith, calls, none_failed);
    semaphore_after = semaphore;
    backoffs_after =
        slept
        ∙ sym (append-nil (backoffs c.slept))
        ∙ ap (λ f. backoffs c.slept ++ powers retry_delay attempt f) (sym none_failed);
  }

  -- The next response ends the attempts, or is a failure.
  next_response :
      (left attempt : ℕ) (last : Option TmdbException) (c : Client)
      → IsFree c
      → Attempted left attempt last c ⊎ ((x : TmdbException) × (respond c.calls ≡ fails x))
  unfolding verdict Ends EndsFrom attempts
  next_response left attempt last c locks = elim (Response-cases (respond c.calls)) [
    | inl (a, e) ↦
        let (u, d, ended, calm) =
          report_success-Ends settings clock (called c) (called-IsFree c locks) in
        inl (
          stopped left attempt last c d (failures_stop left c.calls (λ x h. ground (arith, e, h)))
            (rw e (attempts-answers left attempt last c d a e ended)) calm.free_after
            calm.same_calls calm.same_semaphore calm.same_backoffs)
    | inr (inr e) ↦ inl (
        stopped left attempt last c (called c)
          (failures_stop left c.calls (λ x h. ground (arith, e, h))) (rw (e, attempts) refl)
          (called-IsFree c locks) refl refl refl)
    | inr (inl failure) ↦ inr failure
  ]

  -- The attempts that go on after a failure.
  retried :
      (left attempt : ℕ) (last : Option TmdbException) (c d : Client) (x : TmdbException)
      → respond c.calls ≡ fails x
      → handle_tmdb_exception settings clock x attempt (called c) ≡ (done tt, d)
      → d.calls ≡ suc c.calls
      → d.semaphore ≡ c.semaphore
      → backoffs d.slept ≡ backoffs c.slept ++ retry_delay * 2 ^ attempt ∷ []
      → Attempted left (suc attempt) (some x) d
      → Attempted (suc left) attempt last c
  unfolding powers
  retried left attempt last c d x e handled calls semaphore slept rest =
      let more : failures respond (suc left) c.calls ≡ suc (failures respond left d.calls) =
        failures_more left c.calls x e ∙ ap (λ k. suc (failures respond left k)) (sym calls) in
      record {
        after = rest.after;
        ran =
            attempts-fails (suc left) attempt last c d x e handled
            ∙ rest.ran
            ∙ ap (λ k. (verdict (respond k), rest.after)) (omega (arith, calls, more));
        locks_after = rest.locks_after;
        calls_after = omega (arith, rest.calls_after, calls, more);
        semaphore_after = rest.semaphore_after ∙ semaphore;
        backoffs_after =
            rest.backoffs_after
            ∙ ap (λ r. r ++ powers retry_delay (suc attempt) (failures respond left d.calls)) slept
            ∙ append_assoc (backoffs c.slept) (retry_delay * 2 ^ attempt ∷ [])
                (powers retry_delay (suc attempt) (failures respond left d.calls))
            ∙ ap (λ f. backoffs c.slept ++ powers retry_delay attempt f) (sym more);
      }

  attempts-Attempted :
      (left attempt : ℕ) (last : Option TmdbException) (c : Client)
      → IsFree c
      → attempt + left ≡ retry_attempts
      → Attempted left attempt last c
  unfolding attempts verdict
  attempts-Attempted zero attempt last c locks all =
      elim (next_response zero attempt last c locks) [
        | inl ended ↦ ended
        | inr (x, e) ↦
            let (d, handled, free_after, calls, semaphore, slept) =
              handle_tmdb_exception-backoffs settings clock x attempt (called c)
                (called-IsFree c locks) in
            let over : ltb attempt retry_attempts ≡ false = ground (arith, all) in
            stopped zero attempt last c d (no_more c.calls)
              (rw e (attempts-fails zero attempt last c d x e handled)) free_after calls semaphore
              (slept ∙ rw over (append-nil (backoffs c.slept)))
      ]
  attempts-Attempted (suc left) attempt last c locks all =
      elim (next_response (suc left) attempt last c locks) [
        | inl ended ↦ ended
        | inr (x, e) ↦
            let (d, handled, free_after, calls, semaphore, slept) =
              handle_tmdb_exception-backoffs settings clock x attempt (called c)
                (called-IsFree c locks) in
            let again : ltb attempt retry_attempts ≡ true = ground (arith, all) in
            retried left attempt last c d x e handled calls semaphore (slept ∙ rw again refl)
              (attempts-Attempted left (suc attempt) (some x) d free_after (omega (arith, all)))
      ]

  -- Of the responses to a request, the failures before the first other one are counted, but not the
  -- last attempt's: the call of `execute_with_retry` from a client whose locks are free always ends,
  -- with what the response after them means; it makes one call more than them, so at most one more
  -- than `retry_attempts`, gives every lock back, touches no slot, and backs off before each retry,
  -- for the delay doubled each time. In particular it never waits for the state machine's own lock.
  pub execute_with_retry-outcome :
      (c : Client)
      → IsFree c
      → (after : Client) × (execute_with_retry settings clock respond c
          ≡ (verdict (respond (c.calls + failures respond retry_attempts c.calls)), after))
        × IsFree after
        × (after.calls ≡ suc (c.calls + failures respond retry_attempts c.calls))
        × (failures respond retry_attempts c.calls ≤ retry_attempts)
        × (after.semaphore ≡ c.semaphore)
        × (backoffs after.slept
            ≡ backoffs c.slept ++ powers retry_delay 0 (failures respond retry_attempts c.calls))
  unfolding execute_with_retry
  execute_with_retry-outcome c locks =
      let run = attempts-Attempted retry_attempts 0 none c locks (omega arith) in
      (
        run.after,
        run.ran,
        run.locks_after,
        run.calls_after,
        failures-le retry_attempts c.calls,
        run.semaphore_after,
        run.backoffs_after,
      )
