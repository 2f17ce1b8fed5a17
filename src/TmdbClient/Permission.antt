-- ===== src/TmdbClient/Permission.antt =====
-- The check before a request: it ends calmly unless the breaker is open, and spares the limiter.
use ani_vault.Base.{
  arith, ℕ, ◌+◌, ◌≤◌, ◌<◌, ◌≡◌, ◌≢◌, refl, ap, sym, ◌∙◌, ◌⊎◌, inl, inr, Bool, true, false,
  if◌then◌else◌,
}
use ani_vault.Sync.{Method, returned, free}
use ani_vault.StateMachine.{
  NoError, Machine, RateLimitState, normal, throttle, sleep_then_resume, cache_only, admits,
  should_make_request, get_retry_delay, current,
}
use ani_vault.TmdbClient.{
  Failure, infrastructure, rate_limit_exceeded, Outcome, done, failed, stuck, Client, Settings,
  Step, ◌>>=◌, ◌>>◌, sleep, sleep_if_positive, on_machine, ask_retry_delay, refused,
  check_request_permissibility,
}
use ani_vault.TmdbClient.Calm.{
  IsFree, IsCalm, IsCalm-refl, IsCalm-trans, EndsFrom, Ends, Ends->>=, >>=-done, free_eta,
}
use ani_vault.TmdbClient.Handling.{ask_retry_delay-Ends, sleep_if_positive-Ends}

-- A step that leaves the rate limiter alone, and only makes readings.
record Spares {A : Type 0} (q : Outcome A × Client) (c : Client) : Type 0 where
  same_limiter : q.1.limiter ≡ c.limiter
  readings_grow : c.readings ≤ q.1.readings

on_machine-Spares :
    {A : Type 0} (n : ℕ) (method : Method NoError Machine A) (c : Client)
    → Spares (on_machine n method c) c
unfolding on_machine
on_machine-Spares n method c = ground arith

Outcome-cases :
    {A : Type 0} (o : Outcome A)
    → ((a : A) × (o ≡ done a)) ⊎ (((x : Failure) × (o ≡ failed x)) ⊎ (o ≡ stuck))
Outcome-cases (done a) = inl (a, refl)
Outcome-cases (failed x) = inr (inl (x, refl))
Outcome-cases stuck = inr (inr refl)

>>=-Spares :
    {A B : Type 0} (m : Step A) (f : A → Step B) (c : Client)
    → Spares (m c) c
    → ((a : A) (d : Client) → Spares (f a d) d)
    → Spares ((m >>= f) c) c
unfolding ◌>>=◌
>>=-Spares m f c h k = elim (Outcome-cases (m c).0) [
  | inl (a, e) ↦
      let later = k a (m c).1 in
      let goes_on = >>=-done m f (ap (λ o. (o, (m c).1)) e) in
      record {
        same_limiter = rw goes_on (later.same_limiter ∙ h.same_limiter);
        readings_grow = rw goes_on (omega (arith, later.readings_grow, h.readings_grow));
      }
  | inr (inl (x, e)) ↦ record {
    same_limiter = rw (e, ◌>>=◌) (h.same_limiter);
    readings_grow = rw (e, ◌>>=◌) (h.readings_grow);
  }
  | inr (inr e) ↦ record {
    same_limiter = rw (e, ◌>>=◌) (h.same_limiter);
    readings_grow = rw (e, ◌>>=◌) (h.readings_grow);
  }
]

module _ (settings : Settings) (clock : ℕ → ℕ) where
  refused-Ends : (state : RateLimitState) → state ≢ cache_only → Ends (refused settings clock state)
  unfolding refused ◌>>◌
  refused-Ends normal h =
      Ends->>= _ _ (ask_retry_delay-Ends settings clock) (sleep_if_positive-Ends settings clock)
  refused-Ends throttle h =
      Ends->>= _ _ (ask_retry_delay-Ends settings clock) (sleep_if_positive-Ends settings clock)
  refused-Ends sleep_then_resume h =
      Ends->>= _ _ (ask_retry_delay-Ends settings clock) (sleep_if_positive-Ends settings clock)
  refused-Ends cache_only h = elim (h refl) [ ]

  delayed-Spares :
      (c : Client) → Spares ((ask_retry_delay settings clock >>= sleep_if_positive) c) c
  unfolding ask_retry_delay sleep_if_positive sleep
  delayed-Spares c =
      >>=-Spares (ask_retry_delay settings clock) sleep_if_positive c
        (on_machine-Spares 1 (get_retry_delay (clock c.readings)) c) (λ a d. ground arith)

  refused-Spares : (state : RateLimitState) (c : Client) → Spares (refused settings clock state c) c
  unfolding refused
  refused-Spares normal c = delayed-Spares c
  refused-Spares throttle c = delayed-Spares c
  refused-Spares sleep_then_resume c = delayed-Spares c
  refused-Spares cache_only c = record { same_limiter = refl; readings_grow = omega arith }

  -- The client after questions to the machine.
  unfoldable pub asked : ℕ → Client → Client
  asked n c = record c { machine = free c.machine.object; readings = c.readings + n }

  on_machine-asked :
      {A : Type 0} (n : ℕ) (method : Method NoError Machine A) (c : Client) (a : A)
      → IsFree c
      → method (free c.machine.object) ≡ returned a (free c.machine.object)
      → on_machine n method c ≡ (done a, asked n c)
  unfolding on_machine asked
  on_machine-asked n method c a locks e =
      let returns = ap method (free_eta c.machine locks.free_machine) ∙ e in
      rw (on_machine, returns) refl

  asked-IsFree : (n : ℕ) (c : Client) → IsFree c → IsCalm c (asked n c)
  unfolding asked
  asked-IsFree n c locks = record {
    free_after = record { free_limiter = locks.free_limiter; free_machine = refl };
    same_calls = refl;
    same_semaphore = refl;
    same_backoffs = refl;
  }

  permitted : Bool → Step (Unit {0})
  permitted b =
      if b then (λ c'. (done tt, c')) else (on_machine 0 current >>= refused settings clock)

  check-permitted :
      (c : Client)
      → IsFree c
      → check_request_permissibility settings clock c
        ≡ permitted (admits (clock c.readings) c.machine.object.state c.machine.object) (asked 1 c)
  unfolding check_request_permissibility permitted should_make_request
  check-permitted c locks =
      >>=-done (on_machine 1 (should_make_request (clock c.readings))) permitted
        (on_machine-asked 1 (should_make_request (clock c.readings)) c _ locks refl)

  permitted_no :
      (c : Client)
      → IsFree c
      → permitted false c ≡ refused settings clock c.machine.object.state (asked 0 c)
  unfolding permitted current
  permitted_no c locks =
      >>=-done (on_machine 0 current) (refused settings clock)
        (on_machine-asked 0 current c _ locks refl)

  -- The check before a request whose breaker is closed: it ends calmly and spares the limiter.
  permitted-EndsFrom :
      (b : Bool) (c : Client)
      → IsFree c
      → c.machine.object.state ≢ cache_only
      → EndsFrom (permitted b) c × Spares (permitted b c) c
  unfolding Ends EndsFrom permitted
  permitted-EndsFrom true c locks closed = (
    (tt, c, refl, IsCalm-refl c locks),
    record { same_limiter = refl; readings_grow = omega arith },
  )
  permitted-EndsFrom false c locks closed =
      let calm = asked-IsFree 0 c locks in
      let (u, d, ended, calm') =
        refused-Ends c.machine.object.state closed (asked 0 c) calm.free_after in
      (
        (u, d, permitted_no c locks ∙ ended, IsCalm-trans c (asked 0 c) d calm calm'),
        >>=-Spares (on_machine 0 current) (refused settings clock) c (on_machine-Spares 0 current c)
            refused-Spares,
      )

  -- What the check comes to in the two cases.
  pub check-closed :
      (c : Client)
      → IsFree c
      → c.machine.object.state ≢ cache_only
      → (d : Client) × (check_request_permissibility settings clock c ≡ (done tt, d))
        × IsCalm c d
        × (d.limiter ≡ c.limiter)
        × (c.readings < d.readings)
  unfolding EndsFrom asked
  check-closed c locks closed =
      let calm = asked-IsFree 1 c locks in
      let b = admits (clock c.readings) c.machine.object.state c.machine.object in
      let ((u, d, ended, calm'), spares) =
        permitted-EndsFrom b (asked 1 c) calm.free_after closed in
      (
        d,
        check-permitted c locks ∙ ended,
        IsCalm-trans c (asked 1 c) d calm calm',
        sym (ap (λ q. q.1.limiter) ended) ∙ spares.same_limiter,
        omega (arith, spares.readings_grow, ap (λ q. q.1.readings) ended),
      )

  -- With the breaker open the request is refused, and nothing is asked of the limiter.
  pub check-open :
      (c : Client)
      → IsFree c
      → c.machine.object.state ≡ cache_only
      → check_request_permissibility settings clock c
        ≡ (failed (infrastructure rate_limit_exceeded), asked 0 (asked 1 c))
  unfolding refused admits asked
  check-open c locks open_ =
      let no : admits (clock c.readings) c.machine.object.state c.machine.object ≡ false =
        ap (λ s. admits (clock c.readings) s c.machine.object) open_ in
      let locks' = (asked-IsFree 1 c locks).free_after in
      check-permitted c locks
      ∙ ap (λ b. permitted b (asked 1 c)) no
      ∙ permitted_no (asked 1 c) locks'
      ∙ ap (λ s. refused settings clock s (asked 0 (asked 1 c))) open_
