-- ===== src/TmdbClient/Waiting.antt =====
-- The wait for a token of the rate limiter ends.
use ani_vault.Base.{
  arith, ℕ, zero, suc, ◌+◌, ◌-◌, ◌*◌, ◌≤◌, ◌<◌, ◌≡◌, refl, ap, ◌∙◌, ◌⊎◌, inl, inr, Bool, true,
  false, [], ◌∷◌, ◌++◌, leb, if◌then◌else◌, Bool-cases,
}
use ani_vault.Base.Int.{pos}
use ani_vault.Sync.{returned, free}
use ani_vault.RateLimiter.{Limiter, full, refill, try_acquire}
use ani_vault.RateLimiter.Methods.{IsValid, try_acquire-decided, refill-IsValid}
use ani_vault.TmdbClient.{
  done, polls, Client, Settings, ◌>>◌, sleep, on_limiter, apply_rate_limiting,
}
use ani_vault.TmdbClient.Calm.{
  backoffs, IsFree, IsCalm, IsCalm-trans, EndsFrom, >>=-done, free_eta, slept-IsCalm,
}

-- The bucket earns a unit at least at every tick, can hold a token, and was last refilled before
-- the reading.
pub record Earns (l : Limiter) (now : ℕ) : Type 0 where
  pub rate_positive : 0 < l.refill_rate
  pub capacity_positive : 0 < l.capacity
  pub valid : IsValid l
  pub refilled_before : l.last_refill < now

full-positive : (l : Limiter) → 0 < l.capacity → l.unit ≤ full l
full-positive l h = grind (arith, h)

earned-positive : (a b r : ℕ) → a < b → 0 < r → 0 < (b - a) * r
earned-positive a b r h k = grind arith

-- A bucket that cannot pay once it is refilled has earned a unit at least.
record Earned (l l' : Limiter) (later : ℕ) : Type 0 where
  more : l.tokens < l'.tokens
  same_unit : l'.unit ≡ l.unit
  earns : Earns l' later

refill-Earned :
    (l : Limiter) (now later : ℕ)
    → Earns l now
    → now < later
    → (refill now l).tokens < l.unit
    → Earned l (refill now l) later
unfolding refill
refill-Earned l now later h ticks poor = ground (
  arith,
  h,
  ticks,
  poor,
  full-positive l h.capacity_positive,
  refill-IsValid now h.valid,
  earned-positive l.last_refill now l.refill_rate h.refilled_before h.rate_positive,
)

refill-unit : (now : ℕ) (l : Limiter) → (refill now l).unit ≡ l.unit
unfolding refill
refill-unit now l = ground arith

too_poor :
    {unit tokens unit' tokens' : ℕ}
    → unit ≤ tokens + 1
    → tokens < tokens'
    → unit' ≡ unit
    → tokens' < unit'
    → ⊥
too_poor enough more same poor = omega (arith, enough, more, same, poor)

module _ (settings : Settings) (clock : ℕ → ℕ) (ticks : (n : ℕ) → clock n < clock (suc n)) where
  -- The client after a token was asked for.
  asked : Client → Limiter → Client
  asked c l = record c { limiter = free l; readings = suc c.readings }

  asked-IsCalm : (c : Client) (l : Limiter) → IsFree c → IsCalm c (asked c l)
  unfolding asked
  asked-IsCalm c l locks = record {
    free_after = record { free_limiter = refl; free_machine = locks.free_machine };
    same_calls = refl;
    same_semaphore = refl;
    same_backoffs = refl;
  }

  on_limiter-asked :
      (c : Client) (l : Limiter) (granted : Bool)
      → IsFree c
      → try_acquire (pos 1) (clock c.readings) (free c.limiter.object) ≡ returned granted (free l)
      → on_limiter (try_acquire (pos 1) (clock c.readings)) c ≡ (done granted, asked c l)
  unfolding on_limiter asked
  on_limiter-asked c l granted locks e =
      let returns =
        ap (try_acquire (pos 1) (clock c.readings)) (free_eta c.limiter locks.free_limiter) ∙ e in
      rw (on_limiter, returns) refl

  token_granted :
      (fuel : ℕ) (c d : Client)
      → on_limiter (try_acquire (pos 1) (clock c.readings)) c ≡ (done true, d)
      → apply_rate_limiting settings clock (suc fuel) c ≡ (done tt, d)
  unfolding apply_rate_limiting
  token_granted fuel c d e =
      >>=-done (on_limiter (try_acquire (pos 1) (clock c.readings)))
        (λ granted.
          if granted
          then (λ c'. (done tt, c'))
          else (sleep (polls settings.poll_delay) >> apply_rate_limiting settings clock fuel))
        e

  polled : Client → Client
  polled d = record d { slept = d.slept ++ polls settings.poll_delay ∷ [] }

  token_refused :
      (fuel : ℕ) (c d : Client)
      → on_limiter (try_acquire (pos 1) (clock c.readings)) c ≡ (done false, d)
      → apply_rate_limiting settings clock (suc fuel) c
        ≡ apply_rate_limiting settings clock fuel (polled d)
  unfolding apply_rate_limiting ◌>>◌ sleep polled
  token_refused fuel c d e =
      >>=-done (on_limiter (try_acquire (pos 1) (clock c.readings)))
        (λ granted.
          if granted
          then (λ c'. (done tt, c'))
          else (sleep (polls settings.poll_delay) >> apply_rate_limiting settings clock fuel))
        e

  polled-IsCalm : (c d : Client) → IsCalm c d → IsCalm c (polled d)
  unfolding polled backoffs
  polled-IsCalm c d calm =
      IsCalm-trans c d (polled d) calm
        (slept-IsCalm (polls settings.poll_delay) d refl calm.free_after)

  -- An ask for a token: it is granted, or the bucket has earned since the last ask.
  ask :
      (c : Client)
      → IsFree c
      → Earns c.limiter.object (clock c.readings)
      → ((l : Limiter) × (on_limiter (try_acquire (pos 1) (clock c.readings)) c
            ≡ (done true, asked c l)))
        ⊎ ((l : Limiter) × (on_limiter (try_acquire (pos 1) (clock c.readings)) c
              ≡ (done false, asked c l))
            × Earned c.limiter.object l (clock (suc c.readings))
            × (l.tokens < l.unit))
  ask c locks earns =
      let l = c.limiter.object in
      let now = clock c.readings in
      let l' = refill now l in
      let called = (try_acquire-decided 1 now l).0 (omega arith) earns.capacity_positive in
      elim (Bool-cases (leb (1 * l'.unit) l'.tokens)) [
        | inl pays ↦ inl (
          record l' { tokens = l'.tokens - 1 * l'.unit },
          on_limiter-asked c _ true locks (called ∙ rw pays refl),
        )
        | inr poor ↦
            let less : l'.tokens < l'.unit = ground (arith, poor) in
            inr (
              l',
              on_limiter-asked c l' false locks (called ∙ rw poor refl),
              refill-Earned l now (clock (suc c.readings)) earns (ticks c.readings)
                  (omega (arith, less, refill-unit now l)),
              less,
            )
      ]

  -- If the clock ticks between readings, and the bucket earns a unit at least at every tick and can
  -- hold a token, the wait for a token ends, after as many asks at most as units are missing; it
  -- keeps the locks free and changes neither the calls, the slots nor the backoffs.
  pub apply_rate_limiting-Ends :
      (fuel : ℕ) (c : Client)
      → IsFree c
      → Earns c.limiter.object (clock c.readings)
      → c.limiter.object.unit ≤ c.limiter.object.tokens + suc fuel
      → EndsFrom (apply_rate_limiting settings clock (suc fuel)) c
  unfolding EndsFrom polled asked
  apply_rate_limiting-Ends zero c locks earns enough = elim (ask c locks earns) [
    | inl (l, e) ↦ (tt, asked c l, token_granted zero c (asked c l) e, asked-IsCalm c l locks)
    | inr (l, e, earned, poor) ↦ elim (too_poor enough earned.more earned.same_unit poor) [ ]
  ]
  apply_rate_limiting-Ends (suc fuel) c locks earns enough = elim (ask c locks earns) [
    | inl (l, e) ↦ (tt, asked c l, token_granted (suc fuel) c (asked c l) e, asked-IsCalm c l locks)
    | inr (l, e, earned, poor) ↦
        let calm = polled-IsCalm c (asked c l) (asked-IsCalm c l locks) in
        let more = earned.more in
        let same = earned.same_unit in
        let (u, d, ended, calm') =
          apply_rate_limiting-Ends fuel (polled (asked c l)) calm.free_after earned.earns
            (omega (arith, enough, more, same)) in
        (
          u,
          d,
          token_refused (suc fuel) c (asked c l) e ∙ ended,
          IsCalm-trans c (polled (asked c l)) d calm calm',
        )
  ]
