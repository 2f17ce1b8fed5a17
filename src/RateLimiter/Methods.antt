-- ===== src/RateLimiter/Methods.antt =====
-- What each method of the limiter does, on every branch.
use Prim.Native.Nat.{◌≤◌, ◌<◌}
use ani_vault.Base.{
  max, ℕ, ◌+◌, ◌-◌, ◌*◌, ◌/◌, min, ◌≡◌, Bool, true, false, arith, leb, if◌then◌else◌,
}
use ani_vault.Base.Int.{ℤ, pos, negsuc}
use ani_vault.Sync.{Outcome, returned, raised, free}
use ani_vault.RateLimiter.{
  Error, validation_error, Limiter, full, built, init, refill, try_acquire, get_tokens_available,
}

-- The bucket never holds more than its capacity.
pub record IsValid (l : Limiter) : Type 0 where
  pub bounded : l.tokens ≤ full l

-- Whatever unit, time, capacity and rate the constructor accepts, it makes
-- a valid bucket, which is full and whose last refill is that time.
pub init-IsValid :
    (unit now : ℕ) (capacity rate : ℤ) {l : Limiter}
    → init unit capacity rate now ≡ built l
    → IsValid l × (l.tokens ≡ full l) × (l.last_refill ≡ now)
unfolding init
init-IsValid unit now (pos c) (pos r) h = ground arith
init-IsValid unit now (pos c) (negsuc r) h = ground arith
init-IsValid unit now (negsuc c) r h = ground arith

pub refill-IsValid : (now : ℕ) {l : Limiter} → IsValid l → IsValid (refill now l)
unfolding refill
refill-IsValid now v = ground arith

-- What a refill leaves alone, and that its reading of the clock is recorded.
pub record Refilled (now : ℕ) (l l' : Limiter) : Type 0 where
  pub same_unit : l'.unit ≡ l.unit
  pub same_capacity : l'.capacity ≡ l.capacity
  pub same_rate : l'.refill_rate ≡ l.refill_rate
  pub later : l.last_refill ≤ l'.last_refill
  pub earned : l'.tokens + l.last_refill * l.refill_rate ≤ l.tokens + l'.last_refill * l.refill_rate
  pub bounded : l'.last_refill ≤ max l.last_refill now

pub elapsed : (a b r : ℕ) → a ≤ b → (b - a) * r + a * r ≡ b * r
elapsed a b r h = grind arith

positive_elapsed : (a b r : ℕ) → 0 < (b - a) * r → a ≤ b
positive_elapsed a b r h = grind arith

pub refill-Refilled : (now : ℕ) (l : Limiter) → Refilled now l (refill now l)
unfolding refill
refill-Refilled now l = ground (
  arith,
  positive_elapsed l.last_refill now l.refill_rate,
  elapsed l.last_refill now l.refill_rate,
)

-- A refill makes as many units as the time since the last one is worth, up to a full bucket.
refill-tokens :
    (now : ℕ) (l : Limiter)
    → IsValid l
    → (refill now l).tokens ≡ min (full l) (l.tokens + (now - l.last_refill) * l.refill_rate)
unfolding refill
refill-tokens now l v = ground arith

-- The answer of `try_acquire` as a function of the refilled bucket.
abbrev pub decided : ℕ → Limiter → Outcome Error Limiter Bool
decided n l =
    if leb (n * l.unit) l.tokens
    then returned true (free (record l { tokens = l.tokens - n * l.unit }))
    else returned false (free l)

-- A request between 1 and the capacity is decided against the refilled bucket, and any other
-- raises a validation error that leaves the bucket as it was; the lock is free again either way.
pub try_acquire-decided :
    (n now : ℕ) (l : Limiter)
    → (0 < n → n ≤ l.capacity → try_acquire (pos n) now (free l) ≡ decided n (refill now l))
      × (l.capacity < n → try_acquire (pos n) now (free l) ≡ raised validation_error (free l))
      × (try_acquire (pos 0) now (free l) ≡ raised validation_error (free l))
      × (try_acquire (negsuc n) now (free l) ≡ raised validation_error (free l))
unfolding try_acquire
try_acquire-decided n now l = (λ p q. ground arith, λ p. ground arith, ground arith, ground arith)

price-le : (n c u : ℕ) → n ≤ c → n * u ≤ c * u
price-le n c u h = grind arith

-- From a valid bucket, a request between 1 and the capacity is granted if and only if the units
-- in the bucket and those earned since the last refill are enough for it.
pub try_acquire-granted_iff :
    (n now : ℕ) (l : Limiter)
    → IsValid l
    → 0 < n
    → n ≤ l.capacity
    → (n * l.unit ≤ l.tokens + (now - l.last_refill) * l.refill_rate
        → try_acquire (pos n) now (free l)
          ≡ returned true
              (free (record (refill now l) { tokens = (refill now l).tokens - n * l.unit })))
      × (l.tokens + (now - l.last_refill) * l.refill_rate < n * l.unit
          → try_acquire (pos n) now (free l) ≡ returned false (free (refill now l)))
try_acquire-granted_iff n now l v p q =
    let same = refill-Refilled now l in
    let call = (try_acquire-decided n now l).0 p q in
    (
      λ h.
          ground
            (arith, call, refill-tokens now l v, same.same_unit, price-le n l.capacity l.unit q),
      λ h.
          ground
            (arith, call, refill-tokens now l v, same.same_unit, price-le n l.capacity l.unit q),
    )

-- `get_tokens_available` refills, and returns the whole tokens in the bucket.
pub available_lem :
    (now : ℕ) (l : Limiter)
    → get_tokens_available now (free l)
      ≡ returned ((refill now l).tokens / l.unit) (free (refill now l))
unfolding get_tokens_available
available_lem now l = ground arith
