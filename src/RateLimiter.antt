-- ===== src/RateLimiter.antt =====
-- `TokenBucketRateLimiter` of src/anivault/infrastructure/rate_limiter.py.
--
-- Times are clock ticks. A token is `unit` units, and `refill_rate` is a number of units for each
-- tick, so that every rational rate has a scale at which the program's floats are integers; the
-- rounding of floats is not modelled. `time.time()` is an argument of each method that reads it.
pub mod Methods
pub mod Schedule
mod Tests
use ani_vault.Base.{ℕ, ◌+◌, ◌-◌, ◌*◌, ◌/◌, min, Bool, true, false, ltb, leb, if◌then◌else◌}
use ani_vault.Base.Int.{ℤ, pos, pos_part, leb_ℤ}
use ani_vault.Sync.{
  Method, Outcome, raised, returned, pure, raise, gets, modify, with_lock, free, ◌>>=◌, ◌>>◌,
}

pub data Error : Type 0 where
  validation_error : Error

pub record Limiter : Type 0 where
  pub unit : ℕ
  pub capacity : ℕ
  pub refill_rate : ℕ
  pub tokens : ℕ
  pub last_refill : ℕ

-- The number of units in a full bucket.
abbrev pub full : Limiter → ℕ
full l = l.capacity * l.unit

pub data Built : Type 0 where
  built : Limiter → Built
  refused : Error → Built

-- __init__
unfoldable pub init : ℕ → ℤ → ℤ → ℕ → Built
init unit capacity refill_rate now =
    if leb_ℤ capacity (pos 0)
    then refused validation_error
    else if leb_ℤ refill_rate (pos 0)
    then refused validation_error
    else built (record {
      unit = unit;
      capacity = pos_part capacity;
      refill_rate = pos_part refill_rate;
      tokens = pos_part capacity * unit;
      last_refill = now;
    })

-- _refill: a clock that has gone back gives no positive number of tokens, as 0 here.
unfoldable pub refill : ℕ → Limiter → Limiter
refill now l =
    let tokens_to_add = (now - l.last_refill) * l.refill_rate in
    if ltb 0 tokens_to_add
    then record l { tokens = min (full l) (l.tokens + tokens_to_add); last_refill = now }
    else l

-- The block under the lock in `try_acquire`, after `_refill`.
unfoldable pub take_tokens : ℕ → Method Error Limiter Bool
take_tokens n g =
    let l = g.object in
    if leb (n * l.unit) l.tokens
    then returned true (record g { object = record l { tokens = l.tokens - n * l.unit } })
    else returned false g

unfoldable pub try_acquire : ℤ → ℕ → Method Error Limiter Bool
unfolding refill take_tokens with_lock ◌>>◌ modify raise
try_acquire tokens now g =
    if leb_ℤ tokens (pos 0)
    then raise validation_error g
    else if ltb g.object.capacity (pos_part tokens)
    then raise validation_error g
    else with_lock (do modify (refill now); take_tokens (pos_part tokens)) g

unfoldable pub get_tokens_available : ℕ → Method Error Limiter ℕ
unfolding refill with_lock ◌>>◌ modify gets
get_tokens_available now = with_lock do modify (refill now); gets (λ l. l.tokens / l.unit)

unfoldable pub reset : ℕ → Method Error Limiter Unit
unfolding with_lock modify
reset now = with_lock (modify (λ l. record l { tokens = full l; last_refill = now }))
