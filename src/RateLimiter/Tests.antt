-- ===== src/RateLimiter/Tests.antt =====
-- Runs of the rate limiter, and its theorems at concrete inputs.
use ani_vault.Base.{◌+◌, ◌-◌, ◌*◌, ◌≤◌, ◌<◌, ◌≡◌, refl, true, false, List, [], ◌∷◌, arith}
use ani_vault.Base.Int.{pos, negsuc}
use ani_vault.Sync.{returned, raised, free}
use ani_vault.RateLimiter.{Limiter, validation_error, built, full, init, refill, try_acquire}
use ani_vault.RateLimiter.Methods.{
  IsValid, decided, init-IsValid, try_acquire-decided, try_acquire-granted_iff,
}
use ani_vault.RateLimiter.Schedule.{
  Call, acquire, available, resets, Timely, serve, resets_in, serve-le,
}

-- Three tokens, one for each 10 ticks.
abbrev start : Limiter
start = record { unit = 10; capacity = 3; refill_rate = 1; tokens = 30; last_refill = 0 }

abbrev calls : List Call
calls = acquire (pos 2) 0 ∷ acquire (pos 2) 5 ∷ available 9 ∷ resets 10 ∷ acquire (pos 2) 12 ∷ []

start-IsValid : IsValid start
start-IsValid = record { bounded = omega arith }

init_runs : init 10 (pos 3) (pos 1) 0 ≡ built start
unfolding init
init_runs = refl

-- At one time, with a reset in between, twice the capacity.
reset_grants : (serve (acquire (pos 3) 0 ∷ resets 0 ∷ acquire (pos 3) 0 ∷ []) (free start)).0 ≡ 6
unfolding serve
reset_grants = refl

calls_grant : (serve calls (free start)).0 ≡ 4
unfolding serve
calls_grant = refl

start_is_full : IsValid start × (start.tokens ≡ full start) × (start.last_refill ≡ 0)
start_is_full = init-IsValid 10 0 (pos 3) (pos 1) init_runs

calls-Timely : Timely 0 12 calls
unfolding Timely
calls-Timely =
    (omega arith, (omega arith, (omega arith, (omega arith, omega arith, (omega arith, tt)))))

serve-le_example :
    (serve calls (free start)).0 * 10 ≤ 3 * 10 + resets_in calls * (3 * 10) + (12 - 0) * 1
serve-le_example = serve-le calls start 12 start-IsValid (omega arith) calls-Timely

branches_of_try_acquire :
    (0 < 2 → 2 ≤ 3 → try_acquire (pos 2) 5 (free start) ≡ decided 2 (refill 5 start))
    × (3 < 2 → try_acquire (pos 2) 5 (free start) ≡ raised validation_error (free start))
    × (try_acquire (pos 0) 5 (free start) ≡ raised validation_error (free start))
    × (try_acquire (negsuc 2) 5 (free start) ≡ raised validation_error (free start))
branches_of_try_acquire = try_acquire-decided 2 5 start

try_acquire-granted_iff_example :
    (2 * 10 ≤ 30 + (5 - 0) * 1
      → try_acquire (pos 2) 5 (free start)
        ≡ returned true
            (free (record (refill 5 start) { tokens = (refill 5 start).tokens - 2 * 10 })))
    × (30 + (5 - 0) * 1 < 2 * 10
        → try_acquire (pos 2) 5 (free start) ≡ returned false (free (refill 5 start)))
try_acquire-granted_iff_example =
    try_acquire-granted_iff 2 5 start start-IsValid (omega arith) (omega arith)
