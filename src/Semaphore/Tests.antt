-- ===== src/Semaphore/Tests.antt =====
-- Runs of the semaphore manager, and its theorems at concrete inputs.
use ani_vault.Base.{ℕ, ◌*◌, ◌≤◌, ◌≡◌, refl, some, none, [], ◌∷◌, replicate}
use ani_vault.Base.Int.{pos, negsuc}
use ani_vault.Semaphore.{
  Manager, built, init, enter, exit, acquire, acquires, waits, raises, validation_error,
  get_active_count,
}
use ani_vault.Semaphore.Threads.{System, outside, inside, Reach, here, next, enters, count_inside}
use ani_vault.Semaphore.Safety.{Reach-limit, enter-exit}

abbrev two : Manager
two = record { second = 1; concurrency_limit = 2; value = 2 }

abbrev one_left : Manager
one_left = record two { value = 1 }

abbrev one_inside : System
one_inside = record { manager = one_left; threads = inside ∷ outside ∷ outside ∷ [] }

init_runs : init 1 (pos 2) ≡ built two
unfolding init
init_runs = refl

one_inside_reached : Reach (record { manager = two; threads = replicate 3 outside }) one_inside
unfolding enter
one_inside_reached = next here (enters 0 one_left refl refl refl)

Reach-limit_example :
    (count_inside one_inside.threads ≤ 2)
    × (get_active_count one_left ≡ count_inside one_inside.threads)
Reach-limit_example = Reach-limit 1 3 (pos 2) init_runs one_inside_reached

threads_enter :
    (two.value ≡ 0 → enter two ≡ waits (some (30 * 1)))
    × (two.value ≡ 0 → acquire none two ≡ waits none)
    × (acquire none (exit two) ≡ acquires two)
    × ((n : ℕ) → acquire (some (negsuc n)) two ≡ raises validation_error)
threads_enter = enter-exit two
