-- ===== src/Semaphore/Safety.antt =====
-- Never more threads inside than the limit.
use ani_vault.Base.{◌*◌, ℕ, ◌+◌, ◌≤◌, ◌≡◌, refl, none, some, arith, replicate, zero, suc}
use ani_vault.Base.Int.{ℤ, negsuc}
use ani_vault.Semaphore.{
  Manager, built, acquires, waits, acquire, init, enter, exit, async_enter, async_exit,
  get_active_count, raises, validation_error,
}
use ani_vault.Semaphore.Threads.{
  outside, waiting, inside, stopped, System, Step, enters, async_enters, blocks, async_blocks,
  wakes, times_out, exits, async_exits, Reach, here, next, count_inside, count_inside-set,
}

-- The counter and the threads inside make up the limit.
pub record IsBalanced (s : System) : Type 0 where
  pub balance : s.manager.value + count_inside s.threads ≡ s.manager.concurrency_limit

Step-IsBalanced : {s t : System} → Step s t → IsBalanced s → IsBalanced t
unfolding enter exit async_enter async_exit acquire
Step-IsBalanced {s} (enters i m h e refl') b =
    ground (arith, count_inside-set s.threads i outside inside h)
Step-IsBalanced {s} (async_enters i m h e refl') b =
    ground (arith, count_inside-set s.threads i outside inside h)
Step-IsBalanced {s} (blocks i timeout h e refl') b =
    ground (arith, count_inside-set s.threads i outside waiting h)
Step-IsBalanced {s} (async_blocks i timeout h e refl') b =
    ground (arith, count_inside-set s.threads i outside waiting h)
Step-IsBalanced {s} (wakes i m h e refl') b =
    ground (arith, count_inside-set s.threads i waiting inside h)
Step-IsBalanced {s} (times_out i x h e refl') b =
    ground (arith, count_inside-set s.threads i waiting (stopped x) h)
Step-IsBalanced {s} (exits i h refl') b =
    ground (arith, count_inside-set s.threads i inside outside h)
Step-IsBalanced {s} (async_exits i h refl') b =
    ground (arith, count_inside-set s.threads i inside outside h)

Reach-IsBalanced : {s t : System} → Reach s t → IsBalanced s → IsBalanced t
Reach-IsBalanced here b = b
Reach-IsBalanced (next r p) b = Step-IsBalanced p (Reach-IsBalanced r b)

count_inside-outside : (n : ℕ) → count_inside (replicate n outside) ≡ 0
unfolding count_inside
count_inside-outside zero = refl
count_inside-outside (suc n) = omega (arith, count_inside-outside n)

-- Threads that all start outside the block of a new manager, and enter and leave it in any order:
-- at every moment at most `concurrency_limit` of them are inside, and `get_active_count` is the
-- number of those inside.
pub Reach-limit :
    (second n : ℕ) (limit : ℤ) {m : Manager} {t : System}
    → init second limit ≡ built m
    → Reach (record { manager = m; threads = replicate n outside }) t
    → (count_inside t.threads ≤ t.manager.concurrency_limit)
      × (get_active_count t.manager ≡ count_inside t.threads)
unfolding init get_active_count
Reach-limit second n limit {m} {t} h r =
    let start : IsBalanced (record { manager = m; threads = replicate n outside }) = record {
      balance = ground (arith, count_inside-outside n);
    } in
    let b = (Reach-IsBalanced r start).balance in (omega (arith, b), omega (arith, b))

-- With the counter at 0 a call of `__enter__` waits, at most 30 seconds, and a waiting thread
-- stays so; after any `__exit__` the waiting `acquire` takes the counter that was given back. A
-- call with a negative timeout raises a validation error and takes nothing.
pub enter-exit :
    (m : Manager)
    → (m.value ≡ 0 → enter m ≡ waits (some (30 * m.second)))
      × (m.value ≡ 0 → acquire none m ≡ waits none)
      × (acquire none (exit m) ≡ acquires m)
      × ((n : ℕ) → acquire (some (negsuc n)) m ≡ raises validation_error)
unfolding enter exit acquire
enter-exit m = (λ z. ground arith, λ z. ground arith, ground arith, λ n. ground arith)
