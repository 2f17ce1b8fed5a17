-- ===== src/Semaphore/Threads.antt =====
-- Threads that use one manager as a context manager, in any order.
use ani_vault.Base.{
  ℕ, zero, suc, ◌+◌, ◌≡◌, Option, none, some, false, List, [], ◌∷◌, get_elem?, set, arith,
}
use ani_vault.Semaphore.{
  Manager, Error, acquires, waits, acquire, entered, enter, exit, async_enter, async_exit,
}

-- Where a thread is: outside the block, waiting in `__enter__`, inside the block, or stopped by
-- the error of `__enter__`.
pub data Phase : Type 0 where
  outside waiting inside : Phase
  stopped : Error → Phase

pub record System : Type 0 where
  pub manager : Manager
  pub threads : List Phase

-- One step of the thread `i`. A waiting thread goes on when the counter is positive, or stops
-- when its timeout is over, which may be at any time.
pub data Step (s : System) : System → Type 0 where
  enters :
      (i : ℕ) (m : Manager) {t : System}
      → get_elem? s.threads i ≡ some outside
      → enter s.manager ≡ acquires m
      → t ≡ record { manager = m; threads = set s.threads i inside }
      → Step s t
  async_enters :
      (i : ℕ) (m : Manager) {t : System}
      → get_elem? s.threads i ≡ some outside
      → async_enter s.manager ≡ acquires m
      → t ≡ record { manager = m; threads = set s.threads i inside }
      → Step s t
  blocks :
      (i : ℕ) (timeout : Option ℕ) {t : System}
      → get_elem? s.threads i ≡ some outside
      → enter s.manager ≡ waits timeout
      → t ≡ record s { threads = set s.threads i waiting }
      → Step s t
  async_blocks :
      (i : ℕ) (timeout : Option ℕ) {t : System}
      → get_elem? s.threads i ≡ some outside
      → async_enter s.manager ≡ waits timeout
      → t ≡ record s { threads = set s.threads i waiting }
      → Step s t
  wakes :
      (i : ℕ) (m : Manager) {t : System}
      → get_elem? s.threads i ≡ some waiting
      → acquire none s.manager ≡ acquires m
      → t ≡ record { manager = m; threads = set s.threads i inside }
      → Step s t
  times_out :
      (i : ℕ) (e : Error) {t : System}
      → get_elem? s.threads i ≡ some waiting
      → entered false ≡ some e
      → t ≡ record s { threads = set s.threads i (stopped e) }
      → Step s t
  exits :
      (i : ℕ) {t : System}
      → get_elem? s.threads i ≡ some inside
      → t ≡ record { manager = exit s.manager; threads = set s.threads i outside }
      → Step s t
  async_exits :
      (i : ℕ) {t : System}
      → get_elem? s.threads i ≡ some inside
      → t ≡ record { manager = async_exit s.manager; threads = set s.threads i outside }
      → Step s t

pub data Reach (s : System) : System → Type 0 where
  here : Reach s s
  next : {t u : System} → Reach s t → Step t u → Reach s u

-- The number of threads inside the block.
abbrev pub is_inside : Phase → ℕ
is_inside inside = 1
is_inside outside = 0
is_inside waiting = 0
is_inside (stopped e) = 0

unfoldable pub count_inside : List Phase → ℕ
count_inside [] = 0
count_inside (p ∷ ps) = is_inside p + count_inside ps

pub count_inside-set :
    (ps : List Phase) (i : ℕ) (p q : Phase)
    → get_elem? ps i ≡ some p
    → count_inside (set ps i q) + is_inside p ≡ count_inside ps + is_inside q
unfolding count_inside
count_inside-set [] i p q h = cc
count_inside-set (r ∷ ps) zero p q h = ground arith
count_inside-set (r ∷ ps) (suc i) p q h = omega (arith, count_inside-set ps i p q h)
