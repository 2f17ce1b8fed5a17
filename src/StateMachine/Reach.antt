-- ===== src/StateMachine/Reach.antt =====
-- The states of a client whose responses are reported one after another.
use ani_vault.Base.{ℕ, ◌*◌, ◌≤◌, ◌<◌, max, ◌≡◌, ◌≢◌, refl, true, false, Option, none, some, arith}
use ani_vault.Sync.{returned, Method, free}
use ani_vault.StateMachine.{
  NoError, normal, sleep_then_resume, cache_only, Machine, init, handle_429, handle_success,
  handle_error, should_make_request, get_retry_delay, reset,
}

-- A report to the machine, with the readings of the clock that its method makes.
pub data Event : Type 0 where
  too_many : Option ℕ → ℕ → ℕ → Event
  success : ℕ → ℕ → Event
  failure : ℕ → ℕ → ℕ → ℕ → ℕ → Event
  clear : Event

unfoldable pub report : Event → Method NoError Machine Unit
unfolding handle_429 handle_success handle_error reset
report (too_many retry_after now cleaned) = handle_429 retry_after now cleaned
report (success now cleaned) = handle_success now cleaned
report (failure code now cleaned at cleaned') = handle_error code now cleaned at cleaned'
report clear = reset

-- The machine `n` is reached from `m` by reports that all return, each allowed by `P`.
pub data Reach (P : Event → Type 0) (m : Machine) : Machine → Type 0 where
  here : Reach P m m
  next :
      {n k : Machine} (e : Event)
      → Reach P m n
      → P e
      → report e (free n) ≡ returned tt (free k)
      → Reach P m k

pub record SameSettings (m n : Machine) : Type 0 where
  pub second : n.second ≡ m.second
  pub error_threshold : n.error_threshold ≡ m.error_threshold
  pub time_window : n.time_window ≡ m.time_window
  pub max_retry_after : n.max_retry_after ≡ m.max_retry_after

pub record IsValid (n : Machine) : Type 0 where
  pub delay_bounded : n.retry_after_delay ≤ max n.max_retry_after (60 * n.second)
  pub delay_throttled : 0 < n.retry_after_delay → (n.state ≡ normal) → ⊥
  pub never_sleeps : n.state ≢ sleep_then_resume

report-IsValid :
    (e : Event) {m n : Machine} → report e (free m) ≡ returned tt (free n) → IsValid m → IsValid n
unfolding report
report-IsValid (too_many r now c) h v = ground arith
report-IsValid (success now c) h v = ground arith
report-IsValid (failure code now c at c') h v = ground arith
report-IsValid clear h v = ground arith

-- From a new machine, whatever reports return: the delay is at most the larger of the maximum and
-- a minute, the state `normal` has no delay, and the state `sleep_then_resume` is never entered.
pub Reach-IsValid :
    (second threshold window max_retry : ℕ) {n : Machine}
    → Reach (λ e. Unit) (init second threshold window max_retry) n
    → IsValid n
Reach-IsValid second threshold window max_retry here = ground arith
Reach-IsValid second threshold window max_retry (next e r p h) =
    report-IsValid e h (Reach-IsValid second threshold window max_retry r)

-- The report carries no `Retry-After` header.
abbrev pub HasNoHeader : Event → Type 0
HasNoHeader (too_many (some r) now cleaned) = ⊥
HasNoHeader _ = Unit

report_without_header :
    (e : Event) (m n : Machine)
    → HasNoHeader e
    → report e (free m) ≡ returned tt (free n)
    → m.retry_after_delay ≡ 0
    → n.retry_after_delay ≡ 0
unfolding report
report_without_header (too_many (some r) now c) m n p h z = absurd p
report_without_header (too_many none now c) m n p h z = ground arith
report_without_header (success now c) m n p h z = ground arith
report_without_header (failure code now c at c') m n p h z = ground arith
report_without_header clear m n p h z = ground arith

Reach-without_header :
    (second threshold window max_retry : ℕ) {n : Machine}
    → Reach HasNoHeader (init second threshold window max_retry) n
    → n.retry_after_delay ≡ 0
Reach-without_header second threshold window max_retry here = refl
Reach-without_header second threshold window max_retry (next e r p h) =
    report_without_header e _ _ p h (Reach-without_header second threshold window max_retry r)

-- From a new machine, if no report carries a `Retry-After` header, a 429 never delays a request:
-- at any reading not before the last 429 the recommended delay is 0, and a request is allowed
-- unless the breaker is open.
pub no_delay_without_header :
    (second threshold window max_retry now : ℕ) {n : Machine}
    → Reach HasNoHeader (init second threshold window max_retry) n
    → n.last_429_time ≤ now
    → (get_retry_delay now (free n) ≡ returned 0 (free n))
      × (n.state ≢ cache_only → should_make_request now (free n) ≡ returned true (free n))
unfolding get_retry_delay should_make_request
no_delay_without_header second threshold window max_retry now {n} r h =
    let z = Reach-without_header second threshold window max_retry r in
    (ground arith, λ p. ground arith)

-- The report is neither a direct 429 nor a reset.
abbrev pub IsPassive : Event → Type 0
IsPassive (too_many r now cleaned) = ⊥
IsPassive clear = ⊥
IsPassive _ = Unit

report-cache_only :
    (e : Event) (m n : Machine)
    → IsPassive e
    → report e (free m) ≡ returned tt (free n)
    → m.state ≡ cache_only
    → n.state ≡ cache_only
unfolding report
report-cache_only (too_many r now c) m n p h z = absurd p
report-cache_only (success now c) m n p h z = ground arith
report-cache_only (failure code now c at c') m n p h z = ground arith
report-cache_only clear m n p h z = absurd p

-- Once the breaker is open, successes and errors leave it open, and no request is allowed: only
-- `reset` and a direct `handle_429` leave the state `cache_only`.
pub cache_only-stays :
    {m n : Machine} (now : ℕ)
    → m.state ≡ cache_only
    → Reach IsPassive m n
    → (n.state ≡ cache_only) × (should_make_request now (free n) ≡ returned false (free n))
unfolding should_make_request
cache_only-stays now z here = (z, ground arith)
cache_only-stays now z (next e r p h) =
    let (before, _) = cache_only-stays now z r in
    let after = report-cache_only e _ _ p h before in (after, ground arith)
