-- ===== src/StateMachine/Window.antt =====
-- The two deques hold exactly the timestamps of the window, if the clock does not go back.
use ani_vault.Base.{
  ℕ, ◌+◌, ◌*◌, ◌≤◌, ◌<◌, ◌≡◌, ◌↔◌, refl, true, List, [], ◌∷◌, ◌++◌, All, length, arith, ltb,
  Bool-cases, inl, inr,
}
use ani_vault.StateMachine.{Machine, drop_old, should_trigger, record_error, count_recent}

-- Each timestamp is at least all those before it.
abbrev pub IsSorted : List ℕ → Type 0
IsSorted [] = Unit
IsSorted (t ∷ ts) = All (λ u. t ≤ u) ts × IsSorted ts

-- What `get_stats` counts of a deque is the length of the cleaned deque.
pub count_recent_sorted-All :
    (window now t : ℕ) (ts : List ℕ)
    → now ≤ t + window
    → All (λ u. t ≤ u) ts
    → count_recent window now ts ≡ length ts
unfolding count_recent
count_recent_sorted-All window now t [] p h = refl
count_recent_sorted-All window now t (u ∷ ts) p h =
    ground (arith, count_recent_sorted-All window now t ts p h.1)

All-recent :
    (window now t : ℕ) (ts : List ℕ)
    → now ≤ t + window
    → All (λ u. t ≤ u) ts
    → All (λ u. now ≤ u + window) ts
All-recent window now t [] p h = tt
All-recent window now t (u ∷ ts) p h = (omega arith, All-recent window now t ts p h.1)

-- On a sorted deque the loop that drops old timestamps from the front drops all of them: what is
-- left is as many as `get_stats` counts in the window, and each lies in the window.
pub length-drop_old :
    (window now : ℕ) (ts : List ℕ)
    → IsSorted ts
    → (length (drop_old window now ts) ≡ count_recent window now ts)
      × All (λ t. now ≤ t + window) (drop_old window now ts)
unfolding drop_old count_recent
length-drop_old window now [] s = (refl, tt)
length-drop_old window now (t ∷ ts) s = elim (Bool-cases (ltb (t + window) now)) [
  | inl old ↦ let (n, w) = length-drop_old window now ts s.1 in rw old (ground (arith, n), w)
  | inr recent ↦
      let p : now ≤ t + window = ground arith in
      rw recent (
        ground (arith, count_recent_sorted-All window now t ts p s.0),
        (p, All-recent window now t ts p s.0),
      )
]

All-snoc :
    (t now : ℕ) (ts : List ℕ) → t ≤ now → All (λ u. t ≤ u) ts → All (λ u. t ≤ u) (ts ++ now ∷ [])
All-snoc t now [] p h = (p, tt)
All-snoc t now (u ∷ ts) p h = (h.0, All-snoc t now ts p h.1)

IsSorted-snoc :
    (now : ℕ) (ts : List ℕ) → IsSorted ts → All (λ u. u ≤ now) ts → IsSorted (ts ++ now ∷ [])
IsSorted-snoc now [] s h = (tt, tt)
IsSorted-snoc now (t ∷ ts) s h = (All-snoc t now ts h.0 s.0, IsSorted-snoc now ts s.1 h.1)

-- If the recorded timestamps are in order and none lies after `now`, an error at `now` opens the
-- breaker exactly when the window at the cleaning holds an error, at least ten responses, and
-- errors whose share of the responses reaches the threshold, whatever status codes they have.
pub should_trigger_iff :
    (now cleaned : ℕ) (m : Machine) (e s : ℕ)
    → IsSorted m.error_timestamps
    → All (λ t. t ≤ now) m.error_timestamps
    → IsSorted m.success_timestamps
    → count_recent m.time_window cleaned (m.error_timestamps ++ now ∷ []) ≡ e
    → count_recent m.time_window cleaned m.success_timestamps ≡ s
    → (should_trigger (record_error now cleaned m) ≡ true)
      ↔ ((0 < e) × (10 ≤ e + s) × (m.error_threshold * (e + s) ≤ e * 100))
unfolding should_trigger record_error
should_trigger_iff now cleaned m e s p q r c d =
    let errors =
      (length-drop_old m.time_window cleaned (m.error_timestamps ++ now ∷ [])
        (IsSorted-snoc now m.error_timestamps p q)).0 in
    let successes = (length-drop_old m.time_window cleaned m.success_timestamps r).0 in
    (λ h. ground (arith, errors, successes), λ h. ground (arith, errors, successes))
