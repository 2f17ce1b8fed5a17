-- ===== src/RateLimiter/Schedule.antt =====
-- Any sequence of calls on one limiter, and how many tokens it hands out.
use ani_vault.Base.{
  max, zero, suc, inl, inr, ltb, ltb→lt, Bool-cases, ℕ, ◌+◌, ◌-◌, ◌*◌, ◌≤◌, ◌≡◌, refl, Bool, true,
  false, List, [], ◌∷◌, arith,
}
use mathlib.Core.Path.{subst}
use ani_vault.Base.Int.{ℤ, pos, negsuc, pos_part}
use ani_vault.Sync.{Guarded, Outcome, returned, raised, blocked, free}
use ani_vault.RateLimiter.{Error, Limiter, full, refill, try_acquire, get_tokens_available, reset}
use ani_vault.RateLimiter.Methods.{
  IsValid, decided, Refilled, elapsed, try_acquire-decided, refill-IsValid, refill-Refilled,
}

pub data Call : Type 0 where
  acquire : ℤ → ℕ → Call
  available resets : ℕ → Call

-- The reading of the clock that the call makes.
abbrev pub read_at : Call → ℕ
read_at (acquire n now) = now
read_at (available now) = now
read_at (resets now) = now

-- How many of the calls are resets.
unfoldable pub resets_in : List Call → ℕ
resets_in [] = 0
resets_in (resets now ∷ cs) = suc (resets_in cs)
resets_in (acquire n now ∷ cs) = resets_in cs
resets_in (available now ∷ cs) = resets_in cs

-- No call reads the clock after `now`, and no reset reads a time before the latest one known.
unfoldable pub Timely : ℕ → ℕ → List Call → Type 0
Timely latest now [] = Unit
Timely latest now (resets at ∷ cs) = (latest ≤ at) × (at ≤ now) × Timely at now cs
Timely latest now (acquire n at ∷ cs) = (at ≤ now) × Timely (max latest at) now cs
Timely latest now (available at ∷ cs) = (at ≤ now) × Timely (max latest at) now cs

-- An answer of `try_acquire` to a request for `n` tokens, and the tokens that it hands out.
abbrev pub tally : ℕ → Guarded Limiter → Outcome Error Limiter Bool → ℕ × Guarded Limiter
tally n g (returned true g') = (n, g')
tally n g (returned false g') = (0, g')
tally n g (raised e g') = (0, g')
tally n g blocked = (0, g)

-- The tokens that a call hands out, and the limiter after it.
unfoldable pub perform : Call → Guarded Limiter → ℕ × Guarded Limiter
unfolding try_acquire get_tokens_available reset
perform (acquire n now) g = tally (pos_part n) g (try_acquire n now g)
perform (available now) g = elim (get_tokens_available now g) [
  | returned n g' ↦ (0, g')
  | raised e g' ↦ (0, g')
  | blocked ↦ (0, g)
]
perform (resets now) g = elim (reset now g) [
  | returned u g' ↦ (0, g')
  | raised e g' ↦ (0, g')
  | blocked ↦ (0, g)
]

unfoldable pub serve : List Call → Guarded Limiter → ℕ × Guarded Limiter
unfolding perform
serve [] g = (0, g)
serve (c ∷ cs) g = let (k, g') = perform c g in let (m, g'') = serve cs g' in (k + m, g'')

-- `k` tokens were paid for by the units of the bucket, those earned meanwhile and those given.
pub record Paid (k given : ℕ) (l l' : Limiter) (now : ℕ) : Type 0 where
  pub same_unit : l'.unit ≡ l.unit
  pub same_capacity : l'.capacity ≡ l.capacity
  pub same_rate : l'.refill_rate ≡ l.refill_rate
  pub paid :
      k * l.unit + l'.tokens + l.last_refill * l.refill_rate
      ≤ l.tokens + given + l'.last_refill * l.refill_rate
  pub bounded : l'.last_refill ≤ max l.last_refill now
  pub valid : IsValid l → IsValid l'

perform_with :
    (n now : ℕ) (l l' : Limiter)
    → Refilled now l l'
    → (IsValid l → IsValid l')
    → Paid (tally n (free l) (decided n l')).0 0 l (tally n (free l) (decided n l')).1.object now
perform_with n now l l' r v = grind arith

unpaid : (l : Limiter) (now : ℕ) → Paid 0 0 l l now
unpaid l now = omega arith

-- What a call leaves: a free lock, and a bucket that paid.
abbrev Pays : ℕ → Call → Limiter → Type 0
Pays given c l =
    ((perform c (free l)).1.locked ≡ false)
    × Paid (perform c (free l)).0 given l (perform c (free l)).1.object (read_at c)

acquire-Pays : (n : ℤ) (now : ℕ) (l : Limiter) → Pays 0 (acquire n now) l
unfolding perform
acquire-Pays (negsuc n) now l = rw (try_acquire-decided n now l).3 (refl, unpaid l now)
acquire-Pays (pos zero) now l = (refl, unpaid l now)
acquire-Pays (pos (suc n)) now l = elim (Bool-cases (ltb l.capacity (suc n))) [
  | inl over ↦ rw ((try_acquire-decided (suc n) now l).1 (ltb→lt _ _ over)) (refl, unpaid l now)
  | inr fits ↦
      let r = refill-Refilled now l in
      rw ((try_acquire-decided (suc n) now l).0 (omega arith) (ground arith))
        (ground arith, perform_with (suc n) now l (refill now l) r (refill-IsValid now))
]

available-Pays : (now : ℕ) (l : Limiter) → Pays 0 (available now) l
unfolding perform
available-Pays now l =
    let r = refill-Refilled now l in (refl, grind (arith, refill-IsValid now {l = l}))

grows : (a b r : ℕ) → a ≤ b → a * r ≤ b * r
grows a b r h = grind (arith, elapsed a b r h)

resets-Pays : (now : ℕ) (l : Limiter) → l.last_refill ≤ now → Pays (full l) (resets now) l
unfolding perform
resets-Pays now l h = (
  refl,
  record {
    same_unit = refl;
    same_capacity = refl;
    same_rate = refl;
    paid = omega (arith, grows l.last_refill now l.refill_rate h);
    bounded = omega arith;
    valid = λ v. record { bounded = omega arith };
  },
)

Paid-trans :
    (k m given more now read : ℕ) (l l' l'' : Limiter)
    → read ≤ now
    → Paid k given l l' read
    → Paid m more l' l'' now
    → Paid (k + m) (given + more) l l'' now
Paid-trans k m given more now read l l' l'' h p q = grind arith

-- What some calls leave: a free lock, and a bucket that paid.
abbrev PaysAll : ℕ → List Call → Limiter → ℕ → Type 0
PaysAll given cs l now =
    ((serve cs (free l)).1.locked ≡ false)
    × Paid (serve cs (free l)).0 given l (serve cs (free l)).1.object now

-- A call, and then the others, which are paid for likewise.
serve-cons :
    (c : Call) (cs : List Call) (l : Limiter) (now given more : ℕ)
    → read_at c ≤ now
    → Pays given c l
    → PaysAll more cs (perform c (free l)).1.object now
    → PaysAll (given + more) (c ∷ cs) l now
unfolding serve
serve-cons c cs l now given more h (unlocked, first) (still, later) =
    let e : (perform c (free l)).1 ≡ free (perform c (free l)).1.object = ground arith in
    rw e (still, Paid-trans _ _ given more now (read_at c) l _ _ h first later)

-- The tokens that the resets give.
given_by : List Call → ℕ → ℕ
given_by [] bucket = 0
given_by (resets at ∷ cs) bucket = bucket + given_by cs bucket
given_by (acquire n at ∷ cs) bucket = 0 + given_by cs bucket
given_by (available at ∷ cs) bucket = 0 + given_by cs bucket

given_by_lem : (cs : List Call) (bucket : ℕ) → given_by cs bucket ≡ resets_in cs * bucket
unfolding given_by resets_in
given_by_lem [] bucket = omega arith
given_by_lem (resets at ∷ cs) bucket = grind (arith, given_by_lem cs bucket)
given_by_lem (acquire n at ∷ cs) bucket = omega (arith, given_by_lem cs bucket)
given_by_lem (available at ∷ cs) bucket = omega (arith, given_by_lem cs bucket)

same_full :
    (cs : List Call) (k g : ℕ) (l l' : Limiter) (now : ℕ)
    → Paid k g l l' now
    → given_by cs (full l') ≡ given_by cs (full l)
same_full cs k g l l' now p = rw (p.same_unit, p.same_capacity) refl

-- Whatever timely calls are made up to the time `now`, the units of the tokens handed out and of
-- those left never pass the units of the bucket at the start, a full bucket for each reset, and the
-- units earned since its last refill.
serve-Paid :
    (cs : List Call) (l : Limiter) (latest now : ℕ)
    → l.last_refill ≤ latest
    → Timely latest now cs
    → PaysAll (given_by cs (full l)) cs l now
unfolding serve Timely given_by
serve-Paid [] l latest now h k = (refl, unpaid l now)
serve-Paid (acquire n at ∷ cs) l latest now h (k, ks) =
    let first = acquire-Pays n at l in
    let l' = (perform (acquire n at) (free l)).1.object in
    let later = serve-Paid cs l' (max latest at) now (omega (arith, first.1.bounded, h)) ks in
    serve-cons (acquire n at) cs l now 0 (given_by cs (full l)) k first
      (subst (λ g. PaysAll g cs l' now) (same_full cs _ _ l l' at first.1) later)
serve-Paid (available at ∷ cs) l latest now h (k, ks) =
    let first = available-Pays at l in
    let l' = (perform (available at) (free l)).1.object in
    let later = serve-Paid cs l' (max latest at) now (omega (arith, first.1.bounded, h)) ks in
    serve-cons (available at) cs l now 0 (given_by cs (full l)) k first
      (subst (λ g. PaysAll g cs l' now) (same_full cs _ _ l l' at first.1) later)
serve-Paid (resets at ∷ cs) l latest now h (p, k, ks) =
    let first = resets-Pays at l (omega (arith, h, p)) in
    let l' = (perform (resets at) (free l)).1.object in
    let later = serve-Paid cs l' at now (omega (arith, first.1.bounded, h, p)) ks in
    serve-cons (resets at) cs l now (full l) (given_by cs (full l)) k first
      (subst (λ g. PaysAll g cs l' now) (same_full cs _ _ l l' at first.1) later)

up_to : (a e b r : ℕ) → a ≤ b → e ≤ b → e * r ≤ (b - a) * r + a * r
up_to a e b r h k = grind (arith, elapsed a b r h)

-- From a valid bucket, the tokens handed out by any requests, readings and resets up to the time
-- `now` are worth at most a full bucket, one more for each reset, and the refill of the time since
-- the bucket's last refill. No call reads a time after `now`, and no reset one before the latest
-- reading or the last refill.
pub serve-le :
    (cs : List Call) (l : Limiter) (now : ℕ)
    → IsValid l
    → l.last_refill ≤ now
    → Timely l.last_refill now cs
    → (serve cs (free l)).0 * l.unit
      ≤ full l + resets_in cs * full l + (now - l.last_refill) * l.refill_rate
serve-le cs l now v p h =
    let s = (serve-Paid cs l l.last_refill now (omega arith) h).1 in
    let given = given_by_lem cs (full l) in
    ground (
      arith,
      given,
      v.bounded,
      up_to l.last_refill (serve cs (free l)).1.object.last_refill now l.refill_rate,
    )
