-- ===== src/Sync.antt =====
-- Objects behind a `threading.Lock`, as one thread meets them.
--
-- A method that mutates `self` and may raise is a function from the guarded object to an outcome.
-- `threading.Lock` is not reentrant: a thread that asks for a lock which it holds waits for ever,
-- which is the outcome `blocked`. Since every access goes through the lock, the methods of other
-- threads fall between two methods of this one, never inside.
pub mod Laws
use ani_vault.Base.{Bool, true, false, if◌then◌else◌}

-- The object, and whether its lock is held.
pub record Guarded {ℓ} (S : Type ℓ) : Type ℓ where
  pub locked : Bool
  pub object : S

pub data Outcome {ℓ} (E S A : Type ℓ) : Type ℓ where
  returned : A → Guarded S → Outcome E S A
  raised : E → Guarded S → Outcome E S A
  blocked : Outcome E S A

abbrev pub Method {ℓ} : Type ℓ → Type ℓ → Type ℓ → Type ℓ
Method E S A = Guarded S → Outcome E S A

module _ {ℓ} {E S A : Type ℓ} where
  unfoldable pub pure : A → Method E S A
  pure a g = returned a g

  unfoldable pub raise : E → Method E S A
  raise e g = raised e g

  unfoldable pub gets : (S → A) → Method E S A
  gets f g = returned (f g.object) g

  -- The lock is given back when the block returns, and when it raises.
  unfoldable pub release : Outcome E S A → Outcome E S A
  release (returned a g) = returned a (record g { locked = false })
  release (raised e g) = raised e (record g { locked = false })
  release blocked = blocked

  -- with self._lock: body
  unfoldable pub with_lock : Method E S A → Method E S A
  unfolding release
  with_lock body g = if g.locked then blocked else release (body (record g { locked = true }))

-- An assignment to fields of `self`.
unfoldable pub modify {ℓ} : {E S : Type ℓ} → (S → S) → Method E S Unit
modify f g = returned tt (record g { object = f g.object })

infixl 5 ◌>>=◌ ◌>>◌
unfoldable pub ◌>>=◌ {ℓ} : {E S A B : Type ℓ} → Method E S A → (A → Method E S B) → Method E S B
◌>>=◌ m f g = elim (m g) [ returned a g' ↦ f a g' | raised e g' ↦ raised e g' | blocked ↦ blocked ]

unfoldable pub ◌>>◌ {ℓ} : {E S B : Type ℓ} → Method E S (Unit {ℓ}) → Method E S B → Method E S B
unfolding ◌>>=◌
m >> k = m >>= λ _. k

-- The object behind a free lock.
abbrev pub free {ℓ} : {S : Type ℓ} → S → Guarded S
free s = record { locked = false; object = s }

-- The object behind a lock that this thread holds.
abbrev pub held {ℓ} : {S : Type ℓ} → S → Guarded S
held s = record { locked = true; object = s }
