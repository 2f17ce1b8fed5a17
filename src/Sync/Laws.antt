-- ===== src/Sync/Laws.antt =====
-- What sequencing and the lock do, stated once for every method.
use ani_vault.Base.{◌≡◌, refl}
use ani_vault.Sync.{Guarded, returned, blocked, Method, with_lock, ◌>>=◌, ◌>>◌, held}

-- a block that holds the lock and asks for it again never comes back
pub with_lock-held {ℓ} :
    {E S A : Type ℓ} (body : Method E S A) (s : S) → with_lock body (held s) ≡ blocked
unfolding with_lock
with_lock-held body s = refl

-- what follows a step that returns goes on from its state
pub >>-returned {ℓ} :
    {E S B : Type ℓ} (m : Method E S (Unit {ℓ})) (k : Method E S B) (g g' : Guarded S)
    → m g ≡ returned tt g'
    → (m >> k) g ≡ k g'
unfolding ◌>>◌ ◌>>=◌
>>-returned m k g g' e = rw (e, ◌>>=◌) refl
