-- ===== src/TmdbClient/Calm.antt =====
-- Steps of a client that end and keep its locks free, its calls, its slots and its backoffs.
use mathlib.Core.List.{append-nil}
use ani_vault.Base.{ℕ, ◌+◌, ◌≡◌, refl, ap, ◌∙◌, false, List, [], ◌∷◌, ◌++◌}
use ani_vault.Sync.{Method, Guarded, returned, free}
use ani_vault.StateMachine.{NoError, Machine}
use ani_vault.TmdbClient.{
  done, failed, stuck, Sleep, polls, backs_off, obeys, Client, Step, ◌>>=◌, sleep, on_machine,
}

-- The delays between attempts.
unfoldable pub backoffs : List Sleep → List ℕ
backoffs [] = []
backoffs (polls d ∷ s) = backoffs s
backoffs (obeys d ∷ s) = backoffs s
backoffs (backs_off d ∷ s) = d ∷ backoffs s

pub backoffs-append : (s t : List Sleep) → backoffs (s ++ t) ≡ backoffs s ++ backoffs t
unfolding backoffs
backoffs-append [] t = refl
backoffs-append (polls d ∷ s) t = backoffs-append s t
backoffs-append (obeys d ∷ s) t = backoffs-append s t
backoffs-append (backs_off d ∷ s) t = ap (λ r. d ∷ r) (backoffs-append s t)

pub record IsFree (c : Client) : Type 0 where
  pub free_limiter : c.limiter.locked ≡ false
  pub free_machine : c.machine.locked ≡ false

-- The locks are free, and neither the calls nor the slots nor the delays between attempts change.
pub record IsCalm (c c' : Client) : Type 0 where
  pub free_after : IsFree c'
  pub same_calls : c'.calls ≡ c.calls
  pub same_semaphore : c'.semaphore ≡ c.semaphore
  pub same_backoffs : backoffs c'.slept ≡ backoffs c.slept

pub IsCalm-refl : (c : Client) → IsFree c → IsCalm c c
IsCalm-refl c locks = record {
  free_after = locks;
  same_calls = refl;
  same_semaphore = refl;
  same_backoffs = refl;
}

pub IsCalm-trans : (c d e : Client) → IsCalm c d → IsCalm d e → IsCalm c e
IsCalm-trans c d e h k = record {
  free_after = k.free_after;
  same_calls = k.same_calls ∙ h.same_calls;
  same_semaphore = k.same_semaphore ∙ h.same_semaphore;
  same_backoffs = k.same_backoffs ∙ h.same_backoffs;
}

-- A step ends, calmly, from one client, and from every one whose locks are free.
unfoldable pub EndsFrom : {A : Type 0} → Step A → Client → Type 0
EndsFrom {A = A} m c = (a : A) × (c' : Client) × (m c ≡ (done a, c')) × IsCalm c c'

unfoldable pub Ends : {A : Type 0} → Step A → Type 0
unfolding EndsFrom
Ends m = (c : Client) → IsFree c → EndsFrom m c

pub >>=-done :
    {A B : Type 0} (m : Step A) (f : A → Step B) {a : A} {c c' : Client}
    → m c ≡ (done a, c')
    → (m >>= f) c ≡ f a c'
unfolding ◌>>=◌
>>=-done m f e =
    ap (λ q. elim (q.0) [ done a ↦ f a q.1 | failed x ↦ (failed x, q.1) | stuck ↦ (stuck, q.1) ]) e

pub Ends->>= :
    {A B : Type 0} (m : Step A) (f : A → Step B) → Ends m → ((a : A) → Ends (f a)) → Ends (m >>= f)
unfolding Ends EndsFrom
Ends->>= m f h k c locks =
    let (a, c', e, calm) = h c locks in
    let (b, c'', e', calm') = k a c' calm.free_after in
    (b, c'', >>=-done m f e ∙ e', IsCalm-trans c c' c'' calm calm')

-- A method of the machine returns and gives the lock back.
unfoldable pub Returns : {A : Type 0} → Method NoError Machine A → Type 0
Returns {A = A} method =
    (m : Machine) → (a : A) × (m' : Machine) × (method (free m) ≡ returned a (free m'))

pub free_eta : {S : Type 0} (g : Guarded S) → g.locked ≡ false → g ≡ free g.object
free_eta g h = ap (λ b. record { locked = b; object = g.object }) h

pub on_machine-EndsFrom :
    {A : Type 0} (n : ℕ) (method : Method NoError Machine A) (c : Client)
    → Returns method
    → IsFree c
    → EndsFrom (on_machine n method) c
unfolding Returns EndsFrom on_machine
on_machine-EndsFrom n method c h locks =
    let (a, m', e) = h c.machine.object in
    let returns = ap method (free_eta c.machine locks.free_machine) ∙ e in
    (
      a,
      record c { machine = record { locked = false; object = m' }; readings = c.readings + n },
      rw (on_machine, returns) refl,
      record {
        free_after = record { free_limiter = locks.free_limiter; free_machine = refl };
        same_calls = refl;
        same_semaphore = refl;
        same_backoffs = refl;
      },
    )

pub slept-IsCalm :
    (d : Sleep) (c : Client)
    → backoffs (d ∷ []) ≡ []
    → IsFree c
    → IsCalm c (record c { slept = c.slept ++ d ∷ [] })
slept-IsCalm d c none_added locks = record {
  free_after = record { free_limiter = locks.free_limiter; free_machine = locks.free_machine };
  same_calls = refl;
  same_semaphore = refl;
  same_backoffs =
      backoffs-append c.slept (d ∷ [])
      ∙ ap (λ r. backoffs c.slept ++ r) none_added
      ∙ append-nil (backoffs c.slept);
}

pub sleep-EndsFrom :
    (d : Sleep) (c : Client) → backoffs (d ∷ []) ≡ [] → IsFree c → EndsFrom (sleep d) c
unfolding EndsFrom sleep
sleep-EndsFrom d c none_added locks =
    (tt, record c { slept = c.slept ++ d ∷ [] }, refl, slept-IsCalm d c none_added locks)
