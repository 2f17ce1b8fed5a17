-- ===== src/LinkedHash/Run.antt =====
-- Sequences of calls of the linked hash table, and of the ordered dict that it stands for.
use ani_vault.Base.{
  ◌≡◌, refl, ap, ◌∙◌, ◌↔◌, Bool, true, false, not, Option, none, some, List, [], ◌∷◌, ℕ, ◌<◌,
  length,
}
use ani_vault.Base.Int.{ℤ}
use ani_vault.LinkedHash as Hashed
use ani_vault.LinkedHash.{Node, Table, init, get, put, clear, iterate, contains}
use ani_vault.LinkedHash.Assoc.{lookup, insert, remove}
use ani_vault.LinkedHash.Order.{pairs}
use ani_vault.LinkedHash.Append.{iterate-pairs}
use ani_vault.LinkedHash.Represents.{Represents, get-lookup}
use ani_vault.LinkedHash.Refine.{put-insert}
use ani_vault.LinkedHash.Remove.{remove-lookup}
use ani_vault.LinkedHash.Implements.{init-Represents, clear-Represents, size-Represents}

pub data Call {ℓ} (K V : Type ℓ) : Type ℓ where
  calls_put : K → V → Call K V
  calls_get : K → Call K V
  calls_remove : K → Call K V
  calls_contains : K → Call K V
  calls_clear calls_iter calls_len : Call K V

pub data Answer {ℓ} (K V : Type ℓ) : Type ℓ where
  a_value : Option V → Answer K V
  a_flag : Bool → Answer K V
  a_number : ℕ → Answer K V
  a_pairs : List (K × V) → Answer K V

module _ {ℓ} {K V : Type ℓ} where
  with_state : {S : Type ℓ} → Option (Option V × S) → Option (Answer K V × S)
  with_state none = none
  with_state (some (v, s)) = some (a_value v, s)

  with_answer : {A S : Type ℓ} → (A → Answer K V) → S → Option A → Option (Answer K V × S)
  with_answer f s none = none
  with_answer f s (some a) = some (f a, s)

module _ {ℓ} {K V : Type ℓ} (same : K → K → Bool) (hash_index : ℕ → K → ℕ)
    (is_none : V → Bool) where
  -- A call of the table; `none` is a loop that does not end.
  unfoldable pub call : Call K V → Table K V → Option (Answer K V × Table K V)
  unfolding with_state with_answer
  call (calls_put k v) t = with_state (put same hash_index k v t)
  call (calls_get k) t = with_answer a_value t (get same hash_index k t)
  call (calls_remove k) t = with_state (Hashed.remove same hash_index k t)
  call (calls_contains k) t = elim (contains same hash_index is_none k t) [
    | none ↦ none
    | some b ↦ some (a_flag b, t)
  ]
  call calls_clear t = some (a_value none, clear t)
  call calls_iter t = with_answer a_pairs t (iterate t)
  call calls_len t = some (a_number t.size, t)

  unfoldable pub call_all : List (Call K V) → Table K V → Option (List (Answer K V))
  unfolding call
  call_all [] t = some []
  call_all (c ∷ cs) t = elim (call c t) [
    | none ↦ none
    | some (a, t') ↦ elim (call_all cs t') [ none ↦ none | some rest ↦ some (a ∷ rest) ]
  ]

unfoldable pub known {ℓ} : {V : Type ℓ} → (V → Bool) → Option V → Bool
known is_none none = false
known is_none (some v) = not (is_none v)

module _ {ℓ} {K V : Type ℓ} (same : K → K → Bool) (is_none : V → Bool) where
  -- The same call of an ordered dict. Only `in` is answered as `__contains__` does, for which a key
  -- with the value None is not there; a dict has such a key.
  unfoldable pub spec : Call K V → List (K × V) → Answer K V × List (K × V)
  unfolding lookup insert remove known
  spec (calls_put k v) d = (a_value (lookup same k d), insert same k v d)
  spec (calls_get k) d = (a_value (lookup same k d), d)
  spec (calls_remove k) d = (a_value (lookup same k d), remove same k d)
  spec (calls_contains k) d = (a_flag (known is_none (lookup same k d)), d)
  spec calls_clear d = (a_value none, [])
  spec calls_iter d = (a_pairs d, d)
  spec calls_len d = (a_number (length d), d)

  unfoldable pub spec_all : List (Call K V) → List (K × V) → List (Answer K V)
  unfolding spec
  spec_all [] d = []
  spec_all (c ∷ cs) d = (spec c d).0 ∷ spec_all cs (spec c d).1

module _ {ℓ} {K V : Type ℓ} (same : K → K → Bool) (hash_index : ℕ → K → ℕ) (is_none : V → Bool)
    (same_iff : (a b : K) → (same a b ≡ true) ↔ (a ≡ b))
    (index_lt : (capacity : ℕ) (key : K) → 0 < capacity → hash_index capacity key < capacity) where
  contains-known :
      (k : K) (t : Table K V) (v : Option V)
      → get same hash_index k t ≡ some v
      → contains same hash_index is_none k t ≡ some (known is_none v)
  unfolding contains known
  contains-known k t none h = rw (contains, h) refl
  contains-known k t (some v) h = rw (contains, h) refl

  call-spec :
      (c : Call K V) (t : Table K V) (ns : List (ℕ × Node K V))
      → Represents same hash_index t ns
      → (t' : Table K V) × (call same hash_index is_none c t
          ≡ some ((spec same is_none c (pairs ns)).0, t'))
        × (ns' : List (ℕ × Node K V)) × Represents same hash_index t' ns'
        × (pairs ns' ≡ (spec same is_none c (pairs ns)).1)
  unfolding call spec pairs
  call-spec (calls_put k v) t ns r =
      let done = put-insert same hash_index same_iff index_lt k v t ns r in
      (done.0, rw (done.1) refl, done.2, done.3, done.4)
  call-spec (calls_get k) t ns r =
      (t, rw (get-lookup same hash_index same_iff index_lt k t ns r) refl, ns, r, refl)
  call-spec (calls_remove k) t ns r =
      let done = remove-lookup same hash_index same_iff index_lt k t ns r in
      (done.0, rw (done.1) refl, done.2, done.3, done.4)
  call-spec (calls_contains k) t ns r =
      let seen = contains-known k t _ (get-lookup same hash_index same_iff index_lt k t ns r) in
      (t, rw (call, seen) refl, ns, r, refl)
  call-spec calls_clear t ns r = (clear t, refl, [], clear-Represents same hash_index t ns r, refl)
  call-spec calls_iter t ns r = (t, rw (iterate-pairs t ns r.ordered) refl, ns, r, refl)
  call-spec calls_len t ns r = (
    t,
    ap (λ (n : ℕ). some (a_number n, t)) (size-Represents same hash_index t ns r),
    ns,
    r,
    refl,
  )

  call_all-Represents :
      (cs : List (Call K V)) (t : Table K V) (ns : List (ℕ × Node K V))
      → Represents same hash_index t ns
      → call_all same hash_index is_none cs t ≡ some (spec_all same is_none cs (pairs ns))
  unfolding call_all spec_all
  call_all-Represents [] t ns r = refl
  call_all-Represents (c ∷ cs) t ns r =
      let done = call-spec c t ns r in
      let rest =
        call_all-Represents cs done.0 done.2 done.3
        ∙ ap (λ d. some (spec_all same is_none cs d)) done.4 in
      rw (call_all, done.1, rest) refl

  -- Any sequence of calls of a new table ends, call by call, and answers what an ordered dict
  -- answers: each lookup, each old value, the pairs in the order of insertion, and the number of
  -- keys, whatever collides and however often the table grows. `in` is answered as `__contains__`
  -- does, for which a key with the value None is not there.
  pub call_all-spec_all :
      (initial_capacity : ℤ) (load_factor one : ℕ) (t : Table K V) (cs : List (Call K V))
      → init initial_capacity load_factor one ≡ some t
      → call_all same hash_index is_none cs t ≡ some (spec_all same is_none cs [])
  unfolding pairs
  call_all-spec_all initial_capacity load_factor one t cs h =
      call_all-Represents cs t []
        (init-Represents same hash_index initial_capacity load_factor one t h)
