-- ===== src/LinkedHash/Examples.antt =====
-- Instances of the theorems on the linked hash table as an ordered dict.
use native.Mathlib.Nat.{mod-lt}
use ani_vault.Base.{ℕ, ◌%◌, ◌<◌, ◌≡◌, refl, Bool, false, none, some, List, [], ◌∷◌, ◌==◌, ==_iff}
use ani_vault.Base.Int.{pos}
use ani_vault.LinkedHash as Hashed
use ani_vault.LinkedHash.{Node, Table, init, put, get}
use ani_vault.LinkedHash.Run.{
  Call, calls_put, calls_get, calls_remove, calls_contains, calls_iter, calls_len, a_value, a_flag,
  a_number, a_pairs, call_all, spec_all, call_all-spec_all,
}

abbrev index : ℕ → ℕ → ℕ
index capacity key = key % capacity

index_lt : (capacity : ℕ) (key : ℕ) → 0 < capacity → index capacity key < capacity
index_lt capacity key h = mod-lt key h

abbrev never : ℕ → Bool
never v = false

abbrev blank : Table ℕ ℕ
blank = record {
  one = 10;
  load_factor = 8;
  capacity = 2;
  size = 0;
  buckets = none ∷ none ∷ [];
  head = none;
  tail = none;
  next_free = 0;
  cell = λ p. none;
}

init-blank-two : init {K = ℕ} {V = ℕ} (pos 2) 8 10 ≡ some blank
unfolding init
init-blank-two = refl

abbrev calls : List (Call ℕ ℕ)
calls =
    calls_put 1 10
    ∷ calls_put 3 30
    ∷ calls_put 5 50
    ∷ calls_put 3 31
    ∷ calls_remove 1
    ∷ calls_get 3
    ∷ calls_contains 1
    ∷ calls_put 1 11
    ∷ calls_iter
    ∷ calls_len
    ∷ []

call_all-spec_all_example :
    call_all ◌==◌ index never calls blank
    ≡ some (
        a_value none
        ∷ a_value none
        ∷ a_value none
        ∷ a_value (some 30)
        ∷ a_value (some 10)
        ∷ a_value (some 31)
        ∷ a_flag false
        ∷ a_value none
        ∷ a_pairs ((3, 31) ∷ (5, 50) ∷ (1, 11) ∷ [])
        ∷ a_number 3
        ∷ [])
unfolding spec_all
call_all-spec_all_example =
    call_all-spec_all ◌==◌ index never ==_iff index_lt (pos 2) 8 10 blank calls init-blank-two

-- The same run by evaluation.
call_all-calls : call_all ◌==◌ index never calls blank ≡ some (spec_all ◌==◌ never calls [])
unfolding call_all spec_all put get Hashed.remove Hashed.contains Hashed.iterate
call_all-calls = refl
