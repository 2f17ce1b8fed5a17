-- ===== src/LinkedHash/Hash.antt =====
-- `LinkedHashTable._hash` of src/anivault/core/data_structures/linked_hash_table.py.
--
-- A text is the list of its code points. `hash` is Python's own, a parameter.
use ani_vault.Base.{
  ℕ, zero, suc, ◌+◌, ◌*◌, ◌<◌, ◌≡◌, ◌∙◌, ap, Option, none, some, List, [], ◌∷◌, arith, length,
}
use Prim.Native.Nat.{◌^◌}
use native.Mathlib.Nat.{mod-lt}
use native.Mathlib.Numerals.{unary_clauses}
use ani_vault.Base.Int.{ℤ, pos, negsuc, plus_ℤ, mod_ℤ}

-- A tuple of two, a title and an episode, either of which may be `None`, or a key of another type.
pub data Key {ℓ} (A : Type ℓ) : Type ℓ where
  title_episode : Option (List ℕ) → Option ℤ → Key A
  other : A → Key A

-- s[:n]
unfoldable pub take {ℓ} : {A : Type ℓ} → ℕ → List A → List A
take zero s = []
take (suc n) [] = []
take (suc n) (c ∷ s) = c ∷ take n s

-- "Unknown"
abbrev pub unknown : List ℕ
unknown = 85 ∷ 110 ∷ 107 ∷ 110 ∷ 111 ∷ 119 ∷ 110 ∷ []

abbrev pub max_filename_length : ℕ
max_filename_length = 500

-- The loop over the characters.
unfoldable pub roll : ℕ → List ℕ → ℕ
roll hash_value [] = hash_value
roll hash_value (c ∷ s) = roll (hash_value * 31 + c) s

abbrev pub title_str : Option (List ℕ) → List ℕ
title_str none = unknown
title_str (some title) = title

abbrev pub episode_int : Option ℤ → ℤ
episode_int none = pos 0
episode_int (some episode) = episode

-- The hash before it is reduced. A text of at most `n` characters is all of its first `n`.
unfoldable pub hash_value {ℓ} : {A : Type ℓ} → (A → ℤ) → Key A → ℤ
unfolding take roll
hash_value hash (title_episode title episode) =
    plus_ℤ (roll 0 (take max_filename_length (title_str title)) * 31) (episode_int episode)
hash_value hash (other a) = hash a

unfoldable pub hash_index {ℓ} : {A : Type ℓ} → (A → ℤ) → ℕ → Key A → ℕ
unfolding hash_value
hash_index hash capacity key = mod_ℤ (hash_value hash key) capacity

pub mod_ℤ-lt : (z : ℤ) (c : ℕ) → 0 < c → mod_ℤ z c < c
mod_ℤ-lt (pos n) c h = mod-lt n h
mod_ℤ-lt (negsuc n) c h = omega arith

-- In a table with a bucket, a key's index is that of a bucket, whatever number `hash` or the
-- episode makes of it, negative ones too.
pub hash_index-lt {ℓ} :
    {A : Type ℓ} (hash : A → ℤ) (capacity : ℕ) (key : Key A)
    → 0 < capacity
    → hash_index hash capacity key < capacity
unfolding hash_index
hash_index-lt hash capacity key h = mod_ℤ-lt (hash_value hash key) capacity h

-- The polynomial in 31 with a text's code points as coefficients, the first of which is the
-- highest.
unfoldable pub polynomial : List ℕ → ℕ
polynomial [] = 0
polynomial (c ∷ s) = c * 31 ^ length s + polynomial s

spread : (h c n y : ℕ) → (h * 31 + c) * 31 ^ n + y ≡ h * 31 ^ suc n + (c * 31 ^ n + y)
spread h c n y = simp unary_clauses (omega arith)

roll-polynomial : (h : ℕ) (s : List ℕ) → roll h s ≡ h * 31 ^ length s + polynomial s
unfolding roll polynomial
roll-polynomial h [] = omega arith
roll-polynomial h (c ∷ s) = roll-polynomial (h * 31 + c) s ∙ spread h c (length s) (polynomial s)

roll_from_zero : (s : List ℕ) → roll 0 s ≡ polynomial s
roll_from_zero s = omega (arith, roll-polynomial 0 s)

-- The hash of a title and an episode is the polynomial of the title's first 500 characters, times
-- 31, plus the episode; a title that is `None` counts as "Unknown", an episode that is as 0.
pub hash_value-polynomial {ℓ} :
    {A : Type ℓ} (hash : A → ℤ) (title : Option (List ℕ)) (episode : Option ℤ)
    → hash_value hash (title_episode title episode)
      ≡ plus_ℤ (polynomial (take max_filename_length (title_str title)) * 31) (episode_int episode)
unfolding hash_value
hash_value-polynomial hash title episode =
    ap (λ h. plus_ℤ (h * 31) (episode_int episode))
      (roll_from_zero (take max_filename_length (title_str title)))
