-- ===== src/Base/Int.antt =====
-- Python's signed integers over the native numbers, where the code tests for a negative argument.
use Prim.Native.Nat.{ℕ, zero, suc, ◌+◌, ◌-◌, ◌%◌}
use mathlib.Core.Bool.{Bool}
use ani_vault.Base.Tests.{ltb, leb, if◌then◌else◌}

-- `negsuc n` is -(n + 1).
pub data ℤ : Type 0 where
  pos : ℕ → ℤ
  negsuc : ℕ → ℤ

abbrev pub pos_part : ℤ → ℕ
pos_part (pos n) = n
pos_part (negsuc n) = 0

abbrev pub neg_part : ℤ → ℕ
neg_part (pos n) = 0
neg_part (negsuc n) = suc n

abbrev pub leb_ℤ : ℤ → ℤ → Bool
leb_ℤ a b = leb (pos_part a + neg_part b) (pos_part b + neg_part a)

abbrev pub ltb_ℤ : ℤ → ℤ → Bool
ltb_ℤ a b = ltb (pos_part a + neg_part b) (pos_part b + neg_part a)

-- -a
abbrev pub neg : ℤ → ℤ
neg (pos zero) = pos 0
neg (pos (suc n)) = negsuc n
neg (negsuc n) = pos (suc n)

-- a + z
abbrev pub plus_ℤ : ℕ → ℤ → ℤ
plus_ℤ a (pos b) = pos (a + b)
plus_ℤ a (negsuc b) = if ltb b a then pos (a - suc b) else negsuc (b - a)

-- z % c for a positive c: the answer has the sign of c.
abbrev pub mod_ℤ : ℤ → ℕ → ℕ
mod_ℤ (pos n) c = n % c
mod_ℤ (negsuc n) c = (c - 1) - n % c
