-- ===== src/Base/Int.antt =====
-- The integers over the native numbers: `negsuc n` is -(n + 1).
use Prim.Native.Nat.{ℕ, suc, ◌+◌, ◌-◌, ◌≤◌, ◌<◌}
use mathlib.Core.Path.{◌≡◌}
use mathlib.Core.Logic.{◌↔◌}
use mathlib.Core.Bool.{Bool, true}
use native.Mathlib.Omega.{arith}
use micromachine.Base.Tests.{ltb, leb, ◌==◌, if◌then◌else◌}

pub data ℤ : Type 0 where
  pos : ℕ → ℤ
  negsuc : ℕ → ℤ

abbrev pub pos_part : ℤ → ℕ
pos_part (pos n) = n
pos_part (negsuc n) = 0

abbrev pub neg_part : ℤ → ℕ
neg_part (pos n) = 0
neg_part (negsuc n) = suc n

abbrev pub sub_ℕ : ℕ → ℕ → ℤ
sub_ℕ a b = if leb b a then pos (a - b) else negsuc (b - a - 1)

infix 50 ◌≤ℤ◌ ◌<ℤ◌
abbrev pub ◌≤ℤ◌ : ℤ → ℤ → Type 0
a ≤ℤ b = pos_part a + neg_part b ≤ pos_part b + neg_part a

abbrev pub ◌<ℤ◌ : ℤ → ℤ → Type 0
a <ℤ b = pos_part a + neg_part b < pos_part b + neg_part a

abbrev pub ltbℤ : ℤ → ℤ → Bool
ltbℤ a b = ltb (pos_part a + neg_part b) (pos_part b + neg_part a)

-- Equal parts of the difference: the integers are equal.
pub eq_of_parts : (a b : ℤ) → pos_part a + neg_part b ≡ pos_part b + neg_part a → a ≡ b
eq_of_parts (pos n) (pos m) h = ground arith
eq_of_parts (pos n) (negsuc m) h = ground arith
eq_of_parts (negsuc n) (pos m) h = ground arith
eq_of_parts (negsuc n) (negsuc m) h = ground arith

pub ltbℤ_iff : (a b : ℤ) → (ltbℤ a b ≡ true) ↔ (a <ℤ b)
ltbℤ_iff a b = ground arith

infixl 65 ◌+ℤ◌
abbrev pub ◌+ℤ◌ : ℤ → ℤ → ℤ
a +ℤ b = sub_ℕ (pos_part a + pos_part b) (neg_part a + neg_part b)

-- The integer that a 32-bit pattern stands for in two's complement.
abbrev pub signed32 : ℕ → ℤ
signed32 w = if ltb w 2147483648 then pos w else negsuc (4294967295 - w)

abbrev pub eqbℤ : ℤ → ℤ → Bool
eqbℤ a b = pos_part a + neg_part b == pos_part b + neg_part a
