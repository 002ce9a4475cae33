-- ===== src/Execution/Compare.antt =====
-- What a branch on a condition finds after a comparison: `cmp_reg` and `cmp_imm` of
-- micromachine/execution/exec.hpp with `condition_passed` of apsr_reg.hpp.
use micromachine.Base.{
  ℕ, ◌+◌, ◌-◌, ◌/◌, ◌%◌, ◌^◌, ◌<◌, ◌≡◌, refl, sym, ap, ap₂, ◌∙◌, arith, Bool, true, false, not,
  ◌&&◌, ◌==◌, to_bool, ltb, leb, bool_eq, ltbℤ, eqbℤ, ◌+ℤ◌, pos, signed32,
}
use micromachine.Bits.{not32, bit_of}
use micromachine.Alu.{Sum, add_with_carry}
use micromachine.Alu.Add.{res_lem, carry_out_lem, overflow_out_lem}
use micromachine.Registers.{
  Cpu, get_reg, negative_flag, zero_flag, carry_flag, overflow_flag, condition_passed,
}
use micromachine.Execution.Arithmetic.{cmp_reg, cmp_imm}
use micromachine.Execution.Flags.{
  top_bit, flag_word, negative-flag_word, zero-flag_word, carry-flag_word, overflow-flag_word,
  xpsr-sum_flags_neg_first, xpsr-sum_flags,
}

-- The difference, cut to 32 bits.
abbrev difference : ℕ → ℕ → ℕ
difference a b = (a + (2 ^ 32 - b)) % 2 ^ 32

-- What the fourteen conditions say of two 32-bit numbers: equality, the unsigned and the signed
-- orders, the sign of the difference, and whether the signed difference fits in 32 bits.
unfoldable pub Compares : Cpu → ℕ → ℕ → Type 0
Compares c a b =
    (condition_passed 0 c ≡ a == b)
    × (condition_passed 1 c ≡ not (a == b))
    × (condition_passed 2 c ≡ leb b a)
    × (condition_passed 3 c ≡ ltb a b)
    × (condition_passed 4 c ≡ ltbℤ (signed32 (difference a b)) (pos 0))
    × (condition_passed 5 c ≡ not (ltbℤ (signed32 (difference a b)) (pos 0)))
    × (condition_passed 6 c ≡ not (eqbℤ (signed32 (difference a b) +ℤ signed32 b) (signed32 a)))
    × (condition_passed 7 c ≡ eqbℤ (signed32 (difference a b) +ℤ signed32 b) (signed32 a))
    × (condition_passed 8 c ≡ ltb b a)
    × (condition_passed 9 c ≡ leb a b)
    × (condition_passed 10 c ≡ not (ltbℤ (signed32 a) (signed32 b)))
    × (condition_passed 11 c ≡ ltbℤ (signed32 a) (signed32 b))
    × (condition_passed 12 c ≡ ltbℤ (signed32 b) (signed32 a))
    × (condition_passed 13 c ≡ not (ltbℤ (signed32 b) (signed32 a)))

module _ (a b : ℕ) (ha : a < 2 ^ 32) (hb : b < 2 ^ 32) where
  r : ℕ
  r = (a + (2 ^ 32 - 1 - b) + 1) % 2 ^ 32

  v : Bool
  unfolding r
  v =
      not (to_bool ((a / 2 ^ 31 + (2 ^ 32 - 1 - b) / 2 ^ 31) % 2))
      && to_bool ((a / 2 ^ 31 + r / 2 ^ 31) % 2)

  zero_iff : (0 == r) ≡ (a == b)
  unfolding r
  zero_iff = ground arith

  carry_iff : leb (2 ^ 32) (a + (2 ^ 32 - 1 - b) + 1) ≡ leb b a
  carry_iff = ground arith

  signed_iff : bool_eq (to_bool (r / 2 ^ 31 % 2)) v ≡ not (ltbℤ (signed32 a) (signed32 b))
  unfolding r v
  signed_iff = ground arith

  minus_iff : to_bool (r / 2 ^ 31 % 2) ≡ ltbℤ (signed32 (difference a b)) (pos 0)
  unfolding r
  minus_iff = ground arith

  exact_iff : not v ≡ eqbℤ (signed32 (difference a b) +ℤ signed32 b) (signed32 a)
  unfolding r v
  exact_iff = ground arith

  gt_iff : (leb b a && not (a == b) ≡ ltb b a) × (not (leb b a && not (a == b)) ≡ leb a b)
  gt_iff = (ground arith, ground arith)

  signed_gt_iff :
      not (ltbℤ (signed32 a) (signed32 b)) && not (a == b) ≡ ltbℤ (signed32 b) (signed32 a)
  signed_gt_iff = ground arith

  -- From the four flags to the conditions.
  compares :
      (c : Cpu)
      → negative_flag c ≡ to_bool (r / 2 ^ 31 % 2)
      → zero_flag c ≡ 0 == r
      → carry_flag c ≡ leb (2 ^ 32) (a + (2 ^ 32 - 1 - b) + 1)
      → overflow_flag c ≡ v
      → Compares c a b
  unfolding Compares condition_passed
  compares c en ez ec ev = (
    z,
    ap not z,
    cy,
    ap not cy ∙ not_leb,
    minus,
    ap not minus,
    sym (not_not (overflow_flag c)) ∙ ap not exact,
    exact,
    ap₂ (λ (p q : Bool). p && not q) cy z ∙ gt_iff.0,
    ap not (ap₂ (λ (p q : Bool). p && not q) cy z) ∙ gt_iff.1,
    ge,
    ap not ge ∙ not_not (ltbℤ (signed32 a) (signed32 b)),
    gt,
    ap not gt,
  )
    where
      z : zero_flag c ≡ a == b
      z = ez ∙ zero_iff

      cy : carry_flag c ≡ leb b a
      cy = ec ∙ carry_iff

      minus : negative_flag c ≡ ltbℤ (signed32 (difference a b)) (pos 0)
      minus = en ∙ minus_iff

      exact : not (overflow_flag c) ≡ eqbℤ (signed32 (difference a b) +ℤ signed32 b) (signed32 a)
      exact = ap not ev ∙ exact_iff

      ge : bool_eq (negative_flag c) (overflow_flag c) ≡ not (ltbℤ (signed32 a) (signed32 b))
      ge = ap₂ bool_eq en ev ∙ signed_iff

      gt :
          bool_eq (negative_flag c) (overflow_flag c) && not (zero_flag c)
          ≡ ltbℤ (signed32 b) (signed32 a)
      gt = ap₂ (λ (p q : Bool). p && not q) ge z ∙ signed_gt_iff

      not_leb : not (leb b a) ≡ ltb a b
      not_leb = ground arith

      not_not : (p : Bool) → not (not p) ≡ p
      not_not true = refl
      not_not false = refl

module _ (c : Cpu) (a b : ℕ) (ha : a < 2 ^ 32) (hb : b < 2 ^ 32) (small : c.xpsr < 2 ^ 32) where
  s : Sum
  s = add_with_carry a (not32 b) true

  result : s.res ≡ (a + (2 ^ 32 - 1 - b) + 1) % 2 ^ 32
  unfolding s
  result = res_lem a (not32 b) true

  carry : s.carry_out ≡ leb (2 ^ 32) (a + (2 ^ 32 - 1 - b) + 1)
  unfolding s
  carry = carry_out_lem a (not32 b) true ha (omega arith)

  overflow : s.overflow_out ≡ v a b ha hb
  unfolding s v r
  overflow =
      overflow_out_lem a (not32 b) true
      ∙ ap
          (λ (t : ℕ).
            not (to_bool ((a / 2 ^ 31 + (2 ^ 32 - 1 - b) / 2 ^ 31) % 2))
            && to_bool ((a / 2 ^ 31 + t / 2 ^ 31) % 2))
          result

  -- A status word that a subtraction sets the flags of compares the two numbers.
  subtraction-Compares :
      (c' : Cpu)
      → c'.xpsr ≡ flag_word c.xpsr (top_bit s.res) (0 == s.res) s.carry_out s.overflow_out
      → Compares c' a b
  unfolding negative_flag zero_flag carry_flag overflow_flag top_bit r
  subtraction-Compares c' e =
      compares a b ha hb c'
        (ap (bit_of 31) e
          ∙ (negative-flag_word x n z cy o small ∙ ap (λ (t : ℕ). to_bool (t / 2 ^ 31 % 2)) result))
        (ap (bit_of 30) e ∙ (zero-flag_word x n z cy o small ∙ ap (λ (t : ℕ). 0 == t) result))
        (ap (bit_of 29) e ∙ (carry-flag_word x n z cy o small ∙ carry))
        (ap (bit_of 28) e ∙ (overflow-flag_word x n z cy o small ∙ overflow))
    where
      x : ℕ
      x = c.xpsr

      n : Bool
      n = top_bit s.res

      z : Bool
      z = 0 == s.res

      cy : Bool
      cy = s.carry_out

      o : Bool
      o = s.overflow_out

-- After CMP of two registers, the fourteen conditions compare their values: equality, the unsigned
-- and the signed orders, the sign of their difference in 32 bits, and whether the signed difference
-- fits. The registers and the status word are 32-bit values.
pub cmp_reg-Compares :
    (rn rm : ℕ) (c : Cpu)
    → get_reg rn c < 2 ^ 32
    → get_reg rm c < 2 ^ 32
    → c.xpsr < 2 ^ 32
    → Compares (cmp_reg rn rm c) (get_reg rn c) (get_reg rm c)
unfolding cmp_reg s
cmp_reg-Compares rn rm c ha hb small =
    subtraction-Compares c (get_reg rn c) (get_reg rm c) ha hb small (cmp_reg rn rm c)
      (xpsr-sum_flags_neg_first (s c (get_reg rn c) (get_reg rm c) ha hb small) c small)

-- After CMP with an immediate of eight bits, the fourteen conditions compare the register with it in
-- the same way. The register and the status word are 32-bit values.
pub cmp_imm-Compares :
    (imm8 rn : ℕ) (c : Cpu)
    → get_reg rn c < 2 ^ 32
    → imm8 < 2 ^ 8
    → c.xpsr < 2 ^ 32
    → Compares (cmp_imm imm8 rn c) (get_reg rn c) imm8
unfolding cmp_imm s
cmp_imm-Compares imm8 rn c ha hb small =
    subtraction-Compares c (get_reg rn c) imm8 ha (omega arith) small (cmp_imm imm8 rn c)
      (xpsr-sum_flags (s c (get_reg rn c) imm8 ha (omega arith) small) c small)
