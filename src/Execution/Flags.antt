-- ===== src/Execution/Flags.antt =====
-- The flags of the program status register after an addition, a subtraction or a comparison.
use micromachine.Base.{ℕ, ◌/◌, ◌%◌, ◌^◌, ◌<◌, ◌≡◌, ap, ◌∙◌, arith, Bool, ◌==◌, to_bool, of_bool}
use micromachine.Bits.{write_bits, bit_of, set_bit_of}
use micromachine.Bits.Laws.{write_bits_arith}
use micromachine.Bits.Flags.{bit_of-set_bit_of, set_bit_of-lt, bit_of-set_bit_of_ne}
use micromachine.Alu.{Sum}
use micromachine.Registers.{Cpu, apply_neg, apply_zero, set_carry_flag, set_overflow_flag}
use micromachine.Execution.Arithmetic.{sum_flags, sum_flags_neg_first}

unfoldable pub top_bit : ℕ → Bool
top_bit val = to_bool (val / 2 ^ 31 % 2)

top_field : (v : ℕ) → v / 2 ^ 31 % 2 ^ 1 ≡ of_bool (to_bool (v / 2 ^ 31 % 2)) / 2 ^ 0 % 2 ^ 1
top_field v = ground arith

-- Copying bit 31 of a value is setting bit 31 to it.
pub copy_top : (x v : ℕ) → x < 2 ^ 32 → write_bits 32 x 31 v 31 1 ≡ set_bit_of 31 x (top_bit v)
unfolding set_bit_of top_bit
copy_top x v small = omega (
  arith,
  top_field v,
  write_bits_arith 32 x 31 v 31 1 small (omega arith),
  write_bits_arith 32 x 31 (of_bool (to_bool (v / 2 ^ 31 % 2))) 0 1 small (omega arith),
)

-- The word after the four flags are set, the negative flag before the zero flag.
unfoldable pub flag_word : ℕ → Bool → Bool → Bool → Bool → ℕ
flag_word x n z cy v = set_bit_of 30 (set_bit_of 31 (set_bit_of 28 (set_bit_of 29 x cy) v) n) z

module _ (x : ℕ) (n z cy v : Bool) (small : x < 2 ^ 32) where
  x1 : ℕ
  x1 = set_bit_of 29 x cy

  x2 : ℕ
  unfolding x1
  x2 = set_bit_of 28 x1 v

  x3 : ℕ
  unfolding x2
  x3 = set_bit_of 31 x2 n

  s1 : x1 < 2 ^ 32
  unfolding x1
  s1 = set_bit_of-lt 29 x cy small (omega arith)

  s2 : x2 < 2 ^ 32
  unfolding x2
  s2 = set_bit_of-lt 28 x1 v s1 (omega arith)

  s3 : x3 < 2 ^ 32
  unfolding x3
  s3 = set_bit_of-lt 31 x2 n s2 (omega arith)

  pub flag_word-lt : flag_word x n z cy v < 2 ^ 32
  unfolding flag_word x1 x2 x3
  flag_word-lt = set_bit_of-lt 30 x3 z s3 (omega arith)

  pub zero-flag_word : bit_of 30 (flag_word x n z cy v) ≡ z
  unfolding flag_word x1 x2 x3
  zero-flag_word = bit_of-set_bit_of 30 x3 z s3 (omega arith)

  pub negative-flag_word : bit_of 31 (flag_word x n z cy v) ≡ n
  unfolding flag_word x1 x2 x3
  negative-flag_word =
      bit_of-set_bit_of_ne 30 x3 z s3 (omega arith) 31 (omega arith) (omega arith)
      ∙ bit_of-set_bit_of 31 x2 n s2 (omega arith)

  pub overflow-flag_word : bit_of 28 (flag_word x n z cy v) ≡ v
  unfolding flag_word x1 x2 x3
  overflow-flag_word =
      bit_of-set_bit_of_ne 30 x3 z s3 (omega arith) 28 (omega arith) (omega arith)
      ∙ (bit_of-set_bit_of_ne 31 x2 n s2 (omega arith) 28 (omega arith) (omega arith)
          ∙ bit_of-set_bit_of 28 x1 v s1 (omega arith))

  pub carry-flag_word : bit_of 29 (flag_word x n z cy v) ≡ cy
  unfolding flag_word x1 x2 x3
  carry-flag_word =
      bit_of-set_bit_of_ne 30 x3 z s3 (omega arith) 29 (omega arith) (omega arith)
      ∙ (bit_of-set_bit_of_ne 31 x2 n s2 (omega arith) 29 (omega arith) (omega arith)
          ∙ (bit_of-set_bit_of_ne 28 x1 v s1 (omega arith) 29 (omega arith) (omega arith)
              ∙ bit_of-set_bit_of 29 x cy small (omega arith)))

bit_nat : (b : Bool) → of_bool b / 2 ^ 0 % 2 ^ 1 < 2
bit_nat b = omega arith

-- Bits 30 and 31 can be set in either order.
pub swap_flags :
    (x : ℕ) (n z : Bool)
    → x < 2 ^ 32
    → set_bit_of 31 (set_bit_of 30 x z) n ≡ set_bit_of 30 (set_bit_of 31 x n) z
unfolding set_bit_of
swap_flags x n z small = omega (
  arith,
  bit_nat n,
  bit_nat z,
  write_bits_arith 32 x 30 (of_bool z) 0 1 small (omega arith),
  write_bits_arith 32 (set_bit_of 30 x z) 31 (of_bool n) 0 1
      (set_bit_of-lt 30 x z small (omega arith)) (omega arith),
  write_bits_arith 32 x 31 (of_bool n) 0 1 small (omega arith),
  write_bits_arith 32 (set_bit_of 31 x n) 30 (of_bool z) 0 1
      (set_bit_of-lt 31 x n small (omega arith)) (omega arith),
)

module _ (s : Sum) (c : Cpu) (small : c.xpsr < 2 ^ 32) where
  -- The status word after `sum_flags_neg_first`.
  pub xpsr-sum_flags_neg_first :
      (sum_flags_neg_first s c).xpsr
      ≡ flag_word c.xpsr (top_bit s.res) (0 == s.res) s.carry_out s.overflow_out
  unfolding sum_flags_neg_first flag_word apply_neg apply_zero set_carry_flag set_overflow_flag
  xpsr-sum_flags_neg_first =
      ap (λ (t : ℕ). set_bit_of 30 t (0 == s.res))
        (copy_top (set_bit_of 28 (set_bit_of 29 c.xpsr s.carry_out) s.overflow_out) s.res (
          set_bit_of-lt 28 (set_bit_of 29 c.xpsr s.carry_out) s.overflow_out
            (set_bit_of-lt 29 c.xpsr s.carry_out small (omega arith)) (omega arith)))

  pub xpsr-sum_flags :
      (sum_flags s c).xpsr
      ≡ flag_word c.xpsr (top_bit s.res) (0 == s.res) s.carry_out s.overflow_out
  unfolding sum_flags flag_word apply_neg apply_zero set_carry_flag set_overflow_flag
  xpsr-sum_flags =
      copy_top (set_bit_of 30 base (0 == s.res)) s.res
        (set_bit_of-lt 30 base (0 == s.res) small_base (omega arith))
      ∙ swap_flags base (top_bit s.res) (0 == s.res) small_base
    where
      base : ℕ
      base = set_bit_of 28 (set_bit_of 29 c.xpsr s.carry_out) s.overflow_out

      small_base : base < 2 ^ 32
      small_base =
          set_bit_of-lt 28 (set_bit_of 29 c.xpsr s.carry_out) s.overflow_out
            (set_bit_of-lt 29 c.xpsr s.carry_out small (omega arith)) (omega arith)
