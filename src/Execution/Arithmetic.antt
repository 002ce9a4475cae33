-- ===== src/Execution/Arithmetic.antt =====
-- micromachine/execution/exec.hpp: the instructions that shift, add and compare the low registers.
use micromachine.Base.{ℕ, Bool, true, false, Option, none, some, ◌==◌, if◌then◌else◌}
use micromachine.Bits.{not32, extract}
use micromachine.Alu.{Sum, lsl_c, lsr_c, asr_c, ror_c, add_with_carry}
use micromachine.Registers.{
  Cpu, get_reg, set_reg, carry_flag, set_carry_flag, set_overflow_flag, apply_zero, apply_neg,
}

-- The flags of a sum, in the two orders that the program sets them in.
unfoldable pub sum_flags : Sum → Cpu → Cpu
unfolding set_carry_flag set_overflow_flag apply_zero apply_neg
sum_flags s c =
    apply_neg s.res
      (apply_zero s.res (set_overflow_flag s.overflow_out (set_carry_flag s.carry_out c)))

unfoldable pub sum_flags_neg_first : Sum → Cpu → Cpu
unfolding set_carry_flag set_overflow_flag apply_zero apply_neg
sum_flags_neg_first s c =
    apply_zero s.res
      (apply_neg s.res (set_overflow_flag s.overflow_out (set_carry_flag s.carry_out c)))

-- A shift by an immediate: the flags, then the register.
shift_imm : ℕ → ℕ × Bool → Cpu → Cpu
unfolding set_carry_flag apply_zero apply_neg set_reg
shift_imm rd r c = set_reg rd r.0 (set_carry_flag r.1 (apply_zero r.0 (apply_neg r.0 c)))

-- A shift by a register: the register, then the flags.
shift_reg : ℕ → ℕ × Bool → Cpu → Cpu
unfolding set_carry_flag apply_zero apply_neg set_reg
shift_reg rdn r c = apply_zero r.0 (apply_neg r.0 (set_carry_flag r.1 (set_reg rdn r.0 c)))

unfoldable pub lsl_imm : ℕ → ℕ → ℕ → Cpu → Cpu
unfolding get_reg lsl_c carry_flag shift_imm
lsl_imm rd rm imm5 c = shift_imm rd (lsl_c (get_reg rm c) imm5 (carry_flag c)) c

unfoldable pub lsr_imm : ℕ → ℕ → ℕ → Cpu → Cpu
unfolding get_reg lsr_c carry_flag shift_imm
lsr_imm rd rm imm5 c =
    let applied_offset = if imm5 == 0 then 32 else imm5 in
    shift_imm rd (lsr_c (get_reg rm c) applied_offset (carry_flag c)) c

unfoldable pub asr_imm : ℕ → ℕ → ℕ → Cpu → Cpu
unfolding get_reg asr_c carry_flag shift_imm
asr_imm rd rm imm5 c =
    let applied_offset = if imm5 == 0 then 32 else imm5 in
    shift_imm rd (asr_c (get_reg rm c) applied_offset (carry_flag c)) c

unfoldable pub lsl_reg : ℕ → ℕ → Cpu → Cpu
unfolding get_reg lsl_c carry_flag shift_reg extract
lsl_reg rdn rm c =
    shift_reg rdn (lsl_c (get_reg rdn c) (extract 32 0 8 (get_reg rm c)) (carry_flag c)) c

unfoldable pub lsr_reg : ℕ → ℕ → Cpu → Cpu
unfolding get_reg lsr_c carry_flag shift_reg extract
lsr_reg rdn rm c =
    shift_reg rdn (lsr_c (get_reg rdn c) (extract 32 0 8 (get_reg rm c)) (carry_flag c)) c

unfoldable pub asr_reg : ℕ → ℕ → Cpu → Cpu
unfolding get_reg asr_c carry_flag shift_reg extract
asr_reg rdn rm c =
    shift_reg rdn (asr_c (get_reg rdn c) (extract 32 0 8 (get_reg rm c)) (carry_flag c)) c

unfoldable pub ror_reg : ℕ → ℕ → Cpu → Option Cpu
unfolding get_reg ror_c carry_flag shift_reg extract
ror_reg rdn rm c = elim (ror_c (get_reg rdn c) (extract 32 0 8 (get_reg rm c)) (carry_flag c)) [
  | none ↦ none
  | some r ↦ some (shift_reg rdn r c)
]

unfoldable pub add_reg : ℕ → ℕ → ℕ → Cpu → Cpu
unfolding get_reg add_with_carry sum_flags set_reg
add_reg rd rn rm c =
    let s = add_with_carry (get_reg rn c) (get_reg rm c) false in sum_flags s (set_reg rd s.res c)

unfoldable pub subs_reg : ℕ → ℕ → ℕ → Cpu → Cpu
unfolding get_reg add_with_carry sum_flags set_reg
subs_reg rd rn rm c =
    let s = add_with_carry (get_reg rn c) (not32 (get_reg rm c)) true in
    sum_flags s (set_reg rd s.res c)

unfoldable pub add_imm : ℕ → ℕ → ℕ → Cpu → Cpu
unfolding get_reg add_with_carry sum_flags set_reg
add_imm rd rn imm3 c =
    let s = add_with_carry (get_reg rn c) imm3 false in sum_flags s (set_reg rd s.res c)

unfoldable pub subs_imm : ℕ → ℕ → ℕ → Cpu → Cpu
unfolding get_reg add_with_carry sum_flags set_reg
subs_imm rd rn imm3 c =
    let s = add_with_carry (get_reg rn c) (not32 imm3) true in sum_flags s (set_reg rd s.res c)

unfoldable pub add_imm_t2 : ℕ → ℕ → Cpu → Cpu
unfolding get_reg add_with_carry sum_flags set_reg
add_imm_t2 imm8 rdn c =
    let s = add_with_carry (get_reg rdn c) imm8 false in sum_flags s (set_reg rdn s.res c)

unfoldable pub subs_imm8 : ℕ → ℕ → Cpu → Cpu
unfolding get_reg add_with_carry sum_flags set_reg
subs_imm8 imm8 rdn c =
    let s = add_with_carry (get_reg rdn c) (not32 imm8) true in sum_flags s (set_reg rdn s.res c)

unfoldable pub cmp_imm : ℕ → ℕ → Cpu → Cpu
unfolding get_reg add_with_carry sum_flags
cmp_imm imm8 rn c = let s = add_with_carry (get_reg rn c) (not32 imm8) true in sum_flags s c

unfoldable pub adc : ℕ → ℕ → Cpu → Cpu
unfolding get_reg add_with_carry sum_flags_neg_first set_reg carry_flag
adc rdn rm c =
    let s = add_with_carry (get_reg rdn c) (get_reg rm c) (carry_flag c) in
    sum_flags_neg_first s (set_reg rdn s.res c)

unfoldable pub sbc : ℕ → ℕ → Cpu → Cpu
unfolding get_reg add_with_carry sum_flags_neg_first set_reg carry_flag
sbc rdn rm c =
    let s = add_with_carry (get_reg rdn c) (not32 (get_reg rm c)) (carry_flag c) in
    sum_flags_neg_first s (set_reg rdn s.res c)

unfoldable pub rsb_imm : ℕ → ℕ → Cpu → Cpu
unfolding get_reg add_with_carry sum_flags_neg_first set_reg
rsb_imm rd rn c =
    let s = add_with_carry (not32 (get_reg rn c)) 0 true in
    sum_flags_neg_first s (set_reg rd s.res c)

unfoldable pub cmp_reg : ℕ → ℕ → Cpu → Cpu
unfolding get_reg add_with_carry sum_flags_neg_first
cmp_reg rn rm c =
    let s = add_with_carry (get_reg rn c) (not32 (get_reg rm c)) true in sum_flags_neg_first s c

unfoldable pub cmn_reg : ℕ → ℕ → Cpu → Cpu
unfolding get_reg add_with_carry sum_flags_neg_first
cmn_reg rn rm c =
    let s = add_with_carry (get_reg rn c) (get_reg rm c) false in sum_flags_neg_first s c
