-- ===== src/Execution/Moves.antt =====
-- micromachine/execution/exec.hpp: the logical instructions, multiplication, moves, extensions and
-- byte reversals, on the registers alone.
use micromachine.Base.{ℕ, ◌+◌, ◌*◌, ◌^◌, bit_and, bit_or, bit_xor, true, false, ◌==◌, if◌then◌else◌}
use micromachine.Bits.{u32, not32, extract, sign, aligned, swap32}
use micromachine.Alu.{add_with_carry}
use micromachine.Instruction.{high_register}
use micromachine.Registers.{
  Cpu, get_reg, set_reg, get_sp, set_sp, get_pc, branch_pc, reg_pc, apply_zero, apply_neg,
}
use micromachine.Execution.Arithmetic.{sum_flags_neg_first}

-- A result that sets the zero and the negative flag.
result_flags : ℕ → Cpu → Cpu
unfolding apply_zero apply_neg
result_flags result c = apply_neg result (apply_zero result c)

unfoldable pub and_reg : ℕ → ℕ → Cpu → Cpu
unfolding get_reg result_flags set_reg
and_reg rdn rm c =
    let result = bit_and (get_reg rdn c) (get_reg rm c) in
    result_flags result (set_reg rdn result c)

unfoldable pub eor_reg : ℕ → ℕ → Cpu → Cpu
unfolding get_reg result_flags set_reg
eor_reg rdn rm c =
    let result = bit_xor (get_reg rdn c) (get_reg rm c) in
    result_flags result (set_reg rdn result c)

unfoldable pub orr_reg : ℕ → ℕ → Cpu → Cpu
unfolding get_reg result_flags set_reg
orr_reg rdn rm c =
    let result = bit_or (get_reg rdn c) (get_reg rm c) in result_flags result (set_reg rdn result c)

unfoldable pub bic_reg : ℕ → ℕ → Cpu → Cpu
unfolding get_reg result_flags set_reg
bic_reg rdn rm c =
    let result = bit_and (get_reg rdn c) (not32 (get_reg rm c)) in
    result_flags result (set_reg rdn result c)

unfoldable pub mvn : ℕ → ℕ → Cpu → Cpu
unfolding get_reg result_flags set_reg
mvn rd rm c = let result = not32 (get_reg rm c) in result_flags result (set_reg rd result c)

unfoldable pub tst_reg : ℕ → ℕ → Cpu → Cpu
unfolding get_reg result_flags
tst_reg rn rm c = let result = bit_and (get_reg rn c) (get_reg rm c) in result_flags result c

unfoldable pub mul_reg : ℕ → ℕ → Cpu → Cpu
unfolding get_reg result_flags set_reg
mul_reg rdm rn c =
    let result = u32 (get_reg rdm c * get_reg rn c) in result_flags result (set_reg rdm result c)

unfoldable pub mov_imm : ℕ → ℕ → Cpu → Cpu
unfolding get_reg result_flags set_reg
mov_imm imm8 rd c = let result = imm8 in result_flags result (set_reg rd result c)

unfoldable pub movs : ℕ → ℕ → Cpu → Cpu
unfolding get_reg result_flags set_reg
movs rd rm c = let result = get_reg rm c in result_flags result (set_reg rd result c)

set_or_branch : ℕ → ℕ → Cpu → Cpu
unfolding branch_pc set_reg
set_or_branch rd result c = if reg_pc == rd then branch_pc result c else set_reg rd result c

unfoldable pub add_highreg : ℕ → ℕ → ℕ → Cpu → Cpu
unfolding get_reg add_with_carry set_or_branch high_register
add_highreg rdn rm dn c =
    let high_rd = high_register rdn dn in
    let s = add_with_carry (get_reg high_rd c) (get_reg rm c) false in set_or_branch high_rd s.res c

unfoldable pub cmp_highreg : ℕ → ℕ → ℕ → Cpu → Cpu
unfolding get_reg add_with_carry sum_flags_neg_first high_register
cmp_highreg rn rm dm c =
    let s = add_with_carry (get_reg (high_register rn dm) c) (not32 (get_reg rm c)) true in
    sum_flags_neg_first s c

unfoldable pub mov_highreg : ℕ → ℕ → ℕ → Cpu → Cpu
unfolding get_reg set_or_branch high_register
mov_highreg rd rm d c = set_or_branch (high_register rd d) (get_reg rm c) c

unfoldable pub adr : ℕ → ℕ → Cpu → Cpu
unfolding get_pc aligned set_reg
adr imm8 rd c = set_reg rd (u32 (aligned 4 (get_pc c) + imm8 * 4)) c

unfoldable pub add_sp_imm : ℕ → ℕ → Cpu → Cpu
unfolding get_sp add_with_carry set_reg
add_sp_imm imm8 rd c = let s = add_with_carry (get_sp c) (imm8 * 4) false in set_reg rd s.res c

unfoldable pub add_sp_imm_t2 : ℕ → Cpu → Cpu
unfolding get_sp set_sp add_with_carry
add_sp_imm_t2 imm7 c = let s = add_with_carry (get_sp c) (imm7 * 4) false in set_sp s.res c

unfoldable pub sub_sp_imm : ℕ → Cpu → Cpu
unfolding get_sp set_sp add_with_carry
sub_sp_imm imm7 c = let s = add_with_carry (get_sp c) (not32 (imm7 * 4)) true in set_sp s.res c

unfoldable pub sxth : ℕ → ℕ → Cpu → Cpu
unfolding get_reg set_reg sign
sxth rd rm c = set_reg rd (sign 32 (get_reg rm c) 16) c

unfoldable pub sxtb : ℕ → ℕ → Cpu → Cpu
unfolding get_reg set_reg sign
sxtb rd rm c = set_reg rd (sign 32 (get_reg rm c) 8) c

unfoldable pub uxth : ℕ → ℕ → Cpu → Cpu
unfolding get_reg set_reg extract
uxth rd rm c = set_reg rd (extract 32 0 16 (get_reg rm c)) c

unfoldable pub uxtb : ℕ → ℕ → Cpu → Cpu
unfolding get_reg set_reg extract
uxtb rd rm c = set_reg rd (extract 32 0 8 (get_reg rm c)) c

unfoldable pub rev_word : ℕ → ℕ → Cpu → Cpu
unfolding get_reg set_reg swap32
rev_word rd rm c = set_reg rd (swap32 (get_reg rm c)) c

-- The two halves with their bytes swapped.
unfoldable pub rev16 : ℕ → ℕ → Cpu → Cpu
unfolding get_reg set_reg extract
rev16 rd rm c =
    let val = get_reg rm c in
    let upper = bit_or (extract 32 16 8 val * 2 ^ 24) (extract 32 24 8 val * 2 ^ 16) in
    let res = bit_or (bit_or upper (extract 32 0 8 val * 2 ^ 8)) (extract 32 8 8 val) in
    set_reg rd res c

unfoldable pub revsh : ℕ → ℕ → Cpu → Cpu
unfolding get_reg set_reg extract sign
revsh rd rm c =
    let val = get_reg rm c in
    let swapped_low16 = bit_or (extract 32 0 8 val * 2 ^ 8) (extract 32 8 8 val) in
    set_reg rd (sign 32 swapped_low16 16) c
