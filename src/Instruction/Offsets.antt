-- ===== src/Instruction/Offsets.antt =====
-- The offsets of the branches, as integers.
use micromachine.Base.{
  ℕ, ◌+◌, ◌-◌, ◌*◌, ◌/◌, ◌%◌, ◌^◌, ◌<◌, ◌≡◌, ap, arith, ◌∙◌, of_bool, to_bool, ltb, if◌then◌else◌,
  signed32, sub_ℕ,
}
use micromachine.Bits.Sign.{sign_lem}
use micromachine.Instruction.{branch_offset, unconditional_branch_offset}

-- A conditional branch goes by twice its immediate, taken as a signed number of eight bits.
pub branch_offset_lem :
    (imm8 : ℕ)
    → imm8 < 2 ^ 8
    → signed32 (branch_offset imm8) ≡ sub_ℕ (2 * imm8) (if ltb imm8 (2 ^ 7) then 0 else 2 ^ 9)
unfolding branch_offset
branch_offset_lem imm8 h =
    ap signed32 (sign_lem 32 (imm8 * 2) 8 (omega arith) (omega arith) (omega arith)) ∙ value
  where
    value :
        signed32 (imm8 * 2 % 2 ^ 8 + of_bool (to_bool (imm8 * 2 / 2 ^ 8 % 2)) * (2 ^ 32 - 2 ^ 8))
        ≡ sub_ℕ (2 * imm8) (if ltb imm8 (2 ^ 7) then 0 else 2 ^ 9)
    value = ground arith

-- An unconditional branch goes by twice its immediate, taken as a signed number of eleven bits.
pub unconditional_branch_offset_lem :
    (imm11 : ℕ)
    → imm11 < 2 ^ 11
    → signed32 (unconditional_branch_offset imm11)
      ≡ sub_ℕ (2 * imm11) (if ltb imm11 (2 ^ 10) then 0 else 2 ^ 12)
unfolding unconditional_branch_offset
unconditional_branch_offset_lem imm11 h =
    ap signed32 (sign_lem 32 (imm11 * 2) 11 (omega arith) (omega arith) (omega arith)) ∙ value
  where
    value :
        signed32
          (imm11 * 2 % 2 ^ 11 + of_bool (to_bool (imm11 * 2 / 2 ^ 11 % 2)) * (2 ^ 32 - 2 ^ 11))
        ≡ sub_ℕ (2 * imm11) (if ltb imm11 (2 ^ 10) then 0 else 2 ^ 12)
    value = ground arith
