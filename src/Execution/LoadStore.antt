-- ===== src/Execution/LoadStore.antt =====
-- A store and a load of the same word (micromachine/execution/exec.hpp).
use micromachine.Base.{
  ℕ, ◌+◌, ◌-◌, ◌*◌, ◌^◌, ◌≤◌, ◌<◌, ◌≡◌, ap, ◌∙◌, Bool, true, List, Option, none, some,
  if◌then◌else◌,
}
use micromachine.Bits.{u32}
use micromachine.Registers.{Cpu, get_reg, set_reg}
use micromachine.Machine.{Machine, Mapping, ◌>>◌, word, is_aligned, find_region, register_for}
use micromachine.Machine.Memory.ReadWrite.{read-write}
use micromachine.Execution.Transfers.{str_imm, ldr_imm}

-- The address of STR and LDR with an immediate.
abbrev pub word_address : ℕ → ℕ → Cpu → ℕ
word_address rn imm5 c = u32 (get_reg rn c + imm5 * 4)

-- STR of a register and then LDR from the same base and immediate move the register's value, when it
-- is a 32-bit value and the address is aligned, that of no register, and in the host memory of a
-- mapping. They change nothing else but the memory.
pub ldr_imm-str_imm :
    (rt rn rd imm5 : ℕ) (m : Machine) (mm : Mapping)
    → get_reg rt m.cpu < 2 ^ 32
    → register_for word (word_address rn imm5 m.cpu) ≡ none
    → is_aligned word (word_address rn imm5 m.cpu) ≡ true
    → find_region (word_address rn imm5 m.cpu) m.regions ≡ some mm
    → word_address rn imm5 m.cpu - mm.start + 4 ≤ mm.host_size
    → (mms : List Mapping) × ((str_imm rt rn imm5 >> ldr_imm rd rn imm5) m
        ≡ some (tt, record m { regions = mms; cpu = set_reg rd (get_reg rt m.cpu) m.cpu }))
unfolding str_imm ldr_imm
ldr_imm-str_imm rt rn rd imm5 m mm small plain aligned found fits =
    let w = read-write word address value m mm plain aligned found fits small in
    (w.0, ap then_load w.1 ∙ ap then_set w.2)
  where
    address : ℕ
    address = word_address rn imm5 m.cpu

    value : ℕ
    value = get_reg rt m.cpu

    then_load : Option (Bool × Machine) → Option (Unit {0} × Machine)
    then_load r =
        elim (elim r as (λ x. Option (Unit {0} × Machine)) [
          | none ↦ none
          | some (b, n) ↦ some (tt, n)
        ]) [ none ↦ none | some (u, n) ↦ ldr_imm rd rn imm5 n ]

    then_set : Option ((ℕ × Bool) × Machine) → Option (Unit {0} × Machine)
    then_set r = elim r [
      | none ↦ none
      | some ((x, b), n) ↦ some (tt, record n { cpu = if b then set_reg rd x n.cpu else n.cpu })
    ]
