-- ===== src/Execution/Stack.antt =====
-- micromachine/execution/exec.hpp: PUSH, POP, STM and LDM, which transfer a list of registers.
use micromachine.Base.{ℕ, zero, suc, ◌+◌, ◌-◌, ◌*◌, ◌/◌, ◌%◌, ◌^◌, Bool, not, if◌then◌else◌}
use micromachine.Bits.{u32, get_bit}
use micromachine.Registers.{
  get_reg, set_reg, get_sp, set_sp, reg_pc, num_low_gp_regs, num_core_regs,
}
use micromachine.Machine.{M, pure, on_cpu, ask_cpu, ◌>>=◌, ◌>>◌, word, read, read32, write32}
use micromachine.Execution.Context.{branch_interworking}

-- `__builtin_popcount` of a word of 16 bits.
unfoldable pub popcount : ℕ → ℕ → ℕ
popcount zero w = 0
popcount (suc n) w = w % 2 + popcount n (w / 2)

-- `is_set`
unfoldable pub is_set : ℕ → ℕ → Bool
unfolding get_bit
is_set register_list rid = get_bit register_list rid

-- The loop of PUSH, with `left` registers to go.
unfoldable pub push_from : ℕ → ℕ → ℕ → ℕ → ℕ → M Unit
unfolding is_set get_reg write32
push_from zero rid register_list start_address count = pure tt
push_from (suc left) rid register_list start_address count =
    if is_set register_list rid
    then (do
      val ← ask_cpu (get_reg rid)
      _ ← write32 (u32 (start_address + count * 4)) val
      push_from left (rid + 1) register_list start_address (count + 1))
    else push_from left (rid + 1) register_list start_address count

unfoldable pub push : ℕ → M Unit
unfolding popcount get_sp set_sp push_from
push register_list = do
  sp ← ask_cpu get_sp
  let start_address = u32 (sp + (2 ^ 32 - 4 * popcount 16 register_list))
  push_from (num_core_regs - 1) 0 register_list start_address 0
  on_cpu (set_sp start_address)

-- The loop of POP; the result is the address behind the registers that are read.
unfoldable pub pop_from : ℕ → ℕ → ℕ → ℕ → M ℕ
unfolding is_set set_reg read32
pop_from zero rid register_list sp_base = pure sp_base
pop_from (suc left) rid register_list sp_base =
    if is_set register_list rid
    then (do
      value ← read32 sp_base
      on_cpu (set_reg rid value)
      pop_from left (rid + 1) register_list (u32 (sp_base + 4)))
    else pop_from left (rid + 1) register_list sp_base

unfoldable pub pop : ℕ → M Unit
unfolding popcount get_sp set_sp pop_from is_set read32 branch_interworking
pop register_list = do
  frame_start ← ask_cpu get_sp
  sp_base ← pop_from 8 0 register_list frame_start
  on_cpu (set_sp (u32 (frame_start + 4 * popcount 16 register_list)))
  (if is_set register_list reg_pc
      then (do address ← read32 sp_base; branch_interworking address)
      else pure tt)

-- The loop of STM; it returns at a write that fails.
unfoldable pub stm_from : ℕ → ℕ → ℕ → ℕ → ℕ → M Unit
unfolding is_set get_reg set_reg write32
stm_from zero rid register_list rn address = on_cpu (set_reg rn address)
stm_from (suc left) rid register_list rn address =
    if is_set register_list rid
    then (do
      val ← ask_cpu (get_reg rid)
      ok ← write32 address val
      (if not ok then pure tt else stm_from left (rid + 1) register_list rn (u32 (address + 4))))
    else stm_from left (rid + 1) register_list rn address

unfoldable pub stm : ℕ → ℕ → M Unit
unfolding get_reg stm_from
stm register_list rn = do
  address ← ask_cpu (get_reg rn)
  stm_from num_low_gp_regs 0 register_list rn address

-- The loop of LDM, which writes the address back unless the base is in the list.
unfoldable pub ldm_from : ℕ → ℕ → ℕ → ℕ → ℕ → M Unit
unfolding is_set set_reg read
ldm_from zero rid register_list rn address =
    on_cpu (λ c. if not (is_set register_list rn) then set_reg rn address c else c)
ldm_from (suc left) rid register_list rn address =
    if is_set register_list rid
    then (do
      r ← read word address
      on_cpu (λ c. if r.1 then set_reg rid r.0 c else c)
      ldm_from left (rid + 1) register_list rn (u32 (address + 4)))
    else ldm_from left (rid + 1) register_list rn address

unfoldable pub ldm : ℕ → ℕ → M Unit
unfolding get_reg ldm_from
ldm register_list rn = do
  address ← ask_cpu (get_reg rn)
  ldm_from num_low_gp_regs 0 register_list rn address
