-- ===== src/Execution/Transfers.antt =====
-- micromachine/execution/exec.hpp: the loads and the stores.
use micromachine.Base.{ℕ, ◌+◌, ◌-◌, ◌*◌, ◌^◌, ltb, if◌then◌else◌}
use micromachine.Bits.{u8, u16, u32, aligned}
use micromachine.Registers.{Cpu, get_reg, set_reg, get_sp, get_pc}
use micromachine.Machine.{
  M, pure, on_cpu, ask_cpu, ◌>>=◌, Access, byte, halfword, word, read, read32, write32, write16,
  write8,
}

-- The conversion of an `int8_t` and an `int16_t` to `uint32_t`.
unfoldable pub of_int8 : ℕ → ℕ
of_int8 value = if ltb value (2 ^ 7) then value else value + (2 ^ 32 - 2 ^ 8)

unfoldable pub of_int16 : ℕ → ℕ
of_int16 value = if ltb value (2 ^ 15) then value else value + (2 ^ 32 - 2 ^ 16)

-- A load that leaves the register alone when the access faults.
load : Access → (ℕ → ℕ) → ℕ → ℕ → M Unit
unfolding read set_reg
load a extend rt address = do
  r ← read a address
  on_cpu (λ c. if r.1 then set_reg rt (extend r.0) c else c)

keep : ℕ → ℕ
keep value = value

unfoldable pub sum_address : ℕ → ℕ → Cpu → ℕ
unfolding get_reg
sum_address rn rm c = u32 (get_reg rn c + get_reg rm c)

unfoldable pub offset_address : ℕ → ℕ → Cpu → ℕ
unfolding get_reg
offset_address rn offset c = u32 (get_reg rn c + offset)

unfoldable pub ldr_literal : ℕ → ℕ → M Unit
unfolding get_pc aligned read32 set_reg
ldr_literal imm8 rt = do
  address ← ask_cpu (λ c. u32 (aligned 4 (get_pc c) + imm8 * 4))
  value ← read32 address
  on_cpu (set_reg rt value)

unfoldable pub str_reg : ℕ → ℕ → ℕ → M Unit
unfolding get_reg sum_address write32
str_reg rt rn rm = do
  c ← ask_cpu (λ c. c)
  _ ← write32 (sum_address rn rm c) (get_reg rt c)
  pure tt

unfoldable pub strh_reg : ℕ → ℕ → ℕ → M Unit
unfolding get_reg sum_address write16
strh_reg rt rn rm = do
  c ← ask_cpu (λ c. c)
  _ ← write16 (sum_address rn rm c) (u16 (get_reg rt c))
  pure tt

unfoldable pub strb_reg : ℕ → ℕ → ℕ → M Unit
unfolding get_reg sum_address write8
strb_reg rt rn rm = do
  c ← ask_cpu (λ c. c)
  _ ← write8 (sum_address rn rm c) (u8 (get_reg rt c))
  pure tt

unfoldable pub ldrsb_reg : ℕ → ℕ → ℕ → M Unit
unfolding sum_address load of_int8
ldrsb_reg rt rn rm = do address ← ask_cpu (sum_address rn rm); load byte of_int8 rt address

unfoldable pub ldr_reg : ℕ → ℕ → ℕ → M Unit
unfolding sum_address load keep
ldr_reg rt rn rm = do address ← ask_cpu (sum_address rn rm); load word keep rt address

unfoldable pub ldrh_reg : ℕ → ℕ → ℕ → M Unit
unfolding sum_address load keep
ldrh_reg rt rn rm = do address ← ask_cpu (sum_address rn rm); load halfword keep rt address

unfoldable pub ldrb_reg : ℕ → ℕ → ℕ → M Unit
unfolding sum_address load keep
ldrb_reg rt rn rm = do address ← ask_cpu (sum_address rn rm); load byte keep rt address

unfoldable pub ldrsh_reg : ℕ → ℕ → ℕ → M Unit
unfolding sum_address load of_int16
ldrsh_reg rt rn rm = do address ← ask_cpu (sum_address rn rm); load halfword of_int16 rt address

unfoldable pub str_imm : ℕ → ℕ → ℕ → M Unit
unfolding get_reg offset_address write32
str_imm rt rn imm5 = do
  c ← ask_cpu (λ c. c)
  _ ← write32 (offset_address rn (imm5 * 4) c) (get_reg rt c)
  pure tt

unfoldable pub strb_imm : ℕ → ℕ → ℕ → M Unit
unfolding get_reg offset_address write8
strb_imm rt rn imm5 = do
  c ← ask_cpu (λ c. c)
  _ ← write8 (offset_address rn imm5 c) (u8 (get_reg rt c))
  pure tt

unfoldable pub strh_imm : ℕ → ℕ → ℕ → M Unit
unfolding get_reg offset_address write16
strh_imm rt rn imm5 = do
  c ← ask_cpu (λ c. c)
  _ ← write16 (offset_address rn (imm5 * 2) c) (u16 (get_reg rt c))
  pure tt

unfoldable pub ldr_imm : ℕ → ℕ → ℕ → M Unit
unfolding offset_address load keep
ldr_imm rt rn imm5 = do address ← ask_cpu (offset_address rn (imm5 * 4)); load word keep rt address

unfoldable pub ldrb_imm : ℕ → ℕ → ℕ → M Unit
unfolding offset_address load keep
ldrb_imm rt rn imm5 = do address ← ask_cpu (offset_address rn imm5); load byte keep rt address

unfoldable pub ldrh_imm : ℕ → ℕ → ℕ → M Unit
unfolding offset_address load keep
ldrh_imm rt rn imm5 = do
  address ← ask_cpu (offset_address rn (imm5 * 2))
  load halfword keep rt address

unfoldable pub str_sp_imm : ℕ → ℕ → M Unit
unfolding get_sp get_reg write32
str_sp_imm imm8 rt = do
  c ← ask_cpu (λ c. c)
  _ ← write32 (u32 (get_sp c + imm8 * 4)) (get_reg rt c)
  pure tt

unfoldable pub ldr_sp_imm : ℕ → ℕ → M Unit
unfolding get_sp read32 set_reg
ldr_sp_imm imm8 rt = do
  address ← ask_cpu (λ c. u32 (get_sp c + imm8 * 4))
  value ← read32 address
  on_cpu (set_reg rt value)
