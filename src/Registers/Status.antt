-- ===== src/Registers/Status.antt =====
-- micromachine/registers/special_registers: the flags, the exception number and the thumb bit of
-- the program status register.
use micromachine.Base.{ℕ, Bool, true, not, ◌&&◌, ◌==◌, if◌then◌else◌, bool_eq}
use micromachine.Bits.{extract, write_bits, bit_of, set_bit_of}
use micromachine.Registers.State.{Cpu}

-- apsr_reg
unfoldable pub negative_flag : Cpu → Bool
negative_flag c = bit_of 31 c.xpsr

unfoldable pub zero_flag : Cpu → Bool
zero_flag c = bit_of 30 c.xpsr

unfoldable pub carry_flag : Cpu → Bool
carry_flag c = bit_of 29 c.xpsr

unfoldable pub overflow_flag : Cpu → Bool
overflow_flag c = bit_of 28 c.xpsr

unfoldable pub set_carry_flag : Bool → Cpu → Cpu
set_carry_flag flag c = record c { xpsr = set_bit_of 29 c.xpsr flag }

unfoldable pub set_overflow_flag : Bool → Cpu → Cpu
set_overflow_flag flag c = record c { xpsr = set_bit_of 28 c.xpsr flag }

unfoldable pub apply_zero : ℕ → Cpu → Cpu
apply_zero val c = record c { xpsr = set_bit_of 30 c.xpsr (0 == val) }

-- The slice at bit 31 of the value is copied into the slice at bit 31 of the register.
unfoldable pub apply_neg : ℕ → Cpu → Cpu
apply_neg val c = record c { xpsr = write_bits 32 c.xpsr 31 val 31 1 }

unfoldable pub condition_passed : ℕ → Cpu → Bool
unfolding negative_flag zero_flag carry_flag overflow_flag
condition_passed condition c =
    if condition == 0
    then z
    else if condition == 1
    then not z
    else if condition == 2
    then cf
    else if condition == 3
    then not cf
    else if condition == 4
    then n
    else if condition == 5
    then not n
    else if condition == 6
    then v
    else if condition == 7
    then not v
    else if condition == 8
    then cf && not z
    else if condition == 9
    then not (cf && not z)
    else if condition == 10
    then bool_eq n v
    else if condition == 11
    then not (bool_eq n v)
    else if condition == 12
    then bool_eq n v && not z
    else if condition == 13
    then not (bool_eq n v && not z)
    else true
  where
    n : Bool
    n = negative_flag c

    z : Bool
    z = zero_flag c

    cf : Bool
    cf = carry_flag c

    v : Bool
    v = overflow_flag c

-- ipsr_reg
unfoldable pub exception_number : Cpu → ℕ
exception_number c = extract 32 0 6 c.xpsr

unfoldable pub set_exception_number : ℕ → Cpu → Cpu
set_exception_number exception c = record c { xpsr = write_bits 32 c.xpsr 0 exception 0 6 }

-- epsr_reg
unfoldable pub thumb_flag : Cpu → Bool
thumb_flag c = bit_of 24 c.xpsr

unfoldable pub set_thumb_flag : Bool → Cpu → Cpu
set_thumb_flag flag c = record c { xpsr = set_bit_of 24 c.xpsr flag }
