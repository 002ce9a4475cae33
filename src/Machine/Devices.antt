-- ===== src/Machine/Devices.antt =====
-- The registers that the program sees in memory: the table of micromachine/mcu.hpp, and what a
-- read and a write of each do (micromachine/registers/system_control, micromachine/nvic.hpp,
-- micromachine/registers/custom/generic_io_reg.hpp).
use micromachine.Base.{
  ℕ, bit_and, bit_or, true, false, ◌||◌, if◌then◌else◌, List, [], ◌∷◌, Option, none, some, update,
}
use micromachine.Bits.{not32, extract, write_bits, bit_of, set_bit_of}
use micromachine.Registers.{exception_number}
use micromachine.Exceptions.{Exceptions, top_pending, kind, reset_exceptions, ex_invalid}
use micromachine.Systick
use micromachine.Usart
use micromachine.Machine.State.{Machine}

pub data MappedRegister : Type 0 where
  cpuid shpr2_reg shpr3_reg icsr_reg aircr ccr : MappedRegister
  syst_csr syst_rvr syst_cvr syst_calib gio_io : MappedRegister
  nvic_iser nvic_icer nvic_ispr nvic_icpr : MappedRegister
  nvic_ipr : ℕ → MappedRegister
  usart_cr1 usart_isr usart_icr usart_rx usart_tx : MappedRegister

-- The address of VTOR is given to the object of AIRCR, and the addresses of the priority
-- registers are those that nvic.hpp declares.
unfoldable pub system_control_register_map : List (ℕ × MappedRegister)
system_control_register_map =
    (0xe000ed00, cpuid)
    ∷ (0xe000ed1c, shpr2_reg)
    ∷ (0xe000ed20, shpr3_reg)
    ∷ (0xe000ed04, icsr_reg)
    ∷ (0xe000ed08, aircr)
    ∷ (0xe000ed0c, aircr)
    ∷ (0xe000ed14, ccr)
    ∷ (0xe000e010, syst_csr)
    ∷ (0xe000e014, syst_rvr)
    ∷ (0xe000e018, syst_cvr)
    ∷ (0xe000e01c, syst_calib)
    ∷ (0xe000ef90, gio_io)
    ∷ (0xe000e100, nvic_iser)
    ∷ (0xe000e180, nvic_icer)
    ∷ (0xe000e200, nvic_ispr)
    ∷ (0xe000e280, nvic_icpr)
    ∷ (0xe000e400, nvic_ipr 0)
    ∷ (0xe000e404, nvic_ipr 1)
    ∷ (0xe000e408, nvic_ipr 2)
    ∷ (0xe000e40c, nvic_ipr 3)
    ∷ (0xe000e40e, nvic_ipr 4)
    ∷ (0xe000e410, nvic_ipr 5)
    ∷ (0xe000e414, nvic_ipr 6)
    ∷ (0xe000e418, nvic_ipr 7)
    ∷ (0x40000000, usart_cr1)
    ∷ (0x40000004, usart_isr)
    ∷ (0x40000008, usart_icr)
    ∷ (0x4000000c, usart_rx)
    ∷ (0x40000010, usart_tx)
    ∷ []

-- interrupt_control_state_reg
unfoldable pub set_icsr : ℕ → Exceptions → Exceptions
set_icsr word e =
    let nmi = set_bit_of 31 e.icsr (bit_of 31 e.icsr || bit_of 31 word) in
    let pendsv = set_bit_of 28 nmi (bit_of 28 nmi || bit_of 28 word) in
    let systick = set_bit_of 26 pendsv (bit_of 26 pendsv || bit_of 26 word) in
    let pendsv_cleared = if bit_of 27 word then set_bit_of 28 systick false else systick in
    let cleared = if bit_of 25 word then set_bit_of 26 pendsv_cleared false else pendsv_cleared in
    record e { icsr = cleared }

top_kind : Option ℕ → ℕ
unfolding kind
top_kind none = ex_invalid
top_kind (some n) = kind n

unfoldable pub get_icsr : Machine → ℕ
unfolding top_kind top_pending exception_number
get_icsr m =
    let pending = top_kind (top_pending m.exceptions) in
    write_bits 32 (write_bits 32 m.exceptions.icsr 12 pending 0 8) 0 (exception_number m.cpu) 0 8

-- interrupt_and_reset_control_reg
unfoldable pub set_aircr : ℕ → Machine → Machine
unfolding reset_exceptions
set_aircr word m = record m {
  exceptions = if bit_of 1 word then reset_exceptions m.exceptions else m.exceptions;
  signals = if bit_of 2 word then record m.signals { reset = true } else m.signals;
}

-- generic_io_reg
unfoldable pub set_gio : ℕ → Machine → Machine
set_gio val m = record m {
  io_output = if m.has_io_callback then extract 32 0 8 val ∷ m.io_output else m.io_output;
}

abbrev ipr_mask : ℕ
ipr_mask = 0xc0c0c0c0

-- `iregister::operator=`: the `set` of each register.
unfoldable pub set_register : MappedRegister → ℕ → Machine → Machine
unfolding set_icsr set_aircr set_gio
set_register cpuid word m = m
set_register shpr2_reg word m = record m {
  exceptions = record m.exceptions { shpr2 = bit_and word 0xc0000000 };
}
set_register shpr3_reg word m = record m {
  exceptions = record m.exceptions { shpr3 = bit_and word 0xc0c00000 };
}
set_register icsr_reg word m = record m { exceptions = set_icsr word m.exceptions }
set_register aircr word m = set_aircr word m
set_register ccr word m = m
set_register syst_csr word m = record m { systick = Systick.set_control word m.systick }
set_register syst_rvr word m = record m { systick = Systick.set_reload word m.systick }
set_register syst_cvr word m = record m { systick = Systick.set_current word m.systick }
set_register syst_calib word m = record m { systick = Systick.set_calib word m.systick }
set_register gio_io word m = set_gio word m
set_register nvic_iser word m = record m {
  exceptions = record m.exceptions { enable_statuses = bit_or m.exceptions.enable_statuses word };
}
set_register nvic_icer word m = record m {
  exceptions = record m.exceptions {
    enable_statuses = bit_and m.exceptions.enable_statuses (not32 word);
  };
}
set_register nvic_ispr word m = record m {
  exceptions = record m.exceptions { pending_statuses = bit_or m.exceptions.pending_statuses word };
}
set_register nvic_icpr word m = record m {
  exceptions = record m.exceptions {
    pending_statuses = bit_and m.exceptions.pending_statuses (not32 word);
  };
}
set_register (nvic_ipr n) word m = record m {
  exceptions = record m.exceptions {
    priority_regs = update m.exceptions.priority_regs n (bit_and word ipr_mask);
  };
}
set_register usart_cr1 word m = record m { usart = Usart.set_cr1 word m.usart }
set_register usart_isr word m = m
set_register usart_icr word m = record m { usart = Usart.set_clear word m.usart }
set_register usart_rx word m = m
set_register usart_tx word m = record m { usart = Usart.set_tx word m.usart }

-- `operator uint32_t`: the `get` of each register. Only that of the serial port's receive register
-- changes the state.
unfoldable pub get_register : MappedRegister → Machine → ℕ × Machine
unfolding get_icsr
get_register cpuid m = (0x617c4d4d, m)
get_register shpr2_reg m = (bit_and m.exceptions.shpr2 0xc0000000, m)
get_register shpr3_reg m = (bit_and m.exceptions.shpr3 0xc0c00000, m)
get_register icsr_reg m = (get_icsr m, m)
get_register aircr m = (0x05fa0000, m)
get_register ccr m = (0b1000001000, m)
get_register syst_csr m = (Systick.get_control m.systick, m)
get_register syst_rvr m = (Systick.get_reload m.systick, m)
get_register syst_cvr m = (Systick.get_current m.systick, m)
get_register syst_calib m = (Systick.get_calib m.systick, m)
get_register gio_io m = (0, m)
get_register nvic_iser m = (m.exceptions.enable_statuses, m)
get_register nvic_icer m = (m.exceptions.enable_statuses, m)
get_register nvic_ispr m = (m.exceptions.pending_statuses, m)
get_register nvic_icpr m = (m.exceptions.pending_statuses, m)
get_register (nvic_ipr n) m = (m.exceptions.priority_regs n, m)
get_register usart_cr1 m = (m.usart.control, m)
get_register usart_isr m = (m.usart.status, m)
get_register usart_icr m = (0, m)
get_register usart_rx m = ((Usart.get_rx m.usart).0, record m { usart = (Usart.get_rx m.usart).1 })
get_register usart_tx m = (0, m)
