-- ===== src/Machine/Memory/Sound.antt =====
-- Memory accesses that are defined, registers included (micromachine/memory/memory.hpp).
use micromachine.Base.{
  ℕ, ◌≡◌, sym, arith, subst, Bool, false, not, List, map, All, Option, none, some,
}
use micromachine.Registers.{Cpu}
use micromachine.Machine.State.{Machine, pure, raise_exception, on_cpu, ask_cpu}
use micromachine.Machine.Devices.{
  MappedRegister, cpuid, shpr2_reg, shpr3_reg, icsr_reg, aircr, ccr, syst_csr, syst_rvr, syst_cvr,
  syst_calib, gio_io, nvic_iser, nvic_icer, nvic_ispr, nvic_icpr, nvic_ipr, usart_cr1, usart_isr,
  usart_icr, usart_rx, usart_tx, set_register, get_register,
}
use micromachine.Machine.Memory.{
  Access, word, is_aligned, find_region, Stored, no_region, overrun, stored, store_regions,
  register_for, write, write_found, write_memory, finish_write, read, read_found, read_memory,
  finish_read, fault, read32, write32,
}
use micromachine.Machine.Outcome.{Ends, Keeps, Keeps-bind}
use micromachine.Machine.Memory.Shapes.{
  shape, IsWhole, KeepsShapes, store_regions_lem, Ends-if, find_region_lem,
}

-- The machine's mappings have these shapes, and the processor's state has the property.
unfoldable pub Holds : (Cpu → Type 0) → List (ℕ × ℕ × ℕ) → Machine → Type 0
Holds P shapes m = (map shape m.regions ≡ shapes) × P m.cpu

module _ (P : Cpu → Type 0) (shapes : List (ℕ × ℕ × ℕ)) (whole : All IsWhole shapes) where
  abbrev I : Machine → Type 0
  I = Holds P shapes

  finish_write_lem :
      (s : Stored) (m : Machine) → KeepsShapes shapes s → I m → Ends I (finish_write s m)
  unfolding KeepsShapes finish_write Ends Holds raise_exception fault
  finish_write_lem no_region m h i = i
  finish_write_lem overrun m h i = absurd h
  finish_write_lem (stored mms) m h i = (h, i.1)

  fault_lem : {A : Type 0} (x : A) → Keeps I I (fault x)
  unfolding fault raise_exception Keeps Ends Holds
  fault_lem x m i = i

  write_memory_lem : (a : Access) (address val : ℕ) → Keeps I I (write_memory a address val)
  unfolding Keeps write_memory Holds
  write_memory_lem a address val m i =
      Ends-if (not (is_aligned a address)) I (fault false m)
        (finish_write (store_regions a address val m.regions) m) (λ _. fault_lem false m i)
        (λ e.
          finish_write_lem (store_regions a address val m.regions) m
            (subst (λ l. KeepsShapes l (store_regions a address val m.regions)) i.0
              (store_regions_lem a address val m.regions (ground arith)
                (subst (λ l. All IsWhole l) (sym i.0) whole)))
            i)

  set_register_lem : (r : MappedRegister) (val : ℕ) (m : Machine) → I m → I (set_register r val m)
  unfolding set_register Holds
  set_register_lem cpuid val m i = i
  set_register_lem shpr2_reg val m i = i
  set_register_lem shpr3_reg val m i = i
  set_register_lem icsr_reg val m i = i
  set_register_lem aircr val m i = i
  set_register_lem ccr val m i = i
  set_register_lem syst_csr val m i = i
  set_register_lem syst_rvr val m i = i
  set_register_lem syst_cvr val m i = i
  set_register_lem syst_calib val m i = i
  set_register_lem gio_io val m i = i
  set_register_lem nvic_iser val m i = i
  set_register_lem nvic_icer val m i = i
  set_register_lem nvic_ispr val m i = i
  set_register_lem nvic_icpr val m i = i
  set_register_lem (nvic_ipr n) val m i = i
  set_register_lem usart_cr1 val m i = i
  set_register_lem usart_isr val m i = i
  set_register_lem usart_icr val m i = i
  set_register_lem usart_rx val m i = i
  set_register_lem usart_tx val m i = i

  get_register_lem : (r : MappedRegister) (m : Machine) → I m → I (get_register r m).1
  unfolding get_register Holds
  get_register_lem cpuid m i = i
  get_register_lem shpr2_reg m i = i
  get_register_lem shpr3_reg m i = i
  get_register_lem icsr_reg m i = i
  get_register_lem aircr m i = i
  get_register_lem ccr m i = i
  get_register_lem syst_csr m i = i
  get_register_lem syst_rvr m i = i
  get_register_lem syst_cvr m i = i
  get_register_lem syst_calib m i = i
  get_register_lem gio_io m i = i
  get_register_lem nvic_iser m i = i
  get_register_lem nvic_icer m i = i
  get_register_lem nvic_ispr m i = i
  get_register_lem nvic_icpr m i = i
  get_register_lem (nvic_ipr n) m i = i
  get_register_lem usart_cr1 m i = i
  get_register_lem usart_isr m i = i
  get_register_lem usart_icr m i = i
  get_register_lem usart_rx m i = i
  get_register_lem usart_tx m i = i

  pub Keeps-write : (a : Access) (address val : ℕ) → Keeps I I (write a address val)
  unfolding write Keeps
  Keeps-write a address val = found (register_for a address)
    where
      found : (r : Option MappedRegister) → Keeps I I (write_found r a address val)
      found none = write_memory_lem a address val
      found (some r) = λ m i. set_register_lem r val m i

  read_memory_lem : (a : Access) (address : ℕ) → Keeps I I (read_memory a address)
  unfolding Keeps read_memory Holds
  read_memory_lem a address m i =
      Ends-if (not (is_aligned a address)) I (fault {A = ℕ × Bool} (0, false) m)
        (finish_read a address (find_region address m.regions) m)
        (λ _. fault_lem {A = ℕ × Bool} (0, false) m i)
        (λ e.
          find_region_lem a address m.regions I m (ground arith)
            (subst (λ l. All IsWhole l) (sym i.0) whole) i i)

  pub Keeps-read : (a : Access) (address : ℕ) → Keeps I I (read a address)
  unfolding read Keeps
  Keeps-read a address = found (register_for a address)
    where
      found : (r : Option MappedRegister) → Keeps I I (read_found r a address)
      found none = read_memory_lem a address
      found (some r) = λ m i. get_register_lem r m i

  pub Keeps-read32 : (address : ℕ) → Keeps I I (read32 address)
  unfolding read32 Keeps
  Keeps-read32 address =
      Keeps-bind I I I (read word address) (λ r. pure r.0) (Keeps-read word address) (λ r m i. i)

  pub Keeps-write32 : (address val : ℕ) → Keeps I I (write32 address val)
  unfolding write32
  Keeps-write32 address val = Keeps-write word address val

  pub Keeps-on_cpu : (f : Cpu → Cpu) → ((c : Cpu) → P c → P (f c)) → Keeps I I (on_cpu f)
  unfolding Keeps Holds Ends
  Keeps-on_cpu f h m i = (i.0, h m.cpu i.1)

  pub Keeps-ask_cpu : {A : Type 0} (f : Cpu → A) → Keeps I I (ask_cpu f)
  unfolding Keeps Holds Ends
  Keeps-ask_cpu f m i = i
