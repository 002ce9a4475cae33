-- ===== src/Processor/Reset.antt =====
-- The state of the processor after `cpu::reset` of micromachine/cpu.hpp.
use micromachine.Base.{
  ℕ, ◌^◌, ◌<◌, ◌≡◌, refl, ap, ap₂, arith, ◌∙◌, Bool, true, false, if◌then◌else◌, bit_and, update,
  to_bool, Option, none, some,
}
use micromachine.Bits.{clear_bits, bit_of, set_bit_of}
use micromachine.Bits.Laws.{clear_bits_arith}
use micromachine.Bits.Slices.{extract-write_bits, extract-write_bits_above}
use micromachine.Bits.Flags.{bit_of-set_bit_of, set_bit_of-lt}
use micromachine.Registers.{
  Cpu, StackType, thread, main, process, is_in_thread_mode, sp_sel, get_pc, set_pc, set_sp,
  thumb_flag, set_thumb_flag, exception_number, reset_core, reset_from, set_reg, current_bank,
  set_specific_banked_sp,
}
use micromachine.Exceptions.{reset_exceptions}
use micromachine.Machine.{Machine, word, read_unchecked}
use micromachine.Processor.{reset_cpu, reset_status, fetch, reset_processor}

-- The program status register.
module _ (c : Cpu) (small : c.xpsr < 2 ^ 32) where
  cleared_small : clear_bits 32 c.xpsr 28 4 < 2 ^ 32
  cleared_small = omega (arith, clear_bits_arith 32 c.xpsr 28 4 small (omega arith))

  status_thumb : thumb_flag (reset_status c) ≡ true
  unfolding thumb_flag reset_status set_thumb_flag bit_of
  status_thumb =
      ap to_bool (
        extract-write_bits_above 32 (set_bit_of 24 (clear_bits 32 c.xpsr 28 4) true) 0 0 0 6
          (set_bit_of-lt 24 (clear_bits 32 c.xpsr 28 4) true cleared_small (omega arith))
          (omega arith) 24 1 (omega arith) (omega arith))
      ∙ bit_of-set_bit_of 24 (clear_bits 32 c.xpsr 28 4) true cleared_small (omega arith)

  status_exception : exception_number (reset_status c) ≡ 0
  unfolding exception_number reset_status set_thumb_flag
  status_exception =
      extract-write_bits 32 (set_bit_of 24 (clear_bits 32 c.xpsr 28 4) true) 0 0 0 6
        (set_bit_of-lt 24 (clear_bits 32 c.xpsr 28 4) true cleared_small (omega arith))
        (omega arith)
      ∙ omega arith

bank_main :
    (w : ℕ) (c : Cpu) (b : Bool)
    → (set_specific_banked_sp (if b then process else main) w c).sp_main
      ≡ (if b then c.sp_main else w)
unfolding set_specific_banked_sp
bank_main w c true = refl
bank_main w c false = refl

-- What a write of the stack pointer leaves alone.
module _ (w : ℕ) (c : Cpu) where
  bank_keeps :
      (b : StackType)
      → ((set_specific_banked_sp b w c).mode ≡ c.mode)
        × ((set_specific_banked_sp b w c).control ≡ c.control)
        × ((set_specific_banked_sp b w c).xpsr ≡ c.xpsr)
        × ((set_specific_banked_sp b w c).gp ≡ c.gp)
  unfolding set_specific_banked_sp
  bank_keeps main = (refl, refl, refl, refl)
  bank_keeps process = (refl, refl, refl, refl)

  sp_keeps :
      ((set_sp w c).mode ≡ c.mode)
      × ((set_sp w c).control ≡ c.control)
      × ((set_sp w c).xpsr ≡ c.xpsr)
      × ((set_sp w c).gp ≡ c.gp)
  unfolding set_sp
  sp_keeps = bank_keeps (current_bank c)

  -- In thread mode the control register says which stack pointer is written.
  main_after : c.mode ≡ thread → (set_sp w c).sp_main ≡ (if sp_sel c then c.sp_main else w)
  unfolding set_sp current_bank
  main_after in_thread =
      ap (λ (b : Bool). (set_specific_banked_sp (if b then bank else main) w c).sp_main)
        (ap is_in_thread_mode in_thread)
      ∙ by_bank (sp_sel c)
    where
      bank : StackType
      bank = if sp_sel c then process else main

      by_bank :
          (b : Bool)
          → (set_specific_banked_sp (if b then process else main) w c).sp_main
            ≡ (if b then c.sp_main else w)
      by_bank b = bank_main w c b

module _ (c : Cpu) where
  zeroed : Cpu
  unfolding reset_core reset_from
  zeroed = reset_core (record c { mode = thread })

  cleared : ℕ → ℕ
  cleared =
      update
        (update
          (update
            (update
              (update
                (update
                  (update
                    (update (update (update (update (update (update c.gp 0 0) 1 0) 2 0) 3 0) 4 0) 5
                      0)
                    6 0)
                  7 0)
                8 0)
              9 0)
            10 0)
          11 0)
        12 0

  all_cleared : (r : ℕ) → r < 13 → cleared r ≡ 0
  unfolding cleared
  all_cleared r h = ground arith

  zeroed_keeps :
      (zeroed.mode ≡ thread)
      × (zeroed.control ≡ c.control)
      × (zeroed.xpsr ≡ c.xpsr)
      × (zeroed.gp ≡ cleared)
  unfolding zeroed reset_core reset_from set_reg set_pc cleared
  zeroed_keeps = sp_keeps 0 (record c { gp = cleared; mode = thread })

  zeroed_main : zeroed.sp_main ≡ (if sp_sel c then c.sp_main else 0)
  unfolding zeroed reset_core reset_from set_reg set_pc cleared sp_sel
  zeroed_main = main_after 0 (record c { gp = cleared; mode = thread }) refl

module _ (sp pc : ℕ) (c : Cpu) (small : c.xpsr < 2 ^ 32) where
  up : Cpu
  up = record (set_pc pc (set_sp sp (zeroed c))) { lr = 0 }

  up_small : up.xpsr < 2 ^ 32
  unfolding up set_pc
  up_small = omega (arith, (sp_keeps sp (zeroed c)).2, (zeroed_keeps c).2)

  pub reset_main : (reset_cpu sp pc c).sp_main ≡ (if sp_sel c then c.sp_main else sp)
  unfolding reset_cpu reset_status set_thumb_flag set_pc up zeroed sp_sel
  reset_main =
      main_after sp (zeroed c) (zeroed_keeps c).0
      ∙ (ap₂ (λ (b : Bool) (t : ℕ). if b then t else sp) (ap (bit_of 1) (zeroed_keeps c).1)
            (zeroed_main c)
          ∙ same (bit_of 1 c.control))
    where
      same :
          (b : Bool)
          → (if b then (if b then c.sp_main else 0) else sp) ≡ (if b then c.sp_main else sp)
      same true = refl
      same false = refl

  pub reset_gp : (r : ℕ) → r < 13 → (reset_cpu sp pc c).gp r ≡ 0
  unfolding reset_cpu reset_status set_thumb_flag set_pc up zeroed
  reset_gp r h =
      ap (λ (f : ℕ → ℕ). f r) ((sp_keeps sp (zeroed c)).3 ∙ (zeroed_keeps c).3) ∙ all_cleared c r h

  pub reset_mode : (reset_cpu sp pc c).mode ≡ thread
  unfolding reset_cpu reset_status set_thumb_flag set_pc up zeroed
  reset_mode = (sp_keeps sp (zeroed c)).0 ∙ (zeroed_keeps c).0

  pub reset_pc : get_pc (reset_cpu sp pc c) ≡ bit_and 0xfffffffe pc
  unfolding reset_cpu reset_status set_thumb_flag set_pc get_pc
  reset_pc = refl

  pub reset_flags :
      (thumb_flag (reset_cpu sp pc c) ≡ true) × (exception_number (reset_cpu sp pc c) ≡ 0)
  unfolding reset_cpu up zeroed thumb_flag exception_number
  reset_flags = (status_thumb up up_small, status_exception up up_small)

-- The machine after the reset of its processor.
unfoldable pub processor_reset : ℕ → ℕ → Machine → Machine
processor_reset pc first_word m = record m {
  cpu = reset_cpu (bit_and first_word 0xfffffffc) pc m.cpu;
  exceptions = reset_exceptions m.exceptions;
  signals = record m.signals { halt = false; enter_low_power = false };
}

pub reset_processor_returns :
    (pc first_word : ℕ) (m : Machine)
    → read_unchecked word 0 m ≡ some first_word
    → reset_processor pc m ≡ some (tt, processor_reset pc first_word m)
unfolding reset_processor fetch processor_reset
reset_processor_returns pc first_word m e = ap (λ (o : Option ℕ). fetched o) e
  where
    first : Option ℕ → Option (ℕ × Machine)
    first o = elim o [ none ↦ none | some w ↦ some (w, m) ]

    fetched : Option ℕ → Option (Unit {0} × Machine)
    fetched o = elim (first o) [ none ↦ none | some (w, n) ↦ some (tt, processor_reset pc w n) ]
