-- ===== src/Processor/Ends.antt =====
-- Taking an exception, and the step of the processor, are defined (micromachine/cpu.hpp).
use micromachine.Base.{
  ℕ, ◌+◌, ◌-◌, ◌*◌, ◌^◌, ◌<◌, ◌≡◌, refl, sym, ap, arith, subst, true, false, not, ◌==◌,
  if◌then◌else◌, List, map, All, Option, none, some, bit_and,
}
use micromachine.Bits.{u32, bit_of, set_bit_of}
use micromachine.Registers.{
  Cpu, handler, get_reg, get_sp, set_sp, set_sp_sel, set_exception_number, get_pc, set_pc,
  clear_dirty_status, exception_number, thumb_flag, set_thumb_flag, branch_pc,
}
use micromachine.Execution.Frame.{exc_return_of}
use micromachine.Exceptions.{kind, set_active, set_pending, ex_hardfault}
use micromachine.Decoder.{decode}
use micromachine.Instruction.{Instruction}
use micromachine.Machine.{
  Machine, M, ◌>>=◌, ◌>>◌, pure, modify, asks, on_cpu, ask_cpu, raise_exception, word, read32,
  write32, read_unchecked,
}
use micromachine.Machine.Outcome.{Ends, Keeps, Keeps-bind, Keeps-asks, Keeps-modify}
use micromachine.Machine.Memory.Shapes.{shape, IsWhole, Ends-if}
use micromachine.Machine.Memory.Sound.{Holds, Keeps-read32, Keeps-write32, Keeps-ask_cpu}
use micromachine.Execution.Context.{push_stack, exception_entry, branch_link_interworking}
use micromachine.Execution.Dispatch.{dispatch}
use micromachine.Execution.Defined.{IsAny, Keeps-IsAny, Keeps-asked}
use micromachine.Execution.Returns.{IsReturnable}
use micromachine.Execution.Effects.{HasDefinedShift}
use micromachine.Execution.Runs.{runs}
use micromachine.Processor.{
  fetch, next_exception_to_take, next_address, execute, finish, check_thumb, step_processor,
}

module _ (shapes : List (ℕ × ℕ × ℕ)) (whole : All IsWhole shapes) where
  abbrev I : Machine → Type 0
  I = Holds IsAny shapes

  Keeps-slot :
      {B : Type 0} (a v : ℕ) (rest : M B) → Keeps I I rest → Keeps I I (write32 a v >>= λ _. rest)
  Keeps-slot a v rest h =
      Keeps-bind I I I (write32 a v) (λ _. rest) (Keeps-write32 IsAny shapes whole a v) (λ _. h)

  Keeps-push_stack : (return_address : ℕ) → Keeps I I (push_stack return_address)
  unfolding push_stack
  Keeps-push_stack return_address = Keeps-asked IsAny shapes whole I get_sp _ (λ sp.
      let frame : ℕ = bit_and (u32 (sp + (2 ^ 32 - 32))) 0xfffffffb in
      Keeps-bind I I I (on_cpu (set_sp frame)) _ (Keeps-IsAny shapes whole (set_sp frame)) (λ _.
        Keeps-asked IsAny shapes whole I (λ c. c.xpsr) _
          (λ xpsr.
            Keeps-asked IsAny shapes whole I (λ c. c) _
              (λ c. Keeps-slot frame (get_reg 0 c) _ (
                Keeps-slot (u32 (frame + 4)) (get_reg 1 c) _ (
                  Keeps-slot (u32 (frame + 8)) (get_reg 2 c) _ (
                    Keeps-slot (u32 (frame + 12)) (get_reg 3 c) _ (
                      Keeps-slot (u32 (frame + 16)) (get_reg 12 c) _ (
                        Keeps-slot (u32 (frame + 20)) c.lr _ (
                          Keeps-slot (u32 (frame + 24)) return_address _ (
                            Keeps-slot (u32 (frame + 28)) (set_bit_of 9 xpsr (bit_of 2 sp)) _ (
                              Keeps-IsAny shapes whole
                                (λ c. record c { lr = exc_return_of c })))))))))))))

  Keeps-branch : (address : ℕ) → Keeps I I (branch_link_interworking address)
  unfolding branch_link_interworking
  Keeps-branch address =
      Keeps-bind I I I (on_cpu (set_thumb_flag (bit_of 0 address))) _
        (Keeps-IsAny shapes whole (set_thumb_flag (bit_of 0 address)))
        (λ _. Keeps-IsAny shapes whole (branch_pc (set_bit_of 0 address false)))

  Keeps-exception_entry : (ex here next : ℕ) → Keeps I I (exception_entry ex here next)
  unfolding exception_entry Holds
  Keeps-exception_entry ex here next =
      Keeps-bind I I I (push_stack address) _ (Keeps-push_stack address) (λ _.
        Keeps-bind I I I (on_cpu enter) _ (Keeps-IsAny shapes whole enter) (λ _.
          Keeps-bind I I I (modify activate) _ (Keeps-modify I activate (λ m i. i)) (λ _.
            Keeps-bind I I I (read32 (4 * kind ex)) branch_link_interworking
              (Keeps-read32 IsAny shapes whole (4 * kind ex)) Keeps-branch)))
    where
      address : ℕ
      address = if kind ex == ex_hardfault then here else next

      enter : Cpu → Cpu
      enter c = set_sp_sel false (set_exception_number (kind ex) (record c { mode = handler }))

      activate : Machine → Machine
      activate m = record m { exceptions = set_pending ex false (set_active ex true m.exceptions) }

-- The processor's state when its instruction starts.
unfoldable pub started : Cpu → Cpu
started c = clear_dirty_status (set_pc (u32 (get_pc c + 4)) c)

number-started : (c : Cpu) → exception_number (started c) ≡ exception_number c
unfolding started exception_number clear_dirty_status set_pc
number-started c = refl

module _ (m : Machine) (whole : All IsWhole (map shape m.regions))
    (number : exception_number m.cpu < 32) where
  abbrev shapes : List (ℕ × ℕ × ℕ)
  shapes = map shape m.regions

  abbrev J : Machine → Type 0
  J = Holds IsAny shapes

  -- The processor's state is the one of the start.
  abbrev S : Machine → Type 0
  S = Holds (λ c. c ≡ m.cpu) shapes

  Keeps-check_thumb : Keeps S S check_thumb
  unfolding check_thumb Keeps Holds Ends raise_exception
  Keeps-check_thumb n i = Ends-if (not (thumb_flag n.cpu)) S _ _ (λ _. i) (λ _. i)

  abbrev T : Machine → Type 0
  T = Holds (λ c. c ≡ started m.cpu) shapes

  abbrev start : Cpu → Cpu
  start c = clear_dirty_status (set_pc (u32 (get_pc m.cpu + 4)) c)

  Keeps-start : Keeps S T (on_cpu start)
  unfolding Keeps Holds Ends started
  Keeps-start n i = (i.0, ap start i.1)

  Keeps-dispatch : (i : Instruction) → HasDefinedShift i (started m.cpu) → Keeps T J (dispatch i)
  unfolding Keeps Holds IsReturnable
  Keeps-dispatch i fits n h = runs shapes whole i n (subst (HasDefinedShift i) (sym h.1) fits) (
    h.0,
    subst (λ c. exception_number c < 32) (sym h.1) (omega (arith, number, number-started m.cpu)),
  )

  Keeps-relaxed : {A : Type 0} (x : A) → Keeps S J (pure x)
  unfolding Keeps Ends Holds IsAny
  Keeps-relaxed x n i = (i.0, tt)

  Keeps-execute :
      (w : ℕ)
      → HasDefinedShift (decode w) (started m.cpu)
      → (ex : Option ℕ) → Keeps S J (execute (get_pc m.cpu) w ex)
  unfolding execute
  Keeps-execute w fits (some ex) = Keeps-relaxed (some ex)
  Keeps-execute w fits none =
      Keeps-bind S T J (on_cpu start) (λ _. dispatch (decode w) >> asks next_exception_to_take)
        Keeps-start
        (λ _.
          Keeps-bind T J J (dispatch (decode w)) (λ _. asks next_exception_to_take)
            (Keeps-dispatch (decode w) fits) (λ _. Keeps-asks J next_exception_to_take))

  Keeps-finish : (address next w : ℕ) (ex : Option ℕ) → Keeps J J (finish address next w ex)
  unfolding finish
  Keeps-finish address next w none = Keeps-IsAny shapes whole (set_pc next)
  Keeps-finish address next w (some ex) =
      Keeps-bind J J J (on_cpu (set_pc address)) (λ _. exception_entry ex address next)
        (Keeps-IsAny shapes whole (set_pc address))
        (λ _. Keeps-exception_entry shapes whole ex address next)

  -- The step once the instruction is fetched.
  abbrev fetched : ℕ → ℕ → M Unit
  fetched address w =
      check_thumb
      >> (asks next_exception_to_take >>= λ asynchronous. execute address w asynchronous >>= λ ex.
          ask_cpu (next_address address w) >>= λ next. finish address next w ex)

  Keeps-fetched :
      (w : ℕ) → HasDefinedShift (decode w) (started m.cpu) → Keeps S J (fetched (get_pc m.cpu) w)
  Keeps-fetched w fits = Keeps-bind S S J check_thumb _ Keeps-check_thumb (λ _.
      Keeps-bind S S J (asks next_exception_to_take) _ (Keeps-asks S next_exception_to_take) (λ ex.
        Keeps-bind S J J (execute (get_pc m.cpu) w ex) _ (Keeps-execute w fits ex) (λ ex.
          Keeps-bind J J J (ask_cpu (next_address (get_pc m.cpu) w)) _
            (Keeps-ask_cpu IsAny shapes whole (next_address (get_pc m.cpu) w))
            (λ next. Keeps-finish (get_pc m.cpu) next w ex))))

  pub step_processor-Ends :
      (w : ℕ)
      → read_unchecked word (get_pc m.cpu) m ≡ some w
      → HasDefinedShift (decode w) (started m.cpu)
      → Ends J (step_processor m)
  unfolding step_processor fetch Keeps Holds
  step_processor-Ends w e fits =
      subst (λ o. Ends J (after o)) (sym e) (Keeps-fetched w fits m (refl, refl))
    where
      held : Option ℕ → Option (ℕ × Machine)
      held o = elim o [ none ↦ none | some w ↦ some (w, m) ]

      after : Option ℕ → Option (Unit {0} × Machine)
      after o = elim (held o) [ none ↦ none | some (w, n) ↦ fetched (get_pc m.cpu) w n ]
