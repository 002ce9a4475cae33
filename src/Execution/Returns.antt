-- ===== src/Execution/Returns.antt =====
-- The return from an exception, and POP, which can be one, are defined
-- (micromachine/execution/context_switcher.hpp, interworking_brancher.hpp and exec.hpp).
use micromachine.Base.{
  ℕ, update, ◌+◌, ◌*◌, ◌<◌, ◌≡◌, refl, sym, arith, subst, Bool, true, false, ◌&&◌, ◌==◌,
  if◌then◌else◌, List, All, none, some, ltb,
}
use micromachine.Bits.{u32, extract, bit_of}
use micromachine.Registers.{
  Cpu, StackType, main, process, set_reg, get_sp, set_sp, current_bank, set_specific_banked_sp,
  set_pc, branch_pc, exception_number, set_thumb_flag, reg_pc, is_in_handler_mode,
}
use micromachine.Exceptions.{active_count, set_active_at, set_active}
use micromachine.Machine.{Machine, M, ◌>>=◌, ◌>>◌, pure, asks, on_cpu, ask_cpu, read32}
use micromachine.Machine.Outcome.{Ends, Keeps, Keeps-bind, Keeps-if, Keeps-asks}
use micromachine.Machine.Memory.Shapes.{IsWhole}
use micromachine.Machine.Memory.Sound.{Holds, Keeps-read32, Keeps-on_cpu}
use micromachine.Execution.Context.{
  drop_frame, restore_status, pop_stack, select_frame, deactivate, exception_return,
  branch_interworking,
}
use micromachine.Execution.Stack.{popcount, is_set, pop_from, pop}
use micromachine.Execution.Defined.{IsAny, Keeps-IsAny, Keeps-asked, Keeps-pop_from}

-- The exception number selects one of the vector's exceptions.
unfoldable pub IsReturnable : Cpu → Type 0
IsReturnable c = exception_number c < 32

xpsr-set_specific_banked_sp :
    (t : StackType) (v : ℕ) (c : Cpu) → (set_specific_banked_sp t v c).xpsr ≡ c.xpsr
unfolding set_specific_banked_sp
xpsr-set_specific_banked_sp main v c = refl
xpsr-set_specific_banked_sp process v c = refl

xpsr-if : (b : Bool) (x : ℕ) (c d : Cpu) → c.xpsr ≡ x → d.xpsr ≡ x → (if b then c else d).xpsr ≡ x
xpsr-if true x c d h k = h
xpsr-if false x c d h k = k

xpsr-set_reg : (i v : ℕ) (c : Cpu) → (set_reg i v c).xpsr ≡ c.xpsr
unfolding set_reg set_sp set_pc
xpsr-set_reg i v c =
    xpsr-if (ltb i 13) c.xpsr (record c { gp = update c.gp i v }) not_gp refl
      (xpsr-if (i == 13) c.xpsr (set_sp v c) not_sp
        (xpsr-set_specific_banked_sp (current_bank c) v c)
        (xpsr-if (i == 14) c.xpsr (record c { lr = v }) not_lr refl
          (xpsr-if (i == 15) c.xpsr (set_pc v c) c refl refl)))
  where
    not_lr : Cpu
    not_lr = if i == 15 then set_pc v c else c

    not_sp : Cpu
    not_sp = if i == 14 then record c { lr = v } else not_lr

    not_gp : Cpu
    not_gp = if i == 13 then set_sp v c else not_sp

IsReturnable-set_reg : (i v : ℕ) (c : Cpu) → IsReturnable c → IsReturnable (set_reg i v c)
unfolding IsReturnable exception_number
IsReturnable-set_reg i v c h = subst (λ x. extract 32 0 6 x < 32) (sym (xpsr-set_reg i v c)) h

IsReturnable-set_sp : (v : ℕ) (c : Cpu) → IsReturnable c → IsReturnable (set_sp v c)
unfolding IsReturnable exception_number set_sp
IsReturnable-set_sp v c h =
    subst (λ x. extract 32 0 6 x < 32) (sym (xpsr-set_specific_banked_sp (current_bank c) v c)) h

-- The rest of `exception_return`.
returned_from : ℕ → ℕ → M Unit
returned_from address n = do
  count ← asks (λ m. active_count m.exceptions)
  frame ← ask_cpu (select_frame (extract 32 0 4 address) count)
  on_cpu (λ _. frame.1)
  deactivate n
  pop_stack frame.0 address

module _ (shapes : List (ℕ × ℕ × ℕ)) (whole : All IsWhole shapes) where
  abbrev I : Machine → Type 0
  I = Holds IsAny shapes

  abbrev R : Machine → Type 0
  R = Holds IsReturnable shapes

  pub Keeps-last : (f : Cpu → Cpu) → Keeps R I (on_cpu f)
  unfolding Keeps Ends Holds IsAny
  Keeps-last f m i = (i.0, tt)

  pub Keeps-done : Keeps R I (pure tt)
  unfolding Keeps Ends Holds IsAny
  Keeps-done m i = (i.0, tt)

  -- A word of a frame is loaded to a register.
  Keeps-slot :
      (a : ℕ) (f : ℕ → Cpu → Cpu) (rest : ℕ → M Unit)
      → ((v : ℕ) → Keeps I I (rest v))
      → Keeps I I (read32 a >>= λ v. on_cpu (f v) >> rest v)
  Keeps-slot a f rest h =
      Keeps-bind I I I (read32 a) (λ v. on_cpu (f v) >> rest v) (Keeps-read32 IsAny shapes whole a)
        (λ v.
          Keeps-bind I I I (on_cpu (f v)) (λ _. rest v) (Keeps-IsAny shapes whole (f v)) (λ _. h v))

  Keeps-pop_stack : (frame return_address : ℕ) → Keeps I I (pop_stack frame return_address)
  unfolding pop_stack
  Keeps-pop_stack frame return_address = Keeps-slot frame (set_reg 0) _ (λ _.
      Keeps-slot (u32 (frame + 4)) (set_reg 1) _ (λ _.
        Keeps-slot (u32 (frame + 8)) (set_reg 2) _ (λ _.
          Keeps-slot (u32 (frame + 12)) (set_reg 3) _ (λ _.
            Keeps-slot (u32 (frame + 16)) (set_reg 12) _ (λ _.
              Keeps-slot (u32 (frame + 20)) (λ v c. record c { lr = v }) _
                (λ _. Keeps-slot (u32 (frame + 24)) set_pc _ (λ _.
                  Keeps-slot (u32 (frame + 28))
                    (λ x. drop_frame (extract 32 0 4 return_address) (extract 32 9 1 x * 4))
                    (λ x. on_cpu (restore_status x))
                    (λ x. Keeps-IsAny shapes whole (restore_status x)))))))))

  Keeps-deactivate : (n : ℕ) → n < 32 → Keeps I I (deactivate n)
  unfolding deactivate set_active_at Keeps Holds Ends
  Keeps-deactivate n h m i =
      subst
        (λ b. Ends I (elim (if b then some (set_active n false m.exceptions) else none) [
          | none ↦ none
          | some e ↦ some (tt, record m { exceptions = e })
        ]))
        (sym less) i
    where
      less : ltb n 32 ≡ true
      less = ground arith

  -- A return, once the exception that is returned from is known.
  Keeps-returned : (address n : ℕ) → n < 32 → Keeps I I (returned_from address n)
  unfolding returned_from
  Keeps-returned address n h =
      Keeps-bind I I I (asks (λ m. active_count m.exceptions)) _ keeps_count (λ count.
        Keeps-asked IsAny shapes whole I (select_frame (extract 32 0 4 address) count) _ (λ frame.
          Keeps-bind I I I (on_cpu (λ _. frame.1)) _ (Keeps-IsAny shapes whole (λ _. frame.1)) (λ _.
            Keeps-bind I I I (deactivate n) (λ _. pop_stack frame.0 address) (Keeps-deactivate n h)
              (λ _. Keeps-pop_stack frame.0 address))))
    where
      keeps_count : Keeps I I (asks (λ m. active_count m.exceptions))
      keeps_count = Keeps-asks I (λ m. active_count m.exceptions)

  Keeps-exception_return : (address : ℕ) → Keeps R I (exception_return address)
  unfolding exception_return Keeps IsReturnable returned_from Holds IsAny
  Keeps-exception_return address m i =
      Keeps-returned address (exception_number m.cpu) i.1 m (i.0, tt)

  pub Keeps-branch_interworking : (address : ℕ) → Keeps R I (branch_interworking address)
  unfolding branch_interworking
  Keeps-branch_interworking address =
      Keeps-asked IsReturnable shapes whole I (λ c. is_in_handler_mode c.mode) branches
        (λ in_handler.
          Keeps-if R I (in_handler && extract 32 28 4 address == 0b1111)
            (exception_return (extract 32 0 28 address)) (on_cpu branched)
            (Keeps-exception_return (extract 32 0 28 address)) keeps_branched)
    where
      branched : Cpu → Cpu
      branched c = branch_pc address (set_thumb_flag (bit_of 0 address) c)

      branches : Bool → M Unit
      branches in_handler =
          if in_handler && extract 32 28 4 address == 0b1111
          then exception_return (extract 32 0 28 address)
          else on_cpu branched

      keeps_branched : Keeps R I (on_cpu branched)
      keeps_branched = Keeps-last branched

  pub Keeps-pop : (list : ℕ) → Keeps R I (pop list)
  unfolding pop
  Keeps-pop list =
      Keeps-asked IsReturnable shapes whole I get_sp
        (λ start. pop_from 8 0 list start >>= after start)
        (λ start.
          Keeps-bind R R I (pop_from 8 0 list start) (after start)
            (Keeps-pop_from IsReturnable shapes whole IsReturnable-set_reg 8 0 list start)
            (λ a.
              Keeps-bind R R I (on_cpu (set_sp (top start))) (λ _. branched a)
                (Keeps-on_cpu IsReturnable shapes whole (set_sp (top start))
                  (IsReturnable-set_sp (top start)))
                (λ _.
                  Keeps-if R I (is_set list reg_pc) (read32 a >>= branch_interworking) (pure tt)
                    (Keeps-bind R R I (read32 a) branch_interworking
                      (Keeps-read32 IsReturnable shapes whole a) Keeps-branch_interworking)
                    Keeps-done)))
    where
      top : ℕ → ℕ
      top start = u32 (start + 4 * popcount 16 list)

      branched : ℕ → M Unit
      branched a = if is_set list reg_pc then (read32 a >>= branch_interworking) else pure tt

      after : ℕ → ℕ → M Unit
      after start a = on_cpu (set_sp (top start)) >> branched a
