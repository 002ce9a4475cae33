-- ===== src/Execution/Return.antt =====
-- Taking an exception and returning from it at once (micromachine/execution/context_switcher.hpp).
use micromachine.Base.{
  ℕ, ◌+◌, ◌*◌, ◌^◌, ◌≤◌, ◌<◌, ◌≡◌, refl, ap, ap₂, arith, ◌∙◌, Bool, true, false, ◌&&◌, List, [],
  ◌∷◌, Option, none, some, if◌then◌else◌, ltb, ◌==◌,
}
use micromachine.Bits.{extract, bit_of, set_bit_of}
use micromachine.Registers.{
  Cpu, ExecutionMode, thread, handler, is_in_handler_mode, get_reg, get_sp, set_sp, sp_sel,
  set_sp_sel, exception_number, set_exception_number, set_thumb_flag, branch_pc, current_bank,
  set_specific_banked_sp,
}
use micromachine.Exceptions.{Exceptions, kind, ex_hardfault, active_count, set_active, set_pending}
use micromachine.Machine.{Machine, Mapping, M, modify, on_cpu, ◌>>=◌, ◌>>◌, read32}
use micromachine.Machine.Memory.Words.{IsWord, peek}
use micromachine.Machine.Memory.Blocks.{poke_all, AreWords, AreWords-poke_all}
use micromachine.Execution.Context.{
  push_stack, pop_stack, exception_entry, exception_return, branch_link_interworking, select_frame,
  deactivate,
}
use micromachine.Execution.Frame.{frame_of, frame_words, exc_return_of, push_stack_lem, load_from}
use micromachine.Execution.Status.{bx}

-- A processor in thread mode on the main stack.
unfoldable pub IsThread : Cpu → Type 0
IsThread c = (c.mode ≡ thread) × (sp_sel c ≡ false)

set_sp-main : (f : ℕ) (c : Cpu) → IsThread c → set_sp f c ≡ record c { sp_main = f }
unfolding IsThread set_sp set_specific_banked_sp current_bank
set_sp-main f c (t, s) = ground (arith, t, s)

exc_return-main : (c : Cpu) → IsThread c → exc_return_of c ≡ 0xfffffff9
unfolding IsThread
exc_return-main c (t, s) = ground (arith, t, s)

-- The words of the frame.
abbrev pub saved : ℕ → Cpu → List ℕ
saved return_address c =
    c.gp 0
    ∷ c.gp 1
    ∷ c.gp 2
    ∷ c.gp 3
    ∷ c.gp 12
    ∷ c.lr
    ∷ return_address
    ∷ set_bit_of 9 c.xpsr (bit_of 2 (get_sp c))
    ∷ []

pushed :
    (ret : ℕ) (m : Machine)
    → IsThread m.cpu
    → frame_of (get_sp m.cpu) + 32 ≤ 2 ^ 32
    → AreWords (frame_of (get_sp m.cpu)) 8 m.regions
    → push_stack ret m
      ≡ some (
        tt,
        record m {
          cpu = record m.cpu { sp_main = frame_of (get_sp m.cpu); lr = 0xfffffff9 };
          regions = poke_all (frame_of (get_sp m.cpu)) (saved ret m.cpu) m.regions;
        },
      )
unfolding IsThread get_reg
pushed ret m t fits w =
    push_stack_lem ret m fits w
    ∙ ap₂ build (set_sp-main f m.cpu t) (
        ap exc_return_of (set_sp-main f m.cpu t) ∙ exc_return-main (record m.cpu { sp_main = f }) t)
  where
    f : ℕ
    f = frame_of (get_sp m.cpu)

    build : Cpu → ℕ → Option (Unit {0} × Machine)
    build c l = some (
      tt,
      record m {
        cpu = record c { lr = l };
        regions = poke_all f (frame_words ret (get_sp m.cpu) c) m.regions;
      },
    )

-- The word that pushing an exception reads its handler from, as read in the machine after it.
IsWord-saved :
    (a b : ℕ) (vs : List ℕ) (mms : List Mapping) → IsWord b mms → IsWord b (poke_all a vs mms)
unfolding AreWords
IsWord-saved a b vs mms w = (AreWords-poke_all a vs b 1 mms (w, tt)).0

-- The processor in the handler, whose address is `h`.
unfoldable pub in_handler : ℕ → ℕ → ℕ → Cpu → Cpu
in_handler ex f h c = branch_pc (set_bit_of 0 h false) (
    set_thumb_flag (bit_of 0 h) (
      set_sp_sel false (
        set_exception_number (kind ex)
          (record c { sp_main = f; lr = 0xfffffff9; mode = handler }))))

unfoldable pub taken : ℕ → Exceptions → Exceptions
taken ex e = set_pending ex false (set_active ex true e)

module _ (ex ia ni : ℕ) (m : Machine) where
  abbrev pub ret : ℕ
  ret = if kind ex == ex_hardfault then ia else ni

  abbrev pub f : ℕ
  f = frame_of (get_sp m.cpu)

  abbrev pub after : List Mapping
  after = poke_all f (saved ret m.cpu) m.regions

  pub entered :
      IsThread m.cpu
      → f + 32 ≤ 2 ^ 32
      → AreWords f 8 m.regions
      → IsWord (4 * kind ex) m.regions
      → exception_entry ex ia ni m
        ≡ some (
          tt,
          record m {
            cpu = in_handler ex f (peek (4 * kind ex) after) m.cpu;
            exceptions = taken ex m.exceptions;
            regions = after;
          },
        )
  unfolding exception_entry in_handler taken branch_link_interworking
  entered t fits w v =
      ap then_take (pushed ret m t fits w)
      ∙ load_from (4 * kind ex) (4 * kind ex) branch_link_interworking at_vector refl
          (IsWord-saved f (4 * kind ex) (saved ret m.cpu) m.regions v)
    where
      at_vector : Machine
      at_vector = record m {
        cpu = set_sp_sel false (
            set_exception_number (kind ex)
              (record m.cpu { sp_main = f; lr = 0xfffffff9; mode = handler }));
        exceptions = set_pending ex false (set_active ex true m.exceptions);
        regions = after;
      }

      taking : M Unit
      taking = do
        on_cpu
            (λ c. set_sp_sel false (set_exception_number (kind ex) (record c { mode = handler })))
        modify
            (λ n. record n { exceptions = set_pending ex false (set_active ex true n.exceptions) })
        handler_address ← read32 (4 * kind ex)
        branch_link_interworking handler_address

      then_take : Option (Unit {0} × Machine) → Option (Unit {0} × Machine)
      then_take r = elim r [ none ↦ none | some (u, n) ↦ taking n ]

-- The return from a handler, once what is asked of the machine is known.
pub returned :
    (ex : ℕ) (n : Machine)
    → ex < 32
    → n.cpu.mode ≡ handler
    → n.cpu.lr ≡ 0xfffffff9
    → exception_number n.cpu ≡ ex
    → active_count n.exceptions ≡ 1
    → bx 14 n
      ≡ pop_stack n.cpu.sp_main 0x0ffffff9 (record n {
        cpu = set_sp_sel false (record n.cpu { mode = thread });
        exceptions = set_active ex false n.exceptions;
      })
unfolding bx exception_return select_frame deactivate
returned ex n small mode lr number count =
    ap₂ branch mode lr
    ∙ (ap₂ leave number count ∙ ap drop {x = ltb ex 32} {y = true} (ground arith))
  where
    branch : ExecutionMode → ℕ → Option (Unit {0} × Machine)
    branch md l =
        (let to : M Unit =
              if is_in_handler_mode md && extract 32 28 4 l == 0b1111
              then exception_return (extract 32 0 28 l)
              else on_cpu (λ c. branch_pc l (set_thumb_flag (bit_of 0 l) c)) in
            to)
          n

    frame : ℕ → ℕ × Cpu
    frame cnt = select_frame (extract 32 0 4 0x0ffffff9) cnt n.cpu

    leave : ℕ → ℕ → Option (Unit {0} × Machine)
    leave num cnt =
        (on_cpu (λ _. (frame cnt).1) >> deactivate num >> pop_stack (frame cnt).0 0x0ffffff9) n

    drop : Bool → Option (Unit {0} × Machine)
    drop b =
        elim (elim (if b then some (set_active ex false n.exceptions) else none)
          as (λ x. Option (Unit {0} × Machine)) [
            | none ↦ none
            | some e ↦ some (
              tt,
              record n { cpu = set_sp_sel false (record n.cpu { mode = thread }); exceptions = e },
            )
          ]) [ none ↦ none | some (u, k) ↦ pop_stack n.cpu.sp_main 0x0ffffff9 k ]
