-- ===== src/Execution/RoundTrip.antt =====
-- Taking an exception whose handler returns at once (micromachine/execution/context_switcher.hpp).
use micromachine.Base.{
  ℕ, ◌+◌, ◌*◌, ◌^◌, ◌≤◌, ◌<◌, ◌≡◌, refl, sym, ap, arith, ◌∙◌, subst, Bool, true, false, bit_or,
  List, Option, none, some, if◌then◌else◌, ◌==◌, update, All, of_bool,
}
use micromachine.Bits.{u32, extract, bit_of, set_bit_of, write_bits}
use micromachine.Bits.Flags.{bit_of-set_bit_of, set_bit_of-lt}
use micromachine.Bits.Slices.{extract-write_bits, extract-write_bits_below, write_bits-lt}
use micromachine.Registers.{
  Cpu, thread, set_reg, get_sp, set_pc, set_sp_sel, n_priv, exception_number, set_exception_number,
  set_thumb_flag, branch_pc,
}
use micromachine.Exceptions.{kind, ex_hardfault, active_count, set_active}
use micromachine.Exceptions.Active.{active_count-one, set_pending-active}
use micromachine.Machine.{Machine, Mapping, ◌>>◌}
use micromachine.Machine.Memory.Words.{IsWord, peek}
use micromachine.Machine.Memory.Blocks.{poke_all, AreWords, AreWords-poke_all, peek_all-poke_all}
use micromachine.Execution.Context.{exception_entry, restore_status}
use micromachine.Execution.Status.{bx}
use micromachine.Execution.Frame.{frame_of, frame_loads, pop_stack_lem}
use micromachine.Execution.Return.{IsThread, saved, in_handler, taken, entered, returned}
use micromachine.Execution.Restore.{
  apply, load_all-peek_all, sp_multiple, sp_small, frame_of_lem, sp_back, Restored, status_after,
  Restored-bit, status_bit, restore_status-status_after, drop_frame-main,
}

-- An exception that the processor takes in thread mode on the main stack, with room for its frame.
unfoldable pub Takes : ℕ → Machine → Type 0
unfolding IsThread
Takes ex m =
    IsThread m.cpu
    × ((k : ℕ) → m.exceptions.active k ≡ false)
    × (kind ex ≡ ex)
    × (ex < 32)
    × (32 ≤ get_sp m.cpu)
    × AreWords (frame_of (get_sp m.cpu)) 8 m.regions
    × IsWord (4 * ex) m.regions

-- The registers hold 32-bit values.
abbrev pub IsSmall : Cpu → Type 0
IsSmall c =
    ((r : ℕ) → r < 13 → c.gp r < 2 ^ 32)
    × (c.lr < 2 ^ 32)
    × (c.xpsr < 2 ^ 32)
    × (c.control < 2 ^ 32)

-- The thumb bit is above the exception number.
below_thumb :
    (x : ℕ) (b : Bool) → x < 2 ^ 32 → extract 32 0 6 (set_bit_of 24 x b) ≡ extract 32 0 6 x
unfolding set_bit_of
below_thumb x b small =
    extract-write_bits_below 32 x 24 (of_bool b) 0 1 small (omega arith) 0 6 (omega arith)

module _ (ex ia ni : ℕ) (m : Machine) (takes : Takes ex m) (small : IsSmall m.cpu)
    (hia : ia < 2 ^ 32) (hni : ni < 2 ^ 32) where
  abbrev sp : ℕ
  sp = get_sp m.cpu

  abbrev ret : ℕ
  ret = if kind ex == ex_hardfault then ia else ni

  abbrev after : List Mapping
  after = poke_all (frame_of sp) (saved ret m.cpu) m.regions

  abbrev handling : Cpu
  handling = in_handler ex (frame_of sp) (peek (4 * kind ex) after) m.cpu

  abbrev popping : Cpu
  popping = set_sp_sel false (record handling { mode = thread })

  frame_fits : frame_of sp + 32 ≤ 2 ^ 32
  unfolding Takes
  frame_fits =
      omega (arith, frame_of_lem sp takes.4 (sp_small m.cpu) (sp_multiple m.cpu), sp_small m.cpu)

  ret_small : ret < 2 ^ 32
  ret_small = ground arith

  saved_small : All (λ v. v < 2 ^ 32) (saved ret m.cpu)
  saved_small = (
    small.0 0 (omega arith),
    (
      small.0 1 (omega arith),
      (
        small.0 2 (omega arith),
        (
          small.0 3 (omega arith),
          (
            small.0 12 (omega arith),
            (
              small.1,
              (ret_small, (set_bit_of-lt 9 m.cpu.xpsr (bit_of 2 sp) small.2 (omega arith), tt)),
            ),
          ),
        ),
      ),
    ),
  )

  number : exception_number handling ≡ ex
  unfolding in_handler exception_number Takes branch_pc set_thumb_flag set_sp_sel
      set_exception_number
  number =
      below_thumb numbered (bit_of 0 (peek (4 * kind ex) after))
        (write_bits-lt 32 m.cpu.xpsr 0 (kind ex) 0 6 small.2 (omega arith))
      ∙ (extract-write_bits 32 m.cpu.xpsr 0 (kind ex) 0 6 small.2 (omega arith)
          ∙ omega (arith, takes.2, takes.3))
    where
      numbered : ℕ
      numbered = write_bits 32 m.cpu.xpsr 0 (kind ex) 0 6

  count : active_count (taken ex m.exceptions) ≡ 1
  unfolding taken Takes
  count = active_count-one ex m.exceptions takes.1 takes.3

  final : Cpu
  unfolding apply
  final = apply (frame_loads 0x0ffffff9) (saved ret m.cpu) popping

  runs :
      (exception_entry ex ia ni >> bx 14) m
      ≡ some (
        tt,
        record m {
          cpu = final;
          exceptions = set_active ex false (taken ex m.exceptions);
          regions = after;
        },
      )
  unfolding Takes final in_handler taken branch_pc set_thumb_flag set_sp_sel set_exception_number
  runs =
      ap then_return (
        entered ex ia ni m takes.0 frame_fits takes.5
          (subst (λ k. IsWord (4 * k) m.regions) (sym takes.2) takes.6))
      ∙ (returned ex handled takes.3 refl refl number count
          ∙ (pop_stack_lem (frame_of sp) 0x0ffffff9 leaving frame_fits (
                AreWords-poke_all (frame_of sp) (saved ret m.cpu) (frame_of sp) 8 m.regions takes.5)
              ∙ ap ends (
                  load_all-peek_all (frame_of sp) (frame_loads 0x0ffffff9) after popping
                  ∙ ap (λ ws. apply (frame_loads 0x0ffffff9) ws popping)
                      (peek_all-poke_all (frame_of sp) (saved ret m.cpu) m.regions takes.5
                        saved_small))))
    where
      handled : Machine
      handled = record m { cpu = handling; exceptions = taken ex m.exceptions; regions = after }

      leaving : Machine
      leaving = record m {
        cpu = popping;
        exceptions = set_active ex false (taken ex m.exceptions);
        regions = after;
      }

      then_return : Option (Unit {0} × Machine) → Option (Unit {0} × Machine)
      then_return r = elim r [ none ↦ none | some (u, n) ↦ bx 14 n ]

      ends : Cpu → Option (Unit {0} × Machine)
      ends c = some (tt, record leaving { cpu = c })

  restored_gp :
      (r : ℕ)
      → update
          (update
            (update (update (update m.cpu.gp 0 (m.cpu.gp 0)) 1 (m.cpu.gp 1)) 2 (m.cpu.gp 2))
            3
            (m.cpu.gp 3))
          12
          (m.cpu.gp 12)
          r
        ≡ m.cpu.gp r
  restored_gp r = ground arith

  inactive : (k : ℕ) → (set_active ex false (taken ex m.exceptions)).active k ≡ false
  unfolding taken Takes set_active
  inactive k =
      ap (λ (g : ℕ → Bool). update g ex false k)
        (set_pending-active ex false (set_active ex true m.exceptions))
      ∙ ground (arith, takes.1 k)

  room : 32 ≤ sp
  unfolding Takes
  room = takes.4

  -- The processor at the end.
  unprivileged : Bool
  unprivileged = n_priv popping

  ending : Cpu
  ending = record popping {
    gp =
        update
          (update (update (update (update m.cpu.gp 0 (m.cpu.gp 0)) 1 (m.cpu.gp 1)) 2 (m.cpu.gp 2)) 3
            (m.cpu.gp 3))
          12 (m.cpu.gp 12);
    sp_main = sp;
    lr = m.cpu.lr;
    pc_word = ret;
    pc_dirty = true;
    xpsr = status_after unprivileged (set_bit_of 9 m.cpu.xpsr (bit_of 2 sp));
  }

  final_lem : final ≡ ending
  unfolding final apply ending unprivileged n_priv set_reg set_pc in_handler branch_pc
      set_thumb_flag set_sp_sel set_exception_number
  final_lem =
      ap (restore_status word) (drop_frame-main (extract 32 9 1 word * 4) loaded)
      ∙ (restore_status-status_after word (record loaded {
        sp_main = bit_or (u32 (frame_of sp + 0x20)) (extract 32 9 1 word * 4);
      })
          ∙ ap (λ (t : ℕ). record loaded { sp_main = t; xpsr = status_after unprivileged word })
              (sp_back m.cpu.xpsr sp small.2 room (sp_small m.cpu) (sp_multiple m.cpu)))
    where
      word : ℕ
      word = set_bit_of 9 m.cpu.xpsr (bit_of 2 sp)

      loaded : Cpu
      loaded =
          set_pc ret
            (record (set_reg 12 (m.cpu.gp 12) (
              set_reg 3 (m.cpu.gp 3) (
                set_reg 2 (m.cpu.gp 2)
                  (set_reg 1 (m.cpu.gp 1) (set_reg 0 (m.cpu.gp 0) popping))))) { lr = m.cpu.lr })

  -- Taking an exception and returning from it at once ends, and then: the general purpose registers,
  -- the link register, the flags and the thumb bit are what they were, the stack pointer is its
  -- value without the two low bits, the program counter is the return address, the processor is in
  -- thread mode, and no exception is active. Bit 9 of the status word holds bit 2 of the stack
  -- pointer. The exception is taken in thread mode on the main stack while no other one is active,
  -- the memory holds its frame and its vector, and the registers are 32-bit values.
  pub bx-exception_entry :
      (m' : Machine) × ((exception_entry ex ia ni >> bx 14) m ≡ some (tt, m'))
      × ((r : ℕ) → r < 13 → m'.cpu.gp r ≡ m.cpu.gp r)
      × (m'.cpu.lr ≡ m.cpu.lr)
      × (m'.cpu.sp_main ≡ get_sp m.cpu)
      × (m'.cpu.pc_word ≡ (if kind ex == ex_hardfault then ia else ni))
      × (m'.cpu.mode ≡ thread)
      × ((k : ℕ) → m'.exceptions.active k ≡ false)
      × ((i : ℕ) → Restored i → bit_of i m'.cpu.xpsr ≡ bit_of i m.cpu.xpsr)
      × (bit_of 9 m'.cpu.xpsr ≡ bit_of 2 (get_sp m.cpu))
  unfolding ending taken Takes set_sp_sel
  bx-exception_entry = (
    record m {
      cpu = ending;
      exceptions = set_active ex false (taken ex m.exceptions);
      regions = after;
    },
    runs
        ∙ ap
            (λ (c : Cpu). some (
              tt,
              record m {
                cpu = c;
                exceptions = set_active ex false (taken ex m.exceptions);
                regions = after;
              },
            ))
            final_lem,
    λ r h. restored_gp r,
    refl,
    refl,
    refl,
    refl,
    λ k. inactive k,
    λ i r. Restored-bit unprivileged m.cpu.xpsr (bit_of 2 sp) i small.2 r,
    status_bit unprivileged (set_bit_of 9 m.cpu.xpsr (bit_of 2 sp)) 9 (omega arith) (omega arith)
          refl
        ∙ bit_of-set_bit_of 9 m.cpu.xpsr (bit_of 2 sp) small.2 (omega arith),
  )
