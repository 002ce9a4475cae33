-- ===== src/Machine/Memory/Levels.antt =====
-- The priorities of the external interrupts, as the program writes them (micromachine/nvic.hpp).
use native.Mathlib.Nat.{div-div-eq-div-mul}
use micromachine.Bits.Masks.{bit_and_at}
use micromachine.Base.{
  ℕ, zero, suc, ◌+◌, ◌*◌, ◌/◌, ◌^◌, ◌%◌, ◌<◌, ◌≡◌, refl, sym, ap, arith, ◌∙◌, true, ◌==◌,
  if◌then◌else◌, if_true, if_false, some, Bool-cases, inl, inr, bit_and, ℤ, pos, update,
}
use micromachine.Bits.{extract}
use micromachine.Bits.Laws.{extract_arith, two_pow_add}
use micromachine.RegisterMap.{
  find, hash_from, compute_all_keys_hash, is_not_a_mapped_address, get_register_at,
}
use micromachine.Exceptions.{Exceptions, priority, priority_at}
use micromachine.Machine.State.{Machine}
use micromachine.Machine.Devices.{nvic_ipr, system_control_register_map, set_register}
use micromachine.Machine.Memory.{word, register_for, write, write_found}
use micromachine.Machine.Memory.Nvic.{external}

priority-line :
    (line : ℕ) (e : Exceptions)
    → line < 16
    → priority (16 + line) e ≡ pos (extract 32 (6 + line % 4 * 8) 2 (e.priority_regs (line / 4)))
unfolding priority
priority-line line e h = ap (λ c. priority_at c e) (external line h)

-- The registers at the four addresses that belong to the external interrupts.
found : (n : ℕ) → n < 4 → register_for word (0xe000e400 + 4 * n) ≡ some (nvic_ipr n)
unfolding register_for get_register_at is_not_a_mapped_address compute_all_keys_hash hash_from find
    system_control_register_map
found zero h = refl
found (suc zero) h = refl
found (suc (suc zero)) h = refl
found (suc (suc (suc zero))) h = refl
found (suc (suc (suc (suc n)))) h = absurd (omega arith)

two_bits : (o x : ℕ) → x / 2 ^ o % 4 ≡ x / 2 ^ o % 2 + 2 * (x / 2 ^ (o + 1) % 2)
two_bits o x = omega (arith, next)
  where
    next : x / 2 ^ (o + 1) ≡ x / 2 ^ o / 2
    next = ap (λ (t : ℕ). x / t) (two_pow_add o 1) ∙ sym (div-div-eq-div-mul x (2 ^ o) 2)

masked_at :
    (o v mask : ℕ)
    → mask / 2 ^ o % 2 ≡ 1
    → mask / 2 ^ (o + 1) % 2 ≡ 1
    → bit_and v mask / 2 ^ o % 4 ≡ v / 2 ^ o % 4
masked_at o v mask a b = omega (
  arith,
  a,
  b,
  two_bits o v,
  two_bits o (bit_and v mask),
  bit_and_at o v mask,
  bit_and_at (o + 1) v mask,
)

-- The mask keeps the two bits of a priority.
masked : (k v : ℕ) → k < 4 → bit_and v 0xc0c0c0c0 / 2 ^ (6 + k * 8) % 4 ≡ v / 2 ^ (6 + k * 8) % 4
masked zero v h = masked_at 6 v 0xc0c0c0c0 refl refl
masked (suc zero) v h = masked_at 14 v 0xc0c0c0c0 refl refl
masked (suc (suc zero)) v h = masked_at 22 v 0xc0c0c0c0 refl refl
masked (suc (suc (suc zero))) v h = masked_at 30 v 0xc0c0c0c0 refl refl
masked (suc (suc (suc (suc k)))) v h = absurd (omega arith)

-- The priority of a line after a store to the register of the lines 4 n to 4 n + 3.
after_store :
    (n v line : ℕ) (e : Exceptions)
    → line < 16
    → priority
        (16 + line)
        (record e { priority_regs = update e.priority_regs n (bit_and v 0xc0c0c0c0) })
      ≡ (if n == line / 4 then pos (v / 2 ^ (6 + line % 4 * 8) % 4) else priority (16 + line) e)
after_store n v line e h = elim (Bool-cases (n == line / 4)) [
  | inl here ↦
      priority-line line stored h
      ∙ (ap level (if_true (bit_and v 0xc0c0c0c0) (e.priority_regs (line / 4)) here)
          ∙ (ap pos (
                extract_arith 32 (6 + line % 4 * 8) 2 (bit_and v 0xc0c0c0c0) (omega arith)
                ∙ masked (line % 4) v (omega arith))
              ∙ sym (if_true _ _ here)))
  | inr there ↦
      priority-line line stored h
      ∙ (ap level (if_false (bit_and v 0xc0c0c0c0) (e.priority_regs (line / 4)) there)
          ∙ (sym (priority-line line e h) ∙ sym (if_false _ _ there)))
]
  where
    stored : Exceptions
    stored = record e { priority_regs = update e.priority_regs n (bit_and v 0xc0c0c0c0) }

    level : ℕ → ℤ
    level w = pos (extract 32 (6 + line % 4 * 8) 2 w)

-- A store to the n-th of the four priority registers of the external interrupts succeeds, sets the
-- priority of each of its four lines to the two upper bits of the line's byte, and leaves those of
-- all other external interrupts, and all of the machine but the priority registers, as they were.
pub write-priority :
    (n v line : ℕ) (m : Machine)
    → n < 4
    → line < 16
    → (p : ℕ → ℕ) × (write word (0xe000e400 + 4 * n) v m
        ≡ some (true, record m { exceptions = record m.exceptions { priority_regs = p } }))
      × (priority (16 + line) (record m.exceptions { priority_regs = p }) ≡ (
          if n == line / 4
          then pos (v / 2 ^ (6 + line % 4 * 8) % 4)
          else priority (16 + line) m.exceptions))
unfolding write write_found set_register
write-priority n v line m few h = (
  update m.exceptions.priority_regs n (bit_and v 0xc0c0c0c0),
  ap (λ r. write_found r word (0xe000e400 + 4 * n) v m) (found n few),
  after_store n v line m.exceptions h,
)
