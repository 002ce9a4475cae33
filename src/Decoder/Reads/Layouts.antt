-- ===== src/Decoder/Reads/Layouts.antt =====
-- The halfwords of micromachine/instruction/instructions.hpp, put together from their fields.
use native.Mathlib.Nat.{pow-le-pow_right}
use micromachine.Base.{
  ℕ, suc, zero, ◌+◌, ◌*◌, ◌/◌, ◌%◌, ◌^◌, ◌<◌, ◌≤◌, ◌≡◌, refl, ap, ap₂, arith, ◌∙◌, of_bool, to_bool,
  bit_or,
}
use micromachine.Bits.{extract, bit_of, read_uint, get_bit, make_mask}
use micromachine.Bits.Laws.{extract_arith, bit_and-mask}
use micromachine.Bits.Single.{get_bit_arith}
use micromachine.Bits.Masks.{bit_of_arith}
use micromachine.Bits.Joins.{bit_or-joins}
use micromachine.Instruction.{push_register_list, pop_register_list}

pub parity : (n : ℕ) → of_bool (to_bool (n % 2)) ≡ n % 2
parity n = by_rest (n % 2) (omega arith)
  where
    by_rest : (r : ℕ) → r < 2 → of_bool (to_bool r) ≡ r
    by_rest zero h = refl
    by_rest (suc zero) h = refl
    by_rest (suc (suc r)) h = absurd (omega arith)

module _ (w : ℕ) (small : w < 2 ^ 16) where
  field : (o l : ℕ) → l ≤ 16 → extract 16 o l w ≡ w / 2 ^ o % 2 ^ l
  field o l h = extract_arith 16 o l w h

  module _ (k : ℕ) where
    pub two_registers :
        k * 2 ^ 6 ≤ w
        → w < k * 2 ^ 6 + 2 ^ 6
        → w ≡ k * 2 ^ 6 + extract 16 3 3 w * 2 ^ 3 + extract 16 0 3 w
    two_registers lo hi = omega (arith, field 0 3 (omega arith), field 3 3 (omega arith))

    pub three_registers :
        k * 2 ^ 9 ≤ w
        → w < k * 2 ^ 9 + 2 ^ 9
        → w ≡ k * 2 ^ 9 + extract 16 6 3 w * 2 ^ 6 + extract 16 3 3 w * 2 ^ 3 + extract 16 0 3 w
    three_registers lo hi =
        omega (arith, field 0 3 (omega arith), field 3 3 (omega arith), field 6 3 (omega arith))

    pub two_registers_imm5 :
        k * 2 ^ 11 ≤ w
        → w < k * 2 ^ 11 + 2 ^ 11
        → w ≡ k * 2 ^ 11 + extract 16 6 5 w * 2 ^ 6 + extract 16 3 3 w * 2 ^ 3 + extract 16 0 3 w
    two_registers_imm5 lo hi =
        omega (arith, field 0 3 (omega arith), field 3 3 (omega arith), field 6 5 (omega arith))

    pub register_imm8 :
        k * 2 ^ 11 ≤ w
        → w < k * 2 ^ 11 + 2 ^ 11
        → w ≡ k * 2 ^ 11 + extract 16 8 3 w * 2 ^ 8 + extract 16 0 8 w
    register_imm8 lo hi = omega (arith, field 0 8 (omega arith), field 8 3 (omega arith))

    pub high_registers :
        k * 2 ^ 8 ≤ w
        → w < k * 2 ^ 8 + 2 ^ 8
        → w ≡ k * 2 ^ 8 + extract 16 7 1 w * 2 ^ 7 + extract 16 3 4 w * 2 ^ 3 + extract 16 0 3 w
    high_registers lo hi =
        omega (arith, field 0 3 (omega arith), field 3 4 (omega arith), field 7 1 (omega arith))

    pub high_register :
        k * 2 ^ 7 ≤ w → w < k * 2 ^ 7 + 2 ^ 7 → w / 2 ^ 3 ≡ k * 2 ^ 4 + extract 16 3 4 w
    high_register lo hi = omega (arith, field 3 4 (omega arith))

    pub prefix : k * 2 ^ 6 ≤ w → w < k * 2 ^ 6 + 2 ^ 6 → w / 2 ^ 6 ≡ k
    prefix lo hi = omega arith

    pub immediate8 : k * 2 ^ 8 ≤ w → w < k * 2 ^ 8 + 2 ^ 8 → w ≡ k * 2 ^ 8 + extract 16 0 8 w
    immediate8 lo hi = omega (arith, field 0 8 (omega arith))

    pub immediate7 : k * 2 ^ 7 ≤ w → w < k * 2 ^ 7 + 2 ^ 7 → w ≡ k * 2 ^ 7 + extract 16 0 7 w
    immediate7 lo hi = omega (arith, field 0 7 (omega arith))

    pub immediate11 : k * 2 ^ 11 ≤ w → w < k * 2 ^ 11 + 2 ^ 11 → w ≡ k * 2 ^ 11 + extract 16 0 11 w
    immediate11 lo hi = omega (arith, field 0 11 (omega arith))

  pub compared_registers :
      0x4540 ≤ w
      → w < 0x4600
      → (0x4540 ≤ w)
        × (w ≡ 0x4500 + extract 16 7 1 w * 2 ^ 7 + extract 16 3 4 w * 2 ^ 3 + extract 16 0 3 w)
  compared_registers lo hi =
      (lo, omega (arith, field 0 3 (omega arith), field 3 4 (omega arith), field 7 1 (omega arith)))

  pub condition_imm8 :
      0xd000 ≤ w
      → w < 0xde00
      → (w ≡ 0xd000 + extract 16 8 4 w * 2 ^ 8 + extract 16 0 8 w) × (extract 16 8 4 w < 14)
  condition_imm8 lo hi = (
    omega (arith, field 0 8 (omega arith), field 8 4 (omega arith)),
    omega (arith, field 8 4 (omega arith)),
  )

  pub interrupt_mask : 0xb660 ≤ w → w < 0xb680 → w / 2 ^ 4 ≡ 0xb66 + of_bool (bit_of 4 w)
  interrupt_mask lo hi =
      omega (arith, ap of_bool (bit_of_arith 4 w (omega arith)), parity (w / 2 ^ 4))

  -- The list of eight registers and one more, at bit `n`.
  list_value :
      (n : ℕ)
      → 8 ≤ n
      → bit_or (read_uint 16 w 0 8) (of_bool (get_bit w 8) * 2 ^ n)
        ≡ w % 2 ^ 8 + w / 2 ^ 8 % 2 * 2 ^ n
  unfolding read_uint make_mask
  list_value n h =
      ap₂ (λ (p q : ℕ). bit_or p (q * 2 ^ n))
        (bit_and-mask 8 (w / 2 ^ 0) ∙ ap (λ (t : ℕ). t % 2 ^ 8) (omega arith))
        (ap of_bool (get_bit_arith w 8) ∙ parity (w / 2 ^ 8))
      ∙ bit_or-joins n 1 (w % 2 ^ 8) (w / 2 ^ 8 % 2)
          (omega (arith, pow-le-pow_right {n = 2} (omega arith) h)) (omega arith)

  pub pushed_list :
      0xb400 ≤ w
      → w < 0xb600
      → (w ≡ 0xb400 + push_register_list w / 2 ^ 14 * 2 ^ 8 + push_register_list w % 2 ^ 8)
        × (push_register_list w
            ≡ push_register_list w / 2 ^ 14 * 2 ^ 14 + push_register_list w % 2 ^ 8)
  unfolding push_register_list
  pushed_list lo hi =
      (omega (arith, list_value 14 (omega arith)), omega (arith, list_value 14 (omega arith)))

  pub popped_list :
      0xbc00 ≤ w
      → w < 0xbe00
      → (w ≡ 0xbc00 + pop_register_list w / 2 ^ 15 * 2 ^ 8 + pop_register_list w % 2 ^ 8)
        × (pop_register_list w
            ≡ pop_register_list w / 2 ^ 15 * 2 ^ 15 + pop_register_list w % 2 ^ 8)
  unfolding pop_register_list
  popped_list lo hi =
      (omega (arith, list_value 15 (omega arith)), omega (arith, list_value 15 (omega arith)))
