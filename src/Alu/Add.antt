-- ===== src/Alu/Add.antt =====
-- What `add_with_carry` of micromachine/execution/alu.hpp computes.
use micromachine.Base.{
  ℕ, ◌+◌, ◌*◌, ◌/◌, ◌%◌, ◌^◌, ◌<◌, ◌≡◌, sym, ap, ap₂, arith, ◌∙◌, Bool, false, not, ◌&&◌, bit_xor,
  of_bool, to_bool, ◌↔◌, pos, signed32, ◌+ℤ◌, leb,
}
use micromachine.Bits.{get_bit}
use micromachine.Bits.Laws.{bit_and-mask}
use micromachine.Bits.Single.{get_bit_arith, bit_xor_at}
use micromachine.Alu.{Sum, add_with_carry}

carry_bit : (t : ℕ) → t < 2 ^ 33 → to_bool (t / 2 ^ 32 % 2) ≡ leb (2 ^ 32) t
carry_bit t h = ground arith

module _ (a b : ℕ) (carry_in : Bool) where
  pub res_lem : (add_with_carry a b carry_in).res ≡ (a + b + of_bool carry_in) % 2 ^ 32
  unfolding add_with_carry
  res_lem = omega (arith, bit_and-mask 32 (a + b + of_bool carry_in))

  pub carry_out_lem :
      a < 2 ^ 32
      → b < 2 ^ 32
      → (add_with_carry a b carry_in).carry_out ≡ leb (2 ^ 32) (a + b + of_bool carry_in)
  unfolding add_with_carry
  carry_out_lem ha hb =
      ap to_bool (bit_and-mask 1 ((a + b + of_bool carry_in) / 2 ^ 32))
      ∙ carry_bit (a + b + of_bool carry_in) (ground arith)

  pub overflow_out_lem :
      (add_with_carry a b carry_in).overflow_out
      ≡ not (to_bool ((a / 2 ^ 31 + b / 2 ^ 31) % 2))
        && to_bool ((a / 2 ^ 31 + (add_with_carry a b carry_in).res / 2 ^ 31) % 2)
  unfolding add_with_carry
  overflow_out_lem =
      ap₂ (λ (p q : Bool). not p && q) (xor_top b) (xor_top (add_with_carry a b carry_in).res)
    where
      xor_top : (y : ℕ) → get_bit (bit_xor a y) 31 ≡ to_bool ((a / 2 ^ 31 + y / 2 ^ 31) % 2)
      xor_top y = get_bit_arith (bit_xor a y) 31 ∙ ap to_bool (bit_xor_at 31 a y)

signed_sum :
    (a b c r : ℕ)
    → a < 2 ^ 32
    → b < 2 ^ 32
    → c < 2
    → r ≡ (a + b + c) % 2 ^ 32
    → (not (to_bool ((a / 2 ^ 31 + b / 2 ^ 31) % 2)) && to_bool ((a / 2 ^ 31 + r / 2 ^ 31) % 2)
        ≡ false)
      ↔ (signed32 r ≡ signed32 a +ℤ signed32 b +ℤ pos c)
signed_sum a b c r ha hb hc e = (λ h. ground arith, λ h. ground arith)

-- For 32-bit operands, the result and the carry are the sum as a 33-bit number, the result is a
-- 32-bit number, and the overflow is clear exactly when the signed result is the signed sum.
pub add_with_carry_lem :
    (a b : ℕ) (carry_in : Bool)
    → a < 2 ^ 32
    → b < 2 ^ 32
    → let s = add_with_carry a b carry_in in
      (s.res + 2 ^ 32 * of_bool s.carry_out ≡ a + b + of_bool carry_in)
      × (s.res < 2 ^ 32)
      × ((s.overflow_out ≡ false)
          ↔ (signed32 s.res ≡ signed32 a +ℤ signed32 b +ℤ pos (of_bool carry_in)))
add_with_carry_lem a b carry_in ha hb = (
  ground (arith, res_lem a b carry_in, carry_out_lem a b carry_in ha hb),
  ground (arith, res_lem a b carry_in),
  (
    λ h.
        (signed_sum a b (of_bool carry_in) s.res ha hb (ground arith) (res_lem a b carry_in)).0
          (sym (overflow_out_lem a b carry_in) ∙ h),
    λ h.
        overflow_out_lem a b carry_in
        ∙ (signed_sum a b (of_bool carry_in) s.res ha hb (ground arith) (res_lem a b carry_in)).1 h,
  ),
)
  where
    s : Sum
    s = add_with_carry a b carry_in
