-- ===== src/Bits/Single.antt =====
-- `get_bit` of micromachine/helpers/binops.hpp, and the single bits of `^`, `&` and `|`.
use micromachine.Base.{
  ℕ, zero, suc, ◌+◌, ◌-◌, ◌*◌, ◌/◌, ◌%◌, ◌^◌, ◌≤◌, bit_and, bit_xor, ◌≡◌, refl, sym, ap, arith, ◌∙◌,
  true, to_bool,
}
use native.Mathlib.Nat.{div-div-eq-div-mul}
use micromachine.Bits.{get_bit}
use micromachine.Bits.Digits.{bit_xor_step}
use micromachine.Bits.Laws.{bit_and-field, two_pow_suc, two_pow_pos}

to_bool-pos : (n : ℕ) → 1 ≤ n → to_bool n ≡ true
to_bool-pos zero h = elim h [ ]
to_bool-pos (suc n) h = refl

to_bool-mul : (b p : ℕ) → 1 ≤ p → to_bool (b * p) ≡ to_bool b
to_bool-mul zero p h = ap to_bool {x = 0 * p} {y = 0} (omega arith)
to_bool-mul (suc b) zero h = elim h [ ]
to_bool-mul (suc b) (suc p) h = to_bool-pos (suc b * suc p) (omega arith)

pub get_bit_arith : (x i : ℕ) → get_bit x i ≡ to_bool (x / 2 ^ i % 2)
unfolding get_bit
get_bit_arith x i =
    ap to_bool (ap (bit_and x) one ∙ bit_and-field i 1 x)
    ∙ to_bool-mul (x / 2 ^ i % 2) (2 ^ i) (two_pow_pos i)
  where
    one : 2 ^ i ≡ (2 ^ 1 - 1) * 2 ^ i
    one = omega arith

pub bit_xor_at : (i a b : ℕ) → bit_xor a b / 2 ^ i % 2 ≡ (a / 2 ^ i + b / 2 ^ i) % 2
bit_xor_at zero a b = omega (arith, bit_xor_step a b)
bit_xor_at (suc i) a b =
    rw (shift (bit_xor a b), shift a, shift b)
      (ap (λ (t : ℕ). t / 2 ^ i % 2) (omega (arith, bit_xor_step a b))
        ∙ bit_xor_at i (a / 2) (b / 2))
  where
    shift : (x : ℕ) → x / 2 ^ suc i ≡ x / 2 / 2 ^ i
    shift x = rw two_pow_suc (sym (div-div-eq-div-mul x 2 (2 ^ i)))
