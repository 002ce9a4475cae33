-- ===== src/Bits/Masks.antt =====
-- Masks: what is kept of a number by `&`, and a bit that is put in by `|`.
use native.Mathlib.Nat.{div-div-eq-div-mul}
use micromachine.Base.{
  ℕ, zero, suc, ◌+◌, ◌*◌, ◌/◌, ◌%◌, ◌^◌, ◌≤◌, ◌<◌, min, bit_and, bit_or, ◌≡◌, refl, sym, ap, arith,
  ◌∙◌, to_bool,
}
use micromachine.Bits.{bit_of}
use micromachine.Bits.Digits.{bit_and_step, bit_or_step, zero-bit_and}
use micromachine.Bits.Laws.{
  two_pow_suc, extract_arith, bit_and-complement, bit_and-field, bit_and-mask, bit_and-zero,
}

pub bit_and_at : (i a b : ℕ) → bit_and a b / 2 ^ i % 2 ≡ min (a / 2 ^ i % 2) (b / 2 ^ i % 2)
bit_and_at zero a b = omega (arith, bit_and_step a b)
bit_and_at (suc i) a b =
    rw (shift (bit_and a b), shift a, shift b)
      (ap (λ (t : ℕ). t / 2 ^ i % 2) (omega (arith, bit_and_step a b))
        ∙ bit_and_at i (a / 2) (b / 2))
  where
    shift : (x : ℕ) → x / 2 ^ suc i ≡ x / 2 / 2 ^ i
    shift x = rw two_pow_suc (sym (div-div-eq-div-mul x 2 (2 ^ i)))

bit_and_le_below : (n a b : ℕ) → a < n → bit_and a b ≤ a
bit_and_le_below zero a b h = absurd (omega arith)
bit_and_le_below (suc n) zero b h = omega (arith, zero-bit_and b)
bit_and_le_below (suc n) (suc a) b h =
    omega (arith, bit_and_step (suc a) b, bit_and_le_below n (suc a / 2) (b / 2) (omega arith))

pub bit_and_le : (a b : ℕ) → bit_and a b ≤ a
bit_and_le a b = bit_and_le_below (suc a) a b (omega arith)

bit_and_le_right_below : (n a b : ℕ) → a < n → bit_and a b ≤ b
bit_and_le_right_below zero a b h = absurd (omega arith)
bit_and_le_right_below (suc n) zero b h = omega (arith, zero-bit_and b)
bit_and_le_right_below (suc n) (suc a) b h =
    omega
      (arith, bit_and_step (suc a) b, bit_and_le_right_below n (suc a / 2) (b / 2) (omega arith))

pub bit_and_le_right : (a b : ℕ) → bit_and a b ≤ b
bit_and_le_right a b = bit_and_le_right_below (suc a) a b (omega arith)

bit_or-zero_below : (n a : ℕ) → a < n → bit_or a 0 ≡ a
bit_or-zero_below zero a h = absurd (omega arith)
bit_or-zero_below (suc n) zero h = refl
bit_or-zero_below (suc n) (suc a) h =
    omega (arith, bit_or_step (suc a) 0, bit_or-zero_below n (suc a / 2) (omega arith))

pub bit_or-zero : (a : ℕ) → bit_or a 0 ≡ a
bit_or-zero a = bit_or-zero_below (suc a) a (omega arith)

-- Bit 2 put into a number that has it clear.
pub bit_or-bit_two : (a b : ℕ) → a / 4 % 2 ≡ 0 → b < 2 → bit_or a (b * 4) ≡ a + b * 4
bit_or-bit_two a b clear small = omega (
  arith,
  bit_or_step a (b * 4),
  bit_or_step (a / 2) (b * 4 / 2),
  bit_or_step (a / 2 / 2) (b * 4 / 2 / 2),
  ap (λ (t : ℕ). bit_or (a / 2 / 2 / 2) t) {x = b * 4 / 2 / 2 / 2} {y = 0} (omega arith),
  bit_or-zero (a / 2 / 2 / 2),
)

-- Bit 2 taken out of a number.
pub bit_and-but_two : (a : ℕ) → a < 2 ^ 32 → bit_and a 0xfffffffb + a / 4 % 2 * 4 ≡ a
bit_and-but_two a small =
    omega (arith, bit_and-complement 32 a 0xfffffffb 4 small (omega arith), bit_and-field 2 1 a)

-- A word with its two low bits taken out.
pub multiple-bit_and : (a : ℕ) → bit_and 0xfffffffc a % 4 ≡ 0
multiple-bit_and a = omega (arith, bit_and_step 0xfffffffc a, bit_and_step 0x7ffffffe (a / 2))

pub bit_of_arith : (i x : ℕ) → i < 32 → bit_of i x ≡ to_bool (x / 2 ^ i % 2)
unfolding bit_of
bit_of_arith i x h = ap to_bool (extract_arith 32 i 1 x (omega arith))

-- A bit that the mask keeps.
pub bit_of-bit_and :
    (i x mask : ℕ) → i < 32 → mask / 2 ^ i % 2 ≡ 1 → bit_of i (bit_and x mask) ≡ bit_of i x
bit_of-bit_and i x mask h kept =
    bit_of_arith i (bit_and x mask) h
    ∙ (ap to_bool (omega (arith, bit_and_at i x mask)) ∙ sym (bit_of_arith i x h))

bit_and_comm_below : (n a b : ℕ) → a < n → bit_and a b ≡ bit_and b a
bit_and_comm_below zero a b h = absurd (omega arith)
bit_and_comm_below (suc n) zero b h = omega (arith, zero-bit_and b, bit_and-zero b)
bit_and_comm_below (suc n) (suc a) b h = omega (
  arith,
  bit_and_step (suc a) b,
  bit_and_step b (suc a),
  bit_and_comm_below n (suc a / 2) (b / 2) (omega arith),
)

pub bit_and_comm : (a b : ℕ) → bit_and a b ≡ bit_and b a
bit_and_comm a b = bit_and_comm_below (suc a) a b (omega arith)

-- A multiple of 4 has no bits to take out.
pub bit_and-multiple : (a : ℕ) → a < 2 ^ 32 → a % 4 ≡ 0 → bit_and 0xfffffffc a ≡ a
bit_and-multiple a small four =
    bit_and_comm 0xfffffffc a
    ∙ omega (arith, bit_and-complement 32 a 0xfffffffc 3 small (omega arith), bit_and-mask 2 a)
