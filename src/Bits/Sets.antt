-- ===== src/Bits/Sets.antt =====
-- Words as sets of bits: union, and what is left when the bits of another word are cleared.
use native.Mathlib.Nat.{div-div-eq-div-mul}
use micromachine.Base.{
  ℕ, zero, suc, ◌+◌, ◌/◌, ◌%◌, ◌^◌, ◌<◌, min, max, bit_and, bit_or, ◌≡◌, sym, ap, ap₂, arith, ◌∙◌,
  not, ◌&&◌, ◌||◌, to_bool,
}
use micromachine.Bits.{bit_of, not32}
use micromachine.Bits.Digits.{bit_or_step}
use micromachine.Bits.Laws.{two_pow_suc}
use micromachine.Bits.Masks.{bit_and_at, bit_of_arith}

shift : (i x : ℕ) → x / 2 ^ suc i ≡ x / 2 / 2 ^ i
shift i x = rw two_pow_suc (sym (div-div-eq-div-mul x 2 (2 ^ i)))

bit_or_at : (i a b : ℕ) → bit_or a b / 2 ^ i % 2 ≡ max (a / 2 ^ i % 2) (b / 2 ^ i % 2)
bit_or_at zero a b = omega (arith, bit_or_step a b)
bit_or_at (suc i) a b =
    rw (shift i (bit_or a b), shift i a, shift i b)
      (ap (λ (t : ℕ). t / 2 ^ i % 2) (omega (arith, bit_or_step a b)) ∙ bit_or_at i (a / 2) (b / 2))

-- The bits of a number and of what is missing from it to all ones.
complement_at : (w i x y : ℕ) → i < w → x + y + 1 ≡ 2 ^ w → x / 2 ^ i % 2 + y / 2 ^ i % 2 ≡ 1
complement_at zero i x y h e = absurd (omega arith)
complement_at (suc w) zero x y h e = omega (arith, e, two_pow_suc w)
complement_at (suc w) (suc i) x y h e =
    rw (shift i x, shift i y)
      (complement_at w i (x / 2) (y / 2) (omega arith) (omega (arith, e, two_pow_suc w)))

max_bool : (a b : ℕ) → a < 2 → b < 2 → to_bool (max a b) ≡ (to_bool a || to_bool b)
max_bool a b h k = ground arith

min_bool : (a b : ℕ) → a < 2 → b < 2 → to_bool (min a b) ≡ (to_bool a && to_bool b)
min_bool a b h k = ground arith

not_bool : (a b : ℕ) → a + b ≡ 1 → to_bool b ≡ not (to_bool a)
not_bool a b h = ground arith

pub bit_of-bit_or : (i a b : ℕ) → i < 32 → bit_of i (bit_or a b) ≡ (bit_of i a || bit_of i b)
bit_of-bit_or i a b h =
    bit_of_arith i (bit_or a b) h
    ∙ (ap to_bool (bit_or_at i a b)
        ∙ (max_bool (a / 2 ^ i % 2) (b / 2 ^ i % 2) (omega arith) (omega arith)
            ∙ ap₂ ◌||◌ (sym (bit_of_arith i a h)) (sym (bit_of_arith i b h))))

bit_of-not32 : (i x : ℕ) → i < 32 → x < 2 ^ 32 → bit_of i (not32 x) ≡ not (bit_of i x)
bit_of-not32 i x h small =
    bit_of_arith i (not32 x) h
    ∙ (not_bool (x / 2 ^ i % 2) (not32 x / 2 ^ i % 2)
          (complement_at 32 i x (not32 x) h (omega arith))
        ∙ ap not (sym (bit_of_arith i x h)))

pub bit_of-bit_and-not32 :
    (i a x : ℕ)
    → i < 32
    → x < 2 ^ 32
    → bit_of i (bit_and a (not32 x)) ≡ (bit_of i a && not (bit_of i x))
bit_of-bit_and-not32 i a x h small =
    bit_of_arith i (bit_and a (not32 x)) h
    ∙ (ap to_bool (bit_and_at i a (not32 x))
        ∙ (min_bool (a / 2 ^ i % 2) (not32 x / 2 ^ i % 2) (omega arith) (omega arith)
            ∙ ap₂ ◌&&◌ (sym (bit_of_arith i a h))
                (sym (bit_of_arith i (not32 x) h) ∙ bit_of-not32 i x h small)))
