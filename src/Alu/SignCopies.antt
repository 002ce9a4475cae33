-- ===== src/Alu/SignCopies.antt =====
-- What micromachine/execution/alu.hpp puts above a value that is moved down: copies of the sign
-- bit, or the bits that a rotation moves out.
use native.Mathlib.Nat.{
  mod-eq_of_lt, mod-lt, div-lt_iff_lt-mul, div-le_self, div-eq_of_lt-le, div-add-mod',
}
use micromachine.Base.{
  ℕ, ◌+◌, ◌-◌, ◌*◌, ◌/◌, ◌%◌, ◌^◌, ◌≤◌, ◌<◌, ◌≡◌, ap, arith, ◌∙◌, Bool, not, bit_or, of_bool,
  to_bool, ltb, if◌then◌else◌,
}
use micromachine.Bits.{u32, get_bit, make_mask}
use micromachine.Bits.Laws.{field_mask, field_fits, pred_mul, two_pow_pos}
use micromachine.Bits.Single.{get_bit_arith}
use micromachine.Bits.Joins.{bit_or-joins, two_pow_split, shifted_in}

-- The quotient of the complement is the complement of the quotient.
complement_div : (p q v : ℕ) → 1 ≤ p → v < q * p → (q * p - 1 - v) / p ≡ q - 1 - v / p
complement_div p q v hp hv = div-eq_of_lt-le p low high
  where
    k : ℕ
    k = q - 1 - v / p

    below : v / p < q
    below = (div-lt_iff_lt-mul hp).1 hv

    whole : q * p ≡ k * p + v / p * p + p
    whole = omega (arith, ap (λ (t : ℕ). t * p) split)
      where
        split : q ≡ k + v / p + 1
        split = omega (arith, below)

    low : k * p ≤ q * p - 1 - v
    low = omega (arith, whole, div-add-mod' v p, mod-lt v hp)

    high : q * p - 1 - v < (k + 1) * p
    high = omega (arith, whole, div-add-mod' v p, hv)

-- The copies of the sign bit that `asr_c` puts above the value.
copies : (n : ℕ) → n ≤ 32 → u32 (make_mask 32 n * 2 ^ (32 - n)) ≡ (2 ^ n - 1) * 2 ^ (32 - n)
copies n h = field_mask 32 (32 - n) n (omega arith)

module _ (v n : ℕ) (small : v < 2 ^ 32) (lo : 1 ≤ n) (hi : n < 32) where
  p : ℕ
  p = 2 ^ n

  q : ℕ
  q = 2 ^ (32 - n)

  whole : 2 ^ 32 ≡ q * p
  unfolding p q
  whole = two_pow_split 32 n (omega arith)

  quotient_small : v / 2 ^ n < 2 ^ (32 - n)
  unfolding p q
  quotient_small = (div-lt_iff_lt-mul (two_pow_pos n)).1 (omega (arith, whole))

  sign_filled :
      bit_or (v / 2 ^ n) (u32 (1 * u32 (make_mask 32 n * 2 ^ (32 - n))))
      ≡ 2 ^ 32 - 1 - (2 ^ 32 - 1 - v) / 2 ^ n
  unfolding p q
  sign_filled =
      ap (bit_or (v / p)) {x = u32 (1 * u32 (make_mask 32 n * q))} {y = (p - 1) * q} filled
      ∙ (bit_or-joins (32 - n) n (v / p) (p - 1) quotient_small (omega (arith, two_pow_pos n))
          ∙ sum)
    where
      fits : (p - 1) * q < 2 ^ 32
      fits = field_fits 32 (32 - n) n (omega arith)

      filled : u32 (1 * u32 (make_mask 32 n * q)) ≡ (p - 1) * q
      filled =
          ap (λ (t : ℕ). 1 * t % 2 ^ 32) (copies n (omega arith)) ∙ omega (arith, mod-eq_of_lt fits)

      product : (p - 1) * q + q ≡ q * p
      product = pred_mul p q (two_pow_pos n)

      sum : v / p + (p - 1) * q ≡ 2 ^ 32 - 1 - (2 ^ 32 - 1 - v) / p
      sum = omega (
        arith,
        whole,
        product,
        quotient_small,
        complement_div p q v (two_pow_pos n) (omega (arith, whole)),
        ap (λ (t : ℕ). (t - 1 - v) / p) whole,
      )

  sign_clear : bit_or (v / 2 ^ n) (u32 (0 * u32 (make_mask 32 n * 2 ^ (32 - n)))) ≡ v / 2 ^ n
  sign_clear =
      ap (bit_or (v / 2 ^ n)) {x = u32 (0 * u32 (make_mask 32 n * 2 ^ (32 - n)))} {y = 0 * 2 ^ 0}
        (omega arith)
      ∙ (bit_or-joins 32 0 (v / 2 ^ n) 0 (omega (arith, div-le_self v (2 ^ n))) (omega arith)
          ∙ omega arith)

  pub rotated : bit_or (v / 2 ^ n) (u32 (v * 2 ^ (32 - n))) ≡ v / 2 ^ n + v % 2 ^ n * 2 ^ (32 - n)
  rotated =
      ap (bit_or (v / 2 ^ n)) (
        shifted_in 32 (32 - n) v (omega arith)
        ∙ ap (λ (t : ℕ). v % 2 ^ t * 2 ^ (32 - n)) {x = 32 - (32 - n)} {y = n} (omega arith))
      ∙ bit_or-joins (32 - n) n (v / 2 ^ n) (v % 2 ^ n) quotient_small (mod-lt v (two_pow_pos n))

pub sign_bit : (v : ℕ) → v < 2 ^ 32 → get_bit v 31 ≡ not (ltb v (2 ^ 31))
sign_bit v small = get_bit_arith v 31 ∙ top
  where
    top : to_bool (v / 2 ^ 31 % 2) ≡ not (ltb v (2 ^ 31))
    top = ground arith

-- The value of `asr_c` on a number without and with the sign bit.
unfoldable pub asr_value_of : ℕ → ℕ → ℕ
asr_value_of v n = if ltb v (2 ^ 31) then v / 2 ^ n else 2 ^ 32 - 1 - (2 ^ 32 - 1 - v) / 2 ^ n

pub sign_copied :
    (v n : ℕ)
    → v < 2 ^ 32
    → 1 ≤ n
    → n < 32
    → bit_or (v / 2 ^ n) (u32 (of_bool (get_bit v 31) * u32 (make_mask 32 n * 2 ^ (32 - n))))
      ≡ asr_value_of v n
unfolding asr_value_of
sign_copied v n small lo hi =
    ap (λ (b : Bool). bit_or (v / 2 ^ n) (u32 (of_bool b * u32 (make_mask 32 n * 2 ^ (32 - n)))))
      (sign_bit v small)
    ∙ by_sign
  where
    by_sign :
        bit_or
          (v / 2 ^ n)
          (u32 (of_bool (not (ltb v (2 ^ 31))) * u32 (make_mask 32 n * 2 ^ (32 - n))))
        ≡ (if ltb v (2 ^ 31) then v / 2 ^ n else 2 ^ 32 - 1 - (2 ^ 32 - 1 - v) / 2 ^ n)
    by_sign = ground (arith, sign_filled v n small lo hi, sign_clear v n small lo hi)
