-- ===== src/Bits/Joins.antt =====
-- Two numbers put side by side, and a number moved across the width of a word.
use native.Mathlib.Nat.{
  mul-div-mul_right, div-eq_of_lt, pow-le-pow_right, mod-lt, mod-eq_of_lt, mul-div_cancel,
  mul-add-mod_self_right, div-add-mod',
}
use micromachine.Base.{
  ℕ, zero, suc, ◌+◌, ◌-◌, ◌*◌, ◌/◌, ◌%◌, ◌^◌, ◌≤◌, ◌<◌, bit_and, bit_or, ◌≡◌, sym, ap, ap₂, arith,
  ◌∙◌,
}
use micromachine.Bits.Laws.{two_pow_add, two_pow_pos, bit_or-merge, bit_and-mask, bit_and-field}

spread : (p q : ℕ) → 1 ≤ p → 1 ≤ q → p - 1 + (q - 1) * p + 1 ≡ p * q
spread p (suc q) hp hq = grind arith
spread p zero hp hq = elim hq [ ]

module _ (k n x y : ℕ) (hx : x < 2 ^ k) (hy : y < 2 ^ n) where
  low : bit_and x (2 ^ k - 1) ≡ x
  low = bit_and-mask k x ∙ mod-eq_of_lt hx

  high : bit_and (y * 2 ^ k) ((2 ^ n - 1) * 2 ^ k) ≡ y * 2 ^ k
  high =
      bit_and-field k n (y * 2 ^ k)
      ∙ ap (λ (t : ℕ). t * 2 ^ k)
          (ap (λ (t : ℕ). t % 2 ^ n) (mul-div_cancel y (two_pow_pos k)) ∙ mod-eq_of_lt hy)

  whole : 2 ^ k - 1 + (2 ^ n - 1) * 2 ^ k + 1 ≡ 2 ^ (k + n)
  whole = spread (2 ^ k) (2 ^ n) (two_pow_pos k) (two_pow_pos n) ∙ sym (two_pow_add k n)

  -- A number of `k` bits below a number of `n` bits.
  pub bit_or-joins : bit_or x (y * 2 ^ k) ≡ x + y * 2 ^ k
  bit_or-joins =
      ap₂ bit_or (sym low) (sym high)
      ∙ (bit_or-merge (k + n) x (y * 2 ^ k) (2 ^ k - 1) ((2 ^ n - 1) * 2 ^ k) whole
          ∙ ap₂ (λ (p q : ℕ). p + q) low high)

  pub bit_or-joins_high : bit_or (y * 2 ^ k) x ≡ y * 2 ^ k + x
  bit_or-joins_high =
      ap₂ bit_or (sym high) (sym low)
      ∙ (bit_or-merge (k + n) (y * 2 ^ k) x ((2 ^ n - 1) * 2 ^ k) (2 ^ k - 1) (omega (arith, whole))
          ∙ ap₂ (λ (p q : ℕ). p + q) high low)

pub two_pow_split : (w n : ℕ) → n ≤ w → 2 ^ w ≡ 2 ^ (w - n) * 2 ^ n
two_pow_split w n h =
    ap (λ (t : ℕ). 2 ^ t) {x = w} {y = w - n + n} (omega arith) ∙ two_pow_add (w - n) n

-- What leaves a word of `w` bits when it is moved up by `n` bits.
pub shifted_out : (w n v : ℕ) → n ≤ w → v * 2 ^ n / 2 ^ w ≡ v / 2 ^ (w - n)
shifted_out w n v h =
    ap (λ (t : ℕ). v * 2 ^ n / t) (two_pow_split w n h)
    ∙ mul-div-mul_right v (2 ^ (w - n)) (two_pow_pos n)

-- A number of `w` bits moved down by `w` or more is 0.
pub shifted_away : (w n v : ℕ) → v < 2 ^ w → w ≤ n → v / 2 ^ n ≡ 0
shifted_away w n v small h = div-eq_of_lt (omega (arith, pow-le-pow_right {n = 2} (omega arith) h))

-- What stays when a number is moved up by `n` in a word of `w` bits.
pub shifted_in : (w n v : ℕ) → n ≤ w → v * 2 ^ n % 2 ^ w ≡ v % 2 ^ (w - n) * 2 ^ n
shifted_in w n v h = rw (two_pow_split w n h) (
    ap (λ (t : ℕ). t % (q * p)) parts
    ∙ (mul-add-mod_self_right (v / q) (q * p) (v % q * p) ∙ mod-eq_of_lt low))
  where
    p : ℕ
    p = 2 ^ n

    q : ℕ
    q = 2 ^ (w - n)

    parts : v * p ≡ v / q * (q * p) + v % q * p
    parts = omega (arith, ap (λ (t : ℕ). t * p) (div-add-mod' v q))

    below : (a b c : ℕ) → a < b → 1 ≤ c → a * c < b * c
    below a b c lt pos = grind arith

    low : v % q * p < q * p
    low = below (v % q) q p (mod-lt v (two_pow_pos (w - n))) (two_pow_pos n)
