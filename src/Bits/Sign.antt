-- ===== src/Bits/Sign.antt =====
-- Sign extension: `sign` of micromachine/helpers/binops.hpp.
use native.Mathlib.Nat.{mod-lt}
use micromachine.Base.{
  ℕ, zero, suc, ◌+◌, ◌-◌, ◌*◌, ◌/◌, ◌%◌, ◌^◌, ◌≤◌, ◌<◌, bit_and, bit_or, ◌≡◌, ap, ap₂, arith, ◌∙◌,
  Bool, true, false, of_bool, to_bool,
}
use micromachine.Bits.{sign, make_mask, complement, get_bit}
use micromachine.Bits.Laws.{make_mask_lem, bit_and-mask, two_pow_pos}
use micromachine.Bits.Single.{get_bit_arith}
use micromachine.Bits.Joins.{bit_or-joins, two_pow_split}

-- The sign extension of the `k + 1` lowest bits of a number of `w` bits, for `w` up to 32: the lower
-- `k` bits, and copies of bit `k` above them.
pub sign_lem :
    (w x k : ℕ)
    → w ≤ 32
    → k < w
    → x < 2 ^ w
    → sign w x (k + 1) ≡ x % 2 ^ k + of_bool (to_bool (x / 2 ^ k % 2)) * (2 ^ w - 2 ^ k)
unfolding sign complement
sign_lem w x k width below small_x =
    ap (λ (i : ℕ). extended (make_mask w i) (get_bit x i)) {x = k + 1 - 1} {y = k} (omega arith)
    ∙ (ap₂ (λ (m : ℕ) (b : Bool). extended m b) (make_mask_lem w k h) (get_bit_arith x k)
        ∙ (ap (λ (t : ℕ). bit_or t ((2 ^ w - 1 - (2 ^ k - 1)) * of_bool top)) (bit_and-mask k x)
            ∙ (ap (λ (t : ℕ). bit_or (x % 2 ^ k) t) (copies top)
                ∙ (bit_or-joins k (w - k) (x % 2 ^ k) (of_bool top * (2 ^ (w - k) - 1))
                      (mod-lt x (two_pow_pos k)) (small top)
                    ∙ ap (λ (t : ℕ). x % 2 ^ k + t) (spread top)))))
  where
    h : k ≤ w
    h = omega arith

    top : Bool
    top = to_bool (x / 2 ^ k % 2)

    extended : ℕ → Bool → ℕ
    extended m b = bit_or (bit_and x m) ((2 ^ w - 1 - m) * of_bool b)

    small : (b : Bool) → of_bool b * (2 ^ (w - k) - 1) < 2 ^ (w - k)
    small true = omega (arith, two_pow_pos (w - k))
    small false = omega (arith, two_pow_pos (w - k))

    pred_mul : (p q : ℕ) → 1 ≤ q → q * p - p ≡ (q - 1) * p
    pred_mul p (suc q) hq = grind arith
    pred_mul p zero hq = elim hq [ ]

    product : 2 ^ w - 2 ^ k ≡ (2 ^ (w - k) - 1) * 2 ^ k
    product =
        omega (arith, two_pow_split w k h, pred_mul (2 ^ k) (2 ^ (w - k)) (two_pow_pos (w - k)))

    spread : (b : Bool) → of_bool b * (2 ^ (w - k) - 1) * 2 ^ k ≡ of_bool b * (2 ^ w - 2 ^ k)
    spread true = omega (arith, product)
    spread false = omega arith

    copies :
        (b : Bool) → (2 ^ w - 1 - (2 ^ k - 1)) * of_bool b ≡ of_bool b * (2 ^ (w - k) - 1) * 2 ^ k
    copies true = omega (arith, product, two_pow_pos k)
    copies false = omega arith
