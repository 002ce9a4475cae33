-- ===== src/Bits/Digits.antt =====
-- The native bit operations by their lowest digit: each means a recursion on the binary digits,
-- whose fuel is dropped here.
use Prim.Native.Nat.{digits, bit_and-bitwise, bit_or-bitwise, bit_xor-bitwise, differ}
use micromachine.Base.{
  ℕ, zero, suc, ◌+◌, ◌-◌, ◌*◌, ◌/◌, ◌%◌, ◌≤◌, ◌<◌, min, max, bit_and, bit_or, bit_xor, ◌≡◌, refl,
  arith, ◌∙◌, ap,
}

module _ (rest : ℕ → ℕ) (digit : ℕ → ℕ → ℕ) where
  one_more :
      (fuel x y : ℕ) → x ≤ fuel → digits rest digit (suc fuel) x y ≡ digits rest digit fuel x y
  one_more zero (suc x) y enough = absurd (omega arith)
  one_more zero zero y enough = refl
  one_more (suc fuel) zero y enough = refl
  one_more (suc fuel) (suc x) y enough =
      ap (λ (t : ℕ). t * 2 + digit (suc x % 2) (y % 2))
        (one_more fuel (suc x / 2) (y / 2) (omega arith))

  more : (k fuel x y : ℕ) → x ≤ fuel → digits rest digit (k + fuel) x y ≡ digits rest digit fuel x y
  more zero fuel x y enough =
      ap (λ (t : ℕ). digits rest digit t x y) {x = 0 + fuel} {y = fuel} (omega arith)
  more (suc k) fuel x y enough =
      ap (λ (t : ℕ). digits rest digit t x y) {x = suc k + fuel} {y = suc (k + fuel)} (omega arith)
      ∙ (one_more (k + fuel) x y (omega arith) ∙ more k fuel x y enough)

  enough_fuel :
      (x y : ℕ) → digits rest digit x (suc x / 2) y ≡ digits rest digit (suc x / 2) (suc x / 2) y
  enough_fuel x y =
      ap (λ (fuel : ℕ). digits rest digit fuel (suc x / 2) y) (omega arith)
      ∙ more (x - suc x / 2) (suc x / 2) (suc x / 2) y (omega arith)

pub zero-bit_and : (b : ℕ) → bit_and 0 b ≡ 0
zero-bit_and = bit_and-bitwise 0

pub bit_and_step : (x y : ℕ) → bit_and x y ≡ min (x % 2) (y % 2) + 2 * bit_and (x / 2) (y / 2)
bit_and_step zero y = omega (arith, zero-bit_and y, zero-bit_and (y / 2))
bit_and_step (suc x) y = omega (
  arith,
  enough_fuel (λ t. 0) min x (y / 2),
  bit_and-bitwise (suc x / 2) (y / 2),
  bit_and-bitwise (suc x) y,
)

pub bit_or_step : (x y : ℕ) → bit_or x y ≡ max (x % 2) (y % 2) + 2 * bit_or (x / 2) (y / 2)
bit_or_step zero y = omega (arith, bit_or-bitwise 0 y, bit_or-bitwise 0 (y / 2))
bit_or_step (suc x) y = omega (
  arith,
  enough_fuel (λ t. t) max x (y / 2),
  bit_or-bitwise (suc x / 2) (y / 2),
  bit_or-bitwise (suc x) y,
)

differ_small : (x y : ℕ) → x < 2 → y < 2 → differ x y ≡ (x + y) % 2
differ_small zero zero p q = refl
differ_small zero (suc zero) p q = refl
differ_small (suc zero) zero p q = refl
differ_small (suc zero) (suc zero) p q = refl
differ_small zero (suc (suc y)) p q = absurd (omega arith)
differ_small (suc zero) (suc (suc y)) p q = absurd (omega arith)
differ_small (suc (suc x)) y p q = absurd (omega arith)

differ_lem : (a b : ℕ) → differ (a % 2) (b % 2) ≡ (a + b) % 2
differ_lem a b = differ_small (a % 2) (b % 2) (omega arith) (omega arith) ∙ omega arith

pub bit_xor_step : (x y : ℕ) → bit_xor x y ≡ (x + y) % 2 + 2 * bit_xor (x / 2) (y / 2)
bit_xor_step zero y = omega (arith, bit_xor-bitwise 0 y, bit_xor-bitwise 0 (y / 2))
bit_xor_step (suc x) y = omega (
  arith,
  enough_fuel (λ t. t) differ x (y / 2),
  bit_xor-bitwise (suc x / 2) (y / 2),
  bit_xor-bitwise (suc x) y,
  differ_lem (suc x) y,
)
