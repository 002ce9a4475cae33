-- ===== src/Alu/Shift.antt =====
-- What the shifts and the rotation of micromachine/execution/alu.hpp compute.
use native.Mathlib.Nat.{mod-eq_of_lt, div-one, mul-one, mul-mod_left, mul-div_cancel}
use micromachine.Base.{
  subst, min, ℕ, ◌+◌, ◌-◌, ◌*◌, ◌/◌, ◌%◌, ◌^◌, ◌≤◌, ◌<◌, ◌≡◌, ◌⊎◌, inl, inr, refl, sym, ap, ap₂,
  arith, ◌∙◌, Bool, true, false, bit_or, of_bool, to_bool, ltb, ◌==◌, if◌then◌else◌, Option, none,
  some, if_true, if_false, Bool-cases,
}
use micromachine.Bits.{u32, get_bit, extract}
use micromachine.Bits.Laws.{two_pow_pos, extract_arith}
use micromachine.Bits.Single.{get_bit_arith}
use micromachine.Bits.Joins.{two_pow_split, shifted_out, shifted_away}
use micromachine.Alu.{lsl_c, lsr_c, asr_c, ror_c}
use micromachine.Alu.SignCopies.{rotated, sign_bit, asr_value_of, sign_copied}

-- The quotient by 2 ^ 32 of a number moved up by more than 32 bits is even.
even_out : (v n : ℕ) → 33 ≤ n → v * 2 ^ n / 2 ^ 32 % 2 ≡ 0
even_out v n h =
    ap (λ (t : ℕ). t / 2 ^ 32 % 2) up
    ∙ (ap (λ (t : ℕ). t % 2) (mul-div_cancel (v * 2 ^ (n - 33) * 2) (two_pow_pos 32))
        ∙ mul-mod_left (v * 2 ^ (n - 33)) 2)
  where
    up : v * 2 ^ n ≡ v * 2 ^ (n - 33) * 2 * 2 ^ 32
    up = omega (arith, ap (λ (t : ℕ). v * t) (two_pow_split n 33 h))

all_out : (v n : ℕ) → 32 ≤ n → v * 2 ^ n % 2 ^ 32 ≡ 0
all_out v n h = ap (λ (t : ℕ). t % 2 ^ 32) up ∙ mul-mod_left (v * 2 ^ (n - 32)) (2 ^ 32)
  where
    up : v * 2 ^ n ≡ v * 2 ^ (n - 32) * 2 ^ 32
    up = omega (arith, ap (λ (t : ℕ). v * t) (two_pow_split n 32 h))

module _ (v n : ℕ) (carry_in : Bool) (small : v < 2 ^ 32) where
  lsl_value : (lsl_c v n carry_in).0 ≡ v * 2 ^ n % 2 ^ 32
  unfolding lsl_c
  lsl_value = ground (arith, all_out v n, mul-one v, mod-eq_of_lt small)

  lsl_carry :
      (lsl_c v n carry_in).1 ≡ (if n == 0 then carry_in else to_bool (v * 2 ^ n / 2 ^ 32 % 2))
  unfolding lsl_c
  lsl_carry = ground (arith, get_bit_arith v (32 - n), shifted_out 32 n v, even_out v n)

  lsr_value : (lsr_c v n carry_in).0 ≡ v / 2 ^ n
  unfolding lsr_c
  lsr_value = ground (arith, shifted_away 32 n v small, div-one v)

  lsr_carry : (lsr_c v n carry_in).1 ≡ (if n == 0 then carry_in else to_bool (v / 2 ^ (n - 1) % 2))
  unfolding lsr_c
  lsr_carry = ground (arith, get_bit_arith v (n - 1), shifted_away 32 (n - 1) v small)

module _ (v n : ℕ) (carry_in : Bool) (small : v < 2 ^ 32) where
  asr_value : (asr_c v n carry_in).0 ≡ asr_value_of v n
  unfolding asr_c asr_value_of
  asr_value = ground (
    arith,
    sign_copied v n small,
    sign_bit v small,
    shifted_away 32 n v small,
    shifted_away 32 n (2 ^ 32 - 1 - v) (omega arith),
    div-one v,
    div-one (2 ^ 32 - 1 - v),
    of_false,
    of_true,
    unfold_value,
  )
    where
      of_false : get_bit v 31 ≡ false → of_bool (get_bit v 31) ≡ 0
      of_false e = ap of_bool e

      of_true : get_bit v 31 ≡ true → of_bool (get_bit v 31) ≡ 1
      of_true e = ap of_bool e

      unfold_value :
          asr_value_of v n
          ≡ (if ltb v (2 ^ 31) then v / 2 ^ n else 2 ^ 32 - 1 - (2 ^ 32 - 1 - v) / 2 ^ n)
      unfold_value = refl

  asr_carry :
      (asr_c v n carry_in).1 ≡ (if n == 0 then carry_in else to_bool (v / 2 ^ min (n - 1) 31 % 2))
  unfolding asr_c
  asr_carry = ground (arith, get_bit_arith v (n - 1), get_bit_arith v 31)

-- LSL of a 32-bit value: the result is the value times 2 ^ n, cut to 32 bits, and the carry is the
-- last bit that is moved out, or the old carry when n is 0.
pub lsl_lem :
    (v n : ℕ) (carry_in : Bool)
    → v < 2 ^ 32
    → ((lsl_c v n carry_in).0 ≡ v * 2 ^ n % 2 ^ 32)
      × ((lsl_c v n carry_in).1 ≡ (if n == 0 then carry_in else to_bool (v * 2 ^ n / 2 ^ 32 % 2)))
lsl_lem v n carry_in small = (lsl_value v n carry_in small, lsl_carry v n carry_in small)

-- LSR of a 32-bit value: the result is the quotient by 2 ^ n, and the carry is the last bit that is
-- moved out, or the old carry when n is 0.
pub lsr_lem :
    (v n : ℕ) (carry_in : Bool)
    → v < 2 ^ 32
    → ((lsr_c v n carry_in).0 ≡ v / 2 ^ n)
      × ((lsr_c v n carry_in).1 ≡ (if n == 0 then carry_in else to_bool (v / 2 ^ (n - 1) % 2)))
lsr_lem v n carry_in small = (lsr_value v n carry_in small, lsr_carry v n carry_in small)

-- ASR of a 32-bit value: the result is the quotient of a number below 2 ^ 31 and the complement of
-- the complement's quotient otherwise, and the carry is the last bit that is moved out, the sign
-- bit from n = 32 on, or the old carry when n is 0.
pub asr_lem :
    (v n : ℕ) (carry_in : Bool)
    → v < 2 ^ 32
    → ((asr_c v n carry_in).0 ≡ asr_value_of v n)
      × ((asr_c v n carry_in).1
          ≡ (if n == 0 then carry_in else to_bool (v / 2 ^ min (n - 1) 31 % 2)))
asr_lem v n carry_in small = (asr_value v n carry_in small, asr_carry v n carry_in small)

low_five : (n : ℕ) → n < 32 → extract 32 0 5 n ≡ n
low_five n h = extract_arith 32 0 5 n (omega arith) ∙ omega (arith, div-one n)

some_pair :
    (x x' : ℕ) (c c' : Bool)
    → x ≡ x'
    → c ≡ c'
    → Path (Option (ℕ × Bool)) (some (x, c)) (some (x', c'))
some_pair x x' c c' ex ec = ap₂ (λ y b. some (y, b)) ex ec

module _ (v n : ℕ) (carry_in : Bool) where
  ror_moved :
      1 ≤ n
      → n < 32
      → ror_c v n carry_in ≡ some (bit_or (v / 2 ^ n) (u32 (v * 2 ^ (32 - n))), get_bit v (n - 1))
  unfolding ror_c
  ror_moved lo hi = ground (arith, low_five n hi)

  ror_zero : n ≡ 0 → ror_c v n carry_in ≡ some (v, carry_in)
  unfolding ror_c
  ror_zero e = ground arith

-- ROR of a 32-bit value by less than 32: the low n bits stand above the others, and the carry is
-- the last bit that is moved out, or the old carry when n is 0. From 32 on the program's shift is
-- undefined.
pub ror_lem :
    (v n : ℕ) (carry_in : Bool)
    → v < 2 ^ 32
    → ror_c v n carry_in ≡ (
        if ltb n 32
        then some (
          v / 2 ^ n + v % 2 ^ n * 2 ^ (32 - n),
          if n == 0 then carry_in else to_bool (v / 2 ^ (n - 1) % 2),
        )
        else none)
unfolding ror_c
ror_lem v n carry_in small = elim (Bool-cases (ltb n 32)) [
  | inl below ↦ moved (ground arith) (zero_or n) ∙ sym (if_true result none below)
  | inr above ↦ outside (ground arith) ∙ sym (if_false result none above)
]
  where
    carry : Bool
    carry = if n == 0 then carry_in else to_bool (v / 2 ^ (n - 1) % 2)

    result : Option (ℕ × Bool)
    result = some (v / 2 ^ n + v % 2 ^ n * 2 ^ (32 - n), carry)

    outside : 32 ≤ n → ror_c v n carry_in ≡ none
    outside h = ground arith

    zero_or : (k : ℕ) → (k ≡ 0) ⊎ (1 ≤ k)
    zero_or k = ground arith

    moved :
        n < 32
        → (n ≡ 0) ⊎ (1 ≤ n)
        → ror_c v n carry_in ≡ some (v / 2 ^ n + v % 2 ^ n * 2 ^ (32 - n), carry)
    moved h (inl z) =
        ror_zero v n carry_in z
        ∙ some_pair v (v / 2 ^ n + v % 2 ^ n * 2 ^ (32 - n)) carry_in carry
            (subst (λ (k : ℕ). v ≡ v / 2 ^ k + v % 2 ^ k * 2 ^ (32 - k)) (sym z)
              (omega (arith, div-one v)))
            (ground arith)
    moved h (inr lo) =
        ror_moved v n carry_in lo h
        ∙ some_pair (bit_or (v / 2 ^ n) (u32 (v * 2 ^ (32 - n))))
            (v / 2 ^ n + v % 2 ^ n * 2 ^ (32 - n)) (get_bit v (n - 1)) carry
            (rotated v n small lo h) (ground (arith, get_bit_arith v (n - 1)))
