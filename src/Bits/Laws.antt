-- ===== src/Bits/Laws.antt =====
-- The bit operations of micromachine/helpers/binops.hpp and micromachine/types/bits.hpp as
-- arithmetic.
use native.Mathlib.Nat.{
  pow-suc, one-le-pow, div-div-eq-div-mul, mul_assoc, mul-one, mod-eq_of_lt, mod-lt,
  add-mul-mod_self_right, mul-add-mod_self_right, div-add-mod', div-one, pow-le-pow_right,
  mul-div_cancel, dvd-mul_right, mod-mod_of_dvd,
}
use Prim.Native.Nat.{◌∣◌}
use micromachine.Base.{
  ℕ, zero, suc, ◌+◌, ◌-◌, ◌*◌, ◌/◌, ◌%◌, ◌^◌, ◌≤◌, ◌<◌, bit_and, bit_or, ◌≡◌, refl, sym, ap, arith,
  ◌∙◌,
}
use micromachine.Bits.{make_mask, extract, write_bits, clear_bits}
use micromachine.Bits.Digits.{zero-bit_and, bit_and_step, bit_or_step}

-- Powers of two.
pub two_pow_suc : (k : ℕ) → 2 ^ suc k ≡ 2 * 2 ^ k
two_pow_suc k = omega (arith, pow-suc 2 k)

pub two_pow_pos : (k : ℕ) → 1 ≤ 2 ^ k
two_pow_pos k = one-le-pow k 2 (omega arith)

pub two_pow_add : (a b : ℕ) → 2 ^ (a + b) ≡ 2 ^ a * 2 ^ b
two_pow_add zero b = rw unit (omega arith)
  where
    unit : zero + b ≡ b
    unit = omega arith
two_pow_add (suc a) b = rw shift (omega (arith, two_pow_suc (a + b), two_pow_add a b, mul_suc))
  where
    shift : suc a + b ≡ suc (a + b)
    shift = omega arith

    mul_suc : 2 ^ suc a * 2 ^ b ≡ 2 * (2 ^ a * 2 ^ b)
    mul_suc = rw two_pow_suc (mul_assoc 2 (2 ^ a) (2 ^ b))

no_common : (bound x : ℕ) → x < bound → bit_and x 0 ≡ 0
no_common (suc bound) (suc x) below =
    omega (arith, no_common bound (suc x / 2) (omega arith), bit_and_step (suc x) 0)
no_common (suc bound) zero below = zero-bit_and 0
no_common zero x below = absurd (omega arith)

pub bit_and-zero : (x : ℕ) → bit_and x 0 ≡ 0
bit_and-zero x = no_common (suc x) x (omega arith)

halve_mod : (k a : ℕ) → a % 2 ^ suc k ≡ a / 2 % 2 ^ k * 2 + a % 2
halve_mod k a =
    ap (λ (t : ℕ). t % 2 ^ suc k) split
    ∙ (add-mul-mod_self_right low (a / 2 / 2 ^ k) (2 ^ suc k) ∙ mod-eq_of_lt small)
  where
    low : ℕ
    low = a / 2 % 2 ^ k * 2 + a % 2

    small : low < 2 ^ suc k
    small = omega (arith, two_pow_suc k, mod-lt (a / 2) (two_pow_pos k))

    split : a ≡ low + a / 2 / 2 ^ k * 2 ^ suc k
    split = omega (
      arith,
      div-add-mod' (a / 2) (2 ^ k),
      ap (λ (t : ℕ). a / 2 / 2 ^ k * t) (two_pow_suc k),
      mul_swap,
    )
      where
        mul_swap : a / 2 / 2 ^ k * (2 * 2 ^ k) ≡ 2 * (a / 2 / 2 ^ k * 2 ^ k)
        mul_swap = omega arith

-- A mask of `k` low bits is the remainder by 2 ^ k.
pub bit_and-mask : (k a : ℕ) → bit_and a (2 ^ k - 1) ≡ a % 2 ^ k
bit_and-mask zero a = omega (arith, bit_and-zero a)
bit_and-mask (suc k) a = omega (
  arith,
  two_pow_suc k,
  two_pow_pos k,
  bit_and_step a (2 ^ suc k - 1),
  ap (bit_and (a / 2)) (half k),
  bit_and-mask k (a / 2),
  halve_mod k a,
)
  where
    half : (k : ℕ) → (2 ^ suc k - 1) / 2 ≡ 2 ^ k - 1
    half k = omega (arith, two_pow_suc k, two_pow_pos k)

-- Masks `c` and `m` that are one another's complement split a number in two.
pub bit_and-complement :
    (w a c m : ℕ) → a < 2 ^ w → c + m + 1 ≡ 2 ^ w → bit_and a c + bit_and a m ≡ a
bit_and-complement zero zero c m ha h = omega (arith, zero-bit_and c, zero-bit_and m)
bit_and-complement zero (suc a) c m ha h = absurd (omega arith)
bit_and-complement (suc w) a c m ha h = omega (
  arith,
  two_pow_suc w,
  bit_and_step a c,
  bit_and_step a m,
  bit_and-complement w (a / 2) (c / 2) (m / 2) (omega (arith, two_pow_suc w))
      (omega (arith, two_pow_suc w)),
)

bit_and-half : (a b : ℕ) → bit_and a b / 2 ≡ bit_and (a / 2) (b / 2)
bit_and-half a b = omega (arith, bit_and_step a b)

-- `(a & c) | (b & m)` is then a sum: the two parts have no bit in common.
pub bit_or-merge :
    (w a b c m : ℕ)
    → c + m + 1 ≡ 2 ^ w
    → bit_or (bit_and a c) (bit_and b m) ≡ bit_and a c + bit_and b m
bit_or-merge zero a b c m h =
    rw (z c (omega arith), z m (omega arith), bit_and-zero, bit_and-zero) refl
  where
    z : (x : ℕ) → x ≤ 0 → x ≡ 0
    z x h = omega arith
bit_or-merge (suc w) a b c m h = omega (
  arith,
  two_pow_suc w,
  bit_and_step a c,
  bit_and_step b m,
  bit_or_step (bit_and a c) (bit_and b m),
  ap2,
  bit_or-merge w (a / 2) (b / 2) (c / 2) (m / 2) (omega (arith, two_pow_suc w)),
)
  where
    ap2 :
        bit_or (bit_and a c / 2) (bit_and b m / 2)
        ≡ bit_or (bit_and (a / 2) (c / 2)) (bit_and (b / 2) (m / 2))
    ap2 = rw (bit_and-half a c, bit_and-half b m)

-- A mask of `l` bits at offset `o` keeps the field there.
pub bit_and-field : (o l a : ℕ) → bit_and a ((2 ^ l - 1) * 2 ^ o) ≡ a / 2 ^ o % 2 ^ l * 2 ^ o
bit_and-field zero l a =
    rw (mul-one (2 ^ l - 1))
      (omega (arith, bit_and-mask l a, ap (λ (t : ℕ). t % 2 ^ l) (div-one a)))
bit_and-field (suc o) l a = omega (
  arith,
  bit_and_step a ((2 ^ l - 1) * 2 ^ suc o),
  doubled,
  ap (bit_and (a / 2)) half,
  bit_and-field o l (a / 2),
  ap (λ (t : ℕ). t % 2 ^ l * 2 ^ suc o) shifted,
  ap (λ (t : ℕ). a / 2 / 2 ^ o % 2 ^ l * t) (two_pow_suc o),
)
  where
    doubled : (2 ^ l - 1) * 2 ^ suc o ≡ 2 * ((2 ^ l - 1) * 2 ^ o)
    doubled = rw two_pow_suc (omega arith)

    half : (2 ^ l - 1) * 2 ^ suc o / 2 ≡ (2 ^ l - 1) * 2 ^ o
    half = omega (arith, doubled)

    shifted : a / 2 ^ suc o ≡ a / 2 / 2 ^ o
    shifted = rw (two_pow_suc o) (sym (div-div-eq-div-mul a 2 (2 ^ o)))

pub make_mask_lem : (w l : ℕ) → l ≤ w → make_mask w l ≡ 2 ^ l - 1
unfolding make_mask
make_mask_lem w l h =
    mod-eq_of_lt (omega (arith, two_pow_pos l, pow-le-pow_right {n = 2} (omega arith) h))

-- A slice of `l` bits at offset `o` reads those bits.
pub extract_arith : (w o l x : ℕ) → l ≤ w → extract w o l x ≡ x / 2 ^ o % 2 ^ l
unfolding extract
extract_arith w o l x h = rw (make_mask_lem w l h) (bit_and-mask l (x / 2 ^ o))

pub pred_mul : (b a : ℕ) → 1 ≤ b → (b - 1) * a + a ≡ a * b
pred_mul zero a h = absurd (omega arith)
pred_mul (suc c) a h = omega (arith, ap (λ (t : ℕ). t * a) {x = suc c - 1} {y = c} (omega arith))

pub field_fits : (w o l : ℕ) → o + l ≤ w → (2 ^ l - 1) * 2 ^ o < 2 ^ w
field_fits w o l h = omega (
  arith,
  two_pow_pos o,
  two_pow_add o l,
  pow-le-pow_right {n = 2} (omega arith) h,
  pred_mul (2 ^ l) (2 ^ o) (two_pow_pos l),
)

-- The mask of a field that fits the width.
pub field_mask : (w o l : ℕ) → o + l ≤ w → make_mask w l * 2 ^ o % 2 ^ w ≡ (2 ^ l - 1) * 2 ^ o
field_mask w o l h = rw (make_mask_lem w l (omega arith)) (mod-eq_of_lt (field_fits w o l h))

two_pow_dvd : (l k : ℕ) → l ≤ k → 2 ^ l ∣ 2 ^ k
two_pow_dvd l k h = rw e (dvd-mul_right (2 ^ l) (2 ^ (k - l)))
  where
    s : k ≡ l + (k - l)
    s = omega arith

    e : 2 ^ k ≡ 2 ^ l * 2 ^ (k - l)
    e = ap (λ (t : ℕ). 2 ^ t) s ∙ two_pow_add l (k - l)

mul-lt : (a b c : ℕ) → a < b → 1 ≤ c → a * c < c * b
mul-lt a b c h p = grind arith

-- What `rlshift` brings to a field that fits the width.
rlshift_field : (w o l y : ℕ) → o + l ≤ w → y * 2 ^ o % 2 ^ w / 2 ^ o % 2 ^ l ≡ y % 2 ^ l
rlshift_field w o l y h =
    ap (λ (t : ℕ). t / p % 2 ^ l) placed
    ∙ (ap (λ (t : ℕ). t % 2 ^ l) (mul-div_cancel (y % q) (two_pow_pos o))
        ∙ mod-mod_of_dvd (2 ^ l) y (two_pow_dvd l (w - o) (omega arith)))
  where
    p : ℕ
    p = 2 ^ o

    q : ℕ
    q = 2 ^ (w - o)

    whole : 2 ^ w ≡ p * q
    whole = ap (λ (t : ℕ). 2 ^ t) {x = w} {y = o + (w - o)} (omega arith) ∙ two_pow_add o (w - o)

    parts : y * p ≡ y / q * (p * q) + y % q * p
    parts = omega (arith, ap (λ (t : ℕ). t * p) (div-add-mod' y q))

    low : y % q * p < p * q
    low = mul-lt (y % q) q p (mod-lt y (two_pow_pos (w - o))) (two_pow_pos o)

    placed : y * p % 2 ^ w ≡ y % q * p
    placed = rw whole (
        ap (λ (t : ℕ). t % (p * q)) parts
        ∙ (mul-add-mod_self_right (y / q) (p * q) (y % q * p) ∙ mod-eq_of_lt low))

-- `write_bits` replaces the destination's field by the source's and keeps all other bits.
pub write_bits_arith :
    (w dst o src so l : ℕ)
    → dst < 2 ^ w
    → o + l ≤ w
    → write_bits w dst o src so l + dst / 2 ^ o % 2 ^ l * 2 ^ o ≡ dst + src / 2 ^ so % 2 ^ l * 2 ^ o
unfolding write_bits
write_bits_arith w dst o src so l small fits =
    rw (field_mask w o l fits, back)
      (omega (
        arith,
        bit_or-merge w dst placed c m whole,
        bit_and-complement w dst c m small whole,
        bit_and-field o l dst,
        bit_and-field o l placed,
        ap (λ (t : ℕ). t * 2 ^ o) (rlshift_field w o l (src / 2 ^ so) fits),
      ))
  where
    m : ℕ
    m = (2 ^ l - 1) * 2 ^ o

    c : ℕ
    c = 2 ^ w - 1 - m

    whole : c + m + 1 ≡ 2 ^ w
    whole = omega (arith, field_fits w o l fits)

    back : 2 ^ w - 1 - c ≡ m
    back = omega (arith, field_fits w o l fits)

    placed : ℕ
    placed = src / 2 ^ so * 2 ^ o % 2 ^ w

-- `clear_bits` takes the field away.
pub clear_bits_arith :
    (w dst o l : ℕ)
    → dst < 2 ^ w
    → o + l ≤ w
    → clear_bits w dst o l + dst / 2 ^ o % 2 ^ l * 2 ^ o ≡ dst
unfolding clear_bits
clear_bits_arith w dst o l small fits =
    rw (field_mask w o l fits)
      (omega (arith, bit_and-complement w dst c m small whole, bit_and-field o l dst))
  where
    m : ℕ
    m = (2 ^ l - 1) * 2 ^ o

    c : ℕ
    c = 2 ^ w - 1 - m

    whole : c + m + 1 ≡ 2 ^ w
    whole = omega (arith, field_fits w o l fits)
