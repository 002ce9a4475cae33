-- ===== src/Bits/Slices.antt =====
-- Reading a slice after writing one (micromachine/types/bits.hpp).
use native.Mathlib.Nat.{
  div-div-eq-div-mul, mod-lt, div-add-mod', add-mul-div_right, div-eq_of_lt, div-lt_iff_lt-mul,
  add-mul-mod_self_right, mod-eq_of_lt,
}
use micromachine.Base.{ℕ, ◌+◌, ◌-◌, ◌*◌, ◌/◌, ◌%◌, ◌^◌, ◌≤◌, ◌<◌, ◌≡◌, sym, ap, arith, ◌∙◌}
use micromachine.Bits.{extract, write_bits}
use micromachine.Bits.Laws.{extract_arith, write_bits_arith, two_pow_pos, two_pow_add}

-- A number as its bits above a field, the field and the bits below.
parts :
    (x o l : ℕ) → x ≡ x / 2 ^ o / 2 ^ l * (2 ^ o * 2 ^ l) + x / 2 ^ o % 2 ^ l * 2 ^ o + x % 2 ^ o
parts x o l =
    omega
      (arith, div-add-mod' x (2 ^ o), ap (λ (t : ℕ). t * 2 ^ o) (div-add-mod' (x / 2 ^ o) (2 ^ l)))

-- The bits from `p` up, reached through a lower field.
div_parts : (x o l p : ℕ) → o + l ≤ p → x / 2 ^ p ≡ x / 2 ^ o / 2 ^ l / 2 ^ (p - o - l)
div_parts x o l p h =
    ap (λ (t : ℕ). x / t) split
    ∙ (sym (div-div-eq-div-mul x (2 ^ o * 2 ^ l) (2 ^ (p - o - l)))
        ∙ ap (λ (t : ℕ). t / 2 ^ (p - o - l)) (sym (div-div-eq-div-mul x (2 ^ o) (2 ^ l))))
  where
    split : 2 ^ p ≡ 2 ^ o * 2 ^ l * 2 ^ (p - o - l)
    split =
        ap (λ (t : ℕ). 2 ^ t) {x = p} {y = o + l + (p - o - l)} (omega arith)
        ∙ (two_pow_add (o + l) (p - o - l) ∙ ap (λ (t : ℕ). t * 2 ^ (p - o - l)) (two_pow_add o l))

-- A field below bit `o` does not see the bits from `o` up.
low_only : (r t o p k : ℕ) → p + k ≤ o → (r + t * 2 ^ o) / 2 ^ p % 2 ^ k ≡ r / 2 ^ p % 2 ^ k
low_only r t o p k h =
    ap (λ (s : ℕ). (r + s) / 2 ^ p % 2 ^ k) split
    ∙ (ap (λ (s : ℕ). s % 2 ^ k) (add-mul-div_right r (t * 2 ^ (o - p - k) * 2 ^ k) (two_pow_pos p))
        ∙ add-mul-mod_self_right (r / 2 ^ p) (t * 2 ^ (o - p - k)) (2 ^ k))
  where
    pow_split : 2 ^ o ≡ 2 ^ (o - p - k) * (2 ^ p * 2 ^ k)
    pow_split =
        ap (λ (t : ℕ). 2 ^ t) {x = o} {y = o - p - k + (p + k)} (omega arith)
        ∙ (two_pow_add (o - p - k) (p + k) ∙ ap (λ (t : ℕ). 2 ^ (o - p - k) * t) (two_pow_add p k))

    split : t * 2 ^ o ≡ t * 2 ^ (o - p - k) * 2 ^ k * 2 ^ p
    split = omega (arith, ap (λ (s : ℕ). t * s) pow_split)

module _ (w x o src so l : ℕ) (small : x < 2 ^ w) (fits : o + l ≤ w) where
  field : ℕ
  field = src / 2 ^ so % 2 ^ l

  written : ℕ
  written = write_bits w x o src so l

  -- The written number by the same parts.
  written_parts : written ≡ x % 2 ^ o + (field + x / 2 ^ o / 2 ^ l * 2 ^ l) * 2 ^ o
  unfolding written field
  written_parts = omega (arith, parts x o l, write_bits_arith w x o src so l small fits)

  written_div : written / 2 ^ o ≡ field + x / 2 ^ o / 2 ^ l * 2 ^ l
  written_div =
      ap (λ (t : ℕ). t / 2 ^ o) written_parts
      ∙ omega (
        arith,
        add-mul-div_right (x % 2 ^ o) (field + x / 2 ^ o / 2 ^ l * 2 ^ l) (two_pow_pos o),
        div-eq_of_lt (mod-lt x (two_pow_pos o)),
      )

  field_small : field < 2 ^ l
  unfolding field
  field_small = mod-lt (src / 2 ^ so) (two_pow_pos l)

  written_above : written / 2 ^ o / 2 ^ l ≡ x / 2 ^ o / 2 ^ l
  written_above =
      ap (λ (t : ℕ). t / 2 ^ l) written_div
      ∙ omega (
        arith,
        add-mul-div_right field (x / 2 ^ o / 2 ^ l) (two_pow_pos l),
        div-eq_of_lt field_small,
      )

  -- A slice reads back what was written to it.
  pub extract-write_bits : extract w o l (write_bits w x o src so l) ≡ src / 2 ^ so % 2 ^ l
  unfolding field written
  extract-write_bits =
      extract_arith w o l written (omega arith)
      ∙ (ap (λ (t : ℕ). t % 2 ^ l) written_div
          ∙ (add-mul-mod_self_right field (x / 2 ^ o / 2 ^ l) (2 ^ l) ∙ mod-eq_of_lt field_small))

  -- A slice above the written one keeps its value.
  pub extract-write_bits_above :
      (p k : ℕ)
      → o + l ≤ p
      → p + k ≤ w
      → extract w p k (write_bits w x o src so l) ≡ extract w p k x
  unfolding written
  extract-write_bits_above p k above inside =
      extract_arith w p k written (omega arith)
      ∙ (ap (λ (t : ℕ). t % 2 ^ k)
            (div_parts written o l p above
              ∙ (ap (λ (t : ℕ). t / 2 ^ (p - o - l)) written_above ∙ sym (div_parts x o l p above)))
          ∙ sym (extract_arith w p k x (omega arith)))

  -- A slice below the written one keeps its value.
  pub extract-write_bits_below :
      (p k : ℕ) → p + k ≤ o → extract w p k (write_bits w x o src so l) ≡ extract w p k x
  unfolding written
  extract-write_bits_below p k below =
      extract_arith w p k written (omega arith)
      ∙ (ap (λ (t : ℕ). t / 2 ^ p % 2 ^ k) written_parts
          ∙ (low_only (x % 2 ^ o) (field + x / 2 ^ o / 2 ^ l * 2 ^ l) o p k below
              ∙ (sym (low_only (x % 2 ^ o) (x / 2 ^ o) o p k below)
                  ∙ (ap (λ (t : ℕ). t / 2 ^ p % 2 ^ k) (omega (arith, div-add-mod' x (2 ^ o)))
                      ∙ sym (extract_arith w p k x (omega arith))))))

  -- The result is again a `w`-bit integer.
  pub write_bits-lt : write_bits w x o src so l < 2 ^ w
  unfolding written
  write_bits-lt = fits_width written (rw written_above (hi_small x small))
    where
      whole : 2 ^ w ≡ 2 ^ (w - o - l) * (2 ^ o * 2 ^ l)
      whole =
          ap (λ (t : ℕ). 2 ^ t) {x = w} {y = w - o - l + (o + l)} (omega arith)
          ∙ (two_pow_add (w - o - l) (o + l)
              ∙ ap (λ (t : ℕ). 2 ^ (w - o - l) * t) (two_pow_add o l))

      pos : 1 ≤ 2 ^ o * 2 ^ l
      pos = rw (← two_pow_add o l) (two_pow_pos (o + l))

      hi_small : (y : ℕ) → y < 2 ^ w → y / 2 ^ o / 2 ^ l < 2 ^ (w - o - l)
      hi_small y h = rw div-div-eq-div-mul ((div-lt_iff_lt-mul pos).1 (rw (← whole) h))

      fits_width : (y : ℕ) → y / 2 ^ o / 2 ^ l < 2 ^ (w - o - l) → y < 2 ^ w
      fits_width y h = rw whole ((div-lt_iff_lt-mul pos).0 (rw div-div-eq-div-mul at h))
