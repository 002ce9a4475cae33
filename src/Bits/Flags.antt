-- ===== src/Bits/Flags.antt =====
-- One-bit slices of a `uint32_t`: what is read after a flag is set.
use micromachine.Base.{
  ℕ, ◌+◌, ◌/◌, ◌%◌, ◌^◌, ◌≤◌, ◌<◌, ◌≡◌, ◌≢◌, ◌⊎◌, inl, inr, refl, ap, arith, ◌∙◌, Bool, true, false,
  of_bool, to_bool,
}
use micromachine.Bits.{bit_of, set_bit_of}
use micromachine.Bits.Slices.{
  extract-write_bits, extract-write_bits_above, extract-write_bits_below, write_bits-lt,
}

bool_slice : (b : Bool) → to_bool (of_bool b / 2 ^ 0 % 2 ^ 1) ≡ b
bool_slice true = refl
bool_slice false = refl

apart : (i j : ℕ) → i ≢ j → (i + 1 ≤ j) ⊎ (j + 1 ≤ i)
apart i j h = grind arith

module _ (i x : ℕ) (b : Bool) (small : x < 2 ^ 32) (inside : i < 32) where
  pub bit_of-set_bit_of : bit_of i (set_bit_of i x b) ≡ b
  unfolding bit_of set_bit_of
  bit_of-set_bit_of =
      ap to_bool (extract-write_bits 32 x i (of_bool b) 0 1 small (omega arith)) ∙ bool_slice b

  pub set_bit_of-lt : set_bit_of i x b < 2 ^ 32
  unfolding set_bit_of
  set_bit_of-lt = write_bits-lt 32 x i (of_bool b) 0 1 small (omega arith)

  pub bit_of-set_bit_of_ne : (j : ℕ) → j < 32 → i ≢ j → bit_of j (set_bit_of i x b) ≡ bit_of j x
  unfolding bit_of set_bit_of
  bit_of-set_bit_of_ne j hj ne = elim (apart i j ne) [
    | inl above ↦ ap to_bool (
        extract-write_bits_above 32 x i (of_bool b) 0 1 small (omega arith) j 1 above (omega arith))
    | inr below ↦
        ap to_bool (extract-write_bits_below 32 x i (of_bool b) 0 1 small (omega arith) j 1 below)
  ]
