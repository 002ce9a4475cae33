-- ===== src/Decoder/Reads/Wide.antt =====
-- The 32-bit instructions, as micromachine/instruction/instruction_decoder.hpp reads them.
use micromachine.Base.{
  ℕ, zero, suc, ◌+◌, ◌*◌, ◌/◌, ◌%◌, ◌^◌, ◌<◌, ◌≤◌, ◌≡◌, refl, ap, ap₂, arith, ◌∙◌, Bool, true,
  false, not, ◌&&◌, ◌||◌, ◌==◌, bit_and, bit_or, of_bool,
}
use micromachine.Bits.{extract, bit_of}
use micromachine.Bits.Laws.{extract_arith}
use micromachine.Bits.Masks.{bit_of_arith}
use micromachine.Bits.Joins.{bit_or-joins_high}
use micromachine.Instruction.{first, second, udfw, bl_imm}
use micromachine.Decoder.Transfer.{is_32bit_thumb_encoding}
use micromachine.Decoder.Words.Transfer.{is_32bit_thumb_encoding_lem}
use micromachine.Decoder.Wide.{
  is_32bit_thumb_br_misc_ctl, is_32bit_thumb_msr, is_32bit_thumb_mrs, is_32bit_thumb_udf,
  is_32bit_thumb_misc_ctl, is_32bit_thumb_misc_ctl_dsb, is_32bit_thumb_misc_ctl_dmb,
  is_32bit_thumb_misc_ctl_isb, is_32bit_thumb_bl, is_undefined32,
}
use micromachine.Decoder.{decode_wide}
use micromachine.Decoder.Encoding.{
  Encodes, unallocated, unallocated_wide, is_control, is_barrier, is_udf_w, is_msr, is_mrs, is_bl,
}
use micromachine.Decoder.Reads.Layouts.{parity}
use micromachine.Decoder.Reads.Steps.{choose}

first_of : (p q : Bool) → p ≡ true → p || q ≡ true
first_of p q h = ground arith

second_of : (p q : Bool) → q ≡ true → p || q ≡ true
second_of true q h = refl
second_of false q h = h

low_field : (v l : ℕ) → l ≤ 16 → extract 16 0 l v ≡ v % 2 ^ l
low_field v l h = extract_arith 16 0 l v h ∙ ap (λ (t : ℕ). t % 2 ^ l) {x = v / 2 ^ 0} (omega arith)

bit_number : (v i : ℕ) → i < 32 → of_bool (bit_of i v) ≡ v / 2 ^ i % 2
bit_number v i h = ap of_bool (bit_of_arith i v h) ∙ parity (v / 2 ^ i)

-- The bits 12 and 14 of the second halfword.
two_bits : (t : ℕ) → t < 8 → bit_and t 5 ≡ t % 2 + t / 4 * 4
two_bits zero h = refl
two_bits (suc zero) h = refl
two_bits (suc (suc zero)) h = refl
two_bits (suc (suc (suc zero))) h = refl
two_bits (suc (suc (suc (suc zero)))) h = refl
two_bits (suc (suc (suc (suc (suc zero))))) h = refl
two_bits (suc (suc (suc (suc (suc (suc zero)))))) h = refl
two_bits (suc (suc (suc (suc (suc (suc (suc zero))))))) h = refl
two_bits (suc (suc (suc (suc (suc (suc (suc (suc t)))))))) h = absurd (omega arith)

module _ (pair : ℕ) where
  abbrev w : ℕ
  w = first pair

  abbrev x : ℕ
  x = second pair

  small_first : w < 2 ^ 16
  unfolding first
  small_first = omega (arith, extract_arith 32 0 16 pair (omega arith))

  small_second : x < 2 ^ 16
  unfolding second
  small_second = omega (arith, extract_arith 32 16 16 pair (omega arith))

  -- The three bits from bit 12 on.
  middle : bit_and (extract 16 12 3 x) 0b101 ≡ x / 2 ^ 12 % 2 + x / 2 ^ 14 % 2 * 4
  middle =
      ap (λ (t : ℕ). bit_and t 5) (extract_arith 16 12 3 x (omega arith))
      ∙ (two_bits (x / 2 ^ 12 % 2 ^ 3) (omega arith) ∙ omega arith)

  module _ (lo : 0xe800 ≤ w) where
    wide : is_32bit_thumb_encoding w ≡ true
    wide = is_32bit_thumb_encoding_lem w small_first ∙ ground (arith, small_first)

    group : is_32bit_thumb_br_misc_ctl pair ≡ w / 2 ^ 11 == 0x1e && x / 2 ^ 15 == 1
    unfolding is_32bit_thumb_br_misc_ctl
    group = ground (
      arith,
      wide,
      small_first,
      small_second,
      extract_arith 16 11 2 w (omega arith),
      extract_arith 16 15 1 x (omega arith),
    )

    -- Outside of that group the forms of the 32-bit instructions do not occur.
    module _ (out : w / 2 ^ 11 == 0x1e && x / 2 ^ 15 == 1 ≡ false) where
      no_bl : is_bl w x ≡ false
      unfolding is_bl
      no_bl = ground (arith, small_second)

      no_barrier : (op : ℕ) → is_barrier op w x ≡ false
      unfolding is_barrier is_control
      no_barrier op = ground (arith, small_second)

      no_udf : is_udf_w w x ≡ false
      unfolding is_udf_w is_control
      no_udf = ground (arith, small_second)

      no_msr : is_msr w x ≡ false
      unfolding is_msr is_control
      no_msr = ground (arith, small_second)

      no_mrs : is_mrs w x ≡ false
      unfolding is_mrs is_control
      no_mrs = ground (arith, small_second)

    nothing :
        is_bl w x ≡ false
        → is_barrier 4 w x ≡ false
        → is_barrier 5 w x ≡ false
        → is_barrier 6 w x ≡ false
        → is_udf_w w x ≡ false
        → is_msr w x ≡ false
        → is_mrs w x ≡ false
        → unallocated w || unallocated_wide w x ≡ true
    unfolding unallocated_wide
    nothing a b c d e f g = second_of (unallocated w) _ (ground arith)

    no_group :
        w / 2 ^ 11 == 0x1e && x / 2 ^ 15 == 1 ≡ false → unallocated w || unallocated_wide w x ≡ true
    no_group h =
        nothing (no_bl h) (no_barrier h 4) (no_barrier h 5) (no_barrier h 6) (no_udf h) (no_msr h)
          (no_mrs h)

    bl_lem : is_32bit_thumb_bl pair ≡ is_bl w x
    unfolding is_32bit_thumb_bl is_bl
    bl_lem = ground (arith, group, middle, small_second)

    msr_lem : is_32bit_thumb_msr pair ≡ is_msr w x
    unfolding is_32bit_thumb_msr is_msr is_control
    msr_lem =
        ground
          (arith, group, middle, small_first, small_second, extract_arith 16 5 6 w (omega arith))

    mrs_lem : is_32bit_thumb_mrs pair ≡ is_mrs w x
    unfolding is_32bit_thumb_mrs is_mrs is_control
    mrs_lem =
        ground
          (arith, group, middle, small_first, small_second, extract_arith 16 5 6 w (omega arith))

    udf_lem : is_32bit_thumb_udf pair ≡ is_udf_w w x
    unfolding is_32bit_thumb_udf is_udf_w is_control
    udf_lem =
        ground
          (arith, group, middle, small_first, small_second, extract_arith 16 4 7 w (omega arith))

    control_lem : is_32bit_thumb_misc_ctl pair ≡ w / 2 ^ 4 == 0xf3b && is_control x
    unfolding is_32bit_thumb_misc_ctl is_control
    control_lem =
        ground
          (arith, group, middle, small_first, small_second, extract_arith 16 4 7 w (omega arith))

    dsb_lem : is_32bit_thumb_misc_ctl_dsb pair ≡ is_barrier 4 w x
    unfolding is_32bit_thumb_misc_ctl_dsb is_barrier
    dsb_lem = ground (arith, control_lem, extract_arith 16 4 4 x (omega arith))

    dmb_lem : is_32bit_thumb_misc_ctl_dmb pair ≡ is_barrier 5 w x
    unfolding is_32bit_thumb_misc_ctl_dmb is_barrier
    dmb_lem = ground (arith, control_lem, extract_arith 16 4 4 x (omega arith))

    isb_lem : is_32bit_thumb_misc_ctl_isb pair ≡ is_barrier 6 w x
    unfolding is_32bit_thumb_misc_ctl_isb is_barrier
    isb_lem = ground (arith, control_lem, extract_arith 16 4 4 x (omega arith))

    undefined_lem : is_undefined32 pair ≡ w / 2 ^ 4 == 0xf7f && x / 2 ^ 12 == 10
    unfolding is_undefined32
    undefined_lem = ground (
      arith,
      wide,
      small_first,
      small_second,
      extract_arith 16 4 12 w (omega arith),
      extract_arith 16 12 4 x (omega arith),
    )

    udf_value :
        bit_or (extract 16 0 4 w * 2 ^ 12) (extract 16 0 12 x) ≡ w % 2 ^ 4 * 2 ^ 12 + x % 2 ^ 12
    udf_value =
        ap₂ (λ (p q : ℕ). bit_or (p * 2 ^ 12) q) (low_field w 4 (omega arith))
          (low_field x 12 (omega arith))
        ∙ bit_or-joins_high 12 4 (x % 2 ^ 12) (w % 2 ^ 4) (omega arith) (omega arith)

    udfw_word :
        w / 2 ^ 4 == 0xf7f && x / 2 ^ 12 == 10 ≡ true
        → Encodes (udfw (bit_or (extract 16 0 4 w * 2 ^ 12) (extract 16 0 12 x))) w x
    unfolding Encodes
    udfw_word h = (ground (arith, udf_value), ground (arith, udf_value))

    other_udf :
        w / 2 ^ 4 == 0xf7f && x / 2 ^ 12 == 10 ≡ false
        → is_udf_w w x ≡ true
        → is_udf_w w x && not (x / 2 ^ 12 == 10) ≡ true
    unfolding is_udf_w is_control
    other_udf h e = ground arith

    -- The sum of the fields of BL.
    bl_word :
        is_bl w x ≡ true
        → Encodes
            (bl_imm
              (bit_of 13 x)
              (bit_of 11 x)
              (bit_of 10 w)
              (extract 16 0 10 w)
              (extract 16 0 11 x))
            w
            x
    unfolding Encodes is_bl
    bl_word h = (
      ground (arith, low_field w 10 (omega arith), bit_number w 10 (omega arith)),
      ground (
        arith,
        small_second,
        low_field x 11 (omega arith),
        bit_number x 11 (omega arith),
        bit_number x 13 (omega arith),
      ),
    )

    pub wide-Encodes : Encodes (decode_wide pair) w x
    unfolding decode_wide Encodes
    wide-Encodes = choose (is_undefined32 pair) _ w x _ _ undefined_lem udfw_word (λ h0.
        choose (is_32bit_thumb_br_misc_ctl pair) _ w x _ _ group
          (λ g. choose (is_32bit_thumb_bl pair) _ w x _ _ bl_lem bl_word (λ h1.
            choose (is_32bit_thumb_misc_ctl_dsb pair) _ w x _ _ dsb_lem (λ e. e)
              (λ h2.
                choose (is_32bit_thumb_misc_ctl_dmb pair) _ w x _ _ dmb_lem (λ e. e)
                  (λ h3.
                    choose (is_32bit_thumb_misc_ctl_isb pair) _ w x _ _ isb_lem
                      (λ e. first_of (is_barrier 6 w x) _ e)
                      (λ h4.
                        choose (is_32bit_thumb_udf pair) _ w x _ _ udf_lem
                          (λ e. second_of (is_barrier 6 w x) _ (other_udf h0 e))
                          (λ h5.
                            choose (is_32bit_thumb_msr pair) _ w x _ _ msr_lem
                              (λ e. (e, low_field w 4 (omega arith), low_field x 8 (omega arith)))
                              (λ h6.
                                choose (is_32bit_thumb_mrs pair) _ w x _ _ mrs_lem
                                  (λ e. (
                                    e,
                                    extract_arith 16 8 4 x (omega arith),
                                    low_field x 8 (omega arith),
                                  ))
                                  (λ h7. nothing h1 h2 h3 h4 h5 h6 h7))))))))
          no_group)
