-- ===== src/Decoder/Reads/Transfer.antt =====
-- The other 16-bit instructions, as micromachine/instruction/instruction_decoder.hpp reads them.
use micromachine.Base.{
  ℕ, ◌/◌, ◌%◌, ◌^◌, ◌<◌, ◌≤◌, ◌≡◌, refl, arith, ◌∙◌, Bool, true, false, not, ◌&&◌, ◌||◌, ltb, leb,
  ◌==◌,
}
use micromachine.Bits.{extract}
use micromachine.Bits.Laws.{extract_arith}
use micromachine.Instruction.{first, second}
use micromachine.Decoder.Encoding.{Encodes, unallocated, unallocated_wide}
use micromachine.Decoder.Reads.Steps.{choose, takes, takes_from, From}
use micromachine.Decoder.Transfer.{
  is_add_sp_imm_t2, is_sub_sp_imm, is_sxth, is_sxtb, is_uxth, is_uxtb, is_push, is_cps, is_rev_word,
  is_rev16, is_revsh, is_pop, is_breakpoint, is_hints, is_stm, is_ldm, is_branch, is_svc,
  is_unconditional_branch, is_32bit_thumb_encoding, is_undefined,
}
use micromachine.Decoder.Words.Transfer.{
  is_add_sp_imm_t2_lem, is_sub_sp_imm_lem, is_sxth_lem, is_sxtb_lem, is_uxth_lem, is_uxtb_lem,
  is_push_lem, is_cps_lem, is_rev_word_lem, is_rev16_lem, is_revsh_lem, is_pop_lem,
  is_breakpoint_lem, is_hints_lem, is_stm_lem, is_ldm_lem, is_branch_lem, is_svc_lem,
  is_unconditional_branch_lem, is_32bit_thumb_encoding_lem, is_undefined_lem,
}
use micromachine.Decoder.Reads.Layouts.{
  condition_imm8, immediate11, immediate7, immediate8, interrupt_mask, popped_list, pushed_list,
  register_imm8, two_registers,
}
use micromachine.Decoder.{decode_hint, decode_transfer}
use micromachine.Decoder.Reads.Wide.{wide-Encodes}

-- The halfwords between the tests stand for nothing.
skip_b200 : (w : ℕ) → From 0xb100 w → From 0xb200 w
unfolding From unallocated
skip_b200 w h = ground arith

skip_b400 : (w : ℕ) → From 0xb300 w → From 0xb400 w
unfolding From unallocated
skip_b400 w h = ground arith

skip_b660 : (w : ℕ) → From 0xb600 w → From 0xb660 w
unfolding From unallocated
skip_b660 w h = ground arith

skip_ba00 : (w : ℕ) → From 0xb680 w → From 0xba00 w
unfolding From unallocated
skip_ba00 w h = ground arith

skip_bac0 : (w : ℕ) → From 0xba80 w → From 0xbac0 w
unfolding From unallocated
skip_bac0 w h = ground arith

skip_bc00 : (w : ℕ) → From 0xbb00 w → From 0xbc00 w
unfolding From unallocated
skip_bc00 w h = ground arith

pub start-From : (w : ℕ) → 0xb000 ≤ w → From 0xb000 w
unfolding From
start-From w h = ground arith

hint-Encodes :
    (w x : ℕ)
    → w < 2 ^ 16
    → 0xbf00 ≤ w
    → w < 0xc000
    → Encodes (decode_hint (extract 16 0 4 w) (extract 16 4 4 w)) w x
unfolding decode_hint Encodes
hint-Encodes w x small lo hi =
    choose (not (b == 0)) _ w x _ _ refl (λ h. (ground (arith, fb), hi))
      (λ h.
        choose (a == 0) _ w x _ _ refl (λ k. ground (arith, fa, fb))
          (λ k0.
            choose (a == 1) _ w x _ _ refl (λ k. ground (arith, fa, fb))
              (λ k1.
                choose (a == 2) _ w x _ _ refl (λ k. ground (arith, fa, fb))
                  (λ k2.
                    choose (a == 3) _ w x _ _ refl (λ k. ground (arith, fa, fb))
                      (λ k3.
                        choose (a == 4) _ w x _ _ refl (λ k. ground (arith, fa, fb))
                          (λ k4. (ground (arith, fa, fb), hi)))))))
  where
    a : ℕ
    a = extract 16 0 4 w

    b : ℕ
    b = extract 16 4 4 w

    fa : a ≡ w % 2 ^ 4
    fa = extract_arith 16 0 4 w (omega arith) ∙ omega arith

    fb : b ≡ w / 2 ^ 4 % 2 ^ 4
    fb = extract_arith 16 4 4 w (omega arith)

nothing_left :
    (w x : ℕ)
    → w < 2 ^ 16
    → From 0xde00 w
    → leb 0xdf00 w && ltb w 0xe000 ≡ false
    → leb 0xe000 w && ltb w 0xe800 ≡ false
    → leb 0xe800 w && ltb w 0x10000 ≡ false
    → leb 0xde00 w && ltb w 0xdf00 ≡ false
    → unallocated w || unallocated_wide w x ≡ true
unfolding From
nothing_left w x small h a b c d = by (unallocated w) h
  where
    by : (u : Bool) → leb 0xde00 w || u ≡ true → u || unallocated_wide w x ≡ true
    by true k = refl
    by false k = absurd (ground arith)

pub transfer-Encodes :
    (pair : ℕ)
    → first pair < 2 ^ 16
    → 0xb000 ≤ first pair
    → Encodes (decode_transfer pair) (first pair) (second pair)
unfolding decode_transfer Encodes
transfer-Encodes pair small start =
    takes_from (is_add_sp_imm_t2 w) 0xb000 0xb080 w x _ _ (is_add_sp_imm_t2_lem w small)
      (start-From w start) (immediate7 w small 0x160)
      (λ lo.
        takes_from (is_sub_sp_imm w) 0xb080 0xb100 w x _ _ (is_sub_sp_imm_lem w small) lo
          (immediate7 w small 0x161)
          (λ lo.
            takes_from (is_sxth w) 0xb200 0xb240 w x _ _ (is_sxth_lem w small) (skip_b200 w lo)
              (two_registers w small 0x2c8)
              (λ lo.
                takes_from (is_sxtb w) 0xb240 0xb280 w x _ _ (is_sxtb_lem w small) lo
                  (two_registers w small 0x2c9)
                  (λ lo.
                    takes_from (is_uxth w) 0xb280 0xb2c0 w x _ _ (is_uxth_lem w small) lo
                      (two_registers w small 0x2ca)
                      (λ lo.
                        takes_from (is_uxtb w) 0xb2c0 0xb300 w x _ _ (is_uxtb_lem w small) lo
                          (two_registers w small 0x2cb)
                          (λ lo.
                            takes_from (is_push w) 0xb400 0xb600 w x _ _ (is_push_lem w small)
                              (skip_b400 w lo) (pushed_list w small)
                              (λ lo.
                                takes_from (is_cps w) 0xb660 0xb680 w x _ _ (is_cps_lem w small)
                                  (skip_b660 w lo) (interrupt_mask w small)
                                  (λ lo.
                                    takes_from (is_rev_word w) 0xba00 0xba40 w x _ _
                                      (is_rev_word_lem w small) (skip_ba00 w lo)
                                      (two_registers w small 0x2e8)
                                      (λ lo.
                                        takes_from (is_rev16 w) 0xba40 0xba80 w x _ _
                                          (is_rev16_lem w small) lo (two_registers w small 0x2e9)
                                          (λ lo.
                                            takes_from (is_revsh w) 0xbac0 0xbb00 w x _ _
                                              (is_revsh_lem w small) (skip_bac0 w lo)
                                              (two_registers w small 0x2eb)
                                              (λ lo.
                                                takes_from (is_pop w) 0xbc00 0xbe00 w x _ _
                                                  (is_pop_lem w small) (skip_bc00 w lo)
                                                  (popped_list w small)
                                                  (λ lo.
                                                    takes_from (is_breakpoint w) 0xbe00 0xbf00 w x _
                                                      _ (is_breakpoint_lem w small) lo
                                                      (immediate8 w small 0xbe)
                                                      (λ lo.
                                                        takes_from (is_hints w) 0xbf00 0xc000 w x _
                                                          _ (is_hints_lem w small) lo
                                                          (hint-Encodes w x small)
                                                          (λ lo.
                                                            takes_from (is_stm w) 0xc000 0xc800 w x
                                                            _ _ (is_stm_lem w small) lo
                                                            (register_imm8 w small 0x18)
                                                            (λ lo.
                                                            takes_from (is_ldm w) 0xc800 0xd000 w x
                                                            _ _ (is_ldm_lem w small) lo
                                                            (register_imm8 w small 0x19)
                                                            (λ lo.
                                                            takes_from (is_branch w) 0xd000 0xde00 w
                                                            x _ _ (is_branch_lem w small) lo
                                                            (condition_imm8 w small)
                                                            (λ lo.
                                                            takes (is_svc w) 0xdf00 0xe000 w x _ _
                                                            (is_svc_lem w small)
                                                            (immediate8 w small 0xdf)
                                                            (λ no_svc.
                                                            takes (is_unconditional_branch w) 0xe000
                                                            0xe800 w x _ _
                                                            (is_unconditional_branch_lem w small)
                                                            (immediate11 w small 0x1c)
                                                            (λ no_branch.
                                                            takes (is_32bit_thumb_encoding w) 0xe800
                                                            0x10000 w x _ _
                                                            (is_32bit_thumb_encoding_lem w small)
                                                            (λ low high. wide-Encodes pair low)
                                                            (λ no_wide.
                                                            takes (is_undefined w) 0xde00 0xdf00 w x
                                                            _ _ (is_undefined_lem w small)
                                                            (immediate8 w small 0xde)
                                                            (λ no_udf.
                                                            nothing_left w x small lo no_svc
                                                            no_branch no_wide
                                                            no_udf)))))))))))))))))))))
  where
    w : ℕ
    w = first pair

    x : ℕ
    x = second pair
