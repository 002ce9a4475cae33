-- ===== src/Execution/LongAdd.antt =====
-- Addition over two registers: ADDS and then ADCS (micromachine/execution/exec.hpp).
use micromachine.Base.{
  ℕ, ◌+◌, ◌*◌, ◌%◌, ◌^◌, ◌<◌, ◌≡◌, ◌≢◌, refl, sym, ap, ap₂, arith, ◌∙◌, Bool, false, ◌==◌, of_bool,
  leb, update,
}
use micromachine.Bits.{bit_of}
use micromachine.Alu.{Sum, add_with_carry}
use micromachine.Alu.Add.{res_lem, carry_out_lem}
use micromachine.Registers.{
  Cpu, set_reg, carry_flag, set_carry_flag, set_overflow_flag, apply_zero, apply_neg,
}
use micromachine.Registers.File.{set_gp, get_gp, updated_other}
use micromachine.Execution.Arithmetic.{add_reg, adc, sum_flags, sum_flags_neg_first}
use micromachine.Execution.Flags.{top_bit, xpsr-sum_flags, carry-flag_word}

updated : (f : ℕ → ℕ) (v i : ℕ) → update f i v i ≡ v
updated f v i = ground arith

-- The flags leave the registers alone.
gp-sum_flags :
    (s : Sum) (c : Cpu) → ((sum_flags s c).gp ≡ c.gp) × ((sum_flags_neg_first s c).gp ≡ c.gp)
unfolding sum_flags sum_flags_neg_first set_carry_flag set_overflow_flag apply_zero apply_neg
gp-sum_flags s c = (refl, refl)

written : Sum → ℕ → Cpu → Cpu
written s d c = record c { gp = update c.gp d s.res }

-- ADDS and ADCS of general purpose registers.
add_reg_eq :
    (d n m : ℕ) (c : Cpu)
    → d < 13
    → n < 13
    → m < 13
    → let s = add_with_carry (c.gp n) (c.gp m) false in
      add_reg d n m c ≡ sum_flags s (written s d c)
unfolding add_reg written
add_reg_eq d n m c hd hn hm =
    ap₂ (λ (x y : ℕ). let s = add_with_carry x y false in sum_flags s (set_reg d s.res c))
      (get_gp n c hn) (get_gp m c hm)
    ∙ ap (sum_flags (add_with_carry (c.gp n) (c.gp m) false))
        (set_gp c (add_with_carry (c.gp n) (c.gp m) false).res d hd)

adc_eq :
    (d m : ℕ) (c : Cpu)
    → d < 13
    → m < 13
    → let s = add_with_carry (c.gp d) (c.gp m) (carry_flag c) in
      adc d m c ≡ sum_flags_neg_first s (written s d c)
unfolding adc written
adc_eq d m c hd hm =
    ap₂
      (λ (x y : ℕ).
        let s = add_with_carry x y (carry_flag c) in sum_flags_neg_first s (set_reg d s.res c))
      (get_gp d c hd) (get_gp m c hm)
    ∙ ap (sum_flags_neg_first (add_with_carry (c.gp d) (c.gp m) (carry_flag c)))
        (set_gp c (add_with_carry (c.gp d) (c.gp m) (carry_flag c)).res d hd)

module _ (d n m : ℕ) (c : Cpu) (hd : d < 13) (hn : n < 13) (hm : m < 13) where
  low : Sum
  low = add_with_carry (c.gp n) (c.gp m) false

  add_reg_gp : (add_reg d n m c).gp ≡ update c.gp d low.res
  unfolding low written
  add_reg_gp =
      ap (λ (t : Cpu). t.gp) (add_reg_eq d n m c hd hn hm) ∙ (gp-sum_flags low (written low d c)).0

  add_reg_carry : c.xpsr < 2 ^ 32 → carry_flag (add_reg d n m c) ≡ low.carry_out
  unfolding low written carry_flag
  add_reg_carry small =
      ap carry_flag (add_reg_eq d n m c hd hn hm)
      ∙ (ap (bit_of 29) (xpsr-sum_flags low (written low d c) small)
          ∙ carry-flag_word c.xpsr (top_bit low.res) (0 == low.res) low.carry_out low.overflow_out
              small)

sum64 :
    (a b x y r q : ℕ) (cy : Bool)
    → a < 2 ^ 32
    → b < 2 ^ 32
    → r ≡ (a + b + 0) % 2 ^ 32
    → cy ≡ leb (2 ^ 32) (a + b + 0)
    → q ≡ (x + y + of_bool cy) % 2 ^ 32
    → r + 2 ^ 32 * q ≡ (a + b + 2 ^ 32 * (x + y)) % 2 ^ 64
sum64 a b x y r q cy ha hb er ec eq = ground arith

-- ADDS of the low words and then ADCS of the high words add two 64-bit numbers, modulo 2 ^ 64: the
-- first number stands in the registers `l` and `h`, where the sum goes, and the second in `n` and
-- `m`. All four are general purpose registers, the low result does not go to a register of the high
-- words, and the low words and the status word are 32-bit values.
pub adc-add_reg :
    (l h n m : ℕ) (c : Cpu)
    → l < 13
    → h < 13
    → n < 13
    → m < 13
    → l ≢ h
    → l ≢ m
    → c.gp l < 2 ^ 32
    → c.gp n < 2 ^ 32
    → c.xpsr < 2 ^ 32
    → let c' = adc h m (add_reg l l n c) in
      c'.gp l + 2 ^ 32 * c'.gp h ≡ (c.gp l + c.gp n + 2 ^ 32 * (c.gp h + c.gp m)) % 2 ^ 64
unfolding low written
adc-add_reg l h n m c hl hh hn hm lh lm sl sn small =
    sum64 (c.gp l) (c.gp n) (c.gp h) (c.gp m) (c'.gp l) (c'.gp h) cy sl sn low_word
      (carry_out_lem (c.gp l) (c.gp n) false sl sn) high_word
  where
    c1 : Cpu
    c1 = add_reg l l n c

    c' : Cpu
    c' = adc h m c1

    cy : Bool
    cy = (low l l n c hl hl hn).carry_out

    high : Sum
    high = add_with_carry (c1.gp h) (c1.gp m) (carry_flag c1)

    gp1 : c1.gp ≡ update c.gp l (low l l n c hl hl hn).res
    gp1 = add_reg_gp l l n c hl hl hn

    gp2 : c'.gp ≡ update c1.gp h high.res
    gp2 = ap (λ (t : Cpu). t.gp) (adc_eq h m c1 hh hm) ∙ (gp-sum_flags high (written high h c1)).1

    other : (r : ℕ) → l ≢ r → c1.gp r ≡ c.gp r
    other r ne =
        ap (λ (f : ℕ → ℕ). f r) gp1
        ∙ updated_other c.gp (low l l n c hl hl hn).res r l (λ e. ne (sym e))

    low_word : c'.gp l ≡ (c.gp l + c.gp n + 0) % 2 ^ 32
    low_word =
        ap (λ (f : ℕ → ℕ). f l) gp2
        ∙ (updated_other c1.gp high.res l h lh
            ∙ (ap (λ (f : ℕ → ℕ). f l) gp1
                ∙ (updated c.gp (low l l n c hl hl hn).res l ∙ res_lem (c.gp l) (c.gp n) false)))

    high_word : c'.gp h ≡ (c.gp h + c.gp m + of_bool cy) % 2 ^ 32
    high_word =
        ap (λ (f : ℕ → ℕ). f h) gp2
        ∙ (updated c1.gp high.res h
            ∙ (res_lem (c1.gp h) (c1.gp m) (carry_flag c1)
                ∙ (ap₂ (λ (x y : ℕ). (x + y + of_bool (carry_flag c1)) % 2 ^ 32) (other h lh)
                      (other m lm)
                    ∙ ap (λ (b : Bool). (c.gp h + c.gp m + of_bool b) % 2 ^ 32)
                        (add_reg_carry l l n c hl hl hn small))))
