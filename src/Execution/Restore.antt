-- ===== src/Execution/Restore.antt =====
-- What a return from an exception makes of the words of a frame
-- (micromachine/execution/context_switcher.hpp).
use micromachine.Base.{
  ℕ, zero, suc, ◌+◌, ◌-◌, ◌*◌, ◌/◌, ◌%◌, ◌^◌, ◌≤◌, ◌<◌, ◌≡◌, ◌⊎◌, inl, inr, refl, sym, ap, ap₂,
  arith, ◌∙◌, subst, Bool, true, false, bit_and, bit_or, ◌&&◌, List, [], ◌∷◌, length, if◌then◌else◌,
  of_bool, to_bool,
}
use micromachine.Bits.{u32, extract, bit_of, set_bit_of, write_bits}
use micromachine.Bits.Flags.{bit_of-set_bit_of_ne}
use micromachine.Bits.Slices.{extract-write_bits, extract-write_bits_above}
use micromachine.Bits.Masks.{
  bit_and_le, bit_and_le_right, bit_or-bit_two, bit_and-but_two, multiple-bit_and, bit_of_arith,
  bit_of-bit_and,
}
use micromachine.Registers.{
  Cpu, is_in_thread_mode, get_sp, n_priv, get_specific_banked_sp, current_bank,
  set_specific_banked_sp, set_exception_number,
}
use micromachine.Machine.{Mapping}
use micromachine.Machine.Memory.Words.{peek}
use micromachine.Machine.Memory.Blocks.{peek_all}
use micromachine.Execution.Context.{drop_frame, restore_status, reserved_bits_mask}
use micromachine.Execution.Frame.{frame_of, load_all}

-- The loads of a frame, from the list of its words.
unfoldable pub apply : List (ℕ → Cpu → Cpu) → List ℕ → Cpu → Cpu
apply [] vs c = c
apply (g ∷ gs) [] c = c
apply (g ∷ gs) (v ∷ vs) c = apply gs vs (g v c)

pub load_all-peek_all :
    (a : ℕ) (gs : List (ℕ → Cpu → Cpu)) (mms : List Mapping) (c : Cpu)
    → load_all a gs mms c ≡ apply gs (peek_all a (length gs) mms) c
unfolding load_all peek_all apply
load_all-peek_all a [] mms c = refl
load_all-peek_all a (g ∷ gs) mms c = load_all-peek_all (a + 4) gs mms (g (peek a mms) c)

-- The stack pointer and the frame below it.
pub sp_multiple : (c : Cpu) → get_sp c % 4 ≡ 0
unfolding get_sp
sp_multiple c = multiple-bit_and _

pub sp_small : (c : Cpu) → get_sp c < 2 ^ 32
unfolding get_sp
sp_small c = omega (arith, bit_and_le 0xfffffffc (get_specific_banked_sp (current_bank c) c))

pub frame_of_lem :
    (sp : ℕ) → 32 ≤ sp → sp < 2 ^ 32 → sp % 4 ≡ 0 → frame_of sp + 32 + sp / 4 % 2 * 4 ≡ sp
frame_of_lem sp lo hi four = omega (arith, bit_and-but_two (u32 (sp + (2 ^ 32 - 32))) (omega arith))

-- The bit that remembers the alignment.
aligned_bit :
    (x sp : ℕ)
    → x < 2 ^ 32
    → sp < 2 ^ 32
    → extract 32 9 1 (set_bit_of 9 x (bit_of 2 sp)) ≡ sp / 4 % 2
unfolding set_bit_of
aligned_bit x sp hx hs =
    extract-write_bits 32 x 9 (of_bool (bit_of 2 sp)) 0 1 hx (omega arith)
    ∙ (ap (λ b. of_bool b / 2 ^ 0 % 2 ^ 1) (bit_of_arith 2 sp (omega arith))
        ∙ back (sp / 2 ^ 2 % 2) (omega arith))
  where
    back : (n : ℕ) → n < 2 → of_bool (to_bool n) / 2 ^ 0 % 2 ^ 1 ≡ n
    back zero h = refl
    back (suc zero) h = refl
    back (suc (suc n)) h = absurd (omega arith)

pub sp_back :
    (x sp : ℕ)
    → x < 2 ^ 32
    → 32 ≤ sp
    → sp < 2 ^ 32
    → sp % 4 ≡ 0
    → bit_or (u32 (frame_of sp + 0x20)) (extract 32 9 1 (set_bit_of 9 x (bit_of 2 sp)) * 4) ≡ sp
sp_back x sp hx lo hi four =
    ap₂ bit_or {x = u32 (frame_of sp + 0x20)} {y = sp - sp / 4 % 2 * 4}
      (omega (arith, frame_of_lem sp lo hi four)) (ap (λ (t : ℕ). t * 4) (aligned_bit x sp hx hi))
    ∙ (bit_or-bit_two (sp - sp / 4 % 2 * 4) (sp / 4 % 2) (omega arith) (omega arith) ∙ omega arith)

-- The bits of the status word that a return gives back.
unfoldable pub Restored : ℕ → Type 0
Restored i = (i < 32) × ((i ≡ 24) ⊎ (28 ≤ i))

kept_by_mask : (i : ℕ) → Restored i → reserved_bits_mask / 2 ^ i % 2 ≡ 1
unfolding Restored
kept_by_mask i (small, inl e) = subst (λ (t : ℕ). reserved_bits_mask / 2 ^ t % 2 ≡ 1) (sym e) refl
kept_by_mask i (small, inr h) = elim (which i small h) [
  | inl e ↦ subst (λ (t : ℕ). reserved_bits_mask / 2 ^ t % 2 ≡ 1) (sym e) refl
  | inr (inl e) ↦ subst (λ (t : ℕ). reserved_bits_mask / 2 ^ t % 2 ≡ 1) (sym e) refl
  | inr (inr (inl e)) ↦ subst (λ (t : ℕ). reserved_bits_mask / 2 ^ t % 2 ≡ 1) (sym e) refl
  | inr (inr (inr e)) ↦ subst (λ (t : ℕ). reserved_bits_mask / 2 ^ t % 2 ≡ 1) (sym e) refl
]
  where
    which : (k : ℕ) → k < 32 → 28 ≤ k → (k ≡ 28) ⊎ ((k ≡ 29) ⊎ ((k ≡ 30) ⊎ (k ≡ 31)))
    which k a b = ground arith

-- A write of the exception number leaves the bits above it alone.
number_bit :
    (z i : ℕ) → z < 2 ^ 32 → i < 32 → 6 ≤ i → bit_of i (write_bits 32 z 0 0 0 6) ≡ bit_of i z
unfolding bit_of
number_bit z i small inside above =
    ap to_bool (extract-write_bits_above 32 z 0 0 0 6 small (omega arith) i 1 above (omega arith))

unfoldable pub status_after : Bool → ℕ → ℕ
status_after unprivileged w =
    if unprivileged
    then write_bits 32 (bit_and w reserved_bits_mask) 0 0 0 6
    else bit_and w reserved_bits_mask

pub status_bit :
    (u : Bool) (w i : ℕ)
    → i < 32
    → 6 ≤ i
    → reserved_bits_mask / 2 ^ i % 2 ≡ 1
    → bit_of i (status_after u w) ≡ bit_of i w
unfolding status_after
status_bit false w i small above kept = bit_of-bit_and i w reserved_bits_mask small kept
status_bit true w i small above kept =
    number_bit (bit_and w reserved_bits_mask) i
      (omega (arith, bit_and_le_right w reserved_bits_mask)) small above
    ∙ bit_of-bit_and i w reserved_bits_mask small kept

pub Restored-bit :
    (u : Bool) (x : ℕ) (b : Bool) (i : ℕ)
    → x < 2 ^ 32
    → Restored i
    → bit_of i (status_after u (set_bit_of 9 x b)) ≡ bit_of i x
unfolding Restored
Restored-bit u x b i small r =
    status_bit u (set_bit_of 9 x b) i r.0 (ground arith) (kept_by_mask i r)
    ∙ bit_of-set_bit_of_ne 9 x b small (omega arith) i r.0 (ground arith)

choose_status :
    (u : Bool) (w : ℕ) (c : Cpu)
    → (let r : Cpu = record c { xpsr = bit_and w reserved_bits_mask } in
        if u then set_exception_number 0 r else r)
      ≡ record c { xpsr = status_after u w }
unfolding status_after set_exception_number
choose_status true w c = refl
choose_status false w c = refl

pub restore_status-status_after :
    (w : ℕ) (c : Cpu)
    → restore_status w c ≡ record c { xpsr = status_after (is_in_thread_mode c.mode && n_priv c) w }
unfolding restore_status
restore_status-status_after w c = choose_status (is_in_thread_mode c.mode && n_priv c) w c

-- The frame of the main stack is dropped.
pub drop_frame-main :
    (a : ℕ) (c : Cpu)
    → drop_frame (extract 32 0 4 0x0ffffff9) a c
      ≡ record c { sp_main = bit_or (u32 (c.sp_main + 0x20)) a }
unfolding drop_frame extract get_specific_banked_sp set_specific_banked_sp
drop_frame-main a c = refl
