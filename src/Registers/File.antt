-- ===== src/Registers/File.antt =====
-- Reading the register file of micromachine/registers/core_registers/core_registers.hpp after a
-- write.
use micromachine.Base.{
  ℕ, ◌≤◌, ◌<◌, ◌≡◌, ◌≢◌, ◌⊎◌, inl, inr, refl, sym, ap, arith, ◌∙◌, true, false, ltb, ◌==◌,
  if◌then◌else◌, bit_and, update, if_true, if_false, Bool-cases, subst,
}
use micromachine.Registers.State.{Cpu, sp_sel}
use micromachine.Registers.Core.{
  StackType, main, process, get_specific_banked_sp, set_specific_banked_sp, current_bank, get_sp,
  set_sp, get_pc, set_pc, reg_sp, reg_lr, reg_pc, get_reg, set_reg,
}

-- What a register keeps of a word: the stack pointer drops two bits, the program counter one.
unfoldable pub kept : ℕ → ℕ → ℕ
kept i val =
    if i == reg_sp
    then bit_and 0xfffffffc val
    else if i == reg_pc
    then bit_and 0xfffffffe val
    else val

is_less : (a b : ℕ) → a < b → ltb a b ≡ true
is_less a b h = ground arith

not_less : (a b : ℕ) → b ≤ a → ltb a b ≡ false
not_less a b h = ground arith

module _ (c : Cpu) (v : ℕ) where
  pub set_gp : (i : ℕ) → i < 13 → set_reg i v c ≡ record c { gp = update c.gp i v }
  unfolding set_reg
  set_gp i h =
      if_true (record c { gp = update c.gp i v })
        (if i == reg_sp
          then set_sp v c
          else if i == reg_lr
          then record c { lr = v }
          else if i == reg_pc
          then set_pc v c
          else c)
        (is_less i 13 h)

  sp_of_bank : (b : StackType) → get_specific_banked_sp b (set_specific_banked_sp b v c) ≡ v
  unfolding get_specific_banked_sp set_specific_banked_sp
  sp_of_bank main = refl
  sp_of_bank process = refl

  bank_of_bank : (b : StackType) → current_bank (set_specific_banked_sp b v c) ≡ current_bank c
  unfolding current_bank set_specific_banked_sp sp_sel
  bank_of_bank main = refl
  bank_of_bank process = refl

  sp_of_sp : get_sp (set_sp v c) ≡ bit_and 0xfffffffc v
  unfolding get_sp set_sp
  sp_of_sp = ap (bit_and 0xfffffffc) (
      ap (λ (b : StackType). get_specific_banked_sp b (set_specific_banked_sp (current_bank c) v c))
        (bank_of_bank (current_bank c))
      ∙ sp_of_bank (current_bank c))

get_set_pc : (c : Cpu) (v : ℕ) → get_pc (set_pc v c) ≡ bit_and 0xfffffffe v
unfolding get_pc set_pc
get_set_pc c v = refl

pub get_gp : (i : ℕ) (c : Cpu) → i < 13 → get_reg i c ≡ c.gp i
unfolding get_reg
get_gp i c h =
    if_true (c.gp i)
      (if i == reg_sp
        then get_sp c
        else if i == reg_lr
        then c.lr
        else if i == reg_pc
        then get_pc c
        else 0)
      (is_less i 13 h)

pub updated_other : (f : ℕ → ℕ) (v i j : ℕ) → i ≢ j → update f j v i ≡ f i
updated_other f v i j ne = ground arith

range : (i : ℕ) → i < 16 → (i < 13) ⊎ ((i ≡ 13) ⊎ ((i ≡ 14) ⊎ (i ≡ 15)))
range i h = ground arith

-- The stack pointer does not depend on the other registers.
module _ (c : Cpu) where
  bank_only :
      (b : StackType) (f : ℕ → ℕ) (l w : ℕ)
      → (get_specific_banked_sp b (record c { gp = f }) ≡ get_specific_banked_sp b c)
        × (get_specific_banked_sp b (record c { lr = l }) ≡ get_specific_banked_sp b c)
        × (get_specific_banked_sp b (record c { pc_word = w; pc_dirty = true })
            ≡ get_specific_banked_sp b c)
  unfolding get_specific_banked_sp
  bank_only main f l w = (refl, refl, refl)
  bank_only process f l w = (refl, refl, refl)

  sp_only :
      (f : ℕ → ℕ) (l w : ℕ)
      → (get_sp (record c { gp = f }) ≡ get_sp c)
        × (get_sp (record c { lr = l }) ≡ get_sp c)
        × (get_sp (record c { pc_word = w; pc_dirty = true }) ≡ get_sp c)
  unfolding get_sp current_bank sp_sel
  sp_only f l w = (
    ap (bit_and 0xfffffffc) (bank_only (current_bank c) f l w).0,
    ap (bit_and 0xfffffffc) (bank_only (current_bank c) f l w).1,
    ap (bit_and 0xfffffffc) (bank_only (current_bank c) f l w).2,
  )

-- What a write of the stack pointer leaves alone.
module _ (c : Cpu) (v : ℕ) where
  bank_rest :
      (b : StackType)
      → ((set_specific_banked_sp b v c).gp ≡ c.gp)
        × ((set_specific_banked_sp b v c).lr ≡ c.lr)
        × ((set_specific_banked_sp b v c).pc_word ≡ c.pc_word)
  unfolding set_specific_banked_sp
  bank_rest main = (refl, refl, refl)
  bank_rest process = (refl, refl, refl)

  sp_rest : ((set_sp v c).gp ≡ c.gp) × ((set_sp v c).lr ≡ c.lr) × ((set_sp v c).pc_word ≡ c.pc_word)
  unfolding set_sp
  sp_rest = bank_rest (current_bank c)

module _ (c : Cpu) (v : ℕ) where
  same_reg : (i : ℕ) → i < 16 → get_reg i (set_reg i v c) ≡ kept i v
  unfolding get_reg set_reg kept
  same_reg i h = elim (range i h) [
    | inl gp ↦
        ap (get_reg i) (set_gp c v i gp)
        ∙ (get_gp i (record c { gp = update c.gp i v }) gp ∙ (updated i ∙ sym (kept_gp i gp)))
    | inr (inl sp) ↦ subst (λ k. get_reg k (set_reg k v c) ≡ kept k v) (sym sp) (sp_of_sp c v)
    | inr (inr (inl lr)) ↦ subst (λ k. get_reg k (set_reg k v c) ≡ kept k v) (sym lr) refl
    | inr (inr (inr pc)) ↦ subst (λ k. get_reg k (set_reg k v c) ≡ kept k v) (sym pc) pc_of_pc
  ]
    where
      updated : (k : ℕ) → update c.gp k v k ≡ v
      updated k = ground arith

      kept_gp : (k : ℕ) → k < 13 → kept k v ≡ v
      kept_gp k lt = ground arith

      pc_of_pc : get_pc (set_pc v c) ≡ bit_and 0xfffffffe v
      pc_of_pc = get_set_pc c v

  other_gp : (i j : ℕ) → i < 13 → j < 16 → i ≢ j → (set_reg j v c).gp i ≡ c.gp i
  unfolding set_reg
  other_gp i j hi hj ne = elim (range j hj) [
    | inl gp ↦ ap (λ (d : Cpu). d.gp i) (set_gp c v j gp) ∙ updated_other c.gp v i j ne
    | inr (inl sp) ↦
        subst (λ k. (set_reg k v c).gp i ≡ c.gp i) (sym sp)
          (ap (λ (f : ℕ → ℕ). f i) (sp_rest c v).0)
    | inr (inr (inl lr)) ↦ subst (λ k. (set_reg k v c).gp i ≡ c.gp i) (sym lr) refl
    | inr (inr (inr pc)) ↦ subst (λ k. (set_reg k v c).gp i ≡ c.gp i) (sym pc) refl
  ]

  -- A register above the general purpose registers, after a write of another.
  other_special :
      (j : ℕ)
      → j < 16
      → (13 ≢ j → get_reg 13 (set_reg j v c) ≡ get_reg 13 c)
        × (14 ≢ j → get_reg 14 (set_reg j v c) ≡ get_reg 14 c)
        × (15 ≢ j → get_reg 15 (set_reg j v c) ≡ get_reg 15 c)
  unfolding get_reg set_reg get_pc set_pc
  other_special j hj = elim (range j hj) [
    | inl gp ↦ (
      λ ne. ap (get_reg 13) (set_gp c v j gp) ∙ (sp_only c (update c.gp j v) 0 0).0,
      λ ne. ap (get_reg 14) (set_gp c v j gp),
      λ ne. ap (get_reg 15) (set_gp c v j gp),
    )
    | inr (inl sp) ↦
        subst
          (λ k.
            (13 ≢ k → get_reg 13 (set_reg k v c) ≡ get_reg 13 c)
            × (14 ≢ k → get_reg 14 (set_reg k v c) ≡ get_reg 14 c)
            × (15 ≢ k → get_reg 15 (set_reg k v c) ≡ get_reg 15 c))
          (sym sp)
          (
            λ ne. absurd (ne refl),
            λ ne. (sp_rest c v).1,
            λ ne. ap (bit_and 0xfffffffe) (sp_rest c v).2,
          )
    | inr (inr (inl lr)) ↦
        subst
          (λ k.
            (13 ≢ k → get_reg 13 (set_reg k v c) ≡ get_reg 13 c)
            × (14 ≢ k → get_reg 14 (set_reg k v c) ≡ get_reg 14 c)
            × (15 ≢ k → get_reg 15 (set_reg k v c) ≡ get_reg 15 c))
          (sym lr) (λ ne. (sp_only c c.gp v 0).1, λ ne. absurd (ne refl), λ ne. refl)
    | inr (inr (inr pc)) ↦
        subst
          (λ k.
            (13 ≢ k → get_reg 13 (set_reg k v c) ≡ get_reg 13 c)
            × (14 ≢ k → get_reg 14 (set_reg k v c) ≡ get_reg 14 c)
            × (15 ≢ k → get_reg 15 (set_reg k v c) ≡ get_reg 15 c))
          (sym pc) (λ ne. (sp_only c c.gp 0 v).2, λ ne. refl, λ ne. absurd (ne refl))
  ]

-- A register of the register file that is read after a write is what the written register keeps of
-- the word, and all other registers are unchanged.
pub get_reg-set_reg :
    (c : Cpu) (v i j : ℕ)
    → i < 16
    → j < 16
    → get_reg i (set_reg j v c) ≡ (if i == j then kept i v else get_reg i c)
get_reg-set_reg c v i j hi hj = elim (Bool-cases (i == j)) [
  | inl e ↦ written (ground arith) ∙ sym (if_true (kept i v) (get_reg i c) e)
  | inr ne ↦ other (ground arith) ∙ sym (if_false (kept i v) (get_reg i c) ne)
]
  where
    written : i ≡ j → get_reg i (set_reg j v c) ≡ kept i v
    written e = subst (λ k. get_reg i (set_reg k v c) ≡ kept i v) e (same_reg c v i hi)

    other : i ≢ j → get_reg i (set_reg j v c) ≡ get_reg i c
    other ne = elim (range i hi) [
      | inl gp ↦ get_gp i (set_reg j v c) gp ∙ (other_gp c v i j gp hj ne ∙ sym (get_gp i c gp))
      | inr (inl sp) ↦
          subst (λ k. k ≢ j → get_reg k (set_reg j v c) ≡ get_reg k c) (sym sp)
            (other_special c v j hj).0 ne
      | inr (inr (inl lr)) ↦
          subst (λ k. k ≢ j → get_reg k (set_reg j v c) ≡ get_reg k c) (sym lr)
            (other_special c v j hj).1 ne
      | inr (inr (inr pc)) ↦
          subst (λ k. k ≢ j → get_reg k (set_reg j v c) ≡ get_reg k c) (sym pc)
            (other_special c v j hj).2 ne
    ]
