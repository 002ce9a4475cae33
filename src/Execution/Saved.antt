-- ===== src/Execution/Saved.antt =====
-- The registers that a routine saves with PUSH and gets back with POP
-- (micromachine/execution/exec.hpp).
use native.Mathlib.Nat.{pow-le-pow_right, div-eq_of_lt, div-div-eq-div-mul}
use micromachine.Base.{
  ℕ, zero, suc, ◌+◌, ◌/◌, ◌%◌, ◌^◌, ◌≤◌, ◌<◌, ◌≡◌, refl, sym, ap, arith, ◌∙◌, subst, Bool, true,
  false, List, [], ◌∷◌, length, if◌then◌else◌, if_false, Bool-cases, inl, inr, ◌&&◌, ltb, leb, ◌==◌,
  update, to_bool,
}
use micromachine.Bits.Single.{get_bit_arith}
use micromachine.Bits.Laws.{two_pow_add}
use micromachine.Registers.{Cpu, get_reg, set_reg}
use micromachine.Registers.File.{get_gp, set_gp}
use micromachine.Machine.{Mapping}
use micromachine.Machine.Memory.Words.{peek}
use micromachine.Machine.Memory.Blocks.{peek_all}
use micromachine.Execution.Stack.{popcount, is_set}
use micromachine.Execution.PushPop.{listed, counted, reload}

pub length-listed :
    (left rid list : ℕ) (c : Cpu) → length (listed left rid list c) ≡ counted left rid list
unfolding listed counted
length-listed zero rid list c = refl
length-listed (suc left) rid list c = ground (arith, length-listed left (rid + 1) list c)

is_set_arith : (list rid : ℕ) → is_set list rid ≡ to_bool (list / 2 ^ rid % 2)
unfolding is_set
is_set_arith list rid = get_bit_arith list rid

-- The list has registers below `n` only.
unfoldable pub Below : ℕ → ℕ → Type 0
Below n list = (k : ℕ) → n ≤ k → is_set list k ≡ false

pub low-Below : (list : ℕ) → list < 2 ^ 8 → Below 8 list
unfolding Below
low-Below list h k le =
    is_set_arith list k
    ∙ ap (λ (t : ℕ). to_bool (t % 2))
        (div-eq_of_lt (omega (arith, pow-le-pow_right {n = 2} (omega arith) le)))

none_counted : (left rid list : ℕ) → Below rid list → counted left rid list ≡ 0
unfolding counted Below
none_counted zero rid list h = refl
none_counted (suc left) rid list h =
    if_false (suc (counted left (rid + 1) list)) (counted left (rid + 1) list) (h rid (omega arith))
    ∙ none_counted left (rid + 1) list (λ k le. h k (omega arith))

none_listed : (left rid list : ℕ) (c : Cpu) → Below rid list → listed left rid list c ≡ []
unfolding listed Below
none_listed zero rid list c h = refl
none_listed (suc left) rid list c h =
    if_false (get_reg rid c ∷ listed left (rid + 1) list c) (listed left (rid + 1) list c)
      (h rid (omega arith))
    ∙ none_listed left (rid + 1) list c (λ k le. h k (omega arith))

bit_count : (n : ℕ) → n < 2 → (r : ℕ) → (if to_bool n then suc r else r) ≡ n + r
bit_count zero h r = omega arith
bit_count (suc zero) h r = omega arith
bit_count (suc (suc n)) h r = absurd (omega arith)

pub counted-popcount : (left rid list : ℕ) → counted left rid list ≡ popcount left (list / 2 ^ rid)
unfolding counted popcount
counted-popcount zero rid list = refl
counted-popcount (suc left) rid list =
    ap (λ b. if b then suc (counted left (rid + 1) list) else counted left (rid + 1) list)
      (is_set_arith list rid)
    ∙ (bit_count (list / 2 ^ rid % 2) (omega arith) (counted left (rid + 1) list)
        ∙ ap (λ (t : ℕ). list / 2 ^ rid % 2 + t)
            (counted-popcount left (rid + 1) list
              ∙ ap (popcount left) (
                  ap (λ (t : ℕ). list / t) (two_pow_add rid 1)
                  ∙ sym (div-div-eq-div-mul list (2 ^ rid) 2))))

-- A shorter loop is enough for a list whose higher bits are clear.
pub counted-cut :
    (more left rid list : ℕ)
    → left ≤ more
    → Below (rid + left) list
    → counted more rid list ≡ counted left rid list
unfolding counted
counted-cut more zero rid list le h =
    none_counted more rid list
      (subst (λ (n : ℕ). Below n list) {x = rid + 0} {y = rid} (omega arith) h)
counted-cut zero (suc left) rid list le h = absurd (omega arith)
counted-cut (suc more) (suc left) rid list le h =
    ap (λ (t : ℕ). if is_set list rid then suc t else t)
      (counted-cut more left (rid + 1) list (omega arith)
        (subst (λ (n : ℕ). Below n list) {x = rid + suc left} {y = rid + 1 + left} (omega arith) h))

pub listed-cut :
    (more left rid list : ℕ) (c : Cpu)
    → left ≤ more
    → Below (rid + left) list
    → listed more rid list c ≡ listed left rid list c
unfolding listed
listed-cut more zero rid list c le h =
    none_listed more rid list c
      (subst (λ (n : ℕ). Below n list) {x = rid + 0} {y = rid} (omega arith) h)
listed-cut zero (suc left) rid list c le h = absurd (omega arith)
listed-cut (suc more) (suc left) rid list c le h =
    ap (λ t. if is_set list rid then get_reg rid c ∷ t else t)
      (listed-cut more left (rid + 1) list c (omega arith)
        (subst (λ (n : ℕ). Below n list) {x = rid + suc left} {y = rid + 1 + left} (omega arith) h))

-- The registers of the list, from those of an earlier state.
unfoldable pub merged : ℕ → ℕ → ℕ → (ℕ → ℕ) → (ℕ → ℕ) → ℕ → ℕ
merged zero rid list old gp = gp
merged (suc left) rid list old gp =
    merged left (rid + 1) list old (if is_set list rid then update gp rid (old rid) else gp)

merge_step :
    (s t : Bool) (rid r left : ℕ) (old gp : ℕ → ℕ)
    → (r ≡ rid → t ≡ s)
    → (if leb (rid + 1) r && ltb r (rid + 1 + left) && t
        then old r
        else (if s then update gp rid (old rid) else gp) r)
      ≡ (if leb rid r && ltb r (rid + suc left) && t then old r else gp r)
merge_step true t rid r left old gp h = elim (Bool-cases (r == rid)) [
  | inl e ↦ let same : r ≡ rid = ground arith in rw (same, h same) (ground arith)
  | inr ne ↦ ground arith
]
merge_step false t rid r left old gp h = elim (Bool-cases (r == rid)) [
  | inl e ↦ let same : r ≡ rid = ground arith in rw (same, h same) (ground arith)
  | inr ne ↦ ground arith
]

pub merged_lem :
    (left rid list : ℕ) (old gp : ℕ → ℕ) (r : ℕ)
    → merged left rid list old gp r
      ≡ (if leb rid r && ltb r (rid + left) && is_set list r then old r else gp r)
unfolding merged
merged_lem zero rid list old gp r = ground arith
merged_lem (suc left) rid list old gp r =
    merged_lem left (rid + 1) list old (if is_set list rid then update gp rid (old rid) else gp) r
    ∙ merge_step (is_set list rid) (is_set list r) rid r left old gp (λ e. ap (is_set list) e)

-- A round, by whether the register is in the list.
reload_round :
    (on : Bool) (rid b n : ℕ) (v : ℕ) (vs : List ℕ) (mms : List Mapping) (x y t u : Cpu)
    → peek_all b (if on then suc n else n) mms ≡ (if on then v ∷ vs else vs)
    → (peek b mms ≡ v → peek_all (b + 4) n mms ≡ vs → x ≡ t)
    → (peek_all b n mms ≡ vs → y ≡ u)
    → (if on then x else y) ≡ (if on then t else u)
unfolding peek_all
reload_round true rid b n v vs mms x y t u e then_on then_off = then_on (head_eq e) (tail_eq e)
  where
    head_eq : {p q : ℕ} {ps qs : List ℕ} → p ∷ ps ≡ q ∷ qs → p ≡ q
    head_eq h = cc

    tail_eq : {p q : ℕ} {ps qs : List ℕ} → p ∷ ps ≡ q ∷ qs → ps ≡ qs
    tail_eq h = cc
reload_round false rid b n v vs mms x y t u e then_on then_off = then_off e

pub reload-merged :
    (left rid list b : ℕ) (mms : List Mapping) (old c : Cpu)
    → rid + left ≤ 13
    → peek_all b (counted left rid list) mms ≡ listed left rid list old
    → reload left rid list b mms c ≡ record c { gp = merged left rid list old.gp c.gp }
unfolding reload merged listed counted
reload-merged zero rid list b mms old c fits e = refl
reload-merged (suc left) rid list b mms old c fits e =
    reload_round (is_set list rid) rid b (counted left (rid + 1) list) (get_reg rid old)
      (listed left (rid + 1) list old) mms
      (reload left (rid + 1) list (b + 4) mms (set_reg rid (peek b mms) c))
      (reload left (rid + 1) list b mms c) (to (update c.gp rid (old.gp rid))) (to c.gp) e
      (λ first rest.
        ap (reload left (rid + 1) list (b + 4) mms) (
          ap (λ (v : ℕ). set_reg rid v c) (first ∙ get_gp rid old (omega arith))
          ∙ set_gp c (old.gp rid) rid (omega arith))
        ∙ reload-merged left (rid + 1) list (b + 4) mms old
            (record c { gp = update c.gp rid (old.gp rid) }) (omega arith) rest)
      (λ rest. reload-merged left (rid + 1) list b mms old c (omega arith) rest)
    ∙ pull (is_set list rid)
  where
    to : (ℕ → ℕ) → Cpu
    to g = record c { gp = merged left (rid + 1) list old.gp g }

    pull :
        (on : Bool)
        → (if on then to (update c.gp rid (old.gp rid)) else to c.gp)
          ≡ to (if on then update c.gp rid (old.gp rid) else c.gp)
    pull true = refl
    pull false = refl
