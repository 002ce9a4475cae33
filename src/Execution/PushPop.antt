-- ===== src/Execution/PushPop.antt =====
-- PUSH and POP of a list of low registers (micromachine/execution/exec.hpp).
use micromachine.Base.{
  ℕ, zero, suc, ◌+◌, ◌*◌, ◌^◌, ◌≤◌, ◌<◌, ◌≡◌, refl, ap, arith, ◌∙◌, Bool, true, false, List, [],
  ◌∷◌, some, length, if◌then◌else◌,
}
use micromachine.Bits.{u32}
use micromachine.Registers.{Cpu, get_reg, set_reg}
use micromachine.Machine.{Machine, Mapping, M, ◌>>=◌, ◌>>◌, ask_cpu, on_cpu, write32, read32}
use micromachine.Machine.Memory.Words.{peek, poke}
use micromachine.Machine.Memory.Blocks.{poke_all, AreWords, AreWords-poke}
use micromachine.Execution.Stack.{is_set, push_from, pop_from}
use micromachine.Execution.Frame.{store_step, load_from}

-- The values of the registers in the list.
unfoldable pub listed : ℕ → ℕ → ℕ → Cpu → List ℕ
listed zero rid list c = []
listed (suc left) rid list c =
    if is_set list rid
    then get_reg rid c ∷ listed left (rid + 1) list c
    else listed left (rid + 1) list c

-- A round of PUSH, by whether the register is in the list, once the later rounds are known.
push_round :
    (on : Bool) (g : Cpu → ℕ) (a b : ℕ) (vs : List ℕ) (more rest : M Unit) (m : Machine)
    → (b + 4 ≤ 2 ^ 32 → a ≡ b)
    → b + 4 * length (if on then g m.cpu ∷ vs else vs) ≤ 2 ^ 32
    → AreWords b (length (if on then g m.cpu ∷ vs else vs)) m.regions
    → (b + 4 + 4 * length vs ≤ 2 ^ 32
        → AreWords (b + 4) (length vs) (poke b (g m.cpu) m.regions)
        → more (record m { regions = poke b (g m.cpu) m.regions })
          ≡ some (tt, record m { regions = poke_all (b + 4) vs (poke b (g m.cpu) m.regions) }))
    → (b + 4 * length vs ≤ 2 ^ 32
        → AreWords b (length vs) m.regions
        → rest m ≡ some (tt, record m { regions = poke_all b vs m.regions }))
    → (let step : M Unit = if on then (ask_cpu g >>= λ v. write32 a v >>= λ _. more) else rest in
        step m)
      ≡ some (tt, record m { regions = poke_all b (if on then g m.cpu ∷ vs else vs) m.regions })
unfolding AreWords poke_all
push_round true g a b vs more rest m e fits w then_more then_rest =
    store_step a b (g m.cpu) more m (e (omega arith)) w.0
    ∙ then_more (omega arith) (AreWords-poke b (g m.cpu) (b + 4) (length vs) m.regions w.1)
push_round false g a b vs more rest m e fits w then_more then_rest = then_rest fits w

pub push_from_lem :
    (left rid list start count b : ℕ) (m : Machine)
    → b ≡ start + count * 4
    → b + 4 * length (listed left rid list m.cpu) ≤ 2 ^ 32
    → AreWords b (length (listed left rid list m.cpu)) m.regions
    → push_from left rid list start count m
      ≡ some (tt, record m { regions = poke_all b (listed left rid list m.cpu) m.regions })
unfolding push_from listed poke_all
push_from_lem zero rid list start count b m e fits w = refl
push_from_lem (suc left) rid list start count b m e fits w =
    push_round (is_set list rid) (get_reg rid) (u32 (start + count * 4)) b vs
      (push_from left (rid + 1) list start (count + 1)) (push_from left (rid + 1) list start count)
      m (λ h. omega arith) fits w
      (push_from_lem left (rid + 1) list start (count + 1) (b + 4)
        (record m { regions = poke b (get_reg rid m.cpu) m.regions }) (omega arith))
      (push_from_lem left (rid + 1) list start count b m e)
  where
    vs : List ℕ
    vs = listed left (rid + 1) list m.cpu

-- How many registers are in the list.
unfoldable pub counted : ℕ → ℕ → ℕ → ℕ
counted zero rid list = 0
counted (suc left) rid list =
    if is_set list rid then suc (counted left (rid + 1) list) else counted left (rid + 1) list

-- The registers after those of the list are loaded.
unfoldable pub reload : ℕ → ℕ → ℕ → ℕ → List Mapping → Cpu → Cpu
reload zero rid list b mms c = c
reload (suc left) rid list b mms c =
    if is_set list rid
    then reload left (rid + 1) list (b + 4) mms (set_reg rid (peek b mms) c)
    else reload left (rid + 1) list b mms c

-- A round of POP.
pop_round :
    (on : Bool) (n a b : ℕ) (set : ℕ → Cpu → Cpu) (d1 d2 : Cpu) (more rest : M ℕ) (m : Machine)
    → a ≡ b
    → b + 4 * (if on then suc n else n) < 2 ^ 32
    → AreWords b (if on then suc n else n) m.regions
    → (b + 4 + 4 * n < 2 ^ 32
        → AreWords (b + 4) n m.regions
        → more (record m { cpu = set (peek b m.regions) m.cpu })
          ≡ some (b + 4 + 4 * n, record m { cpu = d1 }))
    → (b + 4 * n < 2 ^ 32
        → AreWords b n m.regions
        → rest m ≡ some (b + 4 * n, record m { cpu = d2 }))
    → (let step : M ℕ = if on then (read32 a >>= λ v. on_cpu (set v) >> more) else rest in step m)
      ≡ some (b + 4 * (if on then suc n else n), record m { cpu = if on then d1 else d2 })
unfolding AreWords
pop_round true n a b set d1 d2 more rest m e fits w then_more then_rest =
    load_from a b (λ v. on_cpu (set v) >> more) m e w.0
    ∙ (then_more (omega arith) w.1
        ∙ ap (λ (t : ℕ). some (t, record m { cpu = d1 })) {x = b + 4 + 4 * n} {y = b + 4 * suc n}
            (omega arith))
pop_round false n a b set d1 d2 more rest m e fits w then_more then_rest = then_rest fits w

pub pop_from_lem :
    (left rid list a b : ℕ) (m : Machine)
    → a ≡ b
    → b + 4 * counted left rid list < 2 ^ 32
    → AreWords b (counted left rid list) m.regions
    → pop_from left rid list a m
      ≡ some
          (b + 4 * counted left rid list, record m { cpu = reload left rid list b m.regions m.cpu })
unfolding pop_from counted reload
pop_from_lem zero rid list a b m e fits w =
    ap (λ (t : ℕ). some (t, m)) {x = a} {y = b + 4 * 0} (omega arith)
pop_from_lem (suc left) rid list a b m e fits w =
    pop_round (is_set list rid) (counted left (rid + 1) list) a b (set_reg rid)
      (reload left (rid + 1) list (b + 4) m.regions (set_reg rid (peek b m.regions) m.cpu))
      (reload left (rid + 1) list b m.regions m.cpu) (pop_from left (rid + 1) list (u32 (a + 4)))
      (pop_from left (rid + 1) list a) m e fits w
      (λ h w'.
        pop_from_lem left (rid + 1) list (u32 (a + 4)) (b + 4)
          (record m { cpu = set_reg rid (peek b m.regions) m.cpu }) (omega arith) h w')
      (pop_from_lem left (rid + 1) list a b m e)
