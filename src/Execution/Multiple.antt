-- ===== src/Execution/Multiple.antt =====
-- STM of a list of low registers (micromachine/execution/exec.hpp).
use micromachine.Base.{
  ℕ, zero, suc, ◌+◌, ◌*◌, ◌/◌, ◌^◌, ◌<◌, ◌≡◌, sym, ap, arith, ◌∙◌, subst, Bool, true, false, not,
  List, ◌∷◌, Option, none, some, length, if◌then◌else◌,
}
use micromachine.Bits.{u32}
use micromachine.Registers.{Cpu, get_reg, set_reg}
use micromachine.Registers.File.{get_gp}
use micromachine.Machine.{Machine, M, ◌>>=◌, ask_cpu, pure, write32}
use micromachine.Machine.Memory.Words.{IsWord, poke, write32-poke}
use micromachine.Machine.Memory.Blocks.{poke_all, AreWords, AreWords-poke}
use micromachine.Execution.Stack.{popcount, is_set, stm_from, stm}
use micromachine.Execution.PushPop.{listed, counted}
use micromachine.Execution.Saved.{length-listed, counted-popcount}

store_ok :
    (a b v : ℕ) (k : M Unit) (m : Machine)
    → a ≡ b
    → IsWord b m.regions
    → (write32 a v >>= λ ok. if not ok then pure tt else k) m
      ≡ k (record m { regions = poke b v m.regions })
store_ok a b v k m e w =
    ap (λ (x : ℕ). (write32 x v >>= after) m) e
    ∙ ap
        (λ r. elim r as (λ x. Option (Unit {0} × Machine)) [
          | none ↦ none
          | some (ok, n) ↦ after ok n
        ])
        (write32-poke b v m w)
  where
    after : Bool → M Unit
    after ok = if not ok then pure tt else k

-- A round of STM, by whether the register is in the list, once the later rounds are known.
stm_round :
    (on : Bool) (g : Cpu → ℕ) (a b : ℕ) (vs : List ℕ) (to : ℕ → Cpu → Cpu) (more rest : M Unit)
    (m : Machine)
    → a ≡ b
    → b + 4 * length (if on then g m.cpu ∷ vs else vs) < 2 ^ 32
    → AreWords b (length (if on then g m.cpu ∷ vs else vs)) m.regions
    → (b + 4 + 4 * length vs < 2 ^ 32
        → AreWords (b + 4) (length vs) (poke b (g m.cpu) m.regions)
        → more (record m { regions = poke b (g m.cpu) m.regions })
          ≡ some (
            tt,
            record m {
              cpu = to (b + 4 + 4 * length vs) m.cpu;
              regions = poke_all (b + 4) vs (poke b (g m.cpu) m.regions);
            },
          ))
    → (b + 4 * length vs < 2 ^ 32
        → AreWords b (length vs) m.regions
        → rest m
          ≡ some (
            tt,
            record m { cpu = to (b + 4 * length vs) m.cpu; regions = poke_all b vs m.regions },
          ))
    → (let step : M Unit =
          if on
          then (ask_cpu g >>= λ v. write32 a v >>= λ ok. if not ok then pure tt else more)
          else rest in
        step m)
      ≡ some (
        tt,
        record m {
          cpu = to (b + 4 * length (if on then g m.cpu ∷ vs else vs)) m.cpu;
          regions = poke_all b (if on then g m.cpu ∷ vs else vs) m.regions;
        },
      )
unfolding AreWords poke_all
stm_round true g a b vs to more rest m e fits w then_more then_rest =
    store_ok a b (g m.cpu) more m e w.0
    ∙ (then_more (omega arith) (AreWords-poke b (g m.cpu) (b + 4) (length vs) m.regions w.1)
        ∙ ap
            (λ (t : ℕ). some (
              tt,
              record m {
                cpu = to t m.cpu;
                regions = poke_all (b + 4) vs (poke b (g m.cpu) m.regions);
              },
            ))
            {x = b + 4 + 4 * length vs} {y = b + 4 * suc (length vs)} (omega arith))
stm_round false g a b vs to more rest m e fits w then_more then_rest = then_rest fits w

stm_from_lem :
    (left rid list rn a b : ℕ) (m : Machine)
    → a ≡ b
    → b + 4 * length (listed left rid list m.cpu) < 2 ^ 32
    → AreWords b (length (listed left rid list m.cpu)) m.regions
    → stm_from left rid list rn a m
      ≡ some (
        tt,
        record m {
          cpu = set_reg rn (b + 4 * length (listed left rid list m.cpu)) m.cpu;
          regions = poke_all b (listed left rid list m.cpu) m.regions;
        },
      )
unfolding stm_from listed poke_all
stm_from_lem zero rid list rn a b m e fits w =
    ap (λ (t : ℕ). some (tt, record m { cpu = set_reg rn t m.cpu })) {x = a} {y = b + 4 * 0}
      (omega arith)
stm_from_lem (suc left) rid list rn a b m e fits w =
    stm_round (is_set list rid) (get_reg rid) a b vs (set_reg rn)
      (stm_from left (rid + 1) list rn (u32 (a + 4))) (stm_from left (rid + 1) list rn a) m e fits w
      (λ h.
        stm_from_lem left (rid + 1) list rn (u32 (a + 4)) (b + 4)
          (record m { regions = poke b (get_reg rid m.cpu) m.regions }) (omega arith) h)
      (stm_from_lem left (rid + 1) list rn a b m e)
  where
    vs : List ℕ
    vs = listed left (rid + 1) list m.cpu

-- The state after STM.
unfoldable pub stored : ℕ → ℕ → Machine → Machine
stored list rn m = record m {
  cpu = set_reg rn (m.cpu.gp rn + 4 * popcount 8 list) m.cpu;
  regions = poke_all (m.cpu.gp rn) (listed 8 0 list m.cpu) m.regions;
}

pub count_lem : (list : ℕ) → counted 8 0 list ≡ popcount 8 list
count_lem list =
    counted-popcount 8 0 list ∙ ap (popcount 8) {x = list / 2 ^ 0} {y = list} (omega arith)

pub listed_count : (list : ℕ) (c : Cpu) → length (listed 8 0 list c) ≡ popcount 8 list
listed_count list c = length-listed 8 0 list c ∙ count_lem list

pub stm_lem :
    (list rn : ℕ) (m : Machine)
    → rn < 8
    → m.cpu.gp rn + 4 * popcount 8 list < 2 ^ 32
    → AreWords (m.cpu.gp rn) (popcount 8 list) m.regions
    → stm list rn m ≡ some (tt, stored list rn m)
unfolding stm stored
stm_lem list rn m low fits w =
    stm_from_lem 8 0 list rn (get_reg rn m.cpu) (m.cpu.gp rn) m (get_gp rn m.cpu (omega arith))
      (omega (arith, fits, listed_count list m.cpu))
      (subst (λ (k : ℕ). AreWords (m.cpu.gp rn) k m.regions) (sym (listed_count list m.cpu)) w)
    ∙ ap
        (λ (k : ℕ). some (
          tt,
          record m {
            cpu = set_reg rn (m.cpu.gp rn + 4 * k) m.cpu;
            regions = poke_all (m.cpu.gp rn) (listed 8 0 list m.cpu) m.regions;
          },
        ))
        (listed_count list m.cpu)
