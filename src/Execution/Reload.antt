-- ===== src/Execution/Reload.antt =====
-- STM and LDM of a list of low registers, one after the other (micromachine/execution/exec.hpp).
use micromachine.Base.{
  ℕ, zero, suc, ◌+◌, ◌*◌, ◌^◌, ◌<◌, ◌≡◌, sym, ap, ap₂, arith, ◌∙◌, subst, Bool, true, false, not,
  ◌&&◌, ltb, leb, ◌==◌, List, Option, none, some, length, if◌then◌else◌, Bool-cases, inl, inr,
  fun_ext,
}
use micromachine.Bits.{u32}
use micromachine.Registers.{Cpu, get_reg, set_reg}
use micromachine.Registers.File.{set_gp}
use micromachine.Machine.{Machine, Mapping, M, ◌>>=◌, ◌>>◌, on_cpu, word, read}
use micromachine.Machine.Memory.Words.{IsWord, peek, read-peek}
use micromachine.Machine.Memory.Blocks.{poke_all, peek_all, AreWords, peek_all-poke_all}
use micromachine.Execution.Stack.{popcount, is_set, stm, ldm_from, ldm}
use micromachine.Execution.PushPop.{listed, counted, reload}
use micromachine.Execution.Saved.{merged, merged_lem, reload-merged}
use micromachine.Execution.SaveRestore.{listed_small}
use micromachine.Execution.Multiple.{stored, count_lem, listed_count, stm_lem}

load_ok :
    (a : ℕ) (k : ℕ × Bool → M Unit) (m : Machine)
    → IsWord a m.regions
    → (read word a >>= k) m ≡ k (peek a m.regions, true) m
load_ok a k m w =
    ap (λ r. elim r as (λ x. Option (Unit {0} × Machine)) [ none ↦ none | some (v, n) ↦ k v n ])
      (read-peek a m w)

-- A round of LDM.
ldm_round :
    (on : Bool) (n a b : ℕ) (set : ℕ → Cpu → Cpu) (back : ℕ → Cpu → Cpu) (d1 d2 : Cpu)
    (more rest : M Unit) (m : Machine)
    → a ≡ b
    → b + 4 * (if on then suc n else n) < 2 ^ 32
    → AreWords b (if on then suc n else n) m.regions
    → (b + 4 + 4 * n < 2 ^ 32
        → AreWords (b + 4) n m.regions
        → more (record m { cpu = set (peek b m.regions) m.cpu })
          ≡ some (tt, record m { cpu = back (b + 4 + 4 * n) d1 }))
    → (b + 4 * n < 2 ^ 32
        → AreWords b n m.regions
        → rest m ≡ some (tt, record m { cpu = back (b + 4 * n) d2 }))
    → (let step : M Unit =
          if on
          then (read word a >>= λ r. on_cpu (λ c. if r.1 then set r.0 c else c) >> more)
          else rest in
        step m)
      ≡ some
          (tt, record m { cpu = back (b + 4 * (if on then suc n else n)) (if on then d1 else d2) })
unfolding AreWords
ldm_round true n a b set back d1 d2 more rest m e fits w then_more then_rest =
    ap (λ (x : ℕ). (read word x >>= λ r. on_cpu (λ c. if r.1 then set r.0 c else c) >> more) m) e
    ∙ (load_ok b (λ r. on_cpu (λ c. if r.1 then set r.0 c else c) >> more) m w.0
        ∙ (then_more (omega arith) w.1
            ∙ ap (λ (t : ℕ). some (tt, record m { cpu = back t d1 })) {x = b + 4 + 4 * n}
                {y = b + 4 * suc n} (omega arith)))
ldm_round false n a b set back d1 d2 more rest m e fits w then_more then_rest = then_rest fits w

-- The base register is written unless it is in the list.
unfoldable pub written_back : ℕ → ℕ → ℕ → Cpu → Cpu
written_back list rn t c = if not (is_set list rn) then set_reg rn t c else c

ldm_from_lem :
    (left rid list rn a b : ℕ) (m : Machine)
    → a ≡ b
    → b + 4 * counted left rid list < 2 ^ 32
    → AreWords b (counted left rid list) m.regions
    → ldm_from left rid list rn a m
      ≡ some (
        tt,
        record m {
          cpu =
              written_back list rn
                (b + 4 * counted left rid list)
                (reload left rid list b m.regions m.cpu);
        },
      )
unfolding ldm_from counted reload written_back
ldm_from_lem zero rid list rn a b m e fits w =
    ap (λ (t : ℕ). some (tt, record m { cpu = written_back list rn t m.cpu })) {x = a}
      {y = b + 4 * 0} (omega arith)
ldm_from_lem (suc left) rid list rn a b m e fits w =
    ldm_round (is_set list rid) (counted left (rid + 1) list) a b (set_reg rid)
      (written_back list rn)
      (reload left (rid + 1) list (b + 4) m.regions (set_reg rid (peek b m.regions) m.cpu))
      (reload left (rid + 1) list b m.regions m.cpu) (ldm_from left (rid + 1) list rn (u32 (a + 4)))
      (ldm_from left (rid + 1) list rn a) m e fits w
      (λ h w'.
        ldm_from_lem left (rid + 1) list rn (u32 (a + 4)) (b + 4)
          (record m { cpu = set_reg rid (peek b m.regions) m.cpu }) (omega arith) h w')
      (ldm_from_lem left (rid + 1) list rn a b m e)

-- The registers after LDM: those of the list are the old ones.
unfoldable pub reloaded : ℕ → ℕ → ℕ → (ℕ → ℕ) → (ℕ → ℕ) → ℕ → ℕ
reloaded list rn t old gp r =
    if ltb r 8 && is_set list r then old r else if r == rn then t else gp r

in_list :
    (b : Bool) (rn r x y t : ℕ)
    → rn < 8
    → (r ≡ rn → b ≡ true)
    → (if leb 0 r && ltb r (0 + 8) && b then x else y)
      ≡ (if ltb r 8 && b then x else if r == rn then t else y)
in_list b rn r x y t low h = elim (Bool-cases (r == rn)) [
  | inl e ↦ rw (h (ground arith)) (ground arith)
  | inr ne ↦ ground arith
]

not_in_list :
    (b : Bool) (rn r x y t : ℕ)
    → (r ≡ rn → b ≡ false)
    → (if rn == r then t else if leb 0 r && ltb r (0 + 8) && b then x else y)
      ≡ (if ltb r 8 && b then x else if r == rn then t else y)
not_in_list b rn r x y t h = elim (Bool-cases (r == rn)) [
  | inl e ↦ rw (h (ground arith)) (ground arith)
  | inr ne ↦ ground arith
]

written_back-merged :
    (list rn t : ℕ) (old : ℕ → ℕ) (c : Cpu)
    → rn < 8
    → written_back list rn t (record c { gp = merged 8 0 list old c.gp })
      ≡ record c { gp = reloaded list rn t old c.gp }
unfolding written_back reloaded
written_back-merged list rn t old c low = elim (Bool-cases (is_set list rn)) [
  | inl on ↦
      ap written on
      ∙ ap to (
          fun_ext (λ r.
            merged_lem 8 0 list old c.gp r
            ∙ in_list (is_set list r) rn r (old r) (c.gp r) t low (λ e. ap (is_set list) e ∙ on)))
  | inr off ↦
      ap written off
      ∙ (set_gp (to (merged 8 0 list old c.gp)) t rn (omega arith)
          ∙ ap to (
              fun_ext (λ r.
                ap (λ (y : ℕ). if rn == r then t else y) (merged_lem 8 0 list old c.gp r)
                ∙ not_in_list (is_set list r) rn r (old r) (c.gp r) t
                    (λ e. ap (is_set list) e ∙ off))))
]
  where
    to : (ℕ → ℕ) → Cpu
    to gp = record c { gp = gp }

    written : Bool → Cpu
    written b =
        if not b
        then set_reg rn t (to (merged 8 0 list old c.gp))
        else to (merged 8 0 list old c.gp)

ldm_lem :
    (list rn base : ℕ) (old : Cpu) (n : Machine)
    → rn < 8
    → get_reg rn n.cpu ≡ base
    → base + 4 * popcount 8 list < 2 ^ 32
    → AreWords base (popcount 8 list) n.regions
    → peek_all base (popcount 8 list) n.regions ≡ listed 8 0 list old
    → ldm list rn n
      ≡ some (
        tt,
        record n {
          cpu = record n.cpu { gp = reloaded list rn (base + 4 * popcount 8 list) old.gp n.cpu.gp };
        },
      )
unfolding ldm
ldm_lem list rn base old n low e fits words held =
    ldm_from_lem 8 0 list rn (get_reg rn n.cpu) base n e (omega (arith, fits, count_lem list))
      (subst (λ (k : ℕ). AreWords base k n.regions) (sym (count_lem list)) words)
    ∙ ap₂ (λ (k : ℕ) (c : Cpu). some (tt, record n { cpu = written_back list rn (base + 4 * k) c }))
        (count_lem list)
        (reload-merged 8 0 list base n.regions old n.cpu (omega arith)
          (ap (λ (k : ℕ). peek_all base k n.regions) (count_lem list) ∙ held))
    ∙ ap (λ (c : Cpu). some (tt, record n { cpu = c }))
        (written_back-merged list rn (base + 4 * popcount 8 list) old.gp n.cpu low)

-- STM of low registers at a low base register, any body and LDM of the same list at the same base
-- succeed, and then the registers of the list hold their values of before, the base register is
-- behind the words unless it is in the list, and all else is as the body left it. Conditions: the
-- registers hold words of 32 bits, the words at the base address are mapped to memory that can be
-- read and written and end below 2 ^ 32, and the body succeeds with the base register pointing at
-- the words that STM stored, which are as they were and still mapped.
pub ldm-stm :
    (list rn : ℕ) (body : M Unit) (m n : Machine)
    → rn < 8
    → ((r : ℕ) → r < 13 → m.cpu.gp r < 2 ^ 32)
    → m.cpu.gp rn + 4 * popcount 8 list < 2 ^ 32
    → AreWords (m.cpu.gp rn) (popcount 8 list) m.regions
    → body (stored list rn m) ≡ some (tt, n)
    → get_reg rn n.cpu ≡ m.cpu.gp rn
    → AreWords (m.cpu.gp rn) (popcount 8 list) n.regions
    → peek_all (m.cpu.gp rn) (popcount 8 list) n.regions
      ≡ peek_all (m.cpu.gp rn) (popcount 8 list) (stored list rn m).regions
    → (stm list rn >> (body >> ldm list rn)) m
      ≡ some (
        tt,
        record n {
          cpu = record n.cpu {
            gp = λ r.
                if ltb r 8 && is_set list r
                then m.cpu.gp r
                else if r == rn
                then m.cpu.gp rn + 4 * popcount 8 list
                else n.cpu.gp r;
          };
        },
      )
unfolding stored reloaded
ldm-stm list rn body m n low small fits mapped runs same words held =
    ap first (stm_lem list rn m low fits mapped)
    ∙ (ap second runs
        ∙ ldm_lem list rn (m.cpu.gp rn) m.cpu n low same fits words (
            held
            ∙ (ap (λ (k : ℕ). peek_all (m.cpu.gp rn) k after) (sym count)
                ∙ peek_all-poke_all (m.cpu.gp rn) (listed 8 0 list m.cpu) m.regions
                    (subst (λ (k : ℕ). AreWords (m.cpu.gp rn) k m.regions) (sym count) mapped)
                    (listed_small 8 0 list m.cpu (omega arith) small))))
  where
    count : length (listed 8 0 list m.cpu) ≡ popcount 8 list
    count = listed_count list m.cpu

    after : List Mapping
    after = poke_all (m.cpu.gp rn) (listed 8 0 list m.cpu) m.regions

    first : Option (Unit {0} × Machine) → Option (Unit {0} × Machine)
    first r = elim r [ none ↦ none | some (u, k) ↦ (body >> ldm list rn) k ]

    second : Option (Unit {0} × Machine) → Option (Unit {0} × Machine)
    second r = elim r [ none ↦ none | some (u, k) ↦ ldm list rn k ]
