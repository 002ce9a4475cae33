-- ===== src/Execution/SaveRestore.antt =====
-- A routine that saves low registers with PUSH and gets them back with POP
-- (micromachine/execution/exec.hpp).
use micromachine.Base.{
  ℕ, ◌+◌, ◌-◌, ◌*◌, ◌%◌, ◌/◌, ◌^◌, ◌≤◌, ◌<◌, ◌≡◌, refl, sym, ap, ap₂, arith, ◌∙◌, subst, Bool, true,
  false, ◌&&◌, ltb, leb, List, ◌∷◌, Option, none, some, length, All, if◌then◌else◌, zero, suc,
  fun_ext,
}
use micromachine.Bits.{u32}
use micromachine.Bits.Masks.{bit_and-multiple}
use micromachine.Registers.{Cpu, get_reg, set_reg, get_sp, set_sp, reg_pc}
use micromachine.Registers.File.{get_gp, get_reg-set_reg, kept}
use micromachine.Machine.{Machine, Mapping, M, ◌>>=◌, ◌>>◌, on_cpu, pure, read32}
use micromachine.Machine.Memory.Blocks.{poke_all, peek_all, AreWords, peek_all-poke_all}
use micromachine.Execution.Context.{branch_interworking}
use micromachine.Execution.Stack.{popcount, is_set, push_from, push, pop_from, pop}
use micromachine.Execution.PushPop.{listed, counted, push_from_lem, pop_from_lem}
use micromachine.Execution.Restore.{sp_multiple, sp_small}
use micromachine.Execution.Saved.{
  length-listed, low-Below, Below, counted-popcount, counted-cut, listed-cut, merged, merged_lem,
  reload-merged,
}

-- The stack pointer that is read after a multiple of 4 is written.
get_sp-set_sp : (v : ℕ) (c : Cpu) → v < 2 ^ 32 → v % 4 ≡ 0 → get_sp (set_sp v c) ≡ v
unfolding get_reg set_reg kept
get_sp-set_sp v c small four =
    get_reg-set_reg c v 13 13 (omega arith) (omega arith) ∙ bit_and-multiple v small four

small_round :
    (on : Bool) (v : ℕ) (vs : List ℕ)
    → v < 2 ^ 32
    → All (λ v. v < 2 ^ 32) vs
    → All (λ v. v < 2 ^ 32) (if on then v ∷ vs else vs)
small_round true v vs h hs = (h, hs)
small_round false v vs h hs = hs

pub listed_small :
    (left rid list : ℕ) (c : Cpu)
    → rid + left ≤ 13
    → ((r : ℕ) → r < 13 → c.gp r < 2 ^ 32)
    → All (λ v. v < 2 ^ 32) (listed left rid list c)
unfolding listed
listed_small zero rid list c fits small = tt
listed_small (suc left) rid list c fits small =
    small_round (is_set list rid) (get_reg rid c) (listed left (rid + 1) list c)
      (subst (λ (v : ℕ). v < 2 ^ 32) (sym (get_gp rid c (omega arith))) (small rid (omega arith)))
      (listed_small left (rid + 1) list c (omega arith) small)

-- PUSH, once its loop is known.
push_after :
    (list base : ℕ) (m : Machine) (mms : List Mapping)
    → u32 (get_sp m.cpu + (2 ^ 32 - 4 * popcount 16 list)) ≡ base
    → push_from 15 0 list base 0 m ≡ some (tt, record m { regions = mms })
    → push list m ≡ some (tt, record m { cpu = set_sp base m.cpu; regions = mms })
unfolding push
push_after list base m mms e h =
    ap (λ start. (push_from 15 0 list start 0 >> on_cpu (set_sp start)) m) e ∙ ap end h
  where
    end : Option (Unit {0} × Machine) → Option (Unit {0} × Machine)
    end r = elim r [ none ↦ none | some (u, n) ↦ on_cpu (set_sp base) n ]

-- POP of a list without the program counter, once its loop is known.
pop_after :
    (list base last : ℕ) (m : Machine) (d : Cpu)
    → get_sp m.cpu ≡ base
    → pop_from 8 0 list base m ≡ some (last, record m { cpu = d })
    → is_set list reg_pc ≡ false
    → pop list m ≡ some (tt, record m { cpu = set_sp (u32 (base + 4 * popcount 16 list)) d })
unfolding pop
pop_after list base last m d e h off =
    ap (λ start. (pop_from 8 0 list start >>= after start) m) e
    ∙ (ap end h
        ∙ ap
            (λ (b : Bool).
              (return b) (record m { cpu = set_sp (u32 (base + 4 * popcount 16 list)) d }))
            off)
  where
    return : Bool → M Unit
    return b = if b then (read32 last >>= branch_interworking) else pure tt

    after : ℕ → ℕ → M Unit
    after start from =
        on_cpu (set_sp (u32 (start + 4 * popcount 16 list)))
        >> (if is_set list reg_pc then (read32 from >>= branch_interworking) else pure tt)

    end : Option (ℕ × Machine) → Option (Unit {0} × Machine)
    end r = elim r [ none ↦ none | some (from, n) ↦ after base from n ]

-- The state after PUSH: the values of the registers stand below the stack pointer.
unfoldable pub pushed : ℕ → Machine → Machine
pushed list m = record m {
  cpu = set_sp (get_sp m.cpu - 4 * popcount 16 list) m.cpu;
  regions = poke_all (get_sp m.cpu - 4 * popcount 16 list) (listed 8 0 list m.cpu) m.regions;
}

how_many : (more list : ℕ) → 8 ≤ more → list < 2 ^ 8 → counted more 0 list ≡ counted 8 0 list
how_many more list le low = counted-cut more 8 0 list le (low-Below list low)

count_lem : (list : ℕ) → list < 2 ^ 8 → counted 8 0 list ≡ popcount 16 list
count_lem list low =
    sym (how_many 16 list (omega arith) low)
    ∙ (counted-popcount 16 0 list ∙ ap (popcount 16) {x = list / 2 ^ 0} {y = list} (omega arith))

push_lem :
    (list : ℕ) (m : Machine)
    → list < 2 ^ 8
    → 4 * popcount 16 list ≤ get_sp m.cpu
    → AreWords (get_sp m.cpu - 4 * popcount 16 list) (popcount 16 list) m.regions
    → push list m ≡ some (tt, pushed list m)
unfolding pushed
push_lem list m low room mapped =
    push_after list base m (poke_all base (listed 8 0 list m.cpu) m.regions)
      (omega (arith, sp_small m.cpu, room))
      (push_from_lem 15 0 list base 0 base m (omega arith)
          (omega (arith, sp_small m.cpu, room, pushed_count))
          (subst (λ (n : ℕ). AreWords base n m.regions) (sym pushed_count) mapped)
        ∙ ap (λ vs. some (tt, record m { regions = poke_all base vs m.regions }))
            (listed-cut 15 8 0 list m.cpu (omega arith) (low-Below list low)))
  where
    base : ℕ
    base = get_sp m.cpu - 4 * popcount 16 list

    pushed_count : length (listed 15 0 list m.cpu) ≡ popcount 16 list
    pushed_count =
        length-listed 15 0 list m.cpu ∙ (how_many 15 list (omega arith) low ∙ count_lem list low)

pop_lem :
    (list base : ℕ) (old : Cpu) (n : Machine)
    → list < 2 ^ 8
    → get_sp n.cpu ≡ base
    → base + 4 * popcount 16 list < 2 ^ 32
    → AreWords base (popcount 16 list) n.regions
    → peek_all base (popcount 16 list) n.regions ≡ listed 8 0 list old
    → pop list n
      ≡ some (
        tt,
        record n {
          cpu =
              set_sp
                (base + 4 * popcount 16 list)
                (record n.cpu { gp = merged 8 0 list old.gp n.cpu.gp });
        },
      )
unfolding Below
pop_lem list base old n low e fits words held =
    pop_after list base (base + 4 * counted 8 0 list) n d e
      (pop_from_lem 8 0 list base base n refl (omega (arith, fits, count_lem list low))
          (subst (λ (k : ℕ). AreWords base k n.regions) (sym (count_lem list low)) words)
        ∙ ap (λ c. some (base + 4 * counted 8 0 list, record n { cpu = c }))
            (reload-merged 8 0 list base n.regions old n.cpu (omega arith)
              (ap (λ (k : ℕ). peek_all base k n.regions) (count_lem list low) ∙ held)))
      (low-Below list low reg_pc (omega arith))
    ∙ ap (λ (v : ℕ). some (tt, record n { cpu = set_sp v d })) (omega (arith, fits))
  where
    d : Cpu
    d = record n.cpu { gp = merged 8 0 list old.gp n.cpu.gp }

low_cut :
    (b : Bool) (r x y : ℕ)
    → (if leb 0 r && ltb r (0 + 8) && b then x else y) ≡ (if ltb r 8 && b then x else y)
low_cut b r x y = ground arith

-- A routine that pushes the registers of a list, all of them low ones, runs any body and pops
-- the same list succeeds, and then the stack pointer is the one of before, the low registers of
-- the list hold their values of before, and all else is as the body left it. Conditions: the
-- registers hold words of 32 bits, the stack has room and its words are mapped to memory that
-- can be read and written, and the body succeeds with the stack pointer and the words that PUSH
-- stored as they were, still mapped.
pub pop-push :
    (list : ℕ) (body : M Unit) (m n : Machine)
    → list < 2 ^ 8
    → ((r : ℕ) → r < 13 → m.cpu.gp r < 2 ^ 32)
    → 4 * popcount 16 list ≤ get_sp m.cpu
    → AreWords (get_sp m.cpu - 4 * popcount 16 list) (popcount 16 list) m.regions
    → body (pushed list m) ≡ some (tt, n)
    → get_sp n.cpu ≡ get_sp (pushed list m).cpu
    → AreWords (get_sp m.cpu - 4 * popcount 16 list) (popcount 16 list) n.regions
    → peek_all (get_sp m.cpu - 4 * popcount 16 list) (popcount 16 list) n.regions
      ≡ peek_all (get_sp m.cpu - 4 * popcount 16 list) (popcount 16 list) (pushed list m).regions
    → (push list >> (body >> pop list)) m
      ≡ some (
        tt,
        record n {
          cpu = set_sp (get_sp m.cpu) (record n.cpu {
            gp = λ r. if ltb r 8 && is_set list r then m.cpu.gp r else n.cpu.gp r;
          });
        },
      )
unfolding pushed
pop-push list body m n low small room mapped runs same words held =
    ap first (push_lem list m low room mapped)
    ∙ (ap second runs
        ∙ (pop_lem list base m.cpu n low
              (same
                ∙ get_sp-set_sp base m.cpu (omega (arith, sp_small m.cpu))
                    (omega (arith, sp_multiple m.cpu, room)))
              (omega (arith, sp_small m.cpu, room)) words
              (held
                ∙ (ap (λ (k : ℕ). peek_all base k stacked) (sym values_count)
                    ∙ peek_all-poke_all base (listed 8 0 list m.cpu) m.regions
                        (subst (λ (k : ℕ). AreWords base k m.regions) (sym values_count) mapped)
                        (listed_small 8 0 list m.cpu (omega arith) small)))
            ∙ ap₂
                (λ (v : ℕ) (gp : ℕ → ℕ).
                  some (tt, record n { cpu = set_sp v (record n.cpu { gp = gp }) }))
                {x = base + 4 * popcount 16 list} {y = get_sp m.cpu} (omega (arith, room))
                (fun_ext (λ r.
                  merged_lem 8 0 list m.cpu.gp n.cpu.gp r
                  ∙ low_cut (is_set list r) r (m.cpu.gp r) (n.cpu.gp r)))))
  where
    base : ℕ
    base = get_sp m.cpu - 4 * popcount 16 list

    values_count : length (listed 8 0 list m.cpu) ≡ popcount 16 list
    values_count = length-listed 8 0 list m.cpu ∙ count_lem list low

    stacked : List Mapping
    stacked = poke_all base (listed 8 0 list m.cpu) m.regions

    first : Option (Unit {0} × Machine) → Option (Unit {0} × Machine)
    first r = elim r [ none ↦ none | some (u, k) ↦ (body >> pop list) k ]

    second : Option (Unit {0} × Machine) → Option (Unit {0} × Machine)
    second r = elim r [ none ↦ none | some (u, k) ↦ pop list k ]
