-- ===== src/Execution/Frame.antt =====
-- The frame that micromachine/execution/context_switcher.hpp pushes for an exception.
use micromachine.Base.{
  ℕ, ◌+◌, ◌-◌, ◌*◌, ◌^◌, ◌≤◌, ◌≡◌, refl, ap, arith, ◌∙◌, bit_and, not, List, [], ◌∷◌, Option, none,
  some, length, if◌then◌else◌,
}
use micromachine.Bits.{u32, extract, bit_of, set_bit_of}
use micromachine.Registers.{
  Cpu, get_reg, set_reg, get_sp, set_sp, set_pc, is_in_handler_mode, sp_sel,
}
use micromachine.Machine.{Machine, Mapping, M, pure, on_cpu, ◌>>=◌, ◌>>◌, write32, read32}
use micromachine.Machine.Memory.Words.{IsWord, peek, poke, write32-poke, read32-peek}
use micromachine.Machine.Memory.Blocks.{poke_all, AreWords, AreWords-poke}
use micromachine.Execution.Context.{push_stack, pop_stack, drop_frame, restore_status}

abbrev pub frame_of : ℕ → ℕ
frame_of sp = bit_and (u32 (sp + (2 ^ 32 - 32))) 0xfffffffb

-- The words of a frame, from the registers after the stack pointer is moved from `sp`.
abbrev pub frame_words : ℕ → ℕ → Cpu → List ℕ
frame_words return_address sp c =
    get_reg 0 c
    ∷ get_reg 1 c
    ∷ get_reg 2 c
    ∷ get_reg 3 c
    ∷ get_reg 12 c
    ∷ c.lr
    ∷ return_address
    ∷ set_bit_of 9 c.xpsr (bit_of 2 sp)
    ∷ []

-- EXC_RETURN
abbrev pub exc_return_of : Cpu → ℕ
exc_return_of c =
    if is_in_handler_mode c.mode
    then 0xfffffff1
    else if not (sp_sel c)
    then 0xfffffff9
    else 0xfffffffd

-- Stores of a list of words and loads into the registers, from an offset of a frame on.
store_list : ℕ → ℕ → List ℕ → M Unit → M Unit
store_list f o [] k = k
store_list f o (v ∷ vs) k = write32 (u32 (f + o)) v >>= λ _. store_list f (o + 4) vs k

load_list : ℕ → ℕ → List (ℕ → Cpu → Cpu) → M Unit
load_list f o [] = pure tt
load_list f o (g ∷ gs) = read32 (u32 (f + o)) >>= λ v. on_cpu (g v) >> load_list f (o + 4) gs

unfoldable pub load_all : ℕ → List (ℕ → Cpu → Cpu) → List Mapping → Cpu → Cpu
load_all a [] mms c = c
load_all a (g ∷ gs) mms c = load_all (a + 4) gs mms (g (peek a mms) c)

pub store_step :
    (a b v : ℕ) (k : M Unit) (m : Machine)
    → a ≡ b
    → IsWord b m.regions
    → (write32 a v >>= λ _. k) m ≡ k (record m { regions = poke b v m.regions })
store_step a b v k m e w =
    ap (λ (x : ℕ). (write32 x v >>= λ _. k) m) e
    ∙ ap (λ r. elim r as (λ x. Option (Unit {0} × Machine)) [ none ↦ none | some (ok, n) ↦ k n ])
        (write32-poke b v m w)

pub load_from :
    {A : Type 0} (a b : ℕ) (k : ℕ → M A) (m : Machine)
    → a ≡ b
    → IsWord b m.regions
    → (read32 a >>= k) m ≡ k (peek b m.regions) m
load_from {A} a b k m e w =
    ap (λ (x : ℕ). (read32 x >>= k) m) e
    ∙ ap (λ r. elim r as (λ x. Option (A × Machine)) [ none ↦ none | some (v, n) ↦ k v n ])
        (read32-peek b m w)

store_list_lem :
    (f o b : ℕ) (vs : List ℕ) (k : M Unit) (m : Machine)
    → b ≡ f + o
    → b + 4 * length vs ≤ 2 ^ 32
    → AreWords b (length vs) m.regions
    → store_list f o vs k m ≡ k (record m { regions = poke_all b vs m.regions })
unfolding store_list poke_all AreWords
store_list_lem f o b [] k m e fits w = refl
store_list_lem f o b (v ∷ vs) k m e fits w =
    store_step (u32 (f + o)) b v (store_list f (o + 4) vs k) m (omega arith) w.0
    ∙ store_list_lem f (o + 4) (b + 4) vs k (record m { regions = poke b v m.regions })
        (omega arith) (omega arith) (AreWords-poke b v (b + 4) (length vs) m.regions w.1)

load_list_lem :
    (f o b : ℕ) (gs : List (ℕ → Cpu → Cpu)) (m : Machine)
    → b ≡ f + o
    → b + 4 * length gs ≤ 2 ^ 32
    → AreWords b (length gs) m.regions
    → load_list f o gs m ≡ some (tt, record m { cpu = load_all b gs m.regions m.cpu })
unfolding load_list load_all AreWords
load_list_lem f o b [] m e fits w = refl
load_list_lem f o b (g ∷ gs) m e fits w =
    load_from (u32 (f + o)) b (λ v. on_cpu (g v) >> load_list f (o + 4) gs) m (omega arith) w.0
    ∙ load_list_lem f (o + 4) (b + 4) gs (record m { cpu = g (peek b m.regions) m.cpu })
        (omega arith) (omega arith) w.1

-- The stores of a frame are the stores of consecutive words.
pub push_stack_lem :
    (return_address : ℕ) (m : Machine)
    → let f = frame_of (get_sp m.cpu) in
      let c = set_sp f m.cpu in
      f + 32 ≤ 2 ^ 32
      → AreWords f 8 m.regions
      → push_stack return_address m
        ≡ some (
          tt,
          record m {
            cpu = record c { lr = exc_return_of c };
            regions = poke_all f (frame_words return_address (get_sp m.cpu) c) m.regions;
          },
        )
unfolding push_stack AreWords poke_all store_list
push_stack_lem return_address m fits w =
    store_step f f (get_reg 0 c) (store_list f 4 others last) (record m { cpu = c }) refl w.0
    ∙ store_list_lem f 4 (f + 4) others last
        (record m { cpu = c; regions = poke f (get_reg 0 c) m.regions }) refl (omega arith)
        (AreWords-poke f (get_reg 0 c) (f + 4) 7 m.regions w.1)
  where
    f : ℕ
    f = frame_of (get_sp m.cpu)

    c : Cpu
    c = set_sp f m.cpu

    others : List ℕ
    others =
        get_reg 1 c
        ∷ get_reg 2 c
        ∷ get_reg 3 c
        ∷ get_reg 12 c
        ∷ c.lr
        ∷ return_address
        ∷ set_bit_of 9 c.xpsr (bit_of 2 (get_sp m.cpu))
        ∷ []

    last : M Unit
    last n = some (tt, record n { cpu = record n.cpu { lr = exc_return_of n.cpu } })

-- What a frame's words are loaded into.
abbrev pub frame_loads : ℕ → List (ℕ → Cpu → Cpu)
frame_loads return_address =
    set_reg 0
    ∷ set_reg 1
    ∷ set_reg 2
    ∷ set_reg 3
    ∷ set_reg 12
    ∷ (λ v c. record c { lr = v })
    ∷ set_pc
    ∷ (λ v c.
        restore_status v (drop_frame (extract 32 0 4 return_address) (extract 32 9 1 v * 4) c))
    ∷ []

pub pop_stack_lem :
    (f return_address : ℕ) (m : Machine)
    → f + 32 ≤ 2 ^ 32
    → AreWords f 8 m.regions
    → pop_stack f return_address m
      ≡ some (tt, record m { cpu = load_all f (frame_loads return_address) m.regions m.cpu })
unfolding pop_stack AreWords load_all load_list
pop_stack_lem f return_address m fits w =
    load_from f f first m refl w.0
    ∙ load_list_lem f 4 (f + 4) rest (record m { cpu = set_reg 0 (peek f m.regions) m.cpu }) refl
        (omega arith) w.1
  where
    rest : List (ℕ → Cpu → Cpu)
    rest =
        set_reg 1
        ∷ set_reg 2
        ∷ set_reg 3
        ∷ set_reg 12
        ∷ (λ v c. record c { lr = v })
        ∷ set_pc
        ∷ (λ v c.
            restore_status v (drop_frame (extract 32 0 4 return_address) (extract 32 9 1 v * 4) c))
        ∷ []

    first : ℕ → M Unit
    first v = on_cpu (set_reg 0 v) >> load_list f 4 rest
