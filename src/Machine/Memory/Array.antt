-- ===== src/Machine/Memory/Array.antt =====
-- The memory as an array of words (micromachine/memory/memory.hpp).
use micromachine.Base.{
  ℕ, ◌^◌, ◌<◌, ◌≡◌, ◌≢◌, ◌⊎◌, sym, ap, arith, ◌∙◌, subst, true, false, ◌==◌, if◌then◌else◌, if_true,
  if_false, some, Bool-cases, inl, inr,
}
use micromachine.Machine.State.{Machine}
use micromachine.Machine.Memory.{read32, write32}
use micromachine.Machine.Memory.Words.{
  IsWord, peek, poke, write32-poke, read32-peek, IsWord-poke, peek-poke, peek-poke_ne,
}

unequal : (a b : ℕ) → (a == b) ≡ false → a ≢ b
unequal a b ne = ground arith

-- A word of memory after a store to a word: the stored value at the address of the store, and the
-- value of before at every other aligned address. Both accesses succeed and raise nothing; neither
-- address is that of a mapped register, both words are mapped with their bytes allocated, and the
-- value has 32 bits.
pub read32-write32 :
    (a b v : ℕ) (m : Machine)
    → IsWord a m.regions
    → IsWord b m.regions
    → v < 2 ^ 32
    → (m' : Machine) × (w : ℕ) × (write32 a v m ≡ some (true, m'))
      × (read32 b m ≡ some (w, m))
      × (read32 b m' ≡ some (if a == b then v else w, m'))
read32-write32 a b v m wa wb small = (
  record m { regions = poke a v m.regions },
  peek b m.regions,
  write32-poke a v m wa,
  read32-peek b m wb,
  read32-peek b (record m { regions = poke a v m.regions }) (IsWord-poke a v b m.regions wb)
      ∙ ap (λ (x : ℕ). some (x, record m { regions = poke a v m.regions }))
          (value (Bool-cases (a == b))),
)
  where
    value :
        ((a == b) ≡ true) ⊎ ((a == b) ≡ false)
        → peek b (poke a v m.regions) ≡ (if a == b then v else peek b m.regions)
    value (inl e) =
        subst (λ (k : ℕ). peek k (poke a v m.regions) ≡ v) same (peek-poke a v m.regions wa small)
        ∙ sym (if_true v (peek b m.regions) e)
      where
        same : a ≡ b
        same = ground arith
    value (inr ne) =
        peek-poke_ne a v b m.regions wa wb (unequal a b ne) ∙ sym (if_false v (peek b m.regions) ne)
