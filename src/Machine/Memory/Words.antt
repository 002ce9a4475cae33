-- ===== src/Machine/Memory/Words.antt =====
-- The words of memory that are no registers (micromachine/memory/memory.hpp): what a load finds in a
-- list of mappings, and the list after a store.
use micromachine.Base.{
  ℕ, ◌+◌, ◌-◌, ◌^◌, ◌%◌, ◌≤◌, ◌<◌, ◌≡◌, ◌≢◌, ◌⊎◌, inl, inr, refl, arith, ◌∙◌, Bool, true, false,
  leb, if◌then◌else◌, List, [], ◌∷◌, none, some, Bool-cases,
}
use micromachine.Bits.Laws.{bit_and-mask}
use micromachine.Machine.State.{Machine, Mapping}
use micromachine.Machine.Memory.{
  word, is_aligned, in_range, find_region, load_bytes, store_bytes, read_region, write_region,
  stored, stored_head, stored_tail, store_regions, register_for, read, write, read32, write32,
  read_found, write_found, read_memory, write_memory, finish_read, finish_write,
}

-- The word at an address of a mapping, and the mapping after a word is stored there.
unfoldable pub word_in : ℕ → Mapping → ℕ
word_in a mm = load_bytes mm.host (a - mm.start) 4

unfoldable pub put_in : ℕ → ℕ → Mapping → Mapping
put_in a v mm = record mm { host = store_bytes mm.host (a - mm.start) 4 v }

-- Whether the host memory of a mapping holds the word.
unfoldable pub room_in : ℕ → Mapping → Bool
room_in a mm = leb (a - mm.start + 4) mm.host_size

-- The same in a list of mappings, of which the first one that has the address counts.
unfoldable pub room : ℕ → List Mapping → Bool
room a [] = false
room a (mm ∷ mms) = if in_range a mm then room_in a mm else room a mms

unfoldable pub peek : ℕ → List Mapping → ℕ
peek a [] = 0
peek a (mm ∷ mms) = if in_range a mm then word_in a mm else peek a mms

unfoldable pub poke : ℕ → ℕ → List Mapping → List Mapping
poke a v [] = []
poke a v (mm ∷ mms) = if in_range a mm then put_in a v mm ∷ mms else mm ∷ poke a v mms

-- A word of memory that can be read and written.
unfoldable pub IsWord : ℕ → List Mapping → Type 0
IsWord a mms = (register_for word a ≡ none) × (is_aligned word a ≡ true) × (room a mms ≡ true)

load_same : (host : ℕ → ℕ) (o v : ℕ) → v < 2 ^ 32 → load_bytes (store_bytes host o 4 v) o 4 ≡ v
load_same host o v h = ground arith

load_apart :
    (host : ℕ → ℕ) (o p v : ℕ)
    → (o + 4 ≤ p) ⊎ (p + 4 ≤ o)
    → load_bytes (store_bytes host o 4 v) p 4 ≡ load_bytes host p 4
load_apart host o p v h = ground arith

aligned-multiple : (a : ℕ) → is_aligned word a ≡ true → a % 4 ≡ 0
unfolding is_aligned
aligned-multiple a h = ground (arith, bit_and-mask 2 a)

module _ (a v : ℕ) where
  in_range-put_in : (b : ℕ) (mm : Mapping) → in_range b (put_in a v mm) ≡ in_range b mm
  unfolding in_range put_in
  in_range-put_in b mm = refl

  room_in-put_in : (b : ℕ) (mm : Mapping) → room_in b (put_in a v mm) ≡ room_in b mm
  unfolding room_in put_in
  room_in-put_in b mm = refl

  word_in-put_in : (mm : Mapping) → v < 2 ^ 32 → word_in a (put_in a v mm) ≡ v
  unfolding word_in put_in
  word_in-put_in mm h = load_same mm.host (a - mm.start) v h

  word_in-put_in_apart :
      (b : ℕ) (mm : Mapping)
      → a % 4 ≡ 0
      → b % 4 ≡ 0
      → a ≢ b
      → in_range a mm ≡ true
      → in_range b mm ≡ true
      → word_in b (put_in a v mm) ≡ word_in b mm
  unfolding word_in put_in in_range
  word_in-put_in_apart b mm ha hb ne ia ib =
      load_apart mm.host (a - mm.start) (b - mm.start) v (grind arith)

  write_region-put_in :
      (mm : Mapping) → room_in a mm ≡ true → write_region word mm a v ≡ some (put_in a v mm)
  unfolding room_in put_in write_region
  write_region-put_in mm h = ground arith

  pub room-poke : (b : ℕ) (mms : List Mapping) → room b (poke a v mms) ≡ room b mms
  unfolding room poke
  room-poke b [] = refl
  room-poke b (mm ∷ mms) =
      ground (arith, in_range-put_in b mm, room_in-put_in b mm, room-poke b mms)

  store-poke :
      (mms : List Mapping) → room a mms ≡ true → store_regions word a v mms ≡ stored (poke a v mms)
  unfolding room poke store_regions stored_head stored_tail
  store-poke [] h = cc
  store-poke (mm ∷ mms) h =
      ground (arith, write_region-put_in mm, store-poke mms, stored_head, stored_tail)

  peek-poke_same : (mms : List Mapping) → room a mms ≡ true → v < 2 ^ 32 → peek a (poke a v mms) ≡ v
  unfolding room poke peek
  peek-poke_same [] h s = cc
  peek-poke_same (mm ∷ mms) h s =
      ground (arith, in_range-put_in a mm, word_in-put_in mm s, peek-poke_same mms)

  peek-poke_apart :
      (b : ℕ) (mms : List Mapping)
      → a % 4 ≡ 0
      → b % 4 ≡ 0
      → a ≢ b
      → peek b (poke a v mms) ≡ peek b mms
  unfolding poke peek
  peek-poke_apart b [] ha hb ne = refl
  peek-poke_apart b (mm ∷ mms) ha hb ne =
      ground
        (arith, in_range-put_in b mm, word_in-put_in_apart b mm, peek-poke_apart b mms ha hb ne)

-- What is read at a word.
read_region-word_in :
    (a : ℕ) (mm : Mapping) → room_in a mm ≡ true → read_region word mm a ≡ some (word_in a mm)
unfolding room_in word_in read_region
read_region-word_in a mm h = ground arith

found :
    (a : ℕ) (mms : List Mapping)
    → room a mms ≡ true
    → (mm : Mapping) × (find_region a mms ≡ some mm) × (read_region word mm a ≡ some (peek a mms))
unfolding room peek find_region
found a [] h = absurd (cc)
found a (mm ∷ mms) h = elim (Bool-cases (in_range a mm)) [
  | inl here ↦ (mm, ground arith, ground (arith, read_region-word_in a mm))
  | inr there ↦ let rest = found a mms (ground arith) in (rest.0, ground arith, ground arith)
]

-- A store to a word, and a load from one.
pub write32-poke :
    (a v : ℕ) (m : Machine)
    → IsWord a m.regions
    → write32 a v m ≡ some (true, record m { regions = poke a v m.regions })
unfolding IsWord write32 write write_found write_memory finish_write
write32-poke a v m (plain, aligned, fits) =
    ground (arith, plain, aligned, store-poke a v m.regions fits)

pub read32-peek :
    (a : ℕ) (m : Machine) → IsWord a m.regions → read32 a m ≡ some (peek a m.regions, m)
unfolding IsWord read32 read read_found read_memory finish_read
read32-peek a m (plain, aligned, fits) =
    let f = found a m.regions fits in ground (arith, plain, aligned, f.1, f.2)

pub read-peek :
    (a : ℕ) (m : Machine) → IsWord a m.regions → read word a m ≡ some ((peek a m.regions, true), m)
unfolding IsWord read read_found read_memory finish_read
read-peek a m (plain, aligned, fits) =
    let f = found a m.regions fits in ground (arith, plain, aligned, f.1, f.2)

pub IsWord-poke : (a v b : ℕ) (mms : List Mapping) → IsWord b mms → IsWord b (poke a v mms)
unfolding IsWord
IsWord-poke a v b mms (plain, aligned, fits) = (plain, aligned, room-poke a v b mms ∙ fits)

pub peek-poke :
    (a v : ℕ) (mms : List Mapping) → IsWord a mms → v < 2 ^ 32 → peek a (poke a v mms) ≡ v
unfolding IsWord
peek-poke a v mms w small = peek-poke_same a v mms w.2 small

pub peek-poke_ne :
    (a v b : ℕ) (mms : List Mapping)
    → IsWord a mms
    → IsWord b mms
    → a ≢ b
    → peek b (poke a v mms) ≡ peek b mms
unfolding IsWord
peek-poke_ne a v b mms wa wb ne =
    peek-poke_apart a v b mms (aligned-multiple a wa.1) (aligned-multiple b wb.1) ne
