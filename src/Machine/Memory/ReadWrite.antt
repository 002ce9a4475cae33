-- ===== src/Machine/Memory/ReadWrite.antt =====
-- What a read finds after a write in memory (micromachine/memory/memory.hpp), and the accesses that
-- fault.
use micromachine.Base.{
  ℕ, ◌+◌, ◌-◌, ◌^◌, ◌≤◌, ◌<◌, ◌≡◌, ◌⊎◌, inl, inr, refl, sym, ap, arith, ◌∙◌, subst, Bool, true,
  false, not, leb, if◌then◌else◌, List, [], ◌∷◌, Option, none, some, Bool-cases, if_true, if_false,
}
use micromachine.Exceptions.{raise, ex_hardfault}
use micromachine.Machine.State.{Machine, Mapping, raise_exception}
use micromachine.Machine.Devices.{MappedRegister}
use micromachine.Machine.Memory.{
  Access, byte, halfword, word, access_size, is_aligned, in_range, find_region, load_bytes,
  store_bytes, read_region, write_region, Stored, stored, no_region, stored_head, stored_tail,
  store_regions, register_for, write, write_found, write_memory, finish_write, read, read_found,
  read_memory, finish_read, fault,
}

-- The numbers of an access.
abbrev pub access_limit : Access → ℕ
access_limit byte = 2 ^ 8
access_limit halfword = 2 ^ 16
access_limit word = 2 ^ 32

-- The bytes that are stored are loaded again.
load-store :
    (a : Access) (host : ℕ → ℕ) (o v : ℕ)
    → v < access_limit a
    → load_bytes (store_bytes host o (access_size a) v) o (access_size a) ≡ v
load-store byte host o v h = ground arith
load-store halfword host o v h = ground arith
load-store word host o v h = ground arith

-- The mapping after a store.
store_in : Access → Mapping → ℕ → ℕ → Mapping
store_in a mm addr v = record mm { host = store_bytes mm.host (addr - mm.start) (access_size a) v }

Fits : Access → Mapping → ℕ → Type 0
Fits a mm addr = addr - mm.start + access_size a ≤ mm.host_size

module _ (a : Access) (addr v : ℕ) where
  writes : (mm : Mapping) → Fits a mm addr → write_region a mm addr v ≡ some (store_in a mm addr v)
  unfolding write_region store_in Fits
  writes mm fits = ground arith

  reads_back :
      (mm : Mapping)
      → Fits a mm addr
      → v < access_limit a
      → read_region a (store_in a mm addr v) addr ≡ some v
  unfolding read_region store_in Fits
  reads_back mm fits small =
      ap
        (λ (b : Bool).
          if b
          then some (
              load_bytes (store_bytes mm.host (addr - mm.start) (access_size a) v) (addr - mm.start)
                (access_size a))
          else none)
        {x = leb (addr - mm.start + access_size a) mm.host_size} {y = true} (ground arith)
      ∙ ap some (load-store a mm.host (addr - mm.start) v small)

  -- The mapping that a store goes to is the one that is found afterwards.
  store_finds :
      (mms : List Mapping) (mm : Mapping)
      → find_region addr mms ≡ some mm
      → Fits a mm addr
      → (mms' : List Mapping) × (store_regions a addr v mms ≡ stored mms')
        × (find_region addr mms' ≡ some (store_in a mm addr v))
  unfolding find_region store_regions store_in Fits
  store_finds [] mm found fits = absurd (none_some mm found)
    where
      none_some : (x : Mapping) → Path (Option Mapping) none (some x) → ⊥
      none_some x e = cc
  store_finds (m ∷ mms) mm found fits =
      let later = λ (e : find_region addr mms ≡ some mm). store_finds mms mm e fits in
      elim (Bool-cases (in_range addr m)) [
        | inl here ↦
            subst
              (λ x.
                (mms' : List Mapping) × (store_regions a addr v (m ∷ mms) ≡ stored mms')
                × (find_region addr mms' ≡ some (store_in a x addr v)))
              (same m mm (sym (if_true (some m) (find_region addr mms) here) ∙ found))
              (
                store_in a m addr v ∷ mms,
                if_true (stored_head (write_region a m addr v) mms)
                      (stored_tail m (store_regions a addr v mms)) here
                    ∙ ap (λ (o : Option Mapping). stored_head o mms)
                        (writes m (
                          subst (λ x. Fits a x addr)
                            (sym (
                              same m mm
                                (sym (if_true (some m) (find_region addr mms) here) ∙ found)))
                            fits)),
                if_true (some (store_in a m addr v)) (find_region addr mms) here,
              )
        | inr there ↦
            let rest = later (sym (if_false (some m) (find_region addr mms) there) ∙ found) in
            (
              m ∷ rest.0,
              if_false (stored_head (write_region a m addr v) mms)
                    (stored_tail m (store_regions a addr v mms)) there
                  ∙ ap (stored_tail m) rest.1,
              if_false (some m) (find_region addr rest.0) there ∙ rest.2,
            )
      ]
    where
      same : (x y : Mapping) → Path (Option Mapping) (some x) (some y) → x ≡ y
      same x y e = cc

  store_misses :
      (mms : List Mapping) → find_region addr mms ≡ none → store_regions a addr v mms ≡ no_region
  unfolding find_region store_regions
  store_misses [] e = refl
  store_misses (m ∷ mms) e =
      let later = λ (e' : find_region addr mms ≡ none). store_misses mms e' in
      elim (Bool-cases (in_range addr m)) [
        | inl here ↦ absurd (some_none m (sym (if_true (some m) (find_region addr mms) here) ∙ e))
        | inr there ↦
            if_false (stored_head (write_region a m addr v) mms)
              (stored_tail m (store_regions a addr v mms)) there
            ∙ ap (stored_tail m) (later (sym (if_false (some m) (find_region addr mms) there) ∙ e))
      ]
    where
      some_none : (x : Mapping) → Path (Option Mapping) (some x) none → ⊥
      some_none x e = cc

-- The machine after an access that faults.
unfoldable pub faulted : Machine → Machine
unfolding raise
faulted m = record m { exceptions = raise ex_hardfault m.exceptions }

module _ (a : Access) (addr v : ℕ) (m : Machine) (plain : register_for a addr ≡ none) where
  to_memory : (write a addr v m ≡ write_memory a addr v m) × (read a addr m ≡ read_memory a addr m)
  unfolding write write_found read read_found
  to_memory = (
    ap (λ (r : Option MappedRegister). write_found r a addr v m) plain,
    ap (λ (r : Option MappedRegister). read_found r a addr m) plain,
  )

  aligned_access :
      is_aligned a addr ≡ true
      → (write a addr v m ≡ finish_write (store_regions a addr v m.regions) m)
        × (read a addr m ≡ finish_read a addr (find_region addr m.regions) m)
  unfolding write_memory read_memory
  aligned_access e = (
    to_memory.0
        ∙ if_false (fault false m) (finish_write (store_regions a addr v m.regions) m) (ap not e),
    to_memory.1
        ∙ if_false (fault (0, false) m) (finish_read a addr (find_region addr m.regions) m)
            (ap not e),
  )

  misaligned_access :
      is_aligned a addr ≡ false
      → (write a addr v m ≡ fault false m) × (read a addr m ≡ fault (0, false) m)
  unfolding write_memory read_memory
  misaligned_access e = (
    to_memory.0
        ∙ if_true (fault false m) (finish_write (store_regions a addr v m.regions) m) (ap not e),
    to_memory.1
        ∙ if_true (fault (0, false) m) (finish_read a addr (find_region addr m.regions) m)
            (ap not e),
  )

-- An access that is no register and is not aligned, or hits no mapping, raises HardFault, and
-- changes and yields nothing else.
pub access_faults :
    (a : Access) (addr v : ℕ) (m : Machine)
    → register_for a addr ≡ none
    → (is_aligned a addr ≡ false) ⊎ (find_region addr m.regions ≡ none)
    → (write a addr v m ≡ some (false, faulted m)) × (read a addr m ≡ some ((0, false), faulted m))
unfolding fault faulted raise_exception finish_write finish_read
access_faults a addr v m plain (inl odd) = misaligned_access a addr v m plain odd
access_faults a addr v m plain (inr unmapped) = elim (Bool-cases (is_aligned a addr)) [
  | inl aligned ↦ (
    (aligned_access a addr v m plain aligned).0
        ∙ ap (λ (r : Stored). finish_write r m) (store_misses a addr v m.regions unmapped),
    (aligned_access a addr v m plain aligned).1
        ∙ ap (λ (r : Option Mapping). finish_read a addr r m) unmapped,
  )
  | inr odd ↦ misaligned_access a addr v m plain odd
]

-- A write to an aligned address of memory, that of no register, changes the memory alone, and what
-- is written is read back, when the mapping's host memory holds it and the value has the size of
-- the access.
pub read-write :
    (a : Access) (addr v : ℕ) (m : Machine) (mm : Mapping)
    → register_for a addr ≡ none
    → is_aligned a addr ≡ true
    → find_region addr m.regions ≡ some mm
    → addr - mm.start + access_size a ≤ mm.host_size
    → v < access_limit a
    → (mms : List Mapping) × (write a addr v m ≡ some (true, record m { regions = mms }))
      × (read a addr (record m { regions = mms }) ≡ some ((v, true), record m { regions = mms }))
unfolding finish_write finish_read Fits
read-write a addr v m mm plain aligned found fits small =
    let s = store_finds a addr v m.regions mm found fits in
    let m' : Machine = record m { regions = s.0 } in
    (
      s.0,
      (aligned_access a addr v m plain aligned).0 ∙ ap (λ (r : Stored). finish_write r m) s.1,
      (aligned_access a addr v m' plain aligned).1
          ∙ (ap (λ (r : Option Mapping). finish_read a addr r m') s.2
              ∙ ap (λ (o : Option ℕ). loaded o m') (reads_back a addr v mm fits small)),
    )
  where
    loaded : Option ℕ → Machine → Option ((ℕ × Bool) × Machine)
    loaded o n = elim o [ none ↦ none | some x ↦ some ((x, true), n) ]
