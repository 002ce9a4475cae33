-- ===== src/Loader/Mappings.antt =====
-- The mappings that the loader of ELF files makes (micromachine/loader.hpp).
use micromachine.Base.{
  ℕ, ◌+◌, ◌^◌, ◌%◌, ◌≤◌, ◌<◌, ◌≡◌, refl, sym, ap, arith, ◌∙◌, subst, Bool, false, ltb, List, [],
  ◌∷◌, ◌++◌, map, All, Option, none, some, if◌then◌else◌, if_false, Bool-cases, inl, inr, fun_ext,
}
use micromachine.Bits.{u32}
use micromachine.Machine.{Mapping, new_mapping}
use micromachine.Machine.Memory.Shapes.{shape, IsWhole}
use micromachine.Loader.{
  ElfSegment, MemorySegment, allocate_segment, copy_progbits, has_progbits, requires_relocation,
  map_segment, load_segment, load_segments, add_segment,
}

-- A segment of whole words at whole addresses that is not larger in the file than in memory.
unfoldable pub IsLoadable : ElfSegment → Type 0
IsLoadable s =
    (s.virtual_address % 4 ≡ 0)
    × (s.physical_address % 4 ≡ 0)
    × (s.memory_size % 4 ≡ 0)
    × (s.file_size % 4 ≡ 0)
    × (s.file_size ≤ s.memory_size)
    × (s.virtual_address + s.memory_size < 2 ^ 32)
    × (s.physical_address + s.memory_size < 2 ^ 32)

new_mapping-IsWhole :
    (host : ℕ → ℕ) (host_size start size : ℕ)
    → start % 4 ≡ 0
    → size % 4 ≡ 0
    → start + size < 2 ^ 32
    → size ≤ host_size
    → IsWhole (shape (new_mapping host host_size start size))
unfolding IsWhole shape new_mapping
new_mapping-IsWhole host host_size start size a b c d = (a, omega arith, omega arith)

All-append : {A : Type 0} (P : A → Type 0) (xs ys : List A) → All P xs → All P ys → All P (xs ++ ys)
All-append P [] ys h k = k
All-append P (x ∷ xs) ys (h, hs) k = (h, All-append P xs ys hs k)

map-append : {A B : Type 0} (f : A → B) (xs ys : List A) → map f (xs ++ ys) ≡ map f xs ++ map f ys
map-append f [] ys = refl
map-append f (x ∷ xs) ys = ap (λ l. f x ∷ l) (map-append f xs ys)

pub IsWhole-append :
    (xs ys : List Mapping)
    → All IsWhole (map shape xs)
    → All IsWhole (map shape ys)
    → All IsWhole (map shape (xs ++ ys))
IsWhole-append xs ys h k =
    subst (λ l. All IsWhole l) (sym (map-append shape xs ys))
      (All-append IsWhole (map shape xs) (map shape ys) h k)

-- The mappings of a segment whose memory is allocated in full.
map_segment-IsWhole :
    (fill : Bool) (s : ElfSegment) (m : MemorySegment)
    → IsLoadable s
    → m.byte_count ≡ u32 s.memory_size
    → All IsWhole (map shape (map_segment fill s m).0)
unfolding map_segment IsLoadable
map_segment-IsWhole fill s m (v, p, ms, fs, le, top, ptop) e =
    elim (Bool-cases (requires_relocation s)) [
      | inl on ↦
          subst (λ b. All IsWhole (map shape (choice b).0)) (sym on)
            (
              new_mapping-IsWhole m.host m.byte_count (u32 s.physical_address) (u32 s.file_size)
                  (omega arith) (omega arith) (omega arith) (omega arith),
              (
                new_mapping-IsWhole (allocate_segment fill (u32 s.memory_size)).host
                    (u32 s.memory_size) (u32 s.virtual_address) (u32 s.memory_size) (omega arith)
                    (omega arith) (omega arith) (omega arith),
                tt,
              ),
            )
      | inr off ↦
          subst (λ b. All IsWhole (map shape (choice b).0)) (sym off)
            (
              new_mapping-IsWhole m.host m.byte_count (u32 s.virtual_address) (u32 s.memory_size)
                  (omega arith) (omega arith) (omega arith) (omega arith),
              tt,
            )
    ]
  where
    choice : Bool → List Mapping × List ℕ
    choice b =
        if b
        then (
          new_mapping m.host m.byte_count (u32 s.physical_address) (u32 s.file_size)
              ∷ new_mapping (allocate_segment fill (u32 s.memory_size)).host (u32 s.memory_size)
                  (u32 s.virtual_address) (u32 s.memory_size)
              ∷ [],
          u32 s.memory_size ∷ u32 s.memory_size ∷ [],
        )
        else (
          new_mapping m.host m.byte_count (u32 s.virtual_address) (u32 s.memory_size) ∷ [],
          u32 s.memory_size ∷ [],
        )

-- The memory of a segment with the file's bytes.
unfoldable pub filled : Bool → ElfSegment → MemorySegment
filled fill s =
    let m = allocate_segment fill (u32 s.memory_size) in
    record m { host = λ i. if ltb i s.file_size then s.bytes i else m.host i }

copy_progbits_lem :
    (fill : Bool) (s : ElfSegment)
    → s.file_size ≤ u32 s.memory_size
    → copy_progbits s (allocate_segment fill (u32 s.memory_size)) ≡ some (filled fill s)
unfolding copy_progbits filled allocate_segment
copy_progbits_lem fill s le =
    ap (λ b. if b then none else some (filled fill s)) {x = ltb (u32 s.memory_size) s.file_size}
      {y = false} (ground arith)

pub filled_size : (fill : Bool) (s : ElfSegment) → (filled fill s).byte_count ≡ u32 s.memory_size
unfolding filled allocate_segment
filled_size fill s = refl

-- Without bytes in the file nothing is filled in.
unfilled :
    (fill : Bool) (s : ElfSegment)
    → s.file_size ≡ 0
    → allocate_segment fill (u32 s.memory_size) ≡ filled fill s
unfolding filled allocate_segment
unfilled fill s none_left =
    ap (λ host. record (allocate_segment fill (u32 s.memory_size)) { host = host })
      (fun_ext (λ i. sym (if_false _ _ (no_byte i))))
  where
    no_byte : (i : ℕ) → ltb i s.file_size ≡ false
    no_byte i = ground arith

load_segment_lem :
    (fill : Bool) (s : ElfSegment)
    → s.file_size ≤ u32 s.memory_size
    → load_segment fill s ≡ some (map_segment fill s (filled fill s))
unfolding load_segment has_progbits
load_segment_lem fill s le = elim (Bool-cases (has_progbits s)) [
  | inl on ↦ ap choice on ∙ ap (λ o. after o) (copy_progbits_lem fill s le)
  | inr off ↦ ap choice off ∙ ap (λ m. some (map_segment fill s m)) (unfilled fill s (ground arith))
]
  where
    after : Option MemorySegment → Option (List Mapping × List ℕ)
    after o = elim o [ none ↦ none | some m ↦ some (map_segment fill s m) ]

    choice : Bool → Option (List Mapping × List ℕ)
    choice b =
        if b
        then after (copy_progbits s (allocate_segment fill (u32 s.memory_size)))
        else some (map_segment fill s (allocate_segment fill (u32 s.memory_size)))

-- The mappings of the segments, in the order of the file.
unfoldable pub mappings_of : Bool → List ElfSegment → List Mapping
mappings_of fill [] = []
mappings_of fill (s ∷ ss) = (map_segment fill s (filled fill s)).0 ++ mappings_of fill ss

unfoldable pub sizes_of : Bool → List ElfSegment → List ℕ
sizes_of fill [] = []
sizes_of fill (s ∷ ss) = (map_segment fill s (filled fill s)).1 ++ sizes_of fill ss

pub load_segments_lem :
    (fill : Bool) (ss : List ElfSegment)
    → All (λ s. s.file_size ≤ u32 s.memory_size) ss
    → load_segments fill ss ≡ some (mappings_of fill ss, sizes_of fill ss)
unfolding load_segments mappings_of sizes_of add_segment
load_segments_lem fill [] h = refl
load_segments_lem fill (s ∷ ss) (h, hs) =
    ap (λ o. first o (load_segments fill ss)) (load_segment_lem fill s h)
    ∙ ap (add_segment (map_segment fill s (filled fill s))) (load_segments_lem fill ss hs)
  where
    first :
        Option (List Mapping × List ℕ)
        → Option (List Mapping × List ℕ)
        → Option (List Mapping × List ℕ)
    first o rest = elim o [ none ↦ none | some f ↦ add_segment f rest ]

pub mappings_of-IsWhole :
    (fill : Bool) (ss : List ElfSegment)
    → All IsLoadable ss
    → All IsWhole (map shape (mappings_of fill ss))
unfolding mappings_of
mappings_of-IsWhole fill [] h = tt
mappings_of-IsWhole fill (s ∷ ss) (h, hs) =
    IsWhole-append (map_segment fill s (filled fill s)).0 (mappings_of fill ss)
      (map_segment-IsWhole fill s (filled fill s) h (filled_size fill s))
      (mappings_of-IsWhole fill ss hs)
