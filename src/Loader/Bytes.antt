-- ===== src/Loader/Bytes.antt =====
-- The bytes of an ELF file in the memory that it is loaded to (micromachine/loader.hpp).
use micromachine.Base.{
  ℕ, ◌+◌, ◌-◌, ◌*◌, ◌^◌, ◌≤◌, ◌<◌, ◌≡◌, ◌⊎◌, refl, ap, arith, ◌∙◌, subst, Bool, true, false, ltb,
  leb, List, [], ◌∷◌, ◌++◌, All, Option, some, if◌then◌else◌, if_true, if_false, Bool-cases, inl,
  inr,
}
use micromachine.Bits.{u32}
use micromachine.Machine.{Mapping, new_mapping, byte, in_range, find_region, read_region, unchecked}
use micromachine.Loader.{
  ElfSegment, ElfFile, Program, allocate_segment, has_progbits, requires_relocation, map_segment,
  load_elf,
}
use micromachine.Loader.Mappings.{IsLoadable, filled, filled_size, mappings_of, sizes_of}
use micromachine.Loader.Loaded.{IsTaken, load_elf_lem}

-- No mapping of the segment has the address.
unfoldable pub IsApart : ℕ → ElfSegment → Type 0
IsApart a s =
    ((a < s.virtual_address) ⊎ (s.virtual_address + s.memory_size ≤ a))
    × ((a < s.physical_address) ⊎ (s.physical_address + s.file_size ≤ a))

find_apart :
    (a host_size start size : ℕ) (host : ℕ → ℕ) (mms : List Mapping)
    → start + size < 2 ^ 32
    → (a < start) ⊎ (start + size ≤ a)
    → find_region a (new_mapping host host_size (u32 start) (u32 size) ∷ mms) ≡ find_region a mms
unfolding find_region in_range new_mapping
find_apart a host_size start size host mms top (inl h) = ground arith
find_apart a host_size start size host mms top (inr h) = ground arith

-- The mappings of a segment, by whether it is relocated.
mapped : Bool → ElfSegment → (ℕ → ℕ) → ℕ → (ℕ → ℕ) → List Mapping
mapped relocated s host count empty =
    if relocated
    then (new_mapping host count (u32 s.physical_address) (u32 s.file_size)
        ∷ new_mapping empty (u32 s.memory_size) (u32 s.virtual_address) (u32 s.memory_size)
        ∷ [])
    else (new_mapping host count (u32 s.virtual_address) (u32 s.memory_size) ∷ [])

map_segment-mapped :
    (fill relocated : Bool) (s : ElfSegment)
    → requires_relocation s ≡ relocated
    → (map_segment fill s (filled fill s)).0
      ≡ mapped relocated s
          (filled fill s).host
          (filled fill s).byte_count
          (allocate_segment fill (u32 s.memory_size)).host
unfolding map_segment mapped
map_segment-mapped fill true s e = ap (λ (p : List Mapping × List ℕ). p.0) (if_true _ _ e)
map_segment-mapped fill false s e = ap (λ (p : List Mapping × List ℕ). p.0) (if_false _ _ e)

find_before :
    (a : ℕ) (relocated : Bool) (s : ElfSegment) (host empty : ℕ → ℕ) (count : ℕ)
    (mms : List Mapping)
    → IsLoadable s
    → IsApart a s
    → find_region a (mapped relocated s host count empty ++ mms) ≡ find_region a mms
unfolding mapped IsLoadable IsApart
find_before a true s host empty count mms (v, p, ms, fs, le, top, ptop) (virt, phys) =
    find_apart a count s.physical_address s.file_size host
      (new_mapping empty (u32 s.memory_size) (u32 s.virtual_address) (u32 s.memory_size) ∷ mms)
      (omega arith) phys
    ∙ find_apart a (u32 s.memory_size) s.virtual_address s.memory_size empty mms top virt
find_before a false s host empty count mms (v, p, ms, fs, le, top, ptop) (virt, phys) =
    find_apart a count s.virtual_address s.memory_size host mms top virt

find_first :
    (a count start size i : ℕ) (host : ℕ → ℕ) (mms : List Mapping)
    → start + size < 2 ^ 32
    → a ≡ start + i
    → i < size
    → size ≤ count
    → unchecked byte a (find_region a (new_mapping host count (u32 start) (u32 size) ∷ mms))
      ≡ some (host i)
unfolding find_region in_range new_mapping unchecked read_region
find_first a count start size i host mms top e lt le =
    ap (unchecked byte a) (if_true _ _ here)
    ∙ (if_true _ _ inside ∙ ap some (read_byte ∙ ap host (omega arith)))
  where
    mm : Mapping
    mm = new_mapping host count (u32 start) (u32 size)

    here : in_range a mm ≡ true
    here = ground arith

    inside : leb (a - mm.start + 1) mm.host_size ≡ true
    inside = ground arith

    read_byte : host (a - mm.start) + 256 * 0 ≡ host (a - mm.start)
    read_byte = omega arith

filled_byte :
    (fill : Bool) (s : ElfSegment) (i : ℕ) → i < s.file_size → (filled fill s).host i ≡ s.bytes i
unfolding filled
filled_byte fill s i h = if_true _ _ (below i s.file_size h)
  where
    below : (a b : ℕ) → a < b → ltb a b ≡ true
    below a b h = ground arith

-- A segment with bytes in the file that is not relocated has one address.
one_address :
    (s : ElfSegment)
    → IsLoadable s
    → 0 < s.file_size
    → requires_relocation s ≡ false
    → s.virtual_address ≡ s.physical_address
unfolding IsLoadable requires_relocation has_progbits
one_address s (v, p, ms, fs, le, top, ptop) some_bytes h = ground arith

find_segment :
    (fill : Bool) (s : ElfSegment) (i : ℕ) (mms : List Mapping)
    → IsLoadable s
    → i < s.file_size
    → unchecked byte
        (s.physical_address + i)
        (find_region (s.physical_address + i) ((map_segment fill s (filled fill s)).0 ++ mms))
      ≡ some (s.bytes i)
unfolding mapped IsLoadable
find_segment fill s i mms (v, p, ms, fs, le, top, ptop) h =
    elim (Bool-cases (requires_relocation s)) [
      | inl on ↦
          ap at_address (map_segment-mapped fill true s on)
          ∙ (find_first (s.physical_address + i) (filled fill s).byte_count s.physical_address
                s.file_size i (filled fill s).host _ (omega arith) refl h
                (omega (arith, filled_size fill s))
              ∙ ap some (filled_byte fill s i h))
      | inr off ↦
          ap at_address (map_segment-mapped fill false s off)
          ∙ (find_first (s.physical_address + i) (filled fill s).byte_count s.virtual_address
                s.memory_size i (filled fill s).host _ (omega arith)
                (omega (arith, one_address s (v, p, ms, fs, le, top, ptop) (omega arith) off))
                (omega arith) (omega (arith, filled_size fill s))
              ∙ ap some (filled_byte fill s i h))
    ]
  where
    at_address : List Mapping → Option ℕ
    at_address l =
        unchecked byte (s.physical_address + i) (find_region (s.physical_address + i) (l ++ mms))

skip_segment :
    (fill : Bool) (a : ℕ) (s : ElfSegment) (mms : List Mapping)
    → IsLoadable s
    → IsApart a s
    → find_region a ((map_segment fill s (filled fill s)).0 ++ mms) ≡ find_region a mms
skip_segment fill a s mms h k =
    ap (λ l. find_region a (l ++ mms)) (map_segment-mapped fill (requires_relocation s) s refl)
    ∙ find_before a (requires_relocation s) s (filled fill s).host
        (allocate_segment fill (u32 s.memory_size)).host (filled fill s).byte_count mms h k

find_after :
    (fill : Bool) (a : ℕ) (before after : List ElfSegment)
    → All IsLoadable (before ++ after)
    → All (IsApart a) before
    → find_region a (mappings_of fill (before ++ after)) ≡ find_region a (mappings_of fill after)
unfolding mappings_of
find_after fill a [] after h k = refl
find_after fill a (s ∷ ss) after (h, hs) (k, ks) =
    skip_segment fill a s (mappings_of fill (ss ++ after)) h k ∙ find_after fill a ss after hs ks

middle-IsLoadable :
    (before after : List ElfSegment) (s : ElfSegment)
    → All IsLoadable (before ++ s ∷ after)
    → IsLoadable s
middle-IsLoadable [] after s h = h.0
middle-IsLoadable (t ∷ ts) after s (h, hs) = middle-IsLoadable ts after s hs

-- After a file is loaded to an empty memory, each byte of a segment's bytes in the file is at its
-- place behind the segment's physical address, where a read finds it, when no earlier segment is
-- mapped at that place. Conditions: the reader takes the file, and each segment is made of whole
-- words at whole addresses, ends below 2 ^ 32 and is not larger in the file than in memory.
pub unchecked-load_elf :
    (file : ElfFile) (before after : List ElfSegment) (s : ElfSegment) (fill : Bool) (i : ℕ)
    → IsTaken file
    → file.segments ≡ before ++ s ∷ after
    → All IsLoadable file.segments
    → i < s.file_size
    → All (IsApart (s.physical_address + i)) before
    → (p : Program) × (mms : List Mapping) × (load_elf (some file) [] fill ≡ some (some p, mms))
      × (unchecked byte (s.physical_address + i) (find_region (s.physical_address + i) mms)
          ≡ some (s.bytes i))
unfolding mappings_of
unchecked-load_elf file before after s fill i taken e h lt apart = (
  record { segment_sizes = sizes_of fill file.segments; entry_point = u32 file.entry },
  mappings_of fill file.segments,
  load_elf_lem file [] fill taken h,
  ap at_address (ap (mappings_of fill) e)
      ∙ (ap (unchecked byte a) (find_after fill a before (s ∷ after) loadable apart)
          ∙ find_segment fill s i (mappings_of fill after)
              (middle-IsLoadable before after s loadable) lt),
)
  where
    a : ℕ
    a = s.physical_address + i

    loadable : All IsLoadable (before ++ s ∷ after)
    loadable = subst (λ ss. All IsLoadable ss) e h

    at_address : List Mapping → Option ℕ
    at_address l = unchecked byte a (find_region a l)
