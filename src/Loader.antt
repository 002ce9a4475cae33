-- ===== src/Loader.antt =====
-- micromachine/loader.hpp: the segments of an ELF file as mappings of the memory. What the
-- third-party reader of ELF files finds in the file is a parameter.
pub mod Mappings
pub mod Loaded
pub mod Bytes
use micromachine.Base.{
  ℕ, ◌+◌, ◌^◌, ◌%◌, Bool, true, false, not, ◌&&◌, ltb, ◌==◌, List, [], ◌∷◌, ◌++◌, Option, none,
  some, if◌then◌else◌,
}
use micromachine.Bits.{u32}
use micromachine.Machine.{Mapping, new_mapping}

-- What the reader yields for a segment: its addresses, the size in memory, the size in the file and
-- the bytes in the file.
pub record ElfSegment : Type 0 where
  pub virtual_address : ℕ
  pub physical_address : ℕ
  pub memory_size : ℕ
  pub file_size : ℕ
  pub bytes : ℕ → ℕ

-- What the reader yields for a file: whether it reads it, the class and the encoding.
pub record ElfFile : Type 0 where
  pub is_read : Bool
  pub is_32_bit : Bool
  pub is_lsb : Bool
  pub entry : ℕ
  pub segments : List ElfSegment

-- A segment's memory: the bytes, and how many are allocated.
pub record MemorySegment : Type 0 where
  pub host : ℕ → ℕ
  pub byte_count : ℕ

-- The bytes of the segments stand in the mappings that refer to them; the program keeps the sizes. Its path is left out.
pub record Program : Type 0 where
  pub segment_sizes : List ℕ
  pub entry_point : ℕ

unfoldable pub is_null : Program → Bool
is_null p = is_empty p.segment_sizes
  where
    is_empty : List ℕ → Bool
    is_empty [] = true
    is_empty (s ∷ ss) = false

abbrev debug_fill_byte : ℕ
debug_fill_byte = 0xcc

unfoldable pub allocate_segment : Bool → ℕ → MemorySegment
allocate_segment non_zero_fill size = record {
  host = λ i. if non_zero_fill then debug_fill_byte else 0;
  byte_count = size;
}

-- The copy of the file's bytes; one that is longer than the segment is undefined.
unfoldable pub copy_progbits : ElfSegment → MemorySegment → Option MemorySegment
copy_progbits s m =
    if ltb m.byte_count s.file_size
    then none
    else some (record m { host = λ i. if ltb i s.file_size then s.bytes i else m.host i })

unfoldable pub has_progbits : ElfSegment → Bool
has_progbits s = not (u32 s.file_size == 0)

unfoldable pub requires_relocation : ElfSegment → Bool
unfolding has_progbits
requires_relocation s = has_progbits s && not (u32 s.virtual_address == u32 s.physical_address)

-- The mapping or the two mappings of a segment, and the sizes that are allocated for it.
unfoldable pub map_segment : Bool → ElfSegment → MemorySegment → List Mapping × List ℕ
unfolding requires_relocation allocate_segment new_mapping
map_segment fill s m =
    if requires_relocation s
    then (
      new_mapping m.host m.byte_count (u32 s.physical_address) (u32 s.file_size)
          ∷ new_mapping (allocate_segment fill (u32 s.memory_size)).host (u32 s.memory_size)
              (u32 s.virtual_address) (u32 s.memory_size)
          ∷ [],
      u32 s.memory_size ∷ u32 s.memory_size ∷ [],
    )
    else (
      new_mapping m.host m.byte_count (u32 s.virtual_address) (u32 s.memory_size) ∷ [],
      u32 s.memory_size ∷ [],
    )

-- A round of the loop over the segments.
unfoldable pub load_segment : Bool → ElfSegment → Option (List Mapping × List ℕ)
unfolding has_progbits allocate_segment copy_progbits map_segment
load_segment fill s =
    if has_progbits s
    then elim (copy_progbits s (allocate_segment fill (u32 s.memory_size))) [
      | none ↦ none
      | some m ↦ some (map_segment fill s m)
    ]
    else some (map_segment fill s (allocate_segment fill (u32 s.memory_size)))

add_segment :
    List Mapping × List ℕ → Option (List Mapping × List ℕ) → Option (List Mapping × List ℕ)
add_segment first none = none
add_segment first (some rest) = some (first.0 ++ rest.0, first.1 ++ rest.1)

unfoldable pub load_segments : Bool → List ElfSegment → Option (List Mapping × List ℕ)
unfolding load_segment add_segment
load_segments fill [] = some ([], [])
load_segments fill (s ∷ ss) =
    let rest = load_segments fill ss in
    elim (load_segment fill s) [ none ↦ none | some first ↦ add_segment first rest ]

-- The program that is not loaded.
abbrev empty_program : Program
empty_program = record { segment_sizes = []; entry_point = 0 }

-- `load_elf`: the program, which is the null pointer when the file is not opened, and the mappings
-- of the memory.
unfoldable pub load_elf :
    Option ElfFile → List Mapping → Bool → Option (Option Program × List Mapping)
unfolding load_segments
load_elf none regions fill = some (none, regions)
load_elf (some file) regions fill =
    if not file.is_read
    then some (some empty_program, regions)
    else if not file.is_32_bit
    then some (some empty_program, regions)
    else if not file.is_lsb
    then some (some empty_program, regions)
    else elim (load_segments fill file.segments) [
      | none ↦ none
      | some (mappings, sizes) ↦ some (
        some (record { segment_sizes = sizes; entry_point = u32 file.entry }),
        regions ++ mappings,
      )
    ]
