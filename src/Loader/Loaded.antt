-- ===== src/Loader/Loaded.antt =====
-- The memory after an ELF file is loaded (micromachine/loader.hpp).
use micromachine.Base.{
  ℕ, ◌^◌, ◌%◌, ◌≤◌, ◌≡◌, refl, ap, arith, ◌∙◌, Bool, true, not, List, [], ◌∷◌, ◌++◌, map, All,
  Option, none, some, if◌then◌else◌, if_false,
}
use micromachine.Bits.{u32}
use micromachine.Machine.{Mapping}
use micromachine.Machine.Memory.Shapes.{shape, IsWhole}
use micromachine.Loader.{ElfSegment, ElfFile, Program, load_segments, load_elf, empty_program}
use micromachine.Loader.Mappings.{
  IsLoadable, IsWhole-append, mappings_of, sizes_of, load_segments_lem, mappings_of-IsWhole,
}

small_segments :
    (ss : List ElfSegment) → All IsLoadable ss → All (λ s. s.file_size ≤ u32 s.memory_size) ss
unfolding IsLoadable
small_segments [] h = tt
small_segments (s ∷ ss) ((v, p, ms, fs, le, top, ptop), hs) = (omega arith, small_segments ss hs)

-- The file is one that the loader takes.
unfoldable pub IsTaken : ElfFile → Type 0
IsTaken file = (file.is_read ≡ true) × (file.is_32_bit ≡ true) × (file.is_lsb ≡ true)

pub load_elf_lem :
    (file : ElfFile) (regions : List Mapping) (fill : Bool)
    → IsTaken file
    → All IsLoadable file.segments
    → load_elf (some file) regions fill
      ≡ some (
        some (record { segment_sizes = sizes_of fill file.segments; entry_point = u32 file.entry }),
        regions ++ mappings_of fill file.segments,
      )
unfolding load_elf IsTaken
load_elf_lem file regions fill (r, c, l) h =
    if_false refused
      (if not file.is_32_bit
        then refused
        else if not file.is_lsb
        then refused
        else loaded (load_segments fill file.segments))
      (ap not r)
    ∙ (if_false refused
          (if not file.is_lsb then refused else loaded (load_segments fill file.segments))
          (ap not c)
        ∙ (if_false refused (loaded (load_segments fill file.segments)) (ap not l)
            ∙ ap loaded (load_segments_lem fill file.segments (small_segments file.segments h))))
  where
    refused : Option (Option Program × List Mapping)
    refused = some (some empty_program, regions)

    loaded : Option (List Mapping × List ℕ) → Option (Option Program × List Mapping)
    loaded o = elim o [
      | none ↦ none
      | some (mappings, sizes) ↦ some (
        some (record { segment_sizes = sizes; entry_point = u32 file.entry }),
        regions ++ mappings,
      )
    ]

-- Loading a file that the reader takes succeeds when each of its segments is made of whole words at
-- whole addresses, ends below 2 ^ 32 and is not larger in the file than in memory. It yields the
-- file's entry point, and when the mappings of before are made of whole words with a byte of host
-- memory behind every address, then so are those after it.
pub load_elf-IsWhole :
    (file : ElfFile) (regions : List Mapping) (fill : Bool)
    → IsTaken file
    → All IsLoadable file.segments
    → All IsWhole (map shape regions)
    → (p : Program) × (mms : List Mapping) × (load_elf (some file) regions fill
        ≡ some (some p, mms))
      × (p.entry_point ≡ file.entry % 2 ^ 32)
      × All IsWhole (map shape mms)
load_elf-IsWhole file regions fill taken h whole = (
  record { segment_sizes = sizes_of fill file.segments; entry_point = u32 file.entry },
  regions ++ mappings_of fill file.segments,
  load_elf_lem file regions fill taken h,
  refl,
  IsWhole-append regions (mappings_of fill file.segments) whole
      (mappings_of-IsWhole fill file.segments h),
)
