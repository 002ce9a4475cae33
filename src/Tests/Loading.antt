-- ===== src/Tests/Loading.antt =====
-- An ELF file of two segments.
use micromachine.Base.{◌+◌, ◌%◌, ◌^◌, ◌≡◌, inr, refl, arith, true, List, [], ◌∷◌, All, map, some}
use micromachine.Machine.{Mapping, byte, find_region, unchecked}
use micromachine.Machine.Memory.Shapes.{shape, IsWhole}
use micromachine.Loader.{ElfSegment, ElfFile, Program, load_elf}
use micromachine.Loader.Mappings.{IsLoadable}
use micromachine.Loader.Loaded.{IsTaken, load_elf-IsWhole}
use micromachine.Loader.Bytes.{IsApart, unchecked-load_elf}

abbrev text : ElfSegment
text = record {
  virtual_address = 0;
  physical_address = 0;
  memory_size = 0x200;
  file_size = 0x200;
  bytes = λ i. 1;
}

-- Initialised data, which the start-up code copies to its virtual address.
abbrev data_segment : ElfSegment
data_segment = record {
  virtual_address = 0x20000000;
  physical_address = 0x200;
  memory_size = 0x100;
  file_size = 0x40;
  bytes = λ i. i + 7;
}

abbrev elf_file : ElfFile
elf_file = record {
  is_read = true;
  is_32_bit = true;
  is_lsb = true;
  entry = 0x101;
  segments = text ∷ data_segment ∷ [];
}

elf_file-IsTaken : IsTaken elf_file
unfolding IsTaken
elf_file-IsTaken = (refl, refl, refl)

segments-IsLoadable : All IsLoadable elf_file.segments
unfolding IsLoadable
segments-IsLoadable = (
  (refl, refl, refl, refl, omega arith, omega arith, omega arith),
  ((refl, refl, refl, refl, omega arith, omega arith, omega arith), tt),
)

load_elf-IsWhole_example :
    (p : Program) × (mms : List Mapping) × (load_elf (some elf_file) [] true ≡ some (some p, mms))
    × (p.entry_point ≡ elf_file.entry % 2 ^ 32)
    × All IsWhole (map shape mms)
load_elf-IsWhole_example = load_elf-IsWhole elf_file [] true elf_file-IsTaken segments-IsLoadable tt

text-IsApart : IsApart 0x205 text
unfolding IsApart
text-IsApart = (inr (omega arith), inr (omega arith))

unchecked-load_elf_example :
    (p : Program) × (mms : List Mapping) × (load_elf (some elf_file) [] true ≡ some (some p, mms))
    × (unchecked byte 0x205 (find_region 0x205 mms) ≡ some 12)
unchecked-load_elf_example =
    unchecked-load_elf elf_file (text ∷ []) [] data_segment true 5 elf_file-IsTaken refl
      segments-IsLoadable (omega arith) (text-IsApart, tt)
