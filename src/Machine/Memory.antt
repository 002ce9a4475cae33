-- ===== src/Machine/Memory.antt =====
-- micromachine/memory/memory.hpp: reads and writes of bytes, halfwords and words. The host is
-- little-endian, no two mappings share host memory, and an access of host memory behind the end of
-- an allocation is undefined.
pub mod ReadWrite
pub mod Vtor
pub mod Nvic
pub mod Array
pub mod Levels
pub mod Words
pub mod Blocks
pub mod Shapes
pub mod Sound
use micromachine.Base.{
  ℕ, zero, suc, ◌+◌, ◌-◌, ◌*◌, ◌/◌, ◌%◌, ◌^◌, bit_and, Bool, true, false, ◌&&◌, not, ltb, leb, ◌==◌,
  if◌then◌else◌, List, [], ◌∷◌, ◌++◌, Option, none, some, update,
}
use micromachine.Bits.{u8, u16, u32}
use micromachine.RegisterMap.{get_register_at}
use micromachine.Exceptions.{ex_hardfault}
use micromachine.Machine.State.{
  Machine, Mapping, M, pure, modify, undefined, asks, ◌>>=◌, ◌>>◌, raise_exception,
}
use micromachine.Machine.Devices.{
  MappedRegister, system_control_register_map, set_register, get_register,
}

-- memory_mapping and its constructor.
unfoldable pub new_mapping : (ℕ → ℕ) → ℕ → ℕ → ℕ → Mapping
new_mapping host_mem host_size start_addr size = record {
  start = start_addr;
  end = u32 (start_addr + size);
  host = host_mem;
  host_size = host_size;
}

-- `map`: a new mapping is the last one.
unfoldable pub map_region : Mapping → Machine → Machine
map_region mm m = record m { regions = m.regions ++ mm ∷ [] }

-- The sizes of an access.
pub data Access : Type 0 where
  byte halfword word : Access

abbrev pub access_size : Access → ℕ
access_size byte = 1
access_size halfword = 2
access_size word = 4

unfoldable pub is_aligned : Access → ℕ → Bool
is_aligned a address = 0 == bit_and address (access_size a - 1)

unfoldable pub in_range : ℕ → Mapping → Bool
in_range address mm = leb mm.start address && ltb address mm.end

-- `find_const_region`.
unfoldable pub find_region : ℕ → List Mapping → Option Mapping
unfolding in_range
find_region address [] = none
find_region address (mm ∷ mms) = if in_range address mm then some mm else find_region address mms

-- The little-endian number of `n` bytes.
abbrev pub load_bytes : (ℕ → ℕ) → ℕ → ℕ → ℕ
load_bytes host offset zero = 0
load_bytes host offset (suc n) = host offset + 256 * load_bytes host (offset + 1) n

abbrev pub store_bytes : (ℕ → ℕ) → ℕ → ℕ → ℕ → ℕ → ℕ
store_bytes host offset zero val = host
store_bytes host offset (suc n) val =
    store_bytes (update host offset (u8 val)) (offset + 1) n (val / 256)

-- `read` and `write` of a mapping that holds the address.
unfoldable pub read_region : Access → Mapping → ℕ → Option ℕ
read_region a mm addr =
    if leb (addr - mm.start + access_size a) mm.host_size
    then some (load_bytes mm.host (addr - mm.start) (access_size a))
    else none

unfoldable pub write_region : Access → Mapping → ℕ → ℕ → Option Mapping
write_region a mm addr val =
    if leb (addr - mm.start + access_size a) mm.host_size
    then some (record mm { host = store_bytes mm.host (addr - mm.start) (access_size a) val })
    else none

-- The result of a write to the mapping that `find_region` finds.
pub data Stored : Type 0 where
  no_region : Stored
  overrun : Stored
  stored : List Mapping → Stored

stored_head : Option Mapping → List Mapping → Stored
stored_head none mms = overrun
stored_head (some mm) mms = stored (mm ∷ mms)

stored_tail : Mapping → Stored → Stored
stored_tail mm no_region = no_region
stored_tail mm overrun = overrun
stored_tail mm (stored mms) = stored (mm ∷ mms)

unfoldable pub store_regions : Access → ℕ → ℕ → List Mapping → Stored
unfolding in_range write_region stored_head stored_tail
store_regions a address val [] = no_region
store_regions a address val (mm ∷ mms) =
    let rest = store_regions a address val mms in
    if in_range address mm
    then stored_head (write_region a mm address val) mms
    else stored_tail mm rest

abbrev is_word : Access → Bool
is_word word = true
is_word _ = false

-- A register is looked for only by a 32-bit access.
unfoldable pub register_for : Access → ℕ → Option MappedRegister
unfolding get_register_at system_control_register_map
register_for a address =
    if is_word a then get_register_at address system_control_register_map else none

fault : {A : Type 0} → A → M A
unfolding raise_exception
fault x = do raise_exception ex_hardfault; pure x

finish_write : Stored → M Bool
unfolding fault
finish_write no_region m = fault false m
finish_write overrun m = undefined m
finish_write (stored mms) m = some (true, record m { regions = mms })

write_memory : Access → ℕ → ℕ → M Bool
unfolding is_aligned fault store_regions finish_write
write_memory a address value m =
    if not (is_aligned a address)
    then fault false m
    else finish_write (store_regions a address value m.regions) m

write_found : Option MappedRegister → Access → ℕ → ℕ → M Bool
unfolding write_memory set_register
write_found none a address value m = write_memory a address value m
write_found (some r) a address value m = some (true, set_register r value m)

-- `write<access_t>`; the result is false when a fault was raised.
unfoldable pub write : Access → ℕ → ℕ → M Bool
unfolding register_for write_found
write a address value = write_found (register_for a address) a address value

unfoldable pub finish_read : Access → ℕ → Option Mapping → M (ℕ × Bool)
unfolding fault read_region
finish_read a address none m = fault (0, false) m
finish_read a address (some mm) m = elim (read_region a mm address) [
  | none ↦ none
  | some v ↦ some ((v, true), m)
]

read_memory : Access → ℕ → M (ℕ × Bool)
unfolding is_aligned fault find_region finish_read
read_memory a address m =
    if not (is_aligned a address)
    then fault (0, false) m
    else finish_read a address (find_region address m.regions) m

read_found : Option MappedRegister → Access → ℕ → M (ℕ × Bool)
unfolding read_memory get_register
read_found none a address m = read_memory a address m
read_found (some r) a address m = some (((get_register r m).0, true), (get_register r m).1)

-- `read<access_t>(address, ok)`: the value and `ok`.
unfoldable pub read : Access → ℕ → M (ℕ × Bool)
unfolding register_for read_found
read a address = read_found (register_for a address) a address

-- `read_unchecked`. An address of the host that is not aligned is read like any other, which C++
-- leaves undefined.
unfoldable pub unchecked : Access → ℕ → Option Mapping → Option ℕ
unfolding read_region
unchecked a address none = some 0
unchecked a address (some mm) = read_region a mm address

unfoldable pub read_unchecked : Access → ℕ → Machine → Option ℕ
unfolding find_region unchecked
read_unchecked a address m = unchecked a address (find_region address m.regions)

unfoldable pub read32 : ℕ → M ℕ
unfolding read
read32 address = do r ← read word address; pure r.0

unfoldable pub write32 : ℕ → ℕ → M Bool
unfolding write
write32 address val = write word address val

unfoldable pub write16 : ℕ → ℕ → M Bool
unfolding write
write16 address val = write halfword address (u16 val)

unfoldable pub write8 : ℕ → ℕ → M Bool
unfolding write
write8 address val = write byte address (u8 val)
