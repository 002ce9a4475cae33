-- ===== src/Bits.antt =====
-- Integers of a fixed width: micromachine/helpers/binops.hpp, and the slices of
-- micromachine/types/bits.hpp. A value of a `w`-bit type is a number below 2 ^ w.
pub mod Digits
pub mod Laws
pub mod Slices
pub mod Flags
pub mod Single
pub mod Masks
pub mod Sets
pub mod Joins
pub mod Sign
use micromachine.Base.{ℕ, zero, suc, ◌+◌, ◌-◌, ◌*◌, ◌/◌, ◌%◌, ◌^◌, bit_and, bit_or, Bool, not}
use micromachine.Base.{◌==◌, if◌then◌else◌, of_bool, to_bool, ◌&&◌}

abbrev pub u8 : ℕ → ℕ
u8 n = n % 2 ^ 8

abbrev pub u16 : ℕ → ℕ
u16 n = n % 2 ^ 16

abbrev pub u32 : ℕ → ℕ
u32 n = n % 2 ^ 32

-- `~x` at width `w`.
unfoldable pub complement : ℕ → ℕ → ℕ
complement w x = 2 ^ w - 1 - x

-- `~x` of a `uint32_t`.
abbrev pub not32 : ℕ → ℕ
not32 x = 2 ^ 32 - 1 - x

unfoldable pub rlshift : ℕ → ℕ → ℕ → ℕ → ℕ
rlshift w source right_offset left_offset = source / 2 ^ right_offset * 2 ^ left_offset % 2 ^ w

-- The bit of a source of at most 32 bits, at an offset below its width: the program shifts an `int`.
unfoldable pub get_bit : ℕ → ℕ → Bool
get_bit source bit_offset = to_bool (bit_and source (2 ^ bit_offset))

-- For fewer than 64 bits: the program shifts an `unsigned long long`.
unfoldable pub make_mask : ℕ → ℕ → ℕ
make_mask w num_bits = (2 ^ num_bits - 1) % 2 ^ w

-- `sign`, which extends the sign of the lowest `num_bits` bits, at a width of at most 32 as
-- `get_bit` demands.
unfoldable pub sign : ℕ → ℕ → ℕ → ℕ
unfolding get_bit make_mask complement
sign w source num_bits =
    let sign_bit = get_bit source (num_bits - 1) in
    let kept_part_mask = make_mask w (num_bits - 1) in
    let kept_part = bit_and source kept_part_mask in
    let extension = complement w kept_part_mask * of_bool sign_bit in bit_or kept_part extension

unfoldable pub read_uint : ℕ → ℕ → ℕ → ℕ → ℕ
unfolding make_mask
read_uint w source bit_offset num_bits = bit_and (source / 2 ^ bit_offset) (make_mask w num_bits)

unfoldable pub aligned : ℕ → ℕ → ℕ
aligned align source = source / align * align

unfoldable pub swap32 : ℕ → ℕ
swap32 val =
    bit_or
      (bit_or (bit_or (bit_and val 0x000000ff * 2 ^ 24) (bit_and val 0x0000ff00 * 2 ^ 8))
        (bit_and val 0x00ff0000 / 2 ^ 8))
      (bit_and val 0xff000000 / 2 ^ 24)

-- `slice<offset, len>::extract` of a `w`-bit integer.
unfoldable pub extract : ℕ → ℕ → ℕ → ℕ → ℕ
unfolding make_mask
extract w offset len val = bit_and (val / 2 ^ offset) (make_mask w len)

-- `slice::write_bits`: the destination with `dst_len` bits of `src` put into it.
unfoldable pub write_bits : ℕ → ℕ → ℕ → ℕ → ℕ → ℕ → ℕ
unfolding rlshift make_mask complement
write_bits w dst dst_offset src src_offset dst_len =
    let to_place = rlshift w src src_offset dst_offset in
    let mask = complement w (make_mask w dst_len * 2 ^ dst_offset % 2 ^ w) in
    bit_or (bit_and dst mask) (bit_and to_place (complement w mask))

-- `slice::clear_bits`.
unfoldable pub clear_bits : ℕ → ℕ → ℕ → ℕ → ℕ
unfolding make_mask complement
clear_bits w dst dst_offset dst_len =
    bit_and dst (complement w (make_mask w dst_len * 2 ^ dst_offset % 2 ^ w))

-- A one-bit slice of a `uint32_t` read as `bool`, and assigned a `bool`.
unfoldable pub bit_of : ℕ → ℕ → Bool
unfolding extract
bit_of offset val = to_bool (extract 32 offset 1 val)

unfoldable pub set_bit_of : ℕ → ℕ → Bool → ℕ
unfolding write_bits
set_bit_of offset val flag = write_bits 32 val offset (of_bool flag) 0 1
