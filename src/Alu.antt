-- ===== src/Alu.antt =====
-- micromachine/execution/alu.hpp: shifts and addition at 32 bits, the only width the program
-- instantiates them at. A shift returns the new value and the carry.
pub mod Add
pub mod SignCopies
pub mod Shift
use micromachine.Base.{
  ℕ, zero, suc, ◌+◌, ◌-◌, ◌*◌, ◌/◌, ◌%◌, ◌^◌, bit_and, bit_or, bit_xor, Bool, true, false, not, xor,
  ◌&&◌, Option, none, some, ltb, leb, ◌==◌, if◌then◌else◌, of_bool, to_bool,
}
use micromachine.Bits.{u32, get_bit, make_mask, extract}

unfoldable pub lsl_c : ℕ → ℕ → Bool → ℕ × Bool
unfolding get_bit
lsl_c value offset carry_in = if offset == 0 then (value, carry_in) else (
  if leb 32 offset then 0 else u32 (value * 2 ^ offset),
  if leb offset 32 then get_bit value (32 - offset) else false,
)

unfoldable pub lsr_c : ℕ → ℕ → Bool → ℕ × Bool
unfolding get_bit
lsr_c value offset carry_in = if offset == 0 then (value, carry_in) else (
  if leb 32 offset then 0 else value / 2 ^ offset,
  if leb offset 32 then get_bit value (offset - 1) else false,
)

unfoldable pub asr_c : ℕ → ℕ → Bool → ℕ × Bool
unfolding get_bit make_mask
asr_c value offset carry_in =
    let msb = get_bit value 31 in
    let carry = if leb 32 offset then msb else get_bit value (offset - 1) in
    let forced = if xor carry_in carry then msb else carry in
    let leftmost_copy = u32 (of_bool msb * u32 (make_mask 32 offset * 2 ^ (32 - offset))) in
    if offset == 0
    then (value, carry_in)
    else if leb 32 offset
    then (u32 (of_bool msb * make_mask 32 32), forced)
    else (bit_or (value / 2 ^ offset) leftmost_copy, carry)

-- A shift of a 32-bit value by 32 or more is undefined in C++: `none`. The first use of
-- `offset` that is undefined is `value >> offset`.
unfoldable pub ror_c : ℕ → ℕ → Bool → Option (ℕ × Bool)
unfolding get_bit extract
ror_c value offset carry_in =
    let offset_lower5bits = extract 32 0 5 offset in
    let msb = get_bit value 31 in
    let carry = if offset_lower5bits == 0 then msb else get_bit value (offset_lower5bits - 1) in
    if offset == 0
    then some (value, carry_in)
    else if leb 32 offset
    then none
    else some (bit_or (value / 2 ^ offset) (u32 (value * 2 ^ (32 - offset))), carry)

-- The result, the carry and the overflow of `add_with_carry`.
pub record Sum : Type 0 where
  pub res : ℕ
  pub carry_out : Bool
  pub overflow_out : Bool

unfoldable pub add_with_carry : ℕ → ℕ → Bool → Sum
unfolding get_bit make_mask
add_with_carry a b carry_in =
    let bigval = a + b + of_bool carry_in in
    let lower32bits = make_mask 32 32 in
    let res = u32 (bit_and bigval lower32bits) in
    record {
      res = res;
      carry_out = to_bool (bit_and (bigval / 2 ^ 32) 1);
      overflow_out = not (get_bit (bit_xor a b) 31) && get_bit (bit_xor a res) 31;
    }
