-- ===== src/Systick.antt =====
-- The system timer: micromachine/systick.hpp and
-- micromachine/registers/system_control/systick_control_reg.hpp.
pub mod Period
use micromachine.Base.{ℕ, ◌+◌, ◌-◌, ◌^◌, ◌%◌, bit_and, Bool, true, false, ◌==◌, if◌then◌else◌}
use micromachine.Bits.{u32, extract, write_bits, clear_bits, bit_of, set_bit_of}

pub record Systick : Type 0 where
  pub control : ℕ
  pub current_value : ℕ
  pub reload_value : ℕ
  pub calib_value : ℕ

abbrev pub control_mask : ℕ
control_mask = 0x10007

abbrev pub calib_mask : ℕ
calib_mask = 0xc0ffffff

unfoldable pub enabled : Systick → Bool
enabled s = bit_of 0 s.control

unfoldable pub count_flag : Systick → Bool
count_flag s = bit_of 16 s.control

unfoldable pub set_enabled : Bool → Systick → Systick
set_enabled flag s = record s { control = set_bit_of 0 s.control flag }

unfoldable pub set_count_flag : Bool → Systick → Systick
set_count_flag flag s = record s { control = set_bit_of 16 s.control flag }

unfoldable pub set_control : ℕ → Systick → Systick
set_control word s = record s { control = bit_and word control_mask }

unfoldable pub get_control : Systick → ℕ
get_control s = bit_and s.control control_mask

unfoldable pub set_reload : ℕ → Systick → Systick
set_reload word s = record s { reload_value = write_bits 32 s.reload_value 0 word 0 24 }

unfoldable pub get_reload : Systick → ℕ
get_reload s = extract 32 0 24 s.reload_value

unfoldable pub set_internal : ℕ → Systick → Systick
set_internal word s = record s { current_value = write_bits 32 s.current_value 0 word 0 24 }

unfoldable pub decrement : Systick → Systick
decrement s = record s { current_value = u32 (s.current_value + 2 ^ 32 - 1) }

-- A write of any value clears the counter and its flag.
unfoldable pub set_current : ℕ → Systick → Systick
unfolding set_count_flag
set_current word s =
    set_count_flag false (record s { current_value = clear_bits 32 s.current_value 0 24 })

unfoldable pub get_current : Systick → ℕ
get_current s = extract 32 0 24 s.current_value

unfoldable pub set_calib : ℕ → Systick → Systick
set_calib word s = record s { calib_value = bit_and word calib_mask }

unfoldable pub get_calib : Systick → ℕ
get_calib s = bit_and s.calib_value calib_mask

-- `reset`, register after register.
unfoldable pub reset_systick : Systick → Systick
unfolding set_control set_current set_reload set_calib
reset_systick s = set_calib 0 (set_reload 0 (set_current 0 (set_control 0 s)))

-- `step`; the flag says that SYSTICK is raised.
unfoldable pub step_systick : Systick → Systick × Bool
unfolding enabled get_current get_reload set_internal set_enabled decrement set_count_flag
step_systick s =
    let loaded = set_internal (get_reload s) s in
    let counted = decrement s in
    if not_enabled
    then (s, false)
    else if get_current s == 0
    then (if get_reload loaded == 0 then (set_enabled false loaded, false) else (loaded, false))
    else if get_current counted == 0
    then (set_count_flag true counted, true)
    else (counted, false)
  where
    not_enabled : Bool
    not_enabled = if enabled s then false else true
