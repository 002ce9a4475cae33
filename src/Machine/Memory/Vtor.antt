-- ===== src/Machine/Memory/Vtor.antt =====
-- The address of VTOR in the register map of micromachine/mcu.hpp.
use micromachine.Base.{ℕ, ◌≡◌, refl, ap, Bool, true, if◌then◌else◌, some}
use micromachine.Bits.{bit_of}
use micromachine.RegisterMap.{
  find, hash_from, compute_all_keys_hash, is_not_a_mapped_address, get_register_at,
}
use micromachine.Machine.State.{Machine}
use micromachine.Machine.Devices.{set_aircr, set_register, system_control_register_map}
use micromachine.Machine.Memory.{word, register_for, write, write_found}

-- A write of a word with bit 2 to the address of VTOR asks for a reset, as one to AIRCR does.
pub vtor_resets :
    (v : ℕ) (m : Machine)
    → bit_of 2 v ≡ true
    → (write word 0xe000ed08 v m ≡ write word 0xe000ed0c v m)
      × ((m' : Machine) × (write word 0xe000ed08 v m ≡ some (true, m')) × (m'.signals.reset ≡ true))
unfolding write register_for write_found get_register_at find set_aircr set_register
    system_control_register_map is_not_a_mapped_address compute_all_keys_hash hash_from
vtor_resets v m asked = (
  refl,
  (
    set_aircr v m,
    refl,
    ap (λ (b : Bool). (if b then (record m.signals { reset = true }) else m.signals).reset) asked,
  ),
)
