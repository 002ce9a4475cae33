-- ===== src/Machine/Memory/Nvic.antt =====
-- The set and clear registers of the interrupt controller, as the program writes them
-- (micromachine/nvic.hpp and micromachine/memory/memory.hpp).
use micromachine.Base.{
  ℕ, suc, ◌+◌, ◌^◌, ◌<◌, ◌≡◌, refl, sym, ap, arith, ◌∙◌, Bool, true, not, ◌&&◌, ◌||◌, bit_and,
  bit_or, some,
}
use micromachine.Bits.{bit_of, not32}
use micromachine.Bits.Sets.{bit_of-bit_or, bit_of-bit_and-not32}
use micromachine.RegisterMap.{
  find, hash_from, compute_all_keys_hash, is_not_a_mapped_address, get_register_at,
}
use micromachine.Exceptions.{
  Exceptions, class_of, nvic_based, is_enabled, is_pending, is_enabled_at, is_pending_at,
}
use micromachine.Machine.State.{Machine}
use micromachine.Machine.Devices.{
  MappedRegister, nvic_iser, nvic_icer, nvic_ispr, nvic_icpr, system_control_register_map,
  set_register,
}
use micromachine.Machine.Memory.{word, register_for, write, write_found}

pub external : (line : ℕ) → line < 16 → class_of (16 + line) ≡ nvic_based line
unfolding class_of
external line h =
    ap class_of {x = 16 + line} {y = suc (suc (suc (suc (12 + line))))} (omega arith) ∙ ground arith

is_enabled-line :
    (line : ℕ) (e : Exceptions)
    → line < 16
    → is_enabled (16 + line) e ≡ bit_of line e.enable_statuses
unfolding is_enabled
is_enabled-line line e h = ap (λ c. is_enabled_at c e) (external line h)

is_pending-line :
    (line : ℕ) (e : Exceptions)
    → line < 16
    → is_pending (16 + line) e ≡ bit_of line e.pending_statuses
unfolding is_pending
is_pending-line line e h = ap (λ c. is_pending_at c (16 + line) e) (external line h)

-- The registers that are found at the four addresses.
found :
    (register_for word 0xe000e100 ≡ some nvic_iser)
    × (register_for word 0xe000e180 ≡ some nvic_icer)
    × (register_for word 0xe000e200 ≡ some nvic_ispr)
    × (register_for word 0xe000e280 ≡ some nvic_icpr)
unfolding register_for get_register_at is_not_a_mapped_address compute_all_keys_hash hash_from find
    system_control_register_map
found = (refl, refl, refl, refl)

-- A write of a word that changes the enabled states of the external interrupts, or those that are
-- pending, and nothing else of the machine: what becomes of a line, and of each bit of the word that
-- holds the states.
unfoldable pub WritesEnabled : ℕ → ℕ → ℕ → (Bool → Bool → Bool) → Machine → Type 0
WritesEnabled address v line f m =
    (w : ℕ) × (write word address v m
      ≡ some (true, record m { exceptions = record m.exceptions { enable_statuses = w } }))
    × (is_enabled (16 + line) (record m.exceptions { enable_statuses = w })
        ≡ f (is_enabled (16 + line) m.exceptions) (bit_of line v))
    × ((b : ℕ) → b < 32 → bit_of b w ≡ f (bit_of b m.exceptions.enable_statuses) (bit_of b v))

unfoldable pub WritesPending : ℕ → ℕ → ℕ → (Bool → Bool → Bool) → Machine → Type 0
WritesPending address v line f m =
    (w : ℕ) × (write word address v m
      ≡ some (true, record m { exceptions = record m.exceptions { pending_statuses = w } }))
    × (is_pending (16 + line) (record m.exceptions { pending_statuses = w })
        ≡ f (is_pending (16 + line) m.exceptions) (bit_of line v))
    × ((b : ℕ) → b < 32 → bit_of b w ≡ f (bit_of b m.exceptions.pending_statuses) (bit_of b v))

-- What a bit of a stored word does to the bit of the states.
unfoldable pub sets : Bool → Bool → Bool
sets old stored = old || stored

unfoldable pub clears : Bool → Bool → Bool
clears old stored = old && not stored

written :
    (r : MappedRegister) (address v : ℕ) (m m' : Machine)
    → register_for word address ≡ some r
    → set_register r v m ≡ m'
    → write word address v m ≡ some (true, m')
unfolding write write_found
written r address v m m' f s =
    ap (λ r. write_found r word address v m) f ∙ ap (λ n. some (true, n)) s

module _ (address v line w : ℕ) (m : Machine) (f : Bool → Bool → Bool) (h : line < 16) where
  pub enabled_written :
      write word address v m
        ≡ some (true, record m { exceptions = record m.exceptions { enable_statuses = w } })
      → ((b : ℕ) → b < 32 → bit_of b w ≡ f (bit_of b m.exceptions.enable_statuses) (bit_of b v))
      → WritesEnabled address v line f m
  unfolding WritesEnabled
  enabled_written stored bits = (
    w,
    stored,
    is_enabled-line line (record m.exceptions { enable_statuses = w }) h
        ∙ (bits line (omega arith)
            ∙ ap (λ p. f p (bit_of line v)) (sym (is_enabled-line line m.exceptions h))),
    bits,
  )

  pub pending_written :
      write word address v m
        ≡ some (true, record m { exceptions = record m.exceptions { pending_statuses = w } })
      → ((b : ℕ) → b < 32 → bit_of b w ≡ f (bit_of b m.exceptions.pending_statuses) (bit_of b v))
      → WritesPending address v line f m
  unfolding WritesPending
  pending_written stored bits = (
    w,
    stored,
    is_pending-line line (record m.exceptions { pending_statuses = w }) h
        ∙ (bits line (omega arith)
            ∙ ap (λ p. f p (bit_of line v)) (sym (is_pending-line line m.exceptions h))),
    bits,
  )

-- A store to NVIC_ISER enables the external interrupts whose bits are set and leaves the others,
-- one to NVIC_ICER disables them, and stores to NVIC_ISPR and NVIC_ICPR make them pending and not
-- pending in the same way. Each changes the one word that holds these states, bit by bit, and
-- nothing else of the machine. The stored value is a word of 32 bits.
pub write_nvic_lem :
    (line v : ℕ) (m : Machine)
    → line < 16
    → v < 2 ^ 32
    → WritesEnabled 0xe000e100 v line sets m
      × WritesEnabled 0xe000e180 v line clears m
      × WritesPending 0xe000e200 v line sets m
      × WritesPending 0xe000e280 v line clears m
unfolding set_register sets clears
write_nvic_lem line v m h small = (
  enabled_written 0xe000e100 v line (bit_or en v) m sets h
      (written nvic_iser 0xe000e100 v m _ found.0 refl) (λ b hb. bit_of-bit_or b en v hb),
  enabled_written 0xe000e180 v line (bit_and en (not32 v)) m clears h
      (written nvic_icer 0xe000e180 v m _ found.1 refl)
      (λ b hb. bit_of-bit_and-not32 b en v hb small),
  pending_written 0xe000e200 v line (bit_or pe v) m sets h
      (written nvic_ispr 0xe000e200 v m _ found.2 refl) (λ b hb. bit_of-bit_or b pe v hb),
  pending_written 0xe000e280 v line (bit_and pe (not32 v)) m clears h
      (written nvic_icpr 0xe000e280 v m _ found.3 refl)
      (λ b hb. bit_of-bit_and-not32 b pe v hb small),
)
  where
    en : ℕ
    en = m.exceptions.enable_statuses

    pe : ℕ
    pe = m.exceptions.pending_statuses
