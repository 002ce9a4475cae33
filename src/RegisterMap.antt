-- ===== src/RegisterMap.antt =====
-- micromachine/memory/register_map.hpp: a map from addresses to registers, with a filter in front
-- of it. The map is a list of its entries; an entry with the address of an earlier one is lost, as
-- in the construction of the program's map.
pub mod Filter
use micromachine.Base.{
  ℕ, bit_and, bit_or, Bool, not, ◌==◌, if◌then◌else◌, Option, none, some, List, [], ◌∷◌,
}

module _ {ℓ} {V : Type ℓ} where
  unfoldable pub find : ℕ → List (ℕ × V) → Option V
  find address [] = none
  find address ((key, value) ∷ map) = if key == address then some value else find address map

  unfoldable pub hash_from : ℕ → List (ℕ × V) → ℕ
  hash_from hash [] = hash
  hash_from hash ((key, value) ∷ map) = hash_from (bit_or hash key) map

  unfoldable pub compute_all_keys_hash : List (ℕ × V) → ℕ
  unfolding hash_from
  compute_all_keys_hash map = hash_from 0 map

  unfoldable pub is_not_a_mapped_address : ℕ → List (ℕ × V) → Bool
  unfolding compute_all_keys_hash
  is_not_a_mapped_address address map = not (bit_and address (compute_all_keys_hash map) == address)

  unfoldable pub get_register_at : ℕ → List (ℕ × V) → Option V
  unfolding is_not_a_mapped_address find
  get_register_at address map =
      if is_not_a_mapped_address address map then none else find address map
