-- ===== src/RegisterMap/Filter.antt =====
-- The filter on the keys of micromachine/memory/register_map.hpp.
use micromachine.Base.{
  ℕ, zero, suc, ◌/◌, ◌≤◌, bit_and, bit_or, ◌≡◌, inl, inr, refl, sym, ap, arith, ◌∙◌, Bool, true,
  false, not, ◌==◌, if◌then◌else◌, Option, none, some, List, [], ◌∷◌, ==_iff, Bool-cases,
  Option-cases, subst,
}
use micromachine.Bits.Digits.{zero-bit_and, bit_and_step, bit_or_step}
use micromachine.RegisterMap.{
  find, hash_from, compute_all_keys_hash, is_not_a_mapped_address, get_register_at,
}

-- `Within a h`: the bits of `a` are bits of `h`.
abbrev Within : ℕ → ℕ → Type 0
Within a h = bit_and a h ≡ a

or_half : (h k : ℕ) → bit_or h k / 2 ≡ bit_or (h / 2) (k / 2)
or_half h k = omega (arith, bit_or_step h k)

within_left_fuel : (n a h k : ℕ) → a ≤ n → Within a h → Within a (bit_or h k)
within_left_fuel zero a h k le e =
    ap (λ (t : ℕ). bit_and t (bit_or h k)) {x = a} {y = 0} (omega arith)
    ∙ omega (arith, zero-bit_and (bit_or h k))
within_left_fuel (suc n) a h k le e = omega (
  arith,
  bit_and_step a h,
  bit_and_step a (bit_or h k),
  bit_or_step h k,
  ap (bit_and (a / 2)) (or_half h k),
  within_left_fuel n (a / 2) (h / 2) (k / 2) (omega arith) half,
)
  where
    half : Within (a / 2) (h / 2)
    half = omega (arith, bit_and_step a h)

within_right_fuel : (n a h : ℕ) → a ≤ n → Within a (bit_or h a)
within_right_fuel zero a h le =
    ap (λ (t : ℕ). bit_and t (bit_or h a)) {x = a} {y = 0} (omega arith)
    ∙ omega (arith, zero-bit_and (bit_or h a))
within_right_fuel (suc n) a h le = omega (
  arith,
  bit_and_step a (bit_or h a),
  bit_or_step h a,
  ap (bit_and (a / 2)) (or_half h a),
  within_right_fuel n (a / 2) (h / 2) (omega arith),
)

module _ {ℓ} {V : Type ℓ} where
  -- A key that is in the hash, or that an entry has, is in the hash of the map.
  kept : (a h : ℕ) (map : List (ℕ × V)) → Within a h → Within a (hash_from h map)
  unfolding hash_from
  kept a h [] e = e
  kept a h ((key, value) ∷ map) e =
      kept a (bit_or h key) map (within_left_fuel a a h key (omega arith) e)

  found-Within :
      (a h : ℕ) (v : V) (map : List (ℕ × V)) → find a map ≡ some v → Within a (hash_from h map)
  unfolding find hash_from
  found-Within a h v [] e = cc
  found-Within a h v ((key, value) ∷ map) e = elim (Bool-cases (key == a)) [
    | inl same ↦ kept a (bit_or h key) map (
        subst (λ (t : ℕ). Within a (bit_or h t)) (sym ((==_iff key a).0 same))
          (within_right_fuel a a h (omega arith)))
    | inr other ↦
        found-Within a (bit_or h key) v map
          (subst (λ (b : Bool). (if b then some value else find a map) ≡ some v) other e)
  ]

  -- The look-up through the filter is the look-up in the map.
  pub get_register_at_lem :
      (address : ℕ) (map : List (ℕ × V)) → get_register_at address map ≡ find address map
  unfolding get_register_at is_not_a_mapped_address compute_all_keys_hash
  get_register_at_lem address map = elim (Option-cases (find address map)) [
    | inl absent ↦
        none_either (not (bit_and address (hash_from 0 map) == address)) (find address map) absent
    | inr (v, present) ↦
        ap (λ (b : Bool). if not b then none else find address map)
          ((==_iff (bit_and address (hash_from 0 map)) address).1
            (found-Within address 0 v map present))
  ]
    where
      none_either : (b : Bool) (o : Option V) → o ≡ none → (if b then none else o) ≡ o
      none_either true o e = sym e
      none_either false o e = refl
