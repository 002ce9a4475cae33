-- ===== src/Machine/Memory/Shapes.antt =====
-- Stores and loads that stay inside the bytes behind their mapping
-- (micromachine/memory/memory.hpp and mapping.hpp).
use micromachine.Base.{
  ℕ, ◌+◌, ◌-◌, ◌%◌, ◌≤◌, ◌≡◌, refl, sym, ap, arith, subst, Bool, true, false, leb, if◌then◌else◌,
  List, [], ◌∷◌, map, All, Option, none, some, Bool-cases, inl, inr,
}
use micromachine.Bits.Laws.{bit_and-mask}
use micromachine.Machine.State.{Machine, Mapping, raise_exception}
use micromachine.Exceptions.{raise, ex_hardfault}
use micromachine.Machine.Memory.{
  Access, byte, halfword, word, access_size, store_bytes, load_bytes, is_aligned, in_range,
  find_region, read_region, write_region, Stored, no_region, overrun, stored, stored_head,
  stored_tail, store_regions, finish_read, fault,
}
use micromachine.Machine.Outcome.{Ends}

-- The addresses of a mapping and the number of bytes behind it.
unfoldable pub shape : Mapping → ℕ × ℕ × ℕ
shape mm = (mm.start, mm.end, mm.host_size)

-- A mapping of whole words with a byte behind each of its addresses.
unfoldable pub IsWhole : ℕ × ℕ × ℕ → Type 0
IsWhole (start, end, host_size) = (start % 4 ≡ 0) × (end % 4 ≡ 0) × (end ≤ start + host_size)

aligned_lem : (a : Access) (address : ℕ) → is_aligned a address ≡ true → address % access_size a ≡ 0
unfolding is_aligned
aligned_lem byte address h = omega arith
aligned_lem halfword address h = ground (arith, bit_and-mask 1 address)
aligned_lem word address h = ground (arith, bit_and-mask 2 address)

pub fits :
    (a : Access) (address : ℕ) (mm : Mapping)
    → is_aligned a address ≡ true
    → IsWhole (shape mm)
    → in_range address mm ≡ true
    → leb (address - mm.start + access_size a) mm.host_size ≡ true
unfolding IsWhole shape in_range
fits byte address mm al (s, e, room) h = ground arith
fits halfword address mm al (s, e, room) h = ground (arith, aligned_lem halfword address al)
fits word address mm al (s, e, room) h = ground (arith, aligned_lem word address al)

-- The result of a store to a list of mappings.
unfoldable pub KeepsShapes : List (ℕ × ℕ × ℕ) → Stored → Type 0
KeepsShapes shapes no_region = Unit
KeepsShapes shapes overrun = ⊥
KeepsShapes shapes (stored mms) = map shape mms ≡ shapes

stored_head_lem :
    (a : Access) (mm : Mapping) (address val : ℕ) (mms : List Mapping)
    → leb (address - mm.start + access_size a) mm.host_size ≡ true
    → KeepsShapes (map shape (mm ∷ mms)) (stored_head (write_region a mm address val) mms)
unfolding KeepsShapes stored_head write_region shape
stored_head_lem a mm address val mms h =
    subst
      (λ b. KeepsShapes (map shape (mm ∷ mms)) (stored_head (if b then some written else none) mms))
      (sym h) refl
  where
    written : Mapping
    written = record mm { host = store_bytes mm.host (address - mm.start) (access_size a) val }

stored_tail_lem :
    (mm : Mapping) (mms : List Mapping) (s : Stored)
    → KeepsShapes (map shape mms) s
    → KeepsShapes (map shape (mm ∷ mms)) (stored_tail mm s)
unfolding KeepsShapes stored_tail
stored_tail_lem mm mms no_region h = tt
stored_tail_lem mm mms overrun h = h
stored_tail_lem mm mms (stored _) h = ap (λ l. shape mm ∷ l) h

KeepsShapes-if :
    (b : Bool) (shapes : List (ℕ × ℕ × ℕ)) (s t : Stored)
    → (b ≡ true → KeepsShapes shapes s)
    → KeepsShapes shapes t
    → KeepsShapes shapes (if b then s else t)
KeepsShapes-if true shapes s t h k = h refl
KeepsShapes-if false shapes s t h k = k

pub store_regions_lem :
    (a : Access) (address val : ℕ) (mms : List Mapping)
    → is_aligned a address ≡ true
    → All IsWhole (map shape mms)
    → KeepsShapes (map shape mms) (store_regions a address val mms)
unfolding store_regions KeepsShapes
store_regions_lem a address val [] al whole = tt
store_regions_lem a address val (mm ∷ mms) al (w, ws) =
    KeepsShapes-if (in_range address mm) (map shape (mm ∷ mms))
      (stored_head (write_region a mm address val) mms)
      (stored_tail mm (store_regions a address val mms))
      (λ h. stored_head_lem a mm address val mms (fits a address mm al w h))
      (stored_tail_lem mm mms (store_regions a address val mms)
        (store_regions_lem a address val mms al ws))

pub Ends-if :
    {A : Type 0} (b : Bool) (Post : Machine → Type 0) (x y : Option (A × Machine))
    → (b ≡ true → Ends Post x)
    → (b ≡ false → Ends Post y)
    → Ends Post (if b then x else y)
Ends-if true Post x y h k = h refl
Ends-if false Post x y h k = k refl

read_region_lem :
    (a : Access) (address : ℕ) (mm : Mapping) (Post : Machine → Type 0) (m : Machine)
    → is_aligned a address ≡ true
    → IsWhole (shape mm)
    → in_range address mm ≡ true
    → Post m
    → Ends Post (finish_read a address (some mm) m)
unfolding finish_read read_region Ends
read_region_lem a address mm Post m al w h j =
    subst
      (λ b.
        Ends {A = ℕ × Bool} Post
          (elim (if b then some value else none) [ none ↦ none | some v ↦ some ((v, true), m) ]))
      (sym (fits a address mm al w h)) j
  where
    value : ℕ
    value = load_bytes mm.host (address - mm.start) (access_size a)

-- The mapping that is found, if there is one.
pub find_region_lem :
    (a : Access) (address : ℕ) (mms : List Mapping) (Post : Machine → Type 0) (m : Machine)
    → is_aligned a address ≡ true
    → All IsWhole (map shape mms)
    → Post m
    → Post (record m { exceptions = raise ex_hardfault m.exceptions })
    → Ends Post (finish_read a address (find_region address mms) m)
unfolding find_region finish_read fault raise_exception Ends
find_region_lem a address [] Post m al whole j raised = raised
find_region_lem a address (mm ∷ mms) Post m al (w, ws) j raised =
    elim (Bool-cases (in_range address mm)) [
      | inl h ↦
          subst
            (λ b.
              Ends Post (finish_read a address (if b then some mm else find_region address mms) m))
            (sym h) (read_region_lem a address mm Post m al w h j)
      | inr h ↦
          subst
            (λ b.
              Ends Post (finish_read a address (if b then some mm else find_region address mms) m))
            (sym h) (find_region_lem a address mms Post m al ws j raised)
    ]
