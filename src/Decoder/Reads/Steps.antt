-- ===== src/Decoder/Reads/Steps.antt =====
-- A chain of tests of micromachine/instruction/instruction_decoder.hpp, gone through in the order
-- of the halfwords that the tests take.
use micromachine.Base.{
  ℕ, ◌<◌, ◌≤◌, ◌≡◌, sym, arith, Bool, true, false, ◌&&◌, ◌||◌, ltb, leb, if◌then◌else◌,
}
use micromachine.Instruction.{Instruction}
use micromachine.Decoder.Encoding.{Encodes, unallocated}

pub choose :
    (t r : Bool) (w x : ℕ) (i j : Instruction)
    → t ≡ r
    → (r ≡ true → Encodes i w x)
    → (r ≡ false → Encodes j w x)
    → Encodes (if t then i else j) w x
choose true r w x i j e p q = p (sym e)
choose false r w x i j e p q = q (sym e)

between : (a b w : ℕ) → leb a w && ltb w b ≡ true → (a ≤ w) × (w < b)
between a b w h = (ground arith, ground arith)

behind : (a b w : ℕ) → a ≤ w → leb a w && ltb w b ≡ false → b ≤ w
behind a b w h k = ground arith

-- The halfword is not below `a`, or stands for nothing.
unfoldable pub From : ℕ → ℕ → Type 0
From a w = leb a w || unallocated w ≡ true

still_behind :
    (a b w : ℕ) (u : Bool) → leb a w || u ≡ true → leb a w && ltb w b ≡ false → leb b w || u ≡ true
still_behind a b w true h k = ground arith
still_behind a b w false h k = ground arith

module _ (t : Bool) (a b w x : ℕ) (i j : Instruction) (e : t ≡ leb a w && ltb w b) where
  -- The test takes the halfwords from `a` to `b`.
  pub takes :
      (a ≤ w → w < b → Encodes i w x)
      → (leb a w && ltb w b ≡ false → Encodes j w x)
      → Encodes (if t then i else j) w x
  takes p q = choose t (leb a w && ltb w b) w x i j e (λ h. let r = between a b w h in p r.0 r.1) q

  pub takes_next :
      a ≤ w
      → (a ≤ w → w < b → Encodes i w x)
      → (b ≤ w → Encodes j w x)
      → Encodes (if t then i else j) w x
  takes_next h p q = takes p (λ k. q (behind a b w h k))

  pub takes_from :
      From a w
      → (a ≤ w → w < b → Encodes i w x)
      → (From b w → Encodes j w x)
      → Encodes (if t then i else j) w x
  unfolding From
  takes_from h p q = takes p (λ k. q (still_behind a b w (unallocated w) h k))
