-- ===== src/Machine/Memory/Blocks.antt =====
-- Consecutive words of memory.
use micromachine.Base.{
  ℕ, zero, suc, ◌+◌, ◌^◌, ◌<◌, ◌≡◌, refl, ap, arith, ◌∙◌, List, [], ◌∷◌, length, All,
}
use micromachine.Machine.State.{Mapping}
use micromachine.Machine.Memory.Words.{IsWord, peek, poke, IsWord-poke, peek-poke, peek-poke_ne}

-- The mappings after the words are stored from an address on.
unfoldable pub poke_all : ℕ → List ℕ → List Mapping → List Mapping
poke_all a [] mms = mms
poke_all a (v ∷ vs) mms = poke_all (a + 4) vs (poke a v mms)

-- The words that are loaded from an address on.
unfoldable pub peek_all : ℕ → ℕ → List Mapping → List ℕ
peek_all a zero mms = []
peek_all a (suc n) mms = peek a mms ∷ peek_all (a + 4) n mms

unfoldable pub AreWords : ℕ → ℕ → List Mapping → Type 0
AreWords a zero mms = Unit {0}
AreWords a (suc n) mms = IsWord a mms × AreWords (a + 4) n mms

pub AreWords-poke :
    (a v b n : ℕ) (mms : List Mapping) → AreWords b n mms → AreWords b n (poke a v mms)
unfolding AreWords
AreWords-poke a v b zero mms w = w
AreWords-poke a v b (suc n) mms w = (IsWord-poke a v b mms w.0, AreWords-poke a v (b + 4) n mms w.1)

pub AreWords-poke_all :
    (a : ℕ) (vs : List ℕ) (b n : ℕ) (mms : List Mapping)
    → AreWords b n mms
    → AreWords b n (poke_all a vs mms)
unfolding poke_all
AreWords-poke_all a [] b n mms w = w
AreWords-poke_all a (v ∷ vs) b n mms w =
    AreWords-poke_all (a + 4) vs b n (poke a v mms) (AreWords-poke a v b n mms w)

-- A word below is left alone.
pub peek-poke_all :
    (a : ℕ) (vs : List ℕ) (b : ℕ) (mms : List Mapping)
    → IsWord b mms
    → AreWords a (length vs) mms
    → b < a
    → peek b (poke_all a vs mms) ≡ peek b mms
unfolding poke_all AreWords
peek-poke_all a [] b mms wb w below = refl
peek-poke_all a (v ∷ vs) b mms wb w below =
    peek-poke_all (a + 4) vs b (poke a v mms) (IsWord-poke a v b mms wb)
      (AreWords-poke a v (a + 4) (length vs) mms w.1) (omega arith)
    ∙ peek-poke_ne a v b mms w.0 wb (omega arith)

-- What is stored is loaded.
pub peek_all-poke_all :
    (a : ℕ) (vs : List ℕ) (mms : List Mapping)
    → AreWords a (length vs) mms
    → All (λ v. v < 2 ^ 32) vs
    → peek_all a (length vs) (poke_all a vs mms) ≡ vs
unfolding poke_all peek_all AreWords
peek_all-poke_all a [] mms w small = refl
peek_all-poke_all a (v ∷ vs) mms w small =
    ap (λ x. x ∷ peek_all (a + 4) (length vs) (poke_all (a + 4) vs (poke a v mms)))
      (peek-poke_all (a + 4) vs a (poke a v mms) (IsWord-poke a v a mms w.0)
          (AreWords-poke a v (a + 4) (length vs) mms w.1) (omega arith)
        ∙ peek-poke a v mms w.0 small.0)
    ∙ ap (λ x. v ∷ x)
        (peek_all-poke_all (a + 4) vs (poke a v mms) (AreWords-poke a v (a + 4) (length vs) mms w.1)
          small.1)
