-- ===== src/Machine/Outcome.antt =====
-- Programs of micromachine/mcu.hpp that are defined on every state of a kind and leave a state of a
-- kind, and how they compose.
use micromachine.Base.{◌≡◌, refl, Bool, true, false, if◌then◌else◌, Option, none, some}
use micromachine.Machine.State.{Machine, M, ◌>>=◌, pure, asks, modify}

-- A run that is defined and ends in a state of the kind.
unfoldable pub Ends : {A : Type 0} → (Machine → Type 0) → Option (A × Machine) → Type 0
Ends Post none = ⊥
Ends Post (some (a, m)) = Post m

unfoldable pub Keeps : {A : Type 0} → (Machine → Type 0) → (Machine → Type 0) → M A → Type 0
unfolding Ends
Keeps I Post x = (m : Machine) → I m → Ends Post (x m)

module _ {A : Type 0} where
  pub Ends-bind :
      {B : Type 0} (Post K : Machine → Type 0) (r : Option (A × Machine)) (f : A → M B)
      → Ends Post r
      → ((a : A) → Keeps Post K (f a))
      → Ends K (elim r [ none ↦ none | some (a, m) ↦ f a m ])
  unfolding Ends Keeps
  Ends-bind Post K none f h k = absurd h
  Ends-bind Post K (some (a, m)) f h k = k a m h

  pub Keeps-bind :
      {B : Type 0} (I Post K : Machine → Type 0) (x : M A) (f : A → M B)
      → Keeps I Post x
      → ((a : A) → Keeps Post K (f a))
      → Keeps I K (x >>= f)
  unfolding Keeps
  Keeps-bind I Post K x f h k m i = Ends-bind Post K (x m) f (h m i) k

  pub Keeps-if :
      (I Post : Machine → Type 0) (b : Bool) (x y : M A)
      → Keeps I Post x
      → Keeps I Post y
      → Keeps I Post (if b then x else y)
  Keeps-if I Post true x y h k = h
  Keeps-if I Post false x y h k = k

  -- The run itself, with its result.
  pub ended :
      (Post : Machine → Type 0) (r : Option (A × Machine))
      → Ends Post r
      → (a : A) × (m : Machine) × (r ≡ some (a, m)) × Post m
  unfolding Ends
  ended Post none h = absurd h
  ended Post (some (a, m)) h = (a, m, refl, h)

  pub Ends-weaken :
      (Post K : Machine → Type 0) (r : Option (A × Machine))
      → ((m : Machine) → Post m → K m)
      → Ends Post r
      → Ends K r
  unfolding Ends
  Ends-weaken Post K none w h = h
  Ends-weaken Post K (some (a, m)) w h = w m h

-- The programs of one step.
module _ (I : Machine → Type 0) where
  pub Keeps-pure : {A : Type 0} (x : A) → Keeps I I (pure x)
  unfolding Keeps Ends
  Keeps-pure x m i = i

  pub Keeps-asks : {A : Type 0} (f : Machine → A) → Keeps I I (asks f)
  unfolding Keeps Ends
  Keeps-asks f m i = i

  pub Keeps-modify :
      (f : Machine → Machine) → ((m : Machine) → I m → I (f m)) → Keeps I I (modify f)
  unfolding Keeps Ends
  Keeps-modify f h m i = h m i
