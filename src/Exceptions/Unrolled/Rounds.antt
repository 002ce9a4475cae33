-- ===== src/Exceptions/Unrolled/Rounds.antt =====
-- One round of the unrolled selection of micromachine/exception/exception_vector.hpp and of the loop
-- that it replaces.
use micromachine.Base.{
  ℕ, ◌≤◌, ◌≡◌, ◌⊎◌, inl, inr, refl, sym, ap, ap₂, arith, ◌∙◌, subst, Bool, true, false, ◌&&◌, ◌||◌,
  not, ltb, ◌==◌, if◌then◌else◌, Bool-cases, if_true, All, List, [], ◌∷◌, Option, none, some, ℤ,
  ltbℤ, eqbℤ,
}
use micromachine.Exceptions.State.{Exceptions, kind, priority, is_pending, is_enabled, ex_invalid}
use micromachine.Exceptions.Vector.{Top, sort_exception_priority, sort_all}
use micromachine.Exceptions.Reference.{better, loop_round}

-- A number that has an exception behind it.
unfoldable pub Real : ℕ → Type 0
Real n = (1 ≤ n) × (kind n ≡ n)

-- The loop over a list of numbers.
unfoldable pub loop_all : Exceptions → List ℕ → Option ℕ → Option ℕ
loop_all e [] o = o
loop_all e (n ∷ ns) o = loop_all e ns (loop_round e n o)

-- The two variables of the unrolled code stand for the pointer of the loop.
unfoldable pub Same : Exceptions → Top → Option ℕ → Type 0
Same e top o =
    ((top.number ≡ 0) × (o ≡ none))
    ⊎ (Real top.number × (top.prio ≡ priority top.number e) × (o ≡ some top.number))

pub idle : (e : Exceptions) (n : ℕ) (o : Option ℕ) → is_pending n e ≡ false → loop_round e n o ≡ o
unfolding loop_round
idle e n o p =
    if_true {b = not (is_pending n e)} o (if not (is_enabled n e) then o else better e n o)
      (ap not p)

-- What both versions do with a state that is pending and enabled: the first value, of `n`, or the
-- second.
choose {ℓ} : {A : Type ℓ} → Bool → Bool → Bool → A → A → A
choose before tie first x y = if before then x else if tie then (if first then x else y) else y

choose-Same :
    (e : Exceptions) (before tie first : Bool) (x y : Top) (o o' : Option ℕ)
    → Same e x o
    → Same e y o'
    → Same e (choose before tie first x y) (choose before tie first o o')
unfolding choose
choose-Same e true tie first x y o o' s s' = s
choose-Same e false true true x y o o' s s' = s
choose-Same e false true false x y o o' s s' = s'
choose-Same e false false first x y o o' s s' = s'

-- The macro, with what it reads as parameters.
macro_chooses :
    (c : Bool) (n k : ℕ) (p q : ℤ) (found top : Top)
    → c ≡ true
    → 1 ≤ k
    → (if c
        then (if k == ex_invalid || ltbℤ p q
            then found
            else if eqbℤ p q
            then (if ltb n k then found else top)
            else top)
        else top)
      ≡ choose (ltbℤ p q) (eqbℤ p q) (ltb n k) found top
unfolding choose
macro_chooses true n k p q found top held real =
    ap
      (λ b.
        if b || ltbℤ p q then found else if eqbℤ p q then (if ltb n k then found else top) else top)
      {x = k == ex_invalid} {y = false} (ground arith)
macro_chooses false n k p q found top held real = absurd (ground arith)

-- The round of the loop, with what it reads as parameters.
round_chooses :
    (a b : Bool) (kn kk n k : ℕ) (p q r : ℤ)
    → a ≡ true
    → b ≡ true
    → kn ≡ n
    → kk ≡ k
    → r ≡ q
    → (if not a
        then some k
        else if not b
        then some k
        else if ltbℤ p q
        then some n
        else if eqbℤ p q
        then (if ltb kn kk then some n else some k)
        else some k)
      ≡ choose (ltbℤ p r) (eqbℤ p r) (ltb n k) (some n) (some k)
unfolding choose
round_chooses true true kn kk n k p q r ha hb hn hk hq = rw hn (rw hk (rw hq refl))
round_chooses false b kn kk n k p q r ha hb hn hk hq = absurd (ground arith)
round_chooses true false kn kk n k p q r ha hb hn hk hq = absurd (ground arith)

-- What the macro finds.
found : Exceptions → ℕ → Top
found e n = record { number = n; prio = priority n e }

macro_skips :
    (e : Exceptions) (n : ℕ) (top : Top)
    → is_pending n e && is_enabled n e ≡ false
    → sort_exception_priority e n top ≡ top
unfolding sort_exception_priority
macro_skips e n top c = ap (λ b. if b then compared else top) c
  where
    new : Top
    new = record { number = n; prio = priority n e }

    compared : Top
    compared =
        if top.number == ex_invalid || ltbℤ (priority n e) top.prio
        then new
        else if eqbℤ (priority n e) top.prio
        then (if ltb n top.number then new else top)
        else top

macro_takes :
    (c l : Bool) (k : ℕ) (new rest top : Top)
    → c ≡ true
    → k ≡ 0
    → (if c then (if k == ex_invalid || l then new else rest) else top) ≡ new
macro_takes true l k new rest top c z =
    ap (λ b. if b || l then new else rest) {x = k == ex_invalid} {y = true} (ground arith)
macro_takes false l k new rest top c z = absurd (ground arith)

macro_first :
    (e : Exceptions) (n : ℕ) (top : Top)
    → is_pending n e && is_enabled n e ≡ true
    → top.number ≡ 0
    → sort_exception_priority e n top ≡ found e n
unfolding sort_exception_priority found
macro_first e n top c z =
    macro_takes (is_pending n e && is_enabled n e) (ltbℤ (priority n e) top.prio) top.number
      (found e n) rest top c z
  where
    rest : Top
    rest =
        if eqbℤ (priority n e) top.prio then (if ltb n top.number then found e n else top) else top

macro_round :
    (e : Exceptions) (n : ℕ) (top : Top)
    → is_pending n e && is_enabled n e ≡ true
    → 1 ≤ top.number
    → sort_exception_priority e n top
      ≡ choose
          (ltbℤ (priority n e) top.prio)
          (eqbℤ (priority n e) top.prio)
          (ltb n top.number)
          (found e n)
          top
unfolding sort_exception_priority found
macro_round e n top c real =
    macro_chooses (is_pending n e && is_enabled n e) n top.number (priority n e) top.prio
      (found e n) top c real

off_skips :
    (a b : Bool) (o o' : Option ℕ) → b ≡ false → (if not a then o else if not b then o else o') ≡ o
off_skips false b o o' q = refl
off_skips true false o o' q = refl
off_skips true true o o' q = absurd (ground arith)

on_takes :
    (a b : Bool) (o o' : Option ℕ)
    → a ≡ true
    → b ≡ true
    → (if not a then o else if not b then o else o') ≡ o'
on_takes true true o o' p q = refl
on_takes false b o o' p q = absurd (ground arith)
on_takes true false o o' p q = absurd (ground arith)

loop_skips : (e : Exceptions) (n : ℕ) (o : Option ℕ) → is_enabled n e ≡ false → loop_round e n o ≡ o
unfolding loop_round
loop_skips e n o q = off_skips (is_pending n e) (is_enabled n e) o (better e n o) q

loop_first :
    (e : Exceptions) (n : ℕ)
    → is_pending n e ≡ true
    → is_enabled n e ≡ true
    → loop_round e n none ≡ some n
unfolding loop_round better
loop_first e n p q = on_takes (is_pending n e) (is_enabled n e) none (some n) p q

loop_chooses :
    (e : Exceptions) (n k : ℕ) (q : ℤ)
    → Real n
    → Real k
    → q ≡ priority k e
    → is_pending n e ≡ true
    → is_enabled n e ≡ true
    → loop_round e n (some k)
      ≡ choose (ltbℤ (priority n e) q) (eqbℤ (priority n e) q) (ltb n k) (some n) (some k)
unfolding loop_round better Real
loop_chooses e n k q real old same p r =
    round_chooses (is_pending n e) (is_enabled n e) (kind n) (kind k) n k (priority n e)
      (priority k e) q p r real.1 old.1 same

moved :
    (e : Exceptions) (t t' : Top) (o o' : Option ℕ) → Same e t' o' → t ≡ t' → o ≡ o' → Same e t o
moved e t t' o o' same p q = subst (λ x. Same e x o) (sym p) (subst (λ y. Same e t' y) (sym q) same)

taken-Same : (e : Exceptions) (n : ℕ) → Real n → Same e (found e n) (some n)
unfolding Same found
taken-Same e n real = inr (real, refl, refl)

-- One round on a state that is pending and enabled.
active_round :
    (e : Exceptions) (n : ℕ) (top : Top) (o : Option ℕ)
    → Real n
    → Same e top o
    → is_pending n e ≡ true
    → is_enabled n e ≡ true
    → Same e (sort_exception_priority e n top) (loop_round e n o)
unfolding Same Real
active_round e n top o real (inl (z, unset)) p q =
    moved e (sort_exception_priority e n top) (found e n) (loop_round e n o) (some n)
      (taken-Same e n real) (macro_first e n top (ap₂ (λ a b. a && b) p q) z)
      (ap (loop_round e n) unset ∙ loop_first e n p q)
active_round e n top o real (inr (old, prio, set)) p q =
    moved e (sort_exception_priority e n top) (choose before tie first (found e n) top)
      (loop_round e n o) (choose before tie first (some n) (some top.number))
      (choose-Same e before tie first (found e n) top (some n) (some top.number)
        (taken-Same e n real) (inr (old, prio, refl)))
      (macro_round e n top (ap₂ (λ a b. a && b) p q) old.0)
      (ap (loop_round e n) set ∙ loop_chooses e n top.number top.prio real old prio p q)
  where
    before : Bool
    before = ltbℤ (priority n e) top.prio

    tie : Bool
    tie = eqbℤ (priority n e) top.prio

    first : Bool
    first = ltb n top.number

one_round :
    (e : Exceptions) (n : ℕ) (top : Top) (o : Option ℕ)
    → Real n
    → Same e top o
    → Same e (sort_exception_priority e n top) (loop_round e n o)
one_round e n top o real same = elim (Bool-cases (is_pending n e)) [
  | inr p ↦
      moved e (sort_exception_priority e n top) top (loop_round e n o) o same
        (macro_skips e n top (ap (λ a. a && is_enabled n e) p)) (idle e n o p)
  | inl p ↦ elim (Bool-cases (is_enabled n e)) [
    | inr q ↦
        moved e (sort_exception_priority e n top) top (loop_round e n o) o same
          (macro_skips e n top (ap₂ (λ a b. a && b) p q)) (loop_skips e n o q)
    | inl q ↦ active_round e n top o real same p q
  ]
]

pub All-rounds :
    (e : Exceptions) (ns : List ℕ) (top : Top) (o : Option ℕ)
    → All Real ns
    → Same e top o
    → Same e (sort_all e ns top) (loop_all e ns o)
unfolding sort_all loop_all
All-rounds e [] top o real same = same
All-rounds e (n ∷ ns) top o real same =
    All-rounds e ns (sort_exception_priority e n top) (loop_round e n o) real.1
      (one_round e n top o real.0 same)

pub All-idle :
    (e : Exceptions) (ns : List ℕ) (o : Option ℕ)
    → All (λ n. is_pending n e ≡ false) ns
    → loop_all e ns o ≡ o
unfolding loop_all
All-idle e [] o p = refl
All-idle e (n ∷ ns) o p = ap (loop_all e ns) (idle e n o p.0) ∙ All-idle e ns o p.1
