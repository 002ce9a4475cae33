-- ===== src/Exceptions/Round.antt =====
-- What one round of the macro `sort_exception_priority` of
-- micromachine/exception/exception_vector.hpp keeps.
use micromachine.Base.{
  ℕ, ◌≤◌, ◌≡◌, ◌⊎◌, inl, inr, refl, sym, arith, ◌∙◌, subst, true, false, ◌&&◌, ◌||◌, ltb, ◌==◌,
  if◌then◌else◌, Bool-cases, if_true, if_false, ℤ, ltbℤ, eqbℤ, ◌<ℤ◌, ◌≤ℤ◌,
}
use micromachine.Exceptions.State.{Exceptions, priority, is_pending, is_enabled, ex_invalid}
use micromachine.Exceptions.Vector.{Top, sort_exception_priority}

-- An exception that is pending and enabled.
unfoldable pub Candidate : Exceptions → ℕ → Type 0
Candidate e n = is_pending n e && is_enabled n e ≡ true

-- `n` is at least as urgent as `k`: of a lower priority number, or of the same and a lower number.
unfoldable pub Urgent : Exceptions → ℕ → ℕ → Type 0
Urgent e n k = (priority n e <ℤ priority k e) ⊎ ((priority n e ≤ℤ priority k e) × (n ≤ k))

-- The macro on a candidate, with its priority as a number.
Found : ℕ → ℤ → Top → Type 0
Found n p top = (top.number ≡ 0) ⊎ ((p <ℤ top.prio) ⊎ ((p ≤ℤ top.prio) × (n ≤ top.number)))

Stays : ℕ → ℤ → Top → Type 0
Stays n p top = (1 ≤ top.number) × ((top.prio <ℤ p) ⊎ ((top.prio ≤ℤ p) × (top.number ≤ n)))

compared : ℕ → ℤ → Top → Top
compared n p top =
    let found : Top = record { number = n; prio = p } in
    if top.number == ex_invalid || ltbℤ p top.prio
    then found
    else if eqbℤ p top.prio
    then (if ltb n top.number then found else top)
    else top

compared_cases :
    (n : ℕ) (p : ℤ) (top : Top)
    → ((compared n p top ≡ record { number = n; prio = p }) × Found n p top)
      ⊎ ((compared n p top ≡ top) × Stays n p top)
unfolding compared Found Stays
compared_cases n p top = elim (Bool-cases (top.number == ex_invalid || ltbℤ p top.prio)) [
  | inl first ↦ inl (if_true found rest first, ground arith)
  | inr later ↦ elim (Bool-cases (eqbℤ p top.prio)) [
    | inr above ↦ inr (if_false found rest later ∙ if_false tie top above, ground arith)
    | inl same ↦ elim (Bool-cases (ltb n top.number)) [
      | inl lower ↦ inl (
        if_false found rest later ∙ (if_true tie top same ∙ if_true found top lower),
        ground arith,
      )
      | inr higher ↦ inr (
        if_false found rest later ∙ (if_true tie top same ∙ if_false found top higher),
        ground arith,
      )
    ]
  ]
]
  where
    found : Top
    found = record { number = n; prio = p }

    tie : Top
    tie = if ltb n top.number then found else top

    rest : Top
    rest = if eqbℤ p top.prio then tie else top

-- The priority that is kept is that of the number that is kept, and the number is at least as
-- urgent as the candidates gone through; `seen` says which those are.
unfoldable pub Chosen : Exceptions → (ℕ → Type 0) → Top → Type 0
Chosen e seen top =
    ((top.number ≡ 0)
      ⊎ ((top.prio ≡ priority top.number e) × (Candidate e top.number × seen top.number)))
    × ((k : ℕ) → seen k → Candidate e k → (1 ≤ top.number) × Urgent e top.number k)

Urgent-trans : (e : Exceptions) (a b c : ℕ) → Urgent e a b → Urgent e b c → Urgent e a c
unfolding Urgent
Urgent-trans e a b c p q = ground arith

Urgent-refl : (e : Exceptions) (a : ℕ) → Urgent e a a
unfolding Urgent
Urgent-refl e a = inr (omega arith, omega arith)

Found-Urgent :
    (e : Exceptions) (n : ℕ) (top : Top)
    → Found n (priority n e) top
    → 1 ≤ top.number
    → top.prio ≡ priority top.number e
    → Urgent e n top.number
unfolding Found Urgent
Found-Urgent e n top (inl z) some_top same = absurd (omega arith)
Found-Urgent e n top (inr why) some_top same =
    subst (λ (p : ℤ). (priority n e <ℤ p) ⊎ ((priority n e ≤ℤ p) × (n ≤ top.number))) same why

Stays-Urgent :
    (e : Exceptions) (n : ℕ) (top : Top)
    → Stays n (priority n e) top
    → top.prio ≡ priority top.number e
    → Urgent e top.number n
unfolding Stays Urgent
Stays-Urgent e n top (some_top, why) same =
    subst (λ (p : ℤ). (p <ℤ priority n e) ⊎ ((p ≤ℤ priority n e) × (top.number ≤ n))) same why

real_prio :
    (e : Exceptions) (seen : ℕ → Type 0) (top : Top)
    → Chosen e seen top
    → 1 ≤ top.number
    → top.prio ≡ priority top.number e
unfolding Chosen
real_prio e seen top (inl z, best) h = absurd (omega arith)
real_prio e seen top (inr (same, more), best) h = same

later_seen :
    (e : Exceptions) (n : ℕ) (seen : ℕ → Type 0) (top : Top)
    → Chosen e seen top
    → (Candidate e n → (1 ≤ top.number) × Urgent e top.number n)
    → Chosen e (λ k. (k ≡ n) ⊎ seen k) top
unfolding Chosen
later_seen e n seen top (kept, best) new = (
  elim kept [ inl z ↦ inl z | inr (same, (c, s)) ↦ inr (same, (c, inr s)) ],
  λ k m c. elim m [
    | inl k_n ↦
        subst (λ j. (1 ≤ top.number) × Urgent e top.number j) (sym k_n)
          (new (subst (λ j. Candidate e j) k_n c))
    | inr s ↦ best k s c
  ],
)

taken-Chosen :
    (e : Exceptions) (n : ℕ) (seen : ℕ → Type 0) (top : Top)
    → 1 ≤ n
    → Candidate e n
    → Chosen e seen top
    → Found n (priority n e) top
    → Chosen e (λ k. (k ≡ n) ⊎ seen k) (record { number = n; prio = priority n e })
unfolding Chosen
taken-Chosen e n seen top real cand chosen why = (
  inr (refl, (cand, inl refl)),
  λ k m c. elim m [
    | inl k_n ↦ (real, subst (λ j. Urgent e n j) (sym k_n) (Urgent-refl e n))
    | inr s ↦ (
      real,
      Urgent-trans e n top.number k
          (Found-Urgent e n top why (chosen.1 k s c).0
            (real_prio e seen top chosen (chosen.1 k s c).0))
          (chosen.1 k s c).1,
    )
  ],
)

-- One round.
pub round-Chosen :
    (e : Exceptions) (n : ℕ) (seen : ℕ → Type 0) (top : Top)
    → 1 ≤ n
    → Chosen e seen top
    → Chosen e (λ k. (k ≡ n) ⊎ seen k) (sort_exception_priority e n top)
unfolding sort_exception_priority compared Candidate Stays
round-Chosen e n seen top real chosen = elim (Bool-cases (is_pending n e && is_enabled n e)) [
  | inr out ↦
      subst (λ t. Chosen e now t) (sym (if_false (compared n (priority n e) top) top out))
        (later_seen e n seen top chosen (λ c. absurd (clash out c)))
  | inl cand ↦
      subst (λ t. Chosen e now t) (sym (if_true (compared n (priority n e) top) top cand))
        (elim (compared_cases n (priority n e) top) [
          | inl (taken, why) ↦
              subst (λ t. Chosen e now t) (sym taken)
                (taken-Chosen e n seen top real cand chosen why)
          | inr (left, why) ↦
              subst (λ t. Chosen e now t) (sym left)
                (later_seen e n seen top chosen
                  (λ c. (why.0, Stays-Urgent e n top why (real_prio e seen top chosen why.0))))
        ])
]
  where
    now : ℕ → Type 0
    now k = (k ≡ n) ⊎ seen k

    clash : is_pending n e && is_enabled n e ≡ false → is_pending n e && is_enabled n e ≡ true → ⊥
    clash p q = cc
