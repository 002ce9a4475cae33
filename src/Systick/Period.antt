-- ===== src/Systick/Period.antt =====
-- The period of the system timer of micromachine/systick.hpp.
use native.Mathlib.Nat.{div-one}
use micromachine.Base.{
  subst, ℕ, zero, suc, ◌+◌, ◌^◌, ◌≤◌, ◌<◌, ◌≡◌, refl, sym, ap, ap₂, arith, ◌∙◌, Bool, true, false,
  of_bool,
}
use micromachine.Bits.Laws.{extract_arith, write_bits_arith}
use micromachine.Bits.Flags.{bit_of-set_bit_of_ne, set_bit_of-lt}
use micromachine.Systick.{
  Systick, enabled, get_current, get_reload, set_internal, decrement, set_count_flag, step_systick,
}

-- `n` steps, and how often SYSTICK is raised in them.
unfoldable pub run : ℕ → Systick → Systick × ℕ
unfolding step_systick
run zero s = (s, 0)
run (suc n) s = let r = step_systick s in let rest = run n r.0 in (rest.0, of_bool r.1 + rest.1)

-- A timer that runs, whose counter has the value `v`.
unfoldable pub Counts : ℕ → ℕ → Systick → Type 0
unfolding enabled
Counts reload v s =
    (enabled s ≡ true) × (s.current_value ≡ v) × (s.reload_value ≡ reload) × (s.control < 2 ^ 32)

module _ (reload : ℕ) (fits : reload < 2 ^ 24) (some_reload : 1 ≤ reload) where
  current_of : (s : Systick) → s.current_value < 2 ^ 24 → get_current s ≡ s.current_value
  unfolding get_current
  current_of s h =
      extract_arith 32 0 24 s.current_value (omega arith) ∙ omega (arith, div-one s.current_value)

  reload_of : (s : Systick) → s.reload_value ≡ reload → get_reload s ≡ reload
  unfolding get_reload
  reload_of s e =
      extract_arith 32 0 24 s.reload_value (omega arith) ∙ omega (arith, div-one s.reload_value)

  internal_of :
      (s : Systick) (w : ℕ)
      → s.current_value < 2 ^ 24
      → w < 2 ^ 24
      → (set_internal w s).current_value ≡ w
  unfolding set_internal
  internal_of s w h hw = omega (
    arith,
    write_bits_arith 32 s.current_value 0 w 0 24 (omega arith) (omega arith),
    div-one s.current_value,
    div-one w,
  )

  -- The three ways of a step of a running timer.
  step_loads :
      (s : Systick)
      → enabled s ≡ true
      → get_current s ≡ 0
      → get_reload (set_internal (get_reload s) s) ≡ reload
      → step_systick s ≡ (set_internal (get_reload s) s, false)
  unfolding step_systick
  step_loads s on none_left again = ground arith

  step_counts :
      (s : Systick)
      → enabled s ≡ true
      → 1 ≤ get_current s
      → 1 ≤ get_current (decrement s)
      → step_systick s ≡ (decrement s, false)
  unfolding step_systick
  step_counts s on left left' = ground arith

  step_raises :
      (s : Systick)
      → enabled s ≡ true
      → 1 ≤ get_current s
      → get_current (decrement s) ≡ 0
      → step_systick s ≡ (set_count_flag true (decrement s), true)
  unfolding step_systick
  step_raises s on left none_left = ground arith

  -- At 0 the counter is loaded.
  loads :
      (s : Systick)
      → Counts reload 0 s
      → Counts reload reload (step_systick s).0 × ((step_systick s).1 ≡ false)
  unfolding Counts set_internal
  loads s (on, zero_value, rl, small) =
      subst (λ (r : Systick × Bool). Counts reload reload r.0 × (r.1 ≡ false)) (sym step_eq)
        ((on, value, rl, small), refl)
    where
      value : (set_internal (get_reload s) s).current_value ≡ reload
      value =
          internal_of s (get_reload s) (omega arith) (omega (arith, reload_of s rl))
          ∙ reload_of s rl

      step_eq : step_systick s ≡ (set_internal (get_reload s) s, false)
      step_eq =
          step_loads s on (current_of s (omega arith) ∙ zero_value)
            (reload_of (set_internal (get_reload s) s) rl)

  -- Above 1 it goes down.
  goes_down :
      (v : ℕ) (s : Systick)
      → suc (suc v) ≤ reload
      → Counts reload (suc (suc v)) s
      → Counts reload (suc v) (step_systick s).0 × ((step_systick s).1 ≡ false)
  unfolding Counts decrement
  goes_down v s le (on, value, rl, small) =
      subst (λ (r : Systick × Bool). Counts reload (suc v) r.0 × (r.1 ≡ false)) (sym step_eq)
        ((on, lower, rl, small), refl)
    where
      lower : (decrement s).current_value ≡ suc v
      lower = omega arith

      step_eq : step_systick s ≡ (decrement s, false)
      step_eq =
          step_counts s on (omega (arith, current_of s (omega arith)))
            (omega (arith, lower, current_of (decrement s) (omega (arith, lower))))

  -- At 1 it raises the exception.
  raises :
      (s : Systick)
      → Counts reload 1 s
      → Counts reload 0 (step_systick s).0 × ((step_systick s).1 ≡ true)
  unfolding Counts decrement enabled set_count_flag
  raises s (on, value, rl, small) =
      subst (λ (r : Systick × Bool). Counts reload 0 r.0 × (r.1 ≡ true)) (sym step_eq)
        ((still_on, lower, rl, flag_small), refl)
    where
      lower : (decrement s).current_value ≡ 0
      lower = omega arith

      step_eq : step_systick s ≡ (set_count_flag true (decrement s), true)
      step_eq =
          step_raises s on (omega (arith, current_of s (omega arith)))
            (omega (arith, lower, current_of (decrement s) (omega (arith, lower))))

      still_on : enabled (set_count_flag true (decrement s)) ≡ true
      still_on =
          bit_of-set_bit_of_ne 16 s.control true small (omega arith) 0 (omega arith) (omega arith)
          ∙ on

      flag_small : (set_count_flag true (decrement s)).control < 2 ^ 32
      flag_small = set_bit_of-lt 16 s.control true small (omega arith)

  -- From a value above 0 down to 0, with one exception at the end.
  Counts-down :
      (v : ℕ) (s : Systick)
      → suc v ≤ reload
      → Counts reload (suc v) s
      → Counts reload 0 (run (suc v) s).0 × ((run (suc v) s).1 ≡ 1)
  unfolding run
  Counts-down zero s le c = ((raises s c).0, ap (λ (b : Bool). of_bool b + 0) (raises s c).1)
  Counts-down (suc v) s le c =
      let later = Counts-down v (step_systick s).0 (omega arith) (goes_down v s le c).0 in
      (later.0, ap₂ (λ (t : Bool) (k : ℕ). of_bool t + k) (goes_down v s le c).1 later.1)

  all_down :
      (v : ℕ) (s : Systick)
      → 1 ≤ v
      → v ≤ reload
      → Counts reload v s
      → Counts reload 0 (run v s).0 × ((run v s).1 ≡ 1)
  all_down zero s lo le c = elim lo [ ]
  all_down (suc v) s lo le c = Counts-down v s le c

  -- A running timer whose counter is 0 is back at 0 after reload + 1 steps, and has raised its
  -- exception once, for a reload value of 24 bits that is not 0.
  pub run_period :
      (s : Systick)
      → Counts reload 0 s
      → Counts reload 0 (run (suc reload) s).0 × ((run (suc reload) s).1 ≡ 1)
  unfolding run
  run_period s c =
      let rest = all_down reload (step_systick s).0 some_reload (omega arith) (loads s c).0 in
      (rest.0, ap₂ (λ (t : Bool) (k : ℕ). of_bool t + k) (loads s c).1 rest.1)
