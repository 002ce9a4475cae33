-- ===== src/Exceptions/Unrolled.antt =====
-- The unrolled selection of micromachine/exception/exception_vector.hpp and the loop that it
-- replaces.
mod Rounds
use micromachine.Base.{
  ℕ, ◌≤◌, ◌≡◌, ◌⊎◌, inl, inr, refl, sym, ap, ap₂, arith, ◌∙◌, subst, Bool, true, false, ◌&&◌, ◌||◌,
  not, ltb, ◌==◌, if◌then◌else◌, Bool-cases, if_true, if_false, All, List, [], ◌∷◌, Option, none,
  some, ℤ, ltbℤ, eqbℤ,
}
use micromachine.Exceptions.State.{Exceptions, kind, priority, is_pending, is_enabled, ex_invalid}
use micromachine.Exceptions.Vector.{
  Top, no_top, sort_exception_priority, sort_all, top_pending, external_numbers,
}
use micromachine.Exceptions.Reference.{better, loop_round, top_pending_reference}
use micromachine.Exceptions.Unrolled.Rounds.{Real, loop_all, Same, All-rounds, All-idle, idle}

-- The numbers of the states that no exception is behind.
abbrev pub unimplemented_numbers : List ℕ
unimplemented_numbers = 0 ∷ 4 ∷ 5 ∷ 6 ∷ 7 ∷ 8 ∷ 9 ∷ 10 ∷ 12 ∷ 13 ∷ []

-- The numbers in the loop's order, cut where implemented ones begin and end.
abbrev early : List ℕ
early = 1 ∷ 2 ∷ 3 ∷ []

abbrev gap : List ℕ
gap = 4 ∷ 5 ∷ 6 ∷ 7 ∷ 8 ∷ 9 ∷ 10 ∷ []

abbrev late : List ℕ
late = 14 ∷ 15 ∷ external_numbers

unrolled : Exceptions → Top
unrolled e = sort_all e late (sort_all e (11 ∷ []) (sort_all e early no_top))

looped : Exceptions → Option ℕ
looped e = loop_all e late (loop_all e (11 ∷ []) (loop_all e early none))

looped_lem :
    (e : Exceptions)
    → All (λ n. is_pending n e ≡ false) unimplemented_numbers
    → top_pending_reference e ≡ looped e
unfolding top_pending_reference looped loop_all
looped_lem e (p0, (p4, (p5, (p6, (p7, (p8, (p9, (p10, (p12, (p13, u)))))))))) =
    ap (λ o. loop_all e rest (loop_all e gap (loop_all e early o))) (idle e 0 none p0)
    ∙ (ap (loop_all e rest)
          (All-idle e gap (loop_all e early none) (p4, (p5, (p6, (p7, (p8, (p9, (p10, tt))))))))
        ∙ ap (loop_all e late) (
            All-idle e (12 ∷ 13 ∷ []) (loop_all e (11 ∷ []) (loop_all e early none))
              (p12, (p13, tt))))
  where
    rest : List ℕ
    rest = 11 ∷ 12 ∷ 13 ∷ late

unrolled-Same : (e : Exceptions) → Same e (unrolled e) (looped e)
unfolding unrolled looped Same Real kind
unrolled-Same e =
    All-rounds e late (sort_all e (11 ∷ []) (sort_all e early no_top))
      (loop_all e (11 ∷ []) (loop_all e early none)) (ground arith)
      (All-rounds e (11 ∷ []) (sort_all e early no_top) (loop_all e early none) (ground arith)
        (All-rounds e early no_top none (ground arith) (inl (refl, refl))))

pointer : Top → Option ℕ
pointer top = if top.number == ex_invalid then none else some top.number

pointer-Same : (e : Exceptions) (top : Top) (o : Option ℕ) → Same e top o → pointer top ≡ o
unfolding pointer Same Real
pointer-Same e top o (inl (z, unset)) = if_true none (some top.number) zero_test ∙ sym unset
  where
    zero_test : top.number == ex_invalid ≡ true
    zero_test = ground arith
pointer-Same e top o (inr (real, prio, set)) = if_false none (some top.number) test ∙ sym set
  where
    test : top.number == ex_invalid ≡ false
    test = ground arith

-- The unrolled selection gives what the loop gives, when no state is pending that has no exception
-- behind it.
pub top_pending-top_pending_reference :
    (e : Exceptions)
    → All (λ n. is_pending n e ≡ false) unimplemented_numbers
    → top_pending e ≡ top_pending_reference e
unfolding top_pending pointer unrolled sort_all
top_pending-top_pending_reference e none_pending =
    pointer-Same e (unrolled e) (looped e) (unrolled-Same e) ∙ sym (looped_lem e none_pending)
