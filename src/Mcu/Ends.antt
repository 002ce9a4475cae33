-- ===== src/Mcu/Ends.antt =====
-- The step of the whole machine is defined (micromachine/mcu.cpp).
use micromachine.Base.{
  ℕ, ◌<◌, ◌≡◌, refl, sym, ap, ◌∙◌, subst, true, false, bit_and, if◌then◌else◌, List, [], ◌∷◌, map,
  All, Option, none, some, Bool-cases, inl, inr, if_true,
}
use micromachine.Registers.{exception_number, get_pc}
use micromachine.Exceptions.{reset_exceptions}
use micromachine.Decoder.{decode}
use micromachine.Machine.{
  Machine, Mapping, pure, modify, on_cpu, word, is_aligned, in_range, find_region, unchecked,
  read_unchecked,
}
use micromachine.Machine.Outcome.{Ends, Keeps, Keeps-bind, Ends-bind, ended}
use micromachine.Machine.Memory.Shapes.{shape, IsWhole, fits, Ends-if}
use micromachine.Machine.Memory.Sound.{Holds}
use micromachine.Execution.Defined.{IsAny, Keeps-IsAny}
use micromachine.Execution.Effects.{HasDefinedShift}
use micromachine.Processor.{fetch, reset_cpu, reset_processor, step_processor}
use micromachine.Processor.Ends.{started, step_processor-Ends}
use micromachine.Mcu.{
  StepResult, ok, reset_to, reset, step_peripherals, after_step, step, reset_registers,
}
use micromachine.Systick.{reset_systick}
use micromachine.Usart.{reset_usart}

-- A word whose address is aligned can be fetched.
fetchable :
    (address : ℕ) (mms : List Mapping)
    → is_aligned word address ≡ true
    → All IsWhole (map shape mms)
    → (w : ℕ) × (unchecked word address (find_region address mms) ≡ some w)
unfolding find_region unchecked
fetchable address [] al whole = (0, refl)
fetchable address (mm ∷ mms) al (w, ws) = elim (Bool-cases (in_range address mm)) [
  | inl h ↦ (
    _,
    ap (λ b. unchecked word address (if b then some mm else find_region address mms)) h
        ∙ if_true _ _ (fits word address mm al w h),
  )
  | inr h ↦
      let rest = fetchable address mms al ws in
      (
        rest.0,
        ap (λ b. unchecked word address (if b then some mm else find_region address mms)) h
            ∙ rest.1,
      )
]

zero_aligned : is_aligned word 0 ≡ true
unfolding is_aligned
zero_aligned = refl

module _ (shapes : List (ℕ × ℕ × ℕ)) (whole : All IsWhole shapes) where
  abbrev I : Machine → Type 0
  I = Holds IsAny shapes

  Keeps-fetch : (address : ℕ) → is_aligned word address ≡ true → Keeps I I (fetch address)
  unfolding Keeps fetch read_unchecked Holds Ends
  Keeps-fetch address al m i =
      let w = fetchable address m.regions al (subst (λ l. All IsWhole l) (sym i.0) whole) in
      subst (λ o. Ends I (held o)) (sym w.1) i
    where
      held : Option ℕ → Option (ℕ × Machine)
      held o = elim o [ none ↦ none | some w ↦ some (w, m) ]

  -- The end of `cpu::reset`.
  Keeps-cleared : Keeps I I (
      modify (λ m. record m {
        exceptions = reset_exceptions m.exceptions;
        signals = record m.signals { halt = false; enter_low_power = false };
      }))
  unfolding Keeps Ends Holds
  Keeps-cleared m i = i

  Keeps-reset_processor : (pc : ℕ) → Keeps I I (reset_processor pc)
  unfolding reset_processor
  Keeps-reset_processor pc = Keeps-bind I I I (fetch 0) _ (Keeps-fetch 0 zero_aligned) (λ w.
      Keeps-bind I I I (on_cpu (reset_cpu (bit_and w 0xfffffffc) pc)) _
        (Keeps-IsAny shapes whole (reset_cpu (bit_and w 0xfffffffc) pc)) (λ _. Keeps-cleared))

  Keeps-renewed :
      (pc : ℕ)
      → Keeps I I (
          modify (λ m. record m {
            entry_point = pc;
            usart = reset_usart m.usart;
            systick = reset_systick m.systick;
            exceptions = reset_exceptions (reset_registers m.exceptions);
          }))
  unfolding Keeps Ends Holds
  Keeps-renewed pc m i = i

  Keeps-reset : (pc : ℕ) → Keeps I I (reset_to pc)
  unfolding reset_to
  Keeps-reset pc =
      Keeps-bind I I I (modify _) (λ _. reset_processor pc) (Keeps-renewed pc)
        (λ _. Keeps-reset_processor pc)

  Keeps-after_step : Keeps I I after_step
  unfolding after_step reset Keeps Ends
  Keeps-after_step m i =
      Ends-if m.signals.halt I _ _ (λ _. i)
        (λ _.
          Ends-if m.signals.reset I _ _
            (λ _.
              Keeps-bind I I I (reset_to m.entry_point) (λ _. pure ok) (Keeps-reset m.entry_point)
                (λ _ n j. j) m i)
            (λ _. i))

-- The processor's step after that of the peripherals, which leave its state and memory alone.
peripherals_step :
    (m : Machine) (w : ℕ)
    → All IsWhole (map shape m.regions)
    → exception_number m.cpu < 32
    → read_unchecked word (get_pc m.cpu) m ≡ some w
    → HasDefinedShift (decode w) (started m.cpu)
    → Ends (Holds IsAny (map shape m.regions)) (step_processor (step_peripherals m))
unfolding step_peripherals read_unchecked
peripherals_step m w whole number fetches fits =
    step_processor-Ends (step_peripherals m) whole number w fetches fits

-- A step of the machine runs to its end, with no access behind the host's memory, no shift out of
-- range and no exception of the host, when the fetch of its instruction is inside the memory behind
-- a mapping or outside of every mapping, each mapping is made of whole words with a byte of host
-- memory behind every address, the exception number is below 32 and the instruction, if it is a
-- rotation by a register, has a shift below 32. The mappings keep their addresses and their sizes,
-- also when the step ends in a reset. The host reads a word at any address.
pub step_ends :
    (w : ℕ) (m : Machine)
    → All IsWhole (map shape m.regions)
    → exception_number m.cpu < 32
    → read_unchecked word (get_pc m.cpu) m ≡ some w
    → HasDefinedShift (decode w) (started m.cpu)
    → (r : StepResult) × (m' : Machine) × (step m ≡ some (r, m'))
      × (map shape m'.regions ≡ map shape m.regions)
unfolding step Holds
step_ends w m whole number fetches fits =
    let e = ended I (step m) (
      Ends-bind I I (step_processor (step_peripherals m)) (λ _. after_step) processed
        (λ _. Keeps-after_step (map shape m.regions) whole)) in
    (e.0, e.1, e.2, e.3.0)
  where
    I : Machine → Type 0
    I = Holds IsAny (map shape m.regions)

    processed : Ends I (step_processor (step_peripherals m))
    processed = peripherals_step m w whole number fetches fits
