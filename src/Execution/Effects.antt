-- ===== src/Execution/Effects.antt =====
-- The instructions other than the transfers of several registers are defined
-- (micromachine/execution/exec.hpp).
use micromachine.Base.{
  ℕ, ◌<◌, ◌≡◌, sym, arith, ◌∙◌, subst, Bool, false, leb, ◌==◌, if◌then◌else◌, List, All, Option,
  none, some, Bool-cases, inl, inr, if_true, if_false,
}
use micromachine.Bits.{extract}
use micromachine.Alu.{ror_c}
use micromachine.Instruction.{Instruction, ror_reg}
use micromachine.Registers.{Cpu, get_reg, set_reg, carry_flag}
use micromachine.Machine.{Machine, M, ◌>>=◌, on_cpu, ask_cpu, Access, read, read32}
use micromachine.Machine.Outcome.{Ends, Keeps, Keeps-bind}
use micromachine.Machine.Memory.Shapes.{IsWhole, Ends-if}
use micromachine.Machine.Memory.Sound.{Holds, Keeps-read32}
use micromachine.Execution.Arithmetic
use micromachine.Execution.Status
use micromachine.Execution.Context.{branch_interworking, branch_link_interworking}
use micromachine.Execution.Dispatch.{try_cpu}
use micromachine.Execution.Defined.{IsAny, Keeps-IsAny, Keeps-load, Keeps-asked}
use micromachine.Execution.Returns.{IsReturnable, Keeps-branch_interworking}

-- The shift of a rotation by a register is one that C++ defines.
unfoldable pub HasDefinedShift : Instruction → Cpu → Type 0
HasDefinedShift (ror_reg rdn rm) c = extract 32 0 8 (get_reg rm c) < 32
HasDefinedShift _ c = Unit

ror_some : (v n : ℕ) (b : Bool) → n < 32 → (r : ℕ × Bool) × (ror_c v n b ≡ some r)
unfolding ror_c
ror_some v n b h = elim (Bool-cases (n == 0)) [
  | inl e ↦ ((v, b), if_true _ _ e)
  | inr ne ↦ (_, if_false _ _ ne ∙ if_false _ _ (not_above n h))
]
  where
    not_above : (n : ℕ) → n < 32 → leb 32 n ≡ false
    not_above n h = ground arith

abbrev changed : {A : Type 0} → (A → Cpu) → Option A → Option Cpu
changed g x = elim x [ none ↦ none | some r ↦ some (g r) ]

abbrev put : Machine → Option Cpu → Option (Unit {0} × Machine)
put m x = elim x [ none ↦ none | some c ↦ some (tt, record m { cpu = c }) ]

-- The register after a load.
abbrev pub loaded : (ℕ → ℕ) → ℕ → ℕ × Bool → Cpu → Cpu
loaded extend rt r c = if r.1 then set_reg rt (extend r.0) c else c

module _ (shapes : List (ℕ × ℕ × ℕ)) (whole : All IsWhole shapes) where
  abbrev I : Machine → Type 0
  I = Holds IsAny shapes

  abbrev R : Machine → Type 0
  R = Holds IsReturnable shapes

  pub relax : (x : M Unit) → Keeps I I x → Keeps R I x
  unfolding Keeps Holds IsAny
  relax x h m i = h m (i.0, tt)

  pub loads :
      (a : Access) (f : Cpu → ℕ) (g : ℕ × Bool → Cpu → Cpu)
      → Keeps I I (ask_cpu f >>= λ address. read a address >>= λ r. on_cpu (g r))
  unfolding IsAny
  loads a f g = Keeps-load IsAny shapes whole a f g (λ _ _ h. h)

  pub loads32 :
      (f : Cpu → ℕ) (g : ℕ → Cpu → Cpu)
      → Keeps I I (ask_cpu f >>= λ address. read32 address >>= λ v. on_cpu (g v))
  loads32 f g =
      Keeps-asked IsAny shapes whole I f (λ address. read32 address >>= λ v. on_cpu (g v))
        (λ address.
          Keeps-bind I I I (read32 address) (λ v. on_cpu (g v))
            (Keeps-read32 IsAny shapes whole address) (λ v. Keeps-IsAny shapes whole (g v)))

  pub Keeps-wfe : Keeps R I Status.wfe
  unfolding Keeps Holds IsAny Ends Status.wfe
  Keeps-wfe m i = Ends-if m.cpu.event I _ _ (λ _. (i.0, tt)) (λ _. (i.0, tt))

  pub Keeps-bkpt : Keeps R I Status.bkpt
  unfolding Keeps Holds IsAny Status.bkpt Ends
  Keeps-bkpt m i = (i.0, tt)

  pub Keeps-bx : (rm : ℕ) → Keeps R I (Status.bx rm)
  unfolding Status.bx
  Keeps-bx rm =
      Keeps-asked IsReturnable shapes whole I (get_reg rm) branch_interworking
        (Keeps-branch_interworking shapes whole)

  pub Keeps-blx : (rm : ℕ) → Keeps R I (Status.blx rm)
  unfolding Keeps Holds IsAny Ends Status.blx branch_link_interworking
  Keeps-blx rm m i = (i.0, tt)

  put-changed :
      {A : Type 0} (x : Option A) (r : A) (g : A → Cpu) (m : Machine)
      → x ≡ some r
      → R m
      → Ends I (put m (changed g x))
  unfolding Ends Holds IsAny
  put-changed x r g m e i = subst (λ x. Ends I (put m (changed g x))) (sym e) (i.0, tt)

  pub Keeps-ror :
      (rdn rm : ℕ) (m : Machine)
      → HasDefinedShift (ror_reg rdn rm) m.cpu
      → R m
      → Ends I (try_cpu (Arithmetic.ror_reg rdn rm) m)
  unfolding HasDefinedShift try_cpu Arithmetic.ror_reg
  Keeps-ror rdn rm m fits i =
      put-changed (ror_c (get_reg rdn m.cpu) (extract 32 0 8 (get_reg rm m.cpu)) (carry_flag m.cpu))
        shift.0 _ m shift.1 i
    where
      shift :
          (r : ℕ × Bool) × (ror_c
              (get_reg rdn m.cpu)
              (extract 32 0 8 (get_reg rm m.cpu))
              (carry_flag m.cpu)
            ≡ some r)
      shift =
          ror_some (get_reg rdn m.cpu) (extract 32 0 8 (get_reg rm m.cpu)) (carry_flag m.cpu) fits
