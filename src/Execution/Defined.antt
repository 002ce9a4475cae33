-- ===== src/Execution/Defined.antt =====
-- The instructions that access memory are defined on every state, whatever they find
-- (micromachine/execution/exec.hpp).
use micromachine.Base.{ℕ, zero, suc, ◌+◌, ◌*◌, Bool, List, All}
use micromachine.Bits.{u32}
use micromachine.Registers.{Cpu, get_reg, set_reg}
use micromachine.Machine.{
  Machine, M, ◌>>=◌, ◌>>◌, pure, on_cpu, ask_cpu, Access, read, write, read32, write32,
}
use micromachine.Machine.Outcome.{Keeps, Keeps-bind, Keeps-if, Keeps-pure}
use micromachine.Machine.Memory.Shapes.{IsWhole}
use micromachine.Machine.Memory.Sound.{
  Holds, Keeps-read, Keeps-write, Keeps-read32, Keeps-write32, Keeps-ask_cpu, Keeps-on_cpu,
}
use micromachine.Execution.Stack.{is_set, push_from, pop_from}

unfoldable pub IsAny : Cpu → Type 0
IsAny c = Unit

module _ (shapes : List (ℕ × ℕ × ℕ)) (whole : All IsWhole shapes) where
  -- A change of the registers.
  pub Keeps-IsAny : (f : Cpu → Cpu) → Keeps (Holds IsAny shapes) (Holds IsAny shapes) (on_cpu f)
  unfolding IsAny
  Keeps-IsAny f = Keeps-on_cpu IsAny shapes whole f (λ c h. h)

module _ (P : Cpu → Type 0) (shapes : List (ℕ × ℕ × ℕ)) (whole : All IsWhole shapes) where
  abbrev I : Machine → Type 0
  I = Holds P shapes

  pub Keeps-store :
      (a : Access) (f g : Cpu → ℕ)
      → Keeps I I (ask_cpu (λ c. c) >>= λ c. write a (f c) (g c) >>= λ _. pure tt)
  Keeps-store a f g =
      Keeps-bind I I I (ask_cpu (λ c. c)) (λ c. write a (f c) (g c) >>= λ _. pure tt)
        (Keeps-ask_cpu P shapes whole (λ c. c))
        (λ c.
          Keeps-bind I I I (write a (f c) (g c)) (λ _. pure tt)
            (Keeps-write P shapes whole a (f c) (g c)) (λ _. Keeps-pure I tt))

  pub Keeps-load :
      (a : Access) (f : Cpu → ℕ) (g : ℕ × Bool → Cpu → Cpu)
      → ((r : ℕ × Bool) (c : Cpu) → P c → P (g r c))
      → Keeps I I (ask_cpu f >>= λ address. read a address >>= λ r. on_cpu (g r))
  Keeps-load a f g h =
      Keeps-bind I I I (ask_cpu f) (λ address. read a address >>= λ r. on_cpu (g r))
        (Keeps-ask_cpu P shapes whole f)
        (λ address.
          Keeps-bind I I I (read a address) (λ r. on_cpu (g r))
            (Keeps-read P shapes whole a address) (λ r. Keeps-on_cpu P shapes whole (g r) (h r)))

  -- A program that starts with a reading of the registers.
  pub Keeps-asked :
      {A B : Type 0} (K : Machine → Type 0) (f : Cpu → A) (g : A → M B)
      → ((x : A) → Keeps I K (g x))
      → Keeps I K (ask_cpu f >>= g)
  Keeps-asked K f g h = Keeps-bind I I K (ask_cpu f) g (Keeps-ask_cpu P shapes whole f) h

  pub Keeps-push_from :
      (left rid list start count : ℕ) → Keeps I I (push_from left rid list start count)
  unfolding push_from
  Keeps-push_from zero rid list start count = Keeps-pure I tt
  Keeps-push_from (suc left) rid list start count =
      Keeps-if I I (is_set list rid)
        (ask_cpu (get_reg rid) >>= λ val. write32 (u32 (start + count * 4)) val >>= λ _.
          push_from left (rid + 1) list start (count + 1))
        (push_from left (rid + 1) list start count)
        (Keeps-asked I (get_reg rid)
          (λ val. write32 (u32 (start + count * 4)) val >>= λ _.
            push_from left (rid + 1) list start (count + 1))
          (λ val.
            Keeps-bind I I I (write32 (u32 (start + count * 4)) val)
              (λ _. push_from left (rid + 1) list start (count + 1))
              (Keeps-write32 P shapes whole (u32 (start + count * 4)) val)
              (λ _. Keeps-push_from left (rid + 1) list start (count + 1))))
        (Keeps-push_from left (rid + 1) list start count)

  pub Keeps-pop_from :
      ((i v : ℕ) (c : Cpu) → P c → P (set_reg i v c))
      → (left rid list a : ℕ) → Keeps I I (pop_from left rid list a)
  unfolding pop_from
  Keeps-pop_from h zero rid list a = Keeps-pure I a
  Keeps-pop_from h (suc left) rid list a =
      Keeps-if I I (is_set list rid)
        (read32 a >>= λ v. on_cpu (set_reg rid v) >> pop_from left (rid + 1) list (u32 (a + 4)))
        (pop_from left (rid + 1) list a)
        (Keeps-bind I I I (read32 a)
          (λ v. on_cpu (set_reg rid v) >> pop_from left (rid + 1) list (u32 (a + 4)))
          (Keeps-read32 P shapes whole a)
          (λ v.
            Keeps-bind I I I (on_cpu (set_reg rid v))
              (λ _. pop_from left (rid + 1) list (u32 (a + 4)))
              (Keeps-on_cpu P shapes whole (set_reg rid v) (h rid v))
              (λ _. Keeps-pop_from h left (rid + 1) list (u32 (a + 4)))))
        (Keeps-pop_from h left (rid + 1) list a)
