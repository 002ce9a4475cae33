-- ===== src/Execution/Lists.antt =====
-- PUSH, STM and LDM are defined on every state (micromachine/execution/exec.hpp).
use micromachine.Base.{ℕ, zero, suc, ◌+◌, ◌-◌, ◌*◌, ◌^◌, Bool, not, if◌then◌else◌, List, All}
use micromachine.Bits.{u32}
use micromachine.Registers.{Cpu, get_reg, set_reg, get_sp, set_sp, num_low_gp_regs}
use micromachine.Machine.{Machine, M, ◌>>=◌, ◌>>◌, pure, on_cpu, ask_cpu, word, read, write32}
use micromachine.Machine.Outcome.{Keeps, Keeps-bind, Keeps-if, Keeps-pure}
use micromachine.Machine.Memory.Shapes.{IsWhole}
use micromachine.Machine.Memory.Sound.{Holds, Keeps-read, Keeps-write32}
use micromachine.Execution.Stack.{popcount, is_set, push_from, push, stm_from, stm, ldm_from, ldm}
use micromachine.Execution.Defined.{IsAny, Keeps-IsAny, Keeps-asked, Keeps-push_from}

module _ (shapes : List (ℕ × ℕ × ℕ)) (whole : All IsWhole shapes) where
  abbrev I : Machine → Type 0
  I = Holds IsAny shapes

  pub Keeps-push : (list : ℕ) → Keeps I I (push list)
  unfolding push
  Keeps-push list =
      Keeps-asked IsAny shapes whole I get_sp
        (λ sp. push_from 15 0 list (start sp) 0 >> on_cpu (set_sp (start sp)))
        (λ sp.
          Keeps-bind I I I (push_from 15 0 list (start sp) 0) (λ _. on_cpu (set_sp (start sp)))
            (Keeps-push_from IsAny shapes whole 15 0 list (start sp) 0)
            (λ _. Keeps-IsAny shapes whole (set_sp (start sp))))
    where
      start : ℕ → ℕ
      start sp = u32 (sp + (2 ^ 32 - 4 * popcount 16 list))

  Keeps-stm_from : (left rid list rn a : ℕ) → Keeps I I (stm_from left rid list rn a)
  unfolding stm_from
  Keeps-stm_from zero rid list rn a = Keeps-IsAny shapes whole (set_reg rn a)
  Keeps-stm_from (suc left) rid list rn a =
      Keeps-if I I (is_set list rid) (ask_cpu (get_reg rid) >>= λ val. write32 a val >>= next)
        (stm_from left (rid + 1) list rn a)
        (Keeps-asked IsAny shapes whole I (get_reg rid) (λ val. write32 a val >>= next)
          (λ val.
            Keeps-bind I I I (write32 a val) next (Keeps-write32 IsAny shapes whole a val) (λ ok.
              Keeps-if I I (not ok) (pure tt) (stm_from left (rid + 1) list rn (u32 (a + 4)))
                (Keeps-pure (Holds IsAny shapes) tt)
                (Keeps-stm_from left (rid + 1) list rn (u32 (a + 4))))))
        (Keeps-stm_from left (rid + 1) list rn a)
    where
      next : Bool → M Unit
      next ok = if not ok then pure tt else stm_from left (rid + 1) list rn (u32 (a + 4))

  pub Keeps-stm : (list rn : ℕ) → Keeps I I (stm list rn)
  unfolding stm
  Keeps-stm list rn =
      Keeps-asked IsAny shapes whole I (get_reg rn) (λ a. stm_from num_low_gp_regs 0 list rn a)
        (λ a. Keeps-stm_from 8 0 list rn a)

  Keeps-ldm_from : (left rid list rn a : ℕ) → Keeps I I (ldm_from left rid list rn a)
  unfolding ldm_from
  Keeps-ldm_from zero rid list rn a =
      Keeps-IsAny shapes whole (λ c. if not (is_set list rn) then set_reg rn a c else c)
  Keeps-ldm_from (suc left) rid list rn a =
      Keeps-if I I (is_set list rid)
        (read word a >>= λ r. on_cpu (loaded r) >> ldm_from left (rid + 1) list rn (u32 (a + 4)))
        (ldm_from left (rid + 1) list rn a)
        (Keeps-bind I I I (read word a)
          (λ r. on_cpu (loaded r) >> ldm_from left (rid + 1) list rn (u32 (a + 4)))
          (Keeps-read IsAny shapes whole word a)
          (λ r.
            Keeps-bind I I I (on_cpu (loaded r))
              (λ _. ldm_from left (rid + 1) list rn (u32 (a + 4)))
              (Keeps-IsAny shapes whole (loaded r))
              (λ _. Keeps-ldm_from left (rid + 1) list rn (u32 (a + 4)))))
        (Keeps-ldm_from left (rid + 1) list rn a)
    where
      loaded : ℕ × Bool → Cpu → Cpu
      loaded r c = if r.1 then set_reg rid r.0 c else c

  pub Keeps-ldm : (list rn : ℕ) → Keeps I I (ldm list rn)
  unfolding ldm
  Keeps-ldm list rn =
      Keeps-asked IsAny shapes whole I (get_reg rn) (λ a. ldm_from num_low_gp_regs 0 list rn a)
        (λ a. Keeps-ldm_from 8 0 list rn a)
