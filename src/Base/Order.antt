-- ===== src/Base/Order.antt =====
-- Strong induction on the native numbers.
use Prim.Native.Nat.{ℕ, zero, suc, ◌<◌}
use mathlib.Core.WellFounded.{Acc, WellFounded}
use native.Mathlib.Nat.{le_refl}
use native.Mathlib.Omega.{arith}

Acc-lt : (k n : ℕ) → n < k → Acc ◌<◌ n
Acc-lt zero n h = absurd (omega arith)
Acc-lt (suc k) n h = Acc.intro n (λ m m<n. Acc-lt k m (omega arith))

pub lt_wf : WellFounded ◌<◌
lt_wf = record { apply = λ n. Acc-lt (suc n) n (le_refl _) }
