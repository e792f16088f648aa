-- ===== src/Base/Counting.antt =====
-- Counting the numbers below a bound for which a test still fails: what bounds a worklist loop.
use Prim.Native.Nat.{ℕ, zero, suc, ◌+◌, ◌≤◌, ◌<◌}
use mathlib.Core.Path.{◌≡◌, refl}
use mathlib.Core.Logic.{inl, inr}
use mathlib.Core.Bool.{Bool, false, ◌||◌}
use native.Mathlib.Omega.{arith}
use prf.Base.Tests.{◌==◌, if◌then◌else◌, Bool-cases}

-- How many numbers below `k` are not yet done.
abbrev pub undone : ℕ → (ℕ → Bool) → ℕ
undone zero done = 0
undone (suc k) done = (if done k then 0 else 1) + undone k done

pub undone_same :
    (k u : ℕ) (done : ℕ → Bool) → k ≤ u → undone k (λ x. x == u || done x) ≡ undone k done
undone_same zero u done h = refl
undone_same (suc k) u done h = ground (arith, undone_same k u done)

pub undone_step :
    (k u : ℕ) (done : ℕ → Bool)
    → u < k
    → done u ≡ false
    → suc (undone k (λ x. x == u || done x)) ≡ undone k done
undone_step zero u done h e = absurd (omega arith)
undone_step (suc k) u done h e = elim (Bool-cases (k == u)) [
  | inl same ↦ let e' : k ≡ u = ground arith in ground (arith, undone_same k u done)
  | inr other ↦ ground (arith, undone_step k u done)
]

pub undone-le : (k : ℕ) (done : ℕ → Bool) → undone k done ≤ k
undone-le zero done = omega arith
undone-le (suc k) done = ground (arith, undone-le k done)

pub undone_pos : (k u : ℕ) (done : ℕ → Bool) → u < k → done u ≡ false → 1 ≤ undone k done
undone_pos k u done h e = omega (arith, undone_step k u done h e)
