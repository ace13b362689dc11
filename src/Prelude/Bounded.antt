-- ===== src/Prelude/Bounded.antt =====
-- A test that every number in a range passes, checked by evaluation.
use Prim.Native.Nat.{ℕ, zero, suc, ◌+◌, ◌<◌}
use mathlib.Core.Path.{◌≡◌, subst}
use mathlib.Core.Bool.{Bool, true, false}
use native.Mathlib.Omega.{arith}
use dabstar.Prelude.Tests.{if◌then◌else◌}

-- The `n` numbers from `start` on.
unfoldable pub passes_from : (ℕ → Bool) → ℕ → ℕ → Bool
passes_from test start zero = true
passes_from test start (suc n) =
    let later = passes_from test (start + 1) n in if test start then later else false

-- A member of the range, by its distance `k` from the start.
pub passes_at :
    (test : ℕ → Bool) (n start k : ℕ)
    → passes_from test start n ≡ true
    → k < n
    → test (k + start) ≡ true
unfolding passes_from
passes_at test zero start k all inside = absurd (omega arith)
passes_at test (suc n) start zero all inside = ground arith
passes_at test (suc n) start (suc k) all inside =
    let later : passes_from test (start + 1) n ≡ true = ground arith in
    let shifted : k + (start + 1) ≡ suc k + start = omega arith in
    subst (λ i. test i ≡ true) shifted (passes_at test n (start + 1) k later (omega arith))

pub passes_below : (test : ℕ → Bool) (n k : ℕ) → passes_from test 0 n ≡ true → k < n → test k ≡ true
passes_below test n k all inside =
    let same : k + 0 ≡ k = omega arith in
    subst (λ i. test i ≡ true) same (passes_at test n 0 k all inside)
