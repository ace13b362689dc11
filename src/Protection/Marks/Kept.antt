-- ===== src/Protection/Marks/Kept.antt =====
-- How many positions a puncturing vector of protTables.cpp keeps.
use dabstar.Prelude.{
  ap, ℕ, zero, suc, ◌+◌, ◌*◌, ◌%◌, ◌≡◌, refl, true, false, Bool, Option-cases, inl, inr, List, none,
  some, ◌==◌, if◌then◌else◌, get_or, arith, passes_from, passes_below, ◌<◌,
}
use mathlib.Core.Option.{some-injective}
use mathlib.Core.Path.{subst}
use dabstar.Protection.PiCodes.{get_pi_codes}

-- The kept positions among `n` rounds from `j` on.
unfoldable pub kept : List ℕ → ℕ → ℕ → ℕ
kept pi zero j = 0
kept pi (suc n) j = (if get_or pi (j % 32) 0 == 0 then 0 else 1) + kept pi n (j + 1)

kept_table_test : ℕ → Bool
kept_table_test k = elim (get_pi_codes (k + 1)) [
  | none ↦ false
  | some pi ↦ kept pi 128 0 == 4 * (9 + k)
]

kept_table : passes_from kept_table_test 0 24 ≡ true
unfolding passes_from kept_table_test kept get_pi_codes
kept_table = refl

-- What `get_PI_codes` returns for a code from 1 to 24: a block of 128 positions under that vector
-- keeps 4 * (8 + k) of them.
pub get_pi_codes-some :
    (k : ℕ)
    → 0 < k
    → k < 25
    → (pi : List ℕ) × (get_pi_codes k ≡ some pi) × (kept pi 128 0 ≡ 4 * (8 + k))
unfolding kept_table_test
get_pi_codes-some zero h h' = absurd (omega arith)
get_pi_codes-some (suc k) h h' =
    let t : kept_table_test k ≡ true = passes_below kept_table_test 24 k kept_table (omega arith) in
    let e : k + 1 ≡ suc k = omega arith in
    elim (Option-cases (get_pi_codes (suc k))) [
      | inl n ↦ absurd (ground (arith, t, n, ap get_pi_codes e))
      | inr (pi, s) ↦ (pi, s, ground (arith, t, s, ap get_pi_codes e))
    ]

pub kept_tail : (pi : List ℕ) → get_pi_codes 8 ≡ some pi → kept pi 24 0 ≡ 12
unfolding get_pi_codes kept
kept_tail pi h = subst (λ q. kept q 24 0 ≡ 12) (some-injective _ _ h) refl

-- What `lx` blocks under the vector with code `k` keep.
pub mul-kept : (lx k n : ℕ) → n ≡ 4 * (8 + k) → lx * n ≡ 4 * (lx * (8 + k))
mul-kept lx k n e = omega (arith, ap (λ (t : ℕ). lx * t) e)
