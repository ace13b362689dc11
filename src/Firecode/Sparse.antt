-- ===== src/Firecode/Sparse.antt =====
-- An array that is 0 at almost every index, as a tree over the digits of the index, lowest first: it
-- stands for `syndrome_table` of base/backend/firecode_checker.h.
use dabstar.Prelude.{ℕ, zero, suc, ◌/◌, ◌%◌, ◌≡◌, refl, ◌==◌, true, false, Bool-cases, inl, inr}

-- An absent part holds zeros.
pub data SparseArray : Type 0 where
  absent : SparseArray
  leaf : ℕ → SparseArray
  node : SparseArray → SparseArray → SparseArray

-- The entry at `i` of an array of 2^n entries.
unfoldable pub get_at : ℕ → SparseArray → ℕ → ℕ
get_at n absent i = 0
get_at zero (leaf v) i = v
get_at (suc n) (leaf v) i = 0
get_at zero (node l r) i = 0
get_at (suc n) (node l r) i = elim (i % 2 == 0) [
  | true ↦ get_at n l (i / 2)
  | false ↦ get_at n r (i / 2)
]

-- The array with `v` at `i`.
unfoldable pub set_at : ℕ → SparseArray → ℕ → ℕ → SparseArray
set_at zero t i v = leaf v
set_at (suc n) (node l r) i v = elim (i % 2 == 0) [
  | true ↦ node (set_at n l (i / 2) v) r
  | false ↦ node l (set_at n r (i / 2) v)
]
set_at (suc n) t i v = elim (i % 2 == 0) [
  | true ↦ node (set_at n absent (i / 2) v) absent
  | false ↦ node absent (set_at n absent (i / 2) v)
]

-- What is written is read.
get_at-set_at_self : (n : ℕ) (t : SparseArray) (i v : ℕ) → get_at n (set_at n t i v) i ≡ v
unfolding get_at set_at
get_at-set_at_self zero t i v = refl
get_at-set_at_self (suc n) absent i v = elim (Bool-cases (i % 2 == 0)) [
  | inl e ↦ rw (set_at, e, get_at, e) (get_at-set_at_self n absent (i / 2) v)
  | inr e ↦ rw (set_at, e, get_at, e) (get_at-set_at_self n absent (i / 2) v)
]
get_at-set_at_self (suc n) (leaf w) i v = elim (Bool-cases (i % 2 == 0)) [
  | inl e ↦ rw (set_at, e, get_at, e) (get_at-set_at_self n absent (i / 2) v)
  | inr e ↦ rw (set_at, e, get_at, e) (get_at-set_at_self n absent (i / 2) v)
]
get_at-set_at_self (suc n) (node l r) i v = elim (Bool-cases (i % 2 == 0)) [
  | inl e ↦ rw (set_at, e, get_at, e) (get_at-set_at_self n l (i / 2) v)
  | inr e ↦ rw (set_at, e, get_at, e) (get_at-set_at_self n r (i / 2) v)
]
