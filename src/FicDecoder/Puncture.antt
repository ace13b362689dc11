-- ===== src/FicDecoder/Puncture.antt =====
-- The constructor of FicDecoder: which entries of mViterbiBlock receive a soft bit.
pub mod Size
use dabstar.Prelude.{
  ℕ, zero, suc, ◌+◌, ◌%◌, Bool, true, false, List, [], ◌∷◌, ◌++◌, Option, none, some, ◌==◌,
  if◌then◌else◌, get_or, set, replicate, ◌>>=◌,
}
use dabstar.Protection.PiCodes.{get_pi_codes}

-- cViterbiBlockSize
abbrev pub viterbi_block_size : ℕ
viterbi_block_size = 3096

-- mPunctureTable, mViterbiBlockAddresses and `local`.
pub record Table : Type 0 where
  pub puncture : List Bool
  pub addresses : List ℕ
  pub local : ℕ

abbrev pub no_table : Table
no_table = record { puncture = replicate viterbi_block_size false; addresses = []; local = 0 }

-- The body of the loops over `k`.
unfoldable pub enter : ℕ → Table → Table
enter pi_entry t = if pi_entry == 0 then record t { local = t.local + 1 } else record {
  puncture = set t.puncture t.local true;
  addresses = t.addresses ++ (t.local ∷ []);
  local = t.local + 1;
}

-- The rounds left, and `k`.
unfoldable pub enter_rounds : List ℕ → ℕ → ℕ → Table → Table
enter_rounds pi zero k t = t
enter_rounds pi (suc n) k t = enter_rounds pi n (k + 1) (enter (get_or pi (k % 32) 0) t)

-- `i` blocks of 32 * 4 positions.
unfoldable pub enter_blocks : List ℕ → ℕ → Table → Table
enter_blocks pi zero t = t
enter_blocks pi (suc i) t = enter_blocks pi i (enter_rounds pi 128 0 t)

unfoldable pub new_table : Option Table
new_table = do
  pi16 ← get_pi_codes 16
  pi15 ← get_pi_codes 15
  pi8 ← get_pi_codes 8
  some (enter_rounds pi8 24 0 (enter_blocks pi15 3 (enter_blocks pi16 21 no_table)))
