-- ===== src/Protection/Marks.antt =====
-- base/protection/protection.cpp and the loops that eep_protection.cpp and uep_protection.cpp
-- share: which entries of `viterbiBlock` receive a soft bit, in order. An address into
-- `viterbiBlock` is its index, and `none` is a failed assert.
pub mod Kept
pub mod Valid
use dabstar.Prelude.{
  ℕ, zero, suc, ◌+◌, ◌*◌, ◌%◌, List, [], ◌∷◌, ◌++◌, Option, none, some, ltb, ◌==◌, if◌then◌else◌,
  get_or, ◌>>=◌,
}

-- `viterbiBlockAddresses` and the running `viterbiCounter` of a constructor.
pub record Marks : Type 0 where
  pub addresses : List ℕ
  pub counter : ℕ

abbrev pub no_marks : Marks
no_marks = record { addresses = []; counter = 0 }

-- `outSize * 4 + 24`, the length of `viterbiBlock` for a bit rate; `outSize` is `24 * iBitRate`.
abbrev pub block_size : ℕ → ℕ
block_size bit_rate = 24 * bit_rate * 4 + 24

-- The body of the inner loops: one position, kept if its entry of the vector is not 0.
unfoldable pub mark : ℕ → ℕ → Marks → Option Marks
mark size pi_entry m =
    if pi_entry == 0
    then some (record m { counter = m.counter + 1 })
    else (if ltb m.counter size
        then some (record { addresses = m.addresses ++ (m.counter ∷ []); counter = m.counter + 1 })
        else none)

-- `for (j = ..; j < 128; j++)`, with the rounds left and `j`.
unfoldable pub mark_rounds : ℕ → List ℕ → ℕ → ℕ → Marks → Option Marks
mark_rounds size pi zero j m = some m
mark_rounds size pi (suc n) j m =
    mark size (get_or pi (j % 32) 0) m >>= λ m'. mark_rounds size pi n (j + 1) m'

-- `_extract_viterbi_block_addresses`: `iLx` blocks of 128 positions.
unfoldable pub extract_block_addresses : ℕ → ℕ → List ℕ → Marks → Option Marks
extract_block_addresses size zero pi m = some m
extract_block_addresses size (suc lx) pi m =
    mark_rounds size pi 128 0 m >>= λ m'. extract_block_addresses size lx pi m'

-- The final 24 positions, those of the encoder's register, under PI_X.
unfoldable pub mark_tail : ℕ → List ℕ → Marks → Option Marks
mark_tail size pi_x m = mark_rounds size pi_x 24 0 m
