-- ===== src/Backend/Dispersal.antt =====
-- The energy dispersal: the constructors of base/backend/backend.cpp and
-- base/decoder/fic_decoder.cpp fill a vector with the same pseudo-random bits, and a received
-- vector is combined with it. A bit vector has one bit to an entry; `^` is `xor`.
pub mod Sequence
unfoldable pub use mathlib.Core.Bool.{xor}
use dabstar.Prelude.{
  ℕ, zero, suc, ◌*◌, ◌-◌, Bool, true, false, List, [], ◌∷◌, get_or, set, replicate,
}

-- `for (j = 8; j > 0; j--) shiftRegister[j] = shiftRegister[j - 1]`
unfoldable pub shift : ℕ → List Bool → List Bool
shift zero sr = sr
shift (suc j) sr = shift j (set sr (suc j) (get_or sr j false))

-- The bit of one round, and the register after it.
unfoldable pub next_bit : List Bool → Bool
next_bit sr = xor (get_or sr 8 false) (get_or sr 4 false)

unfoldable pub next_register : List Bool → List Bool
unfolding shift next_bit xor
next_register sr = set (shift 8 sr) 0 (next_bit sr)

-- The loop over `i`, with the rounds left.
unfoldable pub disperse_bits : ℕ → List Bool → List Bool
unfolding next_register
disperse_bits zero sr = []
disperse_bits (suc n) sr = next_bit sr ∷ disperse_bits n (next_register sr)

abbrev pub ones : List Bool
ones = replicate 9 true

-- disperseVector, `24 * bitRate` long.
unfoldable pub disperse_vector : ℕ → List Bool
unfolding disperse_bits
disperse_vector bit_rate = disperse_bits (24 * bit_rate) ones

-- mPRBS
unfoldable pub fic_prbs : List Bool
unfolding disperse_bits
fic_prbs = disperse_bits 768 ones

-- `outV[i] ^= disperseVector[i]`
unfoldable pub descramble : List Bool → List Bool → List Bool
descramble [] ds = []
descramble (x ∷ xs) [] = x ∷ xs
descramble (x ∷ xs) (d ∷ ds) = xor x d ∷ descramble xs ds
