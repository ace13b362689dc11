-- ===== src/Crc.antt =====
-- base/backend/crc.cpp: the bitwise check of the CRC with x^16 + x^12 + x^5 + 1. The input is the
-- list of the `iSize` bits from `iIn` on, one to an entry.
pub mod Bytes
pub mod Residue
pub mod Detects
pub mod SingleBit
use dabstar.Prelude.{
  ℕ, zero, suc, ◌+◌, Bool, true, false, List, [], ◌∷◌, ◌++◌, length, leb, replicate, not, ◌&&◌,
  if◌then◌else◌,
}
unfoldable pub use mathlib.Core.Bool.{xor}

-- crcPolynome
abbrev pub crc_polynome : List Bool
crc_polynome =
    false ∷ false ∷ false ∷ true ∷ false ∷ false ∷ false ∷ false ∷ false ∷ false ∷ true ∷ false
    ∷ false ∷ false ∷ false ∷ []

-- `for (f = 0; f < 15; f++) b[f] = crcPolynome[f] ^ b[f + 1]; b[15] = 1`: each round reads an entry
-- that no earlier round wrote.
unfoldable pub feed_back : List Bool → List Bool → List Bool
feed_back (p ∷ ps) (x ∷ y ∷ b) = xor p y ∷ feed_back ps (y ∷ b)
feed_back _ b = true ∷ []

-- The `memmove`, and `b[15] = 0`.
unfoldable pub shift_left : List Bool → List Bool
shift_left [] = []
shift_left (x ∷ b) = b ++ (false ∷ [])

abbrev pub top : List Bool → Bool
top [] = false
top (x ∷ b) = x

-- One round of the loop, for the bit `iIn[i] ^ invBit`.
unfoldable pub crc_step : List Bool → Bool → List Bool
crc_step b bit = if xor (top b) bit then feed_back crc_polynome b else shift_left b

-- The loop from round `i` on: the last 16 of the `i_size` bits are inverted.
unfoldable pub crc_loop : ℕ → ℕ → List Bool → List Bool → List Bool
crc_loop i_size i b [] = b
crc_loop i_size i b (x ∷ i_in) =
    crc_loop i_size (i + 1) (crc_step b (if leb i_size (i + 16) then not x else x)) i_in

-- `Sum == 0`
unfoldable pub is_zero : List Bool → Bool
is_zero [] = true
is_zero (x ∷ b) = not x && is_zero b

unfoldable pub check_crc_bits : List Bool → Bool
check_crc_bits i_in = is_zero (crc_loop (length i_in) 0 (replicate 16 true) i_in)
