-- ===== src/Examples/Fields.antt =====
-- Bit fields and the CRC check.
use dabstar.Prelude.{◌≡◌, ◌↔◌, refl, Bool, true, false, List, [], ◌∷◌, ◌++◌, replicate, map, not}
use dabstar.Crc.{check_crc_bits, is_zero, crc_loop, crc_step, xor, feed_back, shift_left}
use dabstar.Crc.Detects.{register, check_crc_bits_iff}
use dabstar.Crc.SingleBit.{check_crc_bits_flip}

-- The byte 0xA5.
abbrev byte : List Bool
byte = true ∷ false ∷ true ∷ false ∷ false ∷ true ∷ false ∷ true ∷ []

-- The check field of that byte.
abbrev field : List Bool
field =
    true ∷ true ∷ true ∷ true ∷ true ∷ false ∷ true ∷ true ∷ false ∷ true ∷ false ∷ false ∷ false
    ∷ false ∷ false ∷ false ∷ []

check_crc_bits_iff_example :
    (check_crc_bits (byte ++ field) ≡ true) ↔ (field ≡ map not (register (replicate 16 true) byte))
check_crc_bits_iff_example = check_crc_bits_iff byte field refl

byte_passes : check_crc_bits (byte ++ field) ≡ true
unfolding check_crc_bits is_zero crc_loop crc_step xor feed_back shift_left
byte_passes = refl

-- The first bit of the byte, and what follows it.
abbrev byte_rest : List Bool
byte_rest = false ∷ true ∷ false ∷ false ∷ true ∷ false ∷ true ∷ field

check_crc_bits_flip_example : check_crc_bits ([] ++ (false ∷ byte_rest)) ≡ false
check_crc_bits_flip_example = check_crc_bits_flip [] true byte_rest byte_passes
