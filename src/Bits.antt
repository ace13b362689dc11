-- ===== src/Bits.antt =====
-- base/main/bit_extractors.h: numbers from a vector with one bit to an entry, most significant bit
-- first. `res <<= 1; res |= d[i]` is `2 * res + d[i]`, since the bit that is set was just cleared;
-- a `u8`, `u16` or `u32` keeps the remainder by its range.
pub mod Widths
use dabstar.Prelude.{
  ℕ, zero, suc, ◌+◌, ◌*◌, ◌%◌, ◌^◌, Bool, true, false, List, get_or, if◌then◌else◌,
}

abbrev pub bit_at : List Bool → ℕ → ℕ
bit_at d i = if get_or d i false then 1 else 0

-- One round: shift, then set the low bit.
abbrev pub push_bit : ℕ → ℕ → ℕ → ℕ
push_bit modulus res b = (2 * res + b) % modulus

-- The loop of getBits and getLBits, with the rounds left and the next index.
unfoldable pub bits_loop : ℕ → List Bool → ℕ → ℕ → ℕ → ℕ
bits_loop modulus d zero i res = res
bits_loop modulus d (suc n) i res =
    bits_loop modulus d n (i + 1) (push_bit modulus res (bit_at d i))

unfoldable pub get_bits : List Bool → ℕ → ℕ → ℕ
unfolding bits_loop
get_bits d offset size = bits_loop (2 ^ 16) d size offset 0

unfoldable pub get_l_bits : List Bool → ℕ → ℕ → ℕ
unfolding bits_loop
get_l_bits d offset amount = bits_loop (2 ^ 32) d amount offset 0

unfoldable pub get_bits_1 : List Bool → ℕ → ℕ
get_bits_1 d o = bit_at d o

unfoldable pub get_bits_2 : List Bool → ℕ → ℕ
get_bits_2 d o = push_bit 256 (bit_at d o) (bit_at d (o + 1))

unfoldable pub get_bits_3 : List Bool → ℕ → ℕ
get_bits_3 d o = push_bit 256 (push_bit 256 (bit_at d o) (bit_at d (o + 1))) (bit_at d (o + 2))

unfoldable pub get_bits_4 : List Bool → ℕ → ℕ
get_bits_4 d o =
    let r = push_bit 256 (push_bit 256 (bit_at d o) (bit_at d (o + 1))) (bit_at d (o + 2)) in
    push_bit 256 r (bit_at d (o + 3))

unfoldable pub get_bits_5 : List Bool → ℕ → ℕ
get_bits_5 d o =
    let r = push_bit 256 (push_bit 256 (bit_at d o) (bit_at d (o + 1))) (bit_at d (o + 2)) in
    push_bit 256 (push_bit 256 r (bit_at d (o + 3))) (bit_at d (o + 4))

unfoldable pub get_bits_6 : List Bool → ℕ → ℕ
get_bits_6 d o =
    let r = push_bit 256 (push_bit 256 (bit_at d o) (bit_at d (o + 1))) (bit_at d (o + 2)) in
    let q = push_bit 256 (push_bit 256 r (bit_at d (o + 3))) (bit_at d (o + 4)) in
    push_bit 256 q (bit_at d (o + 5))

unfoldable pub get_bits_7 : List Bool → ℕ → ℕ
get_bits_7 d o =
    let r = push_bit 256 (push_bit 256 (bit_at d o) (bit_at d (o + 1))) (bit_at d (o + 2)) in
    let q = push_bit 256 (push_bit 256 r (bit_at d (o + 3))) (bit_at d (o + 4)) in
    push_bit 256 (push_bit 256 q (bit_at d (o + 5))) (bit_at d (o + 6))

unfoldable pub get_bits_8 : List Bool → ℕ → ℕ
get_bits_8 d o =
    let r = push_bit 256 (push_bit 256 (bit_at d o) (bit_at d (o + 1))) (bit_at d (o + 2)) in
    let q = push_bit 256 (push_bit 256 r (bit_at d (o + 3))) (bit_at d (o + 4)) in
    push_bit 256 (push_bit 256 (push_bit 256 q (bit_at d (o + 5))) (bit_at d (o + 6)))
      (bit_at d (o + 7))
