-- ===== src/Mp4Processor/BitWriter.antt =====
-- base/backend/audio/bit_writer.cpp.
use Prim.Native.Nat.{min, bit_or}
use dabstar.Prelude.{
  ℕ, zero, suc, ◌+◌, ◌-◌, ◌*◌, ◌/◌, ◌%◌, ◌^◌, List, [], ◌∷◌, ◌++◌, length, ◌==◌, if◌then◌else◌,
  get_or, set,
}

pub record BitWriter : Type 0 where
  pub data_bytes : List ℕ
  pub byte_bits : ℕ

unfoldable pub reset : BitWriter
reset = record { data_bytes = []; byte_bits = 0 }

-- `data.back() |= v`
abbrev pub or_last : ℕ → List ℕ → List ℕ
or_last v [] = []
or_last v (b ∷ []) = bit_or b v ∷ []
or_last v (b ∷ c ∷ bs) = b ∷ or_last v (c ∷ bs)

-- The loop of AddBits; each round takes at least one of the `count` bits.
unfoldable pub add_bits_loop : ℕ → ℕ → ℕ → BitWriter → BitWriter
add_bits_loop zero data_new count w = w
add_bits_loop (suc fuel) data_new zero w = w
add_bits_loop (suc fuel) data_new (suc n) w =
    let count = suc n in
    let bytes = if w.byte_bits == 0 then w.data_bytes ++ (0 ∷ []) else w.data_bytes in
    let copy_bits = min count (8 - w.byte_bits) in
    let copy_data = data_new / 2 ^ (count - copy_bits) % 2 ^ copy_bits in
    add_bits_loop fuel data_new (count - copy_bits) (record {
      data_bytes = or_last (copy_data * 2 ^ (8 - w.byte_bits - copy_bits) % 256) bytes;
      byte_bits = (w.byte_bits + copy_bits) % 8;
    })

unfoldable pub add_bits : ℕ → ℕ → BitWriter → BitWriter
unfolding add_bits_loop
add_bits data_new count w = add_bits_loop count data_new count w

unfoldable pub add_bytes : List ℕ → BitWriter → BitWriter
unfolding add_bits
add_bytes [] w = w
add_bytes (b ∷ bs) w = add_bytes bs (add_bits b 8 w)

unfoldable pub write_audio_mux_length_bytes : BitWriter → BitWriter
write_audio_mux_length_bytes w =
    let len = length w.data_bytes - 3 in
    let second = bit_or (get_or w.data_bytes 1 0) (len / 2 ^ 8 % 2 ^ 5) in
    record w { data_bytes = set (set w.data_bytes 1 second) 2 (len % 256) }
