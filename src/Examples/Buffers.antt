-- ===== src/Examples/Buffers.antt =====
-- The ring buffer, the CRC over bytes and the control of the FIC decoder.
use Prim.Native.Nat.{min}
use dabstar.Prelude.{
  length, take, ℕ, ◌+◌, ◌≡◌, ◌↔◌, refl, Bool, true, false, List, [], ◌∷◌, ◌++◌, arith,
}
use dabstar.RingBuffer.{
  RingBuffer, get_ring_buffer_read_available, get_ring_buffer_write_available,
  put_data_into_ring_buffer, get_data_from_ring_buffer, skip_data_in_ring_buffer,
}
use dabstar.RingBuffer.Levels.{IsLevel, operations-IsLevel}
use dabstar.RingBuffer.Appends.{put_appends}
use dabstar.RingBuffer.Oldest.{queued, get_oldest}
use dabstar.Crc.Bytes.{crc_bytes, check_crc_bytes}
use dabstar.Crc.Residue.{check_crc_bytes_residue}
use dabstar.FicDecoder.Input.{FicDecoder}

-- Three elements of four, around the end: 40, 10 and 20.
abbrev around : RingBuffer ℕ
around = record {
  buffer_size = 4;
  write_index = 6;
  read_index = 3;
  buffer = 10 ∷ 20 ∷ 30 ∷ 40 ∷ [];
}

around-IsLevel : IsLevel around
unfolding get_ring_buffer_read_available
around-IsLevel = record { read_below = omega arith; write_below = omega arith; level = omega arith }

operations-IsLevel_example :
    (let (n, t) = put_data_into_ring_buffer (1 ∷ 2 ∷ []) 2 around in
      (n ≡ min (get_ring_buffer_write_available around) 2)
      × IsLevel t
      × (get_ring_buffer_read_available t ≡ get_ring_buffer_read_available around + n))
    × (let (xs, (n, t)) = get_data_from_ring_buffer 2 around in
        (n ≡ min (get_ring_buffer_read_available around) 2)
        × IsLevel t
        × (get_ring_buffer_read_available t + n ≡ get_ring_buffer_read_available around))
    × (let (n, t) = skip_data_in_ring_buffer 2 around in
        (n ≡ min (get_ring_buffer_read_available around) 2)
        × IsLevel t
        × (get_ring_buffer_read_available t + n ≡ get_ring_buffer_read_available around))
operations-IsLevel_example = operations-IsLevel (1 ∷ 2 ∷ []) 2 around around-IsLevel (omega arith)

put_appends_example :
    queued 0 (put_data_into_ring_buffer (1 ∷ 2 ∷ []) 2 around).1
    ≡ queued 0 around ++ take (put_data_into_ring_buffer (1 ∷ 2 ∷ []) 2 around).0 (1 ∷ 2 ∷ [])
put_appends_example =
    put_appends 0 (1 ∷ 2 ∷ []) 2 around around-IsLevel (omega arith) refl (omega arith)

get_oldest_example :
    ((get_data_from_ring_buffer 2 around).0 ++ queued 0 (get_data_from_ring_buffer 2 around).1.1
      ≡ queued 0 around)
    × (length (get_data_from_ring_buffer 2 around).0 ≡ min (length (queued 0 around)) 2)
    × ((get_data_from_ring_buffer 2 around).1.0 ≡ length (get_data_from_ring_buffer 2 around).0)
get_oldest_example = get_oldest 0 2 around around-IsLevel refl

check_crc_bytes_residue_example :
    (check_crc_bytes ((1 ∷ 2 ∷ 3 ∷ []) ++ (82 ∷ 82 ∷ [])) 3 ≡ true)
    ↔ (crc_bytes 0xffff ((1 ∷ 2 ∷ 3 ∷ []) ++ (82 ∷ 82 ∷ [])) ≡ 0x1d0f)
check_crc_bytes_residue_example =
    check_crc_bytes_residue (1 ∷ 2 ∷ 3 ∷ []) 82 82 (omega arith, (omega arith, (omega arith, tt)))
      (omega arith) (omega arith)

abbrev decoder : FicDecoder ℕ
decoder = record {
  is_running = true;
  addresses = 0 ∷ 1 ∷ [];
  puncture = true ∷ true ∷ [];
  viterbi_block = 0 ∷ 0 ∷ [];
  fib_bits = (true ∷ []) ∷ (false ∷ []) ∷ [];
  fic_valid = true ∷ false ∷ [];
  fic_block = 7;
  fic_bits = 100;
  fic_errors = 6;
  success_ratio = 9;
  fibs = [];
}

abbrev no_bits : List ℕ → List Bool
no_bits block = []

abbrev keep_counts : List ℕ → List Bool → List Bool → ℕ → ℕ → ℕ × ℕ
keep_counts block puncture bits n e = (n, e)
