-- ===== src/Examples/Packets.antt =====
-- The data processor on packets of 24 bytes for address 5.
use dabstar.Prelude.{
  ◌-◌, ◌%◌, ◌≡◌, ◌≢◌, refl, Bool, true, false, List, [], ◌∷◌, ◌++◌, some, replicate, length, arith,
  All,
}
use dabstar.Bits.{bits_loop, get_bits, get_bits_2, get_bits_7}
use dabstar.Crc.{check_crc_bits, is_zero, crc_loop, crc_step, xor, feed_back, shift_left}
use dabstar.DataProcessor.{
  DataProcessor, new_data_processor, continuity_index, address, handle_packets,
}
use dabstar.DataProcessor.Packet.{payload}
use dabstar.DataProcessor.Series.{
  handle_all, IsPart, payloads, Awaits, Completes, series_delivered, gap_delivered,
}
use dabstar.DataProcessor.Frame.{IsFramed, joined, handle_packets-joined}

-- A header, a payload of 16 bits, padding and a CRC.
abbrev packet : List Bool → List Bool → List Bool → List Bool
packet header content crc = header ++ (content ++ (replicate (152 - length content) false ++ crc))

-- Numbers 3, 0 and 1 of a series, and a last packet with the number 0.
abbrev first : List Bool
first =
    packet
      (false ∷ false ∷ true ∷ true ∷ true ∷ false ∷ false ∷ false ∷ false ∷ false ∷ false ∷ false
        ∷ false ∷ true ∷ false ∷ true ∷ false ∷ false ∷ false ∷ false ∷ false ∷ false ∷ true ∷ false
        ∷ [])
      (true ∷ false ∷ true ∷ false ∷ false ∷ true ∷ false ∷ true ∷ true ∷ true ∷ false ∷ false
        ∷ false ∷ false ∷ true ∷ true ∷ [])
      (false ∷ true ∷ false ∷ false ∷ true ∷ false ∷ false ∷ false ∷ true ∷ false ∷ true ∷ false
        ∷ true ∷ false ∷ false ∷ true ∷ [])

abbrev middle : List Bool
middle =
    packet
      (false ∷ false ∷ false ∷ false ∷ false ∷ false ∷ false ∷ false ∷ false ∷ false ∷ false ∷ false
        ∷ false ∷ true ∷ false ∷ true ∷ false ∷ false ∷ false ∷ false ∷ false ∷ false ∷ true ∷ false
        ∷ [])
      (false ∷ false ∷ false ∷ true ∷ false ∷ false ∷ true ∷ false ∷ false ∷ false ∷ true ∷ true
        ∷ false ∷ true ∷ false ∷ false ∷ [])
      (true ∷ true ∷ false ∷ true ∷ false ∷ false ∷ true ∷ false ∷ true ∷ false ∷ true ∷ false
        ∷ false ∷ true ∷ false ∷ true ∷ [])

abbrev final : List Bool
final =
    packet
      (false ∷ false ∷ false ∷ true ∷ false ∷ true ∷ false ∷ false ∷ false ∷ false ∷ false ∷ false
        ∷ false ∷ true ∷ false ∷ true ∷ false ∷ false ∷ false ∷ false ∷ false ∷ false ∷ true ∷ false
        ∷ [])
      (true ∷ false ∷ false ∷ false ∷ false ∷ false ∷ false ∷ false ∷ false ∷ false ∷ false ∷ false
        ∷ false ∷ false ∷ false ∷ true ∷ [])
      (true ∷ true ∷ false ∷ false ∷ false ∷ false ∷ false ∷ true ∷ true ∷ false ∷ false ∷ true
        ∷ true ∷ true ∷ true ∷ true ∷ [])

abbrev early_final : List Bool
early_final =
    packet
      (false ∷ false ∷ false ∷ false ∷ false ∷ true ∷ false ∷ false ∷ false ∷ false ∷ false ∷ false
        ∷ false ∷ true ∷ false ∷ true ∷ false ∷ false ∷ false ∷ false ∷ false ∷ false ∷ true ∷ false
        ∷ [])
      (true ∷ false ∷ false ∷ false ∷ false ∷ false ∷ false ∷ false ∷ false ∷ false ∷ false ∷ false
        ∷ false ∷ false ∷ false ∷ true ∷ [])
      (false ∷ true ∷ true ∷ true ∷ true ∷ true ∷ false ∷ false ∷ true ∷ true ∷ false ∷ true ∷ true
        ∷ false ∷ false ∷ true ∷ [])

-- A packet for address 6.
abbrev foreign : List Bool
foreign =
    packet
      (false ∷ false ∷ true ∷ true ∷ true ∷ false ∷ false ∷ false ∷ false ∷ false ∷ false ∷ false
        ∷ false ∷ true ∷ true ∷ false ∷ false ∷ false ∷ false ∷ false ∷ false ∷ false ∷ true ∷ false
        ∷ [])
      (true ∷ false ∷ true ∷ false ∷ false ∷ true ∷ false ∷ true ∷ true ∷ true ∷ false ∷ false
        ∷ false ∷ false ∷ true ∷ true ∷ [])
      (false ∷ false ∷ true ∷ false ∷ false ∷ true ∷ true ∷ false ∷ true ∷ false ∷ false ∷ true
        ∷ false ∷ false ∷ true ∷ false ∷ [])

abbrev waiting : DataProcessor
waiting = record (new_data_processor 5) { expected_index = 3 }

abbrev in_series : DataProcessor
in_series = record waiting { packet_state = 1; series_vec = true ∷ [] }

waiting-Awaits : Awaits 5 3 waiting
waiting-Awaits = record { address_of = refl; next_of = refl }

first-IsPart : IsPart 5 3 2 first
unfolding get_bits bits_loop get_bits_2 get_bits_7 check_crc_bits is_zero crc_loop crc_step xor
    feed_back shift_left
first-IsPart = record {
  for_address = refl;
  numbered = refl;
  marked = refl;
  undamaged = refl;
  whole = omega arith;
}

middle-IsPart : IsPart 5 4 0 middle
unfolding get_bits bits_loop get_bits_2 get_bits_7 check_crc_bits is_zero crc_loop crc_step xor
    feed_back shift_left
middle-IsPart = record {
  for_address = refl;
  numbered = refl;
  marked = refl;
  undamaged = refl;
  whole = omega arith;
}

final-IsPart : IsPart 5 5 1 final
unfolding get_bits bits_loop get_bits_2 get_bits_7 check_crc_bits is_zero crc_loop crc_step xor
    feed_back shift_left
final-IsPart = record {
  for_address = refl;
  numbered = refl;
  marked = refl;
  undamaged = refl;
  whole = omega arith;
}

early_final-IsPart : IsPart 5 0 1 early_final
unfolding get_bits bits_loop get_bits_2 get_bits_7 check_crc_bits is_zero crc_loop crc_step xor
    feed_back shift_left
early_final-IsPart = record {
  for_address = refl;
  numbered = refl;
  marked = refl;
  undamaged = refl;
  whole = omega arith;
}

series_delivered_example :
    (s' : DataProcessor) × (handle_all waiting (first ∷ middle ∷ final ∷ []) ≡ some s')
    × Completes waiting s' 5 6 (payload first ++ (payloads (middle ∷ []) ++ payload final))
series_delivered_example =
    series_delivered first (middle ∷ []) final 5 3 waiting (omega arith) waiting-Awaits first-IsPart
      (middle-IsPart, tt) final-IsPart

middle_number : continuity_index middle ≢ 3 % 4
unfolding get_bits_2
middle_number = λ e. absurd (omega (arith, e))

middle-address : address middle ≡ 5
unfolding get_bits bits_loop
middle-address = refl

gap_delivered_example :
    (s' : DataProcessor) × (handle_all in_series (middle ∷ early_final ∷ []) ≡ some s')
    × Completes in_series s' 5 1 ((true ∷ []) ++ payload early_final)
gap_delivered_example =
    gap_delivered middle early_final 5 3 in_series refl
      (record { address_of = refl; next_of = refl }) middle-address middle_number early_final-IsPart

packets-IsFramed : All IsFramed (first ∷ middle ∷ [])
unfolding get_bits_2 get_bits_7
packets-IsFramed = (
  record { sized = refl; whole = omega arith },
  (record { sized = refl; whole = omega arith }, tt),
)

handle_packets-joined_example :
    handle_packets waiting (joined (first ∷ middle ∷ [])) (length (joined (first ∷ middle ∷ [])))
    ≡ handle_all waiting (first ∷ middle ∷ [])
handle_packets-joined_example = handle_packets-joined first (middle ∷ []) waiting packets-IsFramed
