-- ===== src/DataProcessor.antt =====
-- base/backend/data/data_processor.cpp: MSC packets to data groups. A frame is the list of its bits;
-- the data handler is the list of the groups that it was given. `none` is a read behind the frame.
pub mod Packet
pub mod Series
pub mod Frame
use dabstar.Prelude.{
  ℕ, zero, suc, ◌+◌, ◌-◌, ◌*◌, ◌%◌, Bool, true, false, List, [], ◌∷◌, ◌++◌, Option, none, some,
  ◌==◌, leb, ltb, not, ◌&&◌, if◌then◌else◌, length, take, drop, ◌>>=◌,
}
use dabstar.Bits.{get_bits, get_bits_1, get_bits_2, get_bits_7}
use dabstar.Crc.{check_crc_bits}

-- The fields that the packets change. mFirstPacket only suppresses a message, but it is state.
pub record DataProcessor : Type 0 where
  pub packet_address : ℕ
  pub expected_index : ℕ
  pub first_packet : Bool
  pub series_vec : List Bool
  pub packet_state : ℕ
  pub data_groups : List (List Bool)

-- The constructor's values, for a component with this packet address.
abbrev pub new_data_processor : ℕ → DataProcessor
new_data_processor packet_address = record {
  packet_address = packet_address;
  expected_index = 0;
  first_packet = true;
  series_vec = [];
  packet_state = 0;
  data_groups = [];
}

-- The header fields of a packet at the start of `d`.
abbrev pub packet_length_bytes : List Bool → ℕ
packet_length_bytes d = (get_bits_2 d 0 + 1) * 24

abbrev pub continuity_index : List Bool → ℕ
continuity_index d = get_bits_2 d 2

abbrev pub first_last : List Bool → ℕ
first_last d = get_bits_2 d 4

abbrev pub address : List Bool → ℕ
address d = get_bits d 6 10

abbrev pub useful_length : List Bool → ℕ
useful_length d = get_bits_7 d 17

-- `data[24 + i]` for `i` below `8 * usefulLength`.
unfoldable pub read_useful : List Bool → Option (List Bool)
read_useful d =
    let n = 8 * useful_length d in
    if leb (24 + n) (length d) then some (take n (drop 24 d)) else none

-- `mpDataHandler->add_MSC_data_group(mSeriesVec)`
abbrev pub add_msc_data_group : DataProcessor → DataProcessor
add_msc_data_group s = record s { data_groups = s.data_groups ++ (s.series_vec ∷ []) }

-- Waiting for a start: 2 is a first packet, 3 a single one.
unfoldable pub assemble_waiting : DataProcessor → List Bool → Option DataProcessor
assemble_waiting s d =
    if first_last d == 2
    then (read_useful d >>= λ u. some (record s { packet_state = 1; series_vec = u }))
    else (if first_last d == 3
        then (read_useful d >>= λ u. some (add_msc_data_group (record s { series_vec = u })))
        else some (record s { series_vec = [] }))

-- Within a series: 0 is an intermediate packet, 1 the last one, 2 a first one.
unfoldable pub assemble_series : DataProcessor → List Bool → Option DataProcessor
assemble_series s d =
    if first_last d == 0
    then (read_useful d >>= λ u. some (record s { series_vec = s.series_vec ++ u }))
    else (if first_last d == 1
        then (read_useful d >>= λ u.
            let t = add_msc_data_group (record s { series_vec = s.series_vec ++ u }) in
            some (record t { packet_state = 0 }))
        else (if first_last d == 2
            then (read_useful d >>= λ u. some (record s { packet_state = 1; series_vec = u }))
            else some (record s { packet_state = 0; series_vec = [] })))

unfoldable pub assemble : DataProcessor → List Bool → Option DataProcessor
unfolding assemble_waiting assemble_series
assemble s d =
    if s.packet_state == 0
    then assemble_waiting s d
    else (if s.packet_state == 1 then assemble_series s d else some s)

-- _handle_packet, for the packet at the start of `d`.
unfoldable pub handle_packet : DataProcessor → List Bool → Option DataProcessor
handle_packet s d =
    if not (s.packet_address == address d)
    then some s
    else (if not (continuity_index d == s.expected_index)
        then some (record s { expected_index = 0 })
        else (let t = record s {
          first_packet = false;
          expected_index = (s.expected_index + 1) % 4;
        } in
            if check_crc_bits (take (packet_length_bytes d * 8) d) then assemble t d else some t))

-- The loop of _handle_packets; a round takes at least 192 bits, so that the fuel of
-- `handle_packets` is never used up.
unfoldable pub handle_packets_loop : ℕ → DataProcessor → List Bool → ℕ → Option DataProcessor
handle_packets_loop zero s d length_bits = none
handle_packets_loop (suc fuel) s d length_bits =
    let p_length_bits = (get_bits_2 d 0 + 1) * 24 * 8 in
    let left = length_bits - p_length_bits in
    let rest = λ (s' : DataProcessor). handle_packets_loop fuel s' (drop p_length_bits d) left in
    if ltb length_bits p_length_bits
    then some s
    else (handle_packet s d >>= λ s'. if ltb left 2 then some s' else rest s')

unfoldable pub handle_packets : DataProcessor → List Bool → ℕ → Option DataProcessor
handle_packets s d length_bits = handle_packets_loop (suc length_bits) s d length_bits

-- add_to_frame: without data groups for DSCTy 5 only the CRC is looked at, and nothing is done.
unfoldable pub add_to_frame : ℕ → Bool → ℕ → DataProcessor → List Bool → Option DataProcessor
unfolding handle_packets
add_to_frame ds_c_ty dg_flag bit_rate s out_v =
    if ds_c_ty == 5 && dg_flag then some s else handle_packets s out_v (24 * bit_rate)
