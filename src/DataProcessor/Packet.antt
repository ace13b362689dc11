-- ===== src/DataProcessor/Packet.antt =====
-- What one packet does.
use dabstar.Prelude.{
  ◌+◌, ◌*◌, ◌%◌, ◌≤◌, ◌<◌, ◌≡◌, Bool, true, false, List, [], ◌∷◌, ◌++◌, some, length, take, drop,
  arith,
}
use dabstar.Crc.{check_crc_bits}
use dabstar.DataProcessor.{
  DataProcessor, packet_length_bytes, continuity_index, first_last, address, useful_length,
  read_useful, assemble, handle_packet,
}

-- The packet at the start of `d` is for this processor, in sequence, and undamaged.
pub record IsAccepted (s : DataProcessor) (d : List Bool) : Type 0 where
  pub addressed : s.packet_address ≡ address d
  pub in_sequence : continuity_index d ≡ s.expected_index
  pub undamaged : check_crc_bits (take (packet_length_bytes d * 8) d) ≡ true

abbrev pub advanced : DataProcessor → DataProcessor
advanced s = record s { first_packet = false; expected_index = (s.expected_index + 1) % 4 }

pub handle_packet_accepted :
    (s : DataProcessor) (d : List Bool)
    → IsAccepted s d
    → handle_packet s d ≡ assemble (advanced s) d
unfolding handle_packet
handle_packet_accepted s d a = ground arith

-- The payload of the packet at the start of `d`.
abbrev pub payload : List Bool → List Bool
payload d = take (8 * useful_length d) (drop 24 d)

-- The announced payload lies in `d`.
abbrev pub IsWhole : List Bool → Type 0
IsWhole d = 24 + 8 * useful_length d ≤ length d

pub read_useful-some : (d : List Bool) → IsWhole d → read_useful d ≡ some (payload d)
unfolding read_useful
read_useful-some d h = ground arith

module _ (s : DataProcessor) (d : List Bool) (whole : IsWhole d) where
  pub assemble_first :
      s.packet_state < 2
      → first_last d ≡ 2
      → assemble s d ≡ some (record s { packet_state = 1; series_vec = payload d })
  unfolding assemble
  assemble_first h f = ground (arith, read_useful-some d whole)

  pub assemble_single :
      s.packet_state ≡ 0
      → first_last d ≡ 3
      → assemble s d
        ≡ some
            (record s { series_vec = payload d; data_groups = s.data_groups ++ (payload d ∷ []) })
  unfolding assemble
  assemble_single h f = ground (arith, read_useful-some d whole)

  pub assemble_intermediate :
      s.packet_state ≡ 1
      → first_last d ≡ 0
      → assemble s d ≡ some (record s { series_vec = s.series_vec ++ payload d })
  unfolding assemble
  assemble_intermediate h f = ground (arith, read_useful-some d whole)

  pub assemble_last :
      s.packet_state ≡ 1
      → first_last d ≡ 1
      → assemble s d
        ≡ some (record s {
          packet_state = 0;
          series_vec = s.series_vec ++ payload d;
          data_groups = s.data_groups ++ ((s.series_vec ++ payload d) ∷ []);
        })
  unfolding assemble
  assemble_last h f = ground (arith, read_useful-some d whole)
