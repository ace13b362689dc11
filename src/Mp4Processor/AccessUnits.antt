-- ===== src/Mp4Processor/AccessUnits.antt =====
-- _process_super_frame and _build_aac_stream: the header of the super frame, and its access units.
-- `none` is a read outside of mOutVec or of the PAD's buffer.
use dabstar.Prelude.{
  ◌^◌, ℕ, zero, suc, ◌+◌, ◌-◌, ◌*◌, ◌/◌, ◌%◌, Bool, true, false, List, [], ◌∷◌, Option, none, some,
  ◌>>=◌, ◌==◌, ltb, leb, ◌||◌, if◌then◌else◌, get_or, take, drop, length,
}
use dabstar.Crc.Bytes.{check_crc_bytes}
use dabstar.Mp4Processor.{Outside, Mp4Processor, StreamParms}
use dabstar.Mp4Processor.BitWriter.{
  BitWriter, reset, add_bits, add_bytes, write_audio_mux_length_bytes,
}
use dabstar.Mp4Processor.RsFrame.{process_reed_solomon_frame}

-- From byte 2.
unfoldable pub stream_parameters : List ℕ → StreamParms
stream_parameters out_vec =
    let b = get_or out_vec 2 0 in
    let dac_rate = b / 64 % 2 in
    let sbr_flag = b / 32 % 2 in
    let aac_channel_mode = b / 16 % 2 in
    record {
      dac_rate = dac_rate;
      sbr_flag = sbr_flag;
      ps_flag = b / 8 % 2;
      aac_channel_mode = aac_channel_mode;
      mpeg_surround = b % 8;
      core_ch_config = if aac_channel_mode == 0 then 1 else 2;
      core_sr_index =
          if dac_rate == 0 then if sbr_flag == 0 then 5 else 8 else if sbr_flag == 0 then 3 else 6;
      extension_sr_index = if dac_rate == 0 then 5 else 3;
    }

-- Twelve bits: byte `i` and the upper half of the next, or the lower half of byte `i` and the next.
abbrev pub upper_twelve : List ℕ → ℕ → ℕ
upper_twelve out_vec i = get_or out_vec i 0 * 16 + get_or out_vec (i + 1) 0 / 16

abbrev pub lower_twelve : List ℕ → ℕ → ℕ
lower_twelve out_vec i = get_or out_vec i 0 % 16 * 256 + get_or out_vec (i + 1) 0

-- The entries of mAuStartArr that the `switch` sets, numAUs and one more.
unfoldable pub au_starts : List ℕ → ℕ → ℕ → ℕ → List ℕ
au_starts out_vec bit_rate dac_rate sbr_flag =
    let v = out_vec in
    let last = 110 * (bit_rate / 8) in
    if 2 * dac_rate + sbr_flag == 0
    then 8 ∷ upper_twelve v 3 ∷ lower_twelve v 4 ∷ upper_twelve v 6 ∷ last ∷ []
    else if 2 * dac_rate + sbr_flag == 1
    then 5 ∷ upper_twelve v 3 ∷ last ∷ []
    else if 2 * dac_rate + sbr_flag == 2
    then 11
      ∷ upper_twelve v 3
      ∷ lower_twelve v 4
      ∷ upper_twelve v 6
      ∷ lower_twelve v 7
      ∷ upper_twelve v 9
      ∷ last
      ∷ []
    else 6 ∷ upper_twelve v 3 ∷ lower_twelve v 4 ∷ last ∷ []

-- The loop that writes the payload's length.
unfoldable pub add_full_lengths : ℕ → BitWriter → BitWriter
unfolding add_bits
add_full_lengths zero w = w
add_full_lengths (suc n) w = add_full_lengths n (add_bits 0xFF 8 w)

unfoldable pub build_aac_stream : ℕ → StreamParms → List ℕ → List ℕ
unfolding add_bits add_bytes write_audio_mux_length_bytes add_full_lengths
build_aac_stream aac_frame_len sp frame =
    let a = add_bits 0 13 (add_bits 0x2B7 11 reset) in
    let b = add_bits 1 1 (add_bits 0 1 (add_bits 0 1 a)) in
    let c = add_bits 0 3 (add_bits 0 4 (add_bits 0 6 b)) in
    let d =
      if sp.sbr_flag == 0
      then add_bits 4 3
          (add_bits sp.core_ch_config 4 (add_bits sp.core_sr_index 4 (add_bits 2 5 c)))
      else add_bits 4 3 (
          add_bits 2 5 (
            add_bits sp.extension_sr_index 4
              (add_bits sp.core_ch_config 4 (add_bits sp.core_sr_index 4 (add_bits 5 5 c))))) in
    let e = add_bits 0 1 (add_bits 0 1 (add_bits 0xFF 8 (add_bits 0 3 d))) in
    let f = add_bits (aac_frame_len % 255) 8 (add_full_lengths (aac_frame_len / 255) e) in
    (write_audio_mux_length_bytes (add_bytes (take aac_frame_len frame) f)).data_bytes

-- A read of `n` bytes from `i` on.
unfoldable pub read_bytes : List ℕ → ℕ → ℕ → Option (List ℕ)
read_bytes v i n = if leb (i + n) (length v) then some (take n (drop i v)) else none

-- aacFrameLen, or `none` where it is negative.
unfoldable pub aac_frame_len : ℕ → ℕ → Option ℕ
aac_frame_len start next = if leb (start + 2) next then some (next - start - 2) else none

-- cAacCoreFrameBytes
abbrev pub aac_core_frame_bytes : ℕ
aac_core_frame_bytes = 960

module _ {ℓ} {D : Type ℓ} (o : Outside D) where
  -- numConcealSamples, and the call where the setting asks for it.
  unfoldable pub conceal : StreamParms → Mp4Processor D → Mp4Processor D
  conceal sp s =
      let samples = aac_core_frame_bytes * (if sp.sbr_flag == 0 then 1 else 2) * 2 in
      if o.conceal_dropouts
      then record s { outside = o.conceal_lost_frame samples s.outside }
      else s

  -- The PAD of an access unit; L1 and L0 are the last two bytes of the buffer.
  unfoldable pub handle_pad : ℕ → Mp4Processor D → Option (Mp4Processor D)
  unfolding read_bytes
  handle_pad start s =
      if get_or s.out_vec start 0 / 32 % 8 == 4
      then (let count = get_or s.out_vec (start + 1) 0 in
          if ltb count 2
          then none
          else (read_bytes s.out_vec (start + 2) count >>= λ buffer. some (record s {
            outside =
                o.process_pad buffer ((count + 2 ^ 16 - 3) % 2 ^ 16) (get_or buffer (count - 2) 0)
                  (get_or buffer (count - 1) 0) s.outside;
          })))
      else some s

  -- What the decoder's result asks for.
  unfoldable pub handle_decoded : StreamParms → Bool × D → Mp4Processor D → Mp4Processor D
  unfolding conceal
  handle_decoded sp (good, after) s =
      let shown = record s {
        outside = o.is_stereo (sp.aac_channel_mode == 1 || sp.ps_flag == 1) after;
      } in
      if good then shown else conceal sp (record shown { aac_errors = shown.aac_errors + 1 })

  -- An access unit whose CRC is right.
  unfoldable pub handle_audio : StreamParms → ℕ → ℕ → Mp4Processor D → Option (Mp4Processor D)
  unfolding read_bytes build_aac_stream handle_pad handle_decoded
  handle_audio sp start len s = read_bytes s.out_vec start len >>= λ frame.
      handle_pad start (record s {
        sum_good_crcs = s.sum_good_crcs + 1;
        outside = o.new_aac_frame (o.put_frame (build_aac_stream len sp frame) s.outside);
      })
      >>= λ t. some (handle_decoded sp (o.convert_mp4_to_pcm sp frame t.outside) t)

  -- The body of the loop up to the statistics, from aacFrameLen on.
  unfoldable pub handle_length :
      StreamParms → ℕ → Option ℕ → Mp4Processor D → Option (Mp4Processor D)
  unfolding read_bytes check_crc_bytes handle_audio conceal
  handle_length sp start none s = some (conceal sp (record s { aac_errors = s.aac_errors + 1 }))
  handle_length sp start (some len) s =
      if ltb aac_core_frame_bytes len
      then some (conceal sp (record s { aac_errors = s.aac_errors + 1 }))
      else (read_bytes s.out_vec start (len + 2) >>= λ unit.
          if check_crc_bytes unit len
          then handle_audio sp start len s
          else some (
              conceal sp (record s {
                crc_errors = s.crc_errors + 1;
                sum_crc_errors = s.sum_crc_errors + 1;
              })))

  unfoldable pub handle_access_unit : StreamParms → ℕ → ℕ → Mp4Processor D → Option (Mp4Processor D)
  unfolding aac_frame_len handle_length
  handle_access_unit sp start next s = handle_length sp start (aac_frame_len start next) s

  -- The end of the body.
  unfoldable pub count_aac_frame : Mp4Processor D → Mp4Processor D
  count_aac_frame s =
      if ltb 25 (s.aac_frames + 1)
      then record s {
        outside = o.show_aac_errors s.aac_errors s.outside;
        aac_errors = 0;
        aac_frames = 0;
      }
      else record s { aac_frames = s.aac_frames + 1 }

  -- The loop over `auIdx`, along the starts.
  unfoldable pub handle_access_units :
      StreamParms → List ℕ → Mp4Processor D → Option (Mp4Processor D)
  unfolding handle_access_unit count_aac_frame
  handle_access_units sp [] s = some s
  handle_access_units sp (start ∷ []) s = some s
  handle_access_units sp (start ∷ next ∷ starts) s = handle_access_unit sp start next s >>= λ t.
      handle_access_units sp (next ∷ starts) (count_aac_frame t)

  -- What follows _process_reed_solomon_frame, from its result on.
  unfoldable pub handle_super_frame : Bool × Mp4Processor D → Option (Bool × Mp4Processor D)
  unfolding stream_parameters au_starts handle_access_units
  handle_super_frame (false, s) = some (false, s)
  handle_super_frame (true, s) =
      let sp = stream_parameters s.out_vec in
      handle_access_units sp (au_starts s.out_vec s.bit_rate sp.dac_rate sp.sbr_flag) s >>= λ t.
      some (true, t)

  unfoldable pub process_super_frame : ℕ → Mp4Processor D → Option (Bool × Mp4Processor D)
  unfolding process_reed_solomon_frame handle_super_frame
  process_super_frame base s = handle_super_frame (process_reed_solomon_frame o base s)
