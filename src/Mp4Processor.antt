-- ===== src/Mp4Processor.antt =====
-- base/backend/audio/mp4processor.cpp, the build without FDK: five DAB frames make a super frame of
-- DAB+. The state and the outside are here; the children follow the functions. The counters are
-- taken as unbounded.
pub mod BitWriter
pub mod RsFrame
pub mod AccessUnits
pub mod Sync
use dabstar.Prelude.{ℕ, ◌*◌, ◌/◌, Bool, List, replicate}

-- SStreamParms of base/backend/audio/fdk_aac.h.
pub record StreamParms : Type 0 where
  pub dac_rate : ℕ
  pub sbr_flag : ℕ
  pub ps_flag : ℕ
  pub aac_channel_mode : ℕ
  pub mpeg_surround : ℕ
  pub core_ch_config : ℕ
  pub core_sr_index : ℕ
  pub extension_sr_index : ℕ

-- What the processor calls: the signals, the buffer for dumps, the PAD handler and the AAC decoder.
-- `process_pad` gets the buffer, `count - 3` as the 16 bits of an `i16`, L1 and L0;
-- `convert_mp4_to_pcm` tells whether `aacErr > 0`; `conceal_dropouts` is the setting.
pub record Outside {ℓ} (D : Type ℓ) : Type ℓ where
  pub show_frame_errors : ℕ → D → D
  pub show_rs_errors : ℕ → D → D
  pub show_aac_errors : ℕ → D → D
  pub show_rs_corrections : ℕ → ℕ → D → D
  pub is_stereo : Bool → D → D
  pub new_aac_frame : D → D
  pub put_frame : List ℕ → D → D
  pub process_pad : List ℕ → ℕ → ℕ → ℕ → D → D
  pub convert_mp4_to_pcm : StreamParms → List ℕ → D → Bool × D
  pub conceal_lost_frame : ℕ → D → D
  pub conceal_dropouts : Bool

pub record Mp4Processor {ℓ} (D : Type ℓ) : Type ℓ where
  pub bit_rate : ℕ
  pub rs_dims : ℕ
  pub block_fill_index : ℕ
  pub blocks_in_buffer : ℕ
  pub frame_count : ℕ
  pub frame_errors : ℕ
  pub rs_errors : ℕ
  pub crc_errors : ℕ
  pub aac_errors : ℕ
  pub aac_frames : ℕ
  pub success_frames : ℕ
  pub super_frame_sync : ℕ
  pub good_frames : ℕ
  pub total_corrections : ℕ
  pub sum_frame_count : ℕ
  pub sum_frame_errors : ℕ
  pub sum_fc_errors : ℕ
  pub sum_fc_corrections : ℕ
  pub sum_rs_errors : ℕ
  pub sum_corrections : ℕ
  pub sum_crc_errors : ℕ
  pub sum_good_crcs : ℕ
  pub frame_byte_vec : List ℕ
  pub out_vec : List ℕ
  pub outside : D

-- The constructor.
unfoldable pub new_mp4_processor {ℓ} : {D : Type ℓ} → ℕ → D → Mp4Processor D
new_mp4_processor bit_rate d = record {
  bit_rate = bit_rate;
  rs_dims = bit_rate / 8;
  block_fill_index = 0;
  blocks_in_buffer = 0;
  frame_count = 0;
  frame_errors = 0;
  rs_errors = 0;
  crc_errors = 0;
  aac_errors = 0;
  aac_frames = 0;
  success_frames = 0;
  super_frame_sync = 0;
  good_frames = 0;
  total_corrections = 0;
  sum_frame_count = 0;
  sum_frame_errors = 0;
  sum_fc_errors = 0;
  sum_fc_corrections = 0;
  sum_rs_errors = 0;
  sum_corrections = 0;
  sum_crc_errors = 0;
  sum_good_crcs = 0;
  frame_byte_vec = replicate (bit_rate / 8 * 120) 0;
  out_vec = replicate (bit_rate / 8 * 110) 0;
  outside = d;
}
