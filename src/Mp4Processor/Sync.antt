-- ===== src/Mp4Processor/Sync.antt =====
-- add_to_frame: the bytes of a DAB frame go into the ring of five blocks, and the search for the
-- start of a super frame.
pub mod Unmoved
pub mod Outcome
pub mod Steps
pub mod Resync
use dabstar.Prelude.{
  ℕ, zero, suc, ◌+◌, ◌-◌, ◌*◌, ◌/◌, ◌%◌, Bool, true, false, List, [], ◌∷◌, Option, none, some,
  ◌>>=◌, ◌==◌, ltb, leb, if◌then◌else◌, get_or, set, take, drop,
}
use dabstar.Bits.{bits_loop}
use dabstar.Firecode.{firecode_checker, check}
use dabstar.Mp4Processor.{Outside, Mp4Processor}
use dabstar.Mp4Processor.AccessUnits.{process_super_frame}

-- The loop over `i`, from entry `start` of the ring on, with the bytes left.
unfoldable pub store_bytes : List Bool → ℕ → ℕ → ℕ → List ℕ → List ℕ
unfolding bits_loop
store_bytes v start i zero frame_byte_vec = frame_byte_vec
store_bytes v start i (suc n) frame_byte_vec =
    store_bytes v start (i + 1) n (set frame_byte_vec (start + i) (bits_loop 256 v 8 (i * 8) 0))

abbrev pub num_bytes : ℕ → ℕ
num_bytes bit_rate = 24 * bit_rate / 8

module _ {ℓ} {D : Type ℓ} (o : Outside D) where
  -- The conversion, and the counters up to the test of mBlocksInBuffer.
  unfoldable pub add_block : List Bool → Mp4Processor D → Mp4Processor D
  unfolding store_bytes
  add_block v s =
      let n = num_bytes s.bit_rate in
      record s {
        frame_byte_vec = store_bytes v (s.block_fill_index * n) 0 n s.frame_byte_vec;
        blocks_in_buffer = s.blocks_in_buffer + 1;
        block_fill_index = (s.block_fill_index + 1) % 5;
        sum_frame_count = s.sum_frame_count + 1;
      }

  unfoldable pub count_frame : Mp4Processor D → Mp4Processor D
  count_frame s =
      if leb 25 (s.frame_count + 1)
      then record s {
        frame_count = 0;
        outside = o.show_frame_errors s.frame_errors s.outside;
        frame_errors = 0;
      }
      else record s { frame_count = s.frame_count + 1 }

  -- `if (mSuperFrameSync == 0)`
  unfoldable pub search_start : Mp4Processor D → Mp4Processor D
  unfolding check
  search_start s =
      let base = s.block_fill_index * num_bytes s.bit_rate in
      if s.super_frame_sync == 0
      then if check firecode_checker (take 11 (drop base s.frame_byte_vec))
        then record s { super_frame_sync = 4 }
        else record s { blocks_in_buffer = 4 }
      else s

  -- The two branches behind `_process_super_frame`.
  unfoldable pub after_super_frame : Bool → Mp4Processor D → Mp4Processor D
  after_super_frame true s =
      if ltb 25 (s.success_frames + 1)
      then record s {
        super_frame_sync = 4;
        outside = o.show_rs_errors s.rs_errors s.outside;
        success_frames = 0;
        rs_errors = 0;
      }
      else record s { super_frame_sync = 4; success_frames = s.success_frames + 1 }
  after_super_frame false s =
      let sync = s.super_frame_sync - 1 in
      if sync == 0
      then record s {
        super_frame_sync = sync;
        blocks_in_buffer = 4;
        frame_errors = s.frame_errors + 1;
        sum_frame_errors = s.sum_frame_errors + 1;
      }
      else record s { super_frame_sync = sync }

  -- `if (mSuperFrameSync)`
  unfoldable pub use_super_frame : Mp4Processor D → Option (Mp4Processor D)
  unfolding process_super_frame after_super_frame
  use_super_frame s =
      if s.super_frame_sync == 0
      then some s
      else (process_super_frame o (s.block_fill_index * num_bytes s.bit_rate)
            (record s { blocks_in_buffer = 0 })
          >>= λ r. some (after_super_frame r.0 r.1))

  unfoldable pub add_to_frame : List Bool → Mp4Processor D → Option (Mp4Processor D)
  unfolding add_block count_frame search_start use_super_frame
  add_to_frame v s =
      let t = add_block v s in
      if leb 5 t.blocks_in_buffer then use_super_frame (search_start (count_frame t)) else some t
