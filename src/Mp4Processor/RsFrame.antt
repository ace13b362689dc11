-- ===== src/Mp4Processor/RsFrame.antt =====
-- _process_reed_solomon_frame: the columns of the super frame through the Reed-Solomon decoder, and
-- the Fire code over what comes out.
pub mod Columns
pub mod Encoded
use dabstar.Prelude.{
  ℕ, zero, suc, ◌+◌, ◌*◌, ◌%◌, Bool, true, false, List, [], ◌∷◌, Option, none, some, ◌==◌, leb,
  if◌then◌else◌, get_or, set, take, drop,
}
use dabstar.Mp4Processor.{Outside, Mp4Processor}
use dabstar.ReedSolomon.Dab.{dab_code}
use dabstar.ReedSolomon.Decoder.{dec}
use dabstar.Firecode.{firecode_checker, check_and_correct_6bits}

-- rsIn from entry `k` on, with the entries left.
unfoldable pub rs_in : List ℕ → ℕ → ℕ → ℕ → ℕ → ℕ → List ℕ
rs_in frame_bytes rs_dims base j k zero = []
rs_in frame_bytes rs_dims base j k (suc n) =
    get_or frame_bytes ((base + j + k * rs_dims) % (rs_dims * 120)) 0
    ∷ rs_in frame_bytes rs_dims base j (k + 1) n

-- `mOutVec[j + k * mRsDims] = rsOut[k]` from `k` on.
unfoldable pub write_column : ℕ → ℕ → ℕ → List ℕ → List ℕ → List ℕ
write_column rs_dims j k [] out_vec = out_vec
write_column rs_dims j k (b ∷ bs) out_vec =
    write_column rs_dims j (k + 1) bs (set out_vec (j + k * rs_dims) b)

-- The `memcmp` of the first eleven bytes.
abbrev pub same_bytes : List ℕ → List ℕ → Bool
same_bytes [] [] = true
same_bytes (x ∷ xs) (y ∷ ys) = let rest = same_bytes xs ys in if x == y then rest else false
same_bytes _ _ = false

module _ {ℓ} {D : Type ℓ} (o : Outside D) where
  -- The counters after one column.
  unfoldable pub count_decoded : Option ℕ → Mp4Processor D → Mp4Processor D
  count_decoded none s = record s {
    rs_errors = s.rs_errors + 1;
    sum_rs_errors = s.sum_rs_errors + 1;
  }
  count_decoded (some ler) s =
      let total = s.total_corrections + ler in
      if leb 100 (s.good_frames + 1)
      then record s {
        sum_corrections = s.sum_corrections + ler;
        outside = o.show_rs_corrections total s.crc_errors s.outside;
        total_corrections = 0;
        good_frames = 0;
        crc_errors = 0;
      }
      else record s {
        sum_corrections = s.sum_corrections + ler;
        total_corrections = total;
        good_frames = s.good_frames + 1;
      }

  -- What the loop does with the result of `dec` for column `j`.
  unfoldable pub store_column : ℕ → Option ℕ × List ℕ → Mp4Processor D → Mp4Processor D
  unfolding count_decoded write_column
  store_column j (ler, rs_out) s =
      let counted = count_decoded ler s in
      record counted { out_vec = write_column s.rs_dims j 0 rs_out counted.out_vec }

  -- The loop over `j`, with the columns left.
  unfoldable pub decode_columns : ℕ → ℕ → ℕ → Mp4Processor D → Mp4Processor D
  unfolding rs_in store_column
  decode_columns zero j base s = s
  decode_columns (suc n) j base s =
      decode_columns n (j + 1) base
        (store_column j (dec dab_code (rs_in s.frame_byte_vec s.rs_dims base j 0 120) 135) s)

  -- What follows the check of the Fire code, from its result on.
  unfoldable pub count_fire_code : ℕ → Bool × List ℕ → Mp4Processor D → Bool × Mp4Processor D
  count_fire_code base (ok, out_vec) s =
      let corrected = record s { out_vec = out_vec } in
      if ok
      then (
        true,
        if same_bytes (take 11 out_vec) (take 11 (drop base s.frame_byte_vec))
            then corrected
            else record corrected { sum_fc_corrections = corrected.sum_fc_corrections + 1 },
      )
      else (false, record corrected { sum_fc_errors = corrected.sum_fc_errors + 1 })

  unfoldable pub process_reed_solomon_frame : ℕ → Mp4Processor D → Bool × Mp4Processor D
  unfolding decode_columns check_and_correct_6bits count_fire_code
  process_reed_solomon_frame base s =
      let decoded = decode_columns s.rs_dims 0 base s in
      count_fire_code base (check_and_correct_6bits firecode_checker decoded.out_vec) decoded
