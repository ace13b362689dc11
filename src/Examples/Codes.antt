-- ===== src/Examples/Codes.antt =====
-- The codes of DAB+, and its super frames.
use Prim.Native.Nat.{bit_xor}
use dabstar.Prelude.{
  ltb, if◌then◌else◌, ◌%◌, ℕ, zero, suc, ◌+◌, ◌≤◌, ◌<◌, ◌≡◌, ◌≢◌, ◌⊎◌, inr, refl, Bool, true, false,
  List, [], ◌∷◌, ◌++◌, Option, none, some, ◌>>=◌, replicate, All, All-append, All-replicate, take,
  drop, arith,
}
use dabstar.Xor.{IsSymbol, add_lists}
use dabstar.Galois.{
  dab_galois, new_galois, poly2power, power2poly, multiply_power, pow_power, multiply_poly,
  divide_poly, inverse_poly,
}
use dabstar.Galois.Field.{multiply_poly_field}
use dabstar.ReedSolomon.{ReedSolomon, new_reed_solomon, enc}
use dabstar.ReedSolomon.Decoder.{dec, decode_rs}
use dabstar.ReedSolomon.Dab.{dab_code}
use dabstar.ReedSolomon.RoundTrip.{dec-enc}
use dabstar.Firecode.{firecode_checker, check, check_and_correct_6bits}
use dabstar.Firecode.Bursts.{burst, check_and_correct_6bits-burst}
use dabstar.Mp4Processor.{Outside, Mp4Processor, new_mp4_processor}
use dabstar.Mp4Processor.RsFrame.{rs_in, process_reed_solomon_frame}
use dabstar.Mp4Processor.RsFrame.Columns.{coded_column, data_column}
use dabstar.Mp4Processor.RsFrame.Encoded.{process_reed_solomon_frame-Coded}
use dabstar.FreqInterleaver.{map_k_to_fft_bin, fft_index, real_carrier}
use dabstar.FreqInterleaver.Bijection.{nominal, map_k_to_fft_bin_bijective}
use dabstar.Mp4Processor.Sync.{add_block, count_frame, add_to_frame}
use dabstar.Mp4Processor.Sync.Steps.{Verdict, IsFound, Step, add_to_frame-Step}
use dabstar.Mp4Processor.Sync.Resync.{Accepts, add_frames, add_frames_resync}

multiply_poly_field_example :
    (multiply_poly dab_galois 3 7 ≡ multiply_poly dab_galois 7 3)
    × (multiply_poly dab_galois (multiply_poly dab_galois 3 7) 200
        ≡ multiply_poly dab_galois 3 (multiply_poly dab_galois 7 200))
    × (multiply_poly dab_galois 3 (bit_xor 7 200)
        ≡ bit_xor (multiply_poly dab_galois 3 7) (multiply_poly dab_galois 3 200))
    × (◌≢◌ {A = ℕ} 7 0 → multiply_poly dab_galois (divide_poly dab_galois 3 7) 7 ≡ 3)
    × (◌≢◌ {A = ℕ} 3 0
        → ◌≢◌ {A = ℕ} 3 1
        → multiply_poly dab_galois 3 (inverse_poly dab_galois 3) ≡ 1)
    × (inverse_poly dab_galois 1 ≡ 0)
multiply_poly_field_example = multiply_poly_field 3 7 200 (omega arith) (omega arith) (omega arith)

-- A small code over 16 symbols with four parity symbols: two errors are corrected.
abbrev small_code : ReedSolomon
unfolding new_reed_solomon
small_code = new_reed_solomon 4 0x13 0 1 4

abbrev small_word : List ℕ
unfolding enc
small_word = enc small_code (1 ∷ 2 ∷ 3 ∷ 4 ∷ 5 ∷ 6 ∷ 7 ∷ 8 ∷ 9 ∷ 10 ∷ 11 ∷ 0 ∷ 0 ∷ 0 ∷ 0 ∷ []) 0

two_errors :
    decode_rs small_code (add_lists small_word (0 ∷ 5 ∷ 0 ∷ 0 ∷ 0 ∷ 0 ∷ 0 ∷ 9 ∷ replicate 7 0))
    ≡ (some 2, small_word)
unfolding small_code small_word decode_rs add_lists poly2power new_galois power2poly multiply_power
    pow_power multiply_poly divide_poly
two_errors = refl

abbrev block : List ℕ
block = 1 ∷ 20 ∷ 255 ∷ replicate 117 7

block-IsSymbol : All IsSymbol block
block-IsSymbol =
    (omega arith, (omega arith, (omega arith, All-replicate IsSymbol 117 7 (omega arith))))

dec-enc_example : dec dab_code (enc dab_code block 135) 135 ≡ (some 0, take 110 block)
dec-enc_example = dec-enc block 135 (omega arith) refl block-IsSymbol

-- A header with its parity in front.
abbrev header : List ℕ
header = 119 ∷ 95 ∷ 18 ∷ 52 ∷ 86 ∷ 120 ∷ 154 ∷ 188 ∷ 222 ∷ 240 ∷ 17 ∷ []

header-IsSymbol : All IsSymbol header
header-IsSymbol = (
  omega arith,
  (
    omega arith,
    (
      omega arith,
      (
        omega arith,
        (
          omega arith,
          (
            omega arith,
            (omega arith, (omega arith, (omega arith, (omega arith, (omega arith, tt))))),
          ),
        ),
      ),
    ),
  ),
)

header_passes : check firecode_checker header ≡ true
unfolding check firecode_checker
header_passes = refl

check_and_correct_6bits-burst_example :
    check_and_correct_6bits firecode_checker (add_lists header (burst 30 27)) ≡ (true, header)
check_and_correct_6bits-burst_example =
    check_and_correct_6bits-burst header 30 27 refl header-IsSymbol header_passes (omega arith)
      (omega arith) (inr (omega arith)) (λ e. omega (arith, e)) (λ e. omega (arith, e))
      (λ e. omega (arith, e))

-- A burst of six bits that the table does not know: 101111 at the start of byte 2.
six_bits :
    check_and_correct_6bits firecode_checker (add_lists header (0 ∷ 0 ∷ 188 ∷ replicate 8 0))
    ≡ (false, add_lists header (0 ∷ 0 ∷ 188 ∷ replicate 8 0))
unfolding check_and_correct_6bits firecode_checker add_lists
six_bits = refl

abbrev silent : Outside ℕ
silent = record {
  show_frame_errors = λ n d. d;
  show_rs_errors = λ n d. d;
  show_aac_errors = λ n d. d;
  show_rs_corrections = λ n m d. d;
  is_stereo = λ b d. d;
  new_aac_frame = λ d. d + 1;
  put_frame = λ bytes d. d;
  process_pad = λ buffer count l1 l0 d. d;
  convert_mp4_to_pcm = λ sp frame d. (true, d);
  conceal_lost_frame = λ n d. d;
  conceal_dropouts = false;
}

-- Two columns, from byte 48 of the ring on.
abbrev two_columns : List ℕ
two_columns = header ++ replicate 209 0

abbrev weave : List ℕ → List ℕ → List ℕ
weave (x ∷ xs) (y ∷ ys) = x ∷ y ∷ weave xs ys
weave _ _ = []

abbrev ring : List ℕ
unfolding coded_column
ring =
    let woven = weave (coded_column two_columns 2 0) (coded_column two_columns 2 1) in
    drop 192 woven ++ take 192 woven

abbrev with_ring : Mp4Processor ℕ
unfolding new_mp4_processor
with_ring = record (new_mp4_processor 16 0) { frame_byte_vec = ring }

ring_coded : (j : ℕ) → j < 2 → rs_in ring 2 48 j 0 120 ≡ coded_column two_columns 2 j
unfolding rs_in ring coded_column enc dab_code data_column poly2power new_galois power2poly
    multiply_power
ring_coded zero h = refl
ring_coded (suc zero) h = refl
ring_coded (suc (suc j)) h = absurd (omega arith)

two_columns_pass : check firecode_checker two_columns ≡ true
unfolding check firecode_checker
two_columns_pass = refl

process_reed_solomon_frame-Coded_example :
    ((process_reed_solomon_frame silent 48 with_ring).0 ≡ true)
    × ((process_reed_solomon_frame silent 48 with_ring).1.out_vec ≡ two_columns)
    × ((process_reed_solomon_frame silent 48 with_ring).1.sum_rs_errors ≡ 0)
    × ((process_reed_solomon_frame silent 48 with_ring).1.sum_corrections ≡ 0)
    × ((process_reed_solomon_frame silent 48 with_ring).1.sum_fc_errors ≡ 0)
unfolding with_ring
process_reed_solomon_frame-Coded_example =
    process_reed_solomon_frame-Coded silent two_columns 48 with_ring (omega arith) refl refl
      (All-append IsSymbol header (replicate 209 0) header-IsSymbol
        (All-replicate IsSymbol 209 0 (omega arith)))
      two_columns_pass ring_coded

-- The fifth block arrives, and the four in front of it are zeros.
abbrev waiting : Mp4Processor ℕ
unfolding new_mp4_processor
waiting = record (new_mp4_processor 8 0) { blocks_in_buffer = 4; super_frame_sync = 1 }

abbrev ones : List Bool
ones = replicate 192 true

abbrev returned : Option (Mp4Processor ℕ) → Mp4Processor ℕ
returned none = waiting
returned (some t) = t

abbrev after_ones : Mp4Processor ℕ
unfolding add_to_frame waiting
after_ones = returned (add_to_frame silent ones waiting)

ones_return : add_to_frame silent ones waiting ≡ some after_ones
unfolding after_ones dec dab_code power2poly new_galois multiply_power poly2power pow_power
    multiply_poly divide_poly firecode_checker
ones_return = refl

add_to_frame-Step_example :
    (k : Verdict) × IsFound silent (count_frame silent (add_block silent ones waiting)) k
    × Step k 4 1 after_ones.blocks_in_buffer after_ones.super_frame_sync
    × (after_ones.block_fill_index ≡ 1)
    × (after_ones.blocks_in_buffer ≤ 4)
    × (after_ones.super_frame_sync ≤ 4)
unfolding waiting
add_to_frame-Step_example =
    add_to_frame-Step silent ones waiting after_ones (omega arith) (omega arith) ones_return

one_frame : add_frames silent (ones ∷ []) waiting ≡ some after_ones
unfolding add_frames
one_frame = ones_then (add_to_frame silent ones waiting) ones_return
  where
    ones_then :
        (m : Option (Mp4Processor ℕ)) → m ≡ some after_ones → (m >>= λ t. some t) ≡ some after_ones
    ones_then none e = e
    ones_then (some t) e = e

add_frames_resync_example :
    Accepts silent (ones ∷ []) waiting
    ⊎ ((after_ones.super_frame_sync ≡ 0) × (after_ones.blocks_in_buffer ≡ 4))
unfolding waiting
add_frames_resync_example =
    add_frames_resync silent (ones ∷ []) waiting after_ones (omega arith) (omega arith)
      (omega arith) refl one_frame

map_k_to_fft_bin_bijective_example :
    (real_carrier (map_k_to_fft_bin 5) < 1536)
    × (fft_index (map_k_to_fft_bin 5) < 2048)
    × (fft_index (map_k_to_fft_bin 5) % 2048
        ≡ (real_carrier (map_k_to_fft_bin 5)
            + (if ltb (real_carrier (map_k_to_fft_bin 5)) 768 then 1280 else 1281))
          % 2048)
    × (nominal (real_carrier (map_k_to_fft_bin 5)) ≡ 5)
    × (nominal 5 < 1536)
    × (real_carrier (map_k_to_fft_bin (nominal 5)) ≡ 5)
map_k_to_fft_bin_bijective_example = map_k_to_fft_bin_bijective 5 (omega arith)
