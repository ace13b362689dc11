-- ===== src/Examples/Streams.antt =====
-- The dispersal, the de-interleaver, a back end and the FIC.
use dabstar.Prelude.{
  ℕ, zero, suc, ◌+◌, ◌-◌, ◌*◌, ◌<◌, ◌≡◌, refl, Bool, true, false, List, [], ◌∷◌, ◌++◌, some, length,
  replicate, length-replicate, arith, ltb, map, get_or,
}
use dabstar.SubChannel.Tables.{ProtLevel, long_form}
use dabstar.Protection.Marks.{block_size}
use dabstar.Protection.Eep.Fits.{cu_unit}
use dabstar.Protection.Deconvolve.{depuncture}
use dabstar.Backend.Dispersal.{disperse_vector, xor}
use dabstar.Backend.Dispersal.Sequence.{disperse_vector-recurrence}
use dabstar.Backend.Interleaver.{interleave_segment}
use dabstar.Backend.Interleaver.Delay.{delay, after_calls, deinterleave_frame}
use dabstar.Backend.Process.{Backend, new_backend}
use dabstar.Backend.Process.Frames.{HandsOn, backend_eep_frames}
use dabstar.FicDecoder.Puncture.{Table}
use dabstar.FicDecoder.Puncture.Size.{new_table-PuncturesFic}
use dabstar.FicDecoder.Collect.{Collector, process_block}
use dabstar.FicDecoder.Collect.Frame.{Holds, process_block_frame}
use dabstar.FicDecoder.Input.{FicDecoder, process_fic_input}
use dabstar.FicDecoder.Counters.{Finished, process_fic_input_finishes}

disperse_vector-recurrence_example :
    get_or (disperse_vector 8) (100 + 9) false
    ≡ xor (get_or (disperse_vector 8) 100 false) (get_or (disperse_vector 8) (100 + 4) false)
disperse_vector-recurrence_example = disperse_vector-recurrence 8 100 (omega arith)

-- Frames of two soft bits; the second column is sent eight segments late.
abbrev pair_frames : ℕ → List ℕ
pair_frames k = k ∷ (k + 100) ∷ []

abbrev pair_segments : ℕ → List ℕ
pair_segments n = n ∷ ((n - 8) + 100) ∷ []

pairs_sent :
    (k c : ℕ) → c < 2 → get_or (pair_segments (k + delay c)) c 0 ≡ get_or (pair_frames k) c 0
pairs_sent k zero h = omega arith
pairs_sent k (suc zero) h = omega arith
pairs_sent k (suc (suc c)) h = absurd (omega arith)

deinterleave_frame_example :
    (interleave_segment 0 2 (after_calls 0 2 pair_segments (5 + 16)) (pair_segments (5 + 16))).0
    ≡ some (pair_frames 5)
deinterleave_frame_example = deinterleave_frame 0 2 pair_segments pair_frames pairs_sent 5 refl

-- A decoder for the examples: the sign of each soft bit.
abbrev signs : List ℕ → List Bool
signs block = map (ltb 0) block

-- A sub-channel of 12 capacity units, and the same soft bit at all times.
abbrev steady : ℕ → List ℕ
steady k = replicate (cu_unit 0 2 * 2 * 64) 3

backend_eep_frames_example :
    (f : ProtLevel) × (long_form 0 2 (cu_unit 0 2 * 2) ≡ some f)
    × ((b₀ : Backend ℕ) × (new_backend 0 (cu_unit 0 2 * 2) false f.bit_rate f.prot_level ≡ some b₀)
        × (b₀.protection.viterbi_block ≡ replicate (block_size f.bit_rate) 0)
        × (b₀.disperse ≡ disperse_vector f.bit_rate)
        × HandsOn 0 signs steady b₀ (steady 1) 1)
backend_eep_frames_example =
    backend_eep_frames 0 signs steady 0 2 2 steady (omega arith) (omega arith) (omega arith)
      (λ k. length-replicate {A = ℕ} (cu_unit 0 2 * 2 * 64) 3) (λ k c h. refl) 1

-- A FIC's action that only notes the number and how many bits there were.
abbrev note_fic : ℕ → List ℕ → List (ℕ × ℕ) → List (ℕ × ℕ)
note_fic i bits s = (i, length bits) ∷ s

-- In the middle of a frame.
abbrev half_full : Collector ℕ (List (ℕ × ℕ))
half_full = record { soft_input = replicate 2304 9; index = 17; fic_idx = 2; decoder = [] }

process_block_frame_example :
    Holds note_fic
      (process_block note_fic
        (process_block note_fic
          (process_block note_fic half_full (replicate 2304 1 ++ replicate 768 2) 1)
          (replicate 1536 2 ++ replicate 1536 3)
          2)
        (replicate 768 3 ++ replicate 2304 4)
        3)
      []
      4
      (note_fic 3 (replicate 2304 4) (
        note_fic 2
          (replicate 1536 3 ++ replicate 768 3)
          (note_fic 1 (replicate 768 2 ++ replicate 1536 2) (note_fic 0 (replicate 2304 1) []))))
process_block_frame_example =
    process_block_frame note_fic half_full (replicate 2304 1) (replicate 768 2) (replicate 1536 2)
      (replicate 1536 3) (replicate 768 3) (replicate 2304 4) (length-replicate {A = ℕ} 2304 9)
      (
        length-replicate {A = ℕ} 2304 1,
        length-replicate {A = ℕ} 768 2,
        length-replicate {A = ℕ} 1536 2,
      )
      (
        length-replicate {A = ℕ} 1536 3,
        length-replicate {A = ℕ} 768 3,
        length-replicate {A = ℕ} 2304 4,
      )

abbrev no_bits : List ℕ → List Bool
no_bits block = replicate 768 false

abbrev count_bits : List ℕ → List Bool → List Bool → ℕ → ℕ → ℕ × ℕ
count_bits block puncture bits n e = (n + 2304, e)

abbrev fic_tables : Table
fic_tables = new_table-PuncturesFic.0

abbrev running : FicDecoder ℕ
running = record {
  is_running = true;
  addresses = fic_tables.addresses;
  puncture = fic_tables.puncture;
  viterbi_block = replicate 3096 0;
  fib_bits = replicate 4 [];
  fic_valid = replicate 4 false;
  fic_block = 39;
  fic_bits = 100;
  fic_errors = 6;
  success_ratio = 9;
  fibs = [];
}

process_fic_input_finishes_example :
    (block : List ℕ) × (t : FicDecoder ℕ) × (depuncture running.addresses
        (replicate 2304 1)
        running.viterbi_block
      ≡ some block)
    × (process_fic_input no_bits count_bits 2 (replicate 2304 1) running ≡ some t)
    × Finished 2 (no_bits block) running t
process_fic_input_finishes_example =
    process_fic_input_finishes no_bits count_bits 2 (replicate 2304 1) running fic_tables refl
      new_table-PuncturesFic.1 refl (length-replicate {A = ℕ} 2304 1)
      (record { ratio = omega arith; block = omega arith })
