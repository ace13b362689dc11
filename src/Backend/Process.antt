-- ===== src/Backend/Process.antt =====
-- base/backend/backend.cpp: the constructor and `process`, in the build without threads, up to the
-- frame that goes to the driver. The Viterbi decoder is a parameter.
pub mod Frames
use dabstar.Prelude.{ℕ, ◌*◌, Bool, List, Option, none, some, ◌>>=◌}
use dabstar.Protection.Deconvolve.{Protection, new_protection, deconvolve}
use dabstar.Backend.Dispersal.{disperse_vector, descramble}
use dabstar.Backend.Interleaver.{Interleaver, new_interleaver, interleave_segment}

pub record Backend {ℓ} (A : Type ℓ) : Type ℓ where
  pub fragment_size : ℕ
  pub interleaver : Interleaver A
  pub protection : Protection A
  pub disperse : List Bool

-- cCuSizeBits
abbrev pub cu_size_bits : ℕ
cu_size_bits = 64

module _ {ℓ} {A : Type ℓ} (zero_bit : A) where
  unfoldable pub new_backend : ℕ → Bool → ℕ → ℕ → Option (Backend A)
  new_backend cu_size short_form bit_rate prot_level =
      new_protection zero_bit short_form bit_rate prot_level >>= λ p. some (record {
        fragment_size = cu_size * cu_size_bits;
        interleaver = new_interleaver zero_bit (cu_size * cu_size_bits);
        protection = p;
        disperse = disperse_vector bit_rate;
      })

  -- The part of `_process_segment` behind the early return: deconvolve, then descramble.
  unfoldable pub finish_segment :
      (List A → List Bool) → Backend A → Option (List A) → Option (Option (List Bool) × Backend A)
  finish_segment viterbi b none = some (none, b)
  finish_segment viterbi b (some temp) = deconvolve viterbi b.protection temp >>= λ r.
      some (some (descramble r.0 b.disperse), record b { protection = r.1 })

  -- `process`: the frame for the driver, if one is complete, and the new state.
  unfoldable pub process :
      (List A → List Bool) → Backend A → List A → Option (Option (List Bool) × Backend A)
  unfolding finish_segment
  process viterbi b i_data =
      let (temp, interleaver) = interleave_segment zero_bit b.fragment_size b.interleaver i_data in
      finish_segment viterbi (record b { interleaver = interleaver }) temp
