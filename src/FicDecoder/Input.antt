-- ===== src/FicDecoder/Input.antt =====
-- _process_fic_input: one FIC from 2304 soft bits to three FIBs. The Viterbi decoder and its bit
-- error rate are parameters, and the FIB decoder is the list of the FIBs that it was given.
use dabstar.Prelude.{
  ℕ, zero, suc, ◌+◌, ◌-◌, ◌/◌, Bool, true, false, List, [], ◌∷◌, ◌++◌, Option, some, ◌==◌, ltb,
  if◌then◌else◌, set, take, drop, ◌>>=◌,
}
use dabstar.Backend.Dispersal.{descramble, fic_prbs}
use dabstar.Crc.{check_crc_bits}
use dabstar.Protection.Deconvolve.{depuncture}

-- The fields that a FIC changes, and the constructor's tables; `fib_bits` is mFibBitsEntireFrame, a
-- list of 768 bits for each FIC.
pub record FicDecoder {ℓ} (A : Type ℓ) : Type ℓ where
  pub is_running : Bool
  pub addresses : List ℕ
  pub puncture : List Bool
  pub viterbi_block : List A
  pub fib_bits : List (List Bool)
  pub fic_valid : List Bool
  pub fic_block : ℕ
  pub fic_bits : ℕ
  pub fic_errors : ℕ
  pub success_ratio : ℕ
  pub fibs : List (ℕ × List Bool)

-- cFibSizeVitOut, cFibPerFic
abbrev pub fib_size_vit_out : ℕ
fib_size_vit_out = 256

abbrev pub fib_per_fic : ℕ
fib_per_fic = 3

module _ {ℓ} {A : Type ℓ} where
  -- The counter for the status signal; every 40 FICs the counts of the bit error rate are halved.
  unfoldable pub count_fic : FicDecoder A → FicDecoder A
  count_fic s =
      if s.fic_block + 1 == 40
      then record s { fic_block = 0; fic_errors = s.fic_errors / 2; fic_bits = s.fic_bits / 2 }
      else record s { fic_block = s.fic_block + 1 }

  -- One FIB: handed on if its CRC is right, and the ratio counts up or down.
  unfoldable pub check_fib : ℕ → List Bool → FicDecoder A → FicDecoder A
  check_fib fic_idx fib s =
      if check_crc_bits fib
      then record s {
        fibs = s.fibs ++ ((fic_idx, fib) ∷ []);
        success_ratio = (if ltb s.success_ratio 10 then s.success_ratio + 1 else s.success_ratio);
      }
      else record s {
        success_ratio = (if ltb 0 s.success_ratio then s.success_ratio - 1 else s.success_ratio);
      }

  -- The loop over the FIBs left, with oFicValid.
  unfoldable pub check_fibs : ℕ → ℕ → List Bool → Bool → FicDecoder A → Bool × FicDecoder A
  check_fibs fic_idx zero bits valid s = (valid, s)
  check_fibs fic_idx (suc n) bits valid s =
      let fib = take fib_size_vit_out bits in
      check_fibs fic_idx n (drop fib_size_vit_out bits)
        (if check_crc_bits fib then valid else false) (check_fib fic_idx fib s)

  -- The FIC after the decoder: `bits` are its 768 bits, `ber` the new counts of bits and errors.
  unfoldable pub finish_fic : ℕ → List Bool → ℕ → ℕ → FicDecoder A → FicDecoder A
  unfolding count_fic check_fibs
  finish_fic fic_idx bits new_bits new_errors s =
      let counted = count_fic (record s { fic_bits = new_bits; fic_errors = new_errors }) in
      let fib_bits = descramble bits fic_prbs in
      let (valid, t) = check_fibs fic_idx fib_per_fic fib_bits true counted in
      record t {
        fib_bits = set t.fib_bits fic_idx fib_bits;
        fic_valid = set t.fic_valid fic_idx valid;
      }

  -- `viterbi` gives the decoded bits; `calculate_ber` the new mFicBits and mFicErrors. `none` is a
  -- read behind the soft bits.
  unfoldable pub process_fic_input :
      (List A → List Bool)
      → (List A → List Bool → List Bool → ℕ → ℕ → ℕ × ℕ)
      → ℕ
      → List A
      → FicDecoder A
      → Option (FicDecoder A)
  unfolding finish_fic
  process_fic_input viterbi calculate_ber fic_idx soft_input s =
      if s.is_running
      then (depuncture s.addresses soft_input s.viterbi_block >>= λ block.
          let bits = viterbi block in
          let (new_bits, new_errors) =
            calculate_ber block s.puncture bits s.fic_bits s.fic_errors in
          some (finish_fic fic_idx bits new_bits new_errors (record s { viterbi_block = block })))
      else some s
