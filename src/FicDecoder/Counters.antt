-- ===== src/FicDecoder/Counters.antt =====
-- What one FIC does to the decoder's state: the FIBs handed on, the valid flag and the counters.
use dabstar.Prelude.{
  ℕ, zero, suc, ◌+◌, ◌-◌, ◌%◌, ◌≤◌, ◌<◌, ◌≡◌, refl, sym, ap, ◌∙◌, Bool, Bool-cases, inl, inr, true,
  false, List, [], ◌∷◌, ◌++◌, some, ◌==◌, ◌&&◌, if◌then◌else◌, set, take, drop, length, arith,
}
use Prim.Native.Nat.{min}
use mathlib.Core.List.{append_assoc, append-nil}
use mathlib.Core.Option.{some-injective}
use dabstar.Crc.{check_crc_bits}
use dabstar.Backend.Dispersal.{descramble, fic_prbs}
use dabstar.Protection.Deconvolve.{depuncture}
use dabstar.Protection.Deconvolve.Laws.{depuncture_total}
use dabstar.FicDecoder.Puncture.{Table, new_table}
use dabstar.FicDecoder.Puncture.Size.{new_table-PuncturesFic}
use dabstar.FicDecoder.Input.{
  FicDecoder, fib_size_vit_out, fib_per_fic, count_fic, check_fib, check_fibs, finish_fic,
  process_fic_input,
}

-- The FIB, under the FIC's number, if its CRC is right.
unfoldable pub handed_on : ℕ → List Bool → List (ℕ × List Bool)
handed_on fic_idx fib = if check_crc_bits fib then (fic_idx, fib) ∷ [] else []

-- The FIBs of a FIC whose CRC is right, in order.
unfoldable pub passing : ℕ → ℕ → List Bool → List (ℕ × List Bool)
passing fic_idx zero bits = []
passing fic_idx (suc n) bits =
    handed_on fic_idx (take fib_size_vit_out bits) ++ passing fic_idx n (drop fib_size_vit_out bits)

length-passing : (fic_idx n : ℕ) (bits : List Bool) → length (passing fic_idx n bits) ≤ n
unfolding passing handed_on
length-passing fic_idx zero bits = omega arith
length-passing fic_idx (suc n) bits =
    let rest = length-passing fic_idx n (drop fib_size_vit_out bits) in ground (arith, rest)

-- Which of the FIBs have a right CRC.
unfoldable pub checked : ℕ → List Bool → List Bool
checked zero bits = []
checked (suc n) bits =
    check_crc_bits (take fib_size_vit_out bits) ∷ checked n (drop fib_size_vit_out bits)

-- The success ratio after such FIBs: each right one makes it greater by one up to 10, and each wrong
-- one less by one down to 0.
unfoldable pub ratio_after : ℕ → List Bool → ℕ
ratio_after r [] = r
ratio_after r (true ∷ cs) = ratio_after (min (r + 1) 10) cs
ratio_after r (false ∷ cs) = ratio_after (r - 1) cs

flag_step :
    (fic_idx n : ℕ) (fib : List Bool) (valid : Bool) (rest : List (ℕ × List Bool))
    → length rest ≤ n
    → ((if check_crc_bits fib then valid else false) && (length rest == n))
      ≡ (valid && (length (handed_on fic_idx fib ++ rest) == suc n))
unfolding handed_on
flag_step fic_idx n fib valid rest few = elim (Bool-cases (check_crc_bits fib)) [
  | inl good ↦ rw good (ground arith)
  | inr bad ↦ rw bad (ground (arith, few))
]

module _ {ℓ} {A : Type ℓ} where
  fibs-check_fib :
      (fic_idx : ℕ) (fib : List Bool) (s : FicDecoder A)
      → (check_fib fic_idx fib s).fibs ≡ s.fibs ++ handed_on fic_idx fib
  unfolding check_fib handed_on
  fibs-check_fib fic_idx fib s = elim (Bool-cases (check_crc_bits fib)) [
    | inl good ↦ rw good refl
    | inr bad ↦ rw bad (sym (append-nil s.fibs))
  ]

  fibs-check_fibs :
      (fic_idx n : ℕ) (bits : List Bool) (valid : Bool) (s : FicDecoder A)
      → (check_fibs fic_idx n bits valid s).1.fibs ≡ s.fibs ++ passing fic_idx n bits
  unfolding check_fibs passing
  fibs-check_fibs fic_idx zero bits valid s = sym (append-nil s.fibs)
  fibs-check_fibs fic_idx (suc n) bits valid s =
      let fib = take fib_size_vit_out bits in
      let rest = drop fib_size_vit_out bits in
      fibs-check_fibs fic_idx n rest (if check_crc_bits fib then valid else false)
        (check_fib fic_idx fib s)
      ∙ ap (λ l. l ++ passing fic_idx n rest) (fibs-check_fib fic_idx fib s)
      ∙ append_assoc s.fibs (handed_on fic_idx fib) (passing fic_idx n rest)

  -- The flag stays true exactly if every FIB passes.
  valid-check_fibs :
      (fic_idx n : ℕ) (bits : List Bool) (valid : Bool) (s : FicDecoder A)
      → (check_fibs fic_idx n bits valid s).0 ≡ (valid && (length (passing fic_idx n bits) == n))
  unfolding check_fibs passing
  valid-check_fibs fic_idx zero bits valid s = ground arith
  valid-check_fibs fic_idx (suc n) bits valid s =
      let fib = take fib_size_vit_out bits in
      let rest = drop fib_size_vit_out bits in
      valid-check_fibs fic_idx n rest (if check_crc_bits fib then valid else false)
        (check_fib fic_idx fib s)
      ∙ flag_step fic_idx n fib valid (passing fic_idx n rest) (length-passing fic_idx n rest)

  -- The counters stay in their ranges.
  pub record InRange (s : FicDecoder A) : Type 0 where
    pub ratio : s.success_ratio ≤ 10
    pub block : s.fic_block < 40

  check_fib-InRange :
      (fic_idx : ℕ) (fib : List Bool) (s : FicDecoder A)
      → InRange s
      → InRange (check_fib fic_idx fib s)
  unfolding check_fib
  check_fib-InRange fic_idx fib s r = record {
    ratio = ground (arith, r.ratio);
    block = ground (arith, r.block);
  }

  check_fibs-InRange :
      (fic_idx n : ℕ) (bits : List Bool) (valid : Bool) (s : FicDecoder A)
      → InRange s
      → InRange (check_fibs fic_idx n bits valid s).1
  unfolding check_fibs
  check_fibs-InRange fic_idx zero bits valid s r = r
  check_fibs-InRange fic_idx (suc n) bits valid s r =
      let fib = take fib_size_vit_out bits in
      check_fibs-InRange fic_idx n (drop fib_size_vit_out bits)
        (if check_crc_bits fib then valid else false) (check_fib fic_idx fib s)
        (check_fib-InRange fic_idx fib s r)

  ratio-check_fib :
      (fic_idx : ℕ) (fib : List Bool) (cs : List Bool) (s : FicDecoder A)
      → s.success_ratio ≤ 10
      → ratio_after (check_fib fic_idx fib s).success_ratio cs
        ≡ ratio_after s.success_ratio (check_crc_bits fib ∷ cs)
  unfolding check_fib ratio_after
  ratio-check_fib fic_idx fib cs s r = elim (Bool-cases (check_crc_bits fib)) [
    | inl good ↦ rw good (ap (λ k. ratio_after k cs) (ground (arith, r)))
    | inr bad ↦ rw bad (ap (λ k. ratio_after k cs) (ground (arith, r)))
  ]

  ratio-check_fibs :
      (fic_idx n : ℕ) (bits : List Bool) (valid : Bool) (s : FicDecoder A)
      → InRange s
      → (check_fibs fic_idx n bits valid s).1.success_ratio
        ≡ ratio_after s.success_ratio (checked n bits)
  unfolding check_fibs checked ratio_after
  ratio-check_fibs fic_idx zero bits valid s r = refl
  ratio-check_fibs fic_idx (suc n) bits valid s r =
      let fib = take fib_size_vit_out bits in
      let rest = drop fib_size_vit_out bits in
      ratio-check_fibs fic_idx n rest (if check_crc_bits fib then valid else false)
        (check_fib fic_idx fib s) (check_fib-InRange fic_idx fib s r)
      ∙ ratio-check_fib fic_idx fib (checked n rest) s r.ratio

  block-check_fibs :
      (fic_idx n : ℕ) (bits : List Bool) (valid : Bool) (s : FicDecoder A)
      → (check_fibs fic_idx n bits valid s).1.fic_block ≡ s.fic_block
  unfolding check_fibs check_fib
  block-check_fibs fic_idx zero bits valid s = refl
  block-check_fibs fic_idx (suc n) bits valid s =
      let fib = take fib_size_vit_out bits in
      block-check_fibs fic_idx n (drop fib_size_vit_out bits)
        (if check_crc_bits fib then valid else false) (check_fib fic_idx fib s)
      ∙ ground arith

  ratio-count_fic : (s : FicDecoder A) → (count_fic s).success_ratio ≡ s.success_ratio
  unfolding count_fic
  ratio-count_fic s = ground arith

  block-count_fic :
      (s : FicDecoder A) → s.fic_block < 40 → (count_fic s).fic_block ≡ (s.fic_block + 1) % 40
  unfolding count_fic
  block-count_fic s h = ground (arith, h)

  count_fic-InRange : (s : FicDecoder A) → InRange s → InRange (count_fic s)
  unfolding count_fic
  count_fic-InRange s r = record {
    ratio = ground (arith, r.ratio);
    block = ground (arith, r.block);
  }

  -- What a FIC with the decoded bits `bits` leaves: all FIBs that pass are handed on behind the
  -- earlier ones, the FIC's flag says whether all three passed, the success ratio follows the three
  -- checks, the block count goes around at 40, and both stay in range.
  pub record Finished (fic_idx : ℕ) (bits : List Bool) (s t : FicDecoder A) : Type 0 where
    pub handed : t.fibs ≡ s.fibs ++ passing fic_idx fib_per_fic (descramble bits fic_prbs)
    pub flag :
        t.fic_valid
        ≡ set s.fic_valid fic_idx
            (length (passing fic_idx fib_per_fic (descramble bits fic_prbs)) == fib_per_fic)
    pub ratio_follows :
        t.success_ratio
        ≡ ratio_after s.success_ratio (checked fib_per_fic (descramble bits fic_prbs))
    pub block_follows : t.fic_block ≡ (s.fic_block + 1) % 40
    pub in_range : InRange t

  fibs-count_fic : (s : FicDecoder A) → (count_fic s).fibs ≡ s.fibs
  unfolding count_fic
  fibs-count_fic s = ground arith

  fic_valid-check_fibs :
      (fic_idx n : ℕ) (bits : List Bool) (valid : Bool) (s : FicDecoder A)
      → (check_fibs fic_idx n bits valid s).1.fic_valid ≡ s.fic_valid
  unfolding check_fibs check_fib
  fic_valid-check_fibs fic_idx zero bits valid s = refl
  fic_valid-check_fibs fic_idx (suc n) bits valid s =
      let fib = take fib_size_vit_out bits in
      fic_valid-check_fibs fic_idx n (drop fib_size_vit_out bits)
        (if check_crc_bits fib then valid else false) (check_fib fic_idx fib s)
      ∙ ground arith

  fic_valid-count_fic : (s : FicDecoder A) → (count_fic s).fic_valid ≡ s.fic_valid
  unfolding count_fic
  fic_valid-count_fic s = ground arith

  finish_fic-Finished :
      (fic_idx : ℕ) (bits : List Bool) (new_bits new_errors : ℕ) (s : FicDecoder A)
      → InRange s
      → Finished fic_idx bits s (finish_fic fic_idx bits new_bits new_errors s)
  unfolding finish_fic
  finish_fic-Finished fic_idx bits new_bits new_errors s r =
      let fed = record s { fic_bits = new_bits; fic_errors = new_errors } in
      let counted = count_fic fed in
      let out = descramble bits fic_prbs in
      let ranged =
        check_fibs-InRange fic_idx fib_per_fic out true counted
          (count_fic-InRange fed (record { ratio = r.ratio; block = r.block })) in
      record {
        handed =
            fibs-check_fibs fic_idx fib_per_fic out true counted
            ∙ ap (λ l. l ++ passing fic_idx fib_per_fic out) (fibs-count_fic fed);
        flag =
            rw (fic_valid-check_fibs fic_idx fib_per_fic out true counted, fic_valid-count_fic fed)
              (ap (set s.fic_valid fic_idx)
                (valid-check_fibs fic_idx fib_per_fic out true counted));
        ratio_follows =
            ratio-check_fibs fic_idx fib_per_fic out true counted
              (count_fic-InRange fed (record { ratio = r.ratio; block = r.block }))
            ∙ ap (λ k. ratio_after k (checked fib_per_fic out)) (ratio-count_fic fed);
        block_follows =
            block-check_fibs fic_idx fib_per_fic out true counted ∙ block-count_fic fed r.block;
        in_range = record { ratio = ranged.ratio; block = ranged.block };
      }

  -- With the constructor's addresses, a running decoder reads inside the 2304 soft bits of a FIC and
  -- comes to an end: it hands on exactly the FIBs whose CRC is right, in order, and sets the FIC's
  -- flag to whether all three are. The success ratio goes up by one for each of them that is, to 10
  -- at most, and down by one for each that is not, to 0 at least; the block count goes around at 40.
  pub process_fic_input_finishes :
      (viterbi : List A → List Bool)
      → (calculate_ber : List A → List Bool → List Bool → ℕ → ℕ → ℕ × ℕ)
      → (fic_idx : ℕ) (soft_input : List A) (s : FicDecoder A) (tables : Table)
      → s.is_running ≡ true
      → new_table ≡ some tables
      → s.addresses ≡ tables.addresses
      → length soft_input ≡ 2304
      → InRange s
      → (block : List A) × (t : FicDecoder A) × (depuncture s.addresses soft_input s.viterbi_block
          ≡ some block)
        × (process_fic_input viterbi calculate_ber fic_idx soft_input s ≡ some t)
        × Finished fic_idx (viterbi block) s t
  unfolding process_fic_input
  process_fic_input_finishes viterbi calculate_ber fic_idx soft_input s tables on made same sized
        r =
      let (made', e', fic) = new_table-PuncturesFic in
      let count : length s.addresses ≡ 2304 =
        ap length same
        ∙ ap (λ q. length q.addresses) (some-injective _ _ (sym made ∙ e'))
        ∙ fic.soft_bits in
      let (block, e) = depuncture_total s.addresses soft_input s.viterbi_block (omega arith) in
      let ber = calculate_ber block s.puncture (viterbi block) s.fic_bits s.fic_errors in
      let fed = record s { viterbi_block = block } in
      let f =
        finish_fic-Finished fic_idx (viterbi block) ber.0 ber.1 fed
          (record { ratio = r.ratio; block = r.block }) in
      (
        block,
        finish_fic fic_idx (viterbi block) ber.0 ber.1 fed,
        e,
        rw (on, e) refl,
        record {
          handed = f.handed;
          flag = f.flag;
          ratio_follows = f.ratio_follows;
          block_follows = f.block_follows;
          in_range = f.in_range;
        },
      )
