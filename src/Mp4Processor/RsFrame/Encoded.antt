-- ===== src/Mp4Processor/RsFrame/Encoded.antt =====
-- A super frame whose columns are code words comes out as its data.
use dabstar.Prelude.{
  ℕ, zero, suc, ◌+◌, ◌*◌, ◌≤◌, ◌<◌, ◌≡◌, refl, sym, ap, ◌∙◌, Bool, true, List, some, length, All,
  take, drop, leb, Bool-cases, inl, inr, arith,
}
use mathlib.Core.Path.{subst}
use dabstar.Xor.{IsSymbol}
use dabstar.ReedSolomon.Decoder.{dec}
use dabstar.ReedSolomon.Dab.{dab_code}
use dabstar.Firecode.{firecode_checker, check, check_and_correct_6bits, correct_6bits}
use dabstar.Mp4Processor.{Outside, Mp4Processor}
use dabstar.Mp4Processor.RsFrame.{
  rs_in, write_column, same_bytes, count_decoded, store_column, decode_columns, count_fire_code,
  process_reed_solomon_frame,
}
use dabstar.Mp4Processor.RsFrame.Columns.{
  data_column, coded_column, dec-coded_column, write_columns, write_columns_all,
}

module _ {ℓ} {D : Type ℓ} (o : Outside D) where
  -- What a column without errors leaves as it is.
  record Kept (s t : Mp4Processor D) : Type 0 where
    frame : t.frame_byte_vec ≡ s.frame_byte_vec
    dims : t.rs_dims ≡ s.rs_dims
    errors : t.sum_rs_errors ≡ s.sum_rs_errors
    corrections : t.sum_corrections ≡ s.sum_corrections
    fc_errors : t.sum_fc_errors ≡ s.sum_fc_errors

  Kept-trans : {s t u : Mp4Processor D} → Kept s t → Kept t u → Kept s u
  Kept-trans a b = record {
    frame = b.frame ∙ a.frame;
    dims = b.dims ∙ a.dims;
    errors = b.errors ∙ a.errors;
    corrections = b.corrections ∙ a.corrections;
    fc_errors = b.fc_errors ∙ a.fc_errors;
  }

  count_decoded-Kept :
      (s : Mp4Processor D)
      → Kept s (count_decoded o (some 0) s) × ((count_decoded o (some 0) s).out_vec ≡ s.out_vec)
  unfolding count_decoded
  count_decoded-Kept s = elim (Bool-cases (leb 100 (s.good_frames + 1))) [
    | inl b ↦ rw b (
      record {
        frame = refl;
        dims = refl;
        errors = refl;
        corrections = omega arith;
        fc_errors = refl;
      },
      refl,
    )
    | inr b ↦ rw b (
      record {
        frame = refl;
        dims = refl;
        errors = refl;
        corrections = omega arith;
        fc_errors = refl;
      },
      refl,
    )
  ]

  store_column-Kept :
      (s : Mp4Processor D) (j : ℕ) (bs : List ℕ)
      → Kept s (store_column o j (some 0, bs) s)
        × ((store_column o j (some 0, bs) s).out_vec ≡ write_column s.rs_dims j 0 bs s.out_vec)
  unfolding store_column
  store_column-Kept s j bs =
      let (kept, same) = count_decoded-Kept s in
      (
        record {
          frame = kept.frame;
          dims = kept.dims;
          errors = kept.errors;
          corrections = kept.corrections;
          fc_errors = kept.fc_errors;
        },
        ap (write_column s.rs_dims j 0 bs) same,
      )

  abbrev Coded : List ℕ → ℕ → ℕ → List ℕ → Type 0
  Coded xs d base frame = (j : ℕ) → j < d → rs_in frame d base j 0 120 ≡ coded_column xs d j

  decode_columns-Kept :
      (xs : List ℕ) (base n j : ℕ) (s : Mp4Processor D)
      → All IsSymbol xs
      → j + n ≤ s.rs_dims
      → Coded xs s.rs_dims base s.frame_byte_vec
      → Kept s (decode_columns o n j base s)
        × ((decode_columns o n j base s).out_vec ≡ write_columns xs s.rs_dims n j s.out_vec)
  unfolding decode_columns write_columns
  decode_columns-Kept xs base zero j s a h coded = (
    record { frame = refl; dims = refl; errors = refl; corrections = refl; fc_errors = refl },
    refl,
  )
  decode_columns-Kept xs base (suc n) j s a h coded =
      let column = data_column xs s.rs_dims j 0 110 in
      let t = store_column o j (some 0, column) s in
      let (kept, out) = store_column-Kept s j column in
      let result : dec dab_code (rs_in s.frame_byte_vec s.rs_dims base j 0 120) 135
          ≡ (some 0, column) =
        ap (λ ys. dec dab_code ys 135) (coded j (omega arith))
        ∙ dec-coded_column xs s.rs_dims j a in
      let (rest, rest_out) =
        decode_columns-Kept xs base n (j + 1) t a (omega (arith, kept.dims)) (λ c below.
          ap (λ f. rs_in f t.rs_dims base c 0 120) kept.frame
          ∙ ap (λ d. rs_in s.frame_byte_vec d base c 0 120) kept.dims
          ∙ coded c (omega (arith, below, kept.dims))
          ∙ ap (λ d. coded_column xs d c) (sym kept.dims)) in
      subst
        (λ r.
          Kept s (decode_columns o n (j + 1) base (store_column o j r s))
          × ((decode_columns o n (j + 1) base (store_column o j r s)).out_vec
              ≡ write_columns xs s.rs_dims n (j + 1) (write_column s.rs_dims j 0 column s.out_vec)))
        (sym result)
        (
          Kept-trans kept rest,
          rest_out
              ∙ ap (λ d. write_columns xs d n (j + 1) t.out_vec) kept.dims
              ∙ ap (write_columns xs s.rs_dims n (j + 1)) out,
        )

  check_and_correct_fine :
      (xs : List ℕ)
      → check firecode_checker xs ≡ true
      → check_and_correct_6bits firecode_checker xs ≡ (true, xs)
  unfolding check check_and_correct_6bits correct_6bits
  check_and_correct_fine xs h = rw h refl

  -- What the accepted result holds.
  Accepted : List ℕ → Mp4Processor D → Bool × Mp4Processor D → Type 0
  Accepted xs s r =
      (r.0 ≡ true)
      × (r.1.out_vec ≡ xs)
      × (r.1.sum_rs_errors ≡ s.sum_rs_errors)
      × (r.1.sum_corrections ≡ s.sum_corrections)
      × (r.1.sum_fc_errors ≡ s.sum_fc_errors)

  count_fire_code-Accepted :
      (xs : List ℕ) (base : ℕ) (s t : Mp4Processor D)
      → Kept s t
      → Accepted xs s (count_fire_code o base (true, xs) t)
  unfolding count_fire_code Accepted
  count_fire_code-Accepted xs base s t k =
      elim (Bool-cases (same_bytes (take 11 xs) (take 11 (drop base t.frame_byte_vec)))) [
        | inl b ↦ rw b (refl, refl, k.errors, k.corrections, k.fc_errors)
        | inr b ↦ rw b (refl, refl, k.errors, k.corrections, k.fc_errors)
      ]

  -- The frame's columns, from byte `base` on around the ring, are the code words of the columns of
  -- `xs`: 110 bytes to a column, which together pass the Fire code. Then the frame is accepted, the
  -- output is `xs`, and no error and no correction of the Reed-Solomon decoder or error of the Fire
  -- code is counted.
  pub process_reed_solomon_frame-Coded :
      (xs : List ℕ) (base : ℕ) (s : Mp4Processor D)
      → 0 < s.rs_dims
      → length xs ≡ 110 * s.rs_dims
      → length s.out_vec ≡ 110 * s.rs_dims
      → All IsSymbol xs
      → check firecode_checker xs ≡ true
      → ((j : ℕ)
          → j < s.rs_dims
          → rs_in s.frame_byte_vec s.rs_dims base j 0 120 ≡ coded_column xs s.rs_dims j)
      → ((process_reed_solomon_frame o base s).0 ≡ true)
        × ((process_reed_solomon_frame o base s).1.out_vec ≡ xs)
        × ((process_reed_solomon_frame o base s).1.sum_rs_errors ≡ s.sum_rs_errors)
        × ((process_reed_solomon_frame o base s).1.sum_corrections ≡ s.sum_corrections)
        × ((process_reed_solomon_frame o base s).1.sum_fc_errors ≡ s.sum_fc_errors)
  unfolding process_reed_solomon_frame Accepted
  process_reed_solomon_frame-Coded xs base s pos nx nout a fine coded =
      let decoded = decode_columns o s.rs_dims 0 base s in
      let (kept, written) = decode_columns-Kept xs base s.rs_dims 0 s a (omega arith) coded in
      let out : decoded.out_vec ≡ xs =
        written ∙ write_columns_all xs s.rs_dims s.out_vec pos nx nout in
      let result : check_and_correct_6bits firecode_checker decoded.out_vec ≡ (true, xs) =
        ap (check_and_correct_6bits firecode_checker) out ∙ check_and_correct_fine xs fine in
      subst (λ r. Accepted xs s (count_fire_code o base r decoded)) (sym result)
        (count_fire_code-Accepted xs base s decoded kept)
