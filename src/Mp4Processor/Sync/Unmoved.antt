-- ===== src/Mp4Processor/Sync/Unmoved.antt =====
-- _process_super_frame leaves alone what add_to_frame keeps for the synchronisation.
use dabstar.Prelude.{
  ℕ, zero, suc, ◌+◌, ◌/◌, ◌%◌, ◌≡◌, refl, ◌∙◌, Bool, true, false, List, [], ◌∷◌, Option, none, some,
  ◌>>=◌, ◌==◌, ltb, leb, ◌||◌, Bool-cases, inl, inr, get_or, take, drop,
}
use mathlib.Core.Path.{subst}
use dabstar.Crc.Bytes.{check_crc_bytes}
use dabstar.ReedSolomon.Decoder.{dec}
use dabstar.ReedSolomon.Dab.{dab_code}
use dabstar.Firecode.{firecode_checker, check_and_correct_6bits}
use dabstar.Mp4Processor.{Outside, Mp4Processor, StreamParms}
use dabstar.Mp4Processor.RsFrame.{
  rs_in, same_bytes, count_decoded, store_column, decode_columns, count_fire_code,
  process_reed_solomon_frame,
}
use dabstar.Mp4Processor.AccessUnits.{
  stream_parameters, au_starts, read_bytes, aac_frame_len, aac_core_frame_bytes, build_aac_stream,
  conceal, handle_pad, handle_decoded, handle_audio, handle_length, handle_access_unit,
  count_aac_frame, handle_access_units, handle_super_frame, process_super_frame,
}

pub record Unmoved {ℓ} {D : Type ℓ} (s t : Mp4Processor D) : Type 0 where
  pub bit_rate : t.bit_rate ≡ s.bit_rate
  pub fill : t.block_fill_index ≡ s.block_fill_index
  pub blocks : t.blocks_in_buffer ≡ s.blocks_in_buffer
  pub sync : t.super_frame_sync ≡ s.super_frame_sync

module _ {ℓ} {D : Type ℓ} where
  same : {s : Mp4Processor D} → Unmoved s s
  same = record { bit_rate = refl; fill = refl; blocks = refl; sync = refl }

  Unmoved_trans : {s t u : Mp4Processor D} → Unmoved s t → Unmoved t u → Unmoved s u
  Unmoved_trans a b = record {
    bit_rate = b.bit_rate ∙ a.bit_rate;
    fill = b.fill ∙ a.fill;
    blocks = b.blocks ∙ a.blocks;
    sync = b.sync ∙ a.sync;
  }

  -- The same for a step that may fail.
  Held : Mp4Processor D → Option (Mp4Processor D) → Type 0
  Held s none = Unit
  Held s (some t) = Unmoved s t

  Held-bind :
      (s : Mp4Processor D) (m : Option (Mp4Processor D))
      (k : Mp4Processor D → Option (Mp4Processor D))
      → Held s m
      → ((t : Mp4Processor D) → Unmoved s t → Held s (k t))
      → Held s (m >>= k)
  unfolding Held
  Held-bind s none k h next = tt
  Held-bind s (some t) k h next = next t h

  Held-trans :
      (s t : Mp4Processor D) (m : Option (Mp4Processor D)) → Unmoved s t → Held t m → Held s m
  unfolding Held
  Held-trans s t none a h = tt
  Held-trans s t (some u) a h = Unmoved_trans a h

  Held-read :
      (s : Mp4Processor D) (m : Option (List ℕ)) (k : List ℕ → Option (Mp4Processor D))
      → ((bytes : List ℕ) → Held s (k bytes))
      → Held s (m >>= k)
  unfolding Held
  Held-read s none k next = tt
  Held-read s (some bytes) k next = next bytes

module _ {ℓ} {D : Type ℓ} (o : Outside D) where
  count_decoded-Unmoved : (ler : Option ℕ) (s : Mp4Processor D) → Unmoved s (count_decoded o ler s)
  unfolding count_decoded
  count_decoded-Unmoved none s = record { bit_rate = refl; fill = refl; blocks = refl; sync = refl }
  count_decoded-Unmoved (some ler) s = elim (Bool-cases (leb 100 (s.good_frames + 1))) [
    | inl b ↦ rw b (record { bit_rate = refl; fill = refl; blocks = refl; sync = refl })
    | inr b ↦ rw b (record { bit_rate = refl; fill = refl; blocks = refl; sync = refl })
  ]

  store_column-Unmoved :
      (j : ℕ) (r : Option ℕ × List ℕ) (s : Mp4Processor D) → Unmoved s (store_column o j r s)
  unfolding store_column
  store_column-Unmoved j r s =
      let u = count_decoded-Unmoved r.0 s in
      record { bit_rate = u.bit_rate; fill = u.fill; blocks = u.blocks; sync = u.sync }

  decode_columns-Unmoved :
      (n j base : ℕ) (s : Mp4Processor D) → Unmoved s (decode_columns o n j base s)
  unfolding decode_columns
  decode_columns-Unmoved zero j base s = same
  decode_columns-Unmoved (suc n) j base s =
      let r = dec dab_code (rs_in s.frame_byte_vec s.rs_dims base j 0 120) 135 in
      Unmoved_trans (store_column-Unmoved j r s)
        (decode_columns-Unmoved n (j + 1) base (store_column o j r s))

  count_fire_code-Unmoved :
      (base : ℕ) (r : Bool × List ℕ) (s : Mp4Processor D) → Unmoved s (count_fire_code o base r s).1
  unfolding count_fire_code
  count_fire_code-Unmoved base (false, out) s = record {
    bit_rate = refl;
    fill = refl;
    blocks = refl;
    sync = refl;
  }
  count_fire_code-Unmoved base (true, out) s =
      elim (Bool-cases (same_bytes (take 11 out) (take 11 (drop base s.frame_byte_vec)))) [
        | inl b ↦ rw b (record { bit_rate = refl; fill = refl; blocks = refl; sync = refl })
        | inr b ↦ rw b (record { bit_rate = refl; fill = refl; blocks = refl; sync = refl })
      ]

  process_reed_solomon_frame-Unmoved :
      (base : ℕ) (s : Mp4Processor D) → Unmoved s (process_reed_solomon_frame o base s).1
  unfolding process_reed_solomon_frame
  process_reed_solomon_frame-Unmoved base s =
      let t = decode_columns o s.rs_dims 0 base s in
      Unmoved_trans (decode_columns-Unmoved s.rs_dims 0 base s)
        (count_fire_code-Unmoved base (check_and_correct_6bits firecode_checker t.out_vec) t)

  conceal-Unmoved : (sp : StreamParms) (s : Mp4Processor D) → Unmoved s (conceal o sp s)
  unfolding conceal
  conceal-Unmoved sp s = elim (Bool-cases o.conceal_dropouts) [
    | inl b ↦ rw b (record { bit_rate = refl; fill = refl; blocks = refl; sync = refl })
    | inr b ↦ rw b same
  ]

  handle_pad-Held : (start : ℕ) (s : Mp4Processor D) → Held s (handle_pad o start s)
  unfolding handle_pad Held
  handle_pad-Held start s =
      let count = get_or s.out_vec (start + 1) 0 in
      elim (Bool-cases (get_or s.out_vec start 0 / 32 % 8 == 4)) [
        | inr b ↦ rw b same
        | inl b ↦ elim (Bool-cases (ltb count 2)) [
          | inl c ↦ rw (b, c) tt
          | inr c ↦
              rw (b, c)
                (Held-read s (read_bytes s.out_vec (start + 2) count) _
                  (λ buffer. record { bit_rate = refl; fill = refl; blocks = refl; sync = refl }))
        ]
      ]

  handle_decoded-Unmoved :
      (sp : StreamParms) (r : Bool × D) (s : Mp4Processor D) → Unmoved s (handle_decoded o sp r s)
  unfolding handle_decoded
  handle_decoded-Unmoved sp (true, after) s = record {
    bit_rate = refl;
    fill = refl;
    blocks = refl;
    sync = refl;
  }
  handle_decoded-Unmoved sp (false, after) s =
      let u = conceal-Unmoved sp (record s {
        outside = o.is_stereo (sp.aac_channel_mode == 1 || sp.ps_flag == 1) after;
        aac_errors = s.aac_errors + 1;
      }) in
      record { bit_rate = u.bit_rate; fill = u.fill; blocks = u.blocks; sync = u.sync }

  handle_audio-Held :
      (sp : StreamParms) (start len : ℕ) (s : Mp4Processor D)
      → Held s (handle_audio o sp start len s)
  unfolding handle_audio Held
  handle_audio-Held sp start len s = Held-read s (read_bytes s.out_vec start len) _ (λ frame.
      let written : Mp4Processor D = record s {
        sum_good_crcs = s.sum_good_crcs + 1;
        outside = o.new_aac_frame (o.put_frame (build_aac_stream len sp frame) s.outside);
      } in
      let unmoved : Unmoved s written = record {
        bit_rate = refl;
        fill = refl;
        blocks = refl;
        sync = refl;
      } in
      Held-trans s written _ unmoved (
        Held-bind written (handle_pad o start written) _ (handle_pad-Held start written) (λ t u.
          Unmoved_trans u (handle_decoded-Unmoved sp (o.convert_mp4_to_pcm sp frame t.outside) t))))

  concealed : (sp : StreamParms) (s t : Mp4Processor D) → Unmoved s t → Unmoved s (conceal o sp t)
  concealed sp s t u = Unmoved_trans u (conceal-Unmoved sp t)

  handle_length-Held :
      (sp : StreamParms) (start : ℕ) (len : Option ℕ) (s : Mp4Processor D)
      → Held s (handle_length o sp start len s)
  unfolding handle_length Held
  handle_length-Held sp start none s =
      concealed sp s _ (record { bit_rate = refl; fill = refl; blocks = refl; sync = refl })
  handle_length-Held sp start (some len) s = elim (Bool-cases (ltb aac_core_frame_bytes len)) [
    | inl b ↦
        rw b
          (concealed sp s _ (record { bit_rate = refl; fill = refl; blocks = refl; sync = refl }))
    | inr b ↦ rw b (
        Held-read s (read_bytes s.out_vec start (len + 2)) _ (λ unit.
          elim (Bool-cases (check_crc_bytes unit len)) [
            | inl c ↦ rw c (handle_audio-Held sp start len s)
            | inr c ↦ rw c (
                concealed sp s _
                  (record { bit_rate = refl; fill = refl; blocks = refl; sync = refl }))
          ]))
  ]

  handle_access_unit-Held :
      (sp : StreamParms) (start next : ℕ) (s : Mp4Processor D)
      → Held s (handle_access_unit o sp start next s)
  unfolding handle_access_unit
  handle_access_unit-Held sp start next s = handle_length-Held sp start (aac_frame_len start next) s

  count_aac_frame-Unmoved : (s : Mp4Processor D) → Unmoved s (count_aac_frame o s)
  unfolding count_aac_frame
  count_aac_frame-Unmoved s = elim (Bool-cases (ltb 25 (s.aac_frames + 1))) [
    | inl b ↦ rw b (record { bit_rate = refl; fill = refl; blocks = refl; sync = refl })
    | inr b ↦ rw b (record { bit_rate = refl; fill = refl; blocks = refl; sync = refl })
  ]

  handle_access_units-Held :
      (sp : StreamParms) (starts : List ℕ) (s : Mp4Processor D)
      → Held s (handle_access_units o sp starts s)
  unfolding handle_access_units Held
  handle_access_units-Held sp [] s = same
  handle_access_units-Held sp (start ∷ []) s = same
  handle_access_units-Held sp (start ∷ next ∷ starts) s =
      Held-bind s (handle_access_unit o sp start next s) _ (handle_access_unit-Held sp start next s)
        (λ t u.
          Held-trans s (count_aac_frame o t) _ (Unmoved_trans u (count_aac_frame-Unmoved t))
            (handle_access_units-Held sp (next ∷ starts) (count_aac_frame o t)))

  HeldPair : Mp4Processor D → Option (Bool × Mp4Processor D) → Type 0
  HeldPair s none = Unit
  HeldPair s (some r) = Unmoved s r.1

  handled :
      (s : Mp4Processor D) (m : Option (Mp4Processor D))
      → Held s m
      → HeldPair s (m >>= λ t. some (true, t))
  unfolding Held HeldPair
  handled s none h = tt
  handled s (some t) h = h

  handle_super_frame-Held :
      (s : Mp4Processor D) (r : Bool × Mp4Processor D)
      → Unmoved s r.1
      → HeldPair s (handle_super_frame o r)
  unfolding handle_super_frame HeldPair
  handle_super_frame-Held s (false, t) u = u
  handle_super_frame-Held s (true, t) u =
      let sp = stream_parameters t.out_vec in
      let starts = au_starts t.out_vec t.bit_rate sp.dac_rate sp.sbr_flag in
      handled s (handle_access_units o sp starts t)
        (Held-trans s t _ u (handle_access_units-Held sp starts t))

  -- Whatever the super frame holds.
  pub process_super_frame-Unmoved :
      (base : ℕ) (s : Mp4Processor D) (r : Bool × Mp4Processor D)
      → process_super_frame o base s ≡ some r
      → Unmoved s r.1
  unfolding process_super_frame HeldPair
  process_super_frame-Unmoved base s r h = subst (HeldPair s) h (
      handle_super_frame-Held s (process_reed_solomon_frame o base s)
        (process_reed_solomon_frame-Unmoved base s))
