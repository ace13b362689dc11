-- ===== src/Backend/Process/Frames.antt =====
-- The frames that a sub-channel's back end hands on, over all calls.
use native.Mathlib.Decide.{dec_lt}
use mathlib.Core.Path.{subst, ap₂}
use dabstar.Prelude.{
  ℕ, zero, suc, ◌+◌, ◌-◌, ◌*◌, ◌<◌, ◌≡◌, refl, sym, ap, ◌∙◌, Bool, false, List, Option, none, some,
  get_or, length, replicate, length-replicate, arith, ◌>>=◌,
}
use dabstar.SubChannel.Tables.{ProtLevel, long_form}
use dabstar.Protection.Marks.{block_size}
use dabstar.Protection.Marks.Valid.{Rises}
use dabstar.Protection.Eep.Fits.{cu_unit, eep_protection-Fits}
use dabstar.Protection.Deconvolve.{new_protection, depuncture, deconvolve}
use dabstar.Protection.Deconvolve.Laws.{depuncture_total, depuncture_again}
use dabstar.Backend.Dispersal.{disperse_vector, descramble}
use dabstar.Backend.Interleaver.{interleave_segment, new_interleaver}
use dabstar.Backend.Interleaver.Delay.{delay, after_calls, first_calls, deinterleave_frame}
use dabstar.Backend.Process.{Backend, new_backend, finish_segment, process}

module _ {ℓ} {A : Type ℓ} (z : A) (viterbi : List A → List Bool) (segments : ℕ → List A) where
  -- The state before call `t`, from the state `b`; `none` once an access fell outside an array.
  pub after_processing : Backend A → ℕ → Option (Backend A)
  after_processing b zero = some b
  after_processing b (suc t) =
      after_processing b t >>= λ b'. process z viterbi b' (segments t) >>= λ r. some r.1

  module _ (b₀ : Backend A) (frames : ℕ → List A)
      (sent : (k c : ℕ)
        → c < b₀.fragment_size
        → get_or (segments (k + delay c)) c z ≡ get_or (frames k) c z)
      (sized : (k : ℕ) → length (frames k) ≡ b₀.fragment_size)
      (fresh : b₀.interleaver ≡ new_interleaver z b₀.fragment_size)
      (used : length b₀.protection.addresses ≡ b₀.fragment_size)
      (inside : Rises 0 b₀.protection.addresses (length b₀.protection.viterbi_block)) where
    -- Before call `t` only the two buffers differ from the start, and the block's old contents do
    -- not matter for the next frame.
    record Ready (t : ℕ) (b : Backend A) : Type ℓ where
      width : b.fragment_size ≡ b₀.fragment_size
      buffer : b.interleaver ≡ after_calls z b₀.fragment_size segments t
      addresses : b.protection.addresses ≡ b₀.protection.addresses
      dispersal : b.disperse ≡ b₀.disperse
      clean :
          (w : List A)
          → length w ≡ b₀.fragment_size
          → depuncture b₀.protection.addresses w b.protection.viterbi_block
            ≡ depuncture b₀.protection.addresses w b₀.protection.viterbi_block

    segment_of :
        (t : ℕ) (b : Backend A)
        → Ready t b
        → interleave_segment z b.fragment_size b.interleaver (segments t)
          ≡ interleave_segment z b₀.fragment_size
              (after_calls z b₀.fragment_size segments t)
              (segments t)
    segment_of t b r = ap₂ (λ n s. interleave_segment z n s (segments t)) r.width r.buffer

    step_filling :
        (t : ℕ) (b : Backend A)
        → t < 16
        → Ready t b
        → (b' : Backend A) × (process z viterbi b (segments t) ≡ some (none, b')) × Ready (suc t) b'
    unfolding process finish_segment after_calls
    step_filling t b h r =
        let same = segment_of t b r in
        let seg = interleave_segment z b.fragment_size b.interleaver (segments t) in
        let b' = record b { interleaver = seg.1 } in
        (
          b',
          ap (finish_segment z viterbi b')
              (ap (λ x. x.0) same ∙ first_calls z b₀.fragment_size segments t h),
          record {
            width = r.width;
            buffer = ap (λ x. x.1) same;
            addresses = r.addresses;
            dispersal = r.dispersal;
            clean = r.clean;
          },
        )

    step_frame :
        (t : ℕ) (b : Backend A)
        → Ready (t + 16) b
        → (block : List A) × (depuncture b₀.protection.addresses
              (frames t)
              b₀.protection.viterbi_block
            ≡ some block)
          × ((b' : Backend A) × (process z viterbi b (segments (t + 16))
                ≡ some (some (descramble (viterbi block) b₀.disperse), b'))
              × Ready (suc (t + 16)) b')
    unfolding process finish_segment deconvolve after_calls
    step_frame t b r =
        let same = segment_of (t + 16) b r in
        let seg = interleave_segment z b.fragment_size b.interleaver (segments (t + 16)) in
        let adr = b₀.protection.addresses in
        let (block, e) =
          depuncture_total adr (frames t) b₀.protection.viterbi_block
            (omega (arith, used, sized t)) in
        let b' = record b {
          interleaver = seg.1;
          protection = record b.protection { viterbi_block = block };
        } in
        let now : depuncture b.protection.addresses (frames t) b.protection.viterbi_block
            ≡ some block =
          ap (λ a. depuncture a (frames t) b.protection.viterbi_block) r.addresses
          ∙ r.clean (frames t) (sized t)
          ∙ e in
        (
          block,
          e,
          (
            b',
            ap (finish_segment z viterbi (record b { interleaver = seg.1 })) (
                  ap (λ x. x.0) same
                  ∙ deinterleave_frame z b₀.fragment_size segments frames sent t (sized t))
                ∙ rw (now, r.dispersal),
            record {
              width = r.width;
              buffer = ap (λ x. x.1) same;
              addresses = r.addresses;
              dispersal = r.dispersal;
              clean = λ w hw.
                  depuncture_again adr 0 _ (frames t) w b₀.protection.viterbi_block block inside
                    (omega (arith, used, hw)) e;
            },
          ),
        )

    start-Ready : Ready 0 b₀
    unfolding after_calls
    start-Ready = record {
      width = refl;
      buffer = fresh;
      addresses = refl;
      dispersal = refl;
      clean = λ w h. refl;
    }

    -- The state before any call, by the two steps.
    ready : (t : ℕ) → (b : Backend A) × (after_processing b₀ t ≡ some b) × Ready t b
    unfolding after_processing
    ready zero = (b₀, refl, start-Ready)
    ready (suc t) =
        let (b, e, r) = ready t in
        elim (dec_lt t 16) [
          | yes h ↦ let (b', e', r') = step_filling t b h r in (b', rw (e, e'), r')
          | no h ↦
              let back : t - 16 + 16 ≡ t = omega arith in
              let (block, eb, rest) = step_frame (t - 16) b (subst (λ n. Ready n b) (sym back) r) in
              let (b', e', r') = rest in
              (
                b',
                rw (
                  e,
                  subst
                      (λ n.
                        process z viterbi b (segments n)
                        ≡ some (some (descramble (viterbi block) b₀.disperse), b'))
                      back e',
                ),
                subst (λ n. Ready (suc n) b') back r',
              )
        ]

    -- The call with segment `t + 16` hands on frame `t`, whatever came before.
    pub process_frame :
        (t : ℕ)
        → (b : Backend A) × (after_processing b₀ (t + 16) ≡ some b)
          × ((block : List A) × (depuncture b₀.protection.addresses
                  (frames t)
                  b₀.protection.viterbi_block
                ≡ some block)
              × ((b' : Backend A) × (process z viterbi b (segments (t + 16))
                    ≡ some (some (descramble (viterbi block) b₀.disperse), b'))))
    process_frame t =
        let (b, e, r) = ready (t + 16) in
        let (block, eb, rest) = step_frame t b r in (b, e, (block, eb, (rest.0, rest.1)))

  -- What call `t + 16` of a back end, with the state `b₀` at first, does for frame `t`: the bits that
  -- depuncturing, decoding and descrambling give for that frame alone.
  pub record HandsOn (b₀ : Backend A) (frame : List A) (t : ℕ) : Type ℓ where
    pub before : Backend A
    pub after : Backend A
    pub block : List A
    pub reached : after_processing b₀ (t + 16) ≡ some before
    pub placed : depuncture b₀.protection.addresses frame b₀.protection.viterbi_block ≡ some block
    pub handed :
        process z viterbi before (segments (t + 16))
        ≡ some (some (descramble (viterbi block) b₀.disperse), after)

  -- A sub-channel in the long form: for both options, every level and every number `n` of steps of
  -- the bit rate the constructors succeed. If each logical frame has the 64 soft bits of each
  -- capacity unit, and column `c` of frame `k` is sent in segment `k + delay c`, then no call fails,
  -- and call `t + 16` hands on exactly the descrambled decoding of frame `t`, depunctured into a
  -- block of zeros.
  pub backend_eep_frames :
      (option prot_level n : ℕ) (frames : ℕ → List A)
      → option < 2
      → prot_level < 4
      → 0 < n
      → ((k : ℕ) → length (frames k) ≡ cu_unit option prot_level * n * 64)
      → ((k c : ℕ)
          → c < cu_unit option prot_level * n * 64
          → get_or (segments (k + delay c)) c z ≡ get_or (frames k) c z)
      → (t : ℕ)
      → (f : ProtLevel) × (long_form option prot_level (cu_unit option prot_level * n) ≡ some f)
        × ((b₀ : Backend A) × (new_backend z
                (cu_unit option prot_level * n)
                false
                f.bit_rate
                f.prot_level
              ≡ some b₀)
            × (b₀.protection.viterbi_block ≡ replicate (block_size f.bit_rate) z)
            × (b₀.disperse ≡ disperse_vector f.bit_rate)
            × HandsOn b₀ (frames t) t)
  unfolding new_backend new_protection
  backend_eep_frames option prot_level n frames ho hl hn sized sent t =
      let (f, ef, fit) = eep_protection-Fits option prot_level n ho hl hn in
      let (m, em, fills) = fit in
      let cu = cu_unit option prot_level * n in
      let b₀ : Backend A = record {
        fragment_size = cu * 64;
        interleaver = new_interleaver z (cu * 64);
        protection = record {
          viterbi_block = replicate (block_size f.bit_rate) z;
          addresses = m.addresses;
        };
        disperse = disperse_vector f.bit_rate;
      } in
      let inside : Rises 0 m.addresses (length (replicate (block_size f.bit_rate) z)) =
        subst (λ k. Rises 0 m.addresses k) (sym (length-replicate (block_size f.bit_rate) z))
          fills.inside in
      let (b, e, rest) =
        process_frame b₀ frames sent sized refl (fills.used ∙ omega arith) inside t in
      (
        f,
        ef,
        (
          b₀,
          rw em,
          refl,
          refl,
          record {
            before = b;
            after = rest.2.0;
            block = rest.0;
            reached = e;
            placed = rest.1;
            handed = rest.2.1;
          },
        ),
      )
