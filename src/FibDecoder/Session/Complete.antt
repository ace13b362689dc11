-- ===== src/FibDecoder/Session/Complete.antt =====
-- What the loading states promise when the check of the data moves them on; the final timer tells
-- them whatever is missing.
use mathlib.Core.Option.{some-injective}
use dabstar.Prelude.{
  get_elem?, ℕ, zero, suc, ◌≤◌, ◌≡◌, inl, inr, Bool, true, false, Bool-cases, some, List, [], ◌∷◌,
  ◌==◌, ◌&&◌, leb, if_elim, arith,
}
use dabstar.FibDecoder.Config.{ServiceCompDef, is_audio}
use dabstar.FibDecoder.State.{primary_base_data_loaded, rank, FibDecoder}
use dabstar.FibDecoder.Services.{audio_data_of, audio_data_by_mode, make_audio_data, has_audio_data}
use dabstar.FibDecoder.Session.Data.{HasAudioParts, has_audio_data-HasAudioParts}
use dabstar.FibDecoder.Loading.{
  audio_data_complete, check_audio_data_completeness, check_packet_data_completeness, check_audio,
  check_packets, slot_consistency_check,
}

all_audio :
    (s : FibDecoder) (es : List ServiceCompDef) (found : Bool) (n : ℕ) (e : ServiceCompDef)
    → audio_data_complete s es found ≡ true
    → get_elem? es n ≡ some e
    → is_audio e.mode ≡ true
    → has_audio_data s e ≡ true
unfolding audio_data_complete
all_audio s [] found n e h at_n audio = ground arith
all_audio s (x ∷ es) found zero e h at_n audio =
    let same : x ≡ e = some-injective _ _ at_n in ground (arith, same)
all_audio s (x ∷ es) found (suc n) e h at_n audio = elim (Bool-cases (is_audio x.mode)) [
  | inl t ↦ all_audio s es true n e (ground arith) at_n audio
  | inr f ↦ all_audio s es found n e (ground arith) at_n audio
]

check_audio_complete :
    (s : FibDecoder)
    → rank s.loading_state ≤ 2
    → 3 ≤ rank (check_audio s).loading_state
    → audio_data_complete
        (record s { loading_state = primary_base_data_loaded })
        s.curr.components
        false
      ≡ true
unfolding check_audio check_audio_data_completeness
check_audio_complete s before after =
    let t = record s { loading_state = primary_base_data_loaded } in
    if_elim
      (λ (u : FibDecoder).
        3 ≤ rank u.loading_state → audio_data_complete t s.curr.components false ≡ true)
      (leb (rank s.loading_state) 2)
      (λ early.
        if_elim
          (λ (u : FibDecoder).
            3 ≤ rank u.loading_state → audio_data_complete t s.curr.components false ≡ true)
          (audio_data_complete t s.curr.components false) (λ complete h. complete)
          (λ missing h. absurd (omega arith)))
      (λ late h. absurd (ground arith)) after

check_packets-rank :
    (s : FibDecoder) → 3 ≤ rank (check_packets s).loading_state → 3 ≤ rank s.loading_state
unfolding check_packets
check_packets-rank s after =
    if_elim (λ (u : FibDecoder). 3 ≤ rank u.loading_state → 3 ≤ rank s.loading_state)
      (rank s.loading_state == 3 && check_packet_data_completeness s) (λ complete h. ground arith)
      (λ missing h. h) after

slot_consistency_check_has_audio :
    (s : FibDecoder) (n : ℕ) (e : ServiceCompDef)
    → rank s.loading_state ≤ 2
    → 3 ≤ rank (slot_consistency_check s).loading_state
    → get_elem? s.curr.components n ≡ some e
    → is_audio e.mode ≡ true
    → has_audio_data s e ≡ true
unfolding slot_consistency_check has_audio_data audio_data_of audio_data_by_mode make_audio_data
slot_consistency_check_has_audio s n e before after at_n audio =
    let t = record s { consistency_timer = false } in
    all_audio (record t { loading_state = primary_base_data_loaded }) s.curr.components false n e
      (check_audio_complete t before (check_packets-rank (check_audio t) after)) at_n audio

-- The timer's check moves the loading state on over "audio data loaded" only if every audio component
-- of the current configuration finds in the tables the sub-channel that it names, from FIG 0/1, and
-- the label of its service, from FIG 1/1.
pub slot_consistency_check_audio :
    (s : FibDecoder) (n : ℕ) (e : ServiceCompDef)
    → rank s.loading_state ≤ 2
    → 3 ≤ rank (slot_consistency_check s).loading_state
    → get_elem? s.curr.components n ≡ some e
    → is_audio e.mode ≡ true
    → HasAudioParts s e
slot_consistency_check_audio s n e before after at_n audio =
    has_audio_data-HasAudioParts s e
      (slot_consistency_check_has_audio s n e before after at_n audio)
