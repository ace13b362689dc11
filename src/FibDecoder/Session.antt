-- ===== src/FibDecoder/Session.antt =====
-- What happens to a FIB decoder from its constructor on: FIBs, its two timers, and the calls of
-- DabRadio, in any order.
pub mod Data
pub mod Packets
pub mod Audio
pub mod Complete
use dabstar.Prelude.{
  ℕ, ◌≤◌, ◌<◌, ◌≡◌, ◌≢◌, refl, ◌⊎◌, inl, inr, Bool, true, false, Option, Option-cases, none, some,
  List, [], ◌>>=◌, ◌==◌, ◌&&◌, leb, ltb, leb→le, ltb→lt, if_elim, All, arith,
}
use dabstar.SubChannel.Fig01.{SubChannelOrganization, organization_of, num_cu_per_cif}
use dabstar.SubChannel.Fig01.Disjoint.{FitsCif, IsConfig}
use dabstar.FibDecoder.Config.{
  stream_mode_audio, stream_mode_data, reserved, packet_mode_data, ServiceCompDef, empty_config,
  audio_component_of, reset_config,
}
use dabstar.FibDecoder.Labels.{empty_labels}
use dabstar.FibDecoder.State.{
  LoadingState, init, primary_base_data_loaded, rank, empty_time, FibDecoder, emit, reset_decoder,
  connect_channel, disconnect_channel, set_s_id_for_fast_audio,
}
use dabstar.FibDecoder.Services.{AudioData, audio_data_of, get_data_for_audio_service}
use dabstar.FibDecoder.Loading.{
  advance, check_audio_data_completeness, check_packet_data_completeness, check_audio,
  check_packets, slot_consistency_check, give_up_audio, give_up_packets, slot_check_state,
}
use dabstar.FibDecoder.Process.{process_fib}
use dabstar.FibDecoder.Process.Watched.{
  IsWatched, process_fib-IsWatched, slot_consistency_check-IsWatched, slot_check_state_loaded,
}
use dabstar.FibDecoder.Sound.{IsSound, Both, reset_config-IsSoundConfig}
use dabstar.FibDecoder.Sound.Fibs.{process_fib-IsSound}

-- The constructor.
abbrev pub new_decoder : FibDecoder
new_decoder = record {
  labels = empty_labels;
  curr = empty_config;
  next = empty_config;
  cif_count = 0;
  cif_count_hi = 0;
  cif_count_lo = 0;
  mod_julian_date = 0;
  s_id_for_fast_audio = 0;
  prev_change_flag = 0;
  consistency_timer = false;
  print_timer = false;
  loading_state = init;
  utc_time = empty_time;
  ews_available = false;
  restart = false;
  signals = [];
}

-- A timer runs off only while it runs.
pub data Step (s : FibDecoder) : FibDecoder → Type 0 where
  fib : (bits : List Bool) → Step s (process_fib bits s)
  consistency_timeout : s.consistency_timer ≡ true → Step s (slot_consistency_check s)
  check_timeout : s.print_timer ≡ true → Step s (slot_check_state s)
  select_audio : (s_id : ℕ) → Step s (set_s_id_for_fast_audio s_id s)
  connect : Step s (connect_channel s)
  disconnect : Step s (disconnect_channel s)

pub data Reach : FibDecoder → Type 0 where
  start : Reach new_decoder
  then : {s t : FibDecoder} → Reach s → Step s t → Reach t

advance-IsSound : (l : LoadingState) (s : FibDecoder) → IsSound s → IsSound (advance l s)
unfolding advance emit
advance-IsSound l s b = record { of_curr = b.of_curr; of_next = b.of_next }

check_audio-IsSound : (s : FibDecoder) → IsSound s → IsSound (check_audio s)
unfolding check_audio
check_audio-IsSound s b =
    let t = record s { loading_state = primary_base_data_loaded } in
    let c : IsSound t = record { of_curr = b.of_curr; of_next = b.of_next } in
    if_elim IsSound (leb (rank s.loading_state) 2)
      (λ early.
        if_elim IsSound (check_audio_data_completeness t) (λ complete. advance-IsSound _ t c)
          (λ missing. c))
      (λ late. b)

slot_consistency_check-IsSound : (s : FibDecoder) → IsSound s → IsSound (slot_consistency_check s)
unfolding slot_consistency_check check_packets
slot_consistency_check-IsSound s b =
    let t = check_audio (record s { consistency_timer = false }) in
    let c =
      check_audio-IsSound (record s { consistency_timer = false })
        (record { of_curr = b.of_curr; of_next = b.of_next }) in
    if_elim IsSound (rank t.loading_state == 3 && check_packet_data_completeness t)
      (λ complete. advance-IsSound _ t c) (λ missing. c)

slot_check_state-IsSound : (s : FibDecoder) → IsSound s → IsSound (slot_check_state s)
unfolding slot_check_state give_up_packets give_up_audio
slot_check_state-IsSound s b =
    let t = record s { print_timer = false } in
    let c : IsSound t = record { of_curr = b.of_curr; of_next = b.of_next } in
    let d : IsSound (give_up_audio t) =
      if_elim IsSound (ltb (rank s.loading_state) 3) (λ early. advance-IsSound _ t c) (λ late. c) in
    if_elim IsSound (ltb (rank (give_up_audio t).loading_state) 4)
      (λ early. advance-IsSound _ (give_up_audio t) d) (λ late. d)

Step-IsSound : {s t : FibDecoder} → Step s t → IsSound s → IsSound t
unfolding set_s_id_for_fast_audio connect_channel disconnect_channel reset_decoder
Step-IsSound {s = s} (fib bits) b = process_fib-IsSound bits s b
Step-IsSound {s = s} (consistency_timeout h) b = slot_consistency_check-IsSound s b
Step-IsSound {s = s} (check_timeout h) b = slot_check_state-IsSound s b
Step-IsSound {s = s} (select_audio i) b =
    if_elim IsSound (leb 3 (rank s.loading_state))
      (λ late. record { of_curr = b.of_curr; of_next = b.of_next })
      (λ early. record { of_curr = b.of_curr; of_next = b.of_next })
Step-IsSound {s = s} connect b = record {
  of_curr = reset_config-IsSoundConfig s.curr;
  of_next = reset_config-IsSoundConfig s.next;
}
Step-IsSound {s = s} disconnect b = record {
  of_curr = reset_config-IsSoundConfig s.curr;
  of_next = reset_config-IsSoundConfig s.next;
}

-- In every state that a session reaches, the two configurations are sound.
pub Reach-IsSound : {s : FibDecoder} → Reach s → IsSound s
unfolding reset_config
Reach-IsSound start = record {
  of_curr = reset_config-IsSoundConfig empty_config;
  of_next = reset_config-IsSoundConfig empty_config;
}
Reach-IsSound (then r st) = Step-IsSound st (Reach-IsSound r)

Step-IsWatched : {s t : FibDecoder} → Step s t → IsWatched s → IsWatched t
unfolding set_s_id_for_fast_audio connect_channel disconnect_channel reset_decoder reset_config
Step-IsWatched {s = s} (fib bits) w = process_fib-IsWatched bits s w
Step-IsWatched {s = s} (consistency_timeout h) w = slot_consistency_check-IsWatched s w
Step-IsWatched {s = s} (check_timeout h) w = inl (slot_check_state_loaded s)
Step-IsWatched {s = s} (select_audio i) w =
    if_elim IsWatched (leb 3 (rank s.loading_state)) (λ late. w) (λ early. w)
Step-IsWatched {s = s} connect w = inr (inr (refl, refl))
Step-IsWatched {s = s} disconnect w = inr (inr (refl, refl))

Reach-IsWatched : {s : FibDecoder} → Reach s → IsWatched s
Reach-IsWatched start = inr (inr (refl, refl))
Reach-IsWatched (then r st) = Step-IsWatched st (Reach-IsWatched r)

-- In every state that a session reaches: if the current configuration has a service component and
-- the packet data do not count as loaded, the timer of the final check runs, and when it runs off,
-- they do.
pub loading_ends :
    (s : FibDecoder)
    → Reach s
    → s.curr.components ≢ []
    → rank s.loading_state < 4
    → (s.print_timer ≡ true) × (4 ≤ rank (slot_check_state s).loading_state)
loading_ends s r some_known early = elim (Reach-IsWatched r) [
  | inl late ↦ absurd (omega arith)
  | inr (inl runs) ↦ (runs, slot_check_state_loaded s)
  | inr (inr nothing) ↦ absurd (some_known nothing.0)
]
