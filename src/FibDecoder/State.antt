-- ===== src/FibDecoder/State.antt =====
-- The members of FibDecoder, the calls that connect and reset it, and the signals it emits.
use dabstar.Prelude.{
  ℕ, Bool, true, false, Option, none, some, List, [], ◌∷◌, ◌++◌, ◌==◌, leb, if◌then◌else◌,
}
use dabstar.SubChannel.Fig01.{FibState}
use dabstar.FibDecoder.Config.{FibConfig, reset_config}
use dabstar.FibDecoder.Labels.{Label, FibLabels, empty_labels}

-- EFibLoadingState
pub data LoadingState : Type 0 where
  init : LoadingState
  fast_audio_data_loaded : LoadingState
  primary_base_data_loaded : LoadingState
  fully_audio_data_loaded : LoadingState
  fully_packet_data_loaded : LoadingState
  deferred_data_loaded : LoadingState

-- The numbers of the enumeration, which its comparisons use.
abbrev pub rank : LoadingState → ℕ
rank init = 0
rank fast_audio_data_loaded = 1
rank primary_base_data_loaded = 2
rank fully_audio_data_loaded = 3
rank fully_packet_data_loaded = 4
rank deferred_data_loaded = 5

-- SUtcTimeSet. A second of -1 is `none`; LTO_Minutes is a sign and a number.
pub record UtcTimeSet : Type 0 where
  pub mod_julian_date : ℕ
  pub hour : ℕ
  pub minute : ℕ
  pub second : Option ℕ
  pub lto_sign : Bool
  pub lto_minutes : ℕ

abbrev pub empty_time : UtcTimeSet
empty_time = record {
  mod_julian_date = 0;
  hour = 0;
  minute = 0;
  second = some 0;
  lto_sign = false;
  lto_minutes = 0;
}

-- The signals of IFibDecoder.
pub data Signal : Type 0 where
  change_in_configuration : Signal
  fib_loaded_state : LoadingState → Signal
  name_of_ensemble : ℕ → Label → Signal
  fib_time_info : UtcTimeSet → Signal
  ews_available_seen : Signal
  start_announcement : Option Label → ℕ → Signal
  stop_announcement : Option Label → ℕ → Signal

-- FibDecoder. A timer is whether it runs: the source queues its starts and stops for another thread,
-- and here they take effect at once, in the same order. `signals` are those emitted so far. The times
-- for the statistics and the sets that keep a message from being printed twice are left out.
pub record FibDecoder : Type 0 where
  pub labels : FibLabels
  pub curr : FibConfig
  pub next : FibConfig
  pub cif_count : ℕ
  pub cif_count_hi : ℕ
  pub cif_count_lo : ℕ
  pub mod_julian_date : ℕ
  pub s_id_for_fast_audio : ℕ
  pub prev_change_flag : ℕ
  pub consistency_timer : Bool
  pub print_timer : Bool
  pub loading_state : LoadingState
  pub utc_time : UtcTimeSet
  pub ews_available : Bool
  pub restart : Bool
  pub signals : List Signal

unfoldable pub emit : Signal → FibDecoder → FibDecoder
emit g s = record s { signals = s.signals ++ (g ∷ []) }

-- _reset
unfoldable pub reset_decoder : FibDecoder → FibDecoder
reset_decoder s = record s {
  consistency_timer = false;
  print_timer = false;
  loading_state = init;
  cif_count = 0;
  cif_count_hi = 0;
  cif_count_lo = 0;
  mod_julian_date = 0;
  prev_change_flag = 0;
  utc_time = empty_time;
  ews_available = false;
}

-- disconnect_channel
unfoldable pub disconnect_channel : FibDecoder → FibDecoder
unfolding reset_config
disconnect_channel s = record s {
  curr = reset_config s.curr;
  next = reset_config s.next;
  labels = empty_labels;
}

-- connect_channel
unfoldable pub connect_channel : FibDecoder → FibDecoder
unfolding reset_config reset_decoder
connect_channel s =
    reset_decoder
      (record s { curr = reset_config s.curr; next = reset_config s.next; labels = empty_labels })

-- _restart_fib_decoding
unfoldable pub restart_decoding : FibDecoder → FibDecoder
unfolding reset_config reset_decoder
restart_decoding s =
    let t = reset_decoder (record s {
      curr = reset_config s.curr;
      next = reset_config s.next;
      labels = empty_labels;
    }) in
    record t { restart = true }

-- set_SId_for_fast_audio_selection
unfoldable pub set_s_id_for_fast_audio : ℕ → FibDecoder → FibDecoder
set_s_id_for_fast_audio s_id s =
    if leb 3 (rank s.loading_state)
    then record s { s_id_for_fast_audio = 0 }
    else record s { s_id_for_fast_audio = s_id }

-- _retrigger_timer_data_loaded_fast, which _retrigger_timer_data_loaded_slow calls.
unfoldable pub retrigger : FibDecoder → FibDecoder
unfolding emit
retrigger s =
    if leb 4 (rank s.loading_state)
    then emit (fib_loaded_state deferred_data_loaded)
        (record s { loading_state = deferred_data_loaded })
    else record s { consistency_timer = true; print_timer = true }

-- _get_config_ptr, and the decoder with that configuration changed.
abbrev pub config_of : FibDecoder → ℕ → FibConfig
config_of s cn_flag = if cn_flag == 0 then s.curr else s.next

abbrev pub with_config : ℕ → FibConfig → FibDecoder → FibDecoder
with_config cn_flag c s = if cn_flag == 0 then record s { curr = c } else record s { next = c }

-- The part of the decoder that FIG 0/1 works on, and the decoder with that part changed.
abbrev pub sub_channels : FibDecoder → FibState
sub_channels s = record {
  curr = s.curr.organizations;
  next = s.next.organizations;
  restart = s.restart;
}

abbrev pub with_sub_channels : FibState → FibDecoder → FibDecoder
with_sub_channels t s = record s {
  curr = record s.curr { organizations = t.curr };
  next = record s.next { organizations = t.next };
}

abbrev pub is_some {ℓ} : {A : Type ℓ} → Option A → Bool
is_some none = false
is_some (some a) = true

-- How a handler ends: an entry that is known is left, another one is added to the configuration of
-- the C/N flag, and the timers start again.
unfoldable pub store : Bool → ℕ → (FibConfig → FibConfig) → FibDecoder → FibDecoder
unfolding retrigger
store true cn_flag add s = s
store false cn_flag add s = retrigger (with_config cn_flag (add (config_of s cn_flag)) s)
