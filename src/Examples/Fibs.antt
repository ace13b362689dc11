-- ===== src/Examples/Fibs.antt =====
-- Two FIBs of an ensemble with one audio service, and a FIB that is impossible.
use dabstar.Prelude.{
  false, ℕ, ◌+◌, ◌/◌, ◌%◌, ◌≤◌, ◌<◌, ◌≡◌, ◌≢◌, refl, Bool, true, some, List, [], ◌∷◌, ◌++◌, ◌==◌,
  length, replicate, arith,
}
use dabstar.SubChannel.Fig01.{
  SubChannelOrganization, FigHeader, get_fig_header, store_organization, read_organization,
  read_short_form, has_colliding,
}
use dabstar.SubChannel.Fig01.Disjoint.{FitsCif}
use dabstar.FibDecoder.Config.{
  stream_mode_audio, packet_mode_data, ServiceCompDef, language_of_sc_id, user_application_of,
}
use dabstar.FibDecoder.Labels.{Label}
use dabstar.FibDecoder.State.{FibDecoder, change_in_configuration, connect_channel, rank}
use dabstar.FibDecoder.Services.{AudioData, get_data_for_audio_service}
use dabstar.FibDecoder.Loading.{slot_consistency_check, slot_check_state}
use dabstar.Bits.{get_bits}
use dabstar.FibDecoder.Multiplex.UserApps.{read_user_applications, process_user_applications}
use dabstar.FibDecoder.Information.{store_long_language}
use dabstar.FibDecoder.Announcements.{get_cluster}
use dabstar.FibDecoder.Fig1.{process_fig1}
use dabstar.FibDecoder.Tables.{IsAmong}
use dabstar.FibDecoder.Session.Data.{IsAudioDataOf, HasAudioParts}
use dabstar.FibDecoder.Channel.{
  changes, run_fig0s0, IsExchanged, configuration_takes_over, connect_channel_forgets,
}
use dabstar.FibDecoder.Repetition.{process_fig1_again}
use dabstar.FibDecoder.Repetition.Growth.{
  repeat, store_long_language_grows, process_user_applications_grows,
}
use dabstar.FibDecoder.Process.{process_fib, process_fig0_loop, fig0_cases}
use dabstar.FibDecoder.Process.Ends.{Runs, process_fig0_loop_ends}
use dabstar.FibDecoder.Process.Restart.{IsBlank, process_fib-IsBlank, process_fib-rank}
use dabstar.FibDecoder.Sound.{IsSound}
use dabstar.FibDecoder.Sound.Fibs.{process_fib-IsSound}
use dabstar.FibDecoder.Session.{
  new_decoder, fib, consistency_timeout, start, then, Reach-IsSound, loading_ends,
}
use dabstar.FibDecoder.Session.Audio.{get_data_for_audio_service_fits}
use dabstar.FibDecoder.Session.Complete.{slot_consistency_check_audio}

abbrev bit_of : ℕ → ℕ → Bool
bit_of b w = b / w % 2 == 1

abbrev bits_of : List ℕ → List Bool
bits_of [] = []
bits_of (b ∷ bs) =
    bit_of b 128
    ∷ bit_of b 64
    ∷ bit_of b 32
    ∷ bit_of b 16
    ∷ bit_of b 8
    ∷ bit_of b 4
    ∷ bit_of b 2
    ∷ bit_of b 1
    ∷ bits_of bs

-- FIG 0/1 and 0/2: the sub-channel 5 from the capacity unit 10 on, and a service in it.
abbrev service_fib : List Bool
service_fib = bits_of (4 ∷ 1 ∷ 20 ∷ 10 ∷ 5 ∷ 6 ∷ 2 ∷ 210 ∷ 16 ∷ 1 ∷ 63 ∷ 22 ∷ 255 ∷ [])

-- FIG 1/1: its label.
abbrev label_fib : List Bool
label_fib = bits_of (
    53 ∷ 1 ∷ 210 ∷ 16 ∷ 65 ∷ 66 ∷ 67 ∷ 68 ∷ 32 ∷ 32 ∷ 32 ∷ 32 ∷ 32 ∷ 32 ∷ 32 ∷ 32 ∷ 32 ∷ 32 ∷ 32
    ∷ 32 ∷ 240 ∷ 0 ∷ 255 ∷ [])

-- A sub-channel from the capacity unit 860 on, with 29 of them.
abbrev impossible_fib : List Bool
impossible_fib = bits_of (4 ∷ 1 ∷ 27 ∷ 92 ∷ 5 ∷ 255 ∷ [])

abbrev served : FibDecoder
unfolding process_fib
served = process_fib service_fib new_decoder

abbrev session : FibDecoder
unfolding process_fib slot_consistency_check store_organization read_organization read_short_form
    has_colliding
session = slot_consistency_check (process_fib label_fib served)

abbrev label : Label
label = record {
  charset = 0;
  characters = 65 ∷ 66 ∷ 67 ∷ 68 ∷ replicate 12 32;
  char_flag_field = 61440;
}

abbrev sub_channel : SubChannelOrganization
sub_channel = record {
  sub_ch_id = 5;
  start_addr = 10;
  short_form = true;
  sub_channel_size = 24;
  protection_level = 5;
  bit_rate = some 48;
}

abbrev audio : AudioData
audio = record { service_label = some label; s_id = 53776; asc_ty = 63; organization = sub_channel }

abbrev component : ServiceCompDef
component = record {
  pd_flag = 0;
  s_id = 53776;
  num_service_comp = 1;
  service_comp_index = 0;
  mode = stream_mode_audio 63 5;
  ps_flag = 1;
  ca_flag = 0;
}

new_decoder-IsSound : IsSound new_decoder
new_decoder-IsSound = Reach-IsSound start

process_fib-IsSound_example : IsSound (process_fib service_fib new_decoder)
process_fib-IsSound_example = process_fib-IsSound service_fib new_decoder new_decoder-IsSound

process_fib-IsBlank_example : IsBlank (process_fib impossible_fib served)
unfolding process_fib store_organization read_organization read_short_form has_colliding served
process_fib-IsBlank_example = process_fib-IsBlank impossible_fib served refl

process_fib-rank_example :
    rank new_decoder.loading_state ≤ rank (process_fib service_fib new_decoder).loading_state
unfolding process_fib store_organization read_organization read_short_form has_colliding
process_fib-rank_example = process_fib-rank service_fib new_decoder refl

some_component : served.curr.components ≡ component ∷ []
unfolding process_fib store_organization read_organization read_short_form has_colliding served
some_component = refl

not_empty : served.curr.components ≢ []
not_empty e = ground (arith, some_component)

served_early : rank served.loading_state < 4
unfolding process_fib store_organization read_organization read_short_form has_colliding served
served_early = omega arith

loading_ends_example :
    (served.print_timer ≡ true) × (4 ≤ rank (slot_check_state served).loading_state)
unfolding process_fib served
loading_ends_example = loading_ends served (then start (fib service_fib)) not_empty served_early

labelled : FibDecoder
labelled = process_fib label_fib served

label_starts_timer : labelled.consistency_timer ≡ true
unfolding process_fib store_organization read_organization read_short_form has_colliding served
    labelled
label_starts_timer = refl

get_data_for_audio_service_fits_example :
    (e : ServiceCompDef) × IsAmong e (slot_consistency_check labelled).curr.components
    × (e.s_id ≡ 53776)
    × IsAudioDataOf (slot_consistency_check labelled) e audio
    × FitsCif audio.organization
unfolding process_fib slot_consistency_check store_organization read_organization read_short_form
    has_colliding served labelled get_data_for_audio_service
get_data_for_audio_service_fits_example =
    get_data_for_audio_service_fits (slot_consistency_check labelled) 53776 audio
      (then (then (then start (fib service_fib)) (fib label_fib))
        (consistency_timeout label_starts_timer))
      refl

slot_consistency_check_audio_example : HasAudioParts labelled component
unfolding process_fib slot_consistency_check store_organization read_organization read_short_form
    has_colliding served labelled
slot_consistency_check_audio_example =
    slot_consistency_check_audio labelled 0 component (omega arith) (omega arith) refl refl

-- A data service in packet mode in the same sub-channel: FIG 0/2, 0/3 and 0/8, then 0/13, then 1/5.
abbrev packet_fib : List Bool
packet_fib = bits_of (
    8 ∷ 34 ∷ 224 ∷ 210 ∷ 18 ∷ 52 ∷ 1 ∷ 196 ∷ 142 ∷ 6 ∷ 3 ∷ 18 ∷ 48 ∷ 60 ∷ 20 ∷ 1 ∷ 8 ∷ 40 ∷ 224
    ∷ 210 ∷ 18 ∷ 52 ∷ 0 ∷ 129 ∷ 35 ∷ 255 ∷ [])

abbrev user_fib : List Bool
user_fib = bits_of (8 ∷ 45 ∷ 224 ∷ 210 ∷ 18 ∷ 52 ∷ 1 ∷ 0 ∷ 64 ∷ 255 ∷ [])

abbrev data_label_fib : List Bool
data_label_fib = bits_of (
    55 ∷ 5 ∷ 224 ∷ 210 ∷ 18 ∷ 52 ∷ 69 ∷ 80 ∷ 71 ∷ 32 ∷ 32 ∷ 32 ∷ 32 ∷ 32 ∷ 32 ∷ 32 ∷ 32 ∷ 32 ∷ 32
    ∷ 32 ∷ 32 ∷ 32 ∷ 224 ∷ 0 ∷ 255 ∷ [])

packeted : FibDecoder
packeted = process_fib data_label_fib (process_fib user_fib (process_fib packet_fib labelled))

abbrev packet_component : ServiceCompDef
packet_component = record {
  pd_flag = 1;
  s_id = 3771863604;
  num_service_comp = 1;
  service_comp_index = 0;
  mode = packet_mode_data 291;
  ps_flag = 1;
  ca_flag = 0;
}

process_fig0_loop_ends_example :
    Runs process_user_applications user_fib
      (get_fig_header user_fib)
      2
      new_decoder
      (process_fig0_loop process_user_applications user_fib new_decoder)
unfolding fig0_cases get_fig_header
process_fig0_loop_ends_example =
    process_fig0_loop_ends 9 13 process_user_applications user_fib new_decoder refl
      new_decoder-IsSound refl

abbrev change_fig : ℕ → List Bool
change_fig flags = bits_of (5 ∷ 0 ∷ 16 ∷ 1 ∷ flags ∷ 0 ∷ [])

abbrev change_figs : List (List Bool)
change_figs = change_fig 192 ∷ change_fig 0 ∷ change_fig 0 ∷ []

configuration_takes_over_example :
    let t = run_fig0s0 change_figs served in
    let n = changes served.prev_change_flag change_figs in
    (t.signals ≡ served.signals ++ replicate n change_in_configuration)
    × IsExchanged n served.curr served.next t
configuration_takes_over_example = configuration_takes_over change_figs served

connect_channel_forgets_example :
    (connect_channel served ≡ connect_channel new_decoder)
    × (get_cluster (connect_channel served).curr.cluster_table 1
        ≡ get_cluster served.curr.cluster_table 1)
unfolding process_fib store_organization read_organization read_short_form has_colliding served
connect_channel_forgets_example =
    connect_channel_forgets served new_decoder 1 refl refl refl refl refl

-- The label is collected, and the timer has run off since.
abbrev waited : FibDecoder
waited = record (process_fig1 label_fib served) { consistency_timer = false }

process_fig1_again_example : process_fig1 label_fib waited ≡ waited
process_fig1_again_example = process_fig1_again label_fib served waited refl

abbrev language_fig : List Bool
language_fig = bits_of (5 ∷ 5 ∷ 129 ∷ 35 ∷ 9 ∷ [])

store_long_language_grows_example :
    length (repeat 3 (store_long_language language_fig 16) new_decoder).curr.languages
    ≡ length new_decoder.curr.languages + 3
unfolding get_bits language_of_sc_id
store_long_language_grows_example =
    store_long_language_grows 3 language_fig 16 new_decoder (omega arith) refl

abbrev next_header : FigHeader
next_header = record { fig_length = 8; cn_flag = 1; oe_flag = 0; pd_flag = 1 }

process_user_applications_grows_example :
    length
      (repeat 2
        (λ t. (process_user_applications user_fib 2 next_header t).1)
        new_decoder).next.user_applications
    ≡ length new_decoder.next.user_applications + 2
unfolding user_application_of read_user_applications
process_user_applications_grows_example =
    process_user_applications_grows 2 user_fib 2 next_header new_decoder refl refl
