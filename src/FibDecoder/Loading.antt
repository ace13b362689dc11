-- ===== src/FibDecoder/Loading.antt =====
-- fib_decoder.cpp: the loading state, as the fast audio selection and the two timers move it on.
use dabstar.Prelude.{
  ℕ, zero, suc, ◌+◌, Bool, true, false, ◌&&◌, Option, none, some, List, [], ◌∷◌, ◌==◌, leb, ltb,
  if◌then◌else◌,
}
use dabstar.SubChannel.Fig01.{SubChannelOrganization, organization_of}
use dabstar.FibDecoder.Config.{
  TransportMode, stream_mode_audio, stream_mode_data, reserved, packet_mode_data, ServiceCompDef,
  FibConfig, is_audio, is_packet, audio_component_of,
}
use dabstar.FibDecoder.State.{
  LoadingState, fast_audio_data_loaded, primary_base_data_loaded, fully_audio_data_loaded,
  fully_packet_data_loaded, rank, FibDecoder, fib_loaded_state, emit, is_some,
}
use dabstar.FibDecoder.Services.{has_audio_data, packet_data_at}

-- The end of _process_fast_audio_selection, once FIG 0/1 and 0/2 are there for the service.
unfoldable pub select_fast_audio : FibDecoder → FibDecoder
unfolding emit
select_fast_audio s =
    let t = record s { s_id_for_fast_audio = 0 } in
    if ltb (rank s.loading_state) 1
    then emit (fib_loaded_state fast_audio_data_loaded)
        (record t { loading_state = fast_audio_data_loaded })
    else t

-- Whether FIG 0/1 has the sub-channel of an audio component.
abbrev pub has_sub_channel : List SubChannelOrganization → TransportMode → Bool
unfolding organization_of
has_sub_channel es (stream_mode_audio asc_ty sub_ch_id) = is_some (organization_of es sub_ch_id)
has_sub_channel es (stream_mode_data dsc_ty sub_ch_id) = false
has_sub_channel es reserved = false
has_sub_channel es (packet_mode_data sc_id) = false

abbrev pub is_selectable : FibConfig → Option ServiceCompDef → Bool
is_selectable c none = false
is_selectable c (some e) = has_sub_channel c.organizations e.mode

-- _process_fast_audio_selection
unfoldable pub process_fast_audio_selection : FibDecoder → FibDecoder
unfolding audio_component_of organization_of select_fast_audio
process_fast_audio_selection s =
    if is_selectable s.curr (audio_component_of s.curr s.s_id_for_fast_audio)
    then select_fast_audio s
    else s

-- The loop of _check_audio_data_completeness, with audioDataFound.
unfoldable pub audio_data_complete : FibDecoder → List ServiceCompDef → Bool → Bool
unfolding has_audio_data
audio_data_complete s [] found = found
audio_data_complete s (e ∷ es) found =
    if is_audio e.mode
    then has_audio_data s e && audio_data_complete s es true
    else audio_data_complete s es found

unfoldable pub check_audio_data_completeness : FibDecoder → Bool
unfolding audio_data_complete
check_audio_data_completeness s =
    rank s.loading_state == 2 && audio_data_complete s s.curr.components false

-- The inner loop of _check_packet_data_completeness, with the rounds left.
unfoldable pub packet_component_complete : FibDecoder → ServiceCompDef → ℕ → ℕ → Bool
unfolding packet_data_at
packet_component_complete s e comp_idx zero = true
packet_component_complete s e comp_idx (suc left) =
    is_some (packet_data_at s e comp_idx) && packet_component_complete s e (comp_idx + 1) left

unfoldable pub packet_data_complete : FibDecoder → List ServiceCompDef → Bool
unfolding packet_component_complete
packet_data_complete s [] = true
packet_data_complete s (e ∷ es) =
    if is_packet e.mode
    then packet_component_complete s e 0 e.num_service_comp && packet_data_complete s es
    else packet_data_complete s es

unfoldable pub check_packet_data_completeness : FibDecoder → Bool
unfolding packet_data_complete
check_packet_data_completeness s =
    rank s.loading_state == 3 && packet_data_complete s s.curr.components

-- A new loading state that the user layer is told of.
unfoldable pub advance : LoadingState → FibDecoder → FibDecoder
unfolding emit
advance l s = emit (fib_loaded_state l) (record s { loading_state = l })

-- The two halves of _slot_timer_data_consistency_check.
unfoldable pub check_audio : FibDecoder → FibDecoder
unfolding check_audio_data_completeness advance
check_audio s =
    if leb (rank s.loading_state) 2
    then (let t = record s { loading_state = primary_base_data_loaded } in
        if check_audio_data_completeness t then advance fully_audio_data_loaded t else t)
    else s

unfoldable pub check_packets : FibDecoder → FibDecoder
unfolding check_packet_data_completeness advance
check_packets s =
    if rank s.loading_state == 3 && check_packet_data_completeness s
    then advance fully_packet_data_loaded s
    else s

-- _slot_timer_data_consistency_check, when the single shot timer has run off. In the build that
-- prints no FIG the other timer is not started here.
unfoldable pub slot_consistency_check : FibDecoder → FibDecoder
unfolding check_audio check_packets
slot_consistency_check s = check_packets (check_audio (record s { consistency_timer = false }))

-- _slot_timer_check_state_and_print_FIGs in that build: what is missing is given up.
unfoldable pub give_up_audio : FibDecoder → FibDecoder
unfolding advance
give_up_audio s = if ltb (rank s.loading_state) 3 then advance fully_audio_data_loaded s else s

unfoldable pub give_up_packets : FibDecoder → FibDecoder
unfolding advance
give_up_packets s = if ltb (rank s.loading_state) 4 then advance fully_packet_data_loaded s else s

unfoldable pub slot_check_state : FibDecoder → FibDecoder
unfolding give_up_audio give_up_packets
slot_check_state s = give_up_packets (give_up_audio (record s { print_timer = false }))
