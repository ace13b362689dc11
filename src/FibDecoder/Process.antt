-- ===== src/FibDecoder/Process.antt =====
-- process_FIB of fib_decoder.cpp, with _process_Fig0 and _process_fig0_loop of
-- fib_decoder_fig0.cpp.
pub mod Induction
pub mod Closed
pub mod Restart
pub mod Watched
pub mod Ends
use dabstar.Prelude.{
  ℕ, zero, suc, ◌+◌, ◌*◌, Bool, true, false, ◌&&◌, ◌||◌, not, List, [], ◌∷◌, ◌==◌, ltb, leb,
  if◌then◌else◌, drop,
}
use dabstar.Bits.{get_bits_3, get_bits_5}
use dabstar.SubChannel.Fig01.{FigHeader, get_fig_header}
use dabstar.FibDecoder.State.{FibDecoder}
use dabstar.FibDecoder.Multiplex.{
  process_fig0s0, process_organization, process_service, process_packet_mode, process_fig0s7,
  process_global_def, process_fec,
}
use dabstar.FibDecoder.Multiplex.UserApps.{process_user_applications}
use dabstar.FibDecoder.Information.{
  process_language, process_fig0s9, process_fig0s10, process_fig0s15, process_fig0s17,
}
use dabstar.FibDecoder.Announcements.{process_fig0s18, process_fig0s19}
use dabstar.FibDecoder.Fig1.{process_fig1}
use dabstar.FibDecoder.Loading.{process_fast_audio_selection}

-- TFnFibProc
abbrev pub Handler : Type 0
Handler = List Bool → ℕ → FigHeader → FibDecoder → ℕ × FibDecoder

-- _process_fig0_loop. Every handler goes on by a byte at least, so that the fuel, one more than the
-- FIG's length, is not used up.
unfoldable pub fig0_loop : Handler → ℕ → List Bool → ℕ → FigHeader → FibDecoder → FibDecoder
fig0_loop handler zero d used fh s = s
fig0_loop handler (suc fuel) d used fh s =
    let (used', s') = handler d used fh s in
    let rest = fig0_loop handler fuel d used' fh s' in
    if leb used fh.fig_length then (if s'.restart then s' else rest) else s

unfoldable pub process_fig0_loop : Handler → List Bool → FibDecoder → FibDecoder
unfolding get_fig_header fig0_loop
process_fig0_loop handler d s =
    let fh = get_fig_header d in fig0_loop handler (suc fh.fig_length) d 2 fh s

-- What the switch of _process_Fig0 does with an extension.
pub data Action : Type 0 where
  looped : Handler → Action
  whole : (List Bool → FibDecoder → FibDecoder) → Action

unfoldable pub run_action : Action → List Bool → FibDecoder → FibDecoder
unfolding process_fig0_loop
run_action (looped handler) d s = process_fig0_loop handler d s
run_action (whole handler) d s = handler d s

-- The cases of the switch.
unfoldable pub fig0_cases : List (ℕ × Action)
unfolding process_fig0s0 process_organization process_service process_packet_mode process_language
    process_fig0s7 process_global_def process_fig0s9 process_fig0s10 process_user_applications
    process_fec process_fig0s15 process_fig0s17 process_fig0s18 process_fig0s19
fig0_cases =
    (0, whole process_fig0s0)
    ∷ ((1, looped process_organization)
        ∷ ((2, looped process_service)
            ∷ ((3, looped process_packet_mode)
                ∷ ((5, looped process_language)
                    ∷ ((7, whole process_fig0s7)
                        ∷ ((8, looped process_global_def)
                            ∷ ((9, whole process_fig0s9)
                                ∷ ((10, whole process_fig0s10)
                                    ∷ ((13, looped process_user_applications)
                                        ∷ ((14, looped process_fec)
                                            ∷ ((15, whole (λ d s. process_fig0s15 s))
                                                ∷ ((17, whole process_fig0s17)
                                                    ∷ ((18, whole process_fig0s18)
                                                        ∷ ((19, whole process_fig0s19)
                                                            ∷ []))))))))))))))

-- The switch; its default only prints.
unfoldable pub switch_action : List (ℕ × Action) → ℕ → List Bool → FibDecoder → FibDecoder
unfolding run_action
switch_action [] extension d s = s
switch_action ((n, a) ∷ cases) extension d s =
    if n == extension then run_action a d s else switch_action cases extension d s

-- _process_Fig0
unfoldable pub process_fig0 : List Bool → FibDecoder → FibDecoder
unfolding get_bits_5 switch_action fig0_cases process_fast_audio_selection
process_fig0 d s =
    let extension = get_bits_5 d 11 in
    let t = switch_action fig0_cases extension d s in
    if not t.restart && (ltb 0 t.s_id_for_fast_audio && (extension == 1 || extension == 2))
    then process_fast_audio_selection t
    else t

-- One FIG of a FIB.
unfoldable pub process_fig : ℕ → List Bool → FibDecoder → FibDecoder
unfolding process_fig0 process_fig1
process_fig fig_type d s =
    if fig_type == 0 then process_fig0 d s else (if fig_type == 1 then process_fig1 d s else s)

-- process_FIB. A FIG takes a byte at least: the fuel of 30 is not used up.
unfoldable pub fib_loop : ℕ → List Bool → ℕ → FibDecoder → FibDecoder
unfolding process_fig get_bits_3 get_bits_5
fib_loop zero fib processed s = s
fib_loop (suc fuel) fib processed s =
    let d = drop (processed * 8) fib in
    let fig_type = get_bits_3 d 0 in
    let fig_length = get_bits_5 d 3 in
    let s' = process_fig fig_type d s in
    let rest = fib_loop fuel fib (processed + fig_length + 1) s' in
    if ltb processed 30
    then (if fig_type == 7 && fig_length == 31 then s else (if s'.restart then s' else rest))
    else s

unfoldable pub process_fib : List Bool → FibDecoder → FibDecoder
unfolding fib_loop
process_fib fib s = fib_loop 30 fib 0 (record s { restart = false })
