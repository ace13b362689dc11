-- ===== src/FibDecoder/Process/Watched.antt =====
-- No service component waits for ever: until the packet data count as loaded, a timer runs as soon
-- as one is known.
use dabstar.Prelude.{
  ◌≤◌, ◌≡◌, refl, ◌∙◌, ◌==◌, Bool, true, false, ◌&&◌, ◌⊎◌, inl, inr, List, [], leb, ltb, if_elim,
  leb→le, ltb→lt, arith,
}
use dabstar.FibDecoder.Config.{reset_config}
use dabstar.FibDecoder.State.{
  LoadingState, fast_audio_data_loaded, primary_base_data_loaded, fully_audio_data_loaded, rank,
  FibDecoder, emit, reset_decoder, restart_decoding, retrigger,
}
use dabstar.FibDecoder.Loading.{
  select_fast_audio, check_audio_data_completeness, check_packet_data_completeness, advance,
  check_audio, check_packets, slot_consistency_check, give_up_audio, give_up_packets,
  slot_check_state,
}
use dabstar.FibDecoder.Process.{process_fib}
use dabstar.FibDecoder.Process.Closed.{Aside, IsClosed}
use dabstar.FibDecoder.Process.Closed.Cases.{process_fib_kept}

abbrev pub HasNoComponent : FibDecoder → Type 0
HasNoComponent s = (s.curr.components ≡ []) × (s.next.components ≡ [])

abbrev pub IsWatched : FibDecoder → Type 0
IsWatched s = (4 ≤ rank s.loading_state) ⊎ ((s.print_timer ≡ true) ⊎ HasNoComponent s)

retrigger-IsWatched : (s : FibDecoder) → IsWatched (retrigger s)
unfolding retrigger emit
retrigger-IsWatched s =
    if_elim IsWatched (leb 4 (rank s.loading_state)) (λ loaded. inl (omega arith))
      (λ waiting. inr (inl refl))

Aside-IsWatched : (s t : FibDecoder) → Aside s t → IsWatched s → IsWatched t
Aside-IsWatched s t a (inl p) = inl (rw a.same_state p)
Aside-IsWatched s t a (inr (inl p)) = inr (inl (a.same_timer ∙ p))
Aside-IsWatched s t a (inr (inr (c, n))) = inr (inr (a.same_curr ∙ c, a.same_next ∙ n))

raise-IsWatched :
    (l : LoadingState) (s : FibDecoder)
    → rank s.loading_state ≤ rank l
    → IsWatched s
    → IsWatched (record s { loading_state = l })
raise-IsWatched l s r (inl w) = inl (omega arith)
raise-IsWatched l s r (inr w) = inr w

change-IsWatched :
    (s : FibDecoder)
    → IsWatched s
    → IsWatched (record s { curr = s.next; next = reset_config s.curr })
unfolding reset_config
change-IsWatched s (inl p) = inl p
change-IsWatched s (inr (inl p)) = inr (inl p)
change-IsWatched s (inr (inr (c, n))) = inr (inr (n, refl))

select_fast_audio-IsWatched : (s : FibDecoder) → IsWatched s → IsWatched (select_fast_audio s)
unfolding select_fast_audio emit
select_fast_audio-IsWatched s w =
    if_elim IsWatched (ltb (rank s.loading_state) 1)
      (λ first. raise-IsWatched fast_audio_data_loaded s (omega (arith, ltb→lt _ _ first)) w)
      (λ later. w)

IsWatched-IsClosed : IsClosed IsWatched
unfolding restart_decoding reset_decoder reset_config
IsWatched-IsClosed = record {
  by_aside = λ s t a r w. Aside-IsWatched s t a w;
  by_change = λ s r w. change-IsWatched s w;
  by_collect = λ s t e l r w. retrigger-IsWatched t;
  by_restart = λ s w. inr (inr (refl, refl));
  by_fast_audio = λ s r w. select_fast_audio-IsWatched s w;
}

-- Whatever a FIB holds: while a service component is known in one of the configurations and the
-- packet data do not count as loaded, the timer of the final check runs, if that was so before.
pub process_fib-IsWatched :
    (fib : List Bool) (s : FibDecoder) → IsWatched s → IsWatched (process_fib fib s)
process_fib-IsWatched fib s w = process_fib_kept IsWatched IsWatched-IsClosed fib s w

advance-IsWatched :
    (l : LoadingState) (s : FibDecoder)
    → rank s.loading_state ≤ rank l
    → IsWatched s
    → IsWatched (advance l s)
unfolding advance emit
advance-IsWatched l s r w = raise-IsWatched l s r w

check_audio-IsWatched : (s : FibDecoder) → IsWatched s → IsWatched (check_audio s)
unfolding check_audio
check_audio-IsWatched s w =
    if_elim IsWatched (leb (rank s.loading_state) 2)
      (λ early.
        let t = record s { loading_state = primary_base_data_loaded } in
        let v = raise-IsWatched primary_base_data_loaded s (leb→le _ _ early) w in
        if_elim IsWatched (check_audio_data_completeness t)
          (λ complete. advance-IsWatched fully_audio_data_loaded t (omega arith) v) (λ missing. v))
      (λ late. w)

check_packets-IsWatched : (s : FibDecoder) → IsWatched s → IsWatched (check_packets s)
unfolding check_packets
check_packets-IsWatched s w =
    if_elim IsWatched (rank s.loading_state == 3 && check_packet_data_completeness s)
      (λ complete. inl (unfold advance emit in omega arith)) (λ missing. w)

pub slot_consistency_check-IsWatched :
    (s : FibDecoder) → IsWatched s → IsWatched (slot_consistency_check s)
unfolding slot_consistency_check
slot_consistency_check-IsWatched s w =
    let t = record s { consistency_timer = false } in
    check_packets-IsWatched (check_audio t) (check_audio-IsWatched t w)

-- The other timer ends the wait, whatever is missing.
give_up_packets_loaded : (s : FibDecoder) → 4 ≤ rank (give_up_packets s).loading_state
unfolding give_up_packets advance emit
give_up_packets_loaded s =
    if_elim (λ (t : FibDecoder). 4 ≤ rank t.loading_state) (ltb (rank s.loading_state) 4)
      (λ early. omega arith) (λ late. ground arith)

pub slot_check_state_loaded : (s : FibDecoder) → 4 ≤ rank (slot_check_state s).loading_state
unfolding slot_check_state
slot_check_state_loaded s =
    give_up_packets_loaded (give_up_audio (record s { print_timer = false }))

pub blank-IsWatched : (s : FibDecoder) → HasNoComponent s → IsWatched s
blank-IsWatched s h = inr (inr h)
