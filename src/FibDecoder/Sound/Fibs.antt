-- ===== src/FibDecoder/Sound/Fibs.antt =====
-- A FIB keeps the configurations sound.
use dabstar.Prelude.{ℕ, ◌==◌, Bool, true, false, Option, none, some, List, ltb, if_elim}
use dabstar.Bits.{get_bits, get_bits_3}
use dabstar.FibDecoder.Config.{audio_component_of}
use dabstar.FibDecoder.Labels.{Label, EnsembleLabel, FibLabels, extract_label}
use dabstar.FibDecoder.State.{FibDecoder, rank, emit}
use dabstar.FibDecoder.Fig1.{
  store_ensemble, store_label, process_fig1s0, process_fig1s1, process_fig1s4, process_fig1s5,
  process_fig1,
}
use dabstar.FibDecoder.Loading.{is_selectable, select_fast_audio, process_fast_audio_selection}
use dabstar.FibDecoder.Process.{process_fib}
use dabstar.FibDecoder.Process.Induction.{IsKept, KeptByFig, process_fib_induction}
use dabstar.FibDecoder.Sound.{IsSound, IsSoundConfig, retrigger-Both}
use dabstar.FibDecoder.Sound.Mci.{
  process_fig0s0-IsSound, process_organization-IsSound, process_service-IsSound,
  process_packet_mode-IsSound, process_fig0s7-IsSound, process_global_def-IsSound,
  process_fec-IsSound,
}
use dabstar.FibDecoder.Sound.Info.{
  process_language-IsSound, process_fig0s9-IsSound, process_fig0s10-IsSound,
  process_fig0s15-IsSound, process_fig0s17-IsSound,
}
use dabstar.FibDecoder.Sound.Announce.{
  process_user_applications-IsSound, process_fig0s18-IsSound, process_fig0s19-IsSound,
}
use dabstar.FibDecoder.Process.{fig0_cases}

store_ensemble-IsSound :
    (o : Option EnsembleLabel) (e_id : ℕ) (l : Label) (s : FibDecoder)
    → IsSound s
    → IsSound (store_ensemble o e_id l s)
unfolding store_ensemble emit
store_ensemble-IsSound (some k) e_id l s b = b
store_ensemble-IsSound none e_id l s b = record { of_curr = b.of_curr; of_next = b.of_next }

store_label-IsSound :
    (known : Bool) (l : Option Label) (add : Label → FibLabels) (s : FibDecoder)
    → IsSound s
    → IsSound (store_label known l add s)
unfolding store_label
store_label-IsSound true l add s b = b
store_label-IsSound false none add s b = b
store_label-IsSound false (some l) add s b =
    retrigger-Both IsSoundConfig _ (record { of_curr = b.of_curr; of_next = b.of_next })

process_fig1-IsSound : KeptByFig IsSound process_fig1
unfolding process_fig1 process_fig1s0 process_fig1s1 process_fig1s4 process_fig1s5
process_fig1-IsSound d s r b =
    let extension = get_bits_3 d 13 in
    if_elim IsSound (extension == 0)
      (λ e.
        elim (extract_label d 32)
          as (λ x. IsSound (elim x [
            | none ↦ s
            | some l ↦ store_ensemble s.labels.ensemble (get_bits d 16 16) l s
          ])) [ none ↦ b | some l ↦ store_ensemble-IsSound s.labels.ensemble _ l s b ])
      (λ e.
        if_elim IsSound (extension == 1) (λ f. store_label-IsSound _ _ _ s b)
          (λ f.
            if_elim IsSound (extension == 4) (λ g. store_label-IsSound _ _ _ s b)
              (λ g.
                if_elim IsSound (extension == 5) (λ h. store_label-IsSound _ _ _ s b) (λ h. b))))

process_fast_audio_selection-IsSound :
    (s : FibDecoder) → IsSound s → IsSound (process_fast_audio_selection s)
unfolding process_fast_audio_selection select_fast_audio emit
process_fast_audio_selection-IsSound s b =
    if_elim IsSound (is_selectable s.curr (audio_component_of s.curr s.s_id_for_fast_audio))
      (λ there.
        if_elim IsSound (ltb (rank s.loading_state) 1)
          (λ first. record { of_curr = b.of_curr; of_next = b.of_next })
          (λ later. record { of_curr = b.of_curr; of_next = b.of_next }))
      (λ missing. b)

IsSound-IsKept : IsKept IsSound
unfolding fig0_cases
IsSound-IsKept = record {
  by_cases = (
    process_fig0s0-IsSound,
    (
      process_organization-IsSound,
      (
        process_service-IsSound,
        (
          process_packet_mode-IsSound,
          (
            process_language-IsSound,
            (
              process_fig0s7-IsSound,
              (
                process_global_def-IsSound,
                (
                  process_fig0s9-IsSound,
                  (
                    process_fig0s10-IsSound,
                    (
                      process_user_applications-IsSound,
                      (
                        process_fec-IsSound,
                        (
                          (λ d s r b. process_fig0s15-IsSound s b),
                          (
                            process_fig0s17-IsSound,
                            (process_fig0s18-IsSound, (process_fig0s19-IsSound, tt)),
                          ),
                        ),
                      ),
                    ),
                  ),
                ),
              ),
            ),
          ),
        ),
      ),
    ),
  );
  by_fig1 = process_fig1-IsSound;
  by_fast_audio = λ s r b. process_fast_audio_selection-IsSound s b;
}

-- Whatever bits a FIB holds: in both configurations the sub-channels lie inside the CIF and share
-- neither a capacity unit nor an identifier, no service component, packet-mode component, language
-- of a sub-channel, global definition, FEC scheme or programme type has the key of another one, and
-- a set of user applications takes a byte at least, if all of that was so before.
pub process_fib-IsSound :
    (fib : List Bool) (s : FibDecoder) → IsSound s → IsSound (process_fib fib s)
process_fib-IsSound fib s b =
    process_fib_induction IsSound IsSound-IsKept fib s
      (record { of_curr = b.of_curr; of_next = b.of_next })
