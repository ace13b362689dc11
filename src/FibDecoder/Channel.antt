-- ===== src/FibDecoder/Channel.antt =====
-- A change of the configuration, and a change of the channel.
use mathlib.Core.Path.{subst, transport}
use mathlib.Core.List.{append_assoc, append-nil}
use dabstar.Prelude.{
  ℕ, suc, ◌≡◌, refl, sym, ap, ◌∙◌, Bool, true, false, List, [], ◌∷◌, ◌++◌, ◌==◌, ◌&&◌,
  if◌then◌else◌, replicate,
}
use dabstar.Bits.{get_bits_2}
use dabstar.FibDecoder.Config.{FibConfig, reset_config}
use dabstar.FibDecoder.State.{
  FibDecoder, change_in_configuration, emit, reset_decoder, connect_channel,
}
use dabstar.FibDecoder.Announcements.{get_cluster}
use dabstar.FibDecoder.Process.Restart.{IsEmptied, reset_config-IsEmptied}
use dabstar.FibDecoder.Multiplex.{change_configuration, process_fig0s0}

-- How often the change flags 0 follow 3, with the flags before.
unfoldable pub changes : ℕ → List (List Bool) → ℕ
changes before [] = 0
changes before (d ∷ ds) =
    let flags = get_bits_2 d 32 in
    if flags == 0 && before == 3 then suc (changes flags ds) else changes flags ds

-- A row of FIG 0/0.
unfoldable pub run_fig0s0 : List (List Bool) → FibDecoder → FibDecoder
run_fig0s0 [] s = s
run_fig0s0 (d ∷ ds) s = run_fig0s0 ds (process_fig0s0 d s)

-- Each time the next configuration becomes the current one, and the former current one is emptied,
-- but for its clusters, and becomes the next.
pub data IsExchanged : ℕ → FibConfig → FibConfig → FibDecoder → Type 0 where
  stays :
      {curr next : FibConfig} {t : FibDecoder}
      → t.curr ≡ curr
      → t.next ≡ next
      → IsExchanged 0 curr next t
  takes_over :
      {n : ℕ} {curr next : FibConfig} {t : FibDecoder} (emptied : FibConfig)
      → IsEmptied emptied curr.cluster_table
      → IsExchanged n next emptied t
      → IsExchanged (suc n) curr next t

abbrev Follows : ℕ → FibDecoder → FibDecoder → Type 0
Follows n s t =
    (t.signals ≡ s.signals ++ replicate n change_in_configuration) × IsExchanged n s.curr s.next t

-- One FIG 0/0 in front of a row that is followed.
Follows-change :
    (d : List Bool) (n : ℕ) (s t : FibDecoder)
    → (get_bits_2 d 32 == 0 && s.prev_change_flag == 3) ≡ true
    → Follows n (process_fig0s0 d s) t
    → Follows (suc n) s t
unfolding process_fig0s0 change_configuration emit
Follows-change d n s t change f =
    let u = process_fig0s0 d s in
    let told : u.signals ≡ s.signals ++ (change_in_configuration ∷ []) = rw change refl in
    let curr : u.curr ≡ s.next = rw change refl in
    let next : u.next ≡ reset_config s.curr = rw change refl in
    (
      f.0
          ∙ ap (λ l. l ++ replicate n change_in_configuration) told
          ∙ append_assoc s.signals (change_in_configuration ∷ [])
              (replicate n change_in_configuration),
      takes_over (reset_config s.curr) (reset_config-IsEmptied s.curr)
          (transport (λ i. IsExchanged n (curr i) (next i) t) f.1),
    )

Follows-same :
    (d : List Bool) (n : ℕ) (s t : FibDecoder)
    → (get_bits_2 d 32 == 0 && s.prev_change_flag == 3) ≡ false
    → Follows n (process_fig0s0 d s) t
    → Follows n s t
unfolding process_fig0s0 change_configuration emit
Follows-same d n s t same f =
    let u = process_fig0s0 d s in
    let told : u.signals ≡ s.signals = rw same refl in
    let curr : u.curr ≡ s.curr = rw same refl in
    let next : u.next ≡ s.next = rw same refl in
    (
      f.0 ∙ ap (λ l. l ++ replicate n change_in_configuration) told,
      transport (λ i. IsExchanged n (curr i) (next i) t) f.1,
    )

flags-process_fig0s0 :
    (d : List Bool) (s : FibDecoder) → (process_fig0s0 d s).prev_change_flag ≡ get_bits_2 d 32
unfolding process_fig0s0
flags-process_fig0s0 d s = refl

-- For every row of FIG 0/0: the user layer is told of a change, and the configurations change places,
-- exactly as often as the change flags 0 follow 3, the flags that came last before the row included.
-- The configuration that takes over is the next one as it was collected, and the one that it replaces
-- is empty afterwards but for the clusters of announcements.
pub configuration_takes_over :
    (ds : List (List Bool)) (s : FibDecoder)
    → let t = run_fig0s0 ds s in
      let n = changes s.prev_change_flag ds in
      (t.signals ≡ s.signals ++ replicate n change_in_configuration) × IsExchanged n s.curr s.next t
unfolding run_fig0s0 changes
configuration_takes_over [] s = (sym (append-nil s.signals), stays refl refl)
configuration_takes_over (d ∷ ds) s =
    let u = process_fig0s0 d s in
    let t = run_fig0s0 ds u in
    let later : Follows (changes (get_bits_2 d 32) ds) u t =
      subst (λ p. Follows (changes p ds) u t) (flags-process_fig0s0 d s)
        (configuration_takes_over ds u) in
    by_flags (get_bits_2 d 32 == 0 && s.prev_change_flag == 3) refl t later
  where
    by_flags :
        (b : Bool)
        → (get_bits_2 d 32 == 0 && s.prev_change_flag == 3) ≡ b
        → (t : FibDecoder) → Follows (changes (get_bits_2 d 32) ds) (process_fig0s0 d s) t
        → Follows
            (if b then suc (changes (get_bits_2 d 32) ds) else changes (get_bits_2 d 32) ds)
            s
            t
    by_flags true change t later = Follows-change d (changes (get_bits_2 d 32) ds) s t change later
    by_flags false same t later = Follows-same d (changes (get_bits_2 d 32) ds) s t same later

-- After `connect_channel` a decoder depends on nothing that the former channel sent, but for the
-- tables of the announcement clusters, which stay: two decoders that agree on those, on the selected
-- service, on the restart flag and on the signals sent so far become the same, and each cluster is
-- found again with the services of the former channel.
pub connect_channel_forgets :
    (s t : FibDecoder) (cluster_id : ℕ)
    → s.curr.cluster_table ≡ t.curr.cluster_table
    → s.next.cluster_table ≡ t.next.cluster_table
    → s.s_id_for_fast_audio ≡ t.s_id_for_fast_audio
    → s.restart ≡ t.restart
    → s.signals ≡ t.signals
    → (connect_channel s ≡ connect_channel t)
      × (get_cluster (connect_channel s).curr.cluster_table cluster_id
          ≡ get_cluster s.curr.cluster_table cluster_id)
unfolding connect_channel reset_decoder reset_config
connect_channel_forgets s t cluster_id c n i r g = (cc, refl)
