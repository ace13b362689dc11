-- ===== src/FibDecoder/Process/Closed.antt =====
-- A property that the few ways in which a handler changes the decoder keep is kept by a FIB.
pub mod Announced
pub mod Cases
use dabstar.Prelude.{
  ℕ, zero, suc, ◌+◌, ◌*◌, ◌≡◌, refl, sym, ◌∙◌, Bool, true, false, ◌&&◌, Option, none, some, List,
  [], ◌∷◌, ◌==◌, ltb, leb, if◌then◌else◌, if_elim,
}
use dabstar.Bits.{
  get_bits, get_l_bits, get_bits_1, get_bits_2, get_bits_3, get_bits_4, get_bits_5, get_bits_6,
  get_bits_8,
}
use dabstar.SubChannel.Fig01.{
  FigHeader, get_fig_header, get_config, organization_of, subprocess_fig0s1,
}
use dabstar.FibDecoder.Config.{
  ServiceCompDef, FibConfig, CountryLto, UserApplications, reset_config, empty_cluster,
  component_of, audio_component_of, user_application_of, Cluster,
}
use dabstar.FibDecoder.Labels.{Label, EnsembleLabel, FibLabels, extract_label}
use dabstar.FibDecoder.State.{
  LoadingState, FibDecoder, Signal, start_announcement, stop_announcement, rank, emit, retrigger,
  restart_decoding, change_in_configuration, config_of, with_config, sub_channels,
  with_sub_channels, is_some, store,
}
use dabstar.FibDecoder.Multiplex.{
  s_id_bits, change_configuration, process_fig0s0, process_organization, components_loop,
  process_service, process_packet_mode, process_fig0s7, process_global_def, process_fec,
}
use dabstar.FibDecoder.Multiplex.UserApps.{
  read_user_applications, store_user_applications, process_user_applications,
}
use dabstar.FibDecoder.Information.{
  store_short_language, store_long_language, process_language, process_fig0s9, read_time, tell_time,
  process_fig0s10, process_fig0s15, store_programme_type, programme_types_loop, process_fig0s17,
}
use dabstar.FibDecoder.Announcements.{
  get_cluster, set_cluster, clusters_loop, announcement_support_loop, process_fig0s18, announce,
  announce_change, has_common_bit, count_announcing, switch_cluster, announcement_switching_loop,
  process_fig0s19,
}
use dabstar.FibDecoder.Fig1.{
  store_ensemble, store_label, process_fig1s0, process_fig1s1, process_fig1s4, process_fig1s5,
  process_fig1,
}
use dabstar.FibDecoder.Loading.{is_selectable, select_fast_audio, process_fast_audio_selection}
use dabstar.FibDecoder.Process.{fig0_cases}
use dabstar.FibDecoder.Process.Induction.{KeptByHandler, KeptByFig, IsKept}

-- What counters, time, clusters and signals leave alone.
pub record Aside (s t : FibDecoder) : Type 0 where
  pub same_restart : t.restart ≡ s.restart
  pub same_state : t.loading_state ≡ s.loading_state
  pub same_timer : t.print_timer ≡ s.print_timer
  pub same_curr : t.curr.components ≡ s.curr.components
  pub same_next : t.next.components ≡ s.next.components

pub of_same_fields :
    {s t : FibDecoder}
    → t.restart ≡ s.restart
    → t.loading_state ≡ s.loading_state
    → t.print_timer ≡ s.print_timer
    → t.curr.components ≡ s.curr.components
    → t.next.components ≡ s.next.components
    → Aside s t
of_same_fields r l p c n = record {
  same_restart = r;
  same_state = l;
  same_timer = p;
  same_curr = c;
  same_next = n;
}

restart-retrigger : (s : FibDecoder) → (retrigger s).restart ≡ s.restart
unfolding retrigger emit
restart-retrigger s =
    if_elim (λ (t : FibDecoder). t.restart ≡ s.restart) (leb 4 (rank s.loading_state)) (λ h. refl)
      (λ h. refl)

restart-with_config :
    (cn : ℕ) (c : FibConfig) (s : FibDecoder) → (with_config cn c s).restart ≡ s.restart
restart-with_config cn c s =
    if_elim (λ (t : FibDecoder). t.restart ≡ s.restart) (cn == 0) (λ h. refl) (λ h. refl)

loading_state-with_config :
    (cn : ℕ) (c : FibConfig) (s : FibDecoder) → (with_config cn c s).loading_state ≡ s.loading_state
loading_state-with_config cn c s =
    if_elim (λ (t : FibDecoder). t.loading_state ≡ s.loading_state) (cn == 0) (λ h. refl)
      (λ h. refl)

pub with_clusters-Aside :
    (cn : ℕ) (table : List Cluster) (s : FibDecoder)
    → Aside s (with_config cn (record (config_of s cn) { cluster_table = table }) s)
with_clusters-Aside cn table s = go (cn == 0)
  where
    go :
        (b : Bool)
        → Aside s (
            if b
            then record s { curr = record (if b then s.curr else s.next) { cluster_table = table } }
            else record s {
              next = record (if b then s.curr else s.next) { cluster_table = table };
            })
    go true = of_same_fields refl refl refl refl refl
    go false = of_same_fields refl refl refl refl refl

pub record IsClosed {ℓ} (P : FibDecoder → Type ℓ) : Type ℓ where
  pub by_aside : (s t : FibDecoder) → Aside s t → s.restart ≡ false → P s → P t
  pub by_change :
      (s : FibDecoder)
      → s.restart ≡ false
      → P s
      → P (record s { curr = s.next; next = reset_config s.curr })
  pub by_collect :
      (s t : FibDecoder)
      → t.restart ≡ s.restart
      → t.loading_state ≡ s.loading_state
      → s.restart ≡ false
      → P s
      → P (retrigger t)
  pub by_restart : (s : FibDecoder) → P s → P (restart_decoding s)
  pub by_fast_audio : (s : FibDecoder) → s.restart ≡ false → P s → P (select_fast_audio s)

module _ {ℓ} (P : FibDecoder → Type ℓ) (k : IsClosed P) where
  -- No restart is wanted so far.
  abbrev pub Live : FibDecoder → Type ℓ
  Live s = (s.restart ≡ false) × P s

  pub Aside-Live : (s t : FibDecoder) → Aside s t → Live s → Live t
  Aside-Live s t a l = (a.same_restart ∙ l.0, k.by_aside s t a l.0 l.1)

  pub emit-Live : (g : Signal) (s : FibDecoder) → Live s → Live (emit g s)
  unfolding emit
  emit-Live g s l = Aside-Live s _ (of_same_fields refl refl refl refl refl) l

  pub collect-Live :
      (s t : FibDecoder)
      → t.restart ≡ s.restart
      → t.loading_state ≡ s.loading_state
      → Live s
      → Live (retrigger t)
  collect-Live s t r e l = (restart-retrigger t ∙ r ∙ l.0, k.by_collect s t r e l.0 l.1)

  pub store-Live :
      (known : Bool) (cn : ℕ) (add : FibConfig → FibConfig) (s : FibDecoder)
      → Live s
      → Live (store known cn add s)
  unfolding store
  store-Live true cn add s l = l
  store-Live false cn add s l =
      let c = add (config_of s cn) in
      collect-Live s (with_config cn c s) (restart-with_config cn c s)
        (loading_state-with_config cn c s) l

  pub by_fig0s0 : KeptByFig P process_fig0s0
  unfolding process_fig0s0 change_configuration
  by_fig0s0 d s r p =
      let t = record s {
        cif_count_hi = get_bits_5 d 35;
        cif_count_lo = get_bits_8 d 40;
        cif_count = get_bits_5 d 35 * 250 + get_bits_8 d 40;
      } in
      let q = Aside-Live s t (of_same_fields refl refl refl refl refl) (r, p) in
      let change_Live : Live (record t { curr = t.next; next = reset_config t.curr }) =
        (q.0, k.by_change t q.0 q.1) in
      (Aside-Live _ _ (of_same_fields refl refl refl refl refl) (
        if_elim Live (get_bits_2 d 32 == 0 && s.prev_change_flag == 3)
          (λ change. emit-Live change_in_configuration _ change_Live) (λ same. q))).1

  pub by_organization : KeptByHandler P process_organization
  unfolding process_organization
  by_organization d offset fh s r p =
      let t = subprocess_fig0s1 d offset fh (sub_channels s) in
      if_elim P
        (is_some
          (organization_of (get_config (sub_channels s) fh.cn_flag) (get_bits_6 d (offset * 8))))
        (λ known. p)
        (λ new.
          if_elim P t.1.restart (λ stop. k.by_restart s p)
            (λ on. k.by_collect s (with_sub_channels t.1 s) refl refl r p))

  components_loop-Live :
      (left : ℕ) (d : List Bool) (o : ℕ) (fh : FigHeader) (s_id n index : ℕ) (s : FibDecoder)
      → Live s
      → Live (components_loop left d o fh s_id n index s).1
  unfolding components_loop
  components_loop-Live zero d o fh s_id n index s l = l
  components_loop-Live (suc left) d o fh s_id n index s l =
      components_loop-Live left d (o + 16) fh s_id n (index + 1) _ (store-Live _ fh.cn_flag _ s l)

  pub by_service : KeptByHandler P process_service
  unfolding process_service
  by_service d offset fh s r p =
      let o = 8 * offset + s_id_bits fh in
      (components_loop-Live (get_bits_4 d (o + 4)) d (o + 8) fh
        (get_l_bits d (8 * offset) (s_id_bits fh)) (get_bits_4 d (o + 4)) 0 s (r, p)).1

  pub by_store :
      (known : Bool) (cn : ℕ) (add : FibConfig → FibConfig) (s : FibDecoder)
      → s.restart ≡ false
      → P s
      → P (store known cn add s)
  by_store known cn add s r p = (store-Live known cn add s (r, p)).1

  pub by_packet_mode : KeptByHandler P process_packet_mode
  unfolding process_packet_mode
  by_packet_mode d used fh s r p = by_store _ fh.cn_flag _ s r p
