-- ===== src/FibDecoder/Process/Closed/Announced.antt =====
-- FIG 0/18 and 0/19: the handlers of announcements keep a closed predicate.
use dabstar.Prelude.{
  ℕ, zero, suc, ◌+◌, ◌*◌, refl, Bool, true, false, Option, none, some, List, [], ◌∷◌, ◌==◌, ltb,
  leb, if_elim, get_or, set,
}
use dabstar.Bits.{get_bits}
use dabstar.SubChannel.Fig01.{FigHeader, get_fig_header}
use dabstar.FibDecoder.Config.{empty_cluster}
use dabstar.FibDecoder.Labels.{Label}
use dabstar.FibDecoder.State.{
  FibDecoder, Signal, start_announcement, stop_announcement, rank, emit, config_of,
}
use dabstar.FibDecoder.Announcements.{
  get_cluster, set_cluster, clusters_loop, announcement_support_loop, process_fig0s18, announce,
  announce_change, has_common_bit, count_announcing, switch_cluster, announcement_switching_loop,
  process_fig0s19,
}
use dabstar.FibDecoder.Process.Induction.{KeptByFig}
use dabstar.FibDecoder.Process.Closed.{
  of_same_fields, with_clusters-Aside, IsClosed, Live, Aside-Live,
}

module _ {ℓ} (P : FibDecoder → Type ℓ) (k : IsClosed P) where
  set_cluster_kept :
      (cn cluster_id s_id flags : ℕ) (s : FibDecoder)
      → Live P k s
      → Live P k (set_cluster cn cluster_id s_id flags s)
  unfolding set_cluster
  set_cluster_kept cn cluster_id s_id flags s p =
      if_elim (Live P k) (ltb (rank s.loading_state) 4) (λ early. p)
        (λ loaded. Aside-Live P k s _ (with_clusters-Aside cn _ s) p)

  clusters_kept :
      (left : ℕ) (d : List Bool) (o cn s_id flags : ℕ) (s : FibDecoder)
      → Live P k s
      → Live P k (clusters_loop left d o cn s_id flags s)
  unfolding clusters_loop
  clusters_kept zero d o cn s_id flags s p = p
  clusters_kept (suc left) d o cn s_id flags s p = clusters_kept left d (o + 8) cn s_id flags _ (
      if_elim (Live P k) (get_bits d o 8 == 0) (λ none_given. p)
        (λ given. set_cluster_kept cn (get_bits d o 8) s_id flags s p))

  support_kept :
      (fuel : ℕ) (d : List Bool) (o : ℕ) (fh : FigHeader) (s : FibDecoder)
      → Live P k s
      → Live P k (announcement_support_loop fuel d o fh s)
  unfolding announcement_support_loop
  support_kept zero d o fh s p = p
  support_kept (suc fuel) d o fh s p =
      if_elim (Live P k) (leb o (fh.fig_length * 8))
        (λ more. support_kept fuel d (o + 40 + get_bits d (o + 37) 3 * 8) fh _ (
          clusters_kept (get_bits d (o + 37) 3) d (o + 40) fh.cn_flag (get_bits d o 16)
            (get_bits d (o + 16) 16) s p))
        (λ done. p)

  pub by_fig0s18 : KeptByFig P process_fig0s18
  unfolding process_fig0s18
  by_fig0s18 d s r p =
      (support_kept (suc ((get_fig_header d).fig_length * 8)) d 16 (get_fig_header d) s (r, p)).1

  announce_kept :
      (signal : Option Label → Signal) (ids : List ℕ) (s : FibDecoder)
      → Live P k s
      → Live P k (announce signal ids s)
  unfolding announce
  announce_kept signal [] s p = p
  announce_kept signal (i ∷ ids) s p =
      announce_kept signal ids _
        (Aside-Live P k s _ (unfold emit in of_same_fields refl refl refl refl refl) p)

  announce_change_kept :
      (change : Option Bool) (ids : List ℕ) (i : ℕ) (s : FibDecoder)
      → Live P k s
      → Live P k (announce_change change ids i s)
  unfolding announce_change
  announce_change_kept none ids i s p = p
  announce_change_kept (some true) ids i s p = announce_kept (λ l. start_announcement l i) ids s p
  announce_change_kept (some false) ids i s p = announce_kept (λ l. stop_announcement l i) ids s p

  switch_cluster_kept :
      (cn cluster_id flags i : ℕ) (s : FibDecoder)
      → Live P k s
      → Live P k (switch_cluster cn cluster_id flags i s)
  unfolding switch_cluster
  switch_cluster_kept cn cluster_id flags i s p =
      let (table, j) = get_cluster (config_of s cn).cluster_table cluster_id in
      let c = get_or table j empty_cluster in
      let (n, change) = count_announcing (has_common_bit 16 c.flags flags) c.announcing in
      announce_change_kept change c.services_sids i _ (
        Aside-Live P k s _ (with_clusters-Aside cn (set table j (record c { announcing = n })) s) p)

  switching_kept :
      (fuel : ℕ) (d : List Bool) (o : ℕ) (fh : FigHeader) (s : FibDecoder)
      → Live P k s
      → Live P k (announcement_switching_loop fuel d o fh s)
  unfolding announcement_switching_loop
  switching_kept zero d o fh s p = p
  switching_kept (suc fuel) d o fh s p =
      if_elim (Live P k) (leb o (fh.fig_length * 8))
        (λ more.
          if_elim (Live P k) (ltb (rank s.loading_state) 4) (λ early. p)
            (λ loaded. switching_kept fuel d _ fh _ (
              switch_cluster_kept fh.cn_flag (get_bits d o 8) (get_bits d (o + 8) 16)
                (get_bits d (o + 26) 6) s p)))
        (λ done. p)

  pub by_fig0s19 : KeptByFig P process_fig0s19
  unfolding process_fig0s19
  by_fig0s19 d s r p =
      (switching_kept (suc ((get_fig_header d).fig_length * 8)) d 16 (get_fig_header d) s (r, p)).1
