-- ===== src/FibDecoder/Sound/Announce.antt =====
-- The handlers of the user applications and the announcements keep the configurations sound.
use dabstar.Prelude.{
  ℕ, zero, suc, ◌+◌, ◌*◌, ◌≤◌, Bool, true, false, Option, none, some, List, [], ◌∷◌, ◌==◌, ltb, leb,
  if◌then◌else◌, if_elim, get_or, set, All-append, arith,
}
use dabstar.Bits.{get_bits, get_bits_4}
use dabstar.SubChannel.Fig01.{FigHeader, get_fig_header}
use dabstar.FibDecoder.Config.{Cluster, empty_cluster, UserApplications, FibConfig}
use dabstar.FibDecoder.Labels.{Label}
use dabstar.FibDecoder.State.{
  FibDecoder, Signal, start_announcement, stop_announcement, config_of, rank,
}
use dabstar.FibDecoder.Multiplex.UserApps.{
  add_user_applications, store_user_applications, user_apps_loop, clamp_user_apps, read_user_app,
  read_user_applications, process_user_applications,
}
use dabstar.FibDecoder.Announcements.{
  get_cluster, set_cluster, clusters_loop, announcement_support_loop, process_fig0s18, announce,
  announce_change, has_common_bit, count_announcing, switch_cluster, announcement_switching_loop,
  process_fig0s19,
}
use dabstar.FibDecoder.Sound.{
  IsSoundConfig, sound, IsSound, emit-Both, config_of-Both, with_config-Both, store-Both,
}
use dabstar.FibDecoder.Process.Induction.{KeptByHandler, KeptByFig}

with_clusters-IsSoundConfig :
    (c : FibConfig) (table : List Cluster)
    → IsSoundConfig c
    → IsSoundConfig (record c { cluster_table = table })
with_clusters-IsSoundConfig c table q =
    sound q.organizations q.components q.packet_modes q.languages q.global_defs q.user_applications
      q.fec_organizations q.programme_types

set_cluster-IsSound :
    (cn cluster_id s_id flags : ℕ) (s : FibDecoder)
    → IsSound s
    → IsSound (set_cluster cn cluster_id s_id flags s)
unfolding set_cluster
set_cluster-IsSound cn cluster_id s_id flags s b =
    if_elim IsSound (ltb (rank s.loading_state) 4) (λ early. b)
      (λ loaded.
        with_config-Both IsSoundConfig s cn _ b
          (with_clusters-IsSoundConfig (config_of s cn) _ (config_of-Both IsSoundConfig s cn b)))

clusters_loop-IsSound :
    (left : ℕ) (d : List Bool) (o cn s_id flags : ℕ) (s : FibDecoder)
    → IsSound s
    → IsSound (clusters_loop left d o cn s_id flags s)
unfolding clusters_loop
clusters_loop-IsSound zero d o cn s_id flags s b = b
clusters_loop-IsSound (suc left) d o cn s_id flags s b =
    clusters_loop-IsSound left d (o + 8) cn s_id flags _ (
      if_elim IsSound (get_bits d o 8 == 0) (λ none_given. b)
        (λ given. set_cluster-IsSound cn (get_bits d o 8) s_id flags s b))

announcement_support_loop-IsSound :
    (fuel : ℕ) (d : List Bool) (o : ℕ) (fh : FigHeader) (s : FibDecoder)
    → IsSound s
    → IsSound (announcement_support_loop fuel d o fh s)
unfolding announcement_support_loop
announcement_support_loop-IsSound zero d o fh s b = b
announcement_support_loop-IsSound (suc fuel) d o fh s b =
    if_elim IsSound (leb o (fh.fig_length * 8))
      (λ more. announcement_support_loop-IsSound fuel d (o + 40 + get_bits d (o + 37) 3 * 8) fh _ (
        clusters_loop-IsSound (get_bits d (o + 37) 3) d (o + 40) fh.cn_flag (get_bits d o 16)
          (get_bits d (o + 16) 16) s b))
      (λ done. b)

pub process_fig0s18-IsSound : KeptByFig IsSound process_fig0s18
unfolding process_fig0s18
process_fig0s18-IsSound d s r b =
    announcement_support_loop-IsSound (suc ((get_fig_header d).fig_length * 8)) d 16
      (get_fig_header d) s b

announce-IsSound :
    (signal : Option Label → Signal) (ids : List ℕ) (s : FibDecoder)
    → IsSound s
    → IsSound (announce signal ids s)
unfolding announce
announce-IsSound signal [] s b = b
announce-IsSound signal (i ∷ ids) s b =
    announce-IsSound signal ids _ (emit-Both IsSoundConfig _ s b)

announce_change-IsSound :
    (change : Option Bool) (ids : List ℕ) (i : ℕ) (s : FibDecoder)
    → IsSound s
    → IsSound (announce_change change ids i s)
unfolding announce_change
announce_change-IsSound none ids i s b = b
announce_change-IsSound (some true) ids i s b =
    announce-IsSound (λ l. start_announcement l i) ids s b
announce_change-IsSound (some false) ids i s b =
    announce-IsSound (λ l. stop_announcement l i) ids s b

switch_cluster-IsSound :
    (cn cluster_id flags i : ℕ) (s : FibDecoder)
    → IsSound s
    → IsSound (switch_cluster cn cluster_id flags i s)
unfolding switch_cluster
switch_cluster-IsSound cn cluster_id flags i s b =
    let (table, j) = get_cluster (config_of s cn).cluster_table cluster_id in
    let k = get_or table j empty_cluster in
    let (n, change) = count_announcing (has_common_bit 16 k.flags flags) k.announcing in
    announce_change-IsSound change k.services_sids i _ (
      with_config-Both IsSoundConfig s cn _ b (
        with_clusters-IsSoundConfig (config_of s cn) (set table j (record k { announcing = n }))
          (config_of-Both IsSoundConfig s cn b)))

announcement_switching_loop-IsSound :
    (fuel : ℕ) (d : List Bool) (o : ℕ) (fh : FigHeader) (s : FibDecoder)
    → IsSound s
    → IsSound (announcement_switching_loop fuel d o fh s)
unfolding announcement_switching_loop
announcement_switching_loop-IsSound zero d o fh s b = b
announcement_switching_loop-IsSound (suc fuel) d o fh s b =
    if_elim IsSound (leb o (fh.fig_length * 8))
      (λ more.
        if_elim IsSound (ltb (rank s.loading_state) 4) (λ early. b)
          (λ loaded. announcement_switching_loop-IsSound fuel d _ fh _ (
            switch_cluster-IsSound fh.cn_flag (get_bits d o 8) (get_bits d (o + 8) 16)
              (get_bits d (o + 26) 6) s b)))
      (λ done. b)

pub process_fig0s19-IsSound : KeptByFig IsSound process_fig0s19
unfolding process_fig0s19
process_fig0s19-IsSound d s r b =
    announcement_switching_loop-IsSound (suc ((get_fig_header d).fig_length * 8)) d 16
      (get_fig_header d) s b

-- The next bit is not before this one.
user_apps_loop_le : (left : ℕ) (d : List Bool) (pd o : ℕ) → o ≤ (user_apps_loop left d pd o).0
unfolding user_apps_loop
user_apps_loop_le zero d pd o = omega arith
user_apps_loop_le (suc left) d pd o = omega (
  arith,
  user_apps_loop_le left d pd (o + (11 + 5 + 8 * (read_user_app d pd o).user_app_data_length)),
)

pub size_bits-read_user_applications :
    (d : List Bool) (used : ℕ) (fh : FigHeader) → 8 ≤ (read_user_applications d used fh).size_bits
unfolding read_user_applications
size_bits-read_user_applications d used fh =
    let o = used * 8 + (if fh.pd_flag == 1 then 32 else 16) in
    omega (arith, user_apps_loop_le (clamp_user_apps (get_bits_4 d (o + 4))) d fh.pd_flag (o + 8))

store_user_applications-IsSound :
    (k : Option UserApplications) (e : UserApplications) (used cn : ℕ) (s : FibDecoder)
    → 8 ≤ e.size_bits
    → IsSound s
    → IsSound (store_user_applications k e used cn s).1
unfolding store_user_applications
store_user_applications-IsSound (some k) e used cn s h b = b
store_user_applications-IsSound none e used cn s h b =
    store-Both IsSoundConfig false cn (add_user_applications e) s
      (λ new q.
        sound q.organizations q.components q.packet_modes q.languages q.global_defs
          (All-append (λ (u : UserApplications). 8 ≤ u.size_bits) _ (e ∷ []) q.user_applications
            (h, tt))
          q.fec_organizations q.programme_types)
      b

pub process_user_applications-IsSound : KeptByHandler IsSound process_user_applications
unfolding process_user_applications
process_user_applications-IsSound d used fh s r b =
    store_user_applications-IsSound _ _ used fh.cn_flag s
      (size_bits-read_user_applications d used fh) b
