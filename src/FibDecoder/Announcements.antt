-- ===== src/FibDecoder/Announcements.antt =====
-- fib_decoder_fig0.cpp: FIG 0/18 and 0/19, the announcements, over the table of clusters
-- (_set_cluster and _get_cluster of fib_decoder.cpp).
pub mod Ends
use dabstar.Prelude.{
  ℕ, zero, suc, ◌+◌, ◌*◌, ◌/◌, ◌%◌, Bool, true, false, ◌&&◌, ◌||◌, Option, none, some, List, [],
  ◌∷◌, ◌++◌, ◌==◌, leb, ltb, if◌then◌else◌, get_or, set,
}
use dabstar.Bits.{get_bits}
use dabstar.SubChannel.Fig01.{FigHeader, get_fig_header}
use dabstar.FibDecoder.Config.{Cluster, empty_cluster}
use dabstar.FibDecoder.Labels.{Label, service_label_of}
use dabstar.FibDecoder.State.{
  FibDecoder, Signal, start_announcement, stop_announcement, rank, emit, config_of, with_config,
}

-- The two loops of _get_cluster, from entry `i` on: a cluster in use with this identifier, an unused
-- cluster.
unfoldable pub used_cluster : ℕ → List Cluster → ℕ → Option ℕ
used_cluster cluster_id [] i = none
used_cluster cluster_id (c ∷ cs) i =
    if c.in_use && c.cluster_id == cluster_id then some i else used_cluster cluster_id cs (i + 1)

unfoldable pub free_cluster : List Cluster → ℕ → Option ℕ
free_cluster [] i = none
free_cluster (c ∷ cs) i = if c.in_use then free_cluster cs (i + 1) else some i

-- _get_cluster: the table and the entry that is pointed to.
unfoldable pub get_cluster : List Cluster → ℕ → List Cluster × ℕ
unfolding used_cluster free_cluster
get_cluster table cluster_id = elim (used_cluster cluster_id table 0) [
  | some i ↦ (table, i)
  | none ↦ elim (free_cluster table 0) [
    | some i ↦ (
      set table i
          (record (get_or table i empty_cluster) { in_use = true; cluster_id = cluster_id }),
      i,
    )
    | none ↦ (table, 0)
  ]
]

abbrev pub has_sid : List ℕ → ℕ → Bool
has_sid [] s_id = false
has_sid (x ∷ xs) s_id = x == s_id || has_sid xs s_id

-- The entry behind the pointer, with the service added once.
abbrev pub add_service : ℕ → ℕ → Cluster → Cluster
add_service s_id asu_flags c = record c {
  flags = asu_flags;
  services_sids =
      if has_sid c.services_sids s_id then c.services_sids else c.services_sids ++ (s_id ∷ []);
}

-- _set_cluster
unfoldable pub set_cluster : ℕ → ℕ → ℕ → ℕ → FibDecoder → FibDecoder
unfolding get_cluster
set_cluster cn_flag cluster_id s_id asu_flags s =
    let c = config_of s cn_flag in
    let (table, i) = get_cluster c.cluster_table cluster_id in
    if ltb (rank s.loading_state) 4
    then s
    else with_config cn_flag
        (record c {
          cluster_table = set table i (add_service s_id asu_flags (get_or table i empty_cluster));
        })
        s

-- _process_Fig0s18: the loop over the clusters of a service, with those left.
unfoldable pub clusters_loop : ℕ → List Bool → ℕ → ℕ → ℕ → ℕ → FibDecoder → FibDecoder
unfolding get_bits set_cluster
clusters_loop zero d o cn_flag s_id asu_flags s = s
clusters_loop (suc left) d o cn_flag s_id asu_flags s =
    let cluster_id = get_bits d o 8 in
    clusters_loop left d (o + 8) cn_flag s_id asu_flags
      (if cluster_id == 0 then s else set_cluster cn_flag cluster_id s_id asu_flags s)

-- The loop over the services. A round takes at least 40 bits.
unfoldable pub announcement_support_loop : ℕ → List Bool → ℕ → FigHeader → FibDecoder → FibDecoder
unfolding get_bits clusters_loop
announcement_support_loop zero d o fh s = s
announcement_support_loop (suc fuel) d o fh s =
    let nr_clusters = get_bits d (o + 37) 3 in
    let s' =
      clusters_loop nr_clusters d (o + 40) fh.cn_flag (get_bits d o 16) (get_bits d (o + 16) 16)
        s in
    let rest = announcement_support_loop fuel d (o + 40 + nr_clusters * 8) fh s' in
    if leb o (fh.fig_length * 8) then rest else s

unfoldable pub process_fig0s18 : List Bool → FibDecoder → FibDecoder
unfolding get_fig_header announcement_support_loop
process_fig0s18 d s =
    let fh = get_fig_header d in announcement_support_loop (suc (fh.fig_length * 8)) d 16 fh s

-- `(a & b) != 0` of two numbers of `n` bits.
unfoldable pub has_common_bit : ℕ → ℕ → ℕ → Bool
has_common_bit zero a b = false
has_common_bit (suc n) a b = (a % 2 == 1 && b % 2 == 1) || has_common_bit n (a / 2) (b / 2)

-- A signal for each service of a cluster.
unfoldable pub announce : (Option Label → Signal) → List ℕ → FibDecoder → FibDecoder
unfolding service_label_of emit
announce signal [] s = s
announce signal (s_id ∷ ids) s =
    announce signal ids (emit (signal (service_label_of s.labels s_id)) s)

-- The branches of _process_Fig0s19 on a cluster: its new count, and whether the announcement starts
-- (`some true`) or stops (`some false`).
unfoldable pub count_announcing : Bool → ℕ → ℕ × Option Bool
count_announcing true n = (n + 1, if n + 1 == 5 then some true else none)
count_announcing false n = (0, if ltb 0 n then some false else none)

unfoldable pub announce_change : Option Bool → List ℕ → ℕ → FibDecoder → FibDecoder
unfolding announce
announce_change none ids sub_ch_id s = s
announce_change (some true) ids sub_ch_id s = announce (λ l. start_announcement l sub_ch_id) ids s
announce_change (some false) ids sub_ch_id s = announce (λ l. stop_announcement l sub_ch_id) ids s

unfoldable pub switch_cluster : ℕ → ℕ → ℕ → ℕ → FibDecoder → FibDecoder
unfolding get_cluster has_common_bit count_announcing announce_change
switch_cluster cn_flag cluster_id asw_flags sub_ch_id s =
    let c = config_of s cn_flag in
    let (table, i) = get_cluster c.cluster_table cluster_id in
    let k = get_or table i empty_cluster in
    let (n, change) = count_announcing (has_common_bit 16 k.flags asw_flags) k.announcing in
    announce_change change k.services_sids sub_ch_id (
      with_config cn_flag (record c { cluster_table = set table i (record k { announcing = n }) })
        s)

-- The loop over the clusters. A round takes 32 bits, or 40 with a region.
unfoldable pub announcement_switching_loop : ℕ → List Bool → ℕ → FigHeader → FibDecoder → FibDecoder
unfolding get_bits switch_cluster
announcement_switching_loop zero d o fh s = s
announcement_switching_loop (suc fuel) d o fh s =
    let s' =
      switch_cluster fh.cn_flag (get_bits d o 8) (get_bits d (o + 8) 16) (get_bits d (o + 26) 6)
        s in
    let o' = o + (if get_bits d (o + 25) 1 == 1 then 40 else 32) in
    let rest = announcement_switching_loop fuel d o' fh s' in
    if leb o (fh.fig_length * 8) then (if ltb (rank s.loading_state) 4 then s else rest) else s

unfoldable pub process_fig0s19 : List Bool → FibDecoder → FibDecoder
unfolding get_fig_header announcement_switching_loop
process_fig0s19 d s =
    let fh = get_fig_header d in announcement_switching_loop (suc (fh.fig_length * 8)) d 16 fh s
