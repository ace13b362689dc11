-- ===== src/FibDecoder/Multiplex.antt =====
-- fib_decoder_fig0.cpp: the multiplex configuration information, FIG 0/0, 0/1, 0/2, 0/3, 0/7, 0/8,
-- 0/13 and 0/14. A handler of `_process_fig0_loop` gives the next offset in bytes and the decoder.
pub mod UserApps
use dabstar.Prelude.{
  ℕ, zero, suc, ◌+◌, ◌*◌, ◌/◌, Bool, true, false, ◌&&◌, Option, none, some, List, [], ◌∷◌, ◌++◌,
  ◌==◌, if◌then◌else◌,
}
use dabstar.Bits.{
  get_bits, get_l_bits, get_bits_1, get_bits_2, get_bits_4, get_bits_5, get_bits_6, get_bits_8,
}
use dabstar.SubChannel.Fig01.{
  FigHeader, get_fig_header, get_config, organization_of, subprocess_fig0s1,
}
use dabstar.FibDecoder.Config.{
  TransportMode, stream_mode_audio, stream_mode_data, reserved, packet_mode_data, ServiceCompDef,
  PacketMode, ConfigurationInformation, by_sub_ch_id, by_sc_id, GlobalDef, FibConfig, reset_config,
  component_of, packet_mode_of, global_def_of, fec_organization_of,
}
use dabstar.FibDecoder.State.{
  FibDecoder, change_in_configuration, emit, restart_decoding, retrigger, config_of, sub_channels,
  with_sub_channels, is_some, store,
}

-- Bits of a service identifier.
abbrev pub s_id_bits : FigHeader → ℕ
s_id_bits fh = if fh.pd_flag == 1 then 32 else 16

-- _process_Fig0s0: the counter of the CIFs, and the change of the configuration.
unfoldable pub change_configuration : ℕ → FibDecoder → FibDecoder
unfolding emit reset_config
change_configuration change_flags s =
    if change_flags == 0 && s.prev_change_flag == 3
    then emit change_in_configuration (record s { curr = s.next; next = reset_config s.curr })
    else s

unfoldable pub process_fig0s0 : List Bool → FibDecoder → FibDecoder
unfolding change_configuration get_bits_2 get_bits_5 get_bits_8
process_fig0s0 d s =
    let hi = get_bits_5 d 35 in
    let lo = get_bits_8 d 40 in
    let change_flags = get_bits_2 d 32 in
    let t =
      change_configuration change_flags
        (record s { cif_count_hi = hi; cif_count_lo = lo; cif_count = hi * 250 + lo }) in
    record t { prev_change_flag = change_flags }

-- _subprocess_Fig0s1 on the whole decoder.
unfoldable pub process_organization : List Bool → ℕ → FigHeader → FibDecoder → ℕ × FibDecoder
unfolding subprocess_fig0s1 organization_of restart_decoding retrigger
process_organization d offset fh s =
    let (used, t) = subprocess_fig0s1 d offset fh (sub_channels s) in
    (
      used,
      if is_some
            (organization_of (get_config (sub_channels s) fh.cn_flag) (get_bits_6 d (offset * 8)))
          then s
          else (if t.restart then restart_decoding s else retrigger (with_sub_channels t s)),
    )

-- The union of a component, at bit `o`.
unfoldable pub read_mode : List Bool → ℕ → TransportMode
unfolding get_bits get_bits_2 get_bits_6
read_mode d o =
    let tm_id = get_bits_2 d o in
    if tm_id == 0
    then stream_mode_audio (get_bits_6 d (o + 2)) (get_bits_6 d (o + 8))
    else (if tm_id == 1
        then stream_mode_data (get_bits_6 d (o + 2)) (get_bits_6 d (o + 8))
        else (if tm_id == 3 then packet_mode_data (get_bits d (o + 2) 12) else reserved))

-- _subprocess_Fig0s2: the loop over the components, with those left.
unfoldable pub components_loop :
    ℕ → List Bool → ℕ → FigHeader → ℕ → ℕ → ℕ → FibDecoder → ℕ × FibDecoder
unfolding component_of read_mode store get_bits_1
components_loop zero d o fh s_id num_service_comp index s = (o, s)
components_loop (suc left) d o fh s_id num_service_comp index s =
    let e : ServiceCompDef = record {
      pd_flag = fh.pd_flag;
      s_id = s_id;
      num_service_comp = num_service_comp;
      service_comp_index = index;
      mode = read_mode d o;
      ps_flag = get_bits_1 d (o + 14);
      ca_flag = get_bits_1 d (o + 15);
    } in
    components_loop left d (o + 16) fh s_id num_service_comp (index + 1) (
      store (is_some (component_of (config_of s fh.cn_flag) s_id index)) fh.cn_flag
        (λ c. record c { components = c.components ++ (e ∷ []) }) s)

unfoldable pub process_service : List Bool → ℕ → FigHeader → FibDecoder → ℕ × FibDecoder
unfolding get_l_bits get_bits_4 components_loop
process_service d offset fh s =
    let o = 8 * offset + s_id_bits fh in
    let num_service_comp = get_bits_4 d (o + 4) in
    let (o', s') =
      components_loop num_service_comp d (o + 8) fh (get_l_bits d (8 * offset) (s_id_bits fh))
        num_service_comp 0 s in
    (o' / 8, s')

-- _subprocess_Fig0s3. CAOrg is read 40 bits behind the entry's end.
unfoldable pub read_packet_mode : List Bool → ℕ → PacketMode
unfolding get_bits get_bits_1 get_bits_6
read_packet_mode d o =
    let ca_org_flag = get_bits_1 d (o + 15) in
    record {
      sc_id = get_bits d o 12;
      ca_org_flag = ca_org_flag;
      dg_flag = get_bits_1 d (o + 16);
      dsc_ty = get_bits_6 d (o + 18);
      sub_ch_id = get_bits_6 d (o + 24);
      packet_address = get_bits d (o + 30) 10;
      ca_org = if ca_org_flag == 1 then some (get_bits d (o + 80) 16) else none;
    }

unfoldable pub process_packet_mode : List Bool → ℕ → FigHeader → FibDecoder → ℕ × FibDecoder
unfolding read_packet_mode packet_mode_of store
process_packet_mode d used fh s =
    let e = read_packet_mode d (used * 8) in
    let known = packet_mode_of (config_of s fh.cn_flag) e.sc_id in
    let ca_org_flag : ℕ = elim known [ some k ↦ k.ca_org_flag | none ↦ e.ca_org_flag ] in
    (
      (used * 8 + 40 + (if ca_org_flag == 0 then 0 else 16)) / 8,
      store (is_some known) fh.cn_flag (λ c. record c { packet_modes = c.packet_modes ++ (e ∷ []) })
          s,
    )

-- _process_Fig0s7
abbrev pub set_configuration : ConfigurationInformation → FibConfig → FibConfig
set_configuration e c = record c { configuration_information = some e }

unfoldable pub process_fig0s7 : List Bool → FibDecoder → FibDecoder
unfolding get_fig_header get_bits get_bits_6 store
process_fig0s7 d s =
    let cn_flag = (get_fig_header d).cn_flag in
    store (is_some (config_of s cn_flag).configuration_information) cn_flag
      (set_configuration (record { num_services = get_bits_6 d 16; count = get_bits d 22 10 })) s

-- _subprocess_Fig0s8, behind the service identifier at bit `o`.
unfoldable pub read_global_def : List Bool → ℕ → FigHeader → ℕ → GlobalDef
unfolding get_bits get_bits_1 get_bits_4 get_bits_6
read_global_def d s_id fh o = record {
  pd_flag = fh.pd_flag;
  s_id = s_id;
  ext_flag = get_bits_1 d o;
  sc_ids = get_bits_4 d (o + 4);
  component =
      if get_bits_1 d (o + 8) == 0
      then by_sub_ch_id (get_bits_6 d (o + 10))
      else by_sc_id (get_bits d (o + 12) 12);
}

unfoldable pub process_global_def : List Bool → ℕ → FigHeader → FibDecoder → ℕ × FibDecoder
unfolding get_l_bits get_bits_1 read_global_def global_def_of store
process_global_def d used fh s =
    let o = used * 8 + s_id_bits fh in
    let e = read_global_def d (get_l_bits d (used * 8) (s_id_bits fh)) fh o in
    let form_bits = if get_bits_1 d (o + 8) == 0 then 16 else 24 in
    (
      (o + form_bits + (if e.ext_flag == 0 then 0 else 8)) / 8,
      store (is_some (global_def_of (config_of s fh.cn_flag) e.s_id e.sc_ids)) fh.cn_flag
          (λ c. record c { global_defs = c.global_defs ++ (e ∷ []) }) s,
    )

-- _subprocess_Fig0s14
unfoldable pub process_fec : List Bool → ℕ → FigHeader → FibDecoder → ℕ × FibDecoder
unfolding get_bits_2 get_bits_6 fec_organization_of store
process_fec d used fh s =
    let sub_ch_id = get_bits_6 d (used * 8) in
    (
      used + 1,
      store (is_some (fec_organization_of (config_of s fh.cn_flag) sub_ch_id)) fh.cn_flag
          (λ c. record c {
            fec_organizations =
                c.fec_organizations
                ++ (record { sub_ch_id = sub_ch_id; fec_scheme = get_bits_2 d (used * 8 + 6) }
                    ∷ []);
          })
          s,
    )
