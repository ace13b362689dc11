-- ===== src/FibDecoder/Sound/Mci.antt =====
-- The handlers of the multiplex configuration keep the configurations sound.
use dabstar.Prelude.{
  ℕ, zero, suc, ◌+◌, ◌*◌, ◌≡◌, refl, Bool, false, Option, none, some, List, ◌&&◌, ◌==◌, if_elim,
  arith,
}
use dabstar.Bits.{get_bits, get_l_bits, get_bits_2, get_bits_4, get_bits_5, get_bits_6, get_bits_8}
use dabstar.SubChannel.Fig01.{
  SubChannelOrganization, FibState, FigHeader, get_fig_header, get_config, organization_of,
  subprocess_fig0s1,
}
use dabstar.SubChannel.Fig01.Disjoint.{IsConfig, IsValid, subprocess_fig0s1-IsValid}
use dabstar.FibDecoder.Tables.{Distinct-append}
use dabstar.FibDecoder.Config.{
  FibConfig, component_of, packet_mode_of, global_def_of, fec_organization_of,
}
use dabstar.FibDecoder.State.{
  FibDecoder, change_in_configuration, restart_decoding, reset_decoder, config_of, sub_channels,
  with_sub_channels, is_some,
}
use dabstar.FibDecoder.Multiplex.{
  s_id_bits, set_configuration, change_configuration, process_fig0s0, process_organization,
  components_loop, process_service, process_packet_mode, process_fig0s7, process_global_def,
  process_fec,
}
use dabstar.FibDecoder.Sound.{
  IsSoundConfig, sound, IsSound, reset_config-IsSoundConfig, emit-Both, retrigger-Both, store-Both,
  same_component, same_packet_mode, same_global_def, same_fec,
}
use dabstar.FibDecoder.Process.Induction.{KeptByHandler, KeptByFig}

pub unfound {ℓ} : {A : Type ℓ} (o : Option A) → is_some o ≡ false → o ≡ none
unfound none h = refl
unfound (some a) h = ground arith

change_configuration-IsSound :
    (n : ℕ) (s : FibDecoder) → IsSound s → IsSound (change_configuration n s)
unfolding change_configuration
change_configuration-IsSound n s b =
    if_elim IsSound (n == 0 && s.prev_change_flag == 3)
      (λ change.
        emit-Both IsSoundConfig change_in_configuration _
          (record { of_curr = b.of_next; of_next = reset_config-IsSoundConfig s.curr }))
      (λ same. b)

pub process_fig0s0-IsSound : KeptByFig IsSound process_fig0s0
unfolding process_fig0s0
process_fig0s0-IsSound d s r b =
    let c =
      change_configuration-IsSound (get_bits_2 d 32)
        (record s {
          cif_count_hi = get_bits_5 d 35;
          cif_count_lo = get_bits_8 d 40;
          cif_count = get_bits_5 d 35 * 250 + get_bits_8 d 40;
        })
        (record { of_curr = b.of_curr; of_next = b.of_next }) in
    record { of_curr = c.of_curr; of_next = c.of_next }

pub restart_decoding-IsSound : (s : FibDecoder) → IsSound (restart_decoding s)
unfolding restart_decoding reset_decoder
restart_decoding-IsSound s = record {
  of_curr = reset_config-IsSoundConfig s.curr;
  of_next = reset_config-IsSoundConfig s.next;
}

with_organizations-IsSoundConfig :
    (c : FibConfig) (es : List SubChannelOrganization)
    → IsSoundConfig c
    → IsConfig es
    → IsSoundConfig (record c { organizations = es })
with_organizations-IsSoundConfig c es q v =
    sound v q.components q.packet_modes q.languages q.global_defs q.user_applications
      q.fec_organizations q.programme_types

with_sub_channels-IsSound :
    (t : FibState) (s : FibDecoder) → IsSound s → IsValid t → IsSound (with_sub_channels t s)
with_sub_channels-IsSound t s b v = record {
  of_curr = with_organizations-IsSoundConfig s.curr t.curr b.of_curr v.curr_config;
  of_next = with_organizations-IsSoundConfig s.next t.next b.of_next v.next_config;
}

pub process_organization-IsSound : KeptByHandler IsSound process_organization
unfolding process_organization
process_organization-IsSound d offset fh s r b =
    let valid : IsValid (sub_channels s) = record {
      curr_config = b.of_curr.organizations;
      next_config = b.of_next.organizations;
    } in
    let t = subprocess_fig0s1 d offset fh (sub_channels s) in
    let v = subprocess_fig0s1-IsValid d offset fh (sub_channels s) valid in
    if_elim IsSound
      (is_some
        (organization_of (get_config (sub_channels s) fh.cn_flag) (get_bits_6 d (offset * 8))))
      (λ known. b)
      (λ new.
        if_elim IsSound t.1.restart (λ stop. restart_decoding-IsSound s)
          (λ on. retrigger-Both IsSoundConfig _ (with_sub_channels-IsSound t.1 s b v)))

components_loop-IsSound :
    (left : ℕ) (d : List Bool) (o : ℕ) (fh : FigHeader) (s_id n index : ℕ) (s : FibDecoder)
    → IsSound s
    → IsSound (components_loop left d o fh s_id n index s).1
unfolding components_loop
components_loop-IsSound zero d o fh s_id n index s b = b
components_loop-IsSound (suc left) d o fh s_id n index s b =
    components_loop-IsSound left d (o + 16) fh s_id n (index + 1) _ (
      store-Both IsSoundConfig _ fh.cn_flag _ s
        (λ new q.
          sound q.organizations
            (Distinct-append same_component _ _ (unfold component_of in unfound _ new) q.components)
            q.packet_modes q.languages q.global_defs q.user_applications q.fec_organizations
            q.programme_types)
        b)

pub process_service-IsSound : KeptByHandler IsSound process_service
unfolding process_service
process_service-IsSound d offset fh s r b =
    let o = 8 * offset + s_id_bits fh in
    components_loop-IsSound (get_bits_4 d (o + 4)) d (o + 8) fh
      (get_l_bits d (8 * offset) (s_id_bits fh)) (get_bits_4 d (o + 4)) 0 s b

pub process_packet_mode-IsSound : KeptByHandler IsSound process_packet_mode
unfolding process_packet_mode packet_mode_of
process_packet_mode-IsSound d used fh s r b =
    store-Both IsSoundConfig _ fh.cn_flag _ s
      (λ new q.
        sound q.organizations q.components
          (Distinct-append same_packet_mode _ _ (unfound _ new) q.packet_modes) q.languages
          q.global_defs q.user_applications q.fec_organizations q.programme_types)
      b

pub process_fig0s7-IsSound : KeptByFig IsSound process_fig0s7
unfolding process_fig0s7
process_fig0s7-IsSound d s r b =
    let cn_flag = (get_fig_header d).cn_flag in
    store-Both IsSoundConfig (is_some (config_of s cn_flag).configuration_information) cn_flag
      (set_configuration (record { num_services = get_bits_6 d 16; count = get_bits d 22 10 })) s
      (λ new q.
        sound q.organizations q.components q.packet_modes q.languages q.global_defs
          q.user_applications q.fec_organizations q.programme_types)
      b

pub process_global_def-IsSound : KeptByHandler IsSound process_global_def
unfolding process_global_def global_def_of
process_global_def-IsSound d used fh s r b =
    store-Both IsSoundConfig _ fh.cn_flag _ s
      (λ new q.
        sound q.organizations q.components q.packet_modes q.languages
          (Distinct-append same_global_def _ _ (unfound _ new) q.global_defs) q.user_applications
          q.fec_organizations q.programme_types)
      b

pub process_fec-IsSound : KeptByHandler IsSound process_fec
unfolding process_fec fec_organization_of
process_fec-IsSound d used fh s r b =
    store-Both IsSoundConfig _ fh.cn_flag _ s
      (λ new q.
        sound q.organizations q.components q.packet_modes q.languages q.global_defs
          q.user_applications (Distinct-append same_fec _ _ (unfound _ new) q.fec_organizations)
          q.programme_types)
      b
