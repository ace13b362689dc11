-- ===== src/FibDecoder/Session/Packets.antt =====
-- What the data of a component in packet mode are taken from: entries of the collected tables that
-- name each other by their keys, without the look-up functions.
use mathlib.Core.Path.{subst}
use mathlib.Core.Option.{some-injective}
use dabstar.Prelude.{
  ℕ, ◌<◌, ◌≡◌, ◌≢◌, ◌⊎◌, refl, sym, ap, ◌∙◌, inl, inr, Bool, true, false, Bool-cases, Option-cases,
  none, some, List, [], ◌∷◌, ◌==◌, ◌&&◌, leb, arith, if◌then◌else◌,
}
use dabstar.SubChannel.Fig01.{SubChannelOrganization, organization_of}
use dabstar.FibDecoder.Tables.{IsAmong, find_by_holds, find_by-IsAmong}
use dabstar.FibDecoder.Config.{
  TransportMode, stream_mode_audio, stream_mode_data, reserved, packet_mode_data, ServiceCompDef,
  PacketMode, ComponentId, by_sub_ch_id, by_sc_id, GlobalDef, UserApplications, UserApp,
  packet_mode_of, global_def_with_sc_id, user_application_of, is_packet_mode, is_user_application,
  is_short_form,
}
use dabstar.FibDecoder.Labels.{
  Label, ComponentLabel, FibLabels, component_label_of, data_service_label_of, is_service,
  is_component_label,
}
use dabstar.FibDecoder.State.{FibDecoder, is_some}
use dabstar.FibDecoder.Services.{
  PacketData, packet_label_of, packet_data_of, packet_data_at, num_service_comp_max,
}
use dabstar.FibDecoder.Session.Data.{
  bind-some, same_number, same_pair, organization_of-IsAmong, IsLabelled, service_label-IsLabelled,
}

-- FIG 1/4 or, for a primary component, FIG 1/5 gave this label.
abbrev pub IsPacketLabel : FibLabels → ServiceCompDef → ℕ → Label → Type 0
IsPacketLabel ls e sc_ids l =
    ((e.ps_flag ≡ 0)
      × ((k : ComponentLabel) × IsAmong k ls.component_labels
          × (k.s_id ≡ e.s_id)
          × (k.sc_ids ≡ sc_ids)
          × (k.label ≡ l)))
    ⊎ ((e.ps_flag ≢ 0) × IsLabelled ls.data_services e.s_id l)

-- Everything that a component in packet mode needs is collected: its packet address of FIG 0/3, the
-- sub-channel that this names, its identifier of FIG 0/8, one user application at least of FIG 0/13,
-- and its label.
pub record HasPacketParts (s : FibDecoder) (e : ServiceCompDef) : Type 0 where
  pub packet_mode : PacketMode
  pub organization : SubChannelOrganization
  pub global_def : GlobalDef
  pub sc_id : ℕ
  pub user_applications : UserApplications
  pub label : Label
  pub names : e.mode ≡ packet_mode_data packet_mode.sc_id
  pub addressed : IsAmong packet_mode s.curr.packet_modes
  pub carried : organization.sub_ch_id ≡ packet_mode.sub_ch_id
  pub collected : IsAmong organization s.curr.organizations
  pub identified : IsAmong global_def s.curr.global_defs
  pub same_service : global_def.s_id ≡ e.s_id
  pub in_long_form : global_def.component ≡ by_sc_id sc_id
  pub used : IsAmong user_applications s.curr.user_applications
  pub same_user : (user_applications.s_id ≡ e.s_id) × (user_applications.sc_ids ≡ global_def.sc_ids)
  pub some_application : user_applications.user_apps ≢ []
  pub labelled : IsPacketLabel s.labels e global_def.sc_ids label

packet_label_of-IsPacketLabel :
    (ls : FibLabels) (e : ServiceCompDef) (sc_ids : ℕ) (l : Label)
    → packet_label_of ls e sc_ids ≡ some l
    → IsPacketLabel ls e sc_ids l
unfolding packet_label_of component_label_of data_service_label_of
packet_label_of-IsPacketLabel ls e sc_ids l h = elim (Bool-cases (e.ps_flag == 0)) [
  | inl secondary ↦
      let (k, (known, same)) =
        bind-some (component_label_of ls e.s_id sc_ids) (λ k. some k.label) l (rw secondary at h) in
      let key =
        same_pair k.s_id e.s_id k.sc_ids sc_ids
          (find_by_holds (is_component_label e.s_id sc_ids) ls.component_labels k known) in
      inl (
        same_number e.ps_flag 0 secondary,
        (
          k,
          find_by-IsAmong (is_component_label e.s_id sc_ids) ls.component_labels k known,
          key.0,
          key.1,
          some-injective _ _ same,
        ),
      )
  | inr primary ↦
      let (k, (known, same)) =
        bind-some (data_service_label_of ls e.s_id) (λ k. some k.label) l (rw primary at h) in
      inr (
        (λ z. ground (arith, primary, z)),
        subst (IsLabelled ls.data_services e.s_id) (some-injective _ _ same) (
            service_label-IsLabelled ls.data_services e.s_id k
              (find_by-IsAmong (is_service e.s_id) ls.data_services k known)
              (find_by_holds (is_service e.s_id) ls.data_services k known)),
      )
]

long_form_of :
    (c : ComponentId) (b : Bool)
    → ((if is_short_form c then false else true) && b) ≡ true
    → (i : ℕ) × (c ≡ by_sc_id i) × (b ≡ true)
long_form_of (by_sub_ch_id i) b h = ground arith
long_form_of (by_sc_id i) b h = (i, refl, h)

list_cases :
    (us : List UserApp) → (us ≡ []) ⊎ ((a : UserApp) × (more : List UserApp) × (us ≡ a ∷ more))
list_cases [] = inl refl
list_cases (a ∷ more) = inr (a, more, refl)

packet_data_of-HasPacketParts :
    (s : FibDecoder) (e : ServiceCompDef) (i : ℕ) (d : PacketData)
    → e.mode ≡ packet_mode_data i
    → packet_data_of s e i ≡ some d
    → HasPacketParts s e
unfolding packet_data_of packet_mode_of global_def_with_sc_id user_application_of
packet_data_of-HasPacketParts s e i d mode h =
    let (p, (found_p, h1)) = bind-some (packet_mode_of s.curr i) _ d h in
    let (o, (found_o, h2)) = bind-some (organization_of s.curr.organizations p.sub_ch_id) _ d h1 in
    let (g, (found_g, h3)) = bind-some (global_def_with_sc_id s.curr e.s_id) _ d h2 in
    let (u, (found_u, h4)) = bind-some (user_application_of s.curr e.s_id g.sc_ids) _ d h3 in
    let long =
      λ (x : GlobalDef). (if is_short_form x.component then false else true) && x.s_id == e.s_id in
    let (sc_id, long_form, of_service) =
      long_form_of g.component (g.s_id == e.s_id)
        (find_by_holds long s.curr.global_defs g found_g) in
    let user = is_user_application e.s_id g.sc_ids in
    let (in_table, carried) = organization_of-IsAmong s.curr.organizations p.sub_ch_id o found_o in
    elim (list_cases u.user_apps) [
      | inl nothing ↦ absurd (ground (arith, (rw nothing at h4)))
      | inr (a, more, apps) ↦
          let (l, (labelled, _)) =
            bind-some (packet_label_of s.labels e g.sc_ids) _ d (rw apps at h4) in
          record {
            packet_mode = p;
            organization = o;
            global_def = g;
            sc_id = sc_id;
            user_applications = u;
            label = l;
            names =
                mode
                ∙ ap packet_mode_data (
                    sym (
                      same_number p.sc_id i
                        (find_by_holds (is_packet_mode i) s.curr.packet_modes p found_p)));
            addressed = find_by-IsAmong (is_packet_mode i) s.curr.packet_modes p found_p;
            carried = carried;
            collected = in_table;
            identified = find_by-IsAmong long s.curr.global_defs g found_g;
            same_service = same_number g.s_id e.s_id of_service;
            in_long_form = long_form;
            used = find_by-IsAmong user s.curr.user_applications u found_u;
            same_user =
                same_pair u.s_id e.s_id u.sc_ids g.sc_ids
                  (find_by_holds user s.curr.user_applications u found_u);
            some_application = λ nothing. ground (arith, sym apps ∙ nothing);
            labelled = packet_label_of-IsPacketLabel s.labels e g.sc_ids l labelled;
          }
    ]

pub packet_data_at-HasPacketParts :
    (s : FibDecoder) (e : ServiceCompDef) (i : ℕ)
    → is_some (packet_data_at s e i) ≡ true
    → HasPacketParts s e × (i < 12)
unfolding packet_data_at
packet_data_at-HasPacketParts s e i h = elim (Bool-cases (leb num_service_comp_max i)) [
  | inl beyond ↦ absurd (ground arith)
  | inr inside ↦ (by_mode e.mode refl (rw (inside, packet_data_at) at h), ground (arith, inside))
]
  where
    by_mode :
        (m : TransportMode)
        → e.mode ≡ m
        → is_some (elim m [
          | stream_mode_audio asc_ty sub_ch_id ↦ none
          | stream_mode_data dsc_ty sub_ch_id ↦ none
          | reserved ↦ none
          | packet_mode_data sc_id ↦ packet_data_of s e sc_id
        ])
          ≡ true
        → HasPacketParts s e
    by_mode (stream_mode_audio a c) mode h = ground arith
    by_mode (stream_mode_data a c) mode h = ground arith
    by_mode reserved mode h = ground arith
    by_mode (packet_mode_data c) mode h = elim (Option-cases (packet_data_of s e c)) [
      | inl nothing ↦ absurd (ground arith)
      | inr (d, given) ↦ packet_data_of-HasPacketParts s e c d mode given
    ]
