-- ===== src/FibDecoder/Services.antt =====
-- fib_decoder.cpp: what the FIB decoder tells of a service, from the collected tables. The data of
-- an `SAudioData` or `SPacketData` that stays undefined is `none`.
use dabstar.Prelude.{
  ℕ, zero, suc, ◌+◌, Bool, true, false, ◌&&◌, Option, none, some, List, [], ◌∷◌, ◌++◌, map, ◌==◌,
  leb, ltb, if◌then◌else◌, ◌>>=◌,
}
use dabstar.SubChannel.Fig01.{SubChannelOrganization, organization_of}
use dabstar.FibDecoder.Config.{
  TransportMode, stream_mode_audio, stream_mode_data, reserved, packet_mode_data, ServiceCompDef,
  PacketMode, has_sub_ch_id, is_packet, UserApp, FibConfig, component_of, audio_component_of,
  packet_mode_of, language_of_sub_ch_id, language_of_sc_id, global_def_with_sub_ch_id,
  global_def_with_sc_id, user_application_of, fec_organization_of, programme_type_of,
}
use dabstar.FibDecoder.Labels.{
  Label, FibLabels, programme_label_of, component_label_of, data_service_label_of,
}
use dabstar.FibDecoder.State.{FibDecoder, rank, is_some}

-- SAudioData
pub record AudioData : Type 0 where
  pub service_label : Option Label
  pub s_id : ℕ
  pub asc_ty : ℕ
  pub organization : SubChannelOrganization

-- _get_data_for_audio_service with a place for the data, by the union of the component.
unfoldable pub make_audio_data :
    FibDecoder → ServiceCompDef → ℕ → SubChannelOrganization → AudioData
unfolding programme_label_of
make_audio_data s e asc_ty o = record {
  service_label = programme_label_of s.labels e.s_id >>= λ l. some l.label;
  s_id = e.s_id;
  asc_ty = asc_ty;
  organization = o;
}

unfoldable pub audio_data_by_mode : FibDecoder → ServiceCompDef → TransportMode → Option AudioData
unfolding organization_of make_audio_data
audio_data_by_mode s e (stream_mode_audio asc_ty sub_ch_id) =
    organization_of s.curr.organizations sub_ch_id >>= λ o. some (make_audio_data s e asc_ty o)
audio_data_by_mode s e (stream_mode_data dsc_ty sub_ch_id) = none
audio_data_by_mode s e reserved = none
audio_data_by_mode s e (packet_mode_data sc_id) = none

unfoldable pub audio_data_of : FibDecoder → ServiceCompDef → Option AudioData
unfolding audio_data_by_mode
audio_data_of s e = if e.pd_flag == 0 then audio_data_by_mode s e e.mode else none

-- _get_data_for_audio_service with a null pointer: whether the data are complete.
unfoldable pub has_audio_data : FibDecoder → ServiceCompDef → Bool
unfolding audio_data_of
has_audio_data s e = elim (audio_data_of s e) [ none ↦ false | some a ↦ is_some a.service_label ]

-- get_data_for_audio_service
unfoldable pub get_data_for_audio_service : FibDecoder → ℕ → Option AudioData
unfolding audio_component_of audio_data_of
get_data_for_audio_service s s_id =
    if ltb (rank s.loading_state) 1
    then none
    else (audio_component_of s.curr s_id >>= λ e. audio_data_of s e)

-- get_data_for_audio_service_addon: the language and the programme type.
unfoldable pub get_data_for_audio_service_addon : FibDecoder → ℕ → Option (Option ℕ × Option ℕ)
unfolding audio_component_of language_of_sub_ch_id programme_type_of
get_data_for_audio_service_addon s s_id = audio_component_of s.curr s_id >>= λ e.
    if e.pd_flag == 0
    then elim e.mode [
      | stream_mode_audio asc_ty sub_ch_id ↦ some (
        (language_of_sub_ch_id s.curr sub_ch_id >>= λ l. some l.language),
        (programme_type_of s.curr e.s_id >>= λ p. some p.int_code),
      )
      | stream_mode_data dsc_ty sub_ch_id ↦ none
      | reserved ↦ none
      | packet_mode_data sc_id ↦ none
    ]
    else none

-- SXPadUserApp
pub record XPadUserApp : Type 0 where
  pub user_app_type : ℕ
  pub x_pad_app_ty : ℕ
  pub dsc_ty : ℕ
  pub data_groups_used : Bool

abbrev pub x_pad_apps : List UserApp → List XPadUserApp
x_pad_apps [] = []
x_pad_apps (u ∷ us) = elim u.x_pad_data [
  | none ↦ x_pad_apps us
  | some x ↦
      record {
        user_app_type = u.user_app_type;
        x_pad_app_ty = x.x_pad_app_ty;
        dsc_ty = x.dsc_ty;
        data_groups_used = x.dg_flag == 0;
      }
      ∷ x_pad_apps us
]

-- get_xpad_user_apps_of_audio_service. The search gives stream audio only.
abbrev audio_sc_ids : FibConfig → ℕ → ServiceCompDef → ℕ
unfolding global_def_with_sub_ch_id
audio_sc_ids c s_id e = elim (global_def_with_sub_ch_id c s_id) [
  | none ↦ 0
  | some g ↦ elim e.mode [
    | stream_mode_audio asc_ty sub_ch_id ↦
        if has_sub_ch_id g.component sub_ch_id then g.sc_ids else 0
    | stream_mode_data dsc_ty sub_ch_id ↦ 0
    | reserved ↦ 0
    | packet_mode_data sc_id ↦ 0
  ]
]

unfoldable pub get_xpad_user_apps : FibDecoder → ℕ → List XPadUserApp
unfolding audio_component_of user_application_of global_def_with_sub_ch_id
get_xpad_user_apps s s_id = elim (audio_component_of s.curr s_id) [
  | none ↦ []
  | some e ↦ elim (user_application_of s.curr s_id (audio_sc_ids s.curr s_id e)) [
    | none ↦ []
    | some u ↦ x_pad_apps u.user_apps
  ]
]

-- SPacketData
pub record PacketData : Type 0 where
  pub service_label : Label
  pub s_id : ℕ
  pub sc_ids : ℕ
  pub organization : SubChannelOrganization
  pub fec_scheme : ℕ
  pub packet_mode : PacketMode
  pub app_types : List ℕ
  pub language : Option ℕ

-- cNumServiceCompMax
abbrev pub num_service_comp_max : ℕ
num_service_comp_max = 12

-- The label of a secondary or a primary component.
unfoldable pub packet_label_of : FibLabels → ServiceCompDef → ℕ → Option Label
unfolding component_label_of data_service_label_of
packet_label_of l e sc_ids =
    if e.ps_flag == 0
    then (component_label_of l e.s_id sc_ids >>= λ k. some k.label)
    else (data_service_label_of l e.s_id >>= λ k. some k.label)

-- _get_data_for_packet_service of the component `sc_id`, behind the test of iCompIdx.
unfoldable pub packet_data_of : FibDecoder → ServiceCompDef → ℕ → Option PacketData
unfolding packet_mode_of organization_of global_def_with_sc_id user_application_of
    fec_organization_of language_of_sc_id packet_label_of
packet_data_of s e sc_id = packet_mode_of s.curr sc_id >>= λ p.
    organization_of s.curr.organizations p.sub_ch_id >>= λ o.
    global_def_with_sc_id s.curr e.s_id >>= λ g. user_application_of s.curr e.s_id g.sc_ids >>= λ u.
    elim u.user_apps [
      | [] ↦ none
      | a ∷ more ↦ packet_label_of s.labels e g.sc_ids >>= λ l. some (record {
        service_label = l;
        s_id = e.s_id;
        sc_ids = g.sc_ids;
        organization = o;
        fec_scheme = elim (fec_organization_of s.curr p.sub_ch_id) [
          | none ↦ 0
          | some f ↦ f.fec_scheme
        ];
        packet_mode = p;
        app_types = map (λ v. v.user_app_type) (a ∷ more);
        language = language_of_sc_id s.curr sc_id >>= λ k. some k.language;
      })
    ]

-- With the test. The source asserts packet mode.
unfoldable pub packet_data_at : FibDecoder → ServiceCompDef → ℕ → Option PacketData
unfolding packet_data_of
packet_data_at s e comp_idx = if leb num_service_comp_max comp_idx then none else elim e.mode [
  | stream_mode_audio asc_ty sub_ch_id ↦ none
  | stream_mode_data dsc_ty sub_ch_id ↦ none
  | reserved ↦ none
  | packet_mode_data sc_id ↦ packet_data_of s e sc_id
]

-- get_data_for_packet_service: the loop over compIdx, with the rounds left.
-- A round that does not break: the new numComp and the data that it adds.
unfoldable pub packet_round : FibDecoder → ℕ → ℕ → ℕ → ℕ × List PacketData
unfolding component_of packet_data_at
packet_round s s_id comp_idx num_comp = elim (component_of s.curr s_id comp_idx) [
  | none ↦ (num_comp, [])
  | some e ↦
      if is_packet e.mode
      then if ltb 0 num_comp && (if num_comp == e.num_service_comp then false else true)
        then (num_comp, [])
        else (if leb e.num_service_comp 0 then (0, []) else (
          e.num_service_comp,
          elim (packet_data_at s e comp_idx) [ none ↦ [] | some p ↦ p ∷ [] ],
        ))
      else (num_comp, [])
]

unfoldable pub packet_services_loop : ℕ → FibDecoder → ℕ → ℕ → ℕ → List PacketData
unfolding packet_round
packet_services_loop zero s s_id comp_idx num_comp = []
packet_services_loop (suc left) s s_id comp_idx num_comp =
    let (n, found) = packet_round s s_id comp_idx num_comp in
    let rest = packet_services_loop left s s_id (comp_idx + 1) n in
    if ltb 0 num_comp && leb num_comp comp_idx then [] else found ++ rest

unfoldable pub get_data_for_packet_service : FibDecoder → ℕ → List PacketData
unfolding packet_services_loop
get_data_for_packet_service s s_id =
    if ltb (rank s.loading_state) 4
    then []
    else packet_services_loop num_service_comp_max s s_id 0 0
