-- ===== src/FibDecoder/Config.antt =====
-- base/decoder/fib_config_fig0: what FIG 0 tells of the multiplex. The time stamps of an entry are
-- left out. A number that stays -1 in the source belongs to a form of the entry that does not read
-- it, and is part of another constructor here.
use dabstar.Prelude.{
  ℕ, ◌%◌, Bool, true, false, ◌&&◌, Option, none, List, [], ◌==◌, if◌then◌else◌, replicate,
}
use dabstar.SubChannel.Fig01.{SubChannelOrganization}
use dabstar.FibDecoder.Tables.{find_by}

-- SFig0s2_ServiceComponentDefinition: the union by TMId.
pub data TransportMode : Type 0 where
  stream_mode_audio : ℕ → ℕ → TransportMode
  stream_mode_data : ℕ → ℕ → TransportMode
  reserved : TransportMode
  packet_mode_data : ℕ → TransportMode

-- SFig0s2_BasicService_ServiceCompDef
pub record ServiceCompDef : Type 0 where
  pub pd_flag : ℕ
  pub s_id : ℕ
  pub num_service_comp : ℕ
  pub service_comp_index : ℕ
  pub mode : TransportMode
  pub ps_flag : ℕ
  pub ca_flag : ℕ

-- SFig0s3_ServiceComponentPacketMode
pub record PacketMode : Type 0 where
  pub sc_id : ℕ
  pub ca_org_flag : ℕ
  pub dg_flag : ℕ
  pub dsc_ty : ℕ
  pub sub_ch_id : ℕ
  pub packet_address : ℕ
  pub ca_org : Option ℕ

-- LS_Flag with the identifier that belongs to it.
pub data ComponentId : Type 0 where
  by_sub_ch_id : ℕ → ComponentId
  by_sc_id : ℕ → ComponentId

-- SFig0s5_ServiceComponentLanguage
pub record ComponentLanguage : Type 0 where
  pub component : ComponentId
  pub language : ℕ

-- SFig0s7_ConfigurationInformation
pub record ConfigurationInformation : Type 0 where
  pub num_services : ℕ
  pub count : ℕ

-- SFig0s8_ServiceCompGlobalDef
pub record GlobalDef : Type 0 where
  pub pd_flag : ℕ
  pub s_id : ℕ
  pub ext_flag : ℕ
  pub sc_ids : ℕ
  pub component : ComponentId

-- SFig0s9_CountryLtoInterTab. Ensemble_LTO is the sign bit and the half hours.
pub record CountryLto : Type 0 where
  pub ext_flag : ℕ
  pub lto_sign : Bool
  pub lto_half_hours : ℕ
  pub ensemble_ecc : ℕ
  pub inter_table_id : ℕ

-- SXPadData
pub record XPadData : Type 0 where
  pub ca_flag : ℕ
  pub ca_org_flag : ℕ
  pub x_pad_app_ty : ℕ
  pub dg_flag : ℕ
  pub dsc_ty : ℕ

-- SUserApp
pub record UserApp : Type 0 where
  pub user_app_type : ℕ
  pub user_app_data_length : ℕ
  pub x_pad_data : Option XPadData

-- SFig0s13_UserApplicationInformation. The first NumUserApps entries of UserAppVec.
pub record UserApplications : Type 0 where
  pub pd_flag : ℕ
  pub s_id : ℕ
  pub sc_ids : ℕ
  pub user_apps : List UserApp
  pub size_bits : ℕ

-- SFig0s14_SubChannelOrganization
pub record FecOrganization : Type 0 where
  pub sub_ch_id : ℕ
  pub fec_scheme : ℕ

-- SFig0s17_ProgrammeType
pub record ProgrammeType : Type 0 where
  pub s_id : ℕ
  pub sd_flag : ℕ
  pub int_code : ℕ

-- Cluster
pub record Cluster : Type 0 where
  pub flags : ℕ
  pub in_use : Bool
  pub announcing : ℕ
  pub cluster_id : ℕ
  pub services_sids : List ℕ

-- FibConfigFig0. The vectors of FIG 0/7 and FIG 0/9 have one entry at most.
pub record FibConfig : Type 0 where
  pub organizations : List SubChannelOrganization
  pub components : List ServiceCompDef
  pub packet_modes : List PacketMode
  pub languages : List ComponentLanguage
  pub configuration_information : Option ConfigurationInformation
  pub global_defs : List GlobalDef
  pub country_lto : Option CountryLto
  pub user_applications : List UserApplications
  pub fec_organizations : List FecOrganization
  pub programme_types : List ProgrammeType
  pub cluster_table : List Cluster

-- FibConfigFig0::reset. It has no line for mClusterTable.
unfoldable pub reset_config : FibConfig → FibConfig
reset_config c = record {
  organizations = [];
  components = [];
  packet_modes = [];
  languages = [];
  configuration_information = none;
  global_defs = [];
  country_lto = none;
  user_applications = [];
  fec_organizations = [];
  programme_types = [];
  cluster_table = c.cluster_table;
}

-- The tests of the loops, one for each get_Fig0sN_..._of_...
abbrev pub is_component : ℕ → ℕ → ServiceCompDef → Bool
is_component s_id index e = e.s_id == s_id && e.service_comp_index == index

abbrev pub is_audio : TransportMode → Bool
is_audio (stream_mode_audio a c) = true
is_audio (stream_mode_data a c) = false
is_audio reserved = false
is_audio (packet_mode_data i) = false

abbrev pub is_packet : TransportMode → Bool
is_packet (stream_mode_audio a c) = false
is_packet (stream_mode_data a c) = false
is_packet reserved = false
is_packet (packet_mode_data i) = true

abbrev pub is_audio_of : ℕ → ServiceCompDef → Bool
is_audio_of s_id e = e.s_id == s_id && is_audio e.mode

abbrev pub is_packet_mode : ℕ → PacketMode → Bool
is_packet_mode sc_id e = e.sc_id == sc_id

abbrev pub has_sub_ch_id : ComponentId → ℕ → Bool
has_sub_ch_id (by_sub_ch_id i) sub_ch_id = i == sub_ch_id
has_sub_ch_id (by_sc_id i) sub_ch_id = false

abbrev pub has_sc_id : ComponentId → ℕ → Bool
has_sc_id (by_sub_ch_id i) sc_id = false
has_sc_id (by_sc_id i) sc_id = i == sc_id

abbrev pub is_language_of_sub_ch_id : ℕ → ComponentLanguage → Bool
is_language_of_sub_ch_id sub_ch_id e = has_sub_ch_id e.component sub_ch_id

-- The parameter is a `u8`.
abbrev pub is_language_of_sc_id : ℕ → ComponentLanguage → Bool
is_language_of_sc_id sc_id e = has_sc_id e.component (sc_id % 256)

abbrev pub is_global_def : ℕ → ℕ → GlobalDef → Bool
is_global_def s_id sc_ids e = e.s_id == s_id && e.sc_ids == sc_ids

abbrev pub is_short_form : ComponentId → Bool
is_short_form (by_sub_ch_id i) = true
is_short_form (by_sc_id i) = false

abbrev pub is_user_application : ℕ → ℕ → UserApplications → Bool
is_user_application s_id sc_ids e = e.s_id == s_id && e.sc_ids == sc_ids

abbrev pub is_fec_organization : ℕ → FecOrganization → Bool
is_fec_organization sub_ch_id e = e.sub_ch_id == sub_ch_id

-- The parameter is a `u16`.
abbrev pub is_programme_type : ℕ → ProgrammeType → Bool
is_programme_type s_id e = e.s_id == s_id % 65536

-- The functions themselves, of a configuration.
unfoldable pub component_of : FibConfig → ℕ → ℕ → Option ServiceCompDef
unfolding find_by
component_of c s_id index = find_by (is_component s_id index) c.components

unfoldable pub audio_component_of : FibConfig → ℕ → Option ServiceCompDef
unfolding find_by
audio_component_of c s_id = find_by (is_audio_of s_id) c.components

unfoldable pub packet_mode_of : FibConfig → ℕ → Option PacketMode
unfolding find_by
packet_mode_of c sc_id = find_by (is_packet_mode sc_id) c.packet_modes

unfoldable pub language_of_sub_ch_id : FibConfig → ℕ → Option ComponentLanguage
unfolding find_by
language_of_sub_ch_id c sub_ch_id = find_by (is_language_of_sub_ch_id sub_ch_id) c.languages

unfoldable pub language_of_sc_id : FibConfig → ℕ → Option ComponentLanguage
unfolding find_by
language_of_sc_id c sc_id = find_by (is_language_of_sc_id sc_id) c.languages

unfoldable pub global_def_of : FibConfig → ℕ → ℕ → Option GlobalDef
unfolding find_by
global_def_of c s_id sc_ids = find_by (is_global_def s_id sc_ids) c.global_defs

unfoldable pub global_def_with_sub_ch_id : FibConfig → ℕ → Option GlobalDef
unfolding find_by
global_def_with_sub_ch_id c s_id =
    find_by (λ e. is_short_form e.component && e.s_id == s_id) c.global_defs

unfoldable pub global_def_with_sc_id : FibConfig → ℕ → Option GlobalDef
unfolding find_by
global_def_with_sc_id c s_id =
    find_by (λ e. (if is_short_form e.component then false else true) && e.s_id == s_id)
      c.global_defs

unfoldable pub user_application_of : FibConfig → ℕ → ℕ → Option UserApplications
unfolding find_by
user_application_of c s_id sc_ids = find_by (is_user_application s_id sc_ids) c.user_applications

unfoldable pub fec_organization_of : FibConfig → ℕ → Option FecOrganization
unfolding find_by
fec_organization_of c sub_ch_id = find_by (is_fec_organization sub_ch_id) c.fec_organizations

unfoldable pub programme_type_of : FibConfig → ℕ → Option ProgrammeType
unfolding find_by
programme_type_of c s_id = find_by (is_programme_type s_id) c.programme_types

-- A configuration as the constructor makes it, with the 64 of its 128 clusters that the loops reach.
abbrev pub empty_cluster : Cluster
empty_cluster = record {
  flags = 0;
  in_use = false;
  announcing = 0;
  cluster_id = 0;
  services_sids = [];
}

abbrev pub empty_config : FibConfig
empty_config = record {
  organizations = [];
  components = [];
  packet_modes = [];
  languages = [];
  configuration_information = none;
  global_defs = [];
  country_lto = none;
  user_applications = [];
  fec_organizations = [];
  programme_types = [];
  cluster_table = replicate 64 empty_cluster;
}
