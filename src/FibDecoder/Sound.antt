-- ===== src/FibDecoder/Sound.antt =====
-- What holds of the two configurations between two FIBs, and how `store` keeps it.
pub mod Mci
pub mod Info
pub mod Announce
pub mod Fibs
use dabstar.Prelude.{
  ℕ, ◌≤◌, ◌≡◌, refl, Bool, true, false, Bool-cases, inl, inr, List, ◌==◌, leb, if◌then◌else◌,
  if_elim, All,
}
use dabstar.SubChannel.Fig01.{SubChannelOrganization}
use dabstar.SubChannel.Fig01.Disjoint.{IsConfig}
use dabstar.FibDecoder.Tables.{Distinct}
use dabstar.FibDecoder.Config.{
  ServiceCompDef, PacketMode, ComponentLanguage, by_sub_ch_id, by_sc_id, GlobalDef, FecOrganization,
  ProgrammeType, FibConfig, is_component, is_packet_mode, is_language_of_sub_ch_id, is_global_def,
  is_fec_organization, reset_config,
}
use dabstar.FibDecoder.State.{
  FibDecoder, Signal, rank, emit, retrigger, config_of, with_config, store,
}

-- Entries with one key: the second is never added.
abbrev pub same_component : ServiceCompDef → ServiceCompDef → Bool
same_component e = is_component e.s_id e.service_comp_index

abbrev pub same_packet_mode : PacketMode → PacketMode → Bool
same_packet_mode e = is_packet_mode e.sc_id

abbrev pub same_short_language : ComponentLanguage → ComponentLanguage → Bool
same_short_language e f = elim e.component [
  | by_sub_ch_id i ↦ is_language_of_sub_ch_id i f
  | by_sc_id i ↦ false
]

abbrev pub same_global_def : GlobalDef → GlobalDef → Bool
same_global_def e = is_global_def e.s_id e.sc_ids

abbrev pub same_fec : FecOrganization → FecOrganization → Bool
same_fec e = is_fec_organization e.sub_ch_id

abbrev pub same_programme_type : ProgrammeType → ProgrammeType → Bool
same_programme_type e f = f.s_id == e.s_id

-- The sub-channels are those of a multiplex, no key stands twice in a table, and what a user
-- application says of its size takes at least a byte.
pub record IsSoundConfig (c : FibConfig) : Type 0 where
  pub organizations : IsConfig c.organizations
  pub components : Distinct same_component c.components
  pub packet_modes : Distinct same_packet_mode c.packet_modes
  pub languages : Distinct same_short_language c.languages
  pub global_defs : Distinct same_global_def c.global_defs
  pub user_applications : All (λ u. 8 ≤ u.size_bits) c.user_applications
  pub fec_organizations : Distinct same_fec c.fec_organizations
  pub programme_types : Distinct same_programme_type c.programme_types

pub sound :
    {c : FibConfig}
    → IsConfig c.organizations
    → Distinct same_component c.components
    → Distinct same_packet_mode c.packet_modes
    → Distinct same_short_language c.languages
    → Distinct same_global_def c.global_defs
    → All (λ u. 8 ≤ u.size_bits) c.user_applications
    → Distinct same_fec c.fec_organizations
    → Distinct same_programme_type c.programme_types
    → IsSoundConfig c
sound o c p l g u f t = record {
  organizations = o;
  components = c;
  packet_modes = p;
  languages = l;
  global_defs = g;
  user_applications = u;
  fec_organizations = f;
  programme_types = t;
}

pub reset_config-IsSoundConfig : (c : FibConfig) → IsSoundConfig (reset_config c)
unfolding reset_config
reset_config-IsSoundConfig c = sound (record { separate = tt; fitting = tt }) tt tt tt tt tt tt tt

module _ {ℓ} (Q : FibConfig → Type ℓ) where
  -- Of both configurations.
  pub record Both (s : FibDecoder) : Type ℓ where
    pub of_curr : Q s.curr
    pub of_next : Q s.next

  pub config_of-Both : (s : FibDecoder) (cn : ℕ) → Both s → Q (config_of s cn)
  config_of-Both s cn b = if_elim Q (cn == 0) (λ z. b.of_curr) (λ n. b.of_next)

  pub with_config-Both :
      (s : FibDecoder) (cn : ℕ) (c : FibConfig) → Both s → Q c → Both (with_config cn c s)
  with_config-Both s cn c b q =
      if_elim Both (cn == 0) (λ z. record { of_curr = q; of_next = b.of_next })
        (λ n. record { of_curr = b.of_curr; of_next = q })

  pub emit-Both : (g : Signal) (s : FibDecoder) → Both s → Both (emit g s)
  unfolding emit
  emit-Both g s b = record { of_curr = b.of_curr; of_next = b.of_next }

  pub retrigger-Both : (s : FibDecoder) → Both s → Both (retrigger s)
  unfolding retrigger emit
  retrigger-Both s b =
      if_elim Both (leb 4 (rank s.loading_state))
        (λ loaded. record { of_curr = b.of_curr; of_next = b.of_next })
        (λ waiting. record { of_curr = b.of_curr; of_next = b.of_next })

  -- An entry that is new has to suit the configuration that takes it.
  pub store-Both :
      (known : Bool) (cn : ℕ) (add : FibConfig → FibConfig) (s : FibDecoder)
      → (known ≡ false → Q (config_of s cn) → Q (add (config_of s cn)))
      → Both s
      → Both (store known cn add s)
  unfolding store
  store-Both true cn add s suits b = b
  store-Both false cn add s suits b =
      retrigger-Both _ (with_config-Both s cn _ b (suits refl (config_of-Both s cn b)))

abbrev pub IsSound : FibDecoder → Type 0
IsSound = Both IsSoundConfig
