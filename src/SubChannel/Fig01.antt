-- ===== src/SubChannel/Fig01.antt =====
-- base/decoder/fib_decoder_fig0.cpp: FIG 0/1, the organization of the sub-channels, as the loop of
-- `_process_fig0_loop` reads it into the current or the next configuration.
pub mod Disjoint
pub mod Capacity
pub mod Fuel
use dabstar.Prelude.{
  ℕ, zero, suc, ◌+◌, ◌-◌, ◌*◌, ◌/◌, Bool, true, false, List, [], ◌∷◌, ◌++◌, Option, none, some,
  ◌==◌, leb, ltb, not, ◌&&◌, if◌then◌else◌, get_or,
}
use dabstar.Bits.{get_bits, get_bits_1, get_bits_2, get_bits_3, get_bits_5, get_bits_6}
use dabstar.SubChannel.Tables.{ProtLevel, level, prot_level_table, long_form}

-- SFig0s1_BasicSubChannelOrganization, without its time stamps. A bit rate that stays -1 is `none`.
pub record SubChannelOrganization : Type 0 where
  pub sub_ch_id : ℕ
  pub start_addr : ℕ
  pub short_form : Bool
  pub sub_channel_size : ℕ
  pub protection_level : ℕ
  pub bit_rate : Option ℕ

-- mpFibConfigFig0Curr and mpFibConfigFig0Next, of each only the sub-channels, and
-- mRestartFibDecoding.
pub record FibState : Type 0 where
  pub curr : List SubChannelOrganization
  pub next : List SubChannelOrganization
  pub restart : Bool

-- SFigHeader
pub record FigHeader : Type 0 where
  pub fig_length : ℕ
  pub cn_flag : ℕ
  pub oe_flag : ℕ
  pub pd_flag : ℕ

-- _get_fig_header
unfoldable pub get_fig_header : List Bool → FigHeader
get_fig_header d = record {
  fig_length = get_bits_5 d 3;
  cn_flag = get_bits_1 d 8;
  oe_flag = get_bits_1 d 9;
  pd_flag = get_bits_1 d 10;
}

-- cNumCuPerCif
abbrev pub num_cu_per_cif : ℕ
num_cu_per_cif = 864

-- _find_colliding_Fig0s1; a start address here is never negative.
unfoldable pub has_colliding : List SubChannelOrganization → SubChannelOrganization → Bool
has_colliding [] cand = false
has_colliding (e ∷ es) cand =
    if leb e.sub_channel_size 0
    then has_colliding es cand
    else (if ltb cand.start_addr (e.start_addr + e.sub_channel_size)
          && ltb e.start_addr (cand.start_addr + cand.sub_channel_size)
        then true
        else has_colliding es cand)

-- get_Fig0s1_BasicSubChannelOrganization_of_SubChId
unfoldable pub organization_of : List SubChannelOrganization → ℕ → Option SubChannelOrganization
organization_of [] sub_ch_id = none
organization_of (e ∷ es) sub_ch_id =
    if e.sub_ch_id == sub_ch_id then some e else organization_of es sub_ch_id

-- The short form at bit `o`: an entry of cProtLevelTable, whatever the table switch says.
unfoldable pub read_short_form : List Bool → ℕ → SubChannelOrganization
read_short_form d o =
    let entry = get_or prot_level_table (get_bits_6 d (o + 18)) (level 0 0 0) in
    record {
      sub_ch_id = get_bits_6 d o;
      start_addr = get_bits d (o + 6) 10;
      short_form = true;
      sub_channel_size = entry.cu_size;
      protection_level = entry.prot_level;
      bit_rate = some entry.bit_rate;
    }

-- The long form at bit `o`.
unfoldable pub read_long_form : List Bool → ℕ → SubChannelOrganization
read_long_form d o =
    let prot_level = get_bits_2 d (o + 20) in
    let size = get_bits d (o + 22) 10 in
    let t = long_form (get_bits_3 d (o + 17)) prot_level size in
    record {
      sub_ch_id = get_bits_6 d o;
      start_addr = get_bits d (o + 6) 10;
      short_form = false;
      sub_channel_size = size;
      protection_level = elim t [ none ↦ prot_level | some e ↦ e.prot_level ];
      bit_rate = elim t [ none ↦ none | some e ↦ some e.bit_rate ];
    }

-- ShortForm is the bit 0.
unfoldable pub read_organization : List Bool → ℕ → SubChannelOrganization
read_organization d o =
    if get_bits_1 d (o + 16) == 0 then read_short_form d o else read_long_form d o

-- _get_config_ptr, and the state with that configuration changed.
abbrev pub get_config : FibState → ℕ → List SubChannelOrganization
get_config s cn_flag = if cn_flag == 0 then s.curr else s.next

abbrev pub set_config : FibState → ℕ → List SubChannelOrganization → FibState
set_config s cn_flag c = if cn_flag == 0 then record s { curr = c } else record s { next = c }

-- _restart_fib_decoding: both configurations are emptied.
abbrev pub restart_fib_decoding : FibState → FibState
restart_fib_decoding s = record { curr = []; next = []; restart = true }

-- A sub-channel that is not known yet: stored, unless it does not fit.
unfoldable pub store_organization : FibState → ℕ → SubChannelOrganization → FibState
store_organization s cn_flag e =
    if ltb num_cu_per_cif (e.start_addr + e.sub_channel_size)
    then restart_fib_decoding s
    else (if has_colliding (get_config s cn_flag) e
        then restart_fib_decoding s
        else set_config s cn_flag (get_config s cn_flag ++ (e ∷ [])))

abbrev pub form_bits : Bool → ℕ
form_bits short_form = if short_form then 24 else 32

-- _subprocess_Fig0s1: the next offset in bytes, and the state.
unfoldable pub subprocess_fig0s1 : List Bool → ℕ → FigHeader → FibState → ℕ × FibState
subprocess_fig0s1 d offset fh s =
    elim (organization_of (get_config s fh.cn_flag) (get_bits_6 d (offset * 8))) [
      | none ↦
          let e = read_organization d (offset * 8) in
          ((offset * 8 + form_bits e.short_form) / 8, store_organization s fh.cn_flag e)
      | some e ↦ ((offset * 8 + form_bits e.short_form) / 8, s)
    ]

-- _process_fig0_loop over FIG 0/1. A round takes at least 3 bytes, so that the fuel, one more than
-- the FIG's length, is not used up.
unfoldable pub fig0s1_loop : ℕ → List Bool → ℕ → FigHeader → FibState → FibState
fig0s1_loop zero d used fh s = s
fig0s1_loop (suc fuel) d used fh s =
    let (used', s') = subprocess_fig0s1 d used fh s in
    let rest = fig0s1_loop fuel d used' fh s' in
    if leb used fh.fig_length then (if s'.restart then s' else rest) else s

unfoldable pub process_fig0s1 : List Bool → FibState → FibState
unfolding get_fig_header fig0s1_loop
process_fig0s1 d s = let fh = get_fig_header d in fig0s1_loop (suc fh.fig_length) d 2 fh s
