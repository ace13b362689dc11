-- ===== src/FibDecoder/Labels.antt =====
-- base/decoder/fib_config_fig1 and `_extract_character_set_label` of fib_decoder.cpp. Names stay the
-- bytes that were received, with their character set, and the map from names to services is left out.
use dabstar.Prelude.{
  ℕ, zero, suc, ◌+◌, ◌*◌, Bool, ◌&&◌, ◌||◌, Option, none, some, List, [], ◌∷◌, ◌==◌, if◌then◌else◌,
}
use dabstar.Bits.{get_bits, get_bits_4, get_bits_8}
use dabstar.FibDecoder.Tables.{find_by}

-- SFig1_DataField
pub record Label : Type 0 where
  pub charset : ℕ
  pub characters : List ℕ
  pub char_flag_field : ℕ

-- SFig1s0_EnsembleLabel
pub record EnsembleLabel : Type 0 where
  pub e_id : ℕ
  pub label : Label

-- SFig1s1_ProgrammeServiceLabel, SFig1s5_DataServiceLabel
pub record ServiceLabel : Type 0 where
  pub s_id : ℕ
  pub label : Label

-- SFig1s4_ServiceComponentLabel
pub record ComponentLabel : Type 0 where
  pub pd_flag : ℕ
  pub sc_ids : ℕ
  pub s_id : ℕ
  pub label : Label

-- FibConfigFig1
pub record FibLabels : Type 0 where
  pub ensemble : Option EnsembleLabel
  pub programmes : List ServiceLabel
  pub component_labels : List ComponentLabel
  pub data_services : List ServiceLabel

-- FibConfigFig1::reset
abbrev pub empty_labels : FibLabels
empty_labels = record {
  ensemble = none;
  programmes = [];
  component_labels = [];
  data_services = [];
}

abbrev pub is_service : ℕ → ServiceLabel → Bool
is_service s_id e = e.s_id == s_id

abbrev pub is_component_label : ℕ → ℕ → ComponentLabel → Bool
is_component_label s_id sc_ids e = e.s_id == s_id && e.sc_ids == sc_ids

unfoldable pub programme_label_of : FibLabels → ℕ → Option ServiceLabel
unfolding find_by
programme_label_of l s_id = find_by (is_service s_id) l.programmes

unfoldable pub component_label_of : FibLabels → ℕ → ℕ → Option ComponentLabel
unfolding find_by
component_label_of l s_id sc_ids = find_by (is_component_label s_id sc_ids) l.component_labels

unfoldable pub data_service_label_of : FibLabels → ℕ → Option ServiceLabel
unfolding find_by
data_service_label_of l s_id = find_by (is_service s_id) l.data_services

-- get_service_label_of_SId_from_all_Fig1; `none` is the empty string.
unfoldable pub service_label_of : FibLabels → ℕ → Option Label
unfolding programme_label_of data_service_label_of
service_label_of l s_id = elim (programme_label_of l s_id) [
  | some e ↦ some e.label
  | none ↦ elim (data_service_label_of l s_id) [ some e ↦ some e.label | none ↦ none ]
]

-- is_charset_valid: EbuLatin, UnicodeUcs2 and UnicodeUtf8.
abbrev pub is_charset_valid : ℕ → Bool
is_charset_valid charset = charset == 0 || (charset == 6 || charset == 15)

-- The loop over `i`, with the characters left.
unfoldable pub read_characters : List Bool → ℕ → ℕ → List ℕ
unfolding get_bits_8
read_characters d o zero = []
read_characters d o (suc n) = get_bits_8 d o ∷ read_characters d (o + 8) n

-- _extract_character_set_label
unfoldable pub extract_label : List Bool → ℕ → Option Label
unfolding get_bits get_bits_4 read_characters
extract_label d label_offs =
    let charset = get_bits_4 d 8 in
    if is_charset_valid charset
    then some (record {
      charset = charset;
      characters = read_characters d label_offs 16;
      char_flag_field = get_bits d (label_offs + 16 * 8) 16;
    })
    else none
