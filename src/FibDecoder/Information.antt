-- ===== src/FibDecoder/Information.antt =====
-- fib_decoder_fig0.cpp: the service information, FIG 0/5, 0/9, 0/10, 0/15 and 0/17. All of them use
-- the current configuration.
use dabstar.Prelude.{
  ℕ, zero, suc, ◌+◌, ◌*◌, ◌/◌, ◌%◌, ◌^◌, Bool, true, Option, none, some, List, [], ◌∷◌, ◌++◌, ◌==◌,
  ltb, if◌then◌else◌,
}
use dabstar.Bits.{get_bits, get_l_bits, get_bits_1, get_bits_5, get_bits_6, get_bits_8}
use dabstar.SubChannel.Fig01.{FigHeader}
use dabstar.FibDecoder.Config.{
  by_sub_ch_id, by_sc_id, ComponentLanguage, CountryLto, ProgrammeType, FibConfig,
  language_of_sub_ch_id, language_of_sc_id, programme_type_of,
}
use dabstar.FibDecoder.State.{
  FibDecoder, UtcTimeSet, fib_time_info, ews_available_seen, emit, is_some, store,
}

abbrev pub add_language : ComponentLanguage → FibConfig → FibConfig
add_language e c = record c { languages = c.languages ++ (e ∷ []) }

-- _subprocess_Fig0s5: the short form and the long form.
unfoldable pub store_short_language : List Bool → ℕ → FibDecoder → FibDecoder
unfolding get_bits_6 get_bits_8 language_of_sub_ch_id store
store_short_language d o s =
    let i = get_bits_6 d (o + 2) in
    store (is_some (language_of_sub_ch_id s.curr i)) 0
      (add_language (record { component = by_sub_ch_id i; language = get_bits_8 d (o + 8) })) s

unfoldable pub store_long_language : List Bool → ℕ → FibDecoder → FibDecoder
unfolding get_bits get_bits_8 language_of_sc_id store
store_long_language d o s =
    let i = get_bits d (o + 4) 12 in
    store (is_some (language_of_sc_id s.curr i)) 0
      (add_language (record { component = by_sc_id i; language = get_bits_8 d (o + 16) })) s

unfoldable pub process_language : List Bool → ℕ → FigHeader → FibDecoder → ℕ × FibDecoder
unfolding get_bits_1 store_short_language store_long_language
process_language d offset fh s =
    let o = offset * 8 in
    if get_bits_1 d o == 0
    then ((o + 16) / 8, store_short_language d o s)
    else ((o + 24) / 8, store_long_language d o s)

-- _process_Fig0s9
unfoldable pub read_country_lto : List Bool → CountryLto
unfolding get_bits_1 get_bits_5 get_bits_8
read_country_lto d = record {
  ext_flag = get_bits_1 d 16;
  lto_sign = get_bits_1 d 18 == 1;
  lto_half_hours = get_bits_5 d 19;
  ensemble_ecc = get_bits_8 d 24;
  inter_table_id = get_bits_8 d 32;
}

unfoldable pub process_fig0s9 : List Bool → FibDecoder → FibDecoder
unfolding read_country_lto store
process_fig0s9 d s =
    store (is_some s.curr.country_lto) 0 (λ c. record c { country_lto = some (read_country_lto d) })
      s

-- _process_Fig0s10: the bit fields of the union, from the lowest bit.
unfoldable pub read_time : List Bool → UtcTimeSet → UtcTimeSet
unfolding get_l_bits get_bits_1
read_time d t =
    if get_bits_1 d 36 == 1
    then (let utc = get_l_bits d 37 27 in
        record t {
          mod_julian_date = get_l_bits d 17 17;
          hour = utc / 2 ^ 22 % 32;
          minute = utc / 2 ^ 16 % 64;
          second = some (utc / 2 ^ 10 % 64);
        })
    else (let utc = get_l_bits d 37 11 in
        record t {
          mod_julian_date = get_l_bits d 17 17;
          hour = utc / 2 ^ 6 % 32;
          minute = utc % 64;
          second = none;
        })

-- The end of _process_Fig0s10, by the entry of FIG 0/9.
unfoldable pub tell_time : Option CountryLto → FibDecoder → FibDecoder
unfolding emit
tell_time none s = s
tell_time (some e) s =
    let t = record s.utc_time { lto_sign = e.lto_sign; lto_minutes = e.lto_half_hours * 30 } in
    emit (fib_time_info t) (record s { utc_time = t })

unfoldable pub process_fig0s10 : List Bool → FibDecoder → FibDecoder
unfolding get_l_bits read_time tell_time
process_fig0s10 d s =
    tell_time s.curr.country_lto
      (record s { mod_julian_date = get_l_bits d 17 17; utc_time = read_time d s.utc_time })

-- _process_Fig0s15, without what it prints.
unfoldable pub process_fig0s15 : FibDecoder → FibDecoder
unfolding emit
process_fig0s15 s =
    if s.ews_available then s else emit ews_available_seen (record s { ews_available = true })

-- _process_Fig0s17. A round takes 32 bits: the fuel, one more than the FIG's bits, is not used up.
unfoldable pub store_programme_type : List Bool → ℕ → FibDecoder → FibDecoder
unfolding get_bits get_bits_1 get_bits_5 programme_type_of store
store_programme_type d o s =
    let e : ProgrammeType = record {
      s_id = get_bits d o 16;
      sd_flag = get_bits_1 d (o + 16);
      int_code = get_bits_5 d (o + 27);
    } in
    store (is_some (programme_type_of s.curr e.s_id)) 0
      (λ c. record c { programme_types = c.programme_types ++ (e ∷ []) }) s

unfoldable pub programme_types_loop : ℕ → List Bool → ℕ → ℕ → FibDecoder → FibDecoder
unfolding store_programme_type
programme_types_loop zero d length o s = s
programme_types_loop (suc fuel) d length o s =
    let rest = programme_types_loop fuel d length (o + 32) (store_programme_type d o s) in
    if ltb o (length * 8) then rest else s

unfoldable pub process_fig0s17 : List Bool → FibDecoder → FibDecoder
unfolding get_bits_5 programme_types_loop
process_fig0s17 d s =
    let length = get_bits_5 d 3 in programme_types_loop (suc (length * 8)) d length 16 s
