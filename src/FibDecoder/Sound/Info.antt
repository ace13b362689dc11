-- ===== src/FibDecoder/Sound/Info.antt =====
-- The handlers of the service information keep the configurations sound.
use dabstar.Prelude.{
  ℕ, zero, suc, ◌+◌, ◌*◌, ◌<◌, ◌≡◌, refl, sym, ap, ◌∙◌, Bool, false, Option, none, some, List, [],
  ◌∷◌, ◌++◌, ◌==◌, ltb, if_elim, All, arith,
}
use native.Mathlib.Nat.{mod-eq_of_lt, mod-lt}
use dabstar.Bits.{
  push_bit, bit_at, bits_loop, get_bits, get_bits_1, get_bits_5, get_bits_6, get_bits_8,
}
use dabstar.FibDecoder.Tables.{find_by_ext, Distinct-append, Distinct-snoc}
use dabstar.FibDecoder.Config.{
  ComponentLanguage, by_sub_ch_id, by_sc_id, CountryLto, language_of_sub_ch_id, language_of_sc_id,
  programme_type_of, is_programme_type,
}
use dabstar.FibDecoder.State.{FibDecoder, emit, is_some}
use dabstar.FibDecoder.Information.{
  add_language, store_short_language, store_long_language, process_language, read_country_lto,
  process_fig0s9, tell_time, process_fig0s10, process_fig0s15, store_programme_type,
  programme_types_loop, process_fig0s17,
}
use dabstar.FibDecoder.Sound.{
  IsSoundConfig, sound, IsSound, store-Both, same_short_language, same_programme_type,
}
use dabstar.FibDecoder.Sound.Mci.{unfound}
use dabstar.FibDecoder.Process.Induction.{KeptByHandler, KeptByFig}

All-false : (es : List ComponentLanguage) → All (λ f. false ≡ false) es
All-false [] = tt
All-false (e ∷ es) = (refl, All-false es)

process_short-IsSound :
    (d : List Bool) (o : ℕ) (s : FibDecoder) → IsSound s → IsSound (store_short_language d o s)
unfolding store_short_language language_of_sub_ch_id
process_short-IsSound d o s b =
    store-Both IsSoundConfig (is_some (language_of_sub_ch_id s.curr (get_bits_6 d (o + 2)))) 0
      (add_language (record {
        component = by_sub_ch_id (get_bits_6 d (o + 2));
        language = get_bits_8 d (o + 8);
      }))
      s
      (λ new q.
        sound q.organizations q.components q.packet_modes
          (Distinct-append same_short_language _ _ (unfound _ new) q.languages) q.global_defs
          q.user_applications q.fec_organizations q.programme_types)
      b

process_long-IsSound :
    (d : List Bool) (o : ℕ) (s : FibDecoder) → IsSound s → IsSound (store_long_language d o s)
unfolding store_long_language language_of_sc_id
process_long-IsSound d o s b =
    store-Both IsSoundConfig (is_some (language_of_sc_id s.curr (get_bits d (o + 4) 12))) 0
      (add_language
        (record { component = by_sc_id (get_bits d (o + 4) 12); language = get_bits_8 d (o + 16) }))
      s
      (λ new q.
        sound q.organizations q.components q.packet_modes
          (Distinct-snoc same_short_language _ _ q.languages (All-false s.curr.languages))
          q.global_defs q.user_applications q.fec_organizations q.programme_types)
      b

pub process_language-IsSound : KeptByHandler IsSound process_language
unfolding process_language
process_language-IsSound d offset fh s r b =
    if_elim (λ (x : ℕ × FibDecoder). IsSound x.1) (get_bits_1 d (offset * 8) == 0)
      (λ short. process_short-IsSound d (offset * 8) s b)
      (λ long. process_long-IsSound d (offset * 8) s b)

pub process_fig0s9-IsSound : KeptByFig IsSound process_fig0s9
unfolding process_fig0s9
process_fig0s9-IsSound d s r b =
    store-Both IsSoundConfig (is_some s.curr.country_lto) 0
      (λ c. record c { country_lto = some (read_country_lto d) }) s
      (λ new q.
        sound q.organizations q.components q.packet_modes q.languages q.global_defs
          q.user_applications q.fec_organizations q.programme_types)
      b

tell_time-IsSound : (e : Option CountryLto) (s : FibDecoder) → IsSound s → IsSound (tell_time e s)
unfolding tell_time emit
tell_time-IsSound none s b = b
tell_time-IsSound (some e) s b = record { of_curr = b.of_curr; of_next = b.of_next }

pub process_fig0s10-IsSound : KeptByFig IsSound process_fig0s10
unfolding process_fig0s10
process_fig0s10-IsSound d s r b =
    tell_time-IsSound s.curr.country_lto _ (record { of_curr = b.of_curr; of_next = b.of_next })

pub process_fig0s15-IsSound : (s : FibDecoder) → IsSound s → IsSound (process_fig0s15 s)
unfolding process_fig0s15 emit
process_fig0s15-IsSound s b =
    if_elim IsSound s.ews_available (λ seen. b)
      (λ first. record { of_curr = b.of_curr; of_next = b.of_next })

-- The `u16` keeps an identifier of 16 bits.
bits_loop_lt : (d : List Bool) (n o r : ℕ) → r < 65536 → bits_loop 65536 d n o r < 65536
unfolding bits_loop
bits_loop_lt d zero o r h = h
bits_loop_lt d (suc n) o r h =
    bits_loop_lt d n (o + 1) (push_bit 65536 r (bit_at d o)) (mod-lt _ (omega arith))

pub get_bits_lt : (d : List Bool) (o n : ℕ) → get_bits d o n < 65536
unfolding get_bits
get_bits_lt d o n = bits_loop_lt d n o 0 (omega arith)

store_programme_type-IsSound :
    (d : List Bool) (o : ℕ) (s : FibDecoder) → IsSound s → IsSound (store_programme_type d o s)
unfolding store_programme_type programme_type_of
store_programme_type-IsSound d o s b =
    store-Both IsSoundConfig (is_some (programme_type_of s.curr (get_bits d o 16))) 0
      (λ c. record c {
        programme_types =
            c.programme_types
            ++ (record {
              s_id = get_bits d o 16;
              sd_flag = get_bits_1 d (o + 16);
              int_code = get_bits_5 d (o + 27);
            }
                ∷ []);
      })
      s
      (λ new q.
        sound q.organizations q.components q.packet_modes q.languages q.global_defs
          q.user_applications q.fec_organizations
          (Distinct-append same_programme_type _ _
            (find_by_ext _ (is_programme_type (get_bits d o 16)) _
                (λ f. ap (λ i. f.s_id == i) (sym (mod-eq_of_lt (get_bits_lt d o 16))))
              ∙ unfound _ new)
            q.programme_types))
      b

programme_types_loop-IsSound :
    (fuel : ℕ) (d : List Bool) (length o : ℕ) (s : FibDecoder)
    → IsSound s
    → IsSound (programme_types_loop fuel d length o s)
unfolding programme_types_loop
programme_types_loop-IsSound zero d length o s b = b
programme_types_loop-IsSound (suc fuel) d length o s b =
    if_elim IsSound (ltb o (length * 8))
      (λ more.
        programme_types_loop-IsSound fuel d length (o + 32) _
          (store_programme_type-IsSound d o s b))
      (λ done. b)

pub process_fig0s17-IsSound : KeptByFig IsSound process_fig0s17
unfolding process_fig0s17
process_fig0s17-IsSound d s r b =
    programme_types_loop-IsSound (suc (get_bits_5 d 3 * 8)) d (get_bits_5 d 3) 16 s b
