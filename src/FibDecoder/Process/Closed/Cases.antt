-- ===== src/FibDecoder/Process/Closed/Cases.antt =====
-- The other cases of the switch, one by one, and the whole FIB.
use dabstar.Prelude.{
  ℕ, zero, suc, ◌+◌, ◌*◌, ◌≡◌, refl, Bool, true, false, Option, none, some, List, ◌==◌, ltb,
  if_elim,
}
use dabstar.Bits.{get_bits, get_bits_1, get_bits_3, get_bits_5, get_bits_6}
use dabstar.SubChannel.Fig01.{get_fig_header}
use dabstar.FibDecoder.Config.{
  CountryLto, UserApplications, audio_component_of, user_application_of,
}
use dabstar.FibDecoder.Labels.{Label, EnsembleLabel, FibLabels, extract_label}
use dabstar.FibDecoder.State.{FibDecoder, emit, config_of, is_some}
use dabstar.FibDecoder.Multiplex.{process_fig0s7, process_global_def, process_fec}
use dabstar.FibDecoder.Multiplex.UserApps.{
  add_user_applications, read_user_applications, store_user_applications, process_user_applications,
}
use dabstar.FibDecoder.Information.{
  store_short_language, store_long_language, process_language, read_country_lto, process_fig0s9,
  tell_time, process_fig0s10, process_fig0s15, store_programme_type, programme_types_loop,
  process_fig0s17,
}
use dabstar.FibDecoder.Fig1.{
  store_ensemble, store_label, process_fig1s0, process_fig1s1, process_fig1s4, process_fig1s5,
  process_fig1,
}
use dabstar.FibDecoder.Loading.{is_selectable, process_fast_audio_selection}
use dabstar.FibDecoder.Process.{fig0_cases}
use dabstar.FibDecoder.Process.Induction.{KeptByHandler, KeptByFig, IsKept}
use dabstar.FibDecoder.Process.Closed.{
  of_same_fields, IsClosed, Live, Aside-Live, store-Live, by_fig0s0, by_organization, by_service,
  by_store, by_packet_mode,
}
use dabstar.FibDecoder.Process.Closed.Announced.{by_fig0s18, by_fig0s19}
use dabstar.FibDecoder.Multiplex.{set_configuration}
use dabstar.FibDecoder.Process.{process_fib}
use dabstar.FibDecoder.Process.Induction.{process_fib_induction}

module _ {ℓ} (P : FibDecoder → Type ℓ) (k : IsClosed P) where
  by_language : KeptByHandler P process_language
  unfolding process_language store_short_language store_long_language
  by_language d offset fh s r p =
      if_elim (λ (x : ℕ × FibDecoder). P x.1) (get_bits_1 d (offset * 8) == 0)
        (λ short. by_store P k _ 0 _ s r p) (λ long. by_store P k _ 0 _ s r p)

  by_fig0s7 : KeptByFig P process_fig0s7
  unfolding process_fig0s7
  by_fig0s7 d s r p =
      let cn_flag = (get_fig_header d).cn_flag in
      by_store P k (is_some (config_of s cn_flag).configuration_information) cn_flag
        (set_configuration (record { num_services = get_bits_6 d 16; count = get_bits d 22 10 })) s
        r p

  by_global_def : KeptByHandler P process_global_def
  unfolding process_global_def
  by_global_def d used fh s r p = by_store P k _ fh.cn_flag _ s r p

  by_fec : KeptByHandler P process_fec
  unfolding process_fec
  by_fec d used fh s r p = by_store P k _ fh.cn_flag _ s r p

  by_fig0s9 : KeptByFig P process_fig0s9
  unfolding process_fig0s9
  by_fig0s9 d s r p =
      by_store P k (is_some s.curr.country_lto) 0
        (λ c. record c { country_lto = some (read_country_lto d) }) s r p

  tell_time_kept : (e : Option CountryLto) (s : FibDecoder) → Live P k s → Live P k (tell_time e s)
  unfolding tell_time emit
  tell_time_kept none s p = p
  tell_time_kept (some e) s p = Aside-Live P k _ _ (of_same_fields refl refl refl refl refl) p

  by_fig0s10 : KeptByFig P process_fig0s10
  unfolding process_fig0s10
  by_fig0s10 d s r p =
      (tell_time_kept s.curr.country_lto _
        (Aside-Live P k s _ (of_same_fields refl refl refl refl refl) (r, p))).1

  user_applications_kept :
      (o : Option UserApplications) (e : UserApplications) (used cn : ℕ) (s : FibDecoder)
      → s.restart ≡ false
      → P s
      → P (store_user_applications o e used cn s).1
  unfolding store_user_applications
  user_applications_kept (some known) e used cn s r p = p
  user_applications_kept none e used cn s r p =
      by_store P k false cn (add_user_applications e) s r p

  by_user_applications : KeptByHandler P process_user_applications
  unfolding process_user_applications
  by_user_applications d used fh s r p =
      let e = read_user_applications d used fh in
      user_applications_kept (user_application_of s.curr e.s_id e.sc_ids) e used fh.cn_flag s r p

  by_fig0s15 : (s : FibDecoder) → Live P k s → Live P k (process_fig0s15 s)
  unfolding process_fig0s15 emit
  by_fig0s15 s p =
      if_elim (Live P k) s.ews_available (λ seen. p)
        (λ first. Aside-Live P k s _ (of_same_fields refl refl refl refl refl) p)

  programme_types-Live :
      (fuel : ℕ) (d : List Bool) (length o : ℕ) (s : FibDecoder)
      → Live P k s
      → Live P k (programme_types_loop fuel d length o s)
  unfolding programme_types_loop store_programme_type
  programme_types-Live zero d length o s l = l
  programme_types-Live (suc fuel) d length o s l =
      if_elim (Live P k) (ltb o (length * 8))
        (λ more. programme_types-Live fuel d length (o + 32) _ (store-Live P k _ 0 _ s l))
        (λ done. l)

  by_fig0s17 : KeptByFig P process_fig0s17
  unfolding process_fig0s17
  by_fig0s17 d s r p =
      (programme_types-Live (suc (get_bits_5 d 3 * 8)) d (get_bits_5 d 3) 16 s (r, p)).1

  store_label_kept :
      (known : Bool) (l : Option Label) (add : Label → FibLabels) (s : FibDecoder)
      → s.restart ≡ false
      → P s
      → P (store_label known l add s)
  unfolding store_label
  store_label_kept true l add s r p = p
  store_label_kept false none add s r p = p
  store_label_kept false (some l) add s r p =
      k.by_collect s (record s { labels = add l }) refl refl r p

  store_ensemble_kept :
      (o : Option EnsembleLabel) (e_id : ℕ) (l : Label) (s : FibDecoder)
      → Live P k s
      → Live P k (store_ensemble o e_id l s)
  unfolding store_ensemble emit
  store_ensemble_kept (some known) e_id l s p = p
  store_ensemble_kept none e_id l s p =
      Aside-Live P k s _ (of_same_fields refl refl refl refl refl) p

  by_fig1 : KeptByFig P process_fig1
  unfolding process_fig1 process_fig1s0 process_fig1s1 process_fig1s4 process_fig1s5
  by_fig1 d s r p =
      let extension = get_bits_3 d 13 in
      if_elim P (extension == 0)
        (λ e.
          elim (extract_label d 32)
            as (λ x. P (elim x [
              | none ↦ s
              | some l ↦ store_ensemble s.labels.ensemble (get_bits d 16 16) l s
            ])) [ none ↦ p | some l ↦ (store_ensemble_kept s.labels.ensemble _ l s (r, p)).1 ])
        (λ e.
          if_elim P (extension == 1) (λ f. store_label_kept _ _ _ s r p)
            (λ f.
              if_elim P (extension == 4) (λ g. store_label_kept _ _ _ s r p)
                (λ g. if_elim P (extension == 5) (λ h. store_label_kept _ _ _ s r p) (λ h. p))))

  IsClosed-IsKept : IsKept P
  unfolding fig0_cases process_fast_audio_selection
  IsClosed-IsKept = record {
    by_cases = (
      by_fig0s0 P k,
      (
        by_organization P k,
        (
          by_service P k,
          (
            by_packet_mode P k,
            (
              by_language,
              (
                by_fig0s7,
                (
                  by_global_def,
                  (
                    by_fig0s9,
                    (
                      by_fig0s10,
                      (
                        by_user_applications,
                        (
                          by_fec,
                          (
                            (λ d s r p. (by_fig0s15 s (r, p)).1),
                            (by_fig0s17, (by_fig0s18 P k, (by_fig0s19 P k, tt))),
                          ),
                        ),
                      ),
                    ),
                  ),
                ),
              ),
            ),
          ),
        ),
      ),
    );
    by_fig1 = by_fig1;
    by_fast_audio = λ s r p.
        if_elim P (is_selectable s.curr (audio_component_of s.curr s.s_id_for_fast_audio))
          (λ there. k.by_fast_audio s r p) (λ missing. p);
  }

  pub process_fib_kept :
      (fib : List Bool) (s : FibDecoder) → P (record s { restart = false }) → P (process_fib fib s)
  process_fib_kept = process_fib_induction P IsClosed-IsKept
