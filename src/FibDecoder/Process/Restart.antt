-- ===== src/FibDecoder/Process/Restart.antt =====
-- A FIB with an impossible content: the collected tables are emptied, but for the clusters of
-- announcements, and only such a FIB sets the loading state back.
use dabstar.Prelude.{
  ℕ, ◌≤◌, ◌≡◌, refl, ap, ◌∙◌, Bool, true, false, ◌⊎◌, inl, inr, none, List, [], leb, ltb, if_elim,
  ltb→lt, arith,
}
use dabstar.FibDecoder.Config.{Cluster, FibConfig, reset_config}
use dabstar.FibDecoder.State.{
  LoadingState, init, rank, FibDecoder, emit, reset_decoder, restart_decoding, retrigger,
}
use dabstar.FibDecoder.Loading.{select_fast_audio}
use dabstar.FibDecoder.Process.{process_fib}
use dabstar.FibDecoder.Process.Closed.{IsClosed}
use dabstar.FibDecoder.Process.Closed.Cases.{process_fib_kept}

-- A configuration in which nothing is stored but the clusters of announcements `clusters`.
pub record IsEmptied (c : FibConfig) (clusters : List Cluster) : Type 0 where
  pub no_organizations : c.organizations ≡ []
  pub no_components : c.components ≡ []
  pub no_packet_modes : c.packet_modes ≡ []
  pub no_languages : c.languages ≡ []
  pub no_configuration_information : c.configuration_information ≡ none
  pub no_global_defs : c.global_defs ≡ []
  pub no_country_lto : c.country_lto ≡ none
  pub no_user_applications : c.user_applications ≡ []
  pub no_fec_organizations : c.fec_organizations ≡ []
  pub no_programme_types : c.programme_types ≡ []
  pub same_clusters : c.cluster_table ≡ clusters

pub reset_config-IsEmptied : (c : FibConfig) → IsEmptied (reset_config c) c.cluster_table
unfolding reset_config
reset_config-IsEmptied c = record {
  no_organizations = refl;
  no_components = refl;
  no_packet_modes = refl;
  no_languages = refl;
  no_configuration_information = refl;
  no_global_defs = refl;
  no_country_lto = refl;
  no_user_applications = refl;
  no_fec_organizations = refl;
  no_programme_types = refl;
  same_clusters = refl;
}

-- The decoder of a channel of which nothing is known but clusters of announcements.
pub record IsBlank (s : FibDecoder) : Type 0 where
  pub blank_curr : IsEmptied s.curr s.curr.cluster_table
  pub blank_next : IsEmptied s.next s.next.cluster_table
  pub blank_ensemble : s.labels.ensemble ≡ none
  pub blank_programmes : s.labels.programmes ≡ []
  pub blank_component_labels : s.labels.component_labels ≡ []
  pub blank_data_services : s.labels.data_services ≡ []
  pub blank_state : s.loading_state ≡ init
  pub no_timer : (s.consistency_timer ≡ false) × (s.print_timer ≡ false)

abbrev IsBlankOnRestart : FibDecoder → Type 0
IsBlankOnRestart s = s.restart ≡ true → IsBlank s

on : (b : Bool) → b ≡ false → (A : Type 0) → b ≡ true → A
on b h A k = ground arith

restart-retrigger_lem : (s : FibDecoder) → s.restart ≡ false → (retrigger s).restart ≡ false
unfolding retrigger emit
restart-retrigger_lem s h =
    if_elim (λ (t : FibDecoder). t.restart ≡ false) (leb 4 (rank s.loading_state)) (λ _. h) (λ _. h)

select_fast_audio-restart :
    (s : FibDecoder) → s.restart ≡ false → (select_fast_audio s).restart ≡ false
unfolding select_fast_audio emit
select_fast_audio-restart s h =
    if_elim (λ (t : FibDecoder). t.restart ≡ false) (ltb (rank s.loading_state) 1) (λ _. h) (λ _. h)

IsBlankOnRestart-IsClosed : IsClosed IsBlankOnRestart
unfolding restart_decoding reset_decoder reset_config
IsBlankOnRestart-IsClosed = record {
  by_aside = λ s t a r p q. on t.restart (a.same_restart ∙ r) (IsBlank t) q;
  by_change = λ s r p q. on s.restart r (IsBlank _) q;
  by_collect = λ s t e l r p q.
      on (retrigger t).restart (restart-retrigger_lem t (e ∙ r)) (IsBlank (retrigger t)) q;
  by_restart = λ s p q. record {
    blank_curr = reset_config-IsEmptied s.curr;
    blank_next = reset_config-IsEmptied s.next;
    blank_ensemble = refl;
    blank_programmes = refl;
    blank_component_labels = refl;
    blank_data_services = refl;
    blank_state = refl;
    no_timer = (refl, refl);
  };
  by_fast_audio = λ s r p q.
      on (select_fast_audio s).restart (select_fast_audio-restart s r)
        (IsBlank (select_fast_audio s)) q;
}

-- When a FIB makes the decoder start again, then afterwards each table of both configurations, but
-- for that of the announcement clusters, and each table of the labels is empty, the loading state is
-- the first one and no timer runs: what this FIB told before or behind the place that was found
-- impossible is not in these tables either.
pub process_fib-IsBlank :
    (fib : List Bool) (s : FibDecoder)
    → (process_fib fib s).restart ≡ true
    → IsBlank (process_fib fib s)
process_fib-IsBlank fib s =
    process_fib_kept IsBlankOnRestart IsBlankOnRestart-IsClosed fib s
      (λ q. on false refl (IsBlank (record s { restart = false })) q)

-- The loading state is `r` or later, unless the decoder starts again.
abbrev IsPast : ℕ → FibDecoder → Type 0
IsPast r s = (s.restart ≡ true) ⊎ (r ≤ rank s.loading_state)

rank_le : (l : LoadingState) → rank l ≤ 5
rank_le l = ground arith

pub retrigger-rank : (s : FibDecoder) → rank s.loading_state ≤ rank (retrigger s).loading_state
unfolding retrigger emit
retrigger-rank s =
    if_elim (λ (t : FibDecoder). rank s.loading_state ≤ rank t.loading_state)
      (leb 4 (rank s.loading_state)) (λ loaded. rank_le s.loading_state) (λ waiting. omega arith)

pub select_fast_audio-rank :
    (s : FibDecoder) → rank s.loading_state ≤ rank (select_fast_audio s).loading_state
unfolding select_fast_audio emit
select_fast_audio-rank s =
    if_elim (λ (t : FibDecoder). rank s.loading_state ≤ rank t.loading_state)
      (ltb (rank s.loading_state) 1) (λ first. omega (arith, ltb→lt _ _ first))
      (λ later. omega arith)

IsPast-later :
    (r : ℕ) (s t : FibDecoder)
    → s.restart ≡ false
    → rank s.loading_state ≤ rank t.loading_state
    → IsPast r s
    → IsPast r t
IsPast-later r s t h le (inl q) = on s.restart h (IsPast r t) q
IsPast-later r s t h le (inr p) = inr (omega arith)

IsPast-IsClosed : (r : ℕ) → IsClosed (IsPast r)
unfolding restart_decoding
IsPast-IsClosed r = record {
  by_aside = λ s t a h p. IsPast-later r s t h (rw a.same_state (omega arith)) p;
  by_change = λ s h p. p;
  by_collect = λ s t e l h p.
      IsPast-later r s (retrigger t) h (omega (arith, retrigger-rank t, ap rank l)) p;
  by_restart = λ s p. inl refl;
  by_fast_audio = λ s h p. IsPast-later r s (select_fast_audio s) h (select_fast_audio-rank s) p;
}

-- A FIB that does not make the decoder start again never sets the loading state back.
pub process_fib-rank :
    (fib : List Bool) (s : FibDecoder)
    → (process_fib fib s).restart ≡ false
    → rank s.loading_state ≤ rank (process_fib fib s).loading_state
process_fib-rank fib s h =
    elim (process_fib_kept (IsPast (rank s.loading_state)) (IsPast-IsClosed (rank s.loading_state))
      fib s (inr (omega arith))) [ inl q ↦ on (process_fib fib s).restart h _ q | inr p ↦ p ]
