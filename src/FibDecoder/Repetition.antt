-- ===== src/FibDecoder/Repetition.antt =====
-- A FIG that is repeated: a label is stored once, but not every entry of FIG 0.
pub mod Growth
use dabstar.Prelude.{
  ℕ, zero, suc, ◌+◌, ◌*◌, ◌≤◌, ◌≡◌, ◌≢◌, refl, sym, ap, ◌∙◌, Bool, true, false, ◌⊎◌, inl, inr,
  Option, Option-cases, none, some, List, [], ◌∷◌, ◌++◌, length, length-append, ◌==◌, ◌&&◌, leb,
  ltb, if◌then◌else◌, if_elim, arith,
}
use dabstar.Bits.{get_bits, get_l_bits, get_bits_1, get_bits_3, get_bits_4, get_bits_8}
use dabstar.FibDecoder.Tables.{find_by, find_by-append}
use dabstar.FibDecoder.Labels.{
  Label, EnsembleLabel, FibLabels, extract_label, programme_label_of, component_label_of,
  data_service_label_of,
}
use dabstar.FibDecoder.State.{FibDecoder, emit, retrigger, is_some, rank}
use dabstar.FibDecoder.Fig1.{
  store_ensemble, store_label, process_fig1s0, process_fig1s1, process_fig1s4, process_fig1s5,
  process_fig1,
}

labels-retrigger : (s : FibDecoder) → (retrigger s).labels ≡ s.labels
unfolding retrigger emit
labels-retrigger s =
    if_elim (λ (t : FibDecoder). t.labels ≡ s.labels) (leb 4 (rank s.loading_state)) (λ _. refl)
      (λ _. refl)

-- After storing, a lookup of its key finds it, so that a later call leaves any decoder with these
-- labels alone.
store_label_again :
    (known : FibLabels → Bool) (l : Option Label) (add : FibLabels → Label → FibLabels)
    (s u : FibDecoder)
    → ((m : FibLabels) (x : Label) → known m ≡ false → known (add m x) ≡ true)
    → u.labels ≡ (store_label (known s.labels) l (add s.labels) s).labels
    → store_label (known u.labels) l (add u.labels) u ≡ u
unfolding store_label
store_label_again known l add s u found = go (known s.labels) refl l
  where
    go :
        (b : Bool)
        → known s.labels ≡ b
        → (l : Option Label) → u.labels ≡ (store_label b l (add s.labels) s).labels
        → store_label (known u.labels) l (add u.labels) u ≡ u
    go true e l same = ap (λ b. store_label b l (add u.labels) u) (ap known same ∙ e)
    go false e none same = ap (λ b. store_label b none (add u.labels) u) (ap known same ∙ e)
    go false e (some x) same =
        ap (λ b. store_label b (some x) (add u.labels) u)
          (ap known (same ∙ labels-retrigger (record s { labels = add s.labels x }))
            ∙ found s.labels x e)

is_some-append {ℓ} :
    {A : Type ℓ} (test : A → Bool) (e : A) (es : List A)
    → test e ≡ true
    → is_some (find_by test es) ≡ false
    → is_some (find_by test (es ++ (e ∷ []))) ≡ true
is_some-append test e es h unknown = elim (Option-cases (find_by test es)) [
  | inl nothing ↦ ap is_some (find_by-append test es e h nothing)
  | inr (k, known) ↦ absurd (ground arith)
]

same_key : (i : ℕ) → (i == i) ≡ true
same_key i = ground arith

same_keys : (i j : ℕ) → (i == i && j == j) ≡ true
same_keys i j = ground arith

store_ensemble_again :
    (o : Option EnsembleLabel) (e_id : ℕ) (l : Label) (s u : FibDecoder)
    → s.labels.ensemble ≡ o
    → u.labels ≡ (store_ensemble o e_id l s).labels
    → store_ensemble u.labels.ensemble e_id l u ≡ u
unfolding store_ensemble emit
store_ensemble_again none e_id l s u h same =
    ap (λ (m : FibLabels). store_ensemble m.ensemble e_id l u) same
store_ensemble_again (some known) e_id l s u h same =
    ap (λ (m : FibLabels). store_ensemble m.ensemble e_id l u) same
    ∙ ap (λ o. store_ensemble o e_id l u) h

process_fig1s0_again :
    (d : List Bool) (s u : FibDecoder)
    → u.labels ≡ (process_fig1s0 d s).labels
    → process_fig1s0 d u ≡ u
unfolding process_fig1s0
process_fig1s0_again d s u = go (extract_label d 32)
  where
    go :
        (l : Option Label)
        → let run = λ (t : FibDecoder). elim l as (λ x. FibDecoder) [
          | none ↦ t
          | some x ↦ store_ensemble t.labels.ensemble (get_bits d 16 16) x t
        ] in
          u.labels ≡ (run s).labels → run u ≡ u
    go none same = refl
    go (some x) same = store_ensemble_again s.labels.ensemble (get_bits d 16 16) x s u refl same

process_fig1s1_again :
    (d : List Bool) (s u : FibDecoder)
    → u.labels ≡ (process_fig1s1 d s).labels
    → process_fig1s1 d u ≡ u
unfolding process_fig1s1 programme_label_of
process_fig1s1_again d s u =
    let s_id = get_bits d 16 16 in
    store_label_again (λ m. is_some (programme_label_of m s_id)) (extract_label d 32)
      (λ m l. record m { programmes = m.programmes ++ (record { s_id = s_id; label = l } ∷ []) }) s
      u (λ m x. is_some-append _ (record { s_id = s_id; label = x }) m.programmes (same_key s_id))

process_fig1s4_again :
    (d : List Bool) (s u : FibDecoder)
    → u.labels ≡ (process_fig1s4 d s).labels
    → process_fig1s4 d u ≡ u
unfolding process_fig1s4 component_label_of
process_fig1s4_again d s u =
    let pd_flag = get_bits_1 d 16 in
    let sc_ids = get_bits_4 d 20 in
    let s_id = get_l_bits d 24 (if pd_flag == 0 then 16 else 32) in
    store_label_again (λ m. is_some (component_label_of m s_id sc_ids))
      (extract_label d (if pd_flag == 0 then 40 else 56))
      (λ m l. record m {
        component_labels =
            m.component_labels
            ++ (record { pd_flag = pd_flag; sc_ids = sc_ids; s_id = s_id; label = l } ∷ []);
      })
      s u
      (λ m x.
        is_some-append _ (record { pd_flag = pd_flag; sc_ids = sc_ids; s_id = s_id; label = x })
          m.component_labels (same_keys s_id sc_ids))

process_fig1s5_again :
    (d : List Bool) (s u : FibDecoder)
    → u.labels ≡ (process_fig1s5 d s).labels
    → process_fig1s5 d u ≡ u
unfolding process_fig1s5 data_service_label_of
process_fig1s5_again d s u =
    let s_id = get_l_bits d 16 32 in
    store_label_again (λ m. is_some (data_service_label_of m s_id)) (extract_label d 48)
      (λ m l. record m {
        data_services = m.data_services ++ (record { s_id = s_id; label = l } ∷ []);
      })
      s u
      (λ m x. is_some-append _ (record { s_id = s_id; label = x }) m.data_services (same_key s_id))

-- A FIG 1 that is received once more, whatever happened in between as long as the labels are those
-- that it left behind, changes nothing at all: no label is stored twice, no timer starts and no
-- signal is emitted again.
pub process_fig1_again :
    (d : List Bool) (s u : FibDecoder) → u.labels ≡ (process_fig1 d s).labels → process_fig1 d u ≡ u
unfolding process_fig1
process_fig1_again d s u =
    let x = get_bits_3 d 13 in
    let last = λ (t : FibDecoder). if x == 5 then process_fig1s5 d t else t in
    let third = λ (t : FibDecoder). if x == 4 then process_fig1s4 d t else last t in
    let second = λ (t : FibDecoder). if x == 1 then process_fig1s1 d t else third t in
    by_case (x == 0) (process_fig1s0 d) second (process_fig1s0_again d s u) (
      by_case (x == 1) (process_fig1s1 d) third (process_fig1s1_again d s u) (
        by_case (x == 4) (process_fig1s4 d) last (process_fig1s4_again d s u)
          (by_case (x == 5) (process_fig1s5 d) (λ t. t) (process_fig1s5_again d s u) (λ e. refl))))
  where
    by_case :
        (b : Bool) (f g : FibDecoder → FibDecoder)
        → (u.labels ≡ (f s).labels → f u ≡ u)
        → (u.labels ≡ (g s).labels → g u ≡ u)
        → u.labels ≡ (if b then f s else g s).labels
        → (if b then f u else g u) ≡ u
    by_case true f g p q = p
    by_case false f g p q = q
