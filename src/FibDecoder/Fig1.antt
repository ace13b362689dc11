-- ===== src/FibDecoder/Fig1.antt =====
-- fib_decoder_fig1.cpp: the labels of the ensemble, the services and their components.
use dabstar.Prelude.{
  ℕ, Bool, true, false, Option, none, some, List, [], ◌∷◌, ◌++◌, ◌==◌, if◌then◌else◌,
}
use dabstar.Bits.{get_bits, get_l_bits, get_bits_1, get_bits_3, get_bits_4}
use dabstar.FibDecoder.Labels.{
  Label, EnsembleLabel, FibLabels, extract_label, programme_label_of, component_label_of,
  data_service_label_of,
}
use dabstar.FibDecoder.State.{FibDecoder, name_of_ensemble, emit, retrigger, is_some}

-- _process_Fig1s0, with the label that was read.
unfoldable pub store_ensemble : Option EnsembleLabel → ℕ → Label → FibDecoder → FibDecoder
unfolding emit
store_ensemble (some known) e_id l s = s
store_ensemble none e_id l s =
    emit (name_of_ensemble e_id l) (record s {
      labels = record s.labels { ensemble = some (record { e_id = e_id; label = l }) };
    })

unfoldable pub process_fig1s0 : List Bool → FibDecoder → FibDecoder
unfolding extract_label store_ensemble get_bits
process_fig1s0 d s = elim (extract_label d 32) [
  | none ↦ s
  | some l ↦ store_ensemble s.labels.ensemble (get_bits d 16 16) l s
]

-- How the other handlers end, by whether the entry is known and the label can be read.
unfoldable pub store_label : Bool → Option Label → (Label → FibLabels) → FibDecoder → FibDecoder
unfolding retrigger
store_label true l add s = s
store_label false none add s = s
store_label false (some l) add s = retrigger (record s { labels = add l })

-- _process_Fig1s1
unfoldable pub process_fig1s1 : List Bool → FibDecoder → FibDecoder
unfolding extract_label programme_label_of store_label get_bits
process_fig1s1 d s =
    let s_id = get_bits d 16 16 in
    store_label (is_some (programme_label_of s.labels s_id)) (extract_label d 32)
      (λ l. record s.labels {
        programmes = s.labels.programmes ++ (record { s_id = s_id; label = l } ∷ []);
      })
      s

-- _process_Fig1s4
unfoldable pub process_fig1s4 : List Bool → FibDecoder → FibDecoder
unfolding extract_label component_label_of store_label get_bits_1 get_bits_4 get_l_bits
process_fig1s4 d s =
    let pd_flag = get_bits_1 d 16 in
    let sc_ids = get_bits_4 d 20 in
    let s_id = get_l_bits d 24 (if pd_flag == 0 then 16 else 32) in
    store_label (is_some (component_label_of s.labels s_id sc_ids))
      (extract_label d (if pd_flag == 0 then 40 else 56))
      (λ l. record s.labels {
        component_labels =
            s.labels.component_labels
            ++ (record { pd_flag = pd_flag; sc_ids = sc_ids; s_id = s_id; label = l } ∷ []);
      })
      s

-- _process_Fig1s5
unfoldable pub process_fig1s5 : List Bool → FibDecoder → FibDecoder
unfolding extract_label data_service_label_of store_label get_l_bits
process_fig1s5 d s =
    let s_id = get_l_bits d 16 32 in
    store_label (is_some (data_service_label_of s.labels s_id)) (extract_label d 48)
      (λ l. record s.labels {
        data_services = s.labels.data_services ++ (record { s_id = s_id; label = l } ∷ []);
      })
      s

-- _process_Fig1
unfoldable pub process_fig1 : List Bool → FibDecoder → FibDecoder
unfolding get_bits_3 process_fig1s0 process_fig1s1 process_fig1s4 process_fig1s5
process_fig1 d s =
    let extension = get_bits_3 d 13 in
    if extension == 0
    then process_fig1s0 d s
    else (if extension == 1
        then process_fig1s1 d s
        else (if extension == 4
            then process_fig1s4 d s
            else (if extension == 5 then process_fig1s5 d s else s)))
