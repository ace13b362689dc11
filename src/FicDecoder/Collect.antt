-- ===== src/FicDecoder/Collect.antt =====
-- process_block: the collection of soft bits over the symbols, with the action on a complete FIC as
-- a parameter that changes a state of its own.
pub mod Frame
use dabstar.Prelude.{ℕ, ◌+◌, Bool, true, false, List, [], ◌∷◌, ◌==◌, leb, if◌then◌else◌, set}

-- mFicViterbiSoftInput, mIndex, mFicIdx, and the rest of the decoder.
pub record Collector {ℓ κ} (A : Type ℓ) (S : Type κ) : Type (ℓ ⊔ κ) where
  pub soft_input : List A
  pub index : ℕ
  pub fic_idx : ℕ
  pub decoder : S

-- cFicSizeVitIn
abbrev pub fic_size_vit_in : ℕ
fic_size_vit_in = 2304

module _ {ℓ κ} {A : Type ℓ} {S : Type κ} (process_fic_input : ℕ → List A → S → S) where
  -- One round of the loop over the symbol's bits.
  unfoldable pub collect_bit : Collector A S → A → Collector A S
  collect_bit c x =
      let soft_input = set c.soft_input c.index x in
      let index = c.index + 1 in
      if leb fic_size_vit_in index
      then record {
        soft_input = soft_input;
        index = 0;
        fic_idx = c.fic_idx + 1;
        decoder = process_fic_input c.fic_idx soft_input c.decoder;
      }
      else record c { soft_input = soft_input; index = index }

  unfoldable pub collect_bits : Collector A S → List A → Collector A S
  collect_bits c [] = c
  collect_bits c (x ∷ xs) = collect_bits (collect_bit c x) xs

  -- Symbol 1 starts a new frame.
  unfoldable pub process_block : Collector A S → List A → ℕ → Collector A S
  process_block c soft_bits symb_idx =
      collect_bits (if symb_idx == 1 then record c { index = 0; fic_idx = 0 } else c) soft_bits
