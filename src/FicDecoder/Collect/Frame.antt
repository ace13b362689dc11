-- ===== src/FicDecoder/Collect/Frame.antt =====
-- Three symbols make four FICs.
use dabstar.Prelude.{
  ℕ, zero, suc, ◌+◌, ◌<◌, ◌≡◌, refl, sym, ap, ◌∙◌, true, false, List, [], ◌∷◌, ◌++◌, leb, set, take,
  take_all, length, length-set, length-append, arith,
}
use mathlib.Core.Path.{ap₂, subst}
use mathlib.Core.List.{append_assoc, append-nil}
use dabstar.FicDecoder.Collect.{
  Collector, fic_size_vit_in, collect_bit, collect_bits, process_block,
}

take-set {ℓ} :
    {A : Type ℓ} (xs : List A) (i : ℕ) (x : A)
    → i < length xs
    → take (suc i) (set xs i x) ≡ take i xs ++ (x ∷ [])
take-set [] i x h = absurd (omega arith)
take-set (y ∷ xs) zero x h = refl
take-set (y ∷ xs) (suc i) x h = ap (λ l. y ∷ l) (take-set xs i x (omega arith))

module _ {ℓ κ} {A : Type ℓ} {S : Type κ} (process_fic_input : ℕ → List A → S → S) where
  -- The bits of a FIC that are in are `pending`; `fic_idx` FICs of the frame are complete.
  pub record Holds (c : Collector A S) (pending : List A) (fic_idx : ℕ) (s : S) : Type (ℓ ⊔ κ) where
    pub sized : length c.soft_input ≡ fic_size_vit_in
    pub count : c.index ≡ length pending
    pub stored : take c.index c.soft_input ≡ pending
    pub idx : c.fic_idx ≡ fic_idx
    pub state : c.decoder ≡ s

  stored_next :
      (c : Collector A S) (pending : List A) (i : ℕ) (s : S) (x : A)
      → length pending < fic_size_vit_in
      → Holds c pending i s
      → take (c.index + 1) (set c.soft_input c.index x) ≡ pending ++ (x ∷ [])
  stored_next c pending i s x h v =
      let e : c.index + 1 ≡ suc c.index = omega arith in
      ap (λ n. take n (set c.soft_input c.index x)) e
      ∙ take-set c.soft_input c.index x (omega (arith, v.sized, v.count))
      ∙ ap (λ l. l ++ (x ∷ [])) v.stored

  collect_bit-Holds :
      (c : Collector A S) (pending : List A) (i : ℕ) (s : S) (x : A)
      → length pending + 1 < fic_size_vit_in
      → Holds c pending i s
      → Holds (collect_bit process_fic_input c x) (pending ++ (x ∷ [])) i s
  unfolding collect_bit
  collect_bit-Holds c pending i s x h v =
      let more : leb fic_size_vit_in (c.index + 1) ≡ false = ground (arith, v.count) in
      rw more (record {
        sized = length-set c.soft_input c.index x ∙ v.sized;
        count = omega (arith, v.count, length-append {ℓ} pending (x ∷ []));
        stored = stored_next c pending i s x (omega arith) v;
        idx = v.idx;
        state = v.state;
      })

  collect_bit_full :
      (c : Collector A S) (pending : List A) (i : ℕ) (s : S) (x : A)
      → length pending + 1 ≡ fic_size_vit_in
      → Holds c pending i s
      → Holds
          (collect_bit process_fic_input c x)
          []
          (i + 1)
          (process_fic_input i (pending ++ (x ∷ [])) s)
  unfolding collect_bit
  collect_bit_full c pending i s x h v =
      let full : leb fic_size_vit_in (c.index + 1) ≡ true = ground (arith, v.count) in
      let all : set c.soft_input c.index x ≡ pending ++ (x ∷ []) =
        sym (
          take_all (c.index + 1) (set c.soft_input c.index x)
            (omega (arith, length-set {ℓ} c.soft_input c.index x, v.sized, v.count)))
        ∙ stored_next c pending i s x (omega arith) v in
      rw full (record {
        sized = length-set c.soft_input c.index x ∙ v.sized;
        count = refl;
        stored = refl;
        idx = ap (λ (n : ℕ). n + 1) v.idx;
        state =
            ap₂ (λ n l. process_fic_input n l c.decoder) v.idx all
            ∙ ap (process_fic_input i (pending ++ (x ∷ []))) v.state;
      })

  collect_bits-Holds :
      (xs : List A) (c : Collector A S) (pending : List A) (i : ℕ) (s : S)
      → length pending + length xs < fic_size_vit_in
      → Holds c pending i s
      → Holds (collect_bits process_fic_input c xs) (pending ++ xs) i s
  unfolding collect_bits
  collect_bits-Holds [] c pending i s h v = subst (λ l. Holds c l i s) (sym (append-nil pending)) v
  collect_bits-Holds (x ∷ xs) c pending i s h v =
      subst (λ l. Holds (collect_bits process_fic_input c (x ∷ xs)) l i s)
        (append_assoc pending (x ∷ []) xs)
        (collect_bits-Holds xs _ (pending ++ (x ∷ [])) i s
          (omega (arith, length-append {ℓ} pending (x ∷ [])))
          (collect_bit-Holds c pending i s x (omega arith) v))

  collect_bits_full :
      (xs : List A) (c : Collector A S) (pending : List A) (i : ℕ) (s : S)
      → 0 < length xs
      → length pending + length xs ≡ fic_size_vit_in
      → Holds c pending i s
      → Holds
          (collect_bits process_fic_input c xs)
          []
          (i + 1)
          (process_fic_input i (pending ++ xs) s)
  unfolding collect_bits
  collect_bits_full [] c pending i s n h v = absurd (omega arith)
  collect_bits_full (x ∷ []) c pending i s n h v = collect_bit_full c pending i s x h v
  collect_bits_full (x ∷ y ∷ xs) c pending i s n h v =
      subst
        (λ l.
          Holds (collect_bits process_fic_input c (x ∷ y ∷ xs)) [] (i + 1)
            (process_fic_input i l s))
        (append_assoc pending (x ∷ []) (y ∷ xs))
        (collect_bits_full (y ∷ xs) _ (pending ++ (x ∷ [])) i s (omega arith)
          (omega (arith, length-append {ℓ} pending (x ∷ [])))
          (collect_bit-Holds c pending i s x (omega arith) v))

  collect_bits-append :
      (xs ys : List A) (c : Collector A S)
      → collect_bits process_fic_input c (xs ++ ys)
        ≡ collect_bits process_fic_input (collect_bits process_fic_input c xs) ys
  unfolding collect_bits
  collect_bits-append [] ys c = refl
  collect_bits-append (x ∷ xs) ys c = collect_bits-append xs ys (collect_bit process_fic_input c x)

  -- The end of one FIC and the start of the next in one symbol.
  collect_two :
      (xs ys : List A) (c : Collector A S) (pending : List A) (i : ℕ) (s : S)
      → 0 < length xs
      → length pending + length xs ≡ fic_size_vit_in
      → length ys < fic_size_vit_in
      → Holds c pending i s
      → Holds
          (collect_bits process_fic_input c (xs ++ ys))
          ys
          (i + 1)
          (process_fic_input i (pending ++ xs) s)
  collect_two xs ys c pending i s n h k v =
      subst (λ c'. Holds c' ys (i + 1) (process_fic_input i (pending ++ xs) s))
        (sym (collect_bits-append xs ys c))
        (collect_bits-Holds ys _ [] (i + 1) _ (omega arith)
          (collect_bits_full xs c pending i s n h v))

  -- The symbols 1 to 3 of 3072 bits each make four FICs of 2304, numbered 0 to 3, in order and
  -- without loss: `a`, `b` with `c`, `d` with `e`, and `f`. This holds from any index and any FIC
  -- number that an earlier frame left.
  pub process_block_frame :
      (r : Collector A S) (a b c d e f : List A)
      → length r.soft_input ≡ fic_size_vit_in
      → (length a ≡ 2304) × (length b ≡ 768) × (length c ≡ 1536)
      → (length d ≡ 1536) × (length e ≡ 768) × (length f ≡ 2304)
      → Holds
          (process_block process_fic_input
            (process_block process_fic_input
              (process_block process_fic_input r (a ++ b) 1)
              (c ++ d)
              2)
            (e ++ f)
            3)
          []
          4
          (process_fic_input 3 f (
            process_fic_input 2
              (d ++ e)
              (process_fic_input 1 (b ++ c) (process_fic_input 0 a r.decoder))))
  unfolding process_block
  process_block_frame r a b c d e f hr hs hs' =
      let start : Holds (record r { index = 0; fic_idx = 0 }) [] 0 r.decoder = record {
        sized = hr;
        count = refl;
        stored = refl;
        idx = refl;
        state = refl;
      } in
      let one = collect_two a b _ [] 0 _ (omega arith) (omega arith) (omega arith) start in
      let two = collect_two c d _ b 1 _ (omega arith) (omega arith) (omega arith) one in
      let three = collect_bits_full e _ d 2 _ (omega arith) (omega arith) two in
      let s1 = process_fic_input 1 (b ++ c) (process_fic_input 0 a r.decoder) in
      let s3 = process_fic_input 3 f (process_fic_input 2 (d ++ e) s1) in
      subst (λ x. Holds x [] 4 s3) (sym (collect_bits-append e f _))
        (collect_bits_full f _ [] 3 _ (omega arith) (omega arith) three)
