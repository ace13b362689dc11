-- ===== src/Backend/Dispersal/Sequence.antt =====
-- The bits of the energy dispersal are those of the polynomial x^9 + x^5 + 1 from nine ones.
use dabstar.Prelude.{
  ℕ, zero, suc, ◌+◌, ◌*◌, ◌<◌, ◌≡◌, refl, sym, ap, ◌∙◌, Bool, true, false, List, [], ◌∷◌, get_or,
  length, length-set, arith,
}
use mathlib.Core.Path.{ap₂}
use dabstar.Backend.Dispersal.{
  xor, shift, next_bit, next_register, disperse_bits, disperse_vector, fic_prbs, ones, descramble,
}

-- The register after `k` rounds.
advance : ℕ → List Bool → List Bool
advance zero sr = sr
advance (suc k) sr = advance k (next_register sr)

advance-add : (i k : ℕ) (sr : List Bool) → advance (i + k) sr ≡ advance i (advance k sr)
unfolding advance
advance-add i zero sr = let e : i + 0 ≡ i = omega arith in ap (λ n. advance n sr) e
advance-add i (suc k) sr =
    let e : i + suc k ≡ suc (i + k) = omega arith in
    ap (λ n. advance n sr) e ∙ advance-add i k (next_register sr)

get_or-disperse_bits :
    (n i : ℕ) (sr : List Bool)
    → i < n
    → get_or (disperse_bits n sr) i false ≡ next_bit (advance i sr)
unfolding disperse_bits advance
get_or-disperse_bits zero i sr h = absurd (omega arith)
get_or-disperse_bits (suc n) zero sr h = refl
get_or-disperse_bits (suc n) (suc i) sr h =
    get_or-disperse_bits n i (next_register sr) (omega arith)

length-shift : (j : ℕ) (sr : List Bool) → length (shift j sr) ≡ length sr
unfolding shift
length-shift zero sr = refl
length-shift (suc j) sr = length-shift j _ ∙ length-set sr (suc j) (get_or sr j false)

length-advance : (k : ℕ) (sr : List Bool) → length (advance k sr) ≡ length sr
unfolding advance next_register
length-advance zero sr = refl
length-advance (suc k) sr =
    length-advance k (next_register sr) ∙ length-set (shift 8 sr) 0 _ ∙ length-shift 8 sr

-- From any register of nine bits, a bit is the sum of those nine and five rounds before it.
next_bit-recurrence :
    (sr : List Bool)
    → length sr ≡ 9
    → next_bit (advance 9 sr) ≡ xor (next_bit sr) (next_bit (advance 4 sr))
unfolding advance next_register
next_bit-recurrence (a ∷ b ∷ c ∷ d ∷ e ∷ f ∷ g ∷ h ∷ j ∷ []) n = refl
next_bit-recurrence _ n = absurd (omega arith)

-- Every bit of the dispersal vector from the tenth on is the sum of those nine and five places
-- before it, which is the polynomial x^9 + x^5 + 1.
pub disperse_vector-recurrence :
    (bit_rate i : ℕ)
    → i + 9 < 24 * bit_rate
    → get_or (disperse_vector bit_rate) (i + 9) false
      ≡ xor
          (get_or (disperse_vector bit_rate) i false)
          (get_or (disperse_vector bit_rate) (i + 4) false)
unfolding disperse_vector
disperse_vector-recurrence bit_rate i h =
    let at : (k : ℕ)
        → k < 24 * bit_rate
        → get_or (disperse_vector bit_rate) k false ≡ next_bit (advance k ones) =
      λ k hk. get_or-disperse_bits (24 * bit_rate) k ones hk in
    let later : (k : ℕ) → advance (i + k) ones ≡ advance k (advance i ones) = λ k.
      let e : i + k ≡ k + i = omega arith in ap (λ n. advance n ones) e ∙ advance-add k i ones in
    at (i + 9) h
    ∙ ap next_bit (later 9)
    ∙ next_bit-recurrence (advance i ones) (length-advance i ones)
    ∙ sym (ap₂ xor (at i (omega arith)) (at (i + 4) (omega arith) ∙ ap next_bit (later 4)))

advance-period : advance 511 ones ≡ ones
unfolding advance next_register xor
advance-period = refl

-- The bits of the dispersal vector repeat after 511 places, as far as the vector reaches.
pub disperse_vector-period :
    (bit_rate i : ℕ)
    → i + 511 < 24 * bit_rate
    → get_or (disperse_vector bit_rate) (i + 511) false ≡ get_or (disperse_vector bit_rate) i false
unfolding disperse_vector
disperse_vector-period bit_rate i h =
    get_or-disperse_bits (24 * bit_rate) (i + 511) ones h
    ∙ ap next_bit (advance-add i 511 ones ∙ ap (advance i) advance-period)
    ∙ sym (get_or-disperse_bits (24 * bit_rate) i ones (omega arith))

-- The fast information channel is dispersed by the same bits as every sub-channel, as far as both
-- vectors reach.
pub fic_prbs-eq-disperse_vector :
    (bit_rate i : ℕ)
    → i < 768
    → i < 24 * bit_rate
    → get_or fic_prbs i false ≡ get_or (disperse_vector bit_rate) i false
unfolding fic_prbs disperse_vector
fic_prbs-eq-disperse_vector bit_rate i h h' =
    get_or-disperse_bits 768 i ones h ∙ sym (get_or-disperse_bits (24 * bit_rate) i ones h')

xor_twice : (x d : Bool) → xor (xor x d) d ≡ x
unfolding xor
xor_twice true true = refl
xor_twice true false = refl
xor_twice false true = refl
xor_twice false false = refl

-- Combining twice with one vector gives back what there was, at any two lengths.
pub descramble_twice : (xs ds : List Bool) → descramble (descramble xs ds) ds ≡ xs
unfolding descramble
descramble_twice [] ds = refl
descramble_twice (x ∷ xs) [] = refl
descramble_twice (x ∷ xs) (d ∷ ds) = ap₂ ◌∷◌ (xor_twice x d) (descramble_twice xs ds)
