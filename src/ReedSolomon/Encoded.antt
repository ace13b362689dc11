-- ===== src/ReedSolomon/Encoded.antt =====
-- What the encoder makes has no syndromes: the parity bytes evaluate, at each root, like the message.
use Prim.Native.Nat.{bit_xor}
use dabstar.Prelude.{
  ℕ, ◌+◌, ◌*◌, ◌%◌, ◌<◌, ◌≡◌, ◌≢◌, refl, sym, ap, ◌∙◌, Bool, true, false, List, [], ◌∷◌, ◌++◌, map,
  length, All, drop, get_or, ◌==◌, passes_from, passes_below, ==_iff, length-append, arith,
}
use mathlib.Core.Path.{ap₂, subst}
use native.Mathlib.Decide.{ℕ_discrete}
use dabstar.Xor.{
  zero-xor, xor_zero, xor_comm, xor_assoc, xor-lt, IsSymbol, add_lists, add_lists-IsSymbol,
  length-add_lists,
}
use dabstar.Galois.{dab_galois, poly2power, power2poly, multiply_power}
use dabstar.Galois.Shifts.{
  shifts, shifts-xor, shifts-lt, shifts-zero, shifts-add, shifts-power2poly, multiply_power-shifts,
  poly2power-symbols, poly2power_zero, times_alpha,
}
use dabstar.ReedSolomon.{mix_feedback, encode_step, encode_loop}
use dabstar.ReedSolomon.Dab.{dab_parameters}
use dabstar.ReedSolomon.Horner.{
  horner, shifts_comm, horner-lt, horner-append, horner-add_lists, horner_start, horner-shifts,
}

-- The generator in power form below its leading coefficient, highest first.
abbrev powers : List ℕ
powers = 251 ∷ 67 ∷ 46 ∷ 61 ∷ 118 ∷ 70 ∷ 64 ∷ 94 ∷ 32 ∷ 45 ∷ []

abbrev products : ℕ → List ℕ → List ℕ
products f ks = map (λ k. shifts k f) ks

products-IsSymbol : (f : ℕ) (ks : List ℕ) → f < 256 → All IsSymbol (products f ks)
products-IsSymbol f [] h = tt
products-IsSymbol f (k ∷ ks) h = (shifts-lt k f h, products-IsSymbol f ks h)

-- Every symbol that is not 0 is a shift of 1.
one_shifted : (f : ℕ) → f < 256 → f ≢ 0 → shifts (poly2power dab_galois f) 1 ≡ f
unfolding power2poly dab_galois
one_shifted f h n =
    let (below, back) = poly2power-symbols f h n in
    shifts-power2poly (poly2power dab_galois f) 0 (omega arith)
    ∙ ap (power2poly dab_galois) (
        let e : (0 + poly2power dab_galois f) % 255 ≡ poly2power dab_galois f =
          omega (arith, below) in
        e)
    ∙ back

-- The generator without its leading coefficient evaluates like that coefficient: the powers of alpha
-- from 0 to 9 are its roots.
root_test : ℕ → Bool
root_test r = horner r 0 (products 1 powers) == shifts (10 * r) 1

roots : passes_from root_test 0 10 ≡ true
unfolding passes_from root_test horner shifts times_alpha
roots = refl

products-shifted : (i : ℕ) (ks : List ℕ) → products (shifts i 1) ks ≡ map (shifts i) (products 1 ks)
products-shifted i [] = refl
products-shifted i (k ∷ ks) = ap₂ ◌∷◌ (shifts_comm k i 1) (products-shifted i ks)

zero-horner : (r : ℕ) (ks : List ℕ) → horner r 0 (products 0 ks) ≡ 0
unfolding horner
zero-horner r [] = refl
zero-horner r (k ∷ ks) =
    ap (λ v. horner r v (products 0 ks)) (ap₂ bit_xor (shifts-zero k) (shifts-zero r) ∙ zero-xor 0)
    ∙ zero-horner r ks

products-horner : (r f : ℕ) → r < 10 → f < 256 → horner r 0 (products f powers) ≡ shifts (10 * r) f
unfolding root_test
products-horner r f hr hf = elim (ℕ_discrete f 0) [
  | yes e ↦ rw e (zero-horner r powers ∙ sym (shifts-zero (10 * r)))
  | no n ↦
      let i = poly2power dab_galois f in
      let one = one_shifted f hf n in
      ap (λ f. horner r 0 (products f powers)) (sym one)
      ∙ ap (horner r 0) (products-shifted i powers)
      ∙ ap (λ s. horner r s (map (shifts i) (products 1 powers))) (sym (shifts-zero i))
      ∙ horner-shifts r i 0 (products 1 powers) (omega arith)
          (products-IsSymbol 1 powers (omega arith))
      ∙ ap (shifts i) ((==_iff _ _).0 (passes_below root_test 10 r roots hr))
      ∙ shifts_comm i (10 * r) 1
      ∙ ap (shifts (10 * r)) one
]

-- One round of the encoder, for any feedback.
encode_step-add :
    (bb : List ℕ) (d : ℕ)
    → length bb ≡ 10
    → All IsSymbol bb
    → d < 256
    → encode_step dab_parameters bb d
      ≡ add_lists (drop 1 bb ++ (0 ∷ [])) (products (bit_xor d (get_or bb 0 0)) powers)
unfolding encode_step mix_feedback add_lists
encode_step-add (b0 ∷ b1 ∷ b2 ∷ b3 ∷ b4 ∷ b5 ∷ b6 ∷ b7 ∷ b8 ∷ b9 ∷ []) d n a hd =
    let f = bit_xor d b0 in
    let hf = xor-lt 8 d b0 hd a.0 in
    elim (ℕ_discrete f 0) [
      | yes e ↦
          let test : (poly2power dab_galois f == 255) ≡ true =
            (==_iff _ _).1 (ap (poly2power dab_galois) e ∙ poly2power_zero) in
          rw test (simp (e, shifts-zero, xor_zero))
      | no nz ↦
          let m : (k : ℕ)
              → power2poly dab_galois (multiply_power dab_galois (poly2power dab_galois f) k)
                ≡ shifts k f =
            λ k. multiply_power-shifts f k hf nz in
          let below = (poly2power-symbols f hf nz).0 in
          let test : (poly2power dab_galois f == 255) ≡ false = ground (arith, below) in
          rw
            (
              test,
              m 251,
              m 67,
              m 46,
              m 61,
              m 118,
              m 70,
              m 64,
              m 94,
              m 32,
              m 45,
              zero-xor (shifts 45 f),
            )
            refl
    ]
encode_step-add _ d n a hd = absurd (omega arith)

All-snoc_zero : (xs : List ℕ) → All IsSymbol xs → All IsSymbol (xs ++ (0 ∷ []))
All-snoc_zero [] a = (omega arith, tt)
All-snoc_zero (x ∷ xs) a = (a.0, All-snoc_zero xs a.1)

-- What the loop keeps: ten symbols, whose value at root `r` is that of the message `s` so far, moved
-- up by the ten places of the parity.
pub record Parity (r s : ℕ) (bb : List ℕ) : Type 0 where
  pub ten : length bb ≡ 10
  pub symbols : All IsSymbol bb
  pub start : s < 256
  pub same : horner r 0 bb ≡ shifts (10 * r) s

shifted_value :
    (r : ℕ) (b : ℕ) (tail : List ℕ)
    → length tail ≡ 9
    → b < 256
    → All IsSymbol tail
    → shifts r (horner r 0 (b ∷ tail)) ≡ bit_xor (shifts (10 * r) b) (horner r 0 (tail ++ (0 ∷ [])))
unfolding horner
shifted_value r b tail n hb a =
    let first : bit_xor b (shifts r 0) ≡ b = ap (bit_xor b) (shifts-zero r) ∙ xor_zero b in
    let count : r * length tail + r ≡ 10 * r = ap (λ (k : ℕ). r * k + r) n ∙ omega arith in
    let rest = horner r 0 tail in
    ap (λ v. shifts r (horner r v tail)) first
    ∙ ap (shifts r) (horner_start r b tail hb a)
    ∙ shifts-xor r (shifts (r * length tail) b) rest (shifts-lt (r * length tail) b hb)
        (horner-lt r 0 tail (omega arith) a)
    ∙ ap₂ bit_xor (sym (shifts-add (r * length tail) r b) ∙ ap (λ k. shifts k b) count)
        (sym (horner-append r 0 tail (0 ∷ []) ∙ zero-xor (shifts r rest)))

encode_step-Parity :
    (r s d : ℕ) (bb : List ℕ)
    → r < 10
    → d < 256
    → Parity r s bb
    → Parity r (bit_xor d (shifts r s)) (encode_step dab_parameters bb d)
encode_step-Parity r s d [] hr hd p = absurd (omega (arith, p.ten))
encode_step-Parity r s d (b ∷ tail) hr hd p =
    let f = bit_xor d b in
    let hf = xor-lt 8 d b hd p.symbols.0 in
    let nine : length tail ≡ 9 = omega (arith, p.ten) in
    let moved = tail ++ (0 ∷ []) in
    let made = products f powers in
    let lengths : length moved ≡ length made = omega (arith, length-append tail (0 ∷ []), nine) in
    let moved_symbols = All-snoc_zero tail p.symbols.1 in
    let made_symbols = products-IsSymbol f powers hf in
    let step = encode_step-add (b ∷ tail) d p.ten p.symbols hd in
    let x = shifts (10 * r) b in
    let rest = horner r 0 moved in
    let value : horner r 0 (add_lists moved made) ≡ shifts (10 * r) (bit_xor d (shifts r s)) =
      ap (λ v. horner r v (add_lists moved made)) (sym (zero-xor 0))
      ∙ horner-add_lists r 0 0 moved made (omega arith) (omega arith) moved_symbols made_symbols
          lengths
      ∙ ap (bit_xor rest) (products-horner r f hr hf ∙ shifts-xor (10 * r) d b hd p.symbols.0)
      ∙ cancel rest (shifts (10 * r) d) x
      ∙ ap (bit_xor (shifts (10 * r) d)) (
          sym (shifted_value r b tail nine p.symbols.0 p.symbols.1)
          ∙ ap (shifts r) p.same
          ∙ shifts_comm r (10 * r) s)
      ∙ sym (shifts-xor (10 * r) d (shifts r s) hd (shifts-lt r s p.start)) in
    subst (Parity r (bit_xor d (shifts r s))) (sym step) (record {
      ten = length-add_lists moved made lengths ∙ omega (arith, length-append tail (0 ∷ []), nine);
      symbols = add_lists-IsSymbol moved made moved_symbols made_symbols;
      start = xor-lt 8 d (shifts r s) hd (shifts-lt r s p.start);
      same = value;
    })
  where
    cancel : (w y x : ℕ) → bit_xor w (bit_xor y x) ≡ bit_xor y (bit_xor x w)
    cancel w y x = xor_comm w (bit_xor y x) ∙ xor_assoc y x w

pub encode_loop-Parity :
    (r s : ℕ) (ds bb : List ℕ)
    → r < 10
    → All IsSymbol ds
    → Parity r s bb
    → Parity r (horner r s ds) (encode_loop dab_parameters bb ds)
unfolding encode_loop horner
encode_loop-Parity r s [] bb hr a p = p
encode_loop-Parity r s (d ∷ ds) bb hr a p =
    encode_loop-Parity r (bit_xor d (shifts r s)) ds (encode_step dab_parameters bb d) hr a.1
      (encode_step-Parity r s d bb hr a.0 p)
