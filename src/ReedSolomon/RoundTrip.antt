-- ===== src/ReedSolomon/RoundTrip.antt =====
-- enc and dec of base/backend/reed_solomon.cpp against each other, for the code of DAB+.
use Prim.Native.Nat.{bit_xor}
use dabstar.Prelude.{
  ℕ, zero, suc, ◌+◌, ◌-◌, ◌*◌, ◌≤◌, ◌<◌, ◌≡◌, refl, sym, ap, ◌∙◌, true, false, List, [], ◌∷◌, ◌++◌,
  some, length, All, replicate, take, drop, ◌==◌, length-append, length-replicate, take-append,
  drop-append, take_all, length-take, length-drop, append_assoc, All-append, All-take,
  All-replicate, arith,
}
use mathlib.Core.Path.{ap₂, subst}
use native.Mathlib.Decide.{ℕ_discrete}
use dabstar.Xor.{zero-xor, xor_zero, xor_self, xor-lt, IsSymbol}
use dabstar.Galois.{dab_galois, modnn, multiply_power, pow_power}
use dabstar.Galois.Shifts.{
  shifts, shifts-lt, shifts-zero, multiply_power-shifts, modnn-mod, d_q_dab,
}
use dabstar.ReedSolomon.{
  encode_loop, encode_rs, enc, syndrome_step, syndrome_loop, get_syndrome, syndromes_from,
  compute_syndromes, all_zero,
}
use dabstar.ReedSolomon.Decoder.{decode_rs, dec}
use dabstar.ReedSolomon.Dab.{dab_code, dab_parameters, dab_code_parameters}
use dabstar.ReedSolomon.Horner.{horner, horner-append, horner_start}
use dabstar.ReedSolomon.Encoded.{Parity, encode_loop-Parity}

-- The root `r` is alpha^r.
root_power : (r : ℕ) → r < 10 → pow_power dab_galois (multiply_power dab_galois 0 r) 1 ≡ r
unfolding pow_power multiply_power
root_power r h =
    let same : modnn dab_galois (0 + r) ≡ r = modnn-mod (0 + r) ∙ omega arith in
    rw (same, d_q_dab) (ground arith)

syndrome_step-shifts :
    (r s d : ℕ) → r < 10 → s < 256 → syndrome_step dab_parameters r s d ≡ bit_xor d (shifts r s)
unfolding syndrome_step
syndrome_step-shifts r s d hr hs = elim (ℕ_discrete s 0) [
  | yes e ↦ rw (e, shifts-zero r, xor_zero d) refl
  | no n ↦
      let test : (s == 0) ≡ false = ground arith in
      rw (test, root_power r hr, multiply_power-shifts s r hs n) refl
]

syndrome_loop-horner :
    (r s : ℕ) (ds : List ℕ)
    → r < 10
    → s < 256
    → All IsSymbol ds
    → syndrome_loop dab_parameters r s ds ≡ horner r s ds
unfolding syndrome_loop horner
syndrome_loop-horner r s [] hr hs a = refl
syndrome_loop-horner r s (d ∷ ds) hr hs a =
    ap (λ t. syndrome_loop dab_parameters r t ds) (syndrome_step-shifts r s d hr hs)
    ∙ syndrome_loop-horner r (bit_xor d (shifts r s)) ds hr
        (xor-lt 8 d (shifts r s) a.0 (shifts-lt r s hs)) a.1

-- A syndrome is the value of the block at its root.
get_syndrome-horner :
    (r : ℕ) (ds : List ℕ)
    → r < 10
    → All IsSymbol ds
    → get_syndrome dab_parameters ds r ≡ horner r 0 ds
unfolding get_syndrome syndrome_loop horner
get_syndrome-horner r [] hr a = refl
get_syndrome-horner r (d ∷ ds) hr a =
    syndrome_loop-horner r d ds hr a.0 a.1
    ∙ ap (λ s. horner r s ds) (sym (ap (bit_xor d) (shifts-zero r) ∙ xor_zero d))

horner-replicate : (r n : ℕ) → horner r 0 (replicate n 0) ≡ 0
unfolding horner
horner-replicate r zero = refl
horner-replicate r (suc n) =
    ap (λ s. horner r s (replicate n 0)) (zero-xor (shifts r 0) ∙ shifts-zero r)
    ∙ horner-replicate r n

encode_start-Parity : (r : ℕ) → Parity r 0 (replicate 10 0)
encode_start-Parity r = record {
  ten = refl;
  symbols = All-replicate IsSymbol 10 0 (omega arith);
  start = omega arith;
  same = horner-replicate r 10 ∙ sym (shifts-zero (10 * r));
}

-- The parity bytes of `ds`.
abbrev parity : List ℕ → List ℕ
parity ds = encode_loop dab_parameters (replicate 10 0) ds

parity-Parity :
    (r : ℕ) (ds : List ℕ) → r < 10 → All IsSymbol ds → Parity r (horner r 0 ds) (parity ds)
parity-Parity r ds hr a = encode_loop-Parity r 0 ds (replicate 10 0) hr a (encode_start-Parity r)

codeword-horner :
    (r : ℕ) (ds : List ℕ) → r < 10 → All IsSymbol ds → horner r 0 (ds ++ parity ds) ≡ 0
codeword-horner r ds hr a =
    let p = parity-Parity r ds hr a in
    let s = horner r 0 ds in
    let count : r * length (parity ds) ≡ 10 * r = ap (λ (k : ℕ). r * k) p.ten ∙ omega arith in
    horner-append r 0 ds (parity ds)
    ∙ horner_start r s (parity ds) p.start p.symbols
    ∙ ap₂ bit_xor (ap (λ n. shifts n s) count) p.same
    ∙ xor_self (shifts (10 * r) s)

syndromes_zero :
    (ds : List ℕ) (n i : ℕ)
    → All IsSymbol ds
    → i + n ≤ 10
    → all_zero (syndromes_from dab_parameters (ds ++ parity ds) n i) ≡ true
unfolding syndromes_from
syndromes_zero ds zero i a h = refl
syndromes_zero ds (suc n) i a h =
    let hi : i < 10 = omega arith in
    let p = parity-Parity i ds hi a in
    let symbols = All-append IsSymbol ds (parity ds) a p.symbols in
    let zero_here =
      get_syndrome-horner i (ds ++ parity ds) hi symbols ∙ codeword-horner i ds hi a in
    rw zero_here (syndromes_zero ds n (i + 1) a (omega arith))

decode_codeword :
    (ds : List ℕ)
    → All IsSymbol ds
    → decode_rs dab_parameters (ds ++ parity ds) ≡ (some 0, ds ++ parity ds)
unfolding decode_rs compute_syndromes
decode_codeword ds a = rw (syndromes_zero ds 10 0 a (omega arith)) refl

-- The same for a message with zeros in front and bytes behind.
round_trip :
    (msg pad : List ℕ) (cutlen : ℕ)
    → cutlen ≤ 245
    → length msg ≡ 245 - cutlen
    → length pad ≡ 10
    → All IsSymbol msg
    → dec dab_parameters (enc dab_parameters (msg ++ pad) cutlen) cutlen ≡ (some 0, msg)
unfolding dec enc encode_rs
round_trip msg pad cutlen h n ten a =
    let zeros : List ℕ = replicate cutlen 0 in
    let ds : List ℕ = zeros ++ msg in
    let lz : length {A = ℕ} (replicate cutlen 0) ≡ cutlen = length-replicate cutlen 0 in
    let symbols = All-append IsSymbol zeros msg (All-replicate IsSymbol cutlen 0 (omega arith)) a in
    let p = parity-Parity 0 ds (omega arith) symbols in
    let rf : zeros ++ take (255 - cutlen) (msg ++ pad) ≡ ds ++ pad =
      ap (λ xs. zeros ++ xs)
        (take_all (255 - cutlen) (msg ++ pad) (omega (arith, length-append msg pad)))
      ∙ sym (append_assoc zeros msg pad) in
    let message : (tail : List ℕ) → take (255 - 10 - cutlen) (drop cutlen (ds ++ tail)) ≡ msg =
      λ tail.
        ap (λ xs. take (255 - 10 - cutlen) (drop cutlen xs)) (append_assoc zeros msg tail)
        ∙ ap (take (255 - 10 - cutlen)) (drop-append zeros (msg ++ tail) cutlen (sym lz))
        ∙ take-append msg tail (255 - 10 - cutlen) (omega arith) in
    let plain : take (255 - 10) (ds ++ pad) ≡ ds =
      take-append ds pad (255 - 10) (omega (arith, length-append zeros msg, lz)) in
    let back : zeros ++ take (255 - cutlen) (msg ++ parity ds) ≡ ds ++ parity ds =
      ap (λ xs. zeros ++ xs)
        (take_all (255 - cutlen) (msg ++ parity ds)
          (omega (arith, length-append msg (parity ds), p.ten)))
      ∙ sym (append_assoc zeros msg (parity ds)) in
    rw (rf, message pad, plain, back, decode_codeword ds symbols, message (parity ds)) refl

take-drop : (n : ℕ) (xs : List ℕ) → take n xs ++ drop n xs ≡ xs
take-drop zero xs = refl
take-drop (suc n) [] = refl
take-drop (suc n) (x ∷ xs) = ap (λ ys. x ∷ ys) (take-drop n xs)

-- Any block of bytes that is as long as a block shortened by `cutlen`, at most 245: what `enc` makes
-- of it, `dec` reports without an error and gives back as the bytes that `enc` takes, all but the
-- last ten.
pub dec-enc :
    (block : List ℕ) (cutlen : ℕ)
    → cutlen ≤ 245
    → length block ≡ 255 - cutlen
    → All IsSymbol block
    → dec dab_code (enc dab_code block cutlen) cutlen ≡ (some 0, take (245 - cutlen) block)
dec-enc block cutlen h n a =
    let msg = take (245 - cutlen) block in
    let pad = drop (245 - cutlen) block in
    subst (λ r. dec r (enc r block cutlen) cutlen ≡ (some 0, msg)) (sym dab_code_parameters)
      (subst (λ b. dec dab_parameters (enc dab_parameters b cutlen) cutlen ≡ (some 0, msg))
        (take-drop (245 - cutlen) block)
        (round_trip msg pad cutlen h (length-take (245 - cutlen) block (omega arith))
          (omega (arith, length-drop (245 - cutlen) block))
          (All-take IsSymbol (245 - cutlen) block a)))
