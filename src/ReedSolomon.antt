-- ===== src/ReedSolomon.antt =====
-- base/backend/reed_solomon.cpp: the constructor, the encoder, and the decoder's frame. Symbols have
-- at most 8 bits, so that a `u8` holds one.
pub mod Decoder
pub mod Horner
pub mod Encoded
pub mod Dab
pub mod RoundTrip
use Prim.Native.Nat.{bit_xor}
use dabstar.Prelude.{
  ℕ, zero, suc, ◌+◌, ◌-◌, ◌*◌, ◌/◌, ◌%◌, ◌^◌, Bool, true, false, List, [], ◌∷◌, ◌++◌, ◌==◌, ltb,
  leb, ◌||◌, if◌then◌else◌, get_or, set, take, drop, replicate, length,
}
use dabstar.Galois.{Galois, new_galois, add_poly, poly2power, power2poly, multiply_power, pow_power}

pub record ReedSolomon : Type 0 where
  pub galois : Galois
  pub code_length : ℕ
  pub generator : List ℕ
  pub nroots : ℕ
  pub fcr : ℕ
  pub prim : ℕ
  pub iprim : ℕ

-- The loop that looks for `iprim`: a multiple of `prim` among 1, 1 + codeLength, ... is met within
-- `prim` rounds, if there is one.
unfoldable pub iprim_loop : ℕ → ℕ → ℕ → ℕ → ℕ
iprim_loop zero prim code_length iprim = iprim
iprim_loop (suc fuel) prim code_length iprim =
    let rest = iprim_loop fuel prim code_length (iprim + code_length) in
    if iprim % prim == 0 then iprim else rest

-- The constructor's inner loop, from `j` down to 1.
unfoldable pub generator_inner : Galois → ℕ → ℕ → List ℕ → List ℕ
generator_inner g root zero generator = generator
generator_inner g root (suc j) generator =
    let before = get_or generator j 0 in
    let here = get_or generator (suc j) 0 in
    generator_inner g root j (
      set generator (suc j) (
        if here == 0
        then before
        else add_poly before (power2poly g (multiply_power g (poly2power g here) root))))

-- The outer loop, with the rounds left, `i` and `root`.
unfoldable pub generator_loop : Galois → ℕ → ℕ → ℕ → List ℕ → List ℕ
unfolding generator_inner
generator_loop g zero i root generator = generator
generator_loop g (suc n) i root generator =
    let mixed = generator_inner g root i (set generator (i + 1) 1) in
    generator_loop g n (i + 1) (root + 1)
      (set mixed 0 (power2poly g (multiply_power g root (poly2power g (get_or mixed 0 0)))))

-- The last loop turns the coefficients into power form.
abbrev pub to_powers : Galois → List ℕ → List ℕ
to_powers g [] = []
to_powers g (c ∷ cs) = poly2power g c ∷ to_powers g cs

unfoldable pub new_reed_solomon : ℕ → ℕ → ℕ → ℕ → ℕ → ReedSolomon
unfolding iprim_loop generator_loop
new_reed_solomon symsize gfpoly fcr prim nroots =
    let g = new_galois symsize gfpoly in
    let code_length = 2 ^ symsize - 1 in
    record {
      galois = g;
      code_length = code_length;
      generator =
          to_powers g (generator_loop g nroots 0 (fcr * prim) (set (replicate (nroots + 1) 0) 0 1));
      nroots = nroots;
      fcr = fcr;
      prim = prim;
      iprim = iprim_loop prim prim code_length 1 / prim;
    }

-- The loop over `j` of encode_rs, on the parity bytes from `j` on.
unfoldable pub mix_feedback : ReedSolomon → ℕ → ℕ → List ℕ → List ℕ
mix_feedback r feedback j [] = []
mix_feedback r feedback j (b ∷ bb) =
    add_poly b
      (power2poly r.galois (multiply_power r.galois feedback (get_or r.generator (r.nroots - j) 0)))
    ∷ mix_feedback r feedback (j + 1) bb

-- One round of encode_rs: the feedback, the loop, the shift and the last parity byte.
unfoldable pub encode_step : ReedSolomon → List ℕ → ℕ → List ℕ
unfolding mix_feedback
encode_step r bb d =
    let feedback = poly2power r.galois (add_poly d (get_or bb 0 0)) in
    if feedback == r.code_length
    then drop 1 bb ++ (0 ∷ [])
    else mix_feedback r feedback 1 (drop 1 bb)
      ++ (power2poly r.galois (multiply_power r.galois feedback (get_or r.generator 0 0)) ∷ [])

unfoldable pub encode_loop : ReedSolomon → List ℕ → List ℕ → List ℕ
unfolding encode_step
encode_loop r bb [] = bb
encode_loop r bb (d ∷ ds) = encode_loop r (encode_step r bb d) ds

unfoldable pub encode_rs : ReedSolomon → List ℕ → List ℕ
unfolding encode_loop
encode_rs r symbols = encode_loop r (replicate r.nroots 0) (take (r.code_length - r.nroots) symbols)

-- `rf` of enc and dec: a shortened block, filled up with zeros in front.
abbrev pub fill_up : ReedSolomon → ℕ → List ℕ → List ℕ
fill_up r cutlen block = replicate cutlen 0 ++ take (r.code_length - cutlen) block

-- The message part of `rf`, without the zeros.
abbrev pub message_part : ReedSolomon → ℕ → List ℕ → List ℕ
message_part r cutlen rf = take (r.code_length - r.nroots - cutlen) (drop cutlen rf)

unfoldable pub enc : ReedSolomon → List ℕ → ℕ → List ℕ
unfolding encode_rs
enc r block cutlen = let rf = fill_up r cutlen block in message_part r cutlen rf ++ encode_rs r rf

-- One step of Horner's rule at a root.
unfoldable pub syndrome_step : ReedSolomon → ℕ → ℕ → ℕ → ℕ
syndrome_step r root syn d =
    let uu1 = pow_power r.galois (multiply_power r.galois r.fcr root) r.prim in
    if syn == 0
    then d
    else add_poly d (power2poly r.galois (multiply_power r.galois (poly2power r.galois syn) uu1))

unfoldable pub syndrome_loop : ReedSolomon → ℕ → ℕ → List ℕ → ℕ
unfolding syndrome_step
syndrome_loop r root syn [] = syn
syndrome_loop r root syn (d ∷ ds) = syndrome_loop r root (syndrome_step r root syn d) ds

unfoldable pub get_syndrome : ReedSolomon → List ℕ → ℕ → ℕ
unfolding syndrome_loop
get_syndrome r symbols root = syndrome_loop r root (get_or symbols 0 0) (drop 1 symbols)

-- The syndromes from root `i` on, with the roots left.
unfoldable pub syndromes_from : ReedSolomon → List ℕ → ℕ → ℕ → List ℕ
unfolding get_syndrome
syndromes_from r symbols zero i = []
syndromes_from r symbols (suc n) i = get_syndrome r symbols i ∷ syndromes_from r symbols n (i + 1)

-- `syn_error == 0`
abbrev pub all_zero : List ℕ → Bool
all_zero [] = true
all_zero (s ∷ ss) = if s == 0 then all_zero ss else false

unfoldable pub compute_syndromes : ReedSolomon → List ℕ → List ℕ × Bool
unfolding syndromes_from
compute_syndromes r symbols =
    let syndromes = syndromes_from r symbols r.nroots 0 in (syndromes, all_zero syndromes)
