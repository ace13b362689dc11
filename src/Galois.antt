-- ===== src/Galois.antt =====
-- base/backend/galois.cpp: arithmetic in a field of 2^mm elements by tables. An element is a number
-- of mm bits (poly form) or its logarithm (power form), where codeLength stands for that of 0.
pub mod Shifts
pub mod Field
use Prim.Native.Nat.{bit_xor}
use dabstar.Prelude.{
  ℕ, zero, suc, ◌+◌, ◌-◌, ◌*◌, ◌/◌, ◌%◌, ◌^◌, List, ◌==◌, ltb, leb, ◌||◌, if◌then◌else◌, get_or,
  set, replicate,
}

pub record Galois : Type 0 where
  pub mm : ℕ
  pub code_length : ℕ
  pub d_q : ℕ
  pub alpha_to : List ℕ
  pub index_of : List ℕ

-- `sr` after one round of the constructor's loop: the bit that the shift moves to 2^mm asks for the
-- field's polynomial.
unfoldable pub next_power : ℕ → ℕ → ℕ → ℕ
next_power mm gfpoly sr =
    let shifted = sr * 2 % 2 ^ 16 in
    (if shifted / 2 ^ mm % 2 == 1 then bit_xor shifted gfpoly else shifted) % 2 ^ mm

-- The loop, with the rounds left, `i` and `sr`.
unfoldable pub fill_tables : ℕ → ℕ → ℕ → ℕ → Galois → Galois
unfolding next_power
fill_tables gfpoly zero i sr g = g
fill_tables gfpoly (suc n) i sr g =
    fill_tables gfpoly n (i + 1) (next_power g.mm gfpoly sr)
      (record g { index_of = set g.index_of sr i; alpha_to = set g.alpha_to i sr })

unfoldable pub new_galois : ℕ → ℕ → Galois
unfolding fill_tables
new_galois symsize gfpoly =
    let code_length = 2 ^ symsize - 1 in
    fill_tables gfpoly code_length 0 1 (record {
      mm = symsize;
      code_length = code_length;
      d_q = 2 ^ symsize;
      alpha_to = replicate (code_length + 1) 0;
      index_of = set (replicate (code_length + 1) 0) 0 code_length;
    })

-- The loop of modnn; each round makes `x` smaller.
unfoldable pub modnn_loop : Galois → ℕ → ℕ → ℕ
modnn_loop g zero x = x
modnn_loop g (suc fuel) x =
    let y = x - g.code_length in
    let rest = modnn_loop g fuel (y / 2 ^ g.mm + y % 2 ^ g.mm) in
    if ltb x g.code_length then x else rest

unfoldable pub modnn : Galois → ℕ → ℕ
unfolding modnn_loop
modnn g x = modnn_loop g x x

abbrev pub add_poly : ℕ → ℕ → ℕ
add_poly a b = bit_xor a b

unfoldable pub poly2power : Galois → ℕ → ℕ
poly2power g a = get_or g.index_of a 0

unfoldable pub power2poly : Galois → ℕ → ℕ
power2poly g a = get_or g.alpha_to a 0

unfoldable pub add_power : Galois → ℕ → ℕ → ℕ
unfolding poly2power power2poly
add_power g a b = poly2power g (bit_xor (power2poly g a) (power2poly g b))

unfoldable pub multiply_power : Galois → ℕ → ℕ → ℕ
unfolding modnn
multiply_power g a b = modnn g (a + b)

unfoldable pub multiply_poly : Galois → ℕ → ℕ → ℕ
unfolding power2poly multiply_power poly2power
multiply_poly g a b =
    if a == 0 || b == 0
    then 0
    else power2poly g (multiply_power g (poly2power g a) (poly2power g b))

unfoldable pub divide_power : Galois → ℕ → ℕ → ℕ
unfolding modnn
divide_power g a b = modnn g (g.d_q - 1 + a - b)

unfoldable pub divide_poly : Galois → ℕ → ℕ → ℕ
unfolding power2poly divide_power poly2power
divide_poly g a b =
    if a == 0 then 0 else power2poly g (divide_power g (poly2power g a) (poly2power g b))

unfoldable pub inverse_power : Galois → ℕ → ℕ
inverse_power g a = g.d_q - 1 - a

unfoldable pub inverse_poly : Galois → ℕ → ℕ
unfolding power2poly inverse_power poly2power
inverse_poly g a = power2poly g (inverse_power g (poly2power g a))

unfoldable pub pow_power : Galois → ℕ → ℕ → ℕ
pow_power g a n = if a == 0 then 0 else a * n % (g.d_q - 1)

unfoldable pub pow_poly : Galois → ℕ → ℕ → ℕ
unfolding power2poly pow_power poly2power
pow_poly g a n = power2poly g (pow_power g (poly2power g a) n)

-- The field of the Reed-Solomon code of DAB+: 8 bits and the polynomial 0435.
unfoldable pub dab_galois : Galois
unfolding new_galois
dab_galois = new_galois 8 0x11D
