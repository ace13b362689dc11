-- ===== src/Galois/Field.antt =====
-- The laws of the field of DAB+, for all symbols.
use Prim.Native.Nat.{bit_xor}
use dabstar.Prelude.{ℕ, ◌+◌, ◌-◌, ◌%◌, ◌<◌, ◌≡◌, ◌≢◌, refl, sym, ap, ◌∙◌, false, ◌==◌, ◌||◌, arith}
use mathlib.Core.Path.{ap₂}
use native.Mathlib.Decide.{ℕ_discrete}
use dabstar.Xor.{zero-xor, xor-lt}
use dabstar.Galois.{
  dab_galois, poly2power, power2poly, multiply_power, multiply_poly, divide_power, divide_poly,
  inverse_power, inverse_poly, modnn,
}
use dabstar.Galois.Shifts.{
  shifts, shifts-xor, shifts-zero, poly2power-symbols, power2poly-powers, multiply_power-shifts,
  modnn-mod, d_q_dab,
}

abbrev times : ℕ → ℕ → ℕ
times a b = multiply_poly dab_galois a b

abbrev log : ℕ → ℕ
log a = poly2power dab_galois a

-- The product of two symbols that are not 0, by their logarithms.
times-log : (a b : ℕ) → a ≢ 0 → b ≢ 0 → times a b ≡ power2poly dab_galois ((log a + log b) % 255)
unfolding multiply_poly multiply_power
times-log a b na nb =
    let at : (a == 0 || b == 0) ≡ false = ground arith in
    rw at (ap (power2poly dab_galois) (modnn-mod (log a + log b)))

times-zero : (a : ℕ) → (times a 0 ≡ 0) × (times 0 a ≡ 0)
unfolding multiply_poly
times-zero a = (ground arith, ground arith)

-- The product is a symbol, not 0, with the sum of the logarithms.
record Product (a b : ℕ) : Type 0 where
  small : times a b < 256
  nonzero : times a b ≢ 0
  log_sum : log (times a b) ≡ (log a + log b) % 255

product : (a b : ℕ) → a ≢ 0 → b ≢ 0 → Product a b
product a b na nb =
    let (back, _, nz, lt) = power2poly-powers ((log a + log b) % 255) (omega arith) in
    let e = times-log a b na nb in
    record {
      small = omega (arith, lt, e);
      nonzero = λ z. nz (sym e ∙ z);
      log_sum = ap log e ∙ back;
    }

times_comm : (a b : ℕ) → times a b ≡ times b a
times_comm a b = elim (ℕ_discrete a 0) [
  | yes e ↦ rw e ((times-zero b).1 ∙ sym ((times-zero b).0))
  | no na ↦ elim (ℕ_discrete b 0) [
    | yes e ↦ rw e ((times-zero a).0 ∙ sym ((times-zero a).1))
    | no nb ↦
        times-log a b na nb
        ∙ ap (power2poly dab_galois)
            (let e : (log a + log b) % 255 ≡ (log b + log a) % 255 = omega arith in e)
        ∙ sym (times-log b a nb na)
  ]
]

times_assoc_nonzero :
    (a b c : ℕ) → a ≢ 0 → b ≢ 0 → c ≢ 0 → times (times a b) c ≡ times a (times b c)
times_assoc_nonzero a b c na nb nc =
    let ab = product a b na nb in
    let bc = product b c nb nc in
    times-log (times a b) c ab.nonzero nc
    ∙ ap (power2poly dab_galois) (
        let e : (log (times a b) + log c) % 255 ≡ (log a + log (times b c)) % 255 =
          omega (arith, ab.log_sum, bc.log_sum) in
        e)
    ∙ sym (times-log a (times b c) na bc.nonzero)

times_assoc : (a b c : ℕ) → times (times a b) c ≡ times a (times b c)
times_assoc a b c = elim (ℕ_discrete a 0) [
  | yes e ↦
      rw e (
        ap (λ t. times t c) ((times-zero b).1)
        ∙ (times-zero c).1
        ∙ sym ((times-zero (times b c)).1))
  | no na ↦ elim (ℕ_discrete b 0) [
    | yes e ↦ rw e (
        ap (λ t. times t c) ((times-zero a).0)
        ∙ (times-zero c).1
        ∙ sym (ap (times a) ((times-zero c).1) ∙ (times-zero a).0))
    | no nb ↦ elim (ℕ_discrete c 0) [
      | yes e ↦
          rw e
            ((times-zero (times a b)).0 ∙ sym (ap (times a) ((times-zero b).0) ∙ (times-zero a).0))
      | no nc ↦ times_assoc_nonzero a b c na nb nc
    ]
  ]
]

-- A product is a number of shifts of its right factor.
times-shifts : (a b : ℕ) → a ≢ 0 → b < 256 → times a b ≡ shifts (log a) b
unfolding multiply_power
times-shifts a b na hb = elim (ℕ_discrete b 0) [
  | yes e ↦ rw e ((times-zero a).0 ∙ sym (shifts-zero (log a)))
  | no nb ↦
      times_comm a b
      ∙ times-log b a nb na
      ∙ sym (ap (power2poly dab_galois) (modnn-mod (log b + log a)))
      ∙ multiply_power-shifts b (log a) hb nb
]

times-xor :
    (a b c : ℕ) → b < 256 → c < 256 → times a (bit_xor b c) ≡ bit_xor (times a b) (times a c)
times-xor a b c hb hc = elim (ℕ_discrete a 0) [
  | yes e ↦ rw e (
      (times-zero (bit_xor b c)).1
      ∙ sym (ap₂ bit_xor ((times-zero b).1) ((times-zero c).1) ∙ zero-xor 0))
  | no na ↦
      times-shifts a (bit_xor b c) na (xor-lt 8 b c hb hc)
      ∙ shifts-xor (log a) b c hb hc
      ∙ sym (ap₂ bit_xor (times-shifts a b na hb) (times-shifts a c na hc))
]

power2poly_one : power2poly dab_galois 0 ≡ 1
unfolding power2poly dab_galois
power2poly_one = refl

log_one : log 1 ≡ 0
unfolding poly2power dab_galois
log_one = refl

inverse_log : (a : ℕ) → a < 256 → a ≢ 0 → a ≢ 1 → times a (inverse_poly dab_galois a) ≡ 1
unfolding inverse_poly inverse_power
inverse_log a h n one =
    let (below, back) = poly2power-symbols a h n in
    let positive : log a ≢ 0 =
      λ e. one (sym back ∙ ap (power2poly dab_galois) e ∙ power2poly_one) in
    let i : ℕ = 255 - log a in
    let (log_i, _, nz, _) = power2poly-powers i (ground (arith, positive)) in
    ap (λ q. times a (power2poly dab_galois (q - 1 - log a))) d_q_dab
    ∙ (times-log a (power2poly dab_galois i) n nz
        ∙ ap (power2poly dab_galois) (
            let e : (log a + log (power2poly dab_galois i)) % 255 ≡ 0 =
              omega (arith, log_i, below) in
            e)
        ∙ power2poly_one)

inverse_of_one : inverse_poly dab_galois 1 ≡ 0
unfolding inverse_poly inverse_power poly2power power2poly dab_galois
inverse_of_one = refl

divide_back : (a b : ℕ) → a < 256 → b < 256 → b ≢ 0 → times (divide_poly dab_galois a b) b ≡ a
unfolding divide_poly divide_power
divide_back a b ha hb nb = elim (ℕ_discrete a 0) [
  | yes e ↦ rw e ((times-zero b).1)
  | no na ↦
      let (below_a, back_a) = poly2power-symbols a ha na in
      let (below_b, back_b) = poly2power-symbols b hb nb in
      let i : ℕ = (255 + log a - log b) % 255 in
      let (log_i, _, nz, _) = power2poly-powers i (omega arith) in
      let test : (a == 0) ≡ false = ground arith in
      let quotient : power2poly dab_galois (modnn dab_galois (255 + log a - log b))
          ≡ power2poly dab_galois i =
        ap (power2poly dab_galois) (modnn-mod (255 + log a - log b)) in
      rw test (
        ap (λ d. times (power2poly dab_galois (modnn dab_galois (d - 1 + log a - log b))) b) d_q_dab
        ∙ ap (λ q. times q b) quotient
        ∙ times-log (power2poly dab_galois i) b nz nb
        ∙ ap (power2poly dab_galois) (
            let e : (log (power2poly dab_galois i) + log b) % 255 ≡ log a =
              omega (arith, log_i, below_a, below_b) in
            e)
        ∙ back_a)
]

-- For all symbols `a`, `b` and `c` of 8 bits: the product commutes, associates and distributes over
-- the sum; dividing by what is not 0 and multiplying again gives the dividend back; `inverse_poly`
-- gives the inverse of every symbol but 0 and 1, and gives 0 for the symbol 1, whose inverse is 1.
pub multiply_poly_field :
    (a b c : ℕ)
    → a < 256
    → b < 256
    → c < 256
    → (multiply_poly dab_galois a b ≡ multiply_poly dab_galois b a)
      × (multiply_poly dab_galois (multiply_poly dab_galois a b) c
          ≡ multiply_poly dab_galois a (multiply_poly dab_galois b c))
      × (multiply_poly dab_galois a (bit_xor b c)
          ≡ bit_xor (multiply_poly dab_galois a b) (multiply_poly dab_galois a c))
      × (b ≢ 0 → multiply_poly dab_galois (divide_poly dab_galois a b) b ≡ a)
      × (a ≢ 0 → a ≢ 1 → multiply_poly dab_galois a (inverse_poly dab_galois a) ≡ 1)
      × (inverse_poly dab_galois 1 ≡ 0)
multiply_poly_field a b c ha hb hc = (
  times_comm a b,
  times_assoc a b c,
  times-xor a b c hb hc,
  (λ n. divide_back a b ha hb n),
  (λ n one. inverse_log a ha n one),
  inverse_of_one,
)
