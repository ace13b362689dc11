-- ===== src/Galois/Shifts.antt =====
-- The tables of the field of DAB+: multiplication by a power of alpha is a number of shifts, and
-- shifts go through the exclusive or.
use Prim.Native.Nat.{bit_xor}
use dabstar.Prelude.{
  ℕ, zero, suc, ◌+◌, ◌-◌, ◌/◌, ◌%◌, ◌≤◌, ◌<◌, ◌≡◌, ◌≢◌, refl, sym, ap, ◌∙◌, Bool, true, ◌==◌, ltb,
  ◌&&◌, not, if◌then◌else◌, passes_from, passes_below, ==_iff, Bool-cases, inl, inr, arith,
}
use dabstar.Galois.{
  next_power, modnn_loop, modnn, poly2power, power2poly, multiply_power, dab_galois,
}

-- Multiplication by alpha, and by a power of it.
unfoldable pub times_alpha : ℕ → ℕ
unfolding next_power
times_alpha a = next_power 8 0x11D a

unfoldable pub shifts : ℕ → ℕ → ℕ
shifts zero a = a
shifts (suc k) a = shifts k (times_alpha a)

additive_test : ℕ → ℕ → Bool
unfolding times_alpha
additive_test a b = times_alpha (bit_xor a b) == bit_xor (times_alpha a) (times_alpha b)

additive_row : ℕ → Bool
unfolding passes_from additive_test
additive_row a = passes_from (additive_test a) 0 256

additive_table : passes_from additive_row 0 256 ≡ true
unfolding passes_from additive_row
additive_table = refl

pub times_alpha-xor :
    (a b : ℕ)
    → a < 256
    → b < 256
    → times_alpha (bit_xor a b) ≡ bit_xor (times_alpha a) (times_alpha b)
unfolding additive_row additive_test
times_alpha-xor a b h k =
    (==_iff _ _).0
      (passes_below (additive_test a) 256 b (passes_below additive_row 256 a additive_table h) k)

pub times_alpha-lt : (a : ℕ) → times_alpha a < 256
unfolding times_alpha next_power
times_alpha-lt a = omega arith

pub shifts-lt : (k a : ℕ) → a < 256 → shifts k a < 256
unfolding shifts
shifts-lt zero a h = h
shifts-lt (suc k) a h = shifts-lt k (times_alpha a) (times_alpha-lt a)

pub shifts-xor :
    (k a b : ℕ) → a < 256 → b < 256 → shifts k (bit_xor a b) ≡ bit_xor (shifts k a) (shifts k b)
unfolding shifts
shifts-xor zero a b h l = refl
shifts-xor (suc k) a b h l =
    ap (shifts k) (times_alpha-xor a b h l)
    ∙ shifts-xor k (times_alpha a) (times_alpha b) (times_alpha-lt a) (times_alpha-lt b)

pub shifts-add : (k m a : ℕ) → shifts (k + m) a ≡ shifts m (shifts k a)
unfolding shifts
shifts-add zero m a = ap (λ n. shifts n a) (let e : 0 + m ≡ m = omega arith in e)
shifts-add (suc k) m a =
    ap (λ n. shifts n a) (let e : suc k + m ≡ suc (k + m) = omega arith in e)
    ∙ shifts-add k m (times_alpha a)

times_alpha-zero : times_alpha 0 ≡ 0
unfolding times_alpha next_power
times_alpha-zero = refl

pub shifts-zero : (k : ℕ) → shifts k 0 ≡ 0
unfolding shifts
shifts-zero zero = refl
shifts-zero (suc k) = ap (shifts k) times_alpha-zero ∙ shifts-zero k

-- The tables, by evaluation: the powers, and the logarithm of each symbol that is not 0.
power_test : ℕ → Bool
power_test i =
    (poly2power dab_galois (power2poly dab_galois i) == i)
    && (times_alpha (power2poly dab_galois i) == power2poly dab_galois ((i + 1) % 255))
    && not (power2poly dab_galois i == 0)
    && ltb (power2poly dab_galois i) 256

power_table : passes_from power_test 0 255 ≡ true
unfolding passes_from power_test poly2power power2poly times_alpha dab_galois
power_table = refl

symbol_test : ℕ → Bool
symbol_test a =
    if a == 0
    then poly2power dab_galois a == 255
    else ltb (poly2power dab_galois a) 255 && (power2poly dab_galois (poly2power dab_galois a) == a)

symbol_table : passes_from symbol_test 0 256 ≡ true
unfolding passes_from symbol_test poly2power power2poly dab_galois
symbol_table = refl

pub poly2power_zero : poly2power dab_galois 0 ≡ 255
unfolding poly2power dab_galois
poly2power_zero = refl

pub code_length_dab : dab_galois.code_length ≡ 255
unfolding dab_galois
code_length_dab = refl

pub mm_dab : dab_galois.mm ≡ 8
unfolding dab_galois
mm_dab = refl

pub d_q_dab : dab_galois.d_q ≡ 256
unfolding dab_galois
d_q_dab = refl

pub power2poly-powers :
    (i : ℕ)
    → i < 255
    → (poly2power dab_galois (power2poly dab_galois i) ≡ i)
      × (times_alpha (power2poly dab_galois i) ≡ power2poly dab_galois ((i + 1) % 255))
      × (power2poly dab_galois i ≢ 0)
      × (power2poly dab_galois i < 256)
unfolding power_test
power2poly-powers i h =
    let t = passes_below power_test 255 i power_table h in
    (ground (arith, t), ground (arith, t), (λ e. ground (arith, t, e)), ground (arith, t))

pub poly2power-symbols :
    (a : ℕ)
    → a < 256
    → a ≢ 0
    → (poly2power dab_galois a < 255) × (power2poly dab_galois (poly2power dab_galois a) ≡ a)
unfolding symbol_test
poly2power-symbols a h n =
    let t = passes_below symbol_test 256 a symbol_table h in
    (ground (arith, t, n), ground (arith, t, n))

modnn_remainder : (fuel x : ℕ) → x ≤ fuel → modnn_loop dab_galois fuel x ≡ x % 255
unfolding modnn_loop
modnn_remainder zero x h = omega arith
modnn_remainder (suc fuel) x h = elim (Bool-cases (ltb x 255)) [
  | inl small ↦ rw (code_length_dab, mm_dab, small) (ground arith)
  | inr big ↦
      rw (code_length_dab, mm_dab, big)
        (let less : 255 ≤ x = ground arith in
          modnn_remainder fuel ((x - 255) / 256 + (x - 255) % 256) (omega arith) ∙ omega arith)
]

pub modnn-mod : (x : ℕ) → modnn dab_galois x ≡ x % 255
unfolding modnn
modnn-mod x = modnn_remainder x x (omega arith)

pub shifts-power2poly :
    (k i : ℕ) → i < 255 → shifts k (power2poly dab_galois i) ≡ power2poly dab_galois ((i + k) % 255)
unfolding shifts
shifts-power2poly zero i h = ap (power2poly dab_galois) (omega arith)
shifts-power2poly (suc k) i h =
    ap (shifts k) ((power2poly-powers i h).1)
    ∙ shifts-power2poly k ((i + 1) % 255) (omega arith)
    ∙ ap (power2poly dab_galois) (omega arith)

-- The product of a symbol with a power of alpha.
pub multiply_power-shifts :
    (a k : ℕ)
    → a < 256
    → a ≢ 0
    → power2poly dab_galois (multiply_power dab_galois (poly2power dab_galois a) k) ≡ shifts k a
unfolding multiply_power
multiply_power-shifts a k h n =
    let (below, back) = poly2power-symbols a h n in
    ap (power2poly dab_galois) (modnn-mod (poly2power dab_galois a + k))
    ∙ sym (shifts-power2poly k (poly2power dab_galois a) below)
    ∙ ap (shifts k) back
