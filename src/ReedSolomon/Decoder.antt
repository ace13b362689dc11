-- ===== src/ReedSolomon/Decoder.antt =====
-- The rest of decode_rs: Berlekamp-Massey, the search for the roots, the error values.
use Prim.Native.Nat.{min}
use mathlib.Core.List.{reverse}
use dabstar.Prelude.{
  ℕ, zero, suc, ◌+◌, ◌-◌, ◌*◌, ◌/◌, ◌%◌, List, [], ◌∷◌, ◌++◌, Option, none, some, ◌==◌, ltb, leb,
  ◌&&◌, ◌||◌, not, if◌then◌else◌, get_or, set, take, replicate, map, length,
}
use dabstar.Galois.{
  Galois, add_poly, poly2power, power2poly, multiply_power, multiply_poly, divide_power,
  divide_poly, pow_power,
}
use dabstar.ReedSolomon.{ReedSolomon, compute_syndromes, fill_up, message_part}

-- `Lambda[i] = Lambda[i] + error * Corrector[i]`
unfoldable pub add_correction : Galois → ℕ → List ℕ → List ℕ → List ℕ
add_correction g error (l ∷ lambda) (c ∷ corrector) =
    add_poly l (multiply_poly g error c) ∷ add_correction g error lambda corrector
add_correction g error lambda _ = lambda

-- The new error: the rounds left, and `i`.
unfoldable pub error_loop : Galois → List ℕ → List ℕ → ℕ → ℕ → ℕ → ℕ → ℕ
error_loop g syndromes lambda k zero i error = error
error_loop g syndromes lambda k (suc n) i error =
    error_loop g syndromes lambda k n (i + 1)
      (add_poly error (multiply_poly g (get_or syndromes (k - i) 0) (get_or lambda i 0)))

-- The state of the Berlekamp loop.
pub record Berlekamp : Type 0 where
  pub l : ℕ
  pub lambda : List ℕ
  pub corrector : List ℕ
  pub error : ℕ

-- The body of the loop at `K`.
unfoldable pub berlekamp_step : ReedSolomon → List ℕ → ℕ → Berlekamp → Berlekamp
unfolding add_correction error_loop
berlekamp_step r syndromes k b =
    let lambda = add_correction r.galois b.error b.lambda b.corrector in
    let swap = ltb (2 * b.l) k && not (b.error == 0) in
    let corrector =
      if swap then map (λ o. divide_poly r.galois o b.error) b.lambda else b.corrector in
    record {
      l = if swap then k - b.l else b.l;
      lambda = lambda;
      corrector = 0 ∷ take (r.nroots - 1) corrector;
      error = error_loop r.galois syndromes lambda k k 1 (get_or syndromes k 0);
    }

unfoldable pub berlekamp_loop : ReedSolomon → List ℕ → ℕ → ℕ → Berlekamp → Berlekamp
unfolding berlekamp_step
berlekamp_loop r syndromes zero k b = b
berlekamp_loop r syndromes (suc n) k b =
    berlekamp_loop r syndromes n (k + 1) (berlekamp_step r syndromes k b)

-- The highest index with a coefficient that is not 0, from `i` on; `deg` is the one so far.
unfoldable pub degree_from : List ℕ → ℕ → ℕ → ℕ
degree_from [] i deg = deg
degree_from (c ∷ cs) i deg = degree_from cs (i + 1) (if c == 0 then deg else i)

-- Lambda in power form, and its degree. Lambda[nroots] stays unset and is not read.
unfoldable pub compute_lambda : ReedSolomon → List ℕ → List ℕ × ℕ
unfolding berlekamp_loop degree_from add_correction
compute_lambda r syndromes =
    let zeros = replicate r.nroots 0 in
    let b = berlekamp_loop r syndromes (r.nroots - 1) 1 (record {
      l = 0;
      lambda = set zeros 0 1;
      corrector = set zeros 1 1;
      error = get_or syndromes 0 0;
    }) in
    let lambda = add_correction r.galois b.error b.lambda b.corrector in
    (map (poly2power r.galois) lambda, degree_from lambda 0 0)

-- One evaluation of Lambda: the register from `j` down to 1, and the result.
unfoldable pub chien_step : Galois → ℕ → List ℕ → ℕ → ℕ → List ℕ × ℕ
chien_step g code_length register zero result = (register, result)
chien_step g code_length register (suc j) result =
    let old = get_or register (suc j) 0 in
    let power = multiply_power g old (suc j) in
    let next = if old == code_length then register else set register (suc j) power in
    chien_step g code_length next j
      (if old == code_length then result else add_poly result (power2poly g power))

-- The loop over `i`, with `k`: the roots and the locations found, in order.
unfoldable pub chien_loop : ReedSolomon → ℕ → ℕ → ℕ → ℕ → List ℕ → List (ℕ × ℕ)
unfolding chien_step
chien_loop r degree zero i k register = []
chien_loop r degree (suc n) i k register =
    let (next, result) = chien_step r.galois r.code_length register degree 1 in
    let rest = chien_loop r degree n (i + 1) (k + r.iprim) next in
    if result == 0 then (i % 256, k % 256) ∷ rest else rest

-- `none` is -1: the number of roots is not the degree.
unfoldable pub compute_errors : ReedSolomon → List ℕ → ℕ → Option (List (ℕ × ℕ))
unfolding chien_loop
compute_errors r lambda degree =
    let found = chien_loop r degree r.code_length 1 (r.iprim - 1) lambda in
    if length found == degree then some found else none

-- One coefficient of omega: the rounds left are the indices `j` that are still to come, from above.
unfoldable pub omega_sum : ReedSolomon → List ℕ → List ℕ → ℕ → ℕ → ℕ → ℕ
omega_sum r syndromes lambda i zero tmp = tmp
omega_sum r syndromes lambda i (suc j) tmp =
    let s = poly2power r.galois (get_or syndromes (i - j) 0) in
    let l = get_or lambda j 0 in
    omega_sum r syndromes lambda i j (
      if s == r.code_length || l == r.code_length
      then tmp
      else add_poly tmp (power2poly r.galois (multiply_power r.galois s l)))

-- The coefficients from `i` on, in poly form.
unfoldable pub omega_from : ReedSolomon → List ℕ → List ℕ → ℕ → ℕ → ℕ → List ℕ
unfolding omega_sum
omega_from r syndromes lambda degree zero i = []
omega_from r syndromes lambda degree (suc n) i =
    omega_sum r syndromes lambda i (min degree i + 1) 0
    ∷ omega_from r syndromes lambda degree n (i + 1)

-- Omega in power form, and its degree.
unfoldable pub compute_omega : ReedSolomon → List ℕ → List ℕ → ℕ → List ℕ × ℕ
unfolding omega_from degree_from
compute_omega r syndromes lambda degree =
    let omega = omega_from r syndromes lambda degree r.nroots 0 in
    (map (poly2power r.galois) omega ++ (r.code_length ∷ []), degree_from omega 0 0)

-- `num1`: the indices below the rounds left, from above.
unfoldable pub evaluate_omega : ReedSolomon → List ℕ → ℕ → ℕ → ℕ → ℕ
evaluate_omega r omega root zero num1 = num1
evaluate_omega r omega root (suc i) num1 =
    let o = get_or omega i 0 in
    evaluate_omega r omega root i (
      if o == r.code_length
      then num1
      else add_poly num1
          (power2poly r.galois (multiply_power r.galois o (pow_power r.galois i root))))

-- `den`: the even indices below twice the rounds left, from above.
unfoldable pub evaluate_derivative : ReedSolomon → List ℕ → ℕ → ℕ → ℕ → ℕ
evaluate_derivative r lambda root zero den = den
evaluate_derivative r lambda root (suc m) den =
    let l = get_or lambda (2 * m + 1) 0 in
    evaluate_derivative r lambda root m (
      if l == r.code_length
      then den
      else add_poly den
          (power2poly r.galois (multiply_power r.galois l (pow_power r.galois (2 * m) root))))

-- `corr`
unfoldable pub error_value : ReedSolomon → ℕ → ℕ → ℕ → ℕ
error_value r root num1 den =
    let g = r.galois in
    let num2 =
      power2poly g (multiply_power g (pow_power g root (divide_power g r.fcr 1)) r.code_length) in
    let tmp1 = r.code_length - poly2power g den in
    let tmp2 = multiply_power g (poly2power g num1) (poly2power g num2) in
    power2poly g (multiply_power g tmp2 tmp1)

-- The loop over the roots, from the last one down: `none` is the early return -1, with the symbols
-- as they are by then.
unfoldable pub apply_errors :
    ReedSolomon → List ℕ × ℕ → List ℕ × ℕ → List (ℕ × ℕ) → ℕ → List ℕ → Option ℕ × List ℕ
unfolding evaluate_omega evaluate_derivative error_value
apply_errors r omega lambda [] count symbols = (some count, symbols)
apply_errors r omega lambda ((root, loc) ∷ found) count symbols =
    let num1 = evaluate_omega r omega.0 root (omega.1 + 1) 0 in
    let den = evaluate_derivative r lambda.0 root (min lambda.1 (r.nroots - 1) / 2 + 1) 0 in
    let outside = leb ((r.code_length - r.nroots) % 256) loc in
    let next =
      if num1 == 0 || outside
      then symbols
      else set symbols loc (add_poly (get_or symbols loc 0) (error_value r root num1 den)) in
    let rest =
      apply_errors r omega lambda found (if not (num1 == 0) && outside then count - 1 else count)
        next in
    if den == 0 then (none, symbols) else rest

-- The symbols with a syndrome that is not 0.
unfoldable pub correct : ReedSolomon → List ℕ → List ℕ → Option ℕ × List ℕ
unfolding compute_lambda compute_errors compute_omega apply_errors
correct r syndromes symbols =
    let (lambda, degree) = compute_lambda r syndromes in
    elim (compute_errors r lambda degree) [
      | none ↦ (none, symbols)
      | some found ↦
          apply_errors r (compute_omega r syndromes lambda degree) (lambda, degree) (reverse found)
            (length found) symbols
    ]

unfoldable pub decode_rs : ReedSolomon → List ℕ → Option ℕ × List ℕ
unfolding compute_syndromes correct
decode_rs r symbols =
    let (syndromes, fine) = compute_syndromes r symbols in
    if fine then (some 0, symbols) else correct r syndromes symbols

-- What `dec` returns, and the message that it writes.
unfoldable pub dec : ReedSolomon → List ℕ → ℕ → Option ℕ × List ℕ
unfolding decode_rs
dec r block cutlen =
    let (ret, rf) = decode_rs r (fill_up r cutlen block) in (ret, message_part r cutlen rf)
