-- ===== src/ReedSolomon/Horner.antt =====
-- Horner's rule at a power of alpha: how the evaluation of a list of symbols splits and adds.
use Prim.Native.Nat.{bit_xor}
use dabstar.Prelude.{
  ℕ, suc, ◌+◌, ◌*◌, ◌<◌, ◌≡◌, refl, sym, ap, ◌∙◌, List, [], ◌∷◌, ◌++◌, map, length, All, arith,
}
use mathlib.Core.Path.{ap₂}
use dabstar.Xor.{xor_zero, xor_comm, xor_assoc, xor_swap, xor-lt, IsSymbol, add_lists}
use dabstar.Galois.Shifts.{shifts, shifts-xor, shifts-add, shifts-lt, shifts-zero}

unfoldable pub horner : ℕ → ℕ → List ℕ → ℕ
horner r s [] = s
horner r s (x ∷ xs) = horner r (bit_xor x (shifts r s)) xs

pub shifts_comm : (i k a : ℕ) → shifts i (shifts k a) ≡ shifts k (shifts i a)
shifts_comm i k a =
    sym (shifts-add k i a)
    ∙ ap (λ n. shifts n a) (let e : k + i ≡ i + k = omega arith in e)
    ∙ shifts-add i k a

pub horner-lt : (r s : ℕ) (xs : List ℕ) → s < 256 → All IsSymbol xs → horner r s xs < 256
unfolding horner
horner-lt r s [] h a = h
horner-lt r s (x ∷ xs) h a =
    horner-lt r (bit_xor x (shifts r s)) xs (xor-lt 8 x (shifts r s) a.0 (shifts-lt r s h)) a.1

pub horner-append : (r s : ℕ) (xs ys : List ℕ) → horner r s (xs ++ ys) ≡ horner r (horner r s xs) ys
unfolding horner
horner-append r s [] ys = refl
horner-append r s (x ∷ xs) ys = horner-append r (bit_xor x (shifts r s)) xs ys

-- Evaluation is additive, in the start value and in the symbols.
pub horner-add_lists :
    (r s t : ℕ) (xs ys : List ℕ)
    → s < 256
    → t < 256
    → All IsSymbol xs
    → All IsSymbol ys
    → length xs ≡ length ys
    → horner r (bit_xor s t) (add_lists xs ys) ≡ bit_xor (horner r s xs) (horner r t ys)
unfolding horner add_lists
horner-add_lists r s t [] [] hs ht a b e = refl
horner-add_lists r s t [] (y ∷ ys) hs ht a b e = absurd (omega arith)
horner-add_lists r s t (x ∷ xs) [] hs ht a b e = absurd (omega arith)
horner-add_lists r s t (x ∷ xs) (y ∷ ys) hs ht a b e =
    ap (λ v. horner r v (add_lists xs ys))
      (ap (bit_xor (bit_xor x y)) (shifts-xor r s t hs ht) ∙ xor_swap x y (shifts r s) (shifts r t))
    ∙ horner-add_lists r (bit_xor x (shifts r s)) (bit_xor y (shifts r t)) xs ys
        (xor-lt 8 x (shifts r s) a.0 (shifts-lt r s hs))
        (xor-lt 8 y (shifts r t) b.0 (shifts-lt r t ht)) a.1 b.1 (omega arith)

-- The start value counts as much as a symbol in front.
pub horner_start :
    (r s : ℕ) (xs : List ℕ)
    → s < 256
    → All IsSymbol xs
    → horner r s xs ≡ bit_xor (shifts (r * length xs) s) (horner r 0 xs)
unfolding horner shifts
horner_start r s [] h a =
    ap (λ n. shifts n s) (let e : 0 ≡ r * 0 = omega arith in e) ∙ sym (xor_zero (shifts (r * 0) s))
horner_start r s (x ∷ xs) h a =
    let sx = bit_xor x (shifts r s) in
    let n = r * length xs in
    let count : r + n ≡ r * suc (length xs) = grind arith in
    let plain : bit_xor x (shifts r 0) ≡ x = ap (bit_xor x) (shifts-zero r) ∙ xor_zero x in
    horner_start r sx xs (xor-lt 8 x (shifts r s) a.0 (shifts-lt r s h)) a.1
    ∙ ap (λ v. bit_xor v (horner r 0 xs))
        (shifts-xor n x (shifts r s) a.0 (shifts-lt r s h)
          ∙ xor_comm (shifts n x) (shifts n (shifts r s)))
    ∙ xor_assoc (shifts n (shifts r s)) (shifts n x) (horner r 0 xs)
    ∙ ap₂ bit_xor (sym (shifts-add r n s) ∙ ap (λ k. shifts k s) count)
        (sym (horner_start r x xs a.0 a.1) ∙ ap (λ v. horner r v xs) (sym plain))

-- Shifting all symbols shifts the value.
pub horner-shifts :
    (r i s : ℕ) (xs : List ℕ)
    → s < 256
    → All IsSymbol xs
    → horner r (shifts i s) (map (shifts i) xs) ≡ shifts i (horner r s xs)
unfolding horner
horner-shifts r i s [] h a = refl
horner-shifts r i s (x ∷ xs) h a =
    ap (λ v. horner r v (map (shifts i) xs))
      (ap (bit_xor (shifts i x)) (shifts_comm r i s)
        ∙ sym (shifts-xor i x (shifts r s) a.0 (shifts-lt r s h)))
    ∙ horner-shifts r i (bit_xor x (shifts r s)) xs (xor-lt 8 x (shifts r s) a.0 (shifts-lt r s h))
        a.1
