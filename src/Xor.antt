-- ===== src/Xor.antt =====
-- The laws of the exclusive or of numbers and of lists of symbols, which every code below rests on: from the equation for
-- the lowest digit, by halving.
use Prim.Native.Nat.{bit_xor, digits, differ, bit_xor-bitwise}
use native.Mathlib.Nat.{pow-suc}
use dabstar.Prelude.{
  ℕ, zero, suc, ◌+◌, ◌*◌, ◌/◌, ◌%◌, ◌^◌, ◌≤◌, ◌<◌, ◌≡◌, refl, sym, ap, ◌∙◌, List, [], ◌∷◌, length,
  take, drop, All, replicate, arith,
}
use mathlib.Core.Path.{ap₂}

xor_digits_fuel :
    (n m a b : ℕ) → a ≤ n → a ≤ m → digits (λ y. y) differ n a b ≡ digits (λ y. y) differ m a b
xor_digits_fuel zero zero a b p q = refl
xor_digits_fuel zero (suc m) zero b p q = refl
xor_digits_fuel zero (suc m) (suc a) b p q = absurd (omega arith)
xor_digits_fuel (suc n) zero zero b p q = refl
xor_digits_fuel (suc n) zero (suc a) b p q = absurd (omega arith)
xor_digits_fuel (suc n) (suc m) zero b p q = refl
xor_digits_fuel (suc n) (suc m) (suc a) b p q =
    ap (λ t. t * 2 + differ (suc a % 2) (b % 2))
      (xor_digits_fuel n m (suc a / 2) (b / 2) (omega arith) (omega arith))

differ_bits : (d e : ℕ) → d < 2 → e < 2 → differ d e ≡ (d + e) % 2
differ_bits zero zero h k = refl
differ_bits zero (suc zero) h k = refl
differ_bits (suc zero) zero h k = refl
differ_bits (suc zero) (suc zero) h k = refl
differ_bits zero (suc (suc e)) h k = absurd (omega arith)
differ_bits (suc zero) (suc (suc e)) h k = absurd (omega arith)
differ_bits (suc (suc d)) e h k = absurd (omega arith)

pub zero-xor : (b : ℕ) → bit_xor 0 b ≡ b
zero-xor b = bit_xor-bitwise 0 b

-- The halves, and the lowest digit.
pub xor_step : (a b : ℕ) → bit_xor a b ≡ bit_xor (a / 2) (b / 2) * 2 + (a % 2 + b % 2) % 2
xor_step zero b = omega (arith, zero-xor b, zero-xor (b / 2))
xor_step (suc a) b = omega (
  arith,
  bit_xor-bitwise (suc a) b,
  bit_xor-bitwise (suc a / 2) (b / 2),
  xor_digits_fuel a (suc a / 2) (suc a / 2) (b / 2) (omega arith) (omega arith),
  differ_bits (suc a % 2) (b % 2) (omega arith) (omega arith),
)

-- Facts on all numbers below a bound that halves.
xor_zero_below : (n a : ℕ) → a ≤ n → bit_xor a 0 ≡ a
xor_zero_below zero a h =
    omega (arith, zero-xor 0, ap (λ a. bit_xor a 0) (let e : a ≡ 0 = omega arith in e))
xor_zero_below (suc n) a h = omega (arith, xor_step a 0, xor_zero_below n (a / 2) (omega arith))

xor_comm_below : (n a b : ℕ) → a ≤ n → b ≤ n → bit_xor a b ≡ bit_xor b a
xor_comm_below zero zero zero h k = refl
xor_comm_below zero zero (suc b) h k = absurd (omega arith)
xor_comm_below zero (suc a) b h k = absurd (omega arith)
xor_comm_below (suc n) a b h k = omega (
  arith,
  xor_step a b,
  xor_step b a,
  xor_comm_below n (a / 2) (b / 2) (omega arith) (omega arith),
)

xor_assoc_below :
    (n a b c : ℕ) → a ≤ n → b ≤ n → c ≤ n → bit_xor (bit_xor a b) c ≡ bit_xor a (bit_xor b c)
xor_assoc_below zero zero b c h k l = rw (zero-xor b, zero-xor (bit_xor b c)) refl
xor_assoc_below zero (suc a) b c h k l = absurd (omega arith)
xor_assoc_below (suc n) a b c h k l =
    let left : bit_xor a b / 2 ≡ bit_xor (a / 2) (b / 2) = omega (arith, xor_step a b) in
    let right : bit_xor b c / 2 ≡ bit_xor (b / 2) (c / 2) = omega (arith, xor_step b c) in
    omega (
      arith,
      xor_step a b,
      xor_step b c,
      xor_step (bit_xor a b) c,
      xor_step a (bit_xor b c),
      ap (λ t. bit_xor t (c / 2)) left,
      ap (λ t. bit_xor (a / 2) t) right,
      xor_assoc_below n (a / 2) (b / 2) (c / 2) (omega arith) (omega arith) (omega arith),
    )

pub xor_zero : (a : ℕ) → bit_xor a 0 ≡ a
xor_zero a = xor_zero_below a a (omega arith)

pub xor_comm : (a b : ℕ) → bit_xor a b ≡ bit_xor b a
xor_comm a b = xor_comm_below (a + b) a b (omega arith) (omega arith)

pub xor_assoc : (a b c : ℕ) → bit_xor (bit_xor a b) c ≡ bit_xor a (bit_xor b c)
xor_assoc a b c = xor_assoc_below (a + b + c) a b c (omega arith) (omega arith) (omega arith)

xor_self_below : (n a : ℕ) → a ≤ n → bit_xor a a ≡ 0
xor_self_below zero zero h = refl
xor_self_below zero (suc a) h = absurd (omega arith)
xor_self_below (suc n) a h = omega (arith, xor_step a a, xor_self_below n (a / 2) (omega arith))

pub xor_self : (a : ℕ) → bit_xor a a ≡ 0
xor_self a = xor_self_below a a (omega arith)

-- An exclusive or with the same number twice cancels.
pub xor_cancel : (a b : ℕ) → bit_xor a (bit_xor a b) ≡ b
xor_cancel a b = sym (xor_assoc a a b) ∙ ap (λ t. bit_xor t b) (xor_self a) ∙ zero-xor b

pub xor_swap :
    (a b c d : ℕ) → bit_xor (bit_xor a b) (bit_xor c d) ≡ bit_xor (bit_xor a c) (bit_xor b d)
xor_swap a b c d =
    xor_assoc a b (bit_xor c d)
    ∙ ap (bit_xor a)
        (sym (xor_assoc b c d) ∙ ap (λ t. bit_xor t d) (xor_comm b c) ∙ xor_assoc c b d)
    ∙ sym (xor_assoc a c (bit_xor b d))

pub xor-lt : (k a b : ℕ) → a < 2 ^ k → b < 2 ^ k → bit_xor a b < 2 ^ k
xor-lt zero a b h l = omega (arith, zero-xor 0, both_zero a b (omega arith) (omega arith))
  where
    both_zero : (a b : ℕ) → a ≡ 0 → b ≡ 0 → bit_xor a b ≡ bit_xor 0 0
    both_zero a b e f = rw (e, f) refl
xor-lt (suc k) a b h l =
    let p = pow-suc 2 k in
    omega (arith, p, xor_step a b, xor-lt k (a / 2) (b / 2) (omega (arith, p)) (omega (arith, p)))

-- Doubling goes through, and so does cutting off the upper bits.
pub xor_double : (a b : ℕ) → bit_xor (2 * a) (2 * b) ≡ 2 * bit_xor a b
xor_double a b =
    let ea : 2 * a / 2 ≡ a = omega arith in
    let eb : 2 * b / 2 ≡ b = omega arith in
    omega (arith, xor_step (2 * a) (2 * b), ap (λ t. bit_xor t (2 * b / 2)) ea, ap (bit_xor a) eb)

-- The digits below place `k` and those from it on go separate ways.
pub xor_split :
    (k a b c d : ℕ)
    → b < 2 ^ k
    → d < 2 ^ k
    → bit_xor (2 ^ k * a + b) (2 ^ k * c + d) ≡ 2 ^ k * bit_xor a c + bit_xor b d
xor_split zero a b c d h l =
    let low : bit_xor b d ≡ 0 =
      ap₂ bit_xor (let e : b ≡ 0 = omega arith in e) (let e : d ≡ 0 = omega arith in e)
      ∙ zero-xor 0 in
    ap₂ bit_xor (let e : 1 * a + b ≡ a = omega arith in e)
      (let e : 1 * c + d ≡ c = omega arith in e)
    ∙ omega (arith, low)
xor_split (suc k) a b c d h l =
    let p = pow-suc 2 k in
    let wide : (m : ℕ) → 2 ^ suc k * m ≡ 2 * (2 ^ k * m) = λ m. ap (λ q. q * m) p ∙ grind arith in
    let left : (2 ^ suc k * a + b) / 2 ≡ 2 ^ k * a + b / 2 = omega (arith, wide a) in
    let right : (2 ^ suc k * c + d) / 2 ≡ 2 ^ k * c + d / 2 = omega (arith, wide c) in
    omega (
      arith,
      xor_step (2 ^ suc k * a + b) (2 ^ suc k * c + d),
      ap₂ bit_xor left right,
      xor_split k a (b / 2) c (d / 2) (omega (arith, p)) (omega (arith, p)),
      xor_step b d,
      wide a,
      wide c,
      wide (bit_xor a c),
    )

-- A symbol of 8 bits.
abbrev pub IsSymbol : ℕ → Type 0
IsSymbol a = a < 256

-- Two lists of symbols added place by place.
unfoldable pub add_lists : List ℕ → List ℕ → List ℕ
add_lists (x ∷ xs) (y ∷ ys) = bit_xor x y ∷ add_lists xs ys
add_lists _ _ = []

pub add_lists-IsSymbol :
    (xs ys : List ℕ) → All IsSymbol xs → All IsSymbol ys → All IsSymbol (add_lists xs ys)
unfolding add_lists
add_lists-IsSymbol [] ys a b = tt
add_lists-IsSymbol (x ∷ xs) [] a b = tt
add_lists-IsSymbol (x ∷ xs) (y ∷ ys) a b = (xor-lt 8 x y a.0 b.0, add_lists-IsSymbol xs ys a.1 b.1)

pub length-add_lists :
    (xs ys : List ℕ) → length xs ≡ length ys → length (add_lists xs ys) ≡ length xs
unfolding add_lists
length-add_lists [] ys e = refl
length-add_lists (x ∷ xs) [] e = absurd (omega arith)
length-add_lists (x ∷ xs) (y ∷ ys) e = ap suc (length-add_lists xs ys (omega arith))

pub take-add_lists :
    (n : ℕ) (xs ys : List ℕ) → take n (add_lists xs ys) ≡ add_lists (take n xs) (take n ys)
unfolding add_lists
take-add_lists zero xs ys = refl
take-add_lists (suc n) [] ys = refl
take-add_lists (suc n) (x ∷ xs) [] = refl
take-add_lists (suc n) (x ∷ xs) (y ∷ ys) = ap (λ zs. bit_xor x y ∷ zs) (take-add_lists n xs ys)

pub drop-add_lists :
    (n : ℕ) (xs ys : List ℕ)
    → length xs ≡ length ys
    → drop n (add_lists xs ys) ≡ add_lists (drop n xs) (drop n ys)
unfolding add_lists
drop-add_lists zero xs ys e = refl
drop-add_lists (suc n) [] [] e = refl
drop-add_lists (suc n) [] (y ∷ ys) e = absurd (omega arith)
drop-add_lists (suc n) (x ∷ xs) [] e = absurd (omega arith)
drop-add_lists (suc n) (x ∷ xs) (y ∷ ys) e = drop-add_lists n xs ys (omega arith)

pub add_lists-zeros : (xs : List ℕ) → add_lists xs (replicate (length xs) 0) ≡ xs
unfolding add_lists
add_lists-zeros [] = refl
add_lists-zeros (x ∷ xs) = ap₂ ◌∷◌ (xor_zero x) (add_lists-zeros xs)
