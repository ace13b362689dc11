-- ===== src/Bits/Widths.antt =====
-- The bit extractors read big-endian numbers of their widths.
use dabstar.Prelude.{
  ℕ, zero, suc, ◌+◌, ◌*◌, ◌%◌, ◌^◌, ◌≤◌, ◌<◌, ◌≡◌, refl, sym, ap, ◌∙◌, Bool, true, false, List, [],
  ◌∷◌, ◌++◌, get_or, length, length-append, arith, if◌then◌else◌,
}
use native.Mathlib.Nat.{pow-suc, mod-eq_of_lt}
use mathlib.Core.Path.{ap₂}
use mathlib.Core.List.{append_assoc}
use dabstar.Bits.{
  bit_at, push_bit, bits_loop, get_bits, get_bits_1, get_bits_2, get_bits_3, get_bits_4, get_bits_5,
  get_bits_6, get_bits_7, get_bits_8,
}

bit_at-le-one : (d : List Bool) (i : ℕ) → bit_at d i ≤ 1
bit_at-le-one d i = ground arith

-- The number that a list of bits stands for, most significant first.
unfoldable pub value : List Bool → ℕ
value [] = 0
value (b ∷ bs) = (if b then 1 else 0) * 2 ^ length bs + value bs

get_or-append : (xs ys : List Bool) (d : Bool) → get_or (xs ++ ys) (length xs) d ≡ get_or ys 0 d
get_or-append [] ys d = refl
get_or-append (x ∷ xs) ys d = get_or-append xs ys d

pow_pos : (n : ℕ) → 0 < 2 ^ n
pow_pos zero = omega arith
pow_pos (suc n) = rw pow-suc (omega (arith, pow_pos n))

-- What one round adds stays below a bound that the whole number keeps.
round_fits :
    (m res b p v : ℕ) → 0 < p → res * (p * 2) + (b * p + v) < m → (2 * res + b) % m ≡ 2 * res + b
round_fits m res b zero v hp h = absurd (omega arith)
round_fits m res b (suc p) v hp h = mod-eq_of_lt (omega arith)

pow_mono : (k n : ℕ) → k ≤ n → 2 ^ k ≤ 2 ^ n
pow_mono zero n h = pow_pos n
pow_mono (suc k) zero h = absurd (omega arith)
pow_mono (suc k) (suc n) h =
    rw (pow-suc 2 k, pow-suc 2 n) (omega (arith, pow_mono k n (omega arith)))

bits_loop-append :
    (m : ℕ) (xs field ys : List Bool) (res : ℕ)
    → res * 2 ^ length field + value field < m
    → bits_loop m (xs ++ (field ++ ys)) (length field) (length xs) res
      ≡ res * 2 ^ length field + value field
unfolding bits_loop value
bits_loop-append m xs [] ys res h = omega arith
bits_loop-append m xs (b ∷ bs) ys res h =
    let bit : ℕ = if b then 1 else 0 in
    let p = 2 ^ length bs in
    let grows : 2 ^ suc (length bs) ≡ p * 2 = pow-suc 2 (length bs) in
    let here : bit_at (xs ++ (b ∷ (bs ++ ys))) (length xs) ≡ bit =
      ap (λ x. if x then 1 else 0) (get_or-append xs (b ∷ (bs ++ ys)) false) in
    let round : push_bit m res (bit_at (xs ++ (b ∷ (bs ++ ys))) (length xs)) ≡ 2 * res + bit =
      ap (push_bit m res) here
      ∙ round_fits m res bit p (value bs) (pow_pos (length bs))
          (omega (arith, ap (λ (t : ℕ). res * t) grows)) in
    let next : length (xs ++ (b ∷ [])) ≡ length xs + 1 = length-append xs (b ∷ []) in
    let fits : (2 * res + bit) * p + value bs < m = omega (arith, ap (λ (t : ℕ). res * t) grows) in
    ap (bits_loop m (xs ++ (b ∷ (bs ++ ys))) (length bs) (length xs + 1)) round
    ∙ ap₂ (λ l i. bits_loop m l (length bs) i (2 * res + bit))
        (sym (append_assoc xs (b ∷ []) (bs ++ ys))) (sym next)
    ∙ bits_loop-append m (xs ++ (b ∷ [])) bs ys (2 * res + bit) fits
    ∙ omega (arith, ap (λ (t : ℕ). res * t) grows)

value-lt : (bs : List Bool) → value bs < 2 ^ length bs
unfolding value
value-lt [] = omega arith
value-lt (true ∷ bs) = rw pow-suc (omega (arith, value-lt bs))
value-lt (false ∷ bs) = rw pow-suc (omega (arith, value-lt bs))

-- A field of at most 16 bits, wherever it stands in a vector, is read by `get_bits` as the number
-- that its bits stand for, most significant bit first.
pub get_bits-value :
    (xs field ys : List Bool)
    → length field ≤ 16
    → get_bits (xs ++ (field ++ ys)) (length xs) (length field) ≡ value field
unfolding get_bits
get_bits-value xs field ys h =
    bits_loop-append (2 ^ 16) xs field ys 0
      (omega (arith, value-lt field, pow_mono (length field) 16 h))
    ∙ omega arith

width_1 : (d : List Bool) (o : ℕ) → get_bits_1 d o ≡ get_bits d o 1
unfolding get_bits_1 get_bits
width_1 d o = ground arith

width_2 : (d : List Bool) (o : ℕ) → get_bits_2 d o ≡ get_bits d o 2
unfolding get_bits_2 get_bits
width_2 d o = ground arith

width_3 : (d : List Bool) (o : ℕ) → get_bits_3 d o ≡ get_bits d o 3
unfolding get_bits_3 get_bits
width_3 d o = ground arith

width_4 : (d : List Bool) (o : ℕ) → get_bits_4 d o ≡ get_bits d o 4
unfolding get_bits_4 get_bits
width_4 d o = ground arith

width_5 : (d : List Bool) (o : ℕ) → get_bits_5 d o ≡ get_bits d o 5
unfolding get_bits_5 get_bits
width_5 d o = ground arith

width_6 : (d : List Bool) (o : ℕ) → get_bits_6 d o ≡ get_bits d o 6
unfolding get_bits_6 get_bits
width_6 d o = ground arith

width_7 : (d : List Bool) (o : ℕ) → get_bits_7 d o ≡ get_bits d o 7
unfolding get_bits_7 get_bits
width_7 d o = ground arith

width_8 : (d : List Bool) (o : ℕ) → get_bits_8 d o ≡ get_bits d o 8
unfolding get_bits_8 get_bits
width_8 d o = ground arith

-- The extractors of fixed width agree with the loop of `get_bits` at their widths.
pub get_bits_fixed :
    (d : List Bool) (o : ℕ)
    → (get_bits_1 d o ≡ get_bits d o 1)
      × (get_bits_2 d o ≡ get_bits d o 2)
      × (get_bits_3 d o ≡ get_bits d o 3)
      × (get_bits_4 d o ≡ get_bits d o 4)
      × (get_bits_5 d o ≡ get_bits d o 5)
      × (get_bits_6 d o ≡ get_bits d o 6)
      × (get_bits_7 d o ≡ get_bits d o 7)
      × (get_bits_8 d o ≡ get_bits d o 8)
get_bits_fixed d o = (
  width_1 d o,
  width_2 d o,
  width_3 d o,
  width_4 d o,
  width_5 d o,
  width_6 d o,
  width_7 d o,
  width_8 d o,
)
