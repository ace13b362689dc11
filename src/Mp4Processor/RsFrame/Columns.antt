-- ===== src/Mp4Processor/RsFrame/Columns.antt =====
-- The columns of a super frame: how they are taken from its data, and put together again.
use dabstar.Prelude.{
  ℕ, zero, suc, ◌+◌, ◌-◌, ◌*◌, ◌/◌, ◌%◌, ◌≤◌, ◌<◌, ◌≡◌, ◌⊎◌, refl, sym, ap, ◌∙◌, List, [], ◌∷◌,
  ◌++◌, some, length, All, replicate, set, get_or, inl, inr, list_ext, length-set, length-append,
  get_or-set_self, get_or-set_ne, take-append, All-append, All-replicate, arith,
}
use native.Mathlib.Decide.{ℕ_discrete}
use native.Mathlib.Nat.{mod-lt, div-lt_iff_lt-mul}
use native.Mathlib.Omega.{div_any}
use dabstar.Xor.{IsSymbol}
use dabstar.ReedSolomon.{enc}
use dabstar.ReedSolomon.Decoder.{dec}
use dabstar.ReedSolomon.Dab.{dab_code}
use dabstar.ReedSolomon.RoundTrip.{dec-enc}
use dabstar.Mp4Processor.RsFrame.{write_column}

-- Column `j` of the data from row `k` on, with the rows left.
unfoldable pub data_column : List ℕ → ℕ → ℕ → ℕ → ℕ → List ℕ
data_column xs rs_dims j k zero = []
data_column xs rs_dims j k (suc n) =
    get_or xs (j + k * rs_dims) 0 ∷ data_column xs rs_dims j (k + 1) n

-- The code word of column `j`.
unfoldable pub coded_column : List ℕ → ℕ → ℕ → List ℕ
coded_column xs rs_dims j = enc dab_code (data_column xs rs_dims j 0 110 ++ replicate 10 0) 135

length-data_column : (xs : List ℕ) (d j k n : ℕ) → length (data_column xs d j k n) ≡ n
unfolding data_column
length-data_column xs d j k zero = refl
length-data_column xs d j k (suc n) = ap suc (length-data_column xs d j (k + 1) n)

get_or-IsSymbol : (xs : List ℕ) (i : ℕ) → All IsSymbol xs → get_or xs i 0 < 256
get_or-IsSymbol [] i a = omega arith
get_or-IsSymbol (x ∷ xs) zero a = a.0
get_or-IsSymbol (x ∷ xs) (suc i) a = get_or-IsSymbol xs i a.1

data_column-IsSymbol :
    (xs : List ℕ) (d j k n : ℕ) → All IsSymbol xs → All IsSymbol (data_column xs d j k n)
unfolding data_column
data_column-IsSymbol xs d j k zero a = tt
data_column-IsSymbol xs d j k (suc n) a =
    (get_or-IsSymbol xs (j + k * d) a, data_column-IsSymbol xs d j (k + 1) n a)

pub dec-coded_column :
    (xs : List ℕ) (d j : ℕ)
    → All IsSymbol xs
    → dec dab_code (coded_column xs d j) 135 ≡ (some 0, data_column xs d j 0 110)
unfolding coded_column
dec-coded_column xs d j a =
    let column = data_column xs d j 0 110 in
    let n : length (data_column xs d j 0 110) ≡ 110 = length-data_column xs d j 0 110 in
    dec-enc (column ++ replicate 10 0) 135 (omega arith)
      (omega (arith, n, length-append column (replicate 10 0)))
      (All-append IsSymbol column (replicate 10 0) (data_column-IsSymbol xs d j 0 110 a)
        (All-replicate IsSymbol 10 0 (omega arith)))
    ∙ ap (λ ys. (some 0, ys)) (take-append column (replicate 10 0) (245 - 135) (omega (arith, n)))

-- Where the output has the data's byte.
Agree : List ℕ → List ℕ → ℕ → Type 0
Agree xs out i = get_or out i 0 ≡ get_or xs i 0

set-Agree :
    (xs out : List ℕ) (p i : ℕ)
    → i < length out
    → (p ≡ i) ⊎ Agree xs out i
    → Agree xs (set out p (get_or xs p 0)) i
unfolding Agree
set-Agree xs out p i h c = elim (ℕ_discrete p i) [
  | yes e ↦
      ap (λ q. get_or (set out q (get_or xs q 0)) i 0) e ∙ get_or-set_self out i (get_or xs i 0) 0 h
  | no n ↦
      get_or-set_ne out (get_or xs p 0) 0 n ∙ elim c [ inl e ↦ absurd (n e) | inr agreed ↦ agreed ]
]

length-write_column :
    (d j k : ℕ) (bs out : List ℕ) → length (write_column d j k bs out) ≡ length out
unfolding write_column
length-write_column d j k [] out = refl
length-write_column d j k (b ∷ bs) out =
    length-write_column d j (k + 1) bs (set out (j + k * d) b) ∙ length-set out (j + k * d) b

-- Writing a column keeps what agrees, and makes its own entries agree.
write_column-Agree :
    (xs : List ℕ) (d j k n : ℕ) (out : List ℕ) (i : ℕ)
    → i < length out
    → Agree xs out i ⊎ ((m : ℕ) × (k ≤ m) × (m < k + n) × (j + m * d ≡ i))
    → Agree xs (write_column d j k (data_column xs d j k n) out) i
unfolding write_column data_column
write_column-Agree xs d j k zero out i h (inl agreed) = agreed
write_column-Agree xs d j k zero out i h (inr (m, lo, hi, e)) = absurd (omega (arith, lo, hi))
write_column-Agree xs d j k (suc n) out i h c =
    let p = j + k * d in
    let next = set out p (get_or xs p 0) in
    write_column-Agree xs d j (k + 1) n next i (omega (arith, length-set out p (get_or xs p 0)))
      (elim c [
        | inl agreed ↦ inl (set-Agree xs out p i h (inr agreed))
        | inr (m, lo, hi, e) ↦ elim (ℕ_discrete m k) [
          | yes same ↦ inl (set-Agree xs out p i h (inl (ap (λ q. j + q * d) (sym same) ∙ e)))
          | no other ↦ inr (m, omega (arith, lo, other), omega (arith, hi), e)
        ]
      ])

-- All columns from `j` on.
unfoldable pub write_columns : List ℕ → ℕ → ℕ → ℕ → List ℕ → List ℕ
write_columns xs d zero j out = out
write_columns xs d (suc n) j out =
    write_columns xs d n (j + 1) (write_column d j 0 (data_column xs d j 0 110) out)

length-write_columns :
    (xs : List ℕ) (d n j : ℕ) (out : List ℕ) → length (write_columns xs d n j out) ≡ length out
unfolding write_columns
length-write_columns xs d zero j out = refl
length-write_columns xs d (suc n) j out =
    length-write_columns xs d n (j + 1) (write_column d j 0 (data_column xs d j 0 110) out)
    ∙ length-write_column d j 0 (data_column xs d j 0 110) out

write_columns-Agree :
    (xs : List ℕ) (d n j : ℕ) (out : List ℕ) (i : ℕ)
    → i < length out
    → Agree xs out i ⊎ ((c m : ℕ) × (j ≤ c) × (c < j + n) × (m < 110) × (c + m * d ≡ i))
    → Agree xs (write_columns xs d n j out) i
unfolding write_columns
write_columns-Agree xs d zero j out i h (inl agreed) = agreed
write_columns-Agree xs d zero j out i h (inr (c, m, lo, hi, below, e)) =
    absurd (omega (arith, lo, hi))
write_columns-Agree xs d (suc n) j out i h w =
    let column = data_column xs d j 0 110 in
    write_columns-Agree xs d n (j + 1) (write_column d j 0 column out) i
      (omega (arith, length-write_column d j 0 column out))
      (elim w [
        | inl agreed ↦ inl (write_column-Agree xs d j 0 110 out i h (inl agreed))
        | inr (c, m, lo, hi, below, e) ↦ elim (ℕ_discrete c j) [
          | yes same ↦ inl (
              write_column-Agree xs d j 0 110 out i h
                (inr (m, omega arith, omega (arith, below), ap (λ q. q + m * d) (sym same) ∙ e)))
          | no other ↦ inr (c, m, omega (arith, lo, other), omega (arith, hi), below, e)
        ]
      ])

pub write_columns_all :
    (xs : List ℕ) (d : ℕ) (out : List ℕ)
    → 0 < d
    → length xs ≡ 110 * d
    → length out ≡ 110 * d
    → write_columns xs d d 0 out ≡ xs
unfolding Agree
write_columns_all xs d out pos nx nout =
    let same : length (write_columns xs d d 0 out) ≡ length xs =
      length-write_columns xs d d 0 out ∙ nout ∙ sym nx in
    list_ext (write_columns xs d d 0 out) xs 0 same (λ i h.
      write_columns-Agree xs d d 0 out i (omega (arith, h, nx, nout, same)) (
        inr (
          i % d,
          i / d,
          omega arith,
          omega (arith, mod-lt i pos),
          (div-lt_iff_lt-mul pos).1 (omega (arith, h, nx, same)),
          split i,
        )))
  where
    split : (i : ℕ) → i % d + i / d * d ≡ i
    split i = grind (arith, div_any i d)
