-- ===== src/Protection/Marks/Valid.antt =====
-- The loops of the constructors in base/protection stay inside `viterbiBlock`.
use dabstar.Prelude.{
  ℕ, zero, suc, ◌+◌, ◌*◌, ◌%◌, ◌≤◌, ◌<◌, ◌≡◌, refl, List, [], ◌∷◌, ◌++◌, Option, some, length,
  length-append, arith, Bool-cases, inl, inr, ◌==◌, lt→ltb, get_or, ◌>>=◌, if◌then◌else◌,
}
use dabstar.Protection.Marks.{Marks, mark, mark_rounds, extract_block_addresses, mark_tail}
use dabstar.Protection.Marks.Kept.{kept}

-- The addresses rise strictly, from `lo` on, below `hi`.
abbrev pub Rises : ℕ → List ℕ → ℕ → Type 0
Rises lo [] hi = lo ≤ hi
Rises lo (x ∷ xs) hi = (lo ≤ x) × Rises (x + 1) xs hi

pub Rises-snoc : (xs : List ℕ) (lo c hi : ℕ) → Rises lo xs c → c < hi → Rises lo (xs ++ (c ∷ [])) hi
Rises-snoc [] lo c hi h k = omega arith
Rises-snoc (x ∷ xs) lo c hi h k = (h.0, Rises-snoc xs (x + 1) c hi h.1 k)

pub Rises-weaken : (xs : List ℕ) (lo : ℕ) {c hi : ℕ} → Rises lo xs c → c ≤ hi → Rises lo xs hi
Rises-weaken [] lo h k = omega arith
Rises-weaken (x ∷ xs) lo h k = (h.0, Rises-weaken xs (x + 1) h.1 k)

pub Rises-lower : (xs : List ℕ) (lo hi lo' : ℕ) → lo' ≤ lo → Rises lo xs hi → Rises lo' xs hi
Rises-lower [] lo hi lo' k h = omega arith
Rises-lower (x ∷ xs) lo hi lo' k h = (omega arith, h.1)

pub Rises-le : (xs : List ℕ) (lo hi : ℕ) → Rises lo xs hi → lo ≤ hi
Rises-le [] lo hi h = h
Rises-le (x ∷ xs) lo hi h = omega (arith, Rises-le xs (x + 1) hi h.1)

-- From `m` the loops went on to `m'`: `n` positions further, `k` of them kept.
pub record Advances (m m' : Marks) (n k : ℕ) : Type 0 where
  pub counted : m'.counter ≡ m.counter + n
  pub added : length m'.addresses ≡ length m.addresses + k
  pub rises : Rises 0 m'.addresses m'.counter

abbrev pub Marked : Marks → Option Marks → ℕ → ℕ → Type 0
Marked m r n k = (m' : Marks) × (r ≡ some m') × Advances m m' n k

mark-Marked :
    (size e : ℕ) (m : Marks)
    → m.counter < size
    → Rises 0 m.addresses m.counter
    → Marked m (mark size e m) 1 (if e == 0 then 0 else 1)
unfolding mark
mark-Marked size e m h r = elim (Bool-cases (e == 0)) [
  | inl z ↦ rw z (
    record m { counter = m.counter + 1 },
    refl,
    record {
      counted = refl;
      added = omega arith;
      rises = Rises-weaken m.addresses 0 r (omega arith);
    },
  )
  | inr nz ↦
      rw (nz, lt→ltb m.counter size h)
        (
          record { addresses = m.addresses ++ (m.counter ∷ []); counter = m.counter + 1 },
          refl,
          record {
            counted = refl;
            added = length-append m.addresses (m.counter ∷ []);
            rises = Rises-snoc m.addresses 0 m.counter (m.counter + 1) r (omega arith);
          },
        )
]

Advances-trans :
    {m m' m'' : Marks} {n k n' k' : ℕ}
    → Advances m m' n k
    → Advances m' m'' n' k'
    → Advances m m'' (n + n') (k + k')
Advances-trans a b = record {
  counted = omega (arith, a.counted, b.counted);
  added = omega (arith, a.added, b.added);
  rises = b.rises;
}

pub >>=-Marked :
    {m m' : Marks} {r : Option Marks} (f : Marks → Option Marks) {n k n' k' : ℕ}
    → r ≡ some m'
    → Advances m m' n k
    → Marked m' (f m') n' k'
    → Marked m (r >>= f) (n + n') (k + k')
>>=-Marked f e a (m'', e', a') = (m'', rw e e', Advances-trans a a')

mark_rounds-Marked :
    (size : ℕ) (pi : List ℕ) (n j : ℕ) (m : Marks)
    → m.counter + n ≤ size
    → Rises 0 m.addresses m.counter
    → Marked m (mark_rounds size pi n j m) n (kept pi n j)
unfolding mark_rounds kept
mark_rounds-Marked size pi zero j m h r =
    (m, refl, record { counted = omega arith; added = omega arith; rises = r })
mark_rounds-Marked size pi (suc n) j m h r =
    let (m', e, a) = mark-Marked size (get_or pi (j % 32) 0) m (omega arith) r in
    let next = mark_rounds-Marked size pi n (j + 1) m' (omega (arith, a.counted)) a.rises in
    let one : suc n ≡ 1 + n = omega arith in
    rw one (>>=-Marked (λ m'. mark_rounds size pi n (j + 1) m') e a next)

-- `lx` blocks of 128 positions.
pub extract_block_addresses-Marked :
    (size lx : ℕ) (pi : List ℕ) (m : Marks)
    → m.counter + lx * 128 ≤ size
    → Rises 0 m.addresses m.counter
    → Marked m (extract_block_addresses size lx pi m) (lx * 128) (lx * kept pi 128 0)
unfolding extract_block_addresses
extract_block_addresses-Marked size zero pi m h r =
    (m, refl, record { counted = omega arith; added = omega arith; rises = r })
extract_block_addresses-Marked size (suc lx) pi m h r =
    let (m', e, a) = mark_rounds-Marked size pi 128 0 m (omega arith) r in
    let next = extract_block_addresses-Marked size lx pi m' (omega (arith, a.counted)) a.rises in
    let positions : suc lx * 128 ≡ 128 + lx * 128 = omega arith in
    let keeps : suc lx * kept pi 128 0 ≡ kept pi 128 0 + lx * kept pi 128 0 = omega arith in
    rw (positions, keeps) (>>=-Marked (extract_block_addresses size lx pi) e a next)

pub mark_tail-Marked :
    (size : ℕ) (pi : List ℕ) (m : Marks)
    → m.counter + 24 ≤ size
    → Rises 0 m.addresses m.counter
    → Marked m (mark_tail size pi m) 24 (kept pi 24 0)
unfolding mark_tail
mark_tail-Marked size pi m = mark_rounds-Marked size pi 24 0 m
