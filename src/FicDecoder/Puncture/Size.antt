-- ===== src/FicDecoder/Puncture/Size.antt =====
-- The FIC's puncturing takes exactly the soft bits of a FIC, and the table marks their places.
use dabstar.Prelude.{
  ℕ, zero, suc, ◌+◌, ◌*◌, ◌%◌, ◌≤◌, ◌<◌, ◌≡◌, refl, sym, ◌∙◌, Bool, Bool-cases, inl, inr, true,
  false, List, [], ◌∷◌, ◌++◌, some, ◌==◌, ◌||◌, if◌then◌else◌, get_or, set, replicate, length,
  length-set, length-append, length-replicate, get_or-set_self, get_or-set_ne, arith,
}
use native.Mathlib.Decide.{ℕ_discrete}
use mathlib.Core.Path.{subst}
use dabstar.Protection.Marks.Kept.{kept, get_pi_codes-some, kept_tail}
use dabstar.Protection.Marks.Valid.{Rises, Rises-snoc, Rises-weaken}
use dabstar.FicDecoder.Puncture.{
  Table, no_table, viterbi_block_size, enter, enter_rounds, enter_blocks, new_table,
}

-- Whether a position is among the addresses.
unfoldable pub is_in : ℕ → List ℕ → Bool
is_in j [] = false
is_in j (a ∷ adr) = a == j || is_in j adr

is_in-snoc :
    (j : ℕ) (adr : List ℕ) (a : ℕ)
    → is_in j (adr ++ (a ∷ [])) ≡ (if a == j then true else is_in j adr)
unfolding is_in
is_in-snoc j [] a = ground arith
is_in-snoc j (b ∷ adr) a = ground (arith, is_in-snoc j adr a)

-- From `t` the loops went on to `t'`: `n` positions further, `k` of them kept.
record Advances (t t' : Table) (n k : ℕ) : Type 0 where
  counted : t'.local ≡ t.local + n
  added : length t'.addresses ≡ length t.addresses + k

record IsTable (t : Table) : Type 0 where
  rises : Rises 0 t.addresses t.local
  sized : length t.puncture ≡ viterbi_block_size
  marked : (j : ℕ) → get_or t.puncture j false ≡ is_in j t.addresses

Advances-trans :
    {t t' t'' : Table} {n k n' k' : ℕ}
    → Advances t t' n k
    → Advances t' t'' n' k'
    → Advances t t'' (n + n') (k + k')
Advances-trans a b = record {
  counted = omega (arith, a.counted, b.counted);
  added = omega (arith, a.added, b.added);
}

enter-Advances : (e : ℕ) (t : Table) → Advances t (enter e t) 1 (if e == 0 then 0 else 1)
unfolding enter
enter-Advances e t = elim (Bool-cases (e == 0)) [
  | inl z ↦ rw z (record { counted = refl; added = omega arith })
  | inr nz ↦ rw nz (record { counted = refl; added = length-append t.addresses (t.local ∷ []) })
]

enter-IsTable : (e : ℕ) (t : Table) → t.local < viterbi_block_size → IsTable t → IsTable (enter e t)
unfolding enter
enter-IsTable e t h v = elim (Bool-cases (e == 0)) [
  | inl z ↦ rw z (record {
    rises = Rises-weaken t.addresses 0 v.rises (omega arith);
    sized = v.sized;
    marked = v.marked;
  })
  | inr nz ↦ rw nz (record {
    rises = Rises-snoc t.addresses 0 t.local (t.local + 1) v.rises (omega arith);
    sized = length-set t.puncture t.local true ∙ v.sized;
    marked = λ j. elim (ℕ_discrete t.local j) [
      | yes same ↦
          subst
            (λ j.
              get_or (set t.puncture t.local true) j false
              ≡ is_in j (t.addresses ++ (t.local ∷ [])))
            same
            (get_or-set_self t.puncture t.local true false (omega (arith, v.sized))
              ∙ sym (is_in-snoc t.local t.addresses t.local ∙ ground arith))
      | no ne ↦
          get_or-set_ne t.puncture true false ne
          ∙ v.marked j
          ∙ sym (is_in-snoc j t.addresses t.local ∙ ground arith)
    ];
  })
]

-- Both facts along the loops.
record Went (t t' : Table) (n k : ℕ) : Type 0 where
  steps : Advances t t' n k
  table : IsTable t'

enter_rounds-Went :
    (pi : List ℕ) (n k : ℕ) (t : Table)
    → t.local + n ≤ viterbi_block_size
    → IsTable t
    → Went t (enter_rounds pi n k t) n (kept pi n k)
unfolding enter_rounds kept
enter_rounds-Went pi zero k t h v = record {
  steps = record { counted = omega arith; added = omega arith };
  table = v;
}
enter_rounds-Went pi (suc n) k t h v =
    let e = get_or pi (k % 32) 0 in
    let a = enter-Advances e t in
    let next =
      enter_rounds-Went pi n (k + 1) (enter e t) (omega (arith, a.counted))
        (enter-IsTable e t (omega arith) v) in
    let one : suc n ≡ 1 + n = omega arith in
    record { steps = rw one (Advances-trans a next.steps); table = next.table }

enter_blocks-Went :
    (pi : List ℕ) (i : ℕ) (t : Table)
    → t.local + i * 128 ≤ viterbi_block_size
    → IsTable t
    → Went t (enter_blocks pi i t) (i * 128) (i * kept pi 128 0)
unfolding enter_blocks
enter_blocks-Went pi zero t h v = record {
  steps = record { counted = omega arith; added = omega arith };
  table = v;
}
enter_blocks-Went pi (suc i) t h v =
    let a = enter_rounds-Went pi 128 0 t (omega arith) v in
    let next =
      enter_blocks-Went pi i (enter_rounds pi 128 0 t) (omega (arith, a.steps.counted)) a.table in
    let positions : suc i * 128 ≡ 128 + i * 128 = omega arith in
    let keeps : suc i * kept pi 128 0 ≡ kept pi 128 0 + i * kept pi 128 0 = omega arith in
    record { steps = rw (positions, keeps) (Advances-trans a.steps next.steps); table = next.table }

get_or-replicate_self : (n j : ℕ) (x : Bool) → get_or (replicate n x) j x ≡ x
get_or-replicate_self zero j x = refl
get_or-replicate_self (suc n) zero x = refl
get_or-replicate_self (suc n) (suc j) x = get_or-replicate_self n j x

no_table-IsTable : IsTable no_table
unfolding is_in
no_table-IsTable = record {
  rises = omega arith;
  sized = length-replicate viterbi_block_size false;
  marked = λ j. get_or-replicate_self viterbi_block_size j false;
}

-- What the tables must be for FICs of 2304 soft bits.
pub record PuncturesFic (t : Table) : Type 0 where
  pub soft_bits : length t.addresses ≡ 2304
  pub whole : t.local ≡ viterbi_block_size
  pub inside : Rises 0 t.addresses viterbi_block_size
  pub marks : (j : ℕ) → get_or t.puncture j false ≡ is_in j t.addresses

-- The constructor succeeds: it makes as many addresses as a FIC has soft bits, they rise strictly
-- inside mViterbiBlock, and mPunctureTable is true exactly at the addresses.
pub new_table-PuncturesFic : (t : Table) × (new_table ≡ some t) × PuncturesFic t
unfolding new_table
new_table-PuncturesFic =
    let (pi16, e16, k16) = get_pi_codes-some 16 (omega arith) (omega arith) in
    let (pi15, e15, k15) = get_pi_codes-some 15 (omega arith) (omega arith) in
    let (pi8, e8, k8) = get_pi_codes-some 8 (omega arith) (omega arith) in
    let t1 = enter_blocks pi16 21 no_table in
    let a = enter_blocks-Went pi16 21 no_table (omega arith) no_table-IsTable in
    let t2 = enter_blocks pi15 3 t1 in
    let b = enter_blocks-Went pi15 3 t1 (omega (arith, a.steps.counted)) a.table in
    let c =
      enter_rounds-Went pi8 24 0 t2 (omega (arith, a.steps.counted, b.steps.counted)) b.table in
    let local : (enter_rounds pi8 24 0 t2).local ≡ viterbi_block_size =
      omega (arith, a.steps.counted, b.steps.counted, c.steps.counted) in
    rw (e16, e15, e8)
      (
        enter_rounds pi8 24 0 t2,
        refl,
        record {
          soft_bits =
              omega
                (arith, a.steps.added, b.steps.added, c.steps.added, k16, k15, kept_tail pi8 e8);
          whole = local;
          inside = subst (λ n. Rises 0 (enter_rounds pi8 24 0 t2).addresses n) local c.table.rises;
          marks = c.table.marked;
        },
      )
