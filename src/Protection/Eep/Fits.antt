-- ===== src/Protection/Eep/Fits.antt =====
-- The equal error protection of a sub-channel uses its capacity units and fills its block exactly.
use dabstar.Prelude.{
  ℕ, zero, suc, ◌+◌, ◌-◌, ◌*◌, ◌/◌, ◌≤◌, ◌<◌, ◌≢◌, ◌≡◌, refl, Option, some, length, arith, get_or,
}
use mathlib.Core.Path.{subst}
use native.Mathlib.Decide.{ℕ_discrete}
use dabstar.Protection.Marks.{Marks, no_marks, block_size}
use dabstar.Protection.Marks.Kept.{get_pi_codes-some, kept_tail, mul-kept}
use dabstar.Protection.Marks.Valid.{Rises, Marked, extract_block_addresses-Marked, mark_tail-Marked}
use dabstar.Protection.Eep.{
  EepProfile, eep_profile, eep_a_profile, eep_b_profile, eep_marks, new_eep_protection,
}
use dabstar.SubChannel.Tables.{ProtLevel, level, long_form, eep_a_table, eep_b_table}

-- The two blocks and the tail, for any lengths that fit and any codes from 1 to 24.
eep_marks-Marked :
    (size : ℕ) (p : EepProfile)
    → (p.l1 + p.l2) * 128 + 24 ≤ size
    → (0 < p.pi1) × (p.pi1 < 25) × (0 < p.pi2) × (p.pi2 < 25)
    → Marked no_marks
        (eep_marks size p)
        ((p.l1 + p.l2) * 128 + 24)
        (4 * (p.l1 * (8 + p.pi1) + p.l2 * (8 + p.pi2)) + 12)
unfolding eep_marks
eep_marks-Marked size p h r =
    let (pi1, e1, k1) = get_pi_codes-some p.pi1 r.0 r.1 in
    let (pi2, e2, k2) = get_pi_codes-some p.pi2 r.2 r.3 in
    let (pi_x, ex, kx) = get_pi_codes-some 8 (omega arith) (omega arith) in
    let (m, e, a) =
      extract_block_addresses-Marked size p.l1 pi1 no_marks (omega arith) (omega arith) in
    let (m', e', a') =
      extract_block_addresses-Marked size p.l2 pi2 m (omega (arith, a.counted)) a.rises in
    let (m'', e'', a'') =
      mark_tail-Marked size pi_x m' (omega (arith, a.counted, a'.counted)) a'.rises in
    rw (e1, e2, ex, e, e', e'')
      (
        m'',
        refl,
        record {
          counted = omega (arith, a.counted, a'.counted, a''.counted);
          added = omega (
            arith,
            a.added,
            a'.added,
            a''.added,
            kept_tail pi_x ex,
            mul-kept p.l1 p.pi1 _ k1,
            mul-kept p.l2 p.pi2 _ k2,
          );
          rises = a''.rises;
        },
      )

-- What the constructor must give for a sub-channel of `cu_size` capacity units of 64 soft bits: a
-- strictly rising list of addresses inside `viterbiBlock`, one for each soft bit, and a counter
-- that ends at the end of the block.
pub record FillsBlock (bit_rate soft_bits : ℕ) (m : Marks) : Type 0 where
  pub whole : m.counter ≡ block_size bit_rate
  pub used : length m.addresses ≡ soft_bits
  pub inside : Rises 0 m.addresses (block_size bit_rate)

FillsBlock-of_Marked :
    (bit_rate : ℕ) (r : Option Marks) {n k soft_bits : ℕ}
    → Marked no_marks r n k
    → n ≡ block_size bit_rate
    → k ≡ soft_bits
    → (m : Marks) × (r ≡ some m) × FillsBlock bit_rate soft_bits m
FillsBlock-of_Marked bit_rate r (m, e, a) en ek = (
  m,
  e,
  record {
    whole = omega (arith, a.counted);
    used = omega (arith, a.added);
    inside = subst (λ c. Rises 0 m.addresses c) (omega (arith, a.counted)) a.rises;
  },
)

eep_profile_fits :
    (bit_rate prot_level soft_bits : ℕ) (p : EepProfile)
    → eep_profile bit_rate prot_level ≡ some p
    → (0 < p.pi1) × (p.pi1 < 25) × (0 < p.pi2) × (p.pi2 < 25)
    → (p.l1 + p.l2) * 128 ≡ 24 * bit_rate * 4
    → 4 * (p.l1 * (8 + p.pi1) + p.l2 * (8 + p.pi2)) + 12 ≡ soft_bits
    → (m : Marks) × (new_eep_protection bit_rate prot_level ≡ some m)
      × FillsBlock bit_rate soft_bits m
unfolding new_eep_protection
eep_profile_fits bit_rate prot_level soft_bits p e r en ek = rw e (
    FillsBlock-of_Marked bit_rate _ (eep_marks-Marked (block_size bit_rate) p (omega arith) r)
      (omega arith) ek)

-- The capacity units that one step of the bit rate takes: the sizes of ETSI EN 300 401, 11.3.2.
abbrev pub cu_unit : ℕ → ℕ → ℕ
cu_unit zero prot_level = get_or eep_a_table prot_level 0
cu_unit (suc _) prot_level = get_or eep_b_table prot_level 0

abbrev pub Fits : ℕ → ℕ → ℕ → Type 0
Fits option prot_level cu_size =
    (t : ProtLevel) × (long_form option prot_level cu_size ≡ some t)
    × ((m : Marks) × (new_eep_protection t.bit_rate t.prot_level ≡ some m)
        × FillsBlock t.bit_rate (64 * cu_size) m)

Fits-of :
    (option prot_level cu_size : ℕ) (t : ProtLevel)
    → long_form option prot_level cu_size ≡ some t
    → (p : EepProfile) → eep_profile t.bit_rate t.prot_level ≡ some p
    → (0 < p.pi1) × (p.pi1 < 25) × (0 < p.pi2) × (p.pi2 < 25)
    → (p.l1 + p.l2) * 128 ≡ 24 * t.bit_rate * 4
    → 4 * (p.l1 * (8 + p.pi1) + p.l2 * (8 + p.pi2)) + 12 ≡ 64 * cu_size
    → Fits option prot_level cu_size
Fits-of option prot_level cu_size t e p ep r en ek =
    (t, e, eep_profile_fits t.bit_rate t.prot_level (64 * cu_size) p ep r en ek)

eep_a1 : (n : ℕ) → 0 < n → Fits 0 0 (12 * n)
unfolding long_form eep_profile eep_a_profile
eep_a1 n h =
    Fits-of 0 0 (12 * n) (level (12 * n) 0 (12 * n / 12 * 8)) refl
      (record { l1 = 6 * n - 3; l2 = 3; pi1 = 24; pi2 = 23 }) (ground arith) (omega arith)
      (omega arith) (omega arith)

eep_a2_one : (n : ℕ) → 0 < n → n ≡ 1 → Fits 0 1 (8 * n)
unfolding long_form eep_profile eep_a_profile
eep_a2_one n h one =
    Fits-of 0 1 (8 * n) (level (8 * n) 1 (8 * n / 8 * 8)) refl
      (record { l1 = 5; l2 = 1; pi1 = 13; pi2 = 12 }) (ground arith) (omega arith) (omega arith)
      (omega arith)

eep_a2 : (n : ℕ) → 0 < n → n ≢ 1 → Fits 0 1 (8 * n)
unfolding long_form eep_profile eep_a_profile
eep_a2 n h many =
    Fits-of 0 1 (8 * n) (level (8 * n) 1 (8 * n / 8 * 8)) refl
      (record { l1 = 2 * n - 3; l2 = 4 * n + 3; pi1 = 14; pi2 = 13 }) (ground arith) (omega arith)
      (omega arith) (omega arith)

eep_a3 : (n : ℕ) → 0 < n → Fits 0 2 (6 * n)
unfolding long_form eep_profile eep_a_profile
eep_a3 n h =
    Fits-of 0 2 (6 * n) (level (6 * n) 2 (6 * n / 6 * 8)) refl
      (record { l1 = 6 * n - 3; l2 = 3; pi1 = 8; pi2 = 7 }) (ground arith) (omega arith)
      (omega arith) (omega arith)

eep_a4 : (n : ℕ) → 0 < n → Fits 0 3 (4 * n)
unfolding long_form eep_profile eep_a_profile
eep_a4 n h =
    Fits-of 0 3 (4 * n) (level (4 * n) 3 (4 * n / 4 * 8)) refl
      (record { l1 = 4 * n - 3; l2 = 2 * n + 3; pi1 = 3; pi2 = 2 }) (ground arith) (omega arith)
      (omega arith) (omega arith)

eep_b1 : (n : ℕ) → 0 < n → Fits 1 0 (27 * n)
unfolding long_form eep_profile eep_b_profile
eep_b1 n h =
    Fits-of 1 0 (27 * n) (level (27 * n) 4 (27 * n / 27 * 32)) refl
      (record { l1 = 24 * n - 3; l2 = 3; pi1 = 10; pi2 = 9 }) (ground arith) (omega arith)
      (omega arith) (omega arith)

eep_b2 : (n : ℕ) → 0 < n → Fits 1 1 (21 * n)
unfolding long_form eep_profile eep_b_profile
eep_b2 n h =
    Fits-of 1 1 (21 * n) (level (21 * n) 5 (21 * n / 21 * 32)) refl
      (record { l1 = 24 * n - 3; l2 = 3; pi1 = 6; pi2 = 5 }) (ground arith) (omega arith)
      (omega arith) (omega arith)

eep_b3 : (n : ℕ) → 0 < n → Fits 1 2 (18 * n)
unfolding long_form eep_profile eep_b_profile
eep_b3 n h =
    Fits-of 1 2 (18 * n) (level (18 * n) 6 (18 * n / 18 * 32)) refl
      (record { l1 = 24 * n - 3; l2 = 3; pi1 = 4; pi2 = 3 }) (ground arith) (omega arith)
      (omega arith) (omega arith)

eep_b4 : (n : ℕ) → 0 < n → Fits 1 3 (15 * n)
unfolding long_form eep_profile eep_b_profile
eep_b4 n h =
    Fits-of 1 3 (15 * n) (level (15 * n) 7 (15 * n / 15 * 32)) refl
      (record { l1 = 24 * n - 3; l2 = 3; pi1 = 2; pi2 = 1 }) (ground arith) (omega arith)
      (omega arith) (omega arith)

-- For both options, every level and every number `n` of steps of the bit rate, the long form of a
-- sub-channel of `cu_unit * n` capacity units gives a bit rate and a protection level with which
-- the constructor meets no failed assert: the addresses rise strictly inside `viterbiBlock`, there
-- is one for each of the 64 soft bits of each capacity unit, and the counter ends at the block's
-- end.
pub eep_protection-Fits :
    (option prot_level n : ℕ)
    → option < 2
    → prot_level < 4
    → 0 < n
    → Fits option prot_level (cu_unit option prot_level * n)
eep_protection-Fits zero zero n ho hl h = eep_a1 n h
eep_protection-Fits zero (suc zero) n ho hl h = elim (ℕ_discrete n 1) [
  | yes one ↦ eep_a2_one n h one
  | no many ↦ eep_a2 n h many
]
eep_protection-Fits zero (suc (suc zero)) n ho hl h = eep_a3 n h
eep_protection-Fits zero (suc (suc (suc zero))) n ho hl h = eep_a4 n h
eep_protection-Fits (suc zero) zero n ho hl h = eep_b1 n h
eep_protection-Fits (suc zero) (suc zero) n ho hl h = eep_b2 n h
eep_protection-Fits (suc zero) (suc (suc zero)) n ho hl h = eep_b3 n h
eep_protection-Fits (suc zero) (suc (suc (suc zero))) n ho hl h = eep_b4 n h
eep_protection-Fits _ _ n ho hl h = absurd (omega arith)
