-- ===== src/Protection/Uep/Fits.antt =====
-- The unequal error protection of a sub-channel stays inside its capacity units and fills its block.
use dabstar.Prelude.{
  ℕ, ◌+◌, ◌*◌, ◌≤◌, ◌<◌, ◌≡◌, refl, Bool, true, false, ◌&&◌, inl, inr, List, Option, none, some,
  Option-cases, [], if◌then◌else◌, lt_of_get_elem?, length, get_elem?, ◌==◌, leb, ltb, passes_from,
  passes_below, arith,
}
use mathlib.Core.Path.{subst}
use dabstar.Protection.Marks.{Marks, no_marks, block_size}
use dabstar.Protection.Marks.Kept.{kept, get_pi_codes-some, kept_tail, mul-kept}
use dabstar.Protection.Marks.Valid.{Rises, Marked, extract_block_addresses-Marked, mark_tail-Marked}
use dabstar.Protection.Uep.{ProtectionProfile, uep_profile, get_pi4, uep_marks, new_uep_protection}
use dabstar.SubChannel.Tables.{ProtLevel, prot_level_table}

abbrev IsCode : ℕ → Type 0
IsCode k = (0 < k) × (k < 25)

-- Four positions of a block under PI4, in eights; none where L4 is 0.
abbrev fourth : Option ℕ → ℕ
fourth none = 0
fourth (some k) = 8 + k

abbrev blocks : ProtectionProfile → ℕ
blocks p = p.l1 + p.l2 + p.l3 + p.l4

abbrev pub soft_bits : ProtectionProfile → ℕ
soft_bits p =
    4 * (p.l1 * (8 + p.pi1) + p.l2 * (8 + p.pi2) + p.l3 * (8 + p.pi3) + p.l4 * fourth p.pi4) + 12

abbrev IsFourth : Option ℕ → ℕ → Type 0
IsFourth none l4 = l4 ≡ 0
IsFourth (some k) l4 = IsCode k

-- The codes of a row have vectors, and a row without PI4 has no fourth block.
record IsSound (p : ProtectionProfile) : Type 0 where
  code1 : IsCode p.pi1
  code2 : IsCode p.pi2
  code3 : IsCode p.pi3
  code4 : IsFourth p.pi4 p.l4

get_pi4-some :
    (o : Option ℕ) (l4 : ℕ)
    → IsFourth o l4
    → (pi : List ℕ) × (get_pi4 o ≡ some pi) × (l4 * kept pi 128 0 ≡ 4 * (l4 * fourth o))
unfolding get_pi4
get_pi4-some none l4 h = ([], refl, rw h (omega arith))
get_pi4-some (some k) l4 h =
    let (pi, e, c) = get_pi_codes-some k h.0 h.1 in (pi, e, mul-kept l4 k _ c)

uep_marks-Marked :
    (size : ℕ) (p : ProtectionProfile)
    → IsSound p
    → blocks p * 128 + 24 ≤ size
    → Marked no_marks (uep_marks size p) (blocks p * 128 + 24) (soft_bits p)
unfolding uep_marks
uep_marks-Marked size p s h =
    let (pi1, e1, k1) = get_pi_codes-some p.pi1 s.code1.0 s.code1.1 in
    let (pi2, e2, k2) = get_pi_codes-some p.pi2 s.code2.0 s.code2.1 in
    let (pi3, e3, k3) = get_pi_codes-some p.pi3 s.code3.0 s.code3.1 in
    let (pi4, e4, k4) = get_pi4-some p.pi4 p.l4 s.code4 in
    let (pi_x, ex, kx) = get_pi_codes-some 8 (omega arith) (omega arith) in
    let (m1, d1, a1) =
      extract_block_addresses-Marked size p.l1 pi1 no_marks (omega arith) (omega arith) in
    let (m2, d2, a2) =
      extract_block_addresses-Marked size p.l2 pi2 m1 (omega (arith, a1.counted)) a1.rises in
    let (m3, d3, a3) =
      extract_block_addresses-Marked size p.l3 pi3 m2 (omega (arith, a1.counted, a2.counted))
        a2.rises in
    let c3 : m3.counter ≡ (p.l1 + p.l2 + p.l3) * 128 =
      omega (arith, a1.counted, a2.counted, a3.counted) in
    let (m4, d4, a4) =
      extract_block_addresses-Marked size p.l4 pi4 m3 (omega (arith, c3)) a3.rises in
    let (m5, d5, a5) = mark_tail-Marked size pi_x m4 (omega (arith, c3, a4.counted)) a4.rises in
    rw (e1, e2, e3, e4, ex, d1, d2, d3, d4, d5)
      (
        m5,
        refl,
        record {
          counted = omega (arith, c3, a4.counted, a5.counted);
          added = omega (
            arith,
            a1.added,
            a2.added,
            a3.added,
            a4.added,
            a5.added,
            kept_tail pi_x ex,
            k4,
            mul-kept p.l1 p.pi1 _ k1,
            mul-kept p.l2 p.pi2 _ k2,
            mul-kept p.l3 p.pi3 _ k3,
          );
          rises = a5.rises;
        },
      )

-- What evaluation checks of an index of FIG 0/1's table.
is_code : ℕ → Bool
is_code k = ltb 0 k && ltb k 25

is_fourth : Option ℕ → ℕ → Bool
unfolding is_code
is_fourth none l4 = l4 == 0
is_fourth (some k) l4 = is_code k

-- The soft bits of a sub-channel that no address takes: the padding, at most 8, but at entry 23.
abbrev pub least_unused : ℕ → ℕ
least_unused i = if i == 23 then 404 else 0

abbrev pub most_unused : ℕ → ℕ
most_unused i = if i == 23 then 404 else 8

is_profile_of : ℕ → ProtLevel → ProtectionProfile → Bool
unfolding is_code is_fourth
is_profile_of i t p =
    p.bit_rate == t.bit_rate
    && p.prot_level == t.prot_level
    && is_code p.pi1
    && is_code p.pi2
    && is_code p.pi3
    && is_fourth p.pi4 p.l4
    && blocks p * 128 == 24 * t.bit_rate * 4
    && leb (soft_bits p + least_unused i) (64 * t.cu_size)
    && leb (64 * t.cu_size) (soft_bits p + most_unused i)

record IsProfileOf (i : ℕ) (t : ProtLevel) (p : ProtectionProfile) : Type 0 where
  same_rate : p.bit_rate ≡ t.bit_rate
  same_level : p.prot_level ≡ t.prot_level
  sound : IsSound p
  whole : blocks p * 128 ≡ 24 * t.bit_rate * 4
  least : soft_bits p + least_unused i ≤ 64 * t.cu_size
  most : 64 * t.cu_size ≤ soft_bits p + most_unused i

is_fourth_sound : (o : Option ℕ) (l4 : ℕ) → is_fourth o l4 ≡ true → IsFourth o l4
unfolding is_fourth is_code
is_fourth_sound none l4 h = ground arith
is_fourth_sound (some k) l4 h = ground arith

is_profile_of_sound :
    (i : ℕ) (t : ProtLevel) (p : ProtectionProfile) → is_profile_of i t p ≡ true → IsProfileOf i t p
unfolding is_profile_of is_code
is_profile_of_sound i t p h = ground (arith, is_fourth_sound p.pi4 p.l4)

profile_test : ℕ → Bool
unfolding uep_profile is_profile_of
profile_test i = elim (get_elem? prot_level_table i) [
  | none ↦ false
  | some t ↦ elim (uep_profile t.bit_rate t.prot_level) [
    | none ↦ false
    | some p ↦ is_profile_of i t p
  ]
]

profile_table_sound : passes_from profile_test 0 64 ≡ true
unfolding passes_from profile_test
profile_table_sound = refl

profile_of_entry :
    (i : ℕ) (t : ProtLevel)
    → get_elem? prot_level_table i ≡ some t
    → (p : ProtectionProfile) × (uep_profile t.bit_rate t.prot_level ≡ some p)
      × (is_profile_of i t p ≡ true)
unfolding profile_test
profile_of_entry i t h =
    let b : i < 64 = lt_of_get_elem? prot_level_table i h in
    let e : profile_test i ≡ true = passes_below profile_test 64 i profile_table_sound b in
    elim (Option-cases (uep_profile t.bit_rate t.prot_level)) [
      | inl n ↦ absurd (ground (arith, e, h, n))
      | inr (p, q) ↦ (p, q, ground (arith, e, h, q))
    ]

-- For each of the 64 entries of cProtLevelTable the constructor, at the entry's bit rate and level,
-- meets no failed assert, its addresses rise strictly inside `viterbiBlock`, and its counter ends
-- at the block's end. It takes at most the 64 soft bits of each capacity unit, and leaves at most 8
-- of them as padding, except at entry 23 (80 kbit/s, level 1), where it leaves exactly 404.
pub uep_protection_fits :
    (i : ℕ) (t : ProtLevel)
    → get_elem? prot_level_table i ≡ some t
    → (m : Marks) × (new_uep_protection t.bit_rate t.prot_level ≡ some m)
      × (m.counter ≡ block_size t.bit_rate)
      × Rises 0 m.addresses (block_size t.bit_rate)
      × (length m.addresses + least_unused i ≤ 64 * t.cu_size)
      × (64 * t.cu_size ≤ length m.addresses + most_unused i)
unfolding new_uep_protection
uep_protection_fits i t h =
    let (p, e, ok) = profile_of_entry i t h in
    let fit = is_profile_of_sound i t p ok in
    let (m, d, a) =
      uep_marks-Marked (block_size t.bit_rate) p fit.sound (omega (arith, fit.whole)) in
    let c : m.counter ≡ block_size t.bit_rate = omega (arith, a.counted, fit.whole) in
    rw (e, d)
      (
        m,
        refl,
        c,
        subst (λ n. Rises 0 m.addresses n) c a.rises,
        omega (arith, a.added, fit.least),
        omega (arith, a.added, fit.most),
      )
