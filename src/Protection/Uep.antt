-- ===== src/Protection/Uep.antt =====
-- base/protection/uep_protection.cpp: unequal error protection, by the table of profiles.
pub mod Fits
use dabstar.Prelude.{
  ℕ, zero, suc, ◌+◌, ◌*◌, List, [], ◌∷◌, Option, none, some, ◌==◌, ◌&&◌, if◌then◌else◌, ◌>>=◌,
  get_elem?,
}
use dabstar.Protection.PiCodes.{get_pi_codes}
use dabstar.Protection.Marks.{Marks, no_marks, block_size, extract_block_addresses, mark_tail}

-- SProtectionProfile. The -1 in the place of PI4 is `none`.
pub record ProtectionProfile : Type 0 where
  pub bit_rate : ℕ
  pub prot_level : ℕ
  pub l1 : ℕ
  pub l2 : ℕ
  pub l3 : ℕ
  pub l4 : ℕ
  pub pi1 : ℕ
  pub pi2 : ℕ
  pub pi3 : ℕ
  pub pi4 : Option ℕ

abbrev row : ℕ → ℕ → ℕ → ℕ → ℕ → ℕ → ℕ → ℕ → ℕ → Option ℕ → ProtectionProfile
row bit_rate prot_level l1 l2 l3 l4 pi1 pi2 pi3 pi4 = record {
  bit_rate = bit_rate;
  prot_level = prot_level;
  l1 = l1;
  l2 = l2;
  l3 = l3;
  l4 = l4;
  pi1 = pi1;
  pi2 = pi2;
  pi3 = pi3;
  pi4 = pi4;
}

-- cProfileTable; its last row, whose bit rate 0 ends the search, is the end of the list.
abbrev pub profile_table : List ProtectionProfile
profile_table =
    row 32 5 3 4 17 0 5 3 2 none
    ∷ row 32 4 3 3 18 0 11 6 5 none
    ∷ row 32 3 3 4 14 3 15 9 6 (some 8)
    ∷ row 32 2 3 4 14 3 22 13 8 (some 13)
    ∷ row 32 1 3 5 13 3 24 17 12 (some 17)
    ∷ row 48 5 4 3 26 3 5 4 2 (some 3)
    ∷ row 48 4 3 4 26 3 9 6 4 (some 6)
    ∷ row 48 3 3 4 26 3 15 10 6 (some 9)
    ∷ row 48 2 3 4 26 3 24 14 8 (some 15)
    ∷ row 48 1 3 5 25 3 24 18 13 (some 18)
    ∷ row 56 5 6 10 23 3 5 4 2 (some 3)
    ∷ row 56 4 6 10 23 3 9 6 4 (some 5)
    ∷ row 56 3 6 12 21 3 16 7 6 (some 9)
    ∷ row 56 2 6 10 23 3 23 13 8 (some 13)
    ∷ row 64 5 6 9 31 2 5 3 2 (some 3)
    ∷ row 64 4 6 9 33 0 11 6 5 none
    ∷ row 64 3 6 12 27 3 16 8 6 (some 9)
    ∷ row 64 2 6 10 29 3 23 13 8 (some 13)
    ∷ row 64 1 6 11 28 3 24 18 12 (some 18)
    ∷ row 80 5 6 10 41 3 6 3 2 (some 3)
    ∷ row 80 4 6 10 41 3 11 6 5 (some 6)
    ∷ row 80 3 6 11 40 3 16 8 6 (some 7)
    ∷ row 80 2 6 10 41 3 23 13 8 (some 13)
    ∷ row 80 1 6 10 41 3 24 7 12 (some 18)
    ∷ row 96 5 7 9 53 3 5 4 2 (some 4)
    ∷ row 96 4 7 10 52 3 9 6 4 (some 6)
    ∷ row 96 3 6 12 51 3 16 9 6 (some 10)
    ∷ row 96 2 6 10 53 3 22 12 9 (some 12)
    ∷ row 96 1 6 13 50 3 24 18 13 (some 19)
    ∷ row 112 5 14 17 50 3 5 4 2 (some 5)
    ∷ row 112 4 11 21 49 3 9 6 4 (some 8)
    ∷ row 112 3 11 23 47 3 16 8 6 (some 9)
    ∷ row 112 2 11 21 49 3 23 12 9 (some 14)
    ∷ row 128 5 12 19 62 3 5 3 2 (some 4)
    ∷ row 128 4 11 21 61 3 11 6 5 (some 7)
    ∷ row 128 3 11 22 60 3 16 9 6 (some 10)
    ∷ row 128 2 11 21 61 3 22 12 9 (some 14)
    ∷ row 128 1 11 20 62 3 24 17 13 (some 19)
    ∷ row 160 5 11 19 87 3 5 4 2 (some 4)
    ∷ row 160 4 11 23 83 3 11 6 5 (some 9)
    ∷ row 160 3 11 24 82 3 16 8 6 (some 11)
    ∷ row 160 2 11 21 85 3 22 11 9 (some 13)
    ∷ row 160 1 11 22 84 3 24 18 12 (some 19)
    ∷ row 192 5 11 20 110 3 6 4 2 (some 5)
    ∷ row 192 4 11 22 108 3 10 6 4 (some 9)
    ∷ row 192 3 11 24 106 3 16 10 6 (some 11)
    ∷ row 192 2 11 20 110 3 22 13 9 (some 13)
    ∷ row 192 1 11 21 109 3 24 20 13 (some 24)
    ∷ row 224 5 12 22 131 3 8 6 2 (some 6)
    ∷ row 224 4 12 26 127 3 12 8 4 (some 11)
    ∷ row 224 3 11 20 134 3 16 10 7 (some 9)
    ∷ row 224 2 11 22 132 3 24 16 10 (some 15)
    ∷ row 224 1 11 24 130 3 24 20 12 (some 20)
    ∷ row 256 5 11 24 154 3 6 5 2 (some 5)
    ∷ row 256 4 11 24 154 3 12 9 5 (some 10)
    ∷ row 256 3 11 27 151 3 16 10 7 (some 10)
    ∷ row 256 2 11 22 156 3 24 14 10 (some 13)
    ∷ row 256 1 11 26 152 3 24 19 14 (some 18)
    ∷ row 320 5 11 26 200 3 8 5 2 (some 6)
    ∷ row 320 4 11 25 201 3 13 9 5 (some 10)
    ∷ row 320 2 11 26 200 3 24 17 9 (some 17)
    ∷ row 384 5 11 27 247 3 8 6 2 (some 7)
    ∷ row 384 3 11 24 250 3 16 9 7 (some 10)
    ∷ row 384 1 12 28 245 3 24 20 14 (some 23)
    ∷ []

-- find_index, with the rows left and the index reached; -1 is `none`.
unfoldable pub find_index_from : List ProtectionProfile → ℕ → ℕ → ℕ → Option ℕ
find_index_from [] i bit_rate prot_level = none
find_index_from (p ∷ ps) i bit_rate prot_level =
    if p.bit_rate == bit_rate && p.prot_level == prot_level
    then some i
    else find_index_from ps (i + 1) bit_rate prot_level

unfoldable pub find_index : ℕ → ℕ → Option ℕ
unfolding find_index_from
find_index bit_rate prot_level = find_index_from profile_table 0 bit_rate prot_level

-- A combination that is not in the table falls back on row 1.
unfoldable pub uep_profile : ℕ → ℕ → Option ProtectionProfile
unfolding find_index
uep_profile bit_rate prot_level =
    get_elem? profile_table (elim (find_index bit_rate prot_level) [ none ↦ 1 | some i ↦ i ])

-- The null pointer that stands for a missing PI4 is the empty vector; L4 is 0 beside it.
unfoldable pub get_pi4 : Option ℕ → Option (List ℕ)
get_pi4 none = some []
get_pi4 (some pi4) = get_pi_codes pi4

-- The rest of the constructor.
unfoldable pub uep_marks : ℕ → ProtectionProfile → Option Marks
uep_marks size pp = do
  pi1 ← get_pi_codes pp.pi1
  pi2 ← get_pi_codes pp.pi2
  pi3 ← get_pi_codes pp.pi3
  pi4 ← get_pi4 pp.pi4
  pi_x ← get_pi_codes 8
  m1 ← extract_block_addresses size pp.l1 pi1 no_marks
  m2 ← extract_block_addresses size pp.l2 pi2 m1
  m3 ← extract_block_addresses size pp.l3 pi3 m2
  m4 ← extract_block_addresses size pp.l4 pi4 m3
  mark_tail size pi_x m4

unfoldable pub new_uep_protection : ℕ → ℕ → Option Marks
new_uep_protection bit_rate prot_level =
    uep_profile bit_rate prot_level >>= uep_marks (block_size bit_rate)
