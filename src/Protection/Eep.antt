-- ===== src/Protection/Eep.antt =====
-- base/protection/eep_protection.cpp: equal error protection. The constructor chooses two lengths
-- and two puncturing vectors, and lists the entries of `viterbiBlock` that receive a soft bit.
pub mod Fits
use dabstar.Prelude.{
  ℕ, zero, suc, ◌+◌, ◌-◌, ◌*◌, ◌/◌, ◌%◌, Option, none, some, ◌==◌, if◌then◌else◌, ◌>>=◌,
}
use dabstar.Protection.PiCodes.{get_pi_codes}
use dabstar.Protection.Marks.{Marks, no_marks, block_size, extract_block_addresses, mark_tail}

-- L1, L2 and the arguments of `get_PI_codes` for PI1 and PI2. A loop of a negative number of
-- rounds makes none, as one of 0 rounds: the truncated `-` below stands for both.
pub record EepProfile : Type 0 where
  pub l1 : ℕ
  pub l2 : ℕ
  pub pi1 : ℕ
  pub pi2 : ℕ

abbrev pub eep_lengths : ℕ → ℕ → ℕ → ℕ → Option EepProfile
eep_lengths l1 l2 pi1 pi2 = some (record { l1 = l1; l2 = l2; pi1 = pi1; pi2 = pi2 })

-- The switch of the A profiles, at `n = bitRate / 8`; the last clause is `default`.
unfoldable pub eep_a_profile : ℕ → ℕ → Option EepProfile
eep_a_profile zero n = eep_lengths (6 * n - 3) 3 24 23
eep_a_profile (suc zero) n =
    if n == 1 then eep_lengths 5 1 13 12 else eep_lengths (2 * n - 3) (4 * n + 3) 14 13
eep_a_profile (suc (suc zero)) n = eep_lengths (6 * n - 3) 3 8 7
eep_a_profile (suc (suc (suc zero))) n = eep_lengths (4 * n - 3) (2 * n + 3) 3 2
eep_a_profile _ n = none

-- The switch of the B profiles, at `n = bitRate / 32`.
unfoldable pub eep_b_profile : ℕ → ℕ → Option EepProfile
eep_b_profile zero n = eep_lengths (24 * n - 3) 3 10 9
eep_b_profile (suc zero) n = eep_lengths (24 * n - 3) 3 6 5
eep_b_profile (suc (suc zero)) n = eep_lengths (24 * n - 3) 3 4 3
eep_b_profile (suc (suc (suc zero))) n = eep_lengths (24 * n - 3) 3 2 1
eep_b_profile _ n = none

-- Bits 0 and 1 of `iProtLevel` are the level, bit 2 is the option; the asserts on the bit rate.
unfoldable pub eep_profile : ℕ → ℕ → Option EepProfile
eep_profile bit_rate i_prot_level =
    let prot_level = i_prot_level % 4 in
    let option = i_prot_level / 4 % 2 in
    if option == 0
    then (if bit_rate % 8 == 0 then eep_a_profile prot_level (bit_rate / 8) else none)
    else (if bit_rate % 32 == 0 then eep_b_profile prot_level (bit_rate / 32) else none)

-- The rest of the constructor.
unfoldable pub eep_marks : ℕ → EepProfile → Option Marks
eep_marks size p = do
  pi1 ← get_pi_codes p.pi1
  pi2 ← get_pi_codes p.pi2
  pi_x ← get_pi_codes 8
  m ← extract_block_addresses size p.l1 pi1 no_marks
  m' ← extract_block_addresses size p.l2 pi2 m
  mark_tail size pi_x m'

unfoldable pub new_eep_protection : ℕ → ℕ → Option Marks
new_eep_protection bit_rate prot_level =
    eep_profile bit_rate prot_level >>= eep_marks (block_size bit_rate)
