-- ===== src/Backend/Interleaver.antt =====
-- base/backend/backend.cpp: the time de-interleaver of `_process_segment`, over 16 rows of
-- `fragmentSize` soft bits.
pub mod Cells
pub mod Delay
use dabstar.Prelude.{
  ℕ, zero, suc, ◌+◌, ◌%◌, List, [], ◌∷◌, get_or, set, replicate, length, leb, if◌then◌else◌, Option,
  none, some,
}

-- interleaveMap
abbrev pub interleave_map : List ℕ
interleave_map = 0 ∷ 8 ∷ 4 ∷ 12 ∷ 2 ∷ 10 ∷ 6 ∷ 14 ∷ 1 ∷ 9 ∷ 5 ∷ 13 ∷ 3 ∷ 11 ∷ 7 ∷ 15 ∷ []

-- The mask `& 0x0F` is the remainder by 16.
unfoldable pub map_at : ℕ → ℕ
map_at i = get_or interleave_map (i % 16) 0

-- interleaveData, interleaverIndex, countforInterleaver
pub record Interleaver {ℓ} (A : Type ℓ) : Type ℓ where
  pub rows : List (List A)
  pub index : ℕ
  pub count : ℕ

module _ {ℓ} {A : Type ℓ} where
  -- The constructor's part: 16 rows of zeros.
  unfoldable pub new_interleaver : A → ℕ → Interleaver A
  new_interleaver zero_bit fragment_size = record {
    rows = replicate 16 (replicate fragment_size zero_bit);
    index = 0;
    count = 0;
  }

  -- interleaveData[r][c], and a write to it.
  abbrev pub cell : A → List (List A) → ℕ → ℕ → A
  cell zero_bit rows r c = get_or (get_or rows r []) c zero_bit

  abbrev pub set_cell : List (List A) → ℕ → ℕ → A → List (List A)
  set_cell rows r c x = set rows r (set (get_or rows r []) c x)

  -- The loop over `i`, with the rounds left: the entries of `tempX` from `i` on, and the rows.
  unfoldable pub segment_loop : A → List A → ℕ → ℕ → ℕ → List (List A) → List A × List (List A)
  segment_loop zero_bit i_data index zero i rows = ([], rows)
  segment_loop zero_bit i_data index (suc n) i rows =
      let temp = cell zero_bit rows ((index + map_at i) % 16) i in
      let rest =
        segment_loop zero_bit i_data index n (i + 1)
          (set_cell rows index i (get_or i_data i zero_bit)) in
      (temp ∷ rest.0, rest.1)

  -- `_process_segment` up to its early return: `none` while the de-interleaver fills.
  unfoldable pub interleave_segment :
      A → ℕ → Interleaver A → List A → Option (List A) × Interleaver A
  interleave_segment zero_bit fragment_size s i_data =
      let (temp, rows) = segment_loop zero_bit i_data s.index fragment_size 0 s.rows in
      let index = (s.index + 1) % 16 in
      if leb s.count 15
      then (none, record { rows = rows; index = index; count = s.count + 1 })
      else (some temp, record { rows = rows; index = index; count = s.count })
