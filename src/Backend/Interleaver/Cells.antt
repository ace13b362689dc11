-- ===== src/Backend/Interleaver/Cells.antt =====
-- What the loop of `_process_segment` reads and writes, entry by entry.
use mathlib.Core.Logic.{◌≢◌}
use native.Mathlib.Decide.{ℕ_discrete}
use mathlib.Core.Path.{subst}
use dabstar.Prelude.{
  ℕ, zero, suc, ◌+◌, ◌%◌, ◌≤◌, ◌<◌, ◌≡◌, refl, ap, ◌∙◌, List, [], get_or, set, length, length-set,
  get_or-set_self, get_or-set_ne, arith,
}
use dabstar.Backend.Interleaver.{map_at, cell, set_cell, segment_loop}

module _ {ℓ} {A : Type ℓ} (z : A) where
  -- 16 rows, each `width` entries wide.
  pub record IsGrid (width : ℕ) (rows : List (List A)) : Type ℓ where
    pub sixteen : length rows ≡ 16
    pub wide : (r : ℕ) → r < 16 → length (get_or rows r []) ≡ width

  length-set_cell :
      (rows : List (List A)) (r c : ℕ) (x : A) (q : ℕ)
      → r < length rows
      → length (get_or (set_cell rows r c x) q []) ≡ length (get_or rows q [])
  length-set_cell rows r c x q h = elim (ℕ_discrete r q) [
    | yes e ↦
        subst (λ q. length (get_or (set_cell rows r c x) q []) ≡ length (get_or rows q [])) e
          (ap length (get_or-set_self rows r (set (get_or rows r []) c x) [] h)
            ∙ length-set (get_or rows r []) c x)
    | no n ↦ ap length (get_or-set_ne rows (set (get_or rows r []) c x) [] n)
  ]

  cell-set_cell_self :
      (rows : List (List A)) (r c : ℕ) (x : A)
      → r < length rows
      → c < length (get_or rows r [])
      → cell z (set_cell rows r c x) r c ≡ x
  cell-set_cell_self rows r c x h k =
      ap (λ row. get_or row c z) (get_or-set_self rows r (set (get_or rows r []) c x) [] h)
      ∙ get_or-set_self (get_or rows r []) c x z k

  cell-set_cell_row :
      (rows : List (List A)) (r c : ℕ) (x : A) (q d : ℕ)
      → r ≢ q
      → cell z (set_cell rows r c x) q d ≡ cell z rows q d
  cell-set_cell_row rows r c x q d n =
      ap (λ row. get_or row d z) (get_or-set_ne rows (set (get_or rows r []) c x) [] n)

  cell-set_cell_column :
      (rows : List (List A)) (r c : ℕ) (x : A) (q d : ℕ)
      → r < length rows
      → c ≢ d
      → cell z (set_cell rows r c x) q d ≡ cell z rows q d
  cell-set_cell_column rows r c x q d h n = elim (ℕ_discrete r q) [
    | yes e ↦
        subst (λ q. cell z (set_cell rows r c x) q d ≡ cell z rows q d) e
          (ap (λ row. get_or row d z) (get_or-set_self rows r (set (get_or rows r []) c x) [] h)
            ∙ get_or-set_ne (get_or rows r []) x z n)
    | no k ↦ cell-set_cell_row rows r c x q d k
  ]

  set_cell-IsGrid :
      (width : ℕ) (rows : List (List A)) (r c : ℕ) (x : A)
      → r < 16
      → IsGrid width rows
      → IsGrid width (set_cell rows r c x)
  set_cell-IsGrid width rows r c x h g = record {
    sixteen = length-set rows r (set (get_or rows r []) c x) ∙ g.sixteen;
    wide = λ q hq. length-set_cell rows r c x q (omega (arith, g.sixteen)) ∙ g.wide q hq;
  }

  module _ (i_data : List A) (index width : ℕ) (inside : index < 16) where
    pub segment_loop-IsGrid :
        (n i : ℕ) (rows : List (List A))
        → IsGrid width rows
        → IsGrid width (segment_loop z i_data index n i rows).1
    unfolding segment_loop
    segment_loop-IsGrid zero i rows g = g
    segment_loop-IsGrid (suc n) i rows g =
        segment_loop-IsGrid n (i + 1) _
          (set_cell-IsGrid width rows index i (get_or i_data i z) inside g)

    -- The loop writes row `index` only, from column `i` on.
    pub segment_loop_row :
        (n i : ℕ) (rows : List (List A)) (r c : ℕ)
        → index ≢ r
        → cell z (segment_loop z i_data index n i rows).1 r c ≡ cell z rows r c
    unfolding segment_loop
    segment_loop_row zero i rows r c h = refl
    segment_loop_row (suc n) i rows r c h =
        segment_loop_row n (i + 1) _ r c h
        ∙ cell-set_cell_row rows index i (get_or i_data i z) r c h

    segment_loop_before :
        (n i : ℕ) (rows : List (List A)) (r c : ℕ)
        → IsGrid width rows
        → c < i
        → cell z (segment_loop z i_data index n i rows).1 r c ≡ cell z rows r c
    unfolding segment_loop
    segment_loop_before zero i rows r c g h = refl
    segment_loop_before (suc n) i rows r c g h =
        segment_loop_before n (i + 1) _ r c
          (set_cell-IsGrid width rows index i (get_or i_data i z) inside g) (omega arith)
        ∙ cell-set_cell_column rows index i (get_or i_data i z) r c (omega (arith, g.sixteen))
            (omega arith)

    -- Row `index` holds the new segment at the columns that the loop went over.
    pub segment_loop_written :
        (n i : ℕ) (rows : List (List A)) (c : ℕ)
        → IsGrid width rows
        → i + n ≤ width
        → i ≤ c
        → c < i + n
        → cell z (segment_loop z i_data index n i rows).1 index c ≡ get_or i_data c z
    unfolding segment_loop
    segment_loop_written zero i rows c g hw lo hi = absurd (omega arith)
    segment_loop_written (suc n) i rows c g hw lo hi =
        let g' = set_cell-IsGrid width rows index i (get_or i_data i z) inside g in
        elim (ℕ_discrete i c) [
          | yes e ↦
              subst
                (λ c.
                  cell z (segment_loop z i_data index (suc n) i rows).1 index c ≡ get_or i_data c z)
                e
                (segment_loop_before n (i + 1) _ index i g' (omega arith)
                  ∙ cell-set_cell_self rows index i (get_or i_data i z) (omega (arith, g.sixteen))
                      (omega (arith, g.wide index inside)))
          | no ne ↦ segment_loop_written n (i + 1) _ c g' (omega arith) (omega arith) (omega arith)
        ]

    -- `tempX` holds, column by column, what stood in the row that the map picks before the loop.
    pub segment_loop_temp :
        (n i : ℕ) (rows : List (List A)) (j : ℕ)
        → IsGrid width rows
        → j < n
        → get_or (segment_loop z i_data index n i rows).0 j z
          ≡ cell z rows ((index + map_at (i + j)) % 16) (i + j)
    unfolding segment_loop
    segment_loop_temp zero i rows j g h = absurd (omega arith)
    segment_loop_temp (suc n) i rows zero g h =
        ap (λ k. cell z rows ((index + map_at k) % 16) k) (omega arith)
    segment_loop_temp (suc n) i rows (suc j) g h =
        let k : i + 1 + j ≡ i + suc j = omega arith in
        segment_loop_temp n (i + 1) _ j
          (set_cell-IsGrid width rows index i (get_or i_data i z) inside g) (omega arith)
        ∙ ap (λ k. cell z (set_cell rows index i (get_or i_data i z)) ((index + map_at k) % 16) k) k
        ∙ cell-set_cell_column rows index i (get_or i_data i z) _ (i + suc j)
            (omega (arith, g.sixteen)) (omega arith)

    pub length-segment_loop :
        (n i : ℕ) (rows : List (List A)) → length (segment_loop z i_data index n i rows).0 ≡ n
    unfolding segment_loop
    length-segment_loop zero i rows = refl
    length-segment_loop (suc n) i rows = ap suc (length-segment_loop n (i + 1) _)
