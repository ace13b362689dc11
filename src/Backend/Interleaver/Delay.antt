-- ===== src/Backend/Interleaver/Delay.antt =====
-- The de-interleaver over a sequence of calls, against the interleaver of ETSI EN 300 401, clause 12.
use native.Mathlib.Decide.{ℕ_discrete}
use Prim.Native.Nat.{min}
use mathlib.Core.Path.{subst, ap₂}
use dabstar.Prelude.{
  ℕ, zero, suc, ◌+◌, ◌%◌, ◌≤◌, ◌<◌, ◌≡◌, refl, sym, ap, ◌∙◌, List, [], get_or, length, replicate,
  Bool, true, length-replicate, list_ext, get_or-replicate, ◌==◌, ==_iff, ◌*◌, ◌/◌, none, some,
  arith, passes_from, passes_below,
}
use dabstar.Backend.Interleaver.{
  Interleaver, map_at, interleave_map, cell, segment_loop, interleave_segment, new_interleaver,
}
use dabstar.Backend.Interleaver.Cells.{
  IsGrid, segment_loop-IsGrid, segment_loop_row, segment_loop_written, segment_loop_temp,
  length-segment_loop,
}

-- The delay, in logical frames, that the standard's interleaver gives to column `c`: the four low
-- bits of the column's number, in reverse.
abbrev pub delay : ℕ → ℕ
delay c = c % 2 * 8 + c / 2 % 2 * 4 + c / 4 % 2 * 2 + c / 8 % 2

map_at_test : ℕ → Bool
map_at_test c = get_or interleave_map c 0 == delay c

map_at_table : passes_from map_at_test 0 16 ≡ true
unfolding passes_from map_at_test
map_at_table = refl

map_at-eq-delay : (c : ℕ) → map_at c ≡ delay c
unfolding map_at map_at_test
map_at-eq-delay c =
    let e : delay (c % 16) ≡ delay c = omega arith in
    (==_iff _ _).0 (passes_below map_at_test 16 (c % 16) map_at_table (omega arith)) ∙ e

row_of :
    (t c index : ℕ) → index ≡ (t + 16) % 16 → (index + map_at (0 + c)) % 16 ≡ (t + delay c) % 16
row_of t c index e = omega (
  arith,
  map_at-eq-delay (0 + c),
  ap map_at (let e : 0 + c ≡ c = omega arith in e),
  map_at-eq-delay c,
)

module _ {ℓ} {A : Type ℓ} (z : A) (width : ℕ) (s : Interleaver A) (i_data : List A) where
  rows_of_segment :
      (interleave_segment z width s i_data).1.rows
      ≡ (segment_loop z i_data s.index width 0 s.rows).1
  unfolding interleave_segment
  rows_of_segment = ground arith

  index_of_segment : (interleave_segment z width s i_data).1.index ≡ (s.index + 1) % 16
  unfolding interleave_segment
  index_of_segment = ground arith

  count_of_segment :
      s.count ≤ 16 → (interleave_segment z width s i_data).1.count ≡ min (s.count + 1) 16
  unfolding interleave_segment
  count_of_segment h = ground arith

  segment_passed :
      15 < s.count
      → (interleave_segment z width s i_data).0
        ≡ some (segment_loop z i_data s.index width 0 s.rows).0
  unfolding interleave_segment
  segment_passed h = ground arith

  segment_kept_back : s.count ≤ 15 → (interleave_segment z width s i_data).0 ≡ none
  unfolding interleave_segment
  segment_kept_back h = ground arith

module _ {ℓ} {A : Type ℓ} (z : A) (width : ℕ) (segments : ℕ → List A) where
  -- The state before call `t`, after the segments 0 to t - 1.
  unfoldable pub after_calls : ℕ → Interleaver A
  after_calls zero = new_interleaver z width
  after_calls (suc t) = (interleave_segment z width (after_calls t) (segments t)).1

  -- Before call `t` the rows hold the last 16 segments.
  record Inv (t : ℕ) : Type ℓ where
    grid : IsGrid z width (after_calls t).rows
    at : (after_calls t).index ≡ t % 16
    filled : (after_calls t).count ≡ min t 16
    recent :
        (k c : ℕ)
        → k < t
        → t ≤ k + 16
        → c < width
        → cell z (after_calls t).rows (k % 16) c ≡ get_or (segments k) c z

  new-Inv : Inv 0
  unfolding after_calls new_interleaver
  new-Inv = record {
    grid = record {
      sixteen = refl;
      wide = λ r h.
          ap length (get_or-replicate 16 r (replicate width z) [] h) ∙ length-replicate width z;
    };
    at = refl;
    filled = refl;
    recent = λ k c h. absurd (omega arith);
  }

  step-Inv : (t : ℕ) → Inv t → Inv (suc t)
  unfolding after_calls
  step-Inv t v =
      let s = after_calls t in
      let d = segments t in
      let inside : s.index < 16 = omega (arith, v.at) in
      let rows = rows_of_segment z width s d in
      record {
        grid =
            subst (λ g. IsGrid z width g) (sym rows)
              (segment_loop-IsGrid z d s.index width inside width 0 s.rows v.grid);
        at = index_of_segment z width s d ∙ omega (arith, v.at);
        filled = count_of_segment z width s d (omega (arith, v.filled)) ∙ omega (arith, v.filled);
        recent = λ k c hk hr hc. ap (λ g. cell z g (k % 16) c) rows ∙ elim (ℕ_discrete k t) [
          | yes e ↦
              subst
                (λ r.
                  cell z (segment_loop z d s.index width 0 s.rows).1 r c ≡ get_or (segments k) c z)
                (v.at ∙ ap (λ n. n % 16) (sym e))
                (segment_loop_written z d s.index width inside width 0 s.rows c v.grid (omega arith)
                    (omega arith) (omega arith)
                  ∙ ap (λ n. get_or (segments n) c z) (sym e))
          | no n ↦
              segment_loop_row z d s.index width inside width 0 s.rows (k % 16) c
                (λ e. absurd (omega (arith, e, v.at)))
              ∙ v.recent k c (omega arith) (omega arith) hc
        ];
      }

  calls-Inv : (t : ℕ) → Inv t
  calls-Inv zero = new-Inv
  calls-Inv (suc t) = step-Inv t (calls-Inv t)

  -- For the first 16 calls nothing is passed on.
  pub first_calls :
      (t : ℕ) → t < 16 → (interleave_segment z width (after_calls t) (segments t)).0 ≡ none
  first_calls t h =
      segment_kept_back z width (after_calls t) (segments t) (omega (arith, (calls-Inv t).filled))

  module _ (frames : ℕ → List A)
      (sent : (k c : ℕ)
        → c < width
        → get_or (segments (k + delay c)) c z ≡ get_or (frames k) c z) where
    -- If column `c` of frame `k` is sent in segment `k + delay c`, as the standard's interleaver does,
    -- the call with segment `t + 16` passes on exactly frame `t`.
    pub deinterleave_frame :
        (t : ℕ)
        → length (frames t) ≡ width
        → (interleave_segment z width (after_calls (t + 16)) (segments (t + 16))).0
          ≡ some (frames t)
    deinterleave_frame t hl =
        let s = after_calls (t + 16) in
        let d = segments (t + 16) in
        let v = calls-Inv (t + 16) in
        let inside : s.index < 16 = omega (arith, v.at) in
        let temp = (segment_loop z d s.index width 0 s.rows).0 in
        let sized : length temp ≡ width =
          length-segment_loop z d s.index width inside width 0 s.rows in
        segment_passed z width s d (omega (arith, v.filled))
        ∙ ap some (
            list_ext temp (frames t) z (sized ∙ sym hl) λ c hc.
              segment_loop_temp z d s.index width inside width 0 s.rows c v.grid
                (omega (arith, sized))
              ∙ ap₂ (λ r c. cell z s.rows r c) (row_of t c s.index v.at) (omega arith)
              ∙ v.recent (t + delay c) c (omega arith) (omega arith) (omega (arith, sized))
              ∙ sent t c (omega (arith, sized)))
