-- ===== src/Mp4Processor/Sync/Steps.antt =====
-- The synchronisation as an automaton over the number of blocks and mSuperFrameSync.
use dabstar.Prelude.{
  ℕ, ◌+◌, ◌-◌, ◌*◌, ◌%◌, ◌≤◌, ◌<◌, ◌≡◌, ◌≢◌, ◌⊎◌, refl, sym, ap, ◌∙◌, Bool, true, false, List,
  Option, some, leb, if◌then◌else◌, Bool-cases, inl, inr, take, drop, arith,
}
use mathlib.Core.Path.{transport}
use mathlib.Core.Option.{some-injective}
use native.Mathlib.Decide.{ℕ_discrete}
use dabstar.Firecode.{firecode_checker, check}
use dabstar.Mp4Processor.{Outside, Mp4Processor}
use dabstar.Mp4Processor.AccessUnits.{process_super_frame}
use dabstar.Mp4Processor.Sync.{
  num_bytes, add_block, count_frame, search_start, use_super_frame, add_to_frame,
}
use dabstar.Mp4Processor.Sync.Outcome.{
  nonzero_test, zero_test, else_branch, then_branch, Phase, use_super_frame-Outcome,
  count_frame-Unmoved,
}

-- What a call of add_to_frame finds: a super frame is not complete; the five blocks do not begin
-- with a right Fire code, which is looked at in the search only; `_process_super_frame` accepts them;
-- or it rejects them.
pub data Verdict : Type 0 where
  no_block : Verdict
  no_start : Verdict
  accepted : Verdict
  rejected : Verdict

-- From the blocks and the count before a call to those after it: a block of a super frame that is
-- not complete; no start found; a super frame accepted; the first one rejected; a later one
-- rejected; and the fourth in a row.
pub data Step : Verdict → ℕ → ℕ → ℕ → ℕ → Type 0 where
  fill : {b y : ℕ} → b < 4 → Step no_block b y (b + 1) y
  search : Step no_start 4 0 4 0
  accept : {y : ℕ} → Step accepted 4 y 0 4
  reject_first : Step rejected 4 0 0 3
  reject : {y : ℕ} → 1 < y → Step rejected 4 y 0 (y - 1)
  give_up : Step rejected 4 1 4 0

-- The automaton stays within its bounds.
Step-le : {k : Verdict} {b y c z : ℕ} → Step k b y c z → y ≤ 4 → (c ≤ 4) × (z ≤ 4)
Step-le (fill h) l = (omega arith, l)
Step-le search l = (omega arith, omega arith)
Step-le accept l = (omega arith, omega arith)
Step-le reject_first l = (omega arith, omega arith)
Step-le (reject h) l = (omega arith, omega arith)
Step-le give_up l = (omega arith, omega arith)

moved :
    {k : Verdict} {b y c z : ℕ} (b1 y1 c1 z1 : ℕ)
    → b ≡ b1
    → y ≡ y1
    → c ≡ c1
    → z ≡ z1
    → Step k b1 y1 c1 z1
    → Step k b y c z
moved {k} b1 y1 c1 z1 p q r u step =
    transport (λ i. Step k (sym p i) (sym q i) (sym r i) (sym u i)) step

full : (b : ℕ) → leb 5 (b + 1) ≡ true → b ≤ 4 → b ≡ 4
full b h l = ground (arith, h, l)

not_full : (b : ℕ) → leb 5 (b + 1) ≡ false → b < 4
not_full b h = ground (arith, h)

module _ {ℓ} {D : Type ℓ} (o : Outside D) where
  -- The test of the search, where the next block to be overwritten is the oldest one.
  abbrev pub begins : Mp4Processor D → Bool
  begins u =
      check firecode_checker
        (take 11 (drop (u.block_fill_index * num_bytes u.bit_rate) u.frame_byte_vec))

  -- What _process_super_frame makes of the five blocks.
  abbrev pub judged : Mp4Processor D → Option (Bool × Mp4Processor D)
  judged u =
      let w = search_start o u in
      process_super_frame o (w.block_fill_index * num_bytes w.bit_rate)
        (record w { blocks_in_buffer = 0 })

  -- The verdict on a state with the new block stored and counted.
  pub data IsFound (u : Mp4Processor D) : Verdict → Type ℓ where
    waits : IsFound u no_block
    unfound : u.super_frame_sync ≡ 0 → begins u ≡ false → IsFound u no_start
    approved :
        (u.super_frame_sync ≢ 0) ⊎ (begins u ≡ true)
        → (t : Mp4Processor D) → judged u ≡ some (true, t)
        → IsFound u accepted
    refused :
        (u.super_frame_sync ≢ 0) ⊎ (begins u ≡ true)
        → (t : Mp4Processor D) → judged u ≡ some (false, t)
        → IsFound u rejected

  -- What a search gives: nothing to search, no start, or one.
  search_start-cases :
      (s : Mp4Processor D)
      → ((search_start o s).block_fill_index ≡ s.block_fill_index)
        × (((s.super_frame_sync ≢ 0) × ((search_start o s).super_frame_sync ≡ s.super_frame_sync))
            ⊎ ((s.super_frame_sync ≡ 0)
                × (begins s ≡ true)
                × ((search_start o s).super_frame_sync ≡ 4))
            ⊎ ((s.super_frame_sync ≡ 0)
                × (begins s ≡ false)
                × ((search_start o s).super_frame_sync ≡ 0)
                × ((search_start o s).blocks_in_buffer ≡ 4)))
  unfolding search_start
  search_start-cases s = elim (ℕ_discrete s.super_frame_sync 0) [
    | no n ↦ rw (nonzero_test s.super_frame_sync n) (refl, inl (n, refl))
    | yes e ↦ elim (Bool-cases (begins s)) [
      | inl b ↦ rw (zero_test s.super_frame_sync e, b) (refl, inr (inl (e, refl, refl)))
      | inr b ↦ rw (zero_test s.super_frame_sync e, b) (refl, inr (inr (e, refl, e, refl)))
    ]
  ]

  unused : (w : Mp4Processor D) → w.super_frame_sync ≡ 0 → use_super_frame o w ≡ some w
  unfolding use_super_frame
  unused w e = rw (zero_test w.super_frame_sync e) refl

  -- The step that a judgement makes, from the count `y` that it finds.
  judged-Step :
      (s t : Mp4Processor D)
      → (s.super_frame_sync ≢ 0) ⊎ (begins s ≡ true)
      → (search_start o s).super_frame_sync ≢ 0
      → ((good : Bool)
          → Phase good (search_start o s).super_frame_sync t.blocks_in_buffer t.super_frame_sync
          → Step
              (if good then accepted else rejected)
              4
              s.super_frame_sync
              t.blocks_in_buffer
              t.super_frame_sync)
      → use_super_frame o (search_start o s) ≡ some t
      → (t.block_fill_index ≡ (search_start o s).block_fill_index)
        × (k : Verdict) × IsFound s k
        × Step k 4 s.super_frame_sync t.blocks_in_buffer t.super_frame_sync
  judged-Step s t due n step h =
      let (r, e, out) = use_super_frame-Outcome o (search_start o s) t n h in
      let (k, found, taken) = by_result r e out.phase in (out.fill_index, k, found, taken)
    where
      by_result :
          (r : Bool × Mp4Processor D)
          → judged s ≡ some r
          → Phase r.0 (search_start o s).super_frame_sync t.blocks_in_buffer t.super_frame_sync
          → (k : Verdict) × IsFound s k
            × Step k 4 s.super_frame_sync t.blocks_in_buffer t.super_frame_sync
      by_result (true, r) e p = (accepted, approved due r e, step true p)
      by_result (false, r) e p = (rejected, refused due r e, step false p)

  -- The step of a judgement while a super frame is waited for, and of the first one.
  by_later :
      (y x c z : ℕ) (good : Bool)
      → x ≡ y
      → Phase good x c z
      → Step (if good then accepted else rejected) 4 y c z
  by_later y x c z true kept (b, e) = moved 4 y 0 4 refl refl b e accept
  by_later y x c z false kept (inl (more, b, e)) =
      moved 4 y 0 (y - 1) refl refl b (e ∙ ap (λ y. y - 1) kept)
        (reject (omega (arith, more, kept)))
  by_later y x c z false kept (inr (last, b, e)) = moved 4 1 4 0 refl (sym kept ∙ last) b e give_up

  by_first :
      (y x c z : ℕ) (good : Bool)
      → y ≡ 0
      → x ≡ 4
      → Phase good x c z
      → Step (if good then accepted else rejected) 4 y c z
  by_first y x c z true none_yet four (b, e) = moved 4 0 0 4 refl none_yet b e accept
  by_first y x c z false none_yet four (inl (more, b, e)) =
      moved 4 0 0 3 refl none_yet b (e ∙ ap (λ y. y - 1) four) reject_first
  by_first y x c z false none_yet four (inr (last, b, e)) = absurd (omega (arith, last, four))

  -- A call that comes to the fifth block.
  full-Step :
      (s t : Mp4Processor D)
      → use_super_frame o (search_start o s) ≡ some t
      → (t.block_fill_index ≡ s.block_fill_index)
        × (k : Verdict) × IsFound s k
        × Step k 4 s.super_frame_sync t.blocks_in_buffer t.super_frame_sync
  full-Step s t h =
      let w = search_start o s in
      let (index, found) = search_start-cases s in
      elim found [
        | inl (n, kept) ↦
            let (i, k, seen, step) =
              judged-Step s t (inl n) (λ e. n (sym kept ∙ e))
                (λ good p. by_later s.super_frame_sync w.super_frame_sync _ _ good kept p) h in
            (i ∙ index, k, seen, step)
        | inr (inl (e, begun, four)) ↦
            let (i, k, seen, step) =
              judged-Step s t (inr begun) (λ z. absurd (omega (arith, z, four)))
                (λ good p. by_first s.super_frame_sync w.super_frame_sync _ _ good e four p) h in
            (i ∙ index, k, seen, step)
        | inr (inr (e, missing, zero_left, b)) ↦
            let stays : use_super_frame o w ≡ some w = unused w zero_left in
            let same = some-injective _ _ (sym stays ∙ h) in
            (
              ap (λ t. t.block_fill_index) (sym same) ∙ index,
              no_start,
              unfound e missing,
              moved 4 0 4 0 refl e (ap (λ t. t.blocks_in_buffer) (sym same) ∙ b)
                  (ap (λ t. t.super_frame_sync) (sym same) ∙ zero_left) search,
            )
      ]

  -- A call of `add_to_frame` that returns, in a state with at most four blocks and a count of at most
  -- four, is one step of the automaton over these two numbers, moves on to the next of the five
  -- places of the ring, and keeps both bounds. The step is that of the call's verdict: it accepts
  -- exactly if `_process_super_frame` does, rejects exactly if that fails, and a search goes on
  -- exactly if the Fire code is wrong.
  pub add_to_frame-Step :
      (v : List Bool) (s t : Mp4Processor D)
      → s.blocks_in_buffer ≤ 4
      → s.super_frame_sync ≤ 4
      → add_to_frame o v s ≡ some t
      → (k : Verdict) × IsFound (count_frame o (add_block o v s)) k
        × Step k s.blocks_in_buffer s.super_frame_sync t.blocks_in_buffer t.super_frame_sync
        × (t.block_fill_index ≡ (s.block_fill_index + 1) % 5)
        × (t.blocks_in_buffer ≤ 4)
        × (t.super_frame_sync ≤ 4)
  unfolding add_to_frame add_block
  add_to_frame-Step v s t hb hy h =
      let u = add_block o v s in
      let counted = count_frame-Unmoved o u in
      let made = use_super_frame o (search_start o (count_frame o u)) in
      elim (Bool-cases (leb 5 (s.blocks_in_buffer + 1))) [
        | inl b ↦
            let four : s.blocks_in_buffer ≡ 4 = full s.blocks_in_buffer b hb in
            let (index, k, seen, step) =
              full-Step (count_frame o u) t
                (sym (then_branch (leb 5 (s.blocks_in_buffer + 1)) made (some u) b) ∙ h) in
            let moved_step =
              moved 4 (count_frame o u).super_frame_sync _ _ four (sym counted.sync) refl refl
                step in
            let (c, z) = Step-le moved_step hy in (k, seen, moved_step, index ∙ counted.fill, c, z)
        | inr b ↦
            let same =
              some-injective _ _
                (sym (else_branch (leb 5 (s.blocks_in_buffer + 1)) made (some u) b) ∙ h) in
            let moved_step =
              moved s.blocks_in_buffer s.super_frame_sync (s.blocks_in_buffer + 1)
                s.super_frame_sync refl refl (ap (λ t. t.blocks_in_buffer) (sym same))
                (ap (λ t. t.super_frame_sync) (sym same)) (fill (not_full s.blocks_in_buffer b)) in
            let (c, z) = Step-le moved_step hy in
            (no_block, waits, moved_step, ap (λ t. t.block_fill_index) (sym same), c, z)
      ]
