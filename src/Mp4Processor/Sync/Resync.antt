-- ===== src/Mp4Processor/Sync/Resync.antt =====
-- How long the processor holds on to a synchronisation that has gone.
use dabstar.Prelude.{
  ℕ, ◌+◌, ◌-◌, ◌*◌, ◌≤◌, ◌<◌, ◌≡◌, ◌⊎◌, inl, inr, refl, sym, ap, ◌∙◌, Bool, List, [], ◌∷◌, Option,
  none, some, true, ◌>>=◌, length, arith,
}
use mathlib.Core.Option.{some-injective, none-ne-some}
use dabstar.Mp4Processor.{Outside, Mp4Processor}
use dabstar.Mp4Processor.Sync.{add_block, count_frame, add_to_frame}
use dabstar.Mp4Processor.Sync.Steps.{
  Verdict, no_block, no_start, accepted, rejected, IsFound, approved, judged, Step, fill, search,
  accept, reject_first, reject, give_up, add_to_frame-Step,
}

-- The five kinds of a step, with what they do to the blocks and the count.
kinds :
    {k : Verdict} {b y c z : ℕ}
    → Step k b y c z
    → ((c ≡ b + 1) × (z ≡ y))
      ⊎ (y ≡ 0)
      ⊎ (k ≡ accepted)
      ⊎ ((b ≡ 4) × (1 < y) × (c ≡ 0) × (z ≡ y - 1))
      ⊎ ((b ≡ 4) × (y ≡ 1) × (c ≡ 4) × (z ≡ 0))
kinds (fill h) = inl (refl, refl)
kinds search = inr (inl refl)
kinds accept = inr (inr (inl refl))
kinds reject_first = inr (inl refl)
kinds (reject h) = inr (inr (inr (inl (refl, h, refl, refl))))
kinds give_up = inr (inr (inr (inr (refl, refl, refl, refl))))

bound_next {ℓ κ} :
    {A : Type ℓ} {B : Type κ} (m : Option A) (k : A → Option B) (t : B)
    → (m >>= k) ≡ some t
    → (a : A) × (m ≡ some a) × (k a ≡ some t)
bound_next none k t h = absurd (none-ne-some t h)
bound_next (some a) k t h = (a, refl, h)

-- `_process_super_frame` accepts the five blocks that are there in one of the calls for the frames.
pub data Accepts {ℓ} {D : Type ℓ} (o : Outside D) : List (List Bool) → Mp4Processor D → Type ℓ where
  here :
      {v : List Bool} {vs : List (List Bool)} {s : Mp4Processor D} (t : Mp4Processor D)
      → add_to_frame o v s ≡ some t
      → (r : Mp4Processor D) → judged o (count_frame o (add_block o v s)) ≡ some (true, r)
      → Accepts o (v ∷ vs) s
  later :
      {v : List Bool} {vs : List (List Bool)} {s : Mp4Processor D} (t : Mp4Processor D)
      → add_to_frame o v s ≡ some t
      → Accepts o vs t
      → Accepts o (v ∷ vs) s

module _ {ℓ} {D : Type ℓ} (o : Outside D) where
  -- One call for each of the frames.
  unfoldable pub add_frames : List (List Bool) → Mp4Processor D → Option (Mp4Processor D)
  unfolding add_to_frame
  add_frames [] s = some s
  add_frames (v ∷ vs) s = add_to_frame o v s >>= λ t. add_frames vs t

  none_left :
      (vs : List (List Bool)) (s t : Mp4Processor D)
      → length vs ≡ 0
      → add_frames vs s ≡ some t
      → s ≡ t
  unfolding add_frames
  none_left [] s t n h = some-injective _ _ h
  none_left (v ∷ vs) s t n h = absurd (omega (arith, n))

  -- The state `s` waits for a super frame, with a count `y` from 1 to 4 and `b` blocks, at most 4,
  -- in the buffer; `5 * y - b` further frames are added, and every call returns. Then in one of
  -- the calls `_process_super_frame` accepts the blocks, or the count is 0 after the last one, so that the search for a
  -- start goes on at every frame, from the four blocks in the buffer.
  pub add_frames_resync :
      (vs : List (List Bool)) (s t : Mp4Processor D)
      → 0 < s.super_frame_sync
      → s.super_frame_sync ≤ 4
      → s.blocks_in_buffer ≤ 4
      → length vs ≡ 5 * s.super_frame_sync - s.blocks_in_buffer
      → add_frames vs s ≡ some t
      → Accepts o vs s ⊎ ((t.super_frame_sync ≡ 0) × (t.blocks_in_buffer ≡ 4))
  unfolding add_frames
  add_frames_resync [] s t pos hy hb n h = absurd (omega arith)
  add_frames_resync (v ∷ vs) s t pos hy hb n h =
      let (u, e, rest) = bound_next (add_to_frame o v s) (λ t. add_frames vs t) t h in
      let (k, seen, step, _, hb1, hy1) = add_to_frame-Step o v s u hb hy e in
      elim (kinds step) [
        | inl (c, z) ↦
            passed u e (
              add_frames_resync vs u t (omega (arith, z, pos)) hy1 hb1 (omega (arith, c, z, n))
                rest)
        | inr (inl zero_count) ↦ absurd (omega (arith, zero_count, pos))
        | inr (inr (inl same)) ↦ inl (by_verdict u e k seen same)
        | inr (inr (inr (inl (four, more, c, z)))) ↦ passed u e (
            add_frames_resync vs u t (omega (arith, z, more)) hy1 hb1
              (omega (arith, four, c, z, n, more)) rest)
        | inr (inr (inr (inr (four, one, c, z)))) ↦
            let last = none_left vs u t (omega (arith, four, one, n)) rest in
            inr (
              ap (λ t. t.super_frame_sync) (sym last) ∙ z,
              ap (λ t. t.blocks_in_buffer) (sym last) ∙ c,
            )
      ]
    where
      by_verdict :
          (u : Mp4Processor D)
          → add_to_frame o v s ≡ some u
          → (k : Verdict) → IsFound o (count_frame o (add_block o v s)) k
          → k ≡ accepted
          → Accepts o (v ∷ vs) s
      by_verdict u e no_block seen same = ground (arith, same)
      by_verdict u e no_start seen same = ground (arith, same)
      by_verdict u e accepted (approved due r good) same = here u e r good
      by_verdict u e rejected seen same = ground (arith, same)

      passed :
          (u : Mp4Processor D)
          → add_to_frame o v s ≡ some u
          → Accepts o vs u ⊎ ((t.super_frame_sync ≡ 0) × (t.blocks_in_buffer ≡ 4))
          → Accepts o (v ∷ vs) s ⊎ ((t.super_frame_sync ≡ 0) × (t.blocks_in_buffer ≡ 4))
      passed u e (inl a) = inl (later u e a)
      passed u e (inr r) = inr r
