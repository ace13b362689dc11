-- ===== src/Mp4Processor/Sync/Outcome.antt =====
-- What the call of _process_super_frame leaves of the synchronisation.
use dabstar.Prelude.{
  ℕ, ◌+◌, ◌-◌, ◌*◌, ◌<◌, ◌≡◌, ◌≢◌, ◌⊎◌, refl, sym, ap, ◌∙◌, Bool, true, false, Option, none, some,
  ◌>>=◌, ◌==◌, ltb, leb, if◌then◌else◌, Bool-cases, inl, inr, arith,
}
use mathlib.Core.Path.{subst}
use mathlib.Core.Option.{some-injective, none-ne-some}
use dabstar.Mp4Processor.{Outside, Mp4Processor}
use dabstar.Mp4Processor.AccessUnits.{process_super_frame}
use dabstar.Mp4Processor.Sync.{num_bytes, count_frame, after_super_frame, use_super_frame}
use dabstar.Mp4Processor.Sync.Unmoved.{Unmoved, process_super_frame-Unmoved}

pub nonzero_test : (n : ℕ) → n ≢ 0 → (n == 0) ≡ false
nonzero_test n h = ground (arith, h)

pub zero_test : (n : ℕ) → n ≡ 0 → (n == 0) ≡ true
zero_test n h = ground (arith, h)

pub else_branch {ℓ} : {A : Type ℓ} (b : Bool) (x y : A) → b ≡ false → (if b then x else y) ≡ y
else_branch true x y h = ground (arith, h)
else_branch false x y h = refl

pub then_branch {ℓ} : {A : Type ℓ} (b : Bool) (x y : A) → b ≡ true → (if b then x else y) ≡ x
then_branch true x y h = refl
then_branch false x y h = ground (arith, h)

-- What a chain that returns went through.
pub bound_some {ℓ κ} :
    {A : Type ℓ} {B : Type κ} (m : Option A) (f : A → B) (t : B)
    → (m >>= λ r. some (f r)) ≡ some t
    → (r : A) × (m ≡ some r) × (f r ≡ t)
bound_some none f t h = absurd (none-ne-some t h)
bound_some (some r) f t h = (r, refl, some-injective _ _ h)

-- The numbers after _process_super_frame, from its result, with `y` for the count before.
abbrev pub Phase : Bool → ℕ → ℕ → ℕ → Type 0
Phase true y c z = (c ≡ 0) × (z ≡ 4)
Phase false y c z = ((1 < y) × (c ≡ 0) × (z ≡ y - 1)) ⊎ ((y ≡ 1) × (c ≡ 4) × (z ≡ 0))

module _ {ℓ} {D : Type ℓ} (o : Outside D) where
  pub record Outcome (good : Bool) (y : ℕ) (w t : Mp4Processor D) : Type 0 where
    pub fill_index : t.block_fill_index ≡ w.block_fill_index
    pub phase : Phase good y t.blocks_in_buffer t.super_frame_sync

  after_super_frame-Outcome :
      (good : Bool) (w t : Mp4Processor D)
      → w.super_frame_sync ≢ 0
      → Unmoved (record w { blocks_in_buffer = 0 }) t
      → Outcome good w.super_frame_sync w (after_super_frame o good t)
  unfolding after_super_frame
  after_super_frame-Outcome true w t n u = elim (Bool-cases (ltb 25 (t.success_frames + 1))) [
    | inl b ↦ rw b (record { fill_index = u.fill; phase = (u.blocks, refl) })
    | inr b ↦ rw b (record { fill_index = u.fill; phase = (u.blocks, refl) })
  ]
  after_super_frame-Outcome false w t n u = elim (Bool-cases (t.super_frame_sync - 1 == 0)) [
    | inl b ↦ rw b (record {
      fill_index = u.fill;
      phase = inr (ground (arith, b, n, u.sync), refl, ground (arith, b));
    })
    | inr b ↦ rw b (record {
      fill_index = u.fill;
      phase = inl (ground (arith, b, u.sync), u.blocks, ap (λ y. y - 1) u.sync);
    })
  ]

  pub use_super_frame-Outcome :
      (w t : Mp4Processor D)
      → w.super_frame_sync ≢ 0
      → use_super_frame o w ≡ some t
      → (r : Bool × Mp4Processor D) × (process_super_frame o
            (w.block_fill_index * num_bytes w.bit_rate)
            (record w { blocks_in_buffer = 0 })
          ≡ some r)
        × Outcome r.0 w.super_frame_sync w t
  unfolding use_super_frame
  use_super_frame-Outcome w t n h =
      let base = w.block_fill_index * num_bytes w.bit_rate in
      let started : Mp4Processor D = record w { blocks_in_buffer = 0 } in
      let made = process_super_frame o base started in
      let taken : (made >>= λ r. some (after_super_frame o r.0 r.1)) ≡ some t =
        sym (else_branch (w.super_frame_sync == 0) (some w) _ (nonzero_test w.super_frame_sync n))
        ∙ h in
      let (r, e, result) = bound_some made (λ r. after_super_frame o r.0 r.1) t taken in
      (
        r,
        e,
        subst (Outcome r.0 w.super_frame_sync w) result (
            after_super_frame-Outcome r.0 w r.1 n (process_super_frame-Unmoved o base started r e)),
      )

  pub count_frame-Unmoved : (s : Mp4Processor D) → Unmoved s (count_frame o s)
  unfolding count_frame
  count_frame-Unmoved s = elim (Bool-cases (leb 25 (s.frame_count + 1))) [
    | inl b ↦ rw b (record { bit_rate = refl; fill = refl; blocks = refl; sync = refl })
    | inr b ↦ rw b (record { bit_rate = refl; fill = refl; blocks = refl; sync = refl })
  ]
