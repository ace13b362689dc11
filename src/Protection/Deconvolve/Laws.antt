-- ===== src/Protection/Deconvolve/Laws.antt =====
-- Where the depuncturing loop puts a frame's soft bits, and that a frame leaves no trace in the next.
use mathlib.Core.Logic.{◌≢◌}
use mathlib.Core.Path.{subst, ap₂, ◌≡⟨◌⟩◌, ◌∎}
use mathlib.Core.Option.{some-injective}
use dabstar.Prelude.{
  ℕ, ◌+◌, ◌≤◌, ◌<◌, ◌≡◌, refl, sym, ap, ◌∙◌, List, [], ◌∷◌, some, map, length, take, get_or, set,
  set-set, set_comm, length-set, get_or-set_self, get_or-set_ne, All, arith, ◌>>=◌,
}
use dabstar.Protection.Marks.Valid.{Rises, Rises-lower, Rises-le}
use dabstar.Protection.Deconvolve.{depuncture}

abbrev Avoids : ℕ → List ℕ → Type 0
Avoids j = All (λ a. a ≢ j)

Rises-Avoids : (adr : List ℕ) (lo hi : ℕ) (j : ℕ) → j < lo → Rises lo adr hi → Avoids j adr
Rises-Avoids [] lo hi j h r = tt
Rises-Avoids (a ∷ adr) lo hi j h r =
    ((λ e. absurd (omega (arith, e))), Rises-Avoids adr (a + 1) hi j (omega arith) r.1)

module _ {ℓ} {A : Type ℓ} where
  -- An entry of the block that no address names is left alone.
  pub get_or-depuncture_ne :
      (adr : List ℕ) (v block block' : List A) (j : ℕ) (d : A)
      → Avoids j adr
      → depuncture adr v block ≡ some block'
      → get_or block' j d ≡ get_or block j d
  unfolding depuncture
  get_or-depuncture_ne [] v block block' j d n e =
      ap (λ b. get_or b j d) (sym (some-injective _ _ e))
  get_or-depuncture_ne (a ∷ adr) [] block block' j d n e = cc
  get_or-depuncture_ne (a ∷ adr) (x ∷ v) block block' j d n e =
      get_or-depuncture_ne adr v (set block a x) block' j d n.1 e ∙ get_or-set_ne block x d n.0

  -- The loop never reads behind a frame that has a soft bit for each address.
  pub depuncture_total :
      (adr : List ℕ) (v block : List A)
      → length adr ≤ length v
      → (block' : List A) × (depuncture adr v block ≡ some block')
  unfolding depuncture
  depuncture_total [] v block h = (block, refl)
  depuncture_total (a ∷ adr) [] block h = absurd (omega arith)
  depuncture_total (a ∷ adr) (x ∷ v) block h = depuncture_total adr v (set block a x) (omega arith)

  pub get_or-depuncture :
      (adr : List ℕ) (lo : ℕ) (v block block' : List A) (d : A)
      → Rises lo adr (length block)
      → depuncture adr v block ≡ some block'
      → map (λ a. get_or block' a d) adr ≡ take (length adr) v
  unfolding depuncture
  get_or-depuncture [] lo v block block' d r e = refl
  get_or-depuncture (a ∷ adr) lo [] block block' d r e = cc
  get_or-depuncture (a ∷ adr) lo (x ∷ v) block block' d r e =
      let sized = length-set block a x in
      let r' : Rises (a + 1) adr (length (set block a x)) =
        subst (λ n. Rises (a + 1) adr n) (sym sized) r.1 in
      let first : get_or block' a d ≡ x =
        get_or-depuncture_ne adr v (set block a x) block' a d
          (Rises-Avoids adr (a + 1) (length block) a (omega arith) r.1) e
        ∙ get_or-set_self block a x d (omega (arith, Rises-le adr (a + 1) (length block) r.1)) in
      ap₂ ◌∷◌ first (get_or-depuncture adr (a + 1) v (set block a x) block' d r' e)

  set-depuncture :
      (adr : List ℕ) (hi : ℕ) (v block : List A) (a : ℕ) (x : A)
      → Rises (a + 1) adr hi
      → depuncture adr v (set block a x) ≡ (depuncture adr v block >>= λ b. some (set b a x))
  unfolding depuncture
  set-depuncture [] hi v block a x r = refl
  set-depuncture (b ∷ adr) hi [] block a x r = refl
  set-depuncture (b ∷ adr) hi (y ∷ v) block a x r =
      ap (depuncture adr v) (set_comm block x y (λ e. absurd (omega (arith, e, r.0))))
      ∙ set-depuncture adr hi v (set block b y) a x
          (Rises-lower adr (b + 1) hi (a + 1) (omega arith) r.1)

  -- The block after a frame depends on that frame and on the entries that no address names: what an
  -- earlier frame left at the addresses is overwritten.
  pub depuncture_again :
      (adr : List ℕ) (lo hi : ℕ) (v w block block' : List A)
      → Rises lo adr hi
      → length adr ≤ length w
      → depuncture adr v block ≡ some block'
      → depuncture adr w block' ≡ depuncture adr w block
  unfolding depuncture
  depuncture_again [] lo hi v w block block' r h e = sym e
  depuncture_again (a ∷ adr) lo hi [] w block block' r h e = cc
  depuncture_again (a ∷ adr) lo hi (x ∷ v) [] block block' r h e = absurd (omega arith)
  depuncture_again (a ∷ adr) lo hi (x ∷ v) (y ∷ w) block block' r h e =
      let (b, eb) = depuncture_total adr w block (omega arith) in
      depuncture adr w (set block' a y)
      ≡⟨ set-depuncture adr hi w block' a y r.1 ⟩
        (depuncture adr w block' >>= λ b. some (set b a y))
      ≡⟨ ap (λ o. o >>= λ b. some (set b a y))
          (depuncture_again adr (a + 1) hi v w (set block a x) block' r.1 (omega arith) e) ⟩
        (depuncture adr w (set block a x) >>= λ b. some (set b a y))
      ≡⟨ ap (λ o. o >>= λ b. some (set b a y)) (set-depuncture adr hi w block a x r.1) ⟩
        ((depuncture adr w block >>= λ b. some (set b a x)) >>= λ b. some (set b a y))
      ≡⟨ rw eb (ap some (set-set b a x y)) ⟩ (depuncture adr w block >>= λ b. some (set b a y))
      ≡⟨ sym (set-depuncture adr hi w block a y r.1) ⟩ depuncture adr w (set block a y) ∎
