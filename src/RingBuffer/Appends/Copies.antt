-- ===== src/RingBuffer/Appends/Copies.antt =====
-- The loop of put_data_into_ring_buffer that copies a region: the entries of the copied list and the
-- others.
use dabstar.Prelude.{
  ℕ, zero, suc, ◌+◌, ◌-◌, ◌≤◌, ◌<◌, ◌≡◌, ◌⊎◌, refl, ap, ◌∙◌, List, [], ◌∷◌, ◌++◌, get_or, take,
  drop, length, length-append, length-take, length-drop, inl, inr, arith,
}
use dabstar.RingBuffer.{copy_to}

module _ {ℓ} {A : Type ℓ} (z : A) where
  get_or-append_left :
      (xs ys : List A) (j : ℕ) → j < length xs → get_or (xs ++ ys) j z ≡ get_or xs j z
  get_or-append_left [] ys j h = absurd (omega arith)
  get_or-append_left (x ∷ xs) ys zero h = refl
  get_or-append_left (x ∷ xs) ys (suc j) h = get_or-append_left xs ys j (omega arith)

  get_or-append_right :
      (xs ys : List A) (j : ℕ) → length xs ≤ j → get_or (xs ++ ys) j z ≡ get_or ys (j - length xs) z
  get_or-append_right [] ys j h = ap (λ i. get_or ys i z) (omega arith)
  get_or-append_right (x ∷ xs) ys zero h = absurd (omega arith)
  get_or-append_right (x ∷ xs) ys (suc j) h =
      get_or-append_right xs ys j (omega arith) ∙ ap (λ i. get_or ys i z) (omega arith)

  pub get_or-take : (n : ℕ) (xs : List A) (j : ℕ) → j < n → get_or (take n xs) j z ≡ get_or xs j z
  get_or-take zero xs j h = absurd (omega arith)
  get_or-take (suc n) [] j h = refl
  get_or-take (suc n) (x ∷ xs) zero h = refl
  get_or-take (suc n) (x ∷ xs) (suc j) h = get_or-take n xs j (omega arith)

  pub get_or-drop : (n : ℕ) (xs : List A) (j : ℕ) → get_or (drop n xs) j z ≡ get_or xs (n + j) z
  get_or-drop zero xs j = ap (λ i. get_or xs i z) (omega arith)
  get_or-drop (suc n) [] j = refl
  get_or-drop (suc n) (x ∷ xs) j =
      get_or-drop n xs j
      ∙ ap (λ i. get_or (x ∷ xs) i z) (let e : suc (n + j) ≡ suc n + j = omega arith in e)

  -- A copy that fits: its own entries, and the others.
  pub copy_to_inside :
      (buf : List A) (i : ℕ) (xs : List A) (j : ℕ)
      → i + length xs ≤ length buf
      → i ≤ j
      → j < i + length xs
      → get_or (copy_to buf i xs) j z ≡ get_or xs (j - i) z
  copy_to_inside buf i xs j h lo hi =
      let n = length-take i buf (omega arith) in
      get_or-append_right (take i buf) (xs ++ drop (i + length xs) buf) j (omega (arith, n))
      ∙ ap (λ k. get_or (xs ++ drop (i + length xs) buf) (j - k) z) n
      ∙ get_or-append_left xs (drop (i + length xs) buf) (j - i) (omega arith)

  pub copy_to_outside :
      (buf : List A) (i : ℕ) (xs : List A) (j : ℕ)
      → i + length xs ≤ length buf
      → (j < i) ⊎ (i + length xs ≤ j)
      → get_or (copy_to buf i xs) j z ≡ get_or buf j z
  copy_to_outside buf i xs j h (inl below) =
      let n = length-take i buf (omega arith) in
      get_or-append_left (take i buf) (xs ++ drop (i + length xs) buf) j (omega (arith, n))
      ∙ get_or-take i buf j below
  copy_to_outside buf i xs j h (inr above) =
      let n = length-take i buf (omega arith) in
      get_or-append_right (take i buf) (xs ++ drop (i + length xs) buf) j (omega (arith, n))
      ∙ ap (λ k. get_or (xs ++ drop (i + length xs) buf) (j - k) z) n
      ∙ get_or-append_right xs (drop (i + length xs) buf) (j - i) (omega arith)
      ∙ get_or-drop (i + length xs) buf (j - i - length xs)
      ∙ ap (λ k. get_or buf k z) (omega arith)

  pub length-copy_to :
      (buf : List A) (i : ℕ) (xs : List A)
      → i + length xs ≤ length buf
      → length (copy_to buf i xs) ≡ length buf
  length-copy_to buf i xs h = omega (
    arith,
    length-append (take i buf) (xs ++ drop (i + length xs) buf),
    length-append xs (drop (i + length xs) buf),
    length-take i buf (omega arith),
    length-drop (i + length xs) buf,
  )
