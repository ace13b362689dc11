-- ===== src/RingBuffer/Appends/Stored.antt =====
-- The one or two regions of a put: where the new elements stand, and that the others stay.
use dabstar.Prelude.{
  ℕ, zero, suc, ◌+◌, ◌-◌, ◌%◌, ◌≤◌, ◌<◌, ◌≡◌, ◌⊎◌, false, refl, sym, ap, ◌∙◌, List, ◌∷◌, get_or,
  take, drop, length, length-take, length-drop, ltb, if◌then◌else◌, true, Bool-cases, inl, inr,
  arith,
}
use mathlib.Core.Path.{ap₂}
use dabstar.RingBuffer.{region_sizes, copy_to}
use dabstar.RingBuffer.Levels.{mod_once}
use dabstar.RingBuffer.Oldest.{window, drop_step}
use dabstar.RingBuffer.Appends.Copies.{
  get_or-take, get_or-drop, copy_to_inside, copy_to_outside, length-copy_to,
}

module _ {ℓ} {A : Type ℓ} (z : A) where
  -- The place `q` behind `w`, around a buffer of `m`.
  place :
      (m w q : ℕ)
      → w < m
      → q < m
      → ((w + q < m) × ((w + q) % m ≡ w + q)) ⊎ ((m ≤ w + q) × ((w + q) % m ≡ w + q - m))
  place m w q hw hq = elim (Bool-cases (ltb (w + q) m)) [
    | inl small ↦ inl (ground arith, mod_once (w + q) m (omega arith) ∙ rw small refl)
    | inr big ↦ inr (ground arith, mod_once (w + q) m (omega arith) ∙ rw big refl)
  ]

  -- The buffer after the one or two copies of a put of `n` elements.
  abbrev pub stored : List A → ℕ → ℕ → ℕ → List A → List A
  stored buf m w n xs =
      let (size1, size2) = region_sizes m w n in
      let once = copy_to buf w (take size1 xs) in
      if ltb 0 size2 then copy_to once 0 (take size2 (drop size1 xs)) else once

  straight :
      (buf : List A) (m w n : ℕ) (xs : List A)
      → w + n ≤ m
      → stored buf m w n xs ≡ copy_to buf w (take n xs)
  straight buf m w n xs h = rw (fits m (w + n) h) refl
    where
      fits : (a b : ℕ) → b ≤ a → ltb a b ≡ false
      fits a b l = ground (arith, l)

  around :
      (buf : List A) (m w n : ℕ) (xs : List A)
      → w < m
      → m < w + n
      → stored buf m w n xs
        ≡ copy_to (copy_to buf w (take (m - w) xs)) 0 (take (n - (m - w)) (drop (m - w) xs))
  around buf m w n xs hw h = rw (wraps m (w + n) h, wraps 0 (n - (m - w)) (omega arith)) refl
    where
      wraps : (a b : ℕ) → a < b → ltb a b ≡ true
      wraps a b l = ground (arith, l)

  stored_entry :
      (buf : List A) (m w n : ℕ) (xs : List A) (q : ℕ)
      → length buf ≡ m
      → w < m
      → n ≤ m
      → n ≤ length xs
      → q < n
      → get_or (stored buf m w n xs) ((w + q) % m) z ≡ get_or xs q z
  stored_entry buf m w n xs q e hw hn hx hq = elim (Bool-cases (ltb m (w + n))) [
    | inr b ↦
        let fits : w + n ≤ m = ground (arith, b) in
        let count = length-take n xs hx in
        elim (place m w q hw (omega arith)) [
          | inl (low, p) ↦
              ap₂ (λ l i. get_or l i z) (straight buf m w n xs fits) p
              ∙ copy_to_inside z buf w (take n xs) (w + q) (omega (arith, count)) (omega arith)
                  (omega (arith, count))
              ∙ ap (λ i. get_or (take n xs) i z) (let i : w + q - w ≡ q = omega arith in i)
              ∙ get_or-take z n xs q hq
          | inr (high, p) ↦ absurd (omega (arith, high, fits))
        ]
    | inl b ↦
        let over : m < w + n = ground (arith, b) in
        let first = take (m - w) xs in
        let second = take (n - (m - w)) (drop (m - w) xs) in
        let c1 : length first ≡ m - w = length-take (m - w) xs (omega arith) in
        let c2 : length second ≡ n - (m - w) =
          length-take (n - (m - w)) (drop (m - w) xs) (omega (arith, length-drop (m - w) xs)) in
        let once : length (copy_to buf w first) ≡ length buf =
          length-copy_to z buf w first (omega (arith, c1)) in
        elim (place m w q hw (omega arith)) [
          | inl (low, p) ↦
              ap₂ (λ l i. get_or l i z) (around buf m w n xs hw over) p
              ∙ copy_to_outside z (copy_to buf w first) 0 second (w + q) (omega (arith, c2, once))
                  (inr (omega (arith, c2)))
              ∙ copy_to_inside z buf w first (w + q) (omega (arith, c1)) (omega arith)
                  (omega (arith, c1))
              ∙ ap (λ i. get_or first i z) (let i : w + q - w ≡ q = omega arith in i)
              ∙ get_or-take z (m - w) xs q (omega (arith, low))
          | inr (high, p) ↦
              ap₂ (λ l i. get_or l i z) (around buf m w n xs hw over) p
              ∙ copy_to_inside z (copy_to buf w first) 0 second (w + q - m)
                  (omega (arith, c2, once)) (omega arith) (omega (arith, c2, high))
              ∙ get_or-take z (n - (m - w)) (drop (m - w) xs) (w + q - m - 0) (omega (arith, high))
              ∙ get_or-drop z (m - w) xs (w + q - m - 0)
              ∙ ap (λ i. get_or xs i z)
                  (let i : m - w + (w + q - m - 0) ≡ q = omega (arith, high) in i)
        ]
  ]

  stored_other :
      (buf : List A) (m w n : ℕ) (xs : List A) (q : ℕ)
      → length buf ≡ m
      → w < m
      → n ≤ length xs
      → n ≤ q
      → q < m
      → get_or (stored buf m w n xs) ((w + q) % m) z ≡ get_or buf ((w + q) % m) z
  stored_other buf m w n xs q e hw hx lo hq = elim (Bool-cases (ltb m (w + n))) [
    | inr b ↦
        let fits : w + n ≤ m = ground (arith, b) in
        let count = length-take n xs hx in
        ap (λ l. get_or l ((w + q) % m) z) (straight buf m w n xs fits)
        ∙ copy_to_outside z buf w (take n xs) ((w + q) % m) (omega (arith, count))
            (elim (place m w q hw hq) [
              | inl (low, p) ↦ inr (omega (arith, p, count))
              | inr (high, p) ↦ inl (omega (arith, p, high))
            ])
    | inl b ↦
        let over : m < w + n = ground (arith, b) in
        let first = take (m - w) xs in
        let second = take (n - (m - w)) (drop (m - w) xs) in
        let c1 : length first ≡ m - w = length-take (m - w) xs (omega arith) in
        let c2 : length second ≡ n - (m - w) =
          length-take (n - (m - w)) (drop (m - w) xs) (omega (arith, length-drop (m - w) xs)) in
        let once : length (copy_to buf w first) ≡ length buf =
          length-copy_to z buf w first (omega (arith, c1)) in
        elim (place m w q hw hq) [
          | inl (low, p) ↦ absurd (omega (arith, low, over))
          | inr (high, p) ↦
              ap (λ l. get_or l ((w + q) % m) z) (around buf m w n xs hw over)
              ∙ copy_to_outside z (copy_to buf w first) 0 second ((w + q) % m)
                  (omega (arith, c2, once)) (inr (omega (arith, c2, p, over)))
              ∙ copy_to_outside z buf w first ((w + q) % m) (omega (arith, c1))
                  (inl (omega (arith, p, high)))
        ]
  ]

  -- Behind the new elements the buffer is as before, and the new elements stand in order.
  pub window_kept :
      (buf : List A) (m w n : ℕ) (xs : List A) (j k : ℕ)
      → length buf ≡ m
      → w < m
      → n ≤ length xs
      → n ≤ j
      → j + k ≤ m
      → window z (stored buf m w n xs) m (w + j) k ≡ window z buf m (w + j) k
  unfolding window
  window_kept buf m w n xs j zero e hw hx lo hi = refl
  window_kept buf m w n xs j (suc k) e hw hx lo hi =
      let next : w + j + 1 ≡ w + (j + 1) = omega arith in
      ap₂ (λ x l. x ∷ l) (stored_other buf m w n xs j e hw hx lo (omega arith))
        (ap (λ i. window z (stored buf m w n xs) m i k) next
          ∙ window_kept buf m w n xs (j + 1) k e hw hx (omega arith) (omega arith)
          ∙ ap (λ i. window z buf m i k) (sym next))

  pub window_stored :
      (buf : List A) (m w n : ℕ) (xs : List A) (j k : ℕ)
      → length buf ≡ m
      → w < m
      → n ≤ m
      → n ≤ length xs
      → j + k ≤ n
      → window z (stored buf m w n xs) m (w + j) k ≡ take k (drop j xs)
  unfolding window
  window_stored buf m w n xs j zero e hw hn hx hi = refl
  window_stored buf m w n xs j (suc k) e hw hn hx hi =
      let next : w + j + 1 ≡ w + suc j = omega arith in
      ap₂ (λ x l. x ∷ l) (stored_entry buf m w n xs j e hw hn hx (omega arith))
        (ap (λ i. window z (stored buf m w n xs) m i k) next
          ∙ window_stored buf m w n xs (suc j) k e hw hn hx (omega arith))
      ∙ ap (take (suc k)) (sym (drop_step z xs j (omega arith)))
