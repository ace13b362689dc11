-- ===== src/RingBuffer/Oldest.antt =====
-- What is queued, oldest first, and that reading takes it from the front.
use dabstar.Prelude.{
  ℕ, zero, suc, ◌+◌, ◌-◌, ◌*◌, ◌%◌, ◌≤◌, ◌<◌, ◌≡◌, refl, sym, ap, ◌∙◌, List, [], ◌∷◌, ◌++◌, get_or,
  take, drop, length, ltb, if◌then◌else◌, true, Bool-cases, inl, inr, arith,
}
use Prim.Native.Nat.{min}
use mathlib.Core.Path.{ap₂}
use native.Mathlib.Nat.{mod-eq_of_lt, add-mod_right, mod-add-mod, mod-lt, mod-mod}
use dabstar.RingBuffer.{
  RingBuffer, get_ring_buffer_read_available, advance_ring_buffer_read_index, limited, region_sizes,
  get_data_from_ring_buffer,
}
use dabstar.RingBuffer.Levels.{IsLevel, mod_once, advance_read}

module _ {ℓ} {A : Type ℓ} (z : A) where
  -- `k` entries from position `i` on, around the buffer of `n`.
  unfoldable pub window : List A → ℕ → ℕ → ℕ → List A
  window buf n i zero = []
  window buf n i (suc k) = get_or buf (i % n) z ∷ window buf n (i + 1) k

  abbrev pub queued : RingBuffer A → List A
  queued s = window s.buffer s.buffer_size s.read_index (get_ring_buffer_read_available s)

  pub window_cong :
      (buf : List A) (n i j k : ℕ) → i % n ≡ j % n → window buf n i k ≡ window buf n j k
  unfolding window
  window_cong buf n i j zero e = refl
  window_cong buf n i j (suc k) e =
      let e' : (i + 1) % n ≡ (j + 1) % n =
        sym (mod-add-mod i n 1) ∙ ap (λ r. (r + 1) % n) e ∙ mod-add-mod j n 1 in
      ap₂ (λ x l. x ∷ l) (ap (λ r. get_or buf r z) e) (window_cong buf n (i + 1) (j + 1) k e')

  pub window-add :
      (buf : List A) (n i a b : ℕ)
      → window buf n i (a + b) ≡ window buf n i a ++ window buf n (i + a) b
  unfolding window
  window-add buf n i zero b =
      let none_before : 0 + b ≡ b = omega arith in
      let e : i ≡ i + 0 = omega arith in
      ap (window buf n i) none_before ∙ ap (λ j. window buf n j b) e
  window-add buf n i (suc a) b =
      let e : i + 1 + a ≡ i + suc a = omega arith in
      let one : suc a + b ≡ suc (a + b) = omega arith in
      ap (window buf n i) one
      ∙ ap (λ l. get_or buf (i % n) z ∷ l)
          (window-add buf n (i + 1) a b ∙ ap (λ j. window buf n (i + 1) a ++ window buf n j b) e)

  pub drop_step :
      (buf : List A) (i : ℕ) → i < length buf → drop i buf ≡ get_or buf i z ∷ drop (suc i) buf
  drop_step [] i h = absurd (omega arith)
  drop_step (x ∷ buf) zero h = refl
  drop_step (x ∷ buf) (suc i) h = drop_step buf i (omega arith)

  -- Inside the buffer a window is a contiguous region.
  window_region :
      (buf : List A) (i k : ℕ)
      → i + k ≤ length buf
      → window buf (length buf) i k ≡ take k (drop i buf)
  unfolding window
  window_region buf i zero h = refl
  window_region buf i (suc k) h = rw (drop_step buf i (omega arith)) (
      ap₂ (λ x l. x ∷ l) (ap (λ r. get_or buf r z) (mod-eq_of_lt (omega arith)))
        (window_region buf (i + 1) k (omega arith)
          ∙ ap (λ j. take k (drop j buf)) (let e : i + 1 ≡ suc i = omega arith in e)))

  window_part :
      (buf : List A) (n i k : ℕ)
      → length buf ≡ n
      → i + k ≤ n
      → take k (drop i buf) ≡ window buf n i k
  window_part buf n i k e h =
      sym (window_region buf i k (omega (arith, e))) ∙ ap (λ n. window buf n i k) e

  -- A region up to the buffer's end and one from its start.
  window_wrapped :
      (buf : List A) (n i k : ℕ)
      → length buf ≡ n
      → i < n
      → n < i + k
      → k ≤ n
      → take (n - i) (drop i buf) ++ take (k - (n - i)) buf ≡ window buf n i k
  window_wrapped buf n i k e hi h hk =
      let here : i + (n - i) ≡ n = omega arith in
      let around : 0 % n ≡ (i + (n - i)) % n =
        sym (add-mod_right 0 n)
        ∙ ap (λ j. j % n) (let same : 0 + n ≡ i + (n - i) = omega arith in same) in
      let both : (n - i) + (k - (n - i)) ≡ k = omega arith in
      ap₂ (λ l l'. l ++ l') (window_part buf n i (n - i) e (omega arith))
        (window_part buf n 0 (k - (n - i)) e (omega arith)
          ∙ window_cong buf n 0 (i + (n - i)) (k - (n - i)) around)
      ∙ sym (window-add buf n i (n - i) (k - (n - i)))
      ∙ ap (window buf n i) both

  -- The one or two regions that are copied out.
  regions_window :
      (buf : List A) (n r k : ℕ)
      → length buf ≡ n
      → 0 < n
      → k ≤ n
      → (let (size1, size2) = region_sizes n (r % n) k in
          let part = take size1 (drop (r % n) buf) in
          if ltb 0 size2 then part ++ take size2 buf else part)
        ≡ window buf n r k
  regions_window buf n r k e h hk =
      let inside : r % n < n = mod-lt r h in
      elim (Bool-cases (ltb n (r % n + k))) [
        | inl wraps ↦
            let more : ltb 0 (k - (n - r % n)) ≡ true = ground arith in
            rw (wraps, more)
              (window_wrapped buf n (r % n) k e inside (ground arith) hk
                ∙ window_cong buf n (r % n) r k (mod-mod r n))
        | inr fits ↦ rw fits (
            window_part buf n (r % n) k e (ground arith)
            ∙ window_cong buf n (r % n) r k (mod-mod r n))
      ]

  pub mod_twice : (x m : ℕ) → x < 4 * m → x % (2 * m) % m ≡ x % m
  mod_twice x m h = elim (Bool-cases (ltb x (2 * m))) [
    | inl small ↦ ap (λ y. y % m) (mod_once x (2 * m) (omega arith) ∙ rw small refl)
    | inr big ↦
        let back : x - 2 * m + m + m ≡ x = ground arith in
        ap (λ y. y % m) (mod_once x (2 * m) (omega arith) ∙ rw big refl)
        ∙ sym (add-mod_right (x - 2 * m) m)
        ∙ sym (add-mod_right (x - 2 * m + m) m)
        ∙ ap (λ y. y % m) back
  ]

  length-window : (buf : List A) (n i k : ℕ) → length (window buf n i k) ≡ k
  unfolding window
  length-window buf n i zero = refl
  length-window buf n i (suc k) = ap suc (length-window buf n (i + 1) k)

  -- Reading takes the oldest elements, in order, and the others stay queued; as many are taken as are
  -- asked for and as are queued, and that number is reported.
  pub get_oldest :
      (element_count : ℕ) (s : RingBuffer A)
      → IsLevel s
      → length s.buffer ≡ s.buffer_size
      → ((get_data_from_ring_buffer element_count s).0
            ++ queued (get_data_from_ring_buffer element_count s).1.1
          ≡ queued s)
        × (length (get_data_from_ring_buffer element_count s).0
            ≡ min (length (queued s)) element_count)
        × ((get_data_from_ring_buffer element_count s).1.0
            ≡ length (get_data_from_ring_buffer element_count s).0)
  unfolding get_data_from_ring_buffer advance_ring_buffer_read_index
  get_oldest element_count s v e =
      let n = limited (get_ring_buffer_read_available s) element_count in
      let m = s.buffer_size in
      let (t_level, moved) = advance_read n s v (ground arith) in
      let t = advance_ring_buffer_read_index n s in
      let left = get_ring_buffer_read_available t in
      let same : n + left ≡ get_ring_buffer_read_available s = omega (arith, moved) in
      let read =
        regions_window s.buffer m s.read_index n e (omega (arith, v.read_below))
          (omega (arith, v.level, same)) in
      let place : t.read_index % m ≡ (s.read_index + n) % m =
        mod_twice (s.read_index + n) m (omega (arith, v.read_below, v.level, same)) in
      let there = get_ring_buffer_read_available s in
      let taken = length-window s.buffer m s.read_index n in
      let all = length-window s.buffer m s.read_index there in
      let counted : n ≡ min there element_count = ground arith in
      rw read (
        ap (λ l. window s.buffer m s.read_index n ++ l)
              (window_cong s.buffer m t.read_index (s.read_index + n) left place)
            ∙ sym (window-add s.buffer m s.read_index n left)
            ∙ ap (window s.buffer m s.read_index) same,
        taken ∙ counted ∙ ap (λ k. min k element_count) (sym all),
        sym taken,
      )
