-- ===== src/RingBuffer/Appends.antt =====
-- Putting appends to what is queued.
pub mod Copies
pub mod Stored
use dabstar.Prelude.{
  ℕ, zero, suc, ◌+◌, ◌-◌, ◌%◌, ◌≤◌, ◌<◌, ◌≡◌, ◌⊎◌, false, refl, sym, ap, ◌∙◌, List, [], ◌∷◌, ◌++◌,
  get_or, take, drop, length, length-append, length-take, length-drop, ltb, if◌then◌else◌, true,
  Bool-cases, inl, inr, arith,
}
use mathlib.Core.Path.{ap₂}
use native.Mathlib.Nat.{add-mod_right, mod-add-mod, mod-lt, mod-mod}
use dabstar.RingBuffer.{
  RingBuffer, get_ring_buffer_read_available, get_ring_buffer_write_available,
  advance_ring_buffer_write_index, limited, region_sizes, copy_to, put_data_into_ring_buffer,
}
use dabstar.RingBuffer.Levels.{IsLevel, mod_once, read_available, advance_write}
use dabstar.RingBuffer.Oldest.{window, queued, window-add, window_cong, drop_step}
use dabstar.RingBuffer.Appends.Stored.{stored, window_kept, window_stored}

module _ {ℓ} {A : Type ℓ} (z : A) where
  -- The place behind the queue is the write index, and the queue begins `m - a` places behind that.
  queue_end :
      (s : RingBuffer A)
      → IsLevel s
      → (s.read_index + get_ring_buffer_read_available s) % s.buffer_size
        ≡ s.write_index % s.buffer_size
  queue_end s v =
      let m = s.buffer_size in
      let a = get_ring_buffer_read_available s in
      let level = read_available s v.read_below v.write_below in
      elim (Bool-cases (ltb s.write_index s.read_index)) [
        | inr b ↦
            ap (λ i. i % m)
              (let e : s.read_index + a ≡ s.write_index = ground (arith, b, level) in e)
        | inl b ↦
            ap (λ i. i % m)
              (let e : s.read_index + a ≡ s.write_index + m + m =
                  ground (arith, b, level, v.read_below) in
                e)
            ∙ add-mod_right (s.write_index + m) m
            ∙ add-mod_right s.write_index m
      ]

  queue_start :
      (s : RingBuffer A)
      → IsLevel s
      → s.read_index % s.buffer_size
        ≡ (s.write_index % s.buffer_size + (s.buffer_size - get_ring_buffer_read_available s))
          % s.buffer_size
  queue_start s v =
      let m = s.buffer_size in
      let a = get_ring_buffer_read_available s in
      let back = m - a in
      let whole : s.read_index + a + back ≡ s.read_index + m = omega (arith, v.level) in
      sym (
        ap (λ i. (i + back) % m) (sym (queue_end s v))
        ∙ mod-add-mod (s.read_index + a) m back
        ∙ ap (λ i. i % m) whole
        ∙ add-mod_right s.read_index m)

  -- Of a list of at least `element_count` elements, a put takes as many as it reports, in order, from
  -- the front, and appends them to what is queued.
  pub put_appends :
      (data_in : List A) (element_count : ℕ) (s : RingBuffer A)
      → IsLevel s
      → 0 < s.buffer_size
      → length s.buffer ≡ s.buffer_size
      → element_count ≤ length data_in
      → queued z (put_data_into_ring_buffer data_in element_count s).1
        ≡ queued z s ++ take (put_data_into_ring_buffer data_in element_count s).0 data_in
  unfolding put_data_into_ring_buffer get_ring_buffer_write_available
      advance_ring_buffer_write_index
  put_appends data_in element_count s v pos e hx =
      let m = s.buffer_size in
      let w = s.write_index % m in
      let a = get_ring_buffer_read_available s in
      let n = limited (get_ring_buffer_write_available s) element_count in
      let hw : w < m = mod-lt s.write_index pos in
      let room : n ≤ m - a = ground arith in
      let given : n ≤ length data_in = ground (arith, hx) in
      let buffer = stored z s.buffer m w n data_in in
      let changed : RingBuffer A = record s { buffer = buffer } in
      let (_, moved) =
        advance_write n changed
          (record { read_below = v.read_below; write_below = v.write_below; level = v.level })
          room in
      let start = queue_start s v in
      let end : (s.read_index + a) % m ≡ (w + 0) % m =
        queue_end s v
        ∙ sym (mod-mod s.write_index m)
        ∙ ap (λ i. i % m) (let i : w ≡ w + 0 = omega arith in i) in
      ap (window z buffer m s.read_index) moved
      ∙ window-add z buffer m s.read_index a n
      ∙ ap₂ (λ l l'. l ++ l')
          (window_cong z buffer m s.read_index (w + (m - a)) a start
            ∙ window_kept z s.buffer m w n data_in (m - a) a e hw given room
                (omega (arith, v.level))
            ∙ sym (window_cong z s.buffer m s.read_index (w + (m - a)) a start))
          (window_cong z buffer m (s.read_index + a) (w + 0) n end
            ∙ window_stored z s.buffer m w n data_in 0 n e hw (omega (arith, room)) given
                (omega arith))
