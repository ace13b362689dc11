-- ===== src/RingBuffer/Levels.antt =====
-- The fill level: no operation lets the indices drift apart by more than the size.
use Prim.Native.Nat.{min}
use dabstar.Prelude.{
  ℕ, ◌+◌, ◌-◌, ◌*◌, ◌%◌, ◌^◌, ◌≤◌, ◌<◌, ◌≡◌, ◌∙◌, List, true, ltb, lt→ltb, if◌then◌else◌,
  Bool-cases, inl, inr, arith,
}
use native.Mathlib.Nat.{mod-eq_of_lt, mod-eq-sub-mod}
use dabstar.RingBuffer.{
  RingBuffer, get_ring_buffer_read_available, get_ring_buffer_write_available,
  advance_ring_buffer_write_index, advance_ring_buffer_read_index, limited,
  put_data_into_ring_buffer, get_data_from_ring_buffer, skip_data_in_ring_buffer,
}

-- A remainder of a number below twice the modulus.
pub mod_once : (a m : ℕ) → a < m + m → a % m ≡ (if ltb a m then a else a - m)
mod_once a m h = elim (Bool-cases (ltb a m)) [
  | inl small ↦ rw small (mod-eq_of_lt (ground arith))
  | inr big ↦
      rw big (let le : m ≤ a = ground arith in mod-eq-sub-mod le ∙ mod-eq_of_lt (omega arith))
]

module _ {ℓ} {A : Type ℓ} where
  -- The indices are in their range and at most one buffer apart.
  pub record IsLevel (s : RingBuffer A) : Type 0 where
    pub read_below : s.read_index < 2 * s.buffer_size
    pub write_below : s.write_index < 2 * s.buffer_size
    pub level : get_ring_buffer_read_available s ≤ s.buffer_size

  pub read_available :
      (s : RingBuffer A)
      → s.read_index < 2 * s.buffer_size
      → s.write_index < 2 * s.buffer_size
      → get_ring_buffer_read_available s ≡ (
          if ltb s.write_index s.read_index
          then s.write_index + 2 * s.buffer_size - s.read_index
          else s.write_index - s.read_index)
  unfolding get_ring_buffer_read_available
  read_available s hr hw =
      mod_once (s.write_index + (2 * s.buffer_size - s.read_index)) (2 * s.buffer_size)
        (omega arith)
      ∙ ground arith

  pub advance_write :
      (n : ℕ) (s : RingBuffer A)
      → IsLevel s
      → n ≤ get_ring_buffer_write_available s
      → IsLevel (advance_ring_buffer_write_index n s)
        × (get_ring_buffer_read_available (advance_ring_buffer_write_index n s)
            ≡ get_ring_buffer_read_available s + n)
  unfolding advance_ring_buffer_write_index get_ring_buffer_write_available
  advance_write n s v h =
      let t = record s { write_index = (s.write_index + n) % (2 * s.buffer_size) } in
      let before = read_available s v.read_below v.write_below in
      let wrapped = mod_once (s.write_index + n) (2 * s.buffer_size) (ground arith) in
      let below : t.write_index < 2 * s.buffer_size = ground arith in
      let after = read_available t v.read_below below in
      let moved : get_ring_buffer_read_available t ≡ get_ring_buffer_read_available s + n =
        ground arith in
      (
        record {
          read_below = v.read_below;
          write_below = below;
          level = omega (arith, v.level, h, moved);
        },
        moved,
      )

  pub advance_read :
      (n : ℕ) (s : RingBuffer A)
      → IsLevel s
      → n ≤ get_ring_buffer_read_available s
      → IsLevel (advance_ring_buffer_read_index n s)
        × (get_ring_buffer_read_available (advance_ring_buffer_read_index n s) + n
            ≡ get_ring_buffer_read_available s)
  unfolding advance_ring_buffer_read_index
  advance_read n s v h =
      let t = record s { read_index = (s.read_index + n) % (2 * s.buffer_size) } in
      let before = read_available s v.read_below v.write_below in
      let wrapped = mod_once (s.read_index + n) (2 * s.buffer_size) (ground arith) in
      let below : t.read_index < 2 * s.buffer_size = ground arith in
      let after = read_available t below v.write_below in
      let moved : get_ring_buffer_read_available t + n ≡ get_ring_buffer_read_available s =
        ground arith in
      (
        record {
          read_below = below;
          write_below = v.write_below;
          level = omega (arith, v.level, h, moved);
        },
        moved,
      )

  -- Putting writes as many elements as asked for and as fit, and the fill level grows by just that
  -- number; getting and skipping give back as many as asked for and as there are, and the level
  -- falls by that number. The level stays within the size, if it was so before. The count asked for
  -- is below 2^31: an `i32` for putting and getting, and what skipping takes for one.
  pub operations-IsLevel :
      (data_in : List A) (element_count : ℕ) (s : RingBuffer A)
      → IsLevel s
      → element_count < 2 ^ 31
      → (let (n, t) = put_data_into_ring_buffer data_in element_count s in
          (n ≡ min (get_ring_buffer_write_available s) element_count)
          × IsLevel t
          × (get_ring_buffer_read_available t ≡ get_ring_buffer_read_available s + n))
        × (let (xs, (n, t)) = get_data_from_ring_buffer element_count s in
            (n ≡ min (get_ring_buffer_read_available s) element_count)
            × IsLevel t
            × (get_ring_buffer_read_available t + n ≡ get_ring_buffer_read_available s))
        × (let (n, t) = skip_data_in_ring_buffer element_count s in
            (n ≡ min (get_ring_buffer_read_available s) element_count)
            × IsLevel t
            × (get_ring_buffer_read_available t + n ≡ get_ring_buffer_read_available s))
  unfolding put_data_into_ring_buffer get_data_from_ring_buffer skip_data_in_ring_buffer
      get_ring_buffer_read_available get_ring_buffer_write_available advance_ring_buffer_write_index
      advance_ring_buffer_read_index
  operations-IsLevel data_in element_count s v small =
      let cast : ltb element_count (2 ^ 31) ≡ true = lt→ltb _ _ small in
      let room = limited (get_ring_buffer_write_available s) element_count in
      let there = limited (get_ring_buffer_read_available s) element_count in
      let (pl, pe) = advance_write room s v (ground arith) in
      let (gl, ge) = advance_read there s v (ground arith) in
      (
        (
          ground arith,
          record { read_below = pl.read_below; write_below = pl.write_below; level = pl.level },
          pe,
        ),
        (ground arith, gl, ge),
        rw cast (ground arith, gl, ge),
      )
