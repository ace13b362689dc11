-- ===== src/RingBuffer.antt =====
-- common/ringbuffer.h: a buffer whose size is a power of two, with two indices that run over twice
-- its size. `& smallMask` and `& bigMask` are the remainders by the size and by twice the size, which
-- divide 2^32, so that a difference of two `u32` indices is taken modulo twice the size.
pub mod Appends
pub mod Levels
pub mod Oldest
use Prim.Native.Nat.{bit_or}
use dabstar.Prelude.{
  [], ◌∷◌, ◌^◌, ℕ, zero, suc, ◌+◌, ◌-◌, ◌*◌, ◌%◌, ◌/◌, List, ◌++◌, ltb, ◌==◌, if◌then◌else◌, take,
  drop, length, replicate,
}

pub record RingBuffer {ℓ} (A : Type ℓ) : Type ℓ where
  pub buffer_size : ℕ
  pub write_index : ℕ
  pub read_index : ℕ
  pub buffer : List A

-- The loop of _round_up_to_next_power_of_2, over the shifts that are left.
unfoldable pub smear : List ℕ → ℕ → ℕ
smear [] i_val = i_val
smear (i ∷ shifts) i_val = smear shifts (bit_or i_val (i_val / 2 ^ i))

unfoldable pub round_up_to_next_power_of_2 : ℕ → ℕ
unfolding smear
round_up_to_next_power_of_2 i_val =
    if i_val == 0 then 1 else (smear (1 ∷ 2 ∷ 4 ∷ 8 ∷ 16 ∷ []) (i_val - 1) + 1) % 2 ^ 32

-- The smaller of the count and what is available.
abbrev pub limited : ℕ → ℕ → ℕ
limited available element_count = if ltb available element_count then available else element_count

-- The sizes of the two regions from the masked index on.
abbrev pub region_sizes : ℕ → ℕ → ℕ → ℕ × ℕ
region_sizes size index n =
    if ltb size (index + n) then (size - index, n - (size - index)) else (n, 0)

module _ {ℓ} {A : Type ℓ} where
  unfoldable pub new_ring_buffer : A → ℕ → RingBuffer A
  new_ring_buffer zero_elem element_count =
      let size = round_up_to_next_power_of_2 element_count in
      record {
        buffer_size = size;
        write_index = 0;
        read_index = 0;
        buffer = replicate size zero_elem;
      }

  unfoldable pub get_ring_buffer_read_available : RingBuffer A → ℕ
  get_ring_buffer_read_available s =
      (s.write_index + (2 * s.buffer_size - s.read_index)) % (2 * s.buffer_size)

  unfoldable pub get_ring_buffer_write_available : RingBuffer A → ℕ
  unfolding get_ring_buffer_read_available
  get_ring_buffer_write_available s = s.buffer_size - get_ring_buffer_read_available s

  unfoldable pub flush_ring_buffer : RingBuffer A → RingBuffer A
  flush_ring_buffer s = record s { write_index = 0; read_index = 0 }

  unfoldable pub advance_ring_buffer_write_index : ℕ → RingBuffer A → RingBuffer A
  advance_ring_buffer_write_index n s = record s {
    write_index = (s.write_index + n) % (2 * s.buffer_size);
  }

  unfoldable pub advance_ring_buffer_read_index : ℕ → RingBuffer A → RingBuffer A
  advance_ring_buffer_read_index n s = record s {
    read_index = (s.read_index + n) % (2 * s.buffer_size);
  }

  -- _get_ring_buffer_write_regions and _get_ring_buffer_read_regions: the sizes, for a count that is
  -- already limited; the regions start at the masked index and at 0.
  abbrev pub write_regions : ℕ → RingBuffer A → ℕ × ℕ
  write_regions n s = region_sizes s.buffer_size (s.write_index % s.buffer_size) n

  abbrev pub read_regions : ℕ → RingBuffer A → ℕ × ℕ
  read_regions n s = region_sizes s.buffer_size (s.read_index % s.buffer_size) n

  -- `memcpy` of `xs` to the place `i` of the buffer.
  abbrev pub copy_to : List A → ℕ → List A → List A
  copy_to buffer i xs = take i buffer ++ (xs ++ drop (i + length xs) buffer)

  -- The elements written, and the buffer after the one or two copies.
  unfoldable pub put_data_into_ring_buffer : List A → ℕ → RingBuffer A → ℕ × RingBuffer A
  unfolding get_ring_buffer_write_available advance_ring_buffer_write_index
  put_data_into_ring_buffer data_in element_count s =
      let n = limited (get_ring_buffer_write_available s) element_count in
      let index = s.write_index % s.buffer_size in
      let (size1, size2) = write_regions n s in
      let once = copy_to s.buffer index (take size1 data_in) in
      let buffer = if ltb 0 size2 then copy_to once 0 (take size2 (drop size1 data_in)) else once in
      (n, advance_ring_buffer_write_index n (record s { buffer = buffer }))

  -- The elements read, with their number.
  unfoldable pub get_data_from_ring_buffer : ℕ → RingBuffer A → List A × (ℕ × RingBuffer A)
  unfolding get_ring_buffer_read_available advance_ring_buffer_read_index
  get_data_from_ring_buffer element_count s =
      let n = limited (get_ring_buffer_read_available s) element_count in
      let index = s.read_index % s.buffer_size in
      let (size1, size2) = read_regions n s in
      let part = take size1 (drop index s.buffer) in
      (
        (if ltb 0 size2 then part ++ take size2 s.buffer else part),
        (n, advance_ring_buffer_read_index n s),
      )

  -- `(i32)n_values` is negative from 2^31 on, so that the comparison does not hold.
  unfoldable pub skip_data_in_ring_buffer : ℕ → RingBuffer A → ℕ × RingBuffer A
  unfolding get_ring_buffer_read_available advance_ring_buffer_read_index
  skip_data_in_ring_buffer n_values s =
      let available = get_ring_buffer_read_available s in
      let n = if ltb n_values (2 ^ 31) then limited available n_values else n_values in
      (n, advance_ring_buffer_read_index n s)
