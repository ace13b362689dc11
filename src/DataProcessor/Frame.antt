-- ===== src/DataProcessor/Frame.antt =====
-- How `_handle_packets` cuts a frame into packets.
use dabstar.Prelude.{
  ℕ, zero, suc, ◌+◌, ◌-◌, ◌*◌, ◌≤◌, ◌<◌, ◌≡◌, refl, sym, ap, ◌∙◌, Bool, Bool-cases, inl, inr, false,
  List, [], ◌∷◌, ◌++◌, Option-cases, some, length, length-append, length-drop, drop-append, All,
  ◌^◌, take, drop, get_or, arith, ◌>>=◌, if◌then◌else◌, ltb,
}
use mathlib.Core.Path.{ap₂, fun_ext}
use dabstar.Bits.{bits_loop, get_bits, get_bits_2}
use dabstar.DataProcessor.{
  DataProcessor, packet_length_bytes, useful_length, read_useful, assemble, handle_packet,
  handle_packets_loop, handle_packets,
}
use dabstar.Bits.Widths.{get_bits_fixed}
use dabstar.DataProcessor.Packet.{IsWhole, read_useful-some}
use dabstar.DataProcessor.Series.{handle_all}

-- The fuel does not matter once it exceeds the number of bits.
handle_packets_loop_fuel :
    (f g : ℕ) (s : DataProcessor) (d : List Bool) (n : ℕ)
    → n < f
    → n < g
    → handle_packets_loop f s d n ≡ handle_packets_loop g s d n
unfolding handle_packets_loop
handle_packets_loop_fuel zero g s d n h k = absurd (omega arith)
handle_packets_loop_fuel (suc f) zero s d n h k = absurd (omega arith)
handle_packets_loop_fuel (suc f) (suc g) s d n h k =
    let p = (get_bits_2 d 0 + 1) * 24 * 8 in
    elim (Bool-cases (ltb n p)) [
      | inl short ↦ rw short refl
      | inr fits ↦ rw fits (elim (Option-cases (handle_packet s d)) [
        | inl fault ↦ rw fault refl
        | inr (s', e) ↦ rw e (
            ap (λ rest. if ltb (n - p) 2 then some s' else rest)
              (handle_packets_loop_fuel f g s' (drop p d) (n - p) (ground arith) (ground arith)))
      ])
    ]

-- Reading inside `p` does not see what follows it.
get_or-append_left :
    (p r : List Bool) (i : ℕ) → i < length p → get_or (p ++ r) i false ≡ get_or p i false
get_or-append_left [] r i h = absurd (omega arith)
get_or-append_left (x ∷ p) r zero h = refl
get_or-append_left (x ∷ p) r (suc i) h = get_or-append_left p r i (omega arith)

take-append_left : (p r : List Bool) (n : ℕ) → n ≤ length p → take n (p ++ r) ≡ take n p
take-append_left p r zero h = refl
take-append_left [] r (suc n) h = absurd (omega arith)
take-append_left (x ∷ p) r (suc n) h = ap (λ l. x ∷ l) (take-append_left p r n (omega arith))

drop-append_left : (p r : List Bool) (n : ℕ) → n ≤ length p → drop n (p ++ r) ≡ drop n p ++ r
drop-append_left p r zero h = refl
drop-append_left [] r (suc n) h = absurd (omega arith)
drop-append_left (x ∷ p) r (suc n) h = drop-append_left p r n (omega arith)

bits_loop-append_left :
    (m : ℕ) (p r : List Bool) (n i res : ℕ)
    → i + n ≤ length p
    → bits_loop m (p ++ r) n i res ≡ bits_loop m p n i res
unfolding bits_loop
bits_loop-append_left m p r zero i res h = refl
bits_loop-append_left m p r (suc n) i res h =
    rw (get_or-append_left p r i (omega arith))
      (bits_loop-append_left m p r n (i + 1) _ (omega arith))

get_bits-append_left :
    (p r : List Bool) (o n : ℕ) → o + n ≤ length p → get_bits (p ++ r) o n ≡ get_bits p o n
unfolding get_bits
get_bits-append_left p r o n h = bits_loop-append_left (2 ^ 16) p r n o 0 h

module _ (p r : List Bool) (header : 24 ≤ length p) where
  get_bits_2-append_left : (o : ℕ) → o < 23 → get_bits_2 (p ++ r) o ≡ get_bits_2 p o
  get_bits_2-append_left o h =
      (get_bits_fixed (p ++ r) o).1
      ∙ get_bits-append_left p r o 2 (omega arith)
      ∙ sym (get_bits_fixed p o).1

  useful_length-append_left : useful_length (p ++ r) ≡ useful_length p
  useful_length-append_left =
      (get_bits_fixed (p ++ r) 17).6
      ∙ get_bits-append_left p r 17 7 (omega arith)
      ∙ sym (get_bits_fixed p 17).6

  read_useful-append_left : IsWhole p → read_useful (p ++ r) ≡ read_useful p
  read_useful-append_left whole =
      let longer = length-append {0} p r in
      let u = useful_length-append_left in
      read_useful-some (p ++ r) (omega (arith, longer, u))
      ∙ ap some (
          ap (λ n. take (8 * n) (drop 24 (p ++ r))) u
          ∙ ap (take (8 * useful_length p)) (drop-append_left p r 24 header)
          ∙ take-append_left (drop 24 p) r (8 * useful_length p) (omega (arith, length-drop 24 p)))
      ∙ sym (read_useful-some p whole)

  handle_packet-append_left :
      (s : DataProcessor)
      → IsWhole p
      → packet_length_bytes p * 8 ≤ length p
      → handle_packet s (p ++ r) ≡ handle_packet s p
  unfolding handle_packet assemble
  handle_packet-append_left s whole fits =
      let crc : take ((get_bits_2 p 0 + 1) * 24 * 8) (p ++ r)
          ≡ take ((get_bits_2 p 0 + 1) * 24 * 8) p =
        take-append_left p r _ fits in
      rw
        (
          get_bits_2-append_left 0 (omega arith),
          get_bits_2-append_left 2 (omega arith),
          get_bits_2-append_left 4 (omega arith),
          get_bits-append_left p r 6 10 (omega arith),
          crc,
          read_useful-append_left whole,
        )
        refl

-- A packet as the frame's divisions want it: as long as its header says, its payload inside.
pub record IsFramed (p : List Bool) : Type 0 where
  pub sized : length p ≡ packet_length_bytes p * 8
  pub whole : IsWhole p

abbrev pub joined : List (List Bool) → List Bool
joined [] = []
joined (p ∷ ps) = p ++ joined ps

-- One round takes the first packet off.
handle_packets_loop-append :
    (p r : List Bool) (s : DataProcessor) (f n : ℕ)
    → IsFramed p
    → n ≡ length p + length r
    → handle_packets_loop (suc f) s (p ++ r) n ≡ (
        handle_packet s p >>= λ s'.
        if ltb (length r) 2 then some s' else handle_packets_loop f s' r (length r))
unfolding handle_packets_loop
handle_packets_loop-append p r s f n framed e =
    let header : 24 ≤ length p = omega (arith, framed.whole) in
    let size : (get_bits_2 (p ++ r) 0 + 1) * 24 * 8 ≡ length p =
      ap (λ (b : ℕ). (b + 1) * 24 * 8) (get_bits_2-append_left p r header 0 (omega arith))
      ∙ sym framed.sized in
    let one = handle_packet-append_left p r header s framed.whole (omega (arith, framed.sized)) in
    let fits : ltb n ((get_bits_2 (p ++ r) 0 + 1) * 24 * 8) ≡ false = ground (arith, size) in
    let left : n - (get_bits_2 (p ++ r) 0 + 1) * 24 * 8 ≡ length r = omega (arith, size) in
    rw fits (
      ap₂ (λ o k. o >>= k) one
        (fun_ext λ s'.
          ap₂ (λ l q. if ltb l 2 then some s' else handle_packets_loop f s' q l) left
            (drop-append p r _ size)))

handle_packets_loop-joined :
    (p : List Bool) (ps : List (List Bool)) (s : DataProcessor) (f : ℕ)
    → All IsFramed (p ∷ ps)
    → length (joined (p ∷ ps)) < f
    → handle_packets_loop f s (joined (p ∷ ps)) (length (joined (p ∷ ps))) ≡ handle_all s (p ∷ ps)
unfolding handle_all
handle_packets_loop-joined p ps s zero framed h = absurd (omega arith)
handle_packets_loop-joined p [] s (suc f) framed h =
    handle_packets_loop-append p [] s f _ framed.0 (length-append p [])
handle_packets_loop-joined p (q ∷ ps) s (suc f) framed h =
    let r = joined (q ∷ ps) in
    let total = length-append {0} p r in
    let tail = length-append {0} q (joined ps) in
    let long : ltb (length r) 2 ≡ false = ground (arith, tail, framed.1.0.whole) in
    handle_packets_loop-append p r s f _ framed.0 total
    ∙ ap (λ k. handle_packet s p >>= k)
        (fun_ext λ s'.
          rw long
            (handle_packets_loop-joined q ps s' f framed.1 (omega (arith, total, framed.0.whole))))

-- A frame that is a row of packets, each as long as its header says and with its payload inside, is
-- handled packet by packet, in order, whatever the state; the loop's fuel is enough.
pub handle_packets-joined :
    (p : List Bool) (ps : List (List Bool)) (s : DataProcessor)
    → All IsFramed (p ∷ ps)
    → handle_packets s (joined (p ∷ ps)) (length (joined (p ∷ ps))) ≡ handle_all s (p ∷ ps)
unfolding handle_packets
handle_packets-joined p ps s framed = handle_packets_loop-joined p ps s _ framed (omega arith)
