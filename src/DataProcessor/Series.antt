-- ===== src/DataProcessor/Series.antt =====
-- Sequences of packets: a data group in several packets, packets for others, and a lost packet.
use dabstar.Prelude.{
  ℕ, suc, ◌+◌, ◌*◌, ◌%◌, ◌<◌, ◌≡◌, ◌≢◌, refl, sym, ap, ◌∙◌, Bool, Bool-cases, inl, inr,
  Option-cases, true, false, List, [], ◌∷◌, ◌++◌, Option, some, length, take, arith, ◌>>=◌, ◌==◌,
  if◌then◌else◌,
}
use mathlib.Core.Path.{subst}
use mathlib.Core.List.{append_assoc}
use dabstar.Crc.{check_crc_bits}
use dabstar.DataProcessor.{
  DataProcessor, packet_length_bytes, continuity_index, first_last, address, read_useful, assemble,
  handle_packet,
}
use dabstar.DataProcessor.Packet.{
  IsAccepted, IsWhole, advanced, payload, handle_packet_accepted, assemble_first,
  assemble_intermediate, assemble_last,
}

-- One packet after another, as the frames bring them.
unfoldable pub handle_all : DataProcessor → List (List Bool) → Option DataProcessor
handle_all s [] = some s
handle_all s (d ∷ ds) = handle_packet s d >>= λ s'. handle_all s' ds

-- A packet for address `a` with continuity index `i % 4`, marked `f`, whole and undamaged.
pub record IsPart (a i f : ℕ) (d : List Bool) : Type 0 where
  pub for_address : address d ≡ a
  pub numbered : continuity_index d ≡ i % 4
  pub marked : first_last d ≡ f
  pub undamaged : check_crc_bits (take (packet_length_bytes d * 8) d) ≡ true
  pub whole : IsWhole d

-- Intermediate packets, numbered from `i` on.
abbrev pub AreIntermediate : ℕ → ℕ → List (List Bool) → Type 0
AreIntermediate a i [] = Unit
AreIntermediate a i (d ∷ ds) = IsPart a i 0 d × AreIntermediate a (i + 1) ds

abbrev pub payloads : List (List Bool) → List Bool
payloads [] = []
payloads (d ∷ ds) = payload d ++ payloads ds

-- The processor waits for the packet with number `i` of address `a`.
pub record Awaits (a i : ℕ) (s : DataProcessor) : Type 0 where
  pub address_of : s.packet_address ≡ a
  pub next_of : s.expected_index ≡ i % 4

accepted :
    (a i f : ℕ) (s : DataProcessor) (d : List Bool) → Awaits a i s → IsPart a i f d → IsAccepted s d
accepted a i f s d w p = record {
  addressed = w.address_of ∙ sym p.for_address;
  in_sequence = p.numbered ∙ sym w.next_of;
  undamaged = p.undamaged;
}

-- A completed group: the state after the last packet of a group with these bits.
pub record Completes (s s' : DataProcessor) (a i : ℕ) (group : List Bool) : Type 0 where
  pub delivered : s'.data_groups ≡ s.data_groups ++ (group ∷ [])
  pub idle : s'.packet_state ≡ 0
  pub awaits : Awaits a i s'

finish_series :
    (ds : List (List Bool)) (last : List Bool) (a i : ℕ) (s : DataProcessor)
    → s.packet_state ≡ 1
    → Awaits a i s
    → AreIntermediate a i ds
    → IsPart a (i + length ds) 1 last
    → (s' : DataProcessor) × (handle_all s (ds ++ (last ∷ [])) ≡ some s')
      × Completes s s' a (i + length ds + 1) (s.series_vec ++ (payloads ds ++ payload last))
unfolding handle_all
finish_series [] last a i s h w t p =
    let e : i ≡ i + 0 = omega arith in
    let w' : Awaits a (i + 0) s = record {
      address_of = w.address_of;
      next_of = w.next_of ∙ ap (λ n. n % 4) e;
    } in
    let s' = record (advanced s) {
      packet_state = 0;
      series_vec = s.series_vec ++ payload last;
      data_groups = s.data_groups ++ ((s.series_vec ++ payload last) ∷ []);
    } in
    (
      s',
      rw
          (handle_packet_accepted s last (accepted a (i + 0) 1 s last w' p)
            ∙ assemble_last (advanced s) last p.whole h p.marked)
          refl,
      record {
        delivered = refl;
        idle = refl;
        awaits = record { address_of = w.address_of; next_of = omega (arith, w.next_of) };
      },
    )
finish_series (d ∷ ds) last a i s h w t p =
    let s1 = record (advanced s) { series_vec = s.series_vec ++ payload d } in
    let e : i + 1 + length ds ≡ i + suc (length ds) = omega arith in
    let w1 : Awaits a (i + 1) s1 = record {
      address_of = w.address_of;
      next_of = omega (arith, w.next_of);
    } in
    let (s', es, c) =
      finish_series ds last a (i + 1) s1 h w1 t.1 (subst (λ n. IsPart a n 1 last) (sym e) p) in
    let step : handle_packet s d ≡ some s1 =
      handle_packet_accepted s d (accepted a i 0 s d w t.0)
      ∙ assemble_intermediate (advanced s) d t.0.whole h t.0.marked in
    let group : (s.series_vec ++ payload d) ++ (payloads ds ++ payload last)
        ≡ s.series_vec ++ ((payload d ++ payloads ds) ++ payload last) =
      simp append_assoc in
    (
      s',
      rw step es,
      record {
        delivered = c.delivered ∙ ap (λ g. s.data_groups ++ (g ∷ [])) group;
        idle = c.idle;
        awaits = subst (λ n. Awaits a (n + 1) s') e c.awaits;
      },
    )

-- A data group in a first packet, any number of intermediate ones and a last one, numbered without
-- a gap from the number awaited, is delivered as the packets' payloads in order, from either state;
-- a series that was left unfinished is dropped. The processor then waits for the next number.
pub series_delivered :
    (first : List Bool) (ds : List (List Bool)) (last : List Bool) (a i : ℕ) (s : DataProcessor)
    → s.packet_state < 2
    → Awaits a i s
    → IsPart a i 2 first
    → AreIntermediate a (i + 1) ds
    → IsPart a (i + 1 + length ds) 1 last
    → (s' : DataProcessor) × (handle_all s (first ∷ (ds ++ (last ∷ []))) ≡ some s')
      × Completes s s' a (i + 1 + length ds + 1) (payload first ++ (payloads ds ++ payload last))
unfolding handle_all
series_delivered first ds last a i s h w f t p =
    let s1 = record (advanced s) { packet_state = 1; series_vec = payload first } in
    let step : handle_packet s first ≡ some s1 =
      handle_packet_accepted s first (accepted a i 2 s first w f)
      ∙ assemble_first (advanced s) first f.whole h f.marked in
    let w1 : Awaits a (i + 1) s1 = record {
      address_of = w.address_of;
      next_of = omega (arith, w.next_of);
    } in
    let (s', es, c) = finish_series ds last a (i + 1) s1 refl w1 t p in
    (s', rw step es, record { delivered = c.delivered; idle = c.idle; awaits = c.awaits })

-- The packets for one address.
unfoldable pub for_address : ℕ → List (List Bool) → List (List Bool)
for_address a [] = []
for_address a (d ∷ ds) = if a == address d then d ∷ for_address a ds else for_address a ds

packet_address-handle_packet :
    (s : DataProcessor) (d : List Bool) {s' : DataProcessor}
    → handle_packet s d ≡ some s'
    → s'.packet_address ≡ s.packet_address
unfolding handle_packet assemble read_useful
packet_address-handle_packet s d h = ground arith

other_address :
    (s : DataProcessor) (d : List Bool)
    → (s.packet_address == address d) ≡ false
    → handle_packet s d ≡ some s
unfolding handle_packet
other_address s d h = ground arith

-- Packets for other addresses change nothing: the processor does what it does without them.
pub handle_all-for_address :
    (ds : List (List Bool)) (s : DataProcessor)
    → handle_all s ds ≡ handle_all s (for_address s.packet_address ds)
unfolding handle_all for_address
handle_all-for_address [] s = refl
handle_all-for_address (d ∷ ds) s = elim (Bool-cases (s.packet_address == address d)) [
  | inl e ↦ rw e (elim (Option-cases (handle_packet s d)) [
    | inl n ↦ rw n refl
    | inr (s', p) ↦ rw p (
        handle_all-for_address ds s'
        ∙ ap (λ a. handle_all s' (for_address a ds)) (packet_address-handle_packet s d p))
  ])
  | inr e ↦ rw e (rw (other_address s d e) (handle_all-for_address ds s))
]

out_of_sequence :
    (s : DataProcessor) (d : List Bool)
    → s.packet_address ≡ address d
    → continuity_index d ≢ s.expected_index
    → handle_packet s d ≡ some (record s { expected_index = 0 })
unfolding handle_packet
out_of_sequence s d e n = ground arith

-- With a series open, a gap goes unnoticed: a packet that is out of sequence is skipped and the number 0 is
-- awaited, but the series stays open. A last packet with the number 0 then completes the group, and
-- what is delivered is the earlier payloads with this one, the skipped packet's missing between.
pub gap_delivered :
    (skipped last : List Bool) (a i : ℕ) (s : DataProcessor)
    → s.packet_state ≡ 1
    → Awaits a i s
    → address skipped ≡ a
    → continuity_index skipped ≢ i % 4
    → IsPart a 0 1 last
    → (s' : DataProcessor) × (handle_all s (skipped ∷ last ∷ []) ≡ some s')
      × Completes s s' a 1 (s.series_vec ++ payload last)
unfolding handle_all
gap_delivered skipped last a i s h w e n p =
    let s1 = record s { expected_index = 0 } in
    let step = out_of_sequence s skipped (w.address_of ∙ sym e) (λ q. n (q ∙ w.next_of)) in
    let w1 : Awaits a 0 s1 = record { address_of = w.address_of; next_of = refl } in
    let (s', es, c) = finish_series [] last a 0 s1 h w1 tt p in
    (s', rw step es, record { delivered = c.delivered; idle = c.idle; awaits = c.awaits })
