-- ===== src/Protection/Deconvolve/Frames.antt =====
-- A sub-channel with equal error protection, frame by frame: from FIG 0/1's sizes to the block that
-- the Viterbi decoder reads.
use mathlib.Core.Path.{subst}
use dabstar.Prelude.{
  ℕ, ◌*◌, ◌<◌, ◌≡◌, sym, ◌∙◌, List, false, some, map, length, get_or, take_all, length-replicate,
  replicate, arith,
}
use dabstar.SubChannel.Tables.{ProtLevel, long_form}
use dabstar.Protection.Marks.{block_size}
use dabstar.Protection.Marks.Valid.{Rises}
use dabstar.Protection.Eep.Fits.{cu_unit, eep_protection-Fits}
use dabstar.Protection.Deconvolve.{Protection, new_protection, deconvolve}
use dabstar.Protection.Deconvolve.Laws.{depuncture_total, get_or-depuncture, depuncture_again}

module _ {ℓ κ} {A : Type ℓ} {B : Type κ} (viterbi : List A → B) (zero_bit : A) where
  -- What one frame `v` does to a new protection object, with the next frame `w`.
  pub record Deconvolved (p : Protection A) (v w : List A) : Type (ℓ ⊔ κ) where
    pub after : Protection A
    pub runs : deconvolve viterbi p v ≡ some (viterbi after.viterbi_block, after)
    pub placed : map (λ a. get_or after.viterbi_block a zero_bit) after.addresses ≡ v
    pub forgets : deconvolve viterbi after w ≡ deconvolve viterbi p w

  deconvolve_frame :
      (p : Protection A) (v w : List A)
      → Rises 0 p.addresses (length p.viterbi_block)
      → length v ≡ length p.addresses
      → length w ≡ length p.addresses
      → Deconvolved p v w
  unfolding deconvolve
  deconvolve_frame p v w r hv hw =
      let (b, e) = depuncture_total p.addresses v p.viterbi_block (omega arith) in
      record {
        after = record p { viterbi_block = b };
        runs = rw e;
        placed =
            get_or-depuncture p.addresses 0 v p.viterbi_block b zero_bit r e
            ∙ take_all (length p.addresses) v hv;
        forgets = rw (
            depuncture_again p.addresses 0 (length p.viterbi_block) v w p.viterbi_block b r
              (omega arith) e);
      }

  -- For both options, every level and every number `n` of steps of the bit rate, the long form of
  -- FIG 0/1 for a sub-channel of `cu_unit * n` capacity units leads to a protection object that
  -- takes frames `v` and `w` of 64 soft bits for each capacity unit: `deconvolve` of `v` succeeds,
  -- the decoder reads a block whose entries at the addresses are exactly `v`, in order, and
  -- `deconvolve` of `w` after `v` gives what it would give on the new object.
  pub deconvolve_eep_frames :
      (option prot_level n : ℕ) (v w : List A)
      → option < 2
      → prot_level < 4
      → 0 < n
      → length v ≡ 64 * (cu_unit option prot_level * n)
      → length w ≡ 64 * (cu_unit option prot_level * n)
      → (t : ProtLevel) × (long_form option prot_level (cu_unit option prot_level * n) ≡ some t)
        × ((p : Protection A) × (new_protection zero_bit false t.bit_rate t.prot_level ≡ some p)
            × Deconvolved p v w)
  unfolding new_protection
  deconvolve_eep_frames option prot_level n v w ho hl hn hv hw =
      let (t, et, fit) = eep_protection-Fits option prot_level n ho hl hn in
      let (m, em, f) = fit in
      let p : Protection A = record {
        viterbi_block = replicate (block_size t.bit_rate) zero_bit;
        addresses = m.addresses;
      } in
      let r : Rises 0 m.addresses (length p.viterbi_block) =
        subst (λ n. Rises 0 m.addresses n) (sym (length-replicate (block_size t.bit_rate) zero_bit))
          f.inside in
      (t, et, (p, rw em, deconvolve_frame p v w r (hv ∙ sym f.used) (hw ∙ sym f.used)))
