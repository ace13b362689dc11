-- ===== src/Protection/Deconvolve.antt =====
-- base/protection/protection.cpp and base/backend/backend_deconvolver.cpp: a frame's soft bits go
-- to their places in `viterbiBlock`, which the Viterbi decoder then reads.
pub mod Laws
pub mod Frames
use dabstar.Prelude.{
  ℕ, List, [], ◌∷◌, Bool, Option, none, some, set, replicate, if◌then◌else◌, ◌>>=◌,
}
use dabstar.Protection.Marks.{Marks, block_size}
use dabstar.Protection.Eep.{new_eep_protection}
use dabstar.Protection.Uep.{new_uep_protection}

-- The two vectors of a Protection object.
pub record Protection {ℓ} (A : Type ℓ) : Type ℓ where
  pub viterbi_block : List A
  pub addresses : List ℕ

-- The constructors: a block of zeros, and the addresses that Uep or Eep makes.
unfoldable pub new_protection {ℓ} : {A : Type ℓ} → A → Bool → ℕ → ℕ → Option (Protection A)
new_protection zero_bit short_form bit_rate prot_level =
    (if short_form
      then new_uep_protection bit_rate prot_level
      else new_eep_protection bit_rate prot_level)
    >>= λ m. some (record {
      viterbi_block = replicate (block_size bit_rate) zero_bit;
      addresses = m.addresses;
    })

-- The depuncturing loop; `none` is a read behind the end of the input.
unfoldable pub depuncture {ℓ} : {A : Type ℓ} → List ℕ → List A → List A → Option (List A)
depuncture [] v block = some block
depuncture (addr ∷ addrs) [] block = none
depuncture (addr ∷ addrs) (x ∷ v) block = depuncture addrs v (set block addr x)

-- `deconvolve`, with the Viterbi decoder as a parameter.
unfoldable pub deconvolve {ℓ κ} :
    {A : Type ℓ} {B : Type κ} → (List A → B) → Protection A → List A → Option (B × Protection A)
deconvolve viterbi p v = depuncture p.addresses v p.viterbi_block >>= λ block.
    some (viterbi block, record p { viterbi_block = block })
