-- ===== src/FreqInterleaver.antt =====
-- base/ofdm/freq_interleaver.cpp, and the loop of the constructor of OfdmDecoder in
-- base/ofdm/ofdm_decoder_simd.cpp that turns a carrier's number into its places.
pub mod Bijection
use dabstar.Prelude.{
  ℕ, zero, suc, ◌+◌, ◌-◌, ◌*◌, ◌/◌, ◌%◌, ◌<◌, ◌≡◌, refl, Bool, true, List, [], ◌∷◌, ◌++◌, length,
  replicate, get_or, ◌==◌, ltb, leb, ◌&&◌, ◌||◌, if◌then◌else◌, passes_from, passes_below, ==_iff,
  arith,
}

-- The carriers' numbers: `negsuc n` is -(n + 1).
pub data ℤ : Type 0 where
  pos : ℕ → ℤ
  negsuc : ℕ → ℤ

-- cTu and cK
abbrev pub t_u : ℕ
t_u = 2048

abbrev pub c_k : ℕ
c_k = 1536

-- `tmp` from an entry on, with the entries left.
unfoldable pub tmp_entries : ℕ → ℕ → ℕ → List ℕ
tmp_entries v1 zero t = []
tmp_entries v1 (suc n) t = t ∷ tmp_entries v1 n ((13 * t + v1) % t_u)

-- `t - cTu / 2`
unfoldable pub carrier : ℕ → ℤ
carrier t = if ltb t 1024 then negsuc (1024 - t - 1) else pos (t - 1024)

-- The second loop: what it writes, in order.
unfoldable pub perm_entries : ℕ → ℕ → List ℕ → List ℤ
unfolding carrier
perm_entries lwb upb [] = []
perm_entries lwb upb (t ∷ ts) =
    let rest = perm_entries lwb upb ts in
    if t == 1024 then rest else if ltb t lwb || ltb upb t then rest else carrier t ∷ rest

-- mPermTable after createMapper: `resize` filled it with zeros.
unfoldable pub create_mapper : ℕ → ℕ → ℕ → List ℤ
unfolding tmp_entries perm_entries
create_mapper v1 lwb upb =
    let entries = perm_entries lwb upb (tmp_entries v1 t_u 0) in
    entries ++ replicate (t_u - length entries) (pos 0)

unfoldable pub perm_table : List ℤ
unfolding create_mapper
perm_table = create_mapper 511 256 (256 + c_k)

unfoldable pub map_k_to_fft_bin : ℕ → ℤ
unfolding perm_table
map_k_to_fft_bin k = get_or perm_table k (pos 0)

-- fftIdx, and realCarrRelIdx.
unfoldable pub fft_index : ℤ → ℕ
fft_index (negsuc n) = t_u - (n + 1)
fft_index (pos n) = n

unfoldable pub real_carrier : ℤ → ℕ
real_carrier (negsuc n) = c_k / 2 - (n + 1)
real_carrier (pos n) = n + c_k / 2 - 1
