-- ===== src/Firecode.antt =====
-- base/backend/firecode_checker.cpp: the Fire code that protects the header of a DAB+ super frame,
-- two bytes of parity before nine bytes.
pub mod Sparse
pub mod Linear
pub mod Bursts
use Prim.Native.Nat.{bit_xor}
use dabstar.Prelude.{
  ℕ, zero, suc, ◌+◌, ◌-◌, ◌*◌, ◌/◌, ◌%◌, ◌^◌, Bool, true, false, List, [], ◌∷◌, ◌==◌, if◌then◌else◌,
  get_or, set, take, drop, replicate,
}
use dabstar.Firecode.Sparse.{SparseArray, absent, get_at, set_at}

-- `polynom`
abbrev pub polynom : ℕ
polynom = 0x782f

-- `pattern`
abbrev pub pattern : List ℕ
pattern =
    17 ∷ 18 ∷ 19 ∷ 20 ∷ 21 ∷ 22 ∷ 23 ∷ 24 ∷ 25 ∷ 26 ∷ 27 ∷ 28 ∷ 30 ∷ 31 ∷ 34 ∷ 36 ∷ 38 ∷ 40 ∷ 42
    ∷ 44 ∷ 46 ∷ 50 ∷ 52 ∷ 54 ∷ 56 ∷ 60 ∷ 62 ∷ 68 ∷ 72 ∷ 76 ∷ 84 ∷ 88 ∷ 92 ∷ 100 ∷ 104 ∷ 108 ∷ 120
    ∷ 124 ∷ 136 ∷ 152 ∷ 168 ∷ 184 ∷ 200 ∷ 216 ∷ 248 ∷ 33 ∷ 35 ∷ 37 ∷ 39 ∷ 41 ∷ 43 ∷ 45 ∷ 49 ∷ 51
    ∷ 53 ∷ 55 ∷ 57 ∷ 59 ∷ 61 ∷ 63 ∷ 66 ∷ 70 ∷ 74 ∷ 78 ∷ 82 ∷ 86 ∷ 90 ∷ 98 ∷ 102 ∷ 106 ∷ 110 ∷ 114
    ∷ 118 ∷ 122 ∷ 126 ∷ 132 ∷ 140 ∷ 148 ∷ 156 ∷ 164 ∷ 172 ∷ 180 ∷ 196 ∷ 204 ∷ 212 ∷ 220 ∷ 228 ∷ 236
    ∷ 244 ∷ 252 ∷ 1 ∷ 2 ∷ 3 ∷ 4 ∷ 5 ∷ 6 ∷ 7 ∷ 8 ∷ 9 ∷ 10 ∷ 11 ∷ 12 ∷ 13 ∷ 14 ∷ 15 ∷ 16 ∷ 29 ∷ 32
    ∷ 48 ∷ 58 ∷ 64 ∷ 80 ∷ 96 ∷ 112 ∷ 116 ∷ 128 ∷ 144 ∷ 160 ∷ 176 ∷ 192 ∷ 208 ∷ 224 ∷ 232 ∷ 240 ∷ []

-- One entry of crc_table: the rounds left, and `crc`.
unfoldable pub crc_rounds : ℕ → ℕ → ℕ → ℕ
crc_rounds poly zero crc = crc
crc_rounds poly (suc n) crc =
    let shifted = crc * 2 % 2 ^ 16 in
    crc_rounds poly n (if crc / 2 ^ 15 % 2 == 1 then bit_xor shifted poly else shifted)

-- The entries from `i` on.
unfoldable pub crc_entries : ℕ → ℕ → ℕ → List ℕ
unfolding crc_rounds
crc_entries poly zero i = []
crc_entries poly (suc n) i = crc_rounds poly 8 (i * 256) ∷ crc_entries poly n (i + 1)

unfoldable pub fill_crc_table : ℕ → List ℕ
unfolding crc_entries
fill_crc_table poly = crc_entries poly 256 0

unfoldable pub crc16_step : List ℕ → ℕ → ℕ → ℕ
crc16_step crc_table crc b =
    bit_xor (crc * 256 % 2 ^ 16) (get_or crc_table (bit_xor (crc / 256) b) 0)

unfoldable pub crc16_loop : List ℕ → ℕ → List ℕ → ℕ
unfolding crc16_step
crc16_loop crc_table crc [] = crc
crc16_loop crc_table crc (b ∷ bs) = crc16_loop crc_table (crc16_step crc_table crc b) bs

-- The nine bytes behind the parity, then the parity.
unfoldable pub crc16 : List ℕ → List ℕ → ℕ
unfolding crc16_loop
crc16 crc_table x = crc16_loop crc_table (crc16_loop crc_table 0 (take 9 (drop 2 x))) (take 2 x)

-- An entry that is not 0 stays.
unfoldable pub add_entry : ℕ → ℕ → SparseArray → SparseArray
unfolding get_at set_at
add_entry syndrome v table =
    if get_at 16 table syndrome == 0 then set_at 16 table syndrome v else table

-- `error` in the loops: one pattern, moved by `shift` bits across two bytes.
unfoldable pub error_at : ℕ → ℕ → ℕ → List ℕ
error_at i shift p =
    let error = replicate 11 0 in
    if shift == 0
    then set error i p
    else set (set error i (p / 2 ^ shift)) (i + 1) (p * 2 ^ (8 - shift) % 256)

-- The loop over `j`.
unfoldable pub fill_patterns : List ℕ → ℕ → ℕ → List ℕ → SparseArray → SparseArray
unfolding add_entry crc16 error_at
fill_patterns crc_table i shift [] table = table
fill_patterns crc_table i shift (p ∷ ps) table =
    fill_patterns crc_table i shift ps
      (add_entry (crc16 crc_table (error_at i shift p)) ((i * 8 + shift) * 256 + p) table)

-- The loop over `i`, with the rounds left.
unfoldable pub fill_positions : List ℕ → ℕ → ℕ → ℕ → List ℕ → SparseArray → SparseArray
unfolding fill_patterns
fill_positions crc_table zero i shift ps table = table
fill_positions crc_table (suc n) i shift ps table =
    fill_positions crc_table n (i + 1) shift ps (fill_patterns crc_table i shift ps table)

unfoldable pub fill_syndrome_table : List ℕ → SparseArray
unfolding fill_positions
fill_syndrome_table crc_table = fill_positions crc_table 10 0 6 (take 30 (drop 60 pattern)) (
    fill_positions crc_table 10 0 2 (take 30 (drop 45 pattern)) (
      fill_positions crc_table 10 0 4 (take 45 pattern)
        (fill_positions crc_table 11 0 0 pattern absent)))

pub record FirecodeChecker : Type 0 where
  pub crc_table : List ℕ
  pub syndrome_table : SparseArray

-- The constructor.
unfoldable pub firecode_checker : FirecodeChecker
unfolding fill_crc_table fill_syndrome_table
firecode_checker =
    let crc_table = fill_crc_table polynom in
    record { crc_table = crc_table; syndrome_table = fill_syndrome_table crc_table }

unfoldable pub check : FirecodeChecker → List ℕ → Bool
unfolding crc16
check f x = crc16 f.crc_table x == 0

-- `x[i] ^= v`
abbrev pub flip_byte : ℕ → ℕ → List ℕ → List ℕ
flip_byte i v x = set x i (bit_xor (get_or x i 0) v)

-- What follows the computation of the syndrome. A write at index 11 is one of `x[11] ^= 0`.
unfoldable pub correct_6bits : FirecodeChecker → ℕ → List ℕ → Bool × List ℕ
unfolding get_at
correct_6bits f syndrome x =
    let entry = get_at 16 f.syndrome_table syndrome in
    let error = entry % 256 in
    let bit = entry / 256 in
    if syndrome == 0 then (true, x) else if error == 0 then (false, x) else (
      true,
      flip_byte (bit / 8 + 1) (error * 2 ^ (8 - bit % 8) % 256)
          (flip_byte (bit / 8) (error / 2 ^ (bit % 8)) x),
    )

unfoldable pub check_and_correct_6bits : FirecodeChecker → List ℕ → Bool × List ℕ
unfolding crc16 correct_6bits
check_and_correct_6bits f x = correct_6bits f (crc16 f.crc_table x) x
