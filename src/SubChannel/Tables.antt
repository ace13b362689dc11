-- ===== src/SubChannel/Tables.antt =====
-- base/decoder/fib_table.h and the tables in base/decoder/fib_decoder_fig0.cpp: what the short and
-- the long form of FIG 0/1 say of a sub-channel's size, protection level and bit rate.
use dabstar.Prelude.{
  ℕ, ◌+◌, ◌*◌, ◌/◌, List, [], ◌∷◌, Option, none, some, get_or, ◌==◌, if◌then◌else◌,
}

-- SProtLevel
pub record ProtLevel : Type 0 where
  pub cu_size : ℕ
  pub prot_level : ℕ
  pub bit_rate : ℕ

abbrev pub level : ℕ → ℕ → ℕ → ProtLevel
level cu_size prot_level bit_rate = record {
  cu_size = cu_size;
  prot_level = prot_level;
  bit_rate = bit_rate;
}

-- cProtLevelTable, ETSI EN 300 401 table 8, from index 0 on.
abbrev pub prot_level_table : List ProtLevel
prot_level_table =
    level 16 5 32
    ∷ level 21 4 32
    ∷ level 24 3 32
    ∷ level 29 2 32
    ∷ level 35 1 32
    ∷ level 24 5 48
    ∷ level 29 4 48
    ∷ level 35 3 48
    ∷ level 42 2 48
    ∷ level 52 1 48
    ∷ level 29 5 56
    ∷ level 35 4 56
    ∷ level 42 3 56
    ∷ level 52 2 56
    ∷ level 32 5 64
    ∷ level 42 4 64
    ∷ level 48 3 64
    ∷ level 58 2 64
    ∷ level 70 1 64
    ∷ level 40 5 80
    ∷ level 52 4 80
    ∷ level 58 3 80
    ∷ level 70 2 80
    ∷ level 84 1 80
    ∷ level 48 5 96
    ∷ level 58 4 96
    ∷ level 70 3 96
    ∷ level 84 2 96
    ∷ level 104 1 96
    ∷ level 58 5 112
    ∷ level 70 4 112
    ∷ level 84 3 112
    ∷ level 104 2 112
    ∷ level 64 5 128
    ∷ level 84 4 128
    ∷ level 96 3 128
    ∷ level 116 2 128
    ∷ level 140 1 128
    ∷ level 80 5 160
    ∷ level 104 4 160
    ∷ level 116 3 160
    ∷ level 140 2 160
    ∷ level 168 1 160
    ∷ level 96 5 192
    ∷ level 116 4 192
    ∷ level 140 3 192
    ∷ level 168 2 192
    ∷ level 208 1 192
    ∷ level 116 5 224
    ∷ level 140 4 224
    ∷ level 168 3 224
    ∷ level 208 2 224
    ∷ level 232 1 224
    ∷ level 128 5 256
    ∷ level 168 4 256
    ∷ level 192 3 256
    ∷ level 232 2 256
    ∷ level 280 1 256
    ∷ level 160 5 320
    ∷ level 208 4 320
    ∷ level 280 2 320
    ∷ level 192 5 384
    ∷ level 280 3 384
    ∷ level 416 1 384
    ∷ []

-- The capacity units for each 8 kbit/s (option 0) and each 32 kbit/s (option 1), by the level.
abbrev pub eep_a_table : List ℕ
eep_a_table = 12 ∷ 8 ∷ 6 ∷ 4 ∷ []

abbrev pub eep_b_table : List ℕ
eep_b_table = 27 ∷ 21 ∷ 18 ∷ 15 ∷ []

-- The bit rate of the long form, and its protection level with the option as bit 2. `none` is an
-- option that is not supported, whose bit rate stays -1; the level has two bits, so that the
-- tables are not read out of range.
unfoldable pub long_form : ℕ → ℕ → ℕ → Option ProtLevel
long_form option prot_level cu_size =
    if option == 0
    then some (level cu_size prot_level (cu_size / get_or eep_a_table prot_level 0 * 8))
    else (if option == 1
        then some (level cu_size (prot_level + 4) (cu_size / get_or eep_b_table prot_level 0 * 32))
        else none)
