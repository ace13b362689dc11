-- ===== src/Crc/Residue.antt =====
-- The register of the byte-wise CRC behind a message with its check field.
use Prim.Native.Nat.{bit_xor}
use mathlib.Core.Path.{ap₂}
use dabstar.Prelude.{
  ℕ, ◌+◌, ◌-◌, ◌*◌, ◌/◌, ◌%◌, ◌^◌, ◌<◌, ◌≡◌, ◌↔◌, refl, sym, ap, ◌∙◌, Bool, true, false, List, [],
  ◌∷◌, ◌++◌, get_or, ◌==◌, ==_iff, ltb, if◌then◌else◌, passes_from, passes_below, arith, length,
  All,
}
use dabstar.Xor.{xor-lt, xor_split, xor_comm, xor_assoc, xor_cancel, xor_swap, xor_self, xor_zero}
use dabstar.Crc.Bytes.{
  crctab_1021, crc_byte, crc_bytes, calc_crc, check_crc_bytes, check_crc_bytes_iff,
}

-- What is used of an entry: it is a `u16`, only entry 225 ends in the byte 15, and only the last one
-- in the byte 240.
entry_check : ℕ → Bool
entry_check i =
    let t = get_or crctab_1021 i 0 in
    if ltb t (2 ^ 16) then (if t % 256 == 15 then i == 225 else true) else false

last_check : ℕ → Bool
last_check i = if get_or crctab_1021 i 0 % 256 == 240 then i == 255 else true

complement_check : ℕ → Bool
complement_check b = bit_xor 255 b == 255 - b

entries : passes_from entry_check 0 256 ≡ true
unfolding passes_from entry_check crctab_1021
entries = refl

lasts : passes_from last_check 0 256 ≡ true
unfolding passes_from last_check crctab_1021
lasts = refl

complements : passes_from complement_check 0 256 ≡ true
unfolding passes_from complement_check
complements = refl

pub complement : (b : ℕ) → b < 256 → bit_xor 255 b ≡ 255 - b
unfolding complement_check
complement b h = (==_iff _ _).0 (passes_below complement_check 256 b complements h)

entry-lt : (i : ℕ) → i < 256 → get_or crctab_1021 i 0 < 65536
unfolding entry_check
entry-lt i h =
    let t : entry_check i ≡ true = passes_below entry_check 256 i entries h in ground arith

entry_fifteen : (i : ℕ) → i < 256 → get_or crctab_1021 i 0 % 256 ≡ 15 → i ≡ 225
unfolding entry_check
entry_fifteen i h e =
    let t : entry_check i ≡ true = passes_below entry_check 256 i entries h in ground arith

entry_last : (i : ℕ) → i < 256 → get_or crctab_1021 i 0 % 256 ≡ 240 → i ≡ 255
unfolding last_check
entry_last i h e =
    let t : last_check i ≡ true = passes_below last_check 256 i lasts h in ground arith

-- One round over the two bytes `high` and `low` of the register.
crc_byte-bytes :
    (c byte : ℕ)
    → c < 65536
    → byte < 256
    → let t = get_or crctab_1021 (bit_xor byte (c / 256)) 0 in
      crc_byte c byte ≡ 256 * bit_xor (t / 256) (c % 256) + t % 256
unfolding crc_byte
crc_byte-bytes c byte hc hb =
    let x = bit_xor byte (c / 256) in
    let small : x < 256 = xor-lt 8 byte (c / 256) hb (omega arith) in
    let index : x % 256 ≡ x = omega arith in
    let t = get_or crctab_1021 x 0 in
    let parts : t ≡ 256 * (t / 256) + t % 256 = omega arith in
    let shifted : c * 2 ^ 8 % 2 ^ 16 ≡ 256 * (c % 256) + 0 = omega arith in
    ap₂ bit_xor (ap (λ i. get_or crctab_1021 i 0) index ∙ parts) shifted
    ∙ xor_split 8 (t / 256) (t % 256) (c % 256) 0 (omega arith) (omega arith)
    ∙ ap (λ r. 256 * bit_xor (t / 256) (c % 256) + r) (xor_zero (t % 256))

crc_byte-lt : (c byte : ℕ) → c < 65536 → byte < 256 → crc_byte c byte < 65536
crc_byte-lt c byte hc hb =
    let x = bit_xor byte (c / 256) in
    let small : x < 256 = xor-lt 8 byte (c / 256) hb (omega arith) in
    let t = get_or crctab_1021 x 0 in
    let bound = entry-lt x small in
    let high = xor-lt 8 (t / 256) (c % 256) (omega arith) (omega arith) in
    omega (arith, crc_byte-bytes c byte hc hb, high)

pub crc_bytes-lt :
    (c : ℕ) (msg : List ℕ) → c < 65536 → All (λ b. b < 256) msg → crc_bytes c msg < 65536
unfolding crc_bytes
crc_bytes-lt c [] hc a = hc
crc_bytes-lt c (b ∷ msg) hc a = crc_bytes-lt (crc_byte c b) msg (crc_byte-lt c b hc a.0) a.1

crc_bytes-append : (c : ℕ) (xs ys : List ℕ) → crc_bytes c (xs ++ ys) ≡ crc_bytes (crc_bytes c xs) ys
unfolding crc_bytes
crc_bytes-append c [] ys = refl
crc_bytes-append c (x ∷ xs) ys = crc_bytes-append (crc_byte c x) xs ys

-- Two rounds, from the entries that they take.
two_rounds :
    (c high low : ℕ)
    → c < 65536
    → high < 256
    → low < 256
    → let t = get_or crctab_1021 (bit_xor high (c / 256)) 0 in
      let u = get_or crctab_1021 (bit_xor low (bit_xor (t / 256) (c % 256))) 0 in
      crc_byte (crc_byte c high) low ≡ 256 * bit_xor (u / 256) (t % 256) + u % 256
two_rounds c high low hc hh hl =
    let t = get_or crctab_1021 (bit_xor high (c / 256)) 0 in
    let c1 = crc_byte c high in
    let first = crc_byte-bytes c high hc hh in
    let upper : c1 / 256 ≡ bit_xor (t / 256) (c % 256) = omega (arith, first) in
    let lower : c1 % 256 ≡ t % 256 = omega (arith, first) in
    crc_byte-bytes c1 low (crc_byte-lt c high hc hh) hl
    ∙ ap₂
        (λ i j. let u = get_or crctab_1021 (bit_xor low i) 0 in 256 * bit_xor (u / 256) j + u % 256)
        upper lower

-- The two bytes that make the register 0x1d0f are the complements of its own.
residue_of :
    (c high low : ℕ)
    → c < 65536
    → high ≡ 255 - c / 256
    → low ≡ 255 - c % 256
    → crc_byte (crc_byte c high) low ≡ 0x1d0f
unfolding crctab_1021
residue_of c high low hc eh el =
    let a = c / 256 in
    let b = c % 256 in
    let x : bit_xor high a ≡ 255 =
      ap (λ i. bit_xor i a) (eh ∙ sym (complement a (omega arith)))
      ∙ xor_comm (bit_xor 255 a) a
      ∙ ap (bit_xor a) (xor_comm 255 a)
      ∙ xor_cancel a 255 in
    let y : bit_xor low (bit_xor 30 b) ≡ 225 =
      ap (λ i. bit_xor i (bit_xor 30 b)) (el ∙ sym (complement b (omega arith)))
      ∙ xor_swap 255 b 30 b
      ∙ ap (bit_xor 225) (xor_self b) in
    two_rounds c high low hc (omega (arith, eh)) (omega (arith, el))
    ∙ ap
        (λ i.
          let t = get_or crctab_1021 i 0 in
          let u = get_or crctab_1021 (bit_xor low (bit_xor (t / 256) b)) 0 in
          256 * bit_xor (u / 256) (t % 256) + u % 256)
        x
    ∙ ap (λ i. let u = get_or crctab_1021 i 0 in 256 * bit_xor (u / 256) 240 + u % 256) y

of_residue :
    (c high low : ℕ)
    → c < 65536
    → high < 256
    → low < 256
    → crc_byte (crc_byte c high) low ≡ 0x1d0f
    → (high ≡ 255 - c / 256) × (low ≡ 255 - c % 256)
unfolding crctab_1021
of_residue c high low hc hh hl h =
    let a = c / 256 in
    let b = c % 256 in
    let x = bit_xor high a in
    let small_x : x < 256 = xor-lt 8 high a hh (omega arith) in
    let t = get_or crctab_1021 x 0 in
    let bound_t = entry-lt x small_x in
    let m = bit_xor (t / 256) b in
    let small_m : m < 256 = xor-lt 8 (t / 256) b (omega arith) (omega arith) in
    let y = bit_xor low m in
    let small_y : y < 256 = xor-lt 8 low m hl small_m in
    let u = get_or crctab_1021 y 0 in
    let e = sym (two_rounds c high low hc hh hl) ∙ h in
    let same_y : y ≡ 225 = entry_fifteen y small_y (omega (arith, e)) in
    let same_u : u / 256 ≡ 237 = ap (λ i. get_or crctab_1021 i 0 / 256) same_y in
    let upper : bit_xor (u / 256) (t % 256) ≡ 29 = omega (arith, e) in
    let lower : t % 256 ≡ 240 =
      sym (xor_cancel (u / 256) (t % 256))
      ∙ ap (bit_xor (u / 256)) upper
      ∙ ap (λ i. bit_xor i 29) same_u in
    let same_x : x ≡ 255 = entry_last x small_x lower in
    let same_t : t / 256 ≡ 30 = ap (λ i. get_or crctab_1021 i 0 / 256) same_x in
    (
      sym (xor_cancel a high)
          ∙ ap (bit_xor a) (xor_comm a high ∙ same_x)
          ∙ xor_comm a 255
          ∙ complement a (omega arith),
      sym (xor_cancel m low)
          ∙ ap (bit_xor m) (xor_comm m low ∙ same_y)
          ∙ xor_comm m 225
          ∙ ap (λ i. bit_xor 225 (bit_xor i b)) same_t
          ∙ sym (xor_assoc 225 30 b)
          ∙ complement b (omega arith),
    )

-- The byte-wise check accepts a message of bytes with two bytes behind it exactly if the register,
-- started at 0xffff and moved over all of these bytes, those of the check field included, ends at the
-- residue 0x1d0f of the polynomial x^16 + x^12 + x^5 + 1.
pub check_crc_bytes_residue :
    (msg : List ℕ) (high low : ℕ)
    → All (λ b. b < 256) msg
    → high < 256
    → low < 256
    → (check_crc_bytes (msg ++ (high ∷ low ∷ [])) (length msg) ≡ true)
      ↔ (crc_bytes 0xffff (msg ++ (high ∷ low ∷ [])) ≡ 0x1d0f)
unfolding calc_crc crc_bytes
check_crc_bytes_residue msg high low bytes hh hl =
    let c = crc_bytes 0xffff msg in
    let hc = crc_bytes-lt 0xffff msg (omega arith) bytes in
    let field = check_crc_bytes_iff msg high low hh hl in
    let all = crc_bytes-append 0xffff msg (high ∷ low ∷ []) in
    (
      (λ h.
          let (eh, el) = field.0 h in
          all ∙ residue_of c high low hc (omega (arith, hc, eh)) (omega (arith, hc, el))),
      (λ h.
          let (eh, el) = of_residue c high low hc hh hl (sym all ∙ h) in
          field.1 (omega (arith, hc, eh), omega (arith, hc, el))),
    )
