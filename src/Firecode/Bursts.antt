-- ===== src/Firecode/Bursts.antt =====
-- Bursts of up to five bits are corrected, but for the patterns that the table leaves out.
use Prim.Native.Nat.{bit_xor}
use dabstar.Prelude.{
  ℕ, zero, suc, ◌+◌, ◌-◌, ◌*◌, ◌/◌, ◌%◌, ◌^◌, ◌≤◌, ◌<◌, ◌≡◌, ◌≢◌, ◌⊎◌, inl, inr, refl, sym, ap, ◌∙◌,
  Bool, true, false, List, [], ◌∷◌, ◌==◌, ◌&&◌, ◌||◌, not, leb, if◌then◌else◌, replicate,
  passes_from, passes_below, length, All, ==_iff, arith,
}
use mathlib.Core.Path.{ap₂}
use dabstar.Xor.{zero-xor, IsSymbol, add_lists, add_lists-zeros}
use dabstar.Firecode.{firecode_checker, check, check_and_correct_6bits, correct_6bits, crc16}
use dabstar.Firecode.Linear.{crc16-xor, correct-add_lists}

-- The lowest `n` bytes of a number, the highest byte first.
abbrev bytes_of : ℕ → ℕ → List ℕ
bytes_of zero v = []
bytes_of (suc n) v = v / 256 ^ n % 256 ∷ bytes_of n v

-- Five bits, from bit `start` of the header on, counted from the highest bit of the first byte.
unfoldable pub burst : ℕ → ℕ → List ℕ
burst start bits = bytes_of 11 (bits * 2 ^ (83 - start))

bytes_of-IsSymbol : (n v : ℕ) → All IsSymbol (bytes_of n v)
bytes_of-IsSymbol zero v = tt
bytes_of-IsSymbol (suc n) v = (omega arith, bytes_of-IsSymbol n v)

-- The list that consists of `n` zeros.
abbrev zero_bytes : ℕ → List ℕ → Bool
zero_bytes zero [] = true
zero_bytes zero (b ∷ bs) = false
zero_bytes (suc n) [] = false
zero_bytes (suc n) (b ∷ bs) = if b == 0 then zero_bytes n bs else false

zero_bytes-replicate : (n : ℕ) (bs : List ℕ) → zero_bytes n bs ≡ true → bs ≡ replicate n 0
zero_bytes-replicate zero [] h = refl
zero_bytes-replicate zero (b ∷ bs) h = ground (arith, h)
zero_bytes-replicate (suc n) [] h = ground (arith, h)
zero_bytes-replicate (suc n) (b ∷ bs) h =
    ap₂ ◌∷◌ (ground (arith, h)) (zero_bytes-replicate n bs (ground (arith, h)))

-- The result of a correction of the burst alone.
abbrev accepted : Bool × List ℕ → Bool
accepted (ok, x) = ok && zero_bytes 11 x

apart : ℕ → Bool
apart start = leb (start + 5) 16 || leb 16 start

left_out : ℕ → Bool
left_out bits = bits == 21 || bits == 25 || bits == 29

covered : ℕ → ℕ → Bool
unfolding apart left_out
covered start bits = apart start && not (left_out bits)

burst_test : ℕ → ℕ → Bool
unfolding check_and_correct_6bits burst covered
burst_test start bits =
    if covered start bits
    then accepted (check_and_correct_6bits firecode_checker (burst start bits))
    else true

burst_row : ℕ → Bool
unfolding passes_from burst_test
burst_row start = passes_from (burst_test start) 0 32

burst_table : passes_from burst_row 0 84 ≡ true
unfolding passes_from burst_row firecode_checker
burst_table = refl

chosen : (c t : Bool) → c ≡ true → (if c then t else true) ≡ true → t ≡ true
chosen true t h k = k
chosen false t h k = ground (arith, h)

accepted_pair : (r : Bool × List ℕ) → accepted r ≡ true → r ≡ (true, replicate 11 0)
accepted_pair (true, x) h = ap (λ y. (true, y)) (zero_bytes-replicate 11 x h)
accepted_pair (false, x) h = ground (arith, h)

burst_alone :
    (start bits : ℕ)
    → start ≤ 83
    → bits < 32
    → (start + 5 ≤ 16) ⊎ (16 ≤ start)
    → bits ≢ 21
    → bits ≢ 25
    → bits ≢ 29
    → check_and_correct_6bits firecode_checker (burst start bits) ≡ (true, replicate 11 0)
unfolding burst_row burst_test covered apart left_out
burst_alone start bits hs hb side n21 n25 n29 =
    let t =
      passes_below (burst_test start) 32 bits
        (passes_below burst_row 84 start burst_table (omega arith)) hb in
    let stands : (leb (start + 5) 16 || leb 16 start) ≡ true = elim side [
      | inl l ↦ ground (arith, l)
      | inr r ↦ ground (arith, r)
    ] in
    let allowed : covered start bits ≡ true = ground (arith, stands, n21, n25, n29) in
    accepted_pair (check_and_correct_6bits firecode_checker (burst start bits)) (
      chosen (covered start bits)
        (accepted (check_and_correct_6bits firecode_checker (burst start bits))) allowed t)

-- A header of eleven bytes that passes the check, with a burst on top: any of five neighbouring bits
-- that do not reach from byte 1 into byte 2, changed in any pattern but 10101, 11001 and 11101.
-- `check_and_correct_6bits` accepts it and gives the header back.
pub check_and_correct_6bits-burst :
    (x : List ℕ) (start bits : ℕ)
    → length x ≡ 11
    → All IsSymbol x
    → check firecode_checker x ≡ true
    → start ≤ 83
    → bits < 32
    → (start + 5 ≤ 16) ⊎ (16 ≤ start)
    → bits ≢ 21
    → bits ≢ 25
    → bits ≢ 29
    → check_and_correct_6bits firecode_checker (add_lists x (burst start bits)) ≡ (true, x)
unfolding check check_and_correct_6bits burst
check_and_correct_6bits-burst x start bits n a ok hs hb side n21 n25 n29 =
    let e = burst start bits in
    let alone = burst_alone start bits hs hb side n21 n25 n29 in
    let table = firecode_checker.crc_table in
    let syndrome : crc16 table (add_lists x e) ≡ crc16 table e =
      crc16-xor x e n refl a (bytes_of-IsSymbol 11 (bits * 2 ^ (83 - start)))
      ∙ ap (λ s. bit_xor s (crc16 table e)) ((==_iff _ _).0 ok)
      ∙ zero-xor (crc16 table e) in
    ap (λ s. correct_6bits firecode_checker s (add_lists x e)) syndrome
    ∙ correct-add_lists (crc16 table e) x e n
    ∙ (λ i. ((alone i).0, add_lists x (alone i).1))
    ∙ ap (λ y. (true, y)) (ap (λ k. add_lists x (replicate k 0)) (sym n) ∙ add_lists-zeros x)
