-- ===== src/Firecode/Linear.antt =====
-- The check word and the correction go through the exclusive or of headers.
use Prim.Native.Nat.{bit_xor}
use dabstar.Prelude.{
  ℕ, zero, suc, ◌+◌, ◌-◌, ◌*◌, ◌/◌, ◌%◌, ◌^◌, ◌<◌, ◌≡◌, refl, sym, ap, ◌∙◌, Bool, true, List, [],
  ◌∷◌, length, All, take, drop, get_or, ◌==◌, ltb, Bool-cases, inl, inr, passes_from, passes_below,
  ==_iff, All-take, length-take, length-drop, length-set, arith,
}
use mathlib.Core.Path.{ap₂}
use dabstar.Xor.{
  zero-xor, xor_assoc, xor_swap, xor-lt, xor_split, IsSymbol, add_lists, take-add_lists,
  drop-add_lists,
}
use dabstar.Firecode.{firecode_checker, crc16_step, crc16_loop, crc16, correct_6bits, flip_byte}
use dabstar.Firecode.Sparse.{get_at}

abbrev entries : List ℕ
entries = firecode_checker.crc_table

entry_test : ℕ → ℕ → Bool
entry_test a b = get_or entries (bit_xor a b) 0 == bit_xor (get_or entries a 0) (get_or entries b 0)

entry_row : ℕ → Bool
unfolding passes_from entry_test
entry_row a = passes_from (entry_test a) 0 256

entry_table : passes_from entry_row 0 256 ≡ true
unfolding passes_from entry_row firecode_checker
entry_table = refl

entry-xor :
    (a b : ℕ)
    → a < 256
    → b < 256
    → get_or entries (bit_xor a b) 0 ≡ bit_xor (get_or entries a 0) (get_or entries b 0)
unfolding entry_row entry_test
entry-xor a b h k =
    (==_iff _ _).0
      (passes_below (entry_test a) 256 b (passes_below entry_row 256 a entry_table h) k)

entry_bound : passes_from (λ a. ltb (get_or entries a 0) 65536) 0 256 ≡ true
unfolding passes_from firecode_checker
entry_bound = refl

entry-lt : (a : ℕ) → a < 256 → get_or entries a 0 < 65536
entry-lt a h =
    let t = passes_below (λ a. ltb (get_or entries a 0) 65536) 256 a entry_bound h in
    ground (arith, t)

-- One step, for a check word cut into its two bytes.
step_bytes :
    (h l b : ℕ)
    → h < 256
    → l < 256
    → crc16_step entries (256 * h + l) b ≡ bit_xor (256 * l) (get_or entries (bit_xor h b) 0)
unfolding crc16_step
step_bytes h l b hh hl =
    let low : (256 * h + l) * 256 % 65536 ≡ 256 * l = omega arith in
    let high : (256 * h + l) / 256 ≡ h = omega arith in rw (low, high) refl

step_bytes-xor :
    (h l k m a b : ℕ)
    → h < 256
    → l < 256
    → k < 256
    → m < 256
    → a < 256
    → b < 256
    → crc16_step entries (bit_xor (256 * h + l) (256 * k + m)) (bit_xor a b)
      ≡ bit_xor (crc16_step entries (256 * h + l) a) (crc16_step entries (256 * k + m) b)
step_bytes-xor h l k m a b hh hl hk hm ha hb =
    let wide : 256 * bit_xor l m ≡ bit_xor (256 * l) (256 * m) = omega (
      arith,
      xor_split 8 l 0 m 0 (omega arith) (omega arith),
      zero-xor 0,
      ap₂ bit_xor (let e : 256 * l + 0 ≡ 256 * l = omega arith in e)
          (let e : 256 * m + 0 ≡ 256 * m = omega arith in e),
    ) in
    ap (λ c. crc16_step entries c (bit_xor a b)) (xor_split 8 h l k m hl hm)
    ∙ step_bytes (bit_xor h k) (bit_xor l m) (bit_xor a b) (xor-lt 8 h k hh hk) (xor-lt 8 l m hl hm)
    ∙ ap₂ bit_xor wide (
        ap (λ i. get_or entries i 0) (xor_swap h k a b)
        ∙ entry-xor (bit_xor h a) (bit_xor k b) (xor-lt 8 h a hh ha) (xor-lt 8 k b hk hb))
    ∙ xor_swap (256 * l) (256 * m) (get_or entries (bit_xor h a) 0) (get_or entries (bit_xor k b) 0)
    ∙ sym (ap₂ bit_xor (step_bytes h l a hh hl) (step_bytes k m b hk hm))

step-xor :
    (c e a b : ℕ)
    → c < 65536
    → e < 65536
    → a < 256
    → b < 256
    → crc16_step entries (bit_xor c e) (bit_xor a b)
      ≡ bit_xor (crc16_step entries c a) (crc16_step entries e b)
step-xor c e a b hc he ha hb =
    let cut : (n : ℕ) → 256 * (n / 256) + n % 256 ≡ n = λ n. omega arith in
    ap₂ (λ c e. crc16_step entries (bit_xor c e) (bit_xor a b)) (sym (cut c)) (sym (cut e))
    ∙ step_bytes-xor (c / 256) (c % 256) (e / 256) (e % 256) a b (omega arith) (omega arith)
        (omega arith) (omega arith) ha hb
    ∙ ap₂ (λ c e. bit_xor (crc16_step entries c a) (crc16_step entries e b)) (cut c) (cut e)

step-lt : (c b : ℕ) → c < 65536 → b < 256 → crc16_step entries c b < 65536
unfolding crc16_step
step-lt c b hc hb =
    xor-lt 16 (c * 256 % 65536) (get_or entries (bit_xor (c / 256) b) 0) (omega arith)
      (entry-lt (bit_xor (c / 256) b) (xor-lt 8 (c / 256) b (omega arith) hb))

loop-lt : (c : ℕ) (bs : List ℕ) → c < 65536 → All IsSymbol bs → crc16_loop entries c bs < 65536
unfolding crc16_loop
loop-lt c [] h a = h
loop-lt c (b ∷ bs) h a = loop-lt (crc16_step entries c b) bs (step-lt c b h a.0) a.1

loop-xor :
    (c e : ℕ) (xs ys : List ℕ)
    → c < 65536
    → e < 65536
    → All IsSymbol xs
    → All IsSymbol ys
    → length xs ≡ length ys
    → crc16_loop entries (bit_xor c e) (add_lists xs ys)
      ≡ bit_xor (crc16_loop entries c xs) (crc16_loop entries e ys)
unfolding crc16_loop add_lists
loop-xor c e [] [] hc he a b n = refl
loop-xor c e [] (y ∷ ys) hc he a b n = absurd (omega arith)
loop-xor c e (x ∷ xs) [] hc he a b n = absurd (omega arith)
loop-xor c e (x ∷ xs) (y ∷ ys) hc he a b n =
    ap (λ s. crc16_loop entries s (add_lists xs ys)) (step-xor c e x y hc he a.0 b.0)
    ∙ loop-xor (crc16_step entries c x) (crc16_step entries e y) xs ys (step-lt c x hc a.0)
        (step-lt e y he b.0) a.1 b.1 (omega arith)

All-drop : (n : ℕ) (xs : List ℕ) → All IsSymbol xs → All IsSymbol (drop n xs)
All-drop zero xs a = a
All-drop (suc n) [] a = tt
All-drop (suc n) (x ∷ xs) a = All-drop n xs a.1

pub crc16-xor :
    (x e : List ℕ)
    → length x ≡ 11
    → length e ≡ 11
    → All IsSymbol x
    → All IsSymbol e
    → crc16 entries (add_lists x e) ≡ bit_xor (crc16 entries x) (crc16 entries e)
unfolding crc16
crc16-xor x e nx ne a b =
    let body : (y : List ℕ) → All IsSymbol y → All IsSymbol (take 9 (drop 2 y)) =
      λ y c. All-take IsSymbol 9 (drop 2 y) (All-drop 2 y c) in
    let sizes : (y : List ℕ) → length y ≡ 11 → length (take 9 (drop 2 y)) ≡ 9 =
      λ y n. length-take 9 (drop 2 y) (omega (arith, length-drop 2 y)) in
    let heads : (y : List ℕ) → length y ≡ 11 → length (take 2 y) ≡ 2 =
      λ y n. length-take 2 y (omega arith) in
    let inner =
      loop-xor 0 0 (take 9 (drop 2 x)) (take 9 (drop 2 e)) (omega arith) (omega arith) (body x a)
        (body e b) (sizes x nx ∙ sym (sizes e ne)) in
    ap₂ (crc16_loop entries)
      (ap₂ (crc16_loop entries) (sym (zero-xor 0)) (
          ap (take 9) (drop-add_lists 2 x e (nx ∙ sym ne)) ∙ take-add_lists 9 (drop 2 x) (drop 2 e))
        ∙ inner)
      (take-add_lists 2 x e)
    ∙ loop-xor (crc16_loop entries 0 (take 9 (drop 2 x))) (crc16_loop entries 0 (take 9 (drop 2 e)))
        (take 2 x) (take 2 e) (loop-lt 0 (take 9 (drop 2 x)) (omega arith) (body x a))
        (loop-lt 0 (take 9 (drop 2 e)) (omega arith) (body e b)) (All-take IsSymbol 2 x a)
        (All-take IsSymbol 2 e b) (heads x nx ∙ sym (heads e ne))

-- A correction of the one list is one of the sum.
flip-add_lists :
    (i v : ℕ) (x e : List ℕ)
    → length x ≡ length e
    → flip_byte i v (add_lists x e) ≡ add_lists x (flip_byte i v e)
unfolding add_lists
flip-add_lists i v [] e n = refl
flip-add_lists i v (x ∷ xs) [] n = absurd (omega arith)
flip-add_lists zero v (x ∷ xs) (e ∷ es) n = ap (λ b. b ∷ add_lists xs es) (xor_assoc x e v)
flip-add_lists (suc i) v (x ∷ xs) (e ∷ es) n =
    ap (λ bs. bit_xor x e ∷ bs) (flip-add_lists i v xs es (omega arith))

pub correct-add_lists :
    (syndrome : ℕ) (x e : List ℕ)
    → length x ≡ length e
    → correct_6bits firecode_checker syndrome (add_lists x e) ≡ (
      (correct_6bits firecode_checker syndrome e).0,
      add_lists x (correct_6bits firecode_checker syndrome e).1,
    )
unfolding correct_6bits
correct-add_lists syndrome x e n =
    let entry = get_at 16 firecode_checker.syndrome_table syndrome in
    let error = entry % 256 in
    let bit = entry / 256 in
    let i = bit / 8 in
    let v = error / 2 ^ (bit % 8) in
    elim (Bool-cases (syndrome == 0)) [
      | inl z ↦ rw z refl
      | inr nz ↦ elim (Bool-cases (error == 0)) [
        | inl none_found ↦ rw (nz, none_found) refl
        | inr found ↦
            rw (nz, found)
              (ap (λ t. (true, t))
                (ap (flip_byte (i + 1) (error * 2 ^ (8 - bit % 8) % 256)) (flip-add_lists i v x e n)
                  ∙ flip-add_lists (i + 1) (error * 2 ^ (8 - bit % 8) % 256) x (flip_byte i v e)
                      (n ∙ sym (length-set e i (bit_xor (get_or e i 0) v)))))
      ]
    ]
