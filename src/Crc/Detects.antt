-- ===== src/Crc/Detects.antt =====
-- Which bit sequences pass the check.
use dabstar.Prelude.{
  ℕ, suc, ◌+◌, ◌≤◌, ◌<◌, ◌≡◌, refl, sym, ap, ◌∙◌, ◌↔◌, Bool, true, false, Bool-cases, inl, inr,
  List, [], ◌∷◌, ◌++◌, length, length-append, length-map, leb, replicate, not, ◌&&◌, map, arith,
}
use dabstar.Crc.{
  xor, crc_polynome, feed_back, shift_left, top, crc_step, crc_loop, is_zero, check_crc_bits,
}

-- The register after the bits of a message, with no inversion.
unfoldable pub register : List Bool → List Bool → List Bool
register b [] = b
register b (x ∷ xs) = register (crc_step b x) xs

-- Before the last 16 bits the loop takes the bits as they are.
crc_loop-message :
    (xs ys : List Bool) (i : ℕ) (b : List Bool) (size : ℕ)
    → size ≡ i + length xs + 16
    → crc_loop size i b (xs ++ ys) ≡ crc_loop size (i + length xs) (register b xs) ys
unfolding crc_loop register
crc_loop-message [] ys i b size h =
    let e : i ≡ i + 0 = omega arith in ap (λ k. crc_loop size k b ys) e
crc_loop-message (x ∷ xs) ys i b size h =
    let plain : leb size (i + 16) ≡ false = ground arith in
    let e : i + 1 + length xs ≡ i + suc (length xs) = omega arith in
    rw (plain, crc_loop)
      (crc_loop-message xs ys (i + 1) (crc_step b x) size (omega arith)
        ∙ ap (λ k. crc_loop size k (register (crc_step b x) xs) ys) e)

crc_loop-tail :
    (ys : List Bool) (i : ℕ) (b : List Bool) (size : ℕ)
    → size ≤ i + 16
    → crc_loop size i b ys ≡ register b (map not ys)
unfolding crc_loop register
crc_loop-tail [] i b size h = refl
crc_loop-tail (y ∷ ys) i b size h =
    let inverted : leb size (i + 16) ≡ true = ground arith in
    rw inverted (crc_loop-tail ys (i + 1) (crc_step b (not y)) size (omega arith))

-- The check of a message with a field of 16 bits behind it.
check-append :
    (xs ys : List Bool)
    → length ys ≡ 16
    → check_crc_bits (xs ++ ys) ≡ is_zero (register (register (replicate 16 true) xs) (map not ys))
unfolding check_crc_bits
check-append xs ys h = ap is_zero (
    crc_loop-message xs ys 0 (replicate 16 true) (length (xs ++ ys))
      (omega (arith, length-append {0} xs ys))
    ∙ crc_loop-tail ys (0 + length xs) _ (length (xs ++ ys))
        (omega (arith, length-append {0} xs ys)))

-- A round gives zeros exactly from a register whose top bit is the incoming one and whose others
-- are zeros.
abbrev others : List Bool → List Bool
others [] = []
others (x ∷ b) = b

is_zero-snoc : (b : List Bool) → is_zero (b ++ (false ∷ [])) ≡ is_zero b
unfolding is_zero
is_zero-snoc [] = refl
is_zero-snoc (x ∷ b) = ap (λ t. not x && t) (is_zero-snoc b)

is_zero-feed_back : (p b : List Bool) → is_zero (feed_back p b) ≡ false
unfolding is_zero feed_back
is_zero-feed_back [] b = refl
is_zero-feed_back (p ∷ ps) [] = refl
is_zero-feed_back (p ∷ ps) (x ∷ []) = refl
is_zero-feed_back (p ∷ ps) (x ∷ y ∷ b) = ground (arith, is_zero-feed_back ps (y ∷ b))

same : Bool → Bool → Bool
same x y = not (xor x y)

-- The bits of `ts` are the first of `b`, and the others of `b` are zeros.
matches : List Bool → List Bool → Bool
matches b [] = is_zero b
matches [] (t ∷ ts) = false
matches (x ∷ b) (t ∷ ts) = same x t && matches b ts

and_false : (x : Bool) → (x && false) ≡ false
and_false true = refl
and_false false = refl

matches-feed_back :
    (p b ts : List Bool)
    → length ts < length b
    → length b ≤ length p + 1
    → matches (feed_back p b) ts ≡ false
unfolding matches feed_back is_zero
matches-feed_back p [] ts h k = absurd (omega arith)
matches-feed_back [] (x ∷ []) [] h k = refl
matches-feed_back [] (x ∷ []) (t ∷ ts) h k = absurd (omega arith)
matches-feed_back [] (x ∷ y ∷ b) ts h k = absurd (omega arith)
matches-feed_back (p ∷ ps) (x ∷ []) [] h k = refl
matches-feed_back (p ∷ ps) (x ∷ []) (t ∷ ts) h k = absurd (omega arith)
matches-feed_back (p ∷ ps) (x ∷ y ∷ b) [] h k = is_zero-feed_back (p ∷ ps) (x ∷ y ∷ b)
matches-feed_back (p ∷ ps) (x ∷ y ∷ b) (t ∷ ts) h k =
    ap (λ r. same (xor p y) t && r) (matches-feed_back ps (y ∷ b) ts (omega arith) (omega arith))
    ∙ and_false (same (xor p y) t)

matches-snoc :
    (b ts : List Bool) → length ts ≤ length b → matches (b ++ (false ∷ [])) ts ≡ matches b ts
unfolding matches
matches-snoc b [] h = is_zero-snoc b
matches-snoc [] (t ∷ ts) h = absurd (omega arith)
matches-snoc (x ∷ b) (t ∷ ts) h = ap (λ r. same x t && r) (matches-snoc b ts (omega arith))

length-feed_back :
    (p b : List Bool) → 0 < length b → length b ≤ length p + 1 → length (feed_back p b) ≡ length b
unfolding feed_back
length-feed_back p [] h k = absurd (omega arith)
length-feed_back [] (x ∷ []) h k = refl
length-feed_back [] (x ∷ y ∷ b) h k = absurd (omega arith)
length-feed_back (p ∷ ps) (x ∷ []) h k = refl
length-feed_back (p ∷ ps) (x ∷ y ∷ b) h k =
    ap suc (length-feed_back ps (y ∷ b) (omega arith) (omega arith))

length-shift_left : (b : List Bool) → length (shift_left b) ≡ length b
unfolding shift_left
length-shift_left [] = refl
length-shift_left (x ∷ b) = length-append b (false ∷ []) ∙ omega arith

-- The register keeps its 16 bits.
pub length-crc_step : (b : List Bool) (t : Bool) → length b ≡ 16 → length (crc_step b t) ≡ 16
unfolding crc_step
length-crc_step b t h = elim (Bool-cases (xor (top b) t)) [
  | inl e ↦ rw e (length-feed_back crc_polynome b (omega arith) (omega arith) ∙ h)
  | inr e ↦ rw e (length-shift_left b ∙ h)
]

matches-crc_step :
    (x : Bool) (b : List Bool) (t : Bool) (ts : List Bool)
    → length b ≡ 15
    → length ts ≤ 15
    → matches (crc_step (x ∷ b) t) ts ≡ matches (x ∷ b) (t ∷ ts)
unfolding crc_step matches same shift_left xor
matches-crc_step true b true ts h k = matches-snoc b ts (omega arith)
matches-crc_step true b false ts h k =
    matches-feed_back crc_polynome (true ∷ b) ts (omega arith) (omega arith)
matches-crc_step false b true ts h k =
    matches-feed_back crc_polynome (false ∷ b) ts (omega arith) (omega arith)
matches-crc_step false b false ts h k = matches-snoc b ts (omega arith)

is_zero-register :
    (ts b : List Bool) → length b ≡ 16 → length ts ≤ 16 → is_zero (register b ts) ≡ matches b ts
unfolding register matches
is_zero-register [] b h k = refl
is_zero-register (t ∷ ts) [] h k = absurd (omega arith)
is_zero-register (t ∷ ts) (x ∷ b) h k =
    is_zero-register ts (crc_step (x ∷ b) t) (length-crc_step (x ∷ b) t h) (omega arith)
    ∙ matches-crc_step x b t ts (omega arith) (omega arith)

pub tail_eq : {x y : Bool} {b c : List Bool} → ◌≡◌ {A = List Bool} (x ∷ b) (y ∷ c) → b ≡ c
tail_eq e = cc

matches_iff :
    (b ts : List Bool) → length b ≡ length ts → (matches b (map not ts) ≡ true) ↔ (ts ≡ map not b)
unfolding matches is_zero same xor
matches_iff [] [] h = (λ e. refl, λ e. refl)
matches_iff [] (t ∷ ts) h = absurd (omega arith)
matches_iff (x ∷ b) [] h = absurd (omega arith)
matches_iff (true ∷ b) (true ∷ ts) h = (λ e. cc, λ e. cc)
matches_iff (true ∷ b) (false ∷ ts) h =
    let ih = matches_iff b ts (omega arith) in
    (λ e. ap (λ l. false ∷ l) (ih.0 e), λ e. ih.1 (tail_eq e))
matches_iff (false ∷ b) (true ∷ ts) h =
    let ih = matches_iff b ts (omega arith) in
    (λ e. ap (λ l. true ∷ l) (ih.0 e), λ e. ih.1 (tail_eq e))
matches_iff (false ∷ b) (false ∷ ts) h = (λ e. cc, λ e. cc)

pub length-register : (xs b : List Bool) → length b ≡ 16 → length (register b xs) ≡ 16
unfolding register
length-register [] b h = h
length-register (x ∷ xs) b h = length-register xs (crc_step b x) (length-crc_step b x h)

-- A message with a field of 16 bits behind it passes the check exactly if the field is the
-- complement of the register after the message.
pub check_crc_bits_iff :
    (xs ys : List Bool)
    → length ys ≡ 16
    → (check_crc_bits (xs ++ ys) ≡ true) ↔ (ys ≡ map not (register (replicate 16 true) xs))
check_crc_bits_iff xs ys h =
    let r = register (replicate 16 true) xs in
    let hr : length r ≡ 16 = length-register xs (replicate 16 true) refl in
    let e : check_crc_bits (xs ++ ys) ≡ matches r (map not ys) =
      check-append xs ys h
      ∙ is_zero-register (map not ys) r hr (omega (arith, length-map {0, 0} ys not)) in
    let m = matches_iff r ys (hr ∙ sym h) in (λ k. m.0 (sym e ∙ k), λ k. e ∙ m.1 k)
