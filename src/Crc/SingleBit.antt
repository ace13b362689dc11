-- ===== src/Crc/SingleBit.antt =====
-- The check rejects every sequence that differs from a passing one in a single bit.
use dabstar.Prelude.{
  ℕ, ◌+◌, ◌≤◌, ◌<◌, ◌≡◌, refl, sym, ap, ◌∙◌, Bool, true, false, Bool-cases, inl, inr, List, [], ◌∷◌,
  ◌++◌, length, length-append, leb, replicate, not, if◌then◌else◌, arith,
}
use mathlib.Core.Path.{ap₂}
use mathlib.Core.Logic.{◌≢◌}
use dabstar.Crc.{
  xor, crc_polynome, feed_back, shift_left, top, crc_step, crc_loop, is_zero, check_crc_bits,
}
use dabstar.Crc.Detects.{length-crc_step, tail_eq}

last : List Bool → Bool
last [] = false
last (x ∷ []) = x
last (x ∷ y ∷ b) = last (y ∷ b)

last-snoc : (b : List Bool) (x : Bool) → last (b ++ (x ∷ [])) ≡ x
unfolding last
last-snoc [] x = refl
last-snoc (y ∷ []) x = refl
last-snoc (y ∷ z ∷ b) x = last-snoc (z ∷ b) x

last-shift_left : (b : List Bool) → last (shift_left b) ≡ false
unfolding last shift_left
last-shift_left [] = refl
last-shift_left (x ∷ b) = last-snoc b false

last-cons : (x : Bool) (b : List Bool) → 0 < length b → last (x ∷ b) ≡ last b
unfolding last
last-cons x [] h = absurd (omega arith)
last-cons x (y ∷ b) h = refl

length-feed_back_pos : (p b : List Bool) → 0 < length (feed_back p b)
unfolding feed_back
length-feed_back_pos [] b = omega arith
length-feed_back_pos (p ∷ ps) [] = omega arith
length-feed_back_pos (p ∷ ps) (x ∷ []) = omega arith
length-feed_back_pos (p ∷ ps) (x ∷ y ∷ b) = omega arith

last-feed_back : (p b : List Bool) → last (feed_back p b) ≡ true
unfolding last feed_back
last-feed_back [] b = refl
last-feed_back (p ∷ ps) [] = refl
last-feed_back (p ∷ ps) (x ∷ []) = refl
last-feed_back (p ∷ ps) (x ∷ y ∷ b) =
    last-cons (xor p y) (feed_back ps (y ∷ b)) (length-feed_back_pos ps (y ∷ b))
    ∙ last-feed_back ps (y ∷ b)

-- The last bit of the register tells whether a round fed back.
last-crc_step : (b : List Bool) (t : Bool) → last (crc_step b t) ≡ xor (top b) t
unfolding crc_step
last-crc_step b t = elim (Bool-cases (xor (top b) t)) [
  | inl e ↦ rw e (last-feed_back crc_polynome b)
  | inr e ↦ rw e (last-shift_left b)
]

xor-injective_left : (x y t : Bool) → xor x t ≡ xor y t → x ≡ y
unfolding xor
xor-injective_left true true t e = refl
xor-injective_left false false t e = refl
xor-injective_left true false true e = cc
xor-injective_left true false false e = cc
xor-injective_left false true true e = cc
xor-injective_left false true false e = cc

xor-injective_right : (x s t : Bool) → xor x s ≡ xor x t → s ≡ t
unfolding xor
xor-injective_right x true true e = refl
xor-injective_right x false false e = refl
xor-injective_right true true false e = cc
xor-injective_right false true false e = cc
xor-injective_right true false true e = cc
xor-injective_right false false true e = cc

head_eq : {x y : Bool} {b c : List Bool} → ◌≡◌ {A = List Bool} (x ∷ b) (y ∷ c) → x ≡ y
head_eq e = cc

snoc-injective :
    (b c : List Bool) (x : Bool) → length b ≡ length c → b ++ (x ∷ []) ≡ c ++ (x ∷ []) → b ≡ c
snoc-injective [] [] x h e = refl
snoc-injective [] (y ∷ c) x h e = absurd (omega arith)
snoc-injective (y ∷ b) [] x h e = absurd (omega arith)
snoc-injective (y ∷ b) (z ∷ c) x h e =
    ap₂ ◌∷◌ (head_eq e) (snoc-injective b c x (omega arith) (tail_eq e))

feed_back-injective :
    (p b c : List Bool) (x y : Bool)
    → length b ≡ length c
    → length b ≤ length p
    → feed_back p (x ∷ b) ≡ feed_back p (y ∷ c)
    → b ≡ c
unfolding feed_back
feed_back-injective p [] [] x y h k e = refl
feed_back-injective p [] (z ∷ c) x y h k e = absurd (omega arith)
feed_back-injective p (w ∷ b) [] x y h k e = absurd (omega arith)
feed_back-injective [] (w ∷ b) (z ∷ c) x y h k e = absurd (omega arith)
feed_back-injective (p ∷ ps) (w ∷ b) (z ∷ c) x y h k e =
    ap₂ ◌∷◌ (xor-injective_right p w z (head_eq e))
      (feed_back-injective ps b c w z (omega arith) (omega arith) (tail_eq e))

crc_step_fed :
    (b : List Bool) (t : Bool) → xor (top b) t ≡ true → crc_step b t ≡ feed_back crc_polynome b
unfolding crc_step
crc_step_fed b t h = rw h

crc_step_shifted : (b : List Bool) (t : Bool) → xor (top b) t ≡ false → crc_step b t ≡ shift_left b
unfolding crc_step
crc_step_shifted b t h = rw h

-- One round loses nothing of a register of 16 bits.
crc_step-injective :
    (b c : List Bool) (t : Bool)
    → length b ≡ 16
    → length c ≡ 16
    → crc_step b t ≡ crc_step c t
    → b ≡ c
unfolding shift_left
crc_step-injective [] c t h k e = absurd (omega arith)
crc_step-injective (x ∷ b) [] t h k e = absurd (omega arith)
crc_step-injective (x ∷ b) (y ∷ c) t h k e =
    let flags : xor x t ≡ xor y t =
      sym (last-crc_step (x ∷ b) t) ∙ ap last e ∙ last-crc_step (y ∷ c) t in
    ap₂ ◌∷◌ (xor-injective_left x y t flags) (elim (Bool-cases (xor x t)) [
      | inl f ↦
          feed_back-injective crc_polynome b c x y (omega arith) (omega arith)
            (sym (crc_step_fed (x ∷ b) t f) ∙ e ∙ crc_step_fed (y ∷ c) t (sym flags ∙ f))
      | inr f ↦
          snoc-injective b c false (omega arith)
            (sym (crc_step_shifted (x ∷ b) t f) ∙ e ∙ crc_step_shifted (y ∷ c) t (sym flags ∙ f))
    ])

length-crc_loop : (n i : ℕ) (b zs : List Bool) → length b ≡ 16 → length (crc_loop n i b zs) ≡ 16
unfolding crc_loop
length-crc_loop n i b [] h = h
length-crc_loop n i b (z ∷ zs) h = length-crc_loop n (i + 1) _ zs (length-crc_step b _ h)

crc_loop-injective :
    (n i : ℕ) (b c zs : List Bool)
    → length b ≡ 16
    → length c ≡ 16
    → crc_loop n i b zs ≡ crc_loop n i c zs
    → b ≡ c
unfolding crc_loop
crc_loop-injective n i b c [] h k e = e
crc_loop-injective n i b c (z ∷ zs) h k e =
    crc_step-injective b c _ h k
      (crc_loop-injective n (i + 1) _ _ zs (length-crc_step b _ h) (length-crc_step c _ k) e)

is_zero_eq : (b c : List Bool) → length b ≡ length c → is_zero b ≡ true → is_zero c ≡ true → b ≡ c
unfolding is_zero
is_zero_eq [] [] l h k = refl
is_zero_eq [] (y ∷ c) l h k = absurd (omega arith)
is_zero_eq (x ∷ b) [] l h k = absurd (omega arith)
is_zero_eq (true ∷ b) (y ∷ c) l h k = cc
is_zero_eq (false ∷ b) (true ∷ c) l h k = cc
is_zero_eq (false ∷ b) (false ∷ c) l h k = ap (λ r. false ∷ r) (is_zero_eq b c (omega arith) h k)

flipped_ne : (inv x : Bool) → (if inv then not x else x) ≢ (if inv then not (not x) else not x)
flipped_ne true true e = cc
flipped_ne true false e = cc
flipped_ne false true e = cc
flipped_ne false false e = cc

crc_loop_flip :
    (n i : ℕ) (b xs : List Bool) (x : Bool) (ys : List Bool)
    → length b ≡ 16
    → is_zero (crc_loop n i b (xs ++ (x ∷ ys))) ≡ true
    → is_zero (crc_loop n i b (xs ++ (not x ∷ ys))) ≢ true
unfolding crc_loop
crc_loop_flip n i b [] x ys h e e' =
    let t = if leb n (i + 16) then not x else x in
    let t' = if leb n (i + 16) then not (not x) else not x in
    let same_end =
      is_zero_eq (crc_loop n (i + 1) (crc_step b t) ys) (crc_loop n (i + 1) (crc_step b t') ys)
        (length-crc_loop n (i + 1) (crc_step b t) ys (length-crc_step b t h)
          ∙ sym (length-crc_loop n (i + 1) (crc_step b t') ys (length-crc_step b t' h)))
        e e' in
    let same_step =
      crc_loop-injective n (i + 1) (crc_step b t) (crc_step b t') ys (length-crc_step b t h)
        (length-crc_step b t' h) same_end in
    flipped_ne (leb n (i + 16)) x (
      xor-injective_right (top b) t t'
        (sym (last-crc_step b t) ∙ ap last same_step ∙ last-crc_step b t'))
crc_loop_flip n i b (z ∷ xs) x ys h e e' =
    crc_loop_flip n (i + 1) _ xs x ys (length-crc_step b _ h) e e'

-- A sequence that passes the check no longer passes it when any one of its bits is flipped, in the
-- message or in the check field.
pub check_crc_bits_flip :
    (xs : List Bool) (x : Bool) (ys : List Bool)
    → check_crc_bits (xs ++ (x ∷ ys)) ≡ true
    → check_crc_bits (xs ++ (not x ∷ ys)) ≡ false
unfolding check_crc_bits
check_crc_bits_flip xs x ys h =
    let size : length (xs ++ (not x ∷ ys)) ≡ length (xs ++ (x ∷ ys)) =
      length-append xs (not x ∷ ys) ∙ sym (length-append xs (x ∷ ys)) in
    elim (Bool-cases (check_crc_bits (xs ++ (not x ∷ ys)))) [
      | inl bad ↦ absurd (
          crc_loop_flip (length (xs ++ (x ∷ ys))) 0 (replicate 16 true) xs x ys refl h (
            ap (λ n. is_zero (crc_loop n 0 (replicate 16 true) (xs ++ (not x ∷ ys)))) (sym size)
            ∙ bad))
      | inr good ↦ good
    ]
