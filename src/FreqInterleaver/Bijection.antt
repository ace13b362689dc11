-- ===== src/FreqInterleaver/Bijection.antt =====
-- The frequency interleaver permutes the carriers.
use dabstar.Prelude.{
  ℕ, ◌+◌, ◌-◌, ◌%◌, ◌<◌, ◌≡◌, refl, Bool, true, false, List, [], ◌∷◌, ◌==◌, ltb, ◌&&◌,
  if◌then◌else◌, passes_from, passes_at, passes_below, ==_iff, ltb→lt, ◌⊎◌, inl, inr, ◌≤◌, arith,
}
use mathlib.Core.Path.{subst}
use dabstar.FreqInterleaver.{ℤ, c_k, t_u, perm_table, map_k_to_fft_bin, fft_index, real_carrier}

-- The first place of a number in a list, counted from `i`.
abbrev place_from : ℕ → ℕ → List ℤ → ℕ
unfolding real_carrier
place_from r i [] = i
place_from r i (x ∷ xs) =
    let rest = place_from r (i + 1) xs in if real_carrier x == r then i else rest

-- The nominal carrier that is sent at place `r`.
unfoldable pub nominal : ℕ → ℕ
unfolding place_from
nominal r = place_from r 0 perm_table

carrier_test : ℕ → Bool
unfolding map_k_to_fft_bin real_carrier fft_index nominal
carrier_test k =
    let c = map_k_to_fft_bin k in
    ltb (real_carrier c) c_k
    && (ltb (fft_index c) t_u
        && ((nominal (real_carrier c) == k)
            && ((fft_index c % t_u
                  == (real_carrier c + (if ltb (real_carrier c) 768 then 1280 else 1281)) % t_u)
                && (ltb (nominal k) c_k && (real_carrier (map_k_to_fft_bin (nominal k)) == k)))))

carriers_first : passes_from carrier_test 0 512 ≡ true
unfolding passes_from carrier_test perm_table
carriers_first = refl

carriers_second : passes_from carrier_test 512 512 ≡ true
unfolding passes_from carrier_test perm_table
carriers_second = refl

carriers_third : passes_from carrier_test 1024 512 ≡ true
unfolding passes_from carrier_test perm_table
carriers_third = refl

carrier_passes : (k : ℕ) → k < 1536 → carrier_test k ≡ true
carrier_passes k h = elim (ltb_cases k 512) [
  | inl low ↦ passes_below carrier_test 512 k carriers_first low
  | inr above ↦ elim (ltb_cases k 1024) [
    | inl middle ↦ at 512 carriers_second above (omega (arith, middle))
    | inr high ↦ at 1024 carriers_third high (omega arith)
  ]
]
  where
    ltb_cases : (k n : ℕ) → (k < n) ⊎ (n ≤ k)
    ltb_cases k n = omega arith

    at :
        (start : ℕ)
        → passes_from carrier_test start 512 ≡ true
        → start ≤ k
        → k < start + 512
        → carrier_test k ≡ true
    at start t lo hi =
        subst (λ i. carrier_test i ≡ true) (let e : k - start + start ≡ k = omega arith in e)
          (passes_at carrier_test 512 start (k - start) t (omega arith))

-- Every nominal carrier `k` of the 1536 has a place `real_carrier` among the 1536 carriers in the
-- order of their frequencies, and an index of the FFT below 2048, which is 1280 above that place
-- for the lower half of the carriers and 1281 above it, around the end, for the upper half; no two
-- nominal carriers have the same place, since `nominal` finds `k` from it, and every place belongs
-- to a nominal carrier.
pub map_k_to_fft_bin_bijective :
    (k : ℕ)
    → k < 1536
    → (real_carrier (map_k_to_fft_bin k) < 1536)
      × (fft_index (map_k_to_fft_bin k) < 2048)
      × (fft_index (map_k_to_fft_bin k) % 2048
          ≡ (real_carrier (map_k_to_fft_bin k)
              + (if ltb (real_carrier (map_k_to_fft_bin k)) 768 then 1280 else 1281))
            % 2048)
      × (nominal (real_carrier (map_k_to_fft_bin k)) ≡ k)
      × (nominal k < 1536)
      × (real_carrier (map_k_to_fft_bin (nominal k)) ≡ k)
unfolding carrier_test
map_k_to_fft_bin_bijective k h =
    let t = carrier_passes k h in
    let (a, rest) = both _ _ t in
    let (b, rest) = both _ _ rest in
    let (c, rest) = both _ _ rest in
    let (d, rest) = both _ _ rest in
    let (e, f) = both _ _ rest in
    (ltb→lt _ _ a, ltb→lt _ _ b, (==_iff _ _).0 d, (==_iff _ _).0 c, ltb→lt _ _ e, (==_iff _ _).0 f)
  where
    both : (a b : Bool) → (a && b) ≡ true → (a ≡ true) × (b ≡ true)
    both true b h = (refl, h)
    both false b h = ground (arith, h)
