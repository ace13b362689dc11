-- ===== src/SubChannel/Fig01/Capacity.antt =====
-- Counting capacity units: the sub-channels of a valid configuration together need at most 864.
use dabstar.Prelude.{
  ℕ, zero, suc, ◌+◌, ◌-◌, ◌≤◌, ◌≡◌, refl, sym, Bool, List, [], ◌∷◌, leb, ltb, ◌&&◌, if◌then◌else◌,
  All, arith,
}
use Prim.Native.Nat.{min}
use native.Mathlib.Decide.{ℕ_discrete}
use dabstar.SubChannel.Fig01.{SubChannelOrganization, FibState, num_cu_per_cif, process_fig0s1}
use dabstar.SubChannel.Fig01.Disjoint.{
  Apart, Separate, AllSeparate, FitsCif, IsConfig, IsValid, process_fig0s1-IsValid,
}

-- 1 if unit `c` belongs to the sub-channel.
hit : ℕ → SubChannelOrganization → ℕ
hit c e = if leb e.start_addr c && ltb c (e.start_addr + e.sub_channel_size) then 1 else 0

hits : ℕ → List SubChannelOrganization → ℕ
hits c [] = 0
hits c (e ∷ es) = hit c e + hits c es

-- The capacity units of all sub-channels.
unfoldable pub total_size : List SubChannelOrganization → ℕ
total_size [] = 0
total_size (e ∷ es) = e.sub_channel_size + total_size es

sum_below : ℕ → (ℕ → ℕ) → ℕ
sum_below zero f = 0
sum_below (suc n) f = f n + sum_below n f

sum_below-add : (n : ℕ) (f g : ℕ → ℕ) → sum_below n (λ c. f c + g c) ≡ sum_below n f + sum_below n g
unfolding sum_below
sum_below-add zero f g = omega arith
sum_below-add (suc n) f g = omega (arith, sum_below-add n f g)

sum_below-zero : (n : ℕ) → sum_below n (λ c. 0) ≡ 0
unfolding sum_below
sum_below-zero zero = refl
sum_below-zero (suc n) = omega (arith, sum_below-zero n)

sum_below-le : (n : ℕ) (f : ℕ → ℕ) → ((c : ℕ) → f c ≤ 1) → sum_below n f ≤ n
unfolding sum_below
sum_below-le zero f h = omega arith
sum_below-le (suc n) f h = omega (arith, h n, sum_below-le n f h)

-- The units of one sub-channel, counted one by one.
sum_below-hit :
    (n : ℕ) (e : SubChannelOrganization)
    → sum_below n (λ c. hit c e) ≡ min n (e.start_addr + e.sub_channel_size) - min n e.start_addr
unfolding sum_below hit
sum_below-hit zero e = omega arith
sum_below-hit (suc n) e = ground (arith, sum_below-hit n e)

hit-Apart : (c : ℕ) (e f : SubChannelOrganization) → Apart e f → hit c e ≡ 1 → hit c f ≡ 0
unfolding hit
hit-Apart c e f a h = ground arith

hits-apart :
    (c : ℕ) (e : SubChannelOrganization) (es : List SubChannelOrganization)
    → All (Separate e) es
    → hit c e ≡ 1
    → hits c es ≡ 0
unfolding hits
hits-apart c e [] a h = refl
hits-apart c e (f ∷ es) a h = omega (arith, hit-Apart c e f a.0.0 h, hits-apart c e es a.1 h)

hit-le-one : (c : ℕ) (e : SubChannelOrganization) → hit c e ≤ 1
unfolding hit
hit-le-one c e = ground arith

hits-le-one : (c : ℕ) (es : List SubChannelOrganization) → AllSeparate es → hits c es ≤ 1
unfolding hits
hits-le-one c [] s = omega arith
hits-le-one c (e ∷ es) s = elim (ℕ_discrete (hit c e) 1) [
  | yes h ↦ omega (arith, h, hits-apart c e es s.0 h)
  | no n ↦ omega (arith, n, hit-le-one c e, hits-le-one c es s.1)
]

total_size-eq-sum :
    (es : List SubChannelOrganization)
    → All FitsCif es
    → total_size es ≡ sum_below num_cu_per_cif (λ c. hits c es)
unfolding total_size hits
total_size-eq-sum [] h = sym (sum_below-zero num_cu_per_cif)
total_size-eq-sum (e ∷ es) h = omega (
  arith,
  h.0,
  total_size-eq-sum es h.1,
  sum_below-hit num_cu_per_cif e,
  sum_below-add num_cu_per_cif (λ c. hit c e) (λ c. hits c es),
)

total_size_bound : (es : List SubChannelOrganization) → IsConfig es → total_size es ≤ num_cu_per_cif
total_size_bound es v = omega (
  arith,
  total_size-eq-sum es v.fitting,
  sum_below-le num_cu_per_cif (λ c. hits c es) (λ c. hits-le-one c es v.separate),
)

-- Whatever bits a FIG 0/1 holds, the sub-channels of either configuration afterwards need at most
-- the 864 capacity units of a CIF together, if the configurations were valid before.
pub process_fig0s1_capacity :
    (d : List Bool) (s : FibState)
    → IsValid s
    → (total_size (process_fig0s1 d s).curr ≤ num_cu_per_cif)
      × (total_size (process_fig0s1 d s).next ≤ num_cu_per_cif)
process_fig0s1_capacity d s v =
    let w = process_fig0s1-IsValid d s v in
    (total_size_bound _ w.curr_config, total_size_bound _ w.next_config)
