-- ===== src/SubChannel/Fig01/Fuel.antt =====
-- The loop over a FIG 0/1 ends by its own test.
use dabstar.Prelude.{
  ℕ, zero, suc, ◌+◌, ◌≤◌, ◌<◌, ◌≡◌, refl, ap, Bool, false, List, leb, if◌then◌else◌, arith,
}
use dabstar.SubChannel.Fig01.{FibState, FigHeader, subprocess_fig0s1, fig0s1_loop}

-- A round goes on by 3 bytes or 4.
pub subprocess_fig0s1_progress :
    (d : List Bool) (offset : ℕ) (fh : FigHeader) (s : FibState)
    → offset + 3 ≤ (subprocess_fig0s1 d offset fh s).0
unfolding subprocess_fig0s1
subprocess_fig0s1_progress d offset fh s = ground arith

-- Once the fuel exceeds what is left of the FIG, more fuel changes nothing.
pub fig0s1_loop_fuel :
    (f g : ℕ) (d : List Bool) (used : ℕ) (fh : FigHeader) (s : FibState)
    → fh.fig_length < used + f
    → fh.fig_length < used + g
    → fig0s1_loop f d used fh s ≡ fig0s1_loop g d used fh s
unfolding fig0s1_loop
fig0s1_loop_fuel zero zero d used fh s h k = refl
fig0s1_loop_fuel zero (suc g) d used fh s h k =
    let over : leb used fh.fig_length ≡ false = ground arith in rw over refl
fig0s1_loop_fuel (suc f) zero d used fh s h k =
    let over : leb used fh.fig_length ≡ false = ground arith in rw over refl
fig0s1_loop_fuel (suc f) (suc g) d used fh s h k =
    let next = subprocess_fig0s1 d used fh s in
    let p = subprocess_fig0s1_progress d used fh s in
    ap (λ rest. if leb used fh.fig_length then (if next.1.restart then next.1 else rest) else s)
      (fig0s1_loop_fuel f g d next.0 fh next.1 (omega (arith, p)) (omega (arith, p)))
