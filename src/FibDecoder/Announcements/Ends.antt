-- ===== src/FibDecoder/Announcements/Ends.antt =====
-- The loops over FIG 0/17, 0/18 and 0/19 end by their own tests: the fuel given is enough.
use dabstar.Prelude.{
  ℕ, zero, suc, ◌+◌, ◌*◌, ◌≤◌, ◌<◌, ◌≡◌, refl, ap, Bool, false, List, ◌==◌, leb, ltb, if◌then◌else◌,
  arith,
}
use dabstar.Bits.{get_bits}
use dabstar.SubChannel.Fig01.{FigHeader}
use dabstar.FibDecoder.State.{FibDecoder, rank}
use dabstar.FibDecoder.Information.{store_programme_type, programme_types_loop}
use dabstar.FibDecoder.Announcements.{
  clusters_loop, announcement_support_loop, switch_cluster, announcement_switching_loop,
}

pub programme_types_loop_fuel :
    (f g : ℕ) (d : List Bool) (length o : ℕ) (s : FibDecoder)
    → length * 8 ≤ o + f
    → length * 8 ≤ o + g
    → programme_types_loop f d length o s ≡ programme_types_loop g d length o s
unfolding programme_types_loop
programme_types_loop_fuel zero zero d length o s hf hg = refl
programme_types_loop_fuel zero (suc g) d length o s hf hg =
    let over : ltb o (length * 8) ≡ false = ground arith in rw over refl
programme_types_loop_fuel (suc f) zero d length o s hf hg =
    let over : ltb o (length * 8) ≡ false = ground arith in rw over refl
programme_types_loop_fuel (suc f) (suc g) d length o s hf hg =
    ap (λ rest. if ltb o (length * 8) then rest else s)
      (programme_types_loop_fuel f g d length (o + 32) (store_programme_type d o s) (omega arith)
        (omega arith))

pub announcement_support_loop_fuel :
    (f g : ℕ) (d : List Bool) (o : ℕ) (fh : FigHeader) (s : FibDecoder)
    → fh.fig_length * 8 < o + f
    → fh.fig_length * 8 < o + g
    → announcement_support_loop f d o fh s ≡ announcement_support_loop g d o fh s
unfolding announcement_support_loop
announcement_support_loop_fuel zero zero d o fh s hf hg = refl
announcement_support_loop_fuel zero (suc g) d o fh s hf hg =
    let over : leb o (fh.fig_length * 8) ≡ false = ground arith in rw over refl
announcement_support_loop_fuel (suc f) zero d o fh s hf hg =
    let over : leb o (fh.fig_length * 8) ≡ false = ground arith in rw over refl
announcement_support_loop_fuel (suc f) (suc g) d o fh s hf hg =
    let n = get_bits d (o + 37) 3 in
    ap (λ rest. if leb o (fh.fig_length * 8) then rest else s)
      (announcement_support_loop_fuel f g d (o + 40 + n * 8) fh
        (clusters_loop n d (o + 40) fh.cn_flag (get_bits d o 16) (get_bits d (o + 16) 16) s)
        (omega arith) (omega arith))

-- A round takes 32 bits or 40.
switching_offset : (region : Bool) (o : ℕ) → o + 1 ≤ o + (if region then 40 else 32)
switching_offset region o = ground arith

pub announcement_switching_loop_fuel :
    (f g : ℕ) (d : List Bool) (o : ℕ) (fh : FigHeader) (s : FibDecoder)
    → fh.fig_length * 8 < o + f
    → fh.fig_length * 8 < o + g
    → announcement_switching_loop f d o fh s ≡ announcement_switching_loop g d o fh s
unfolding announcement_switching_loop
announcement_switching_loop_fuel zero zero d o fh s hf hg = refl
announcement_switching_loop_fuel zero (suc g) d o fh s hf hg =
    let over : leb o (fh.fig_length * 8) ≡ false = ground arith in rw over refl
announcement_switching_loop_fuel (suc f) zero d o fh s hf hg =
    let over : leb o (fh.fig_length * 8) ≡ false = ground arith in rw over refl
announcement_switching_loop_fuel (suc f) (suc g) d o fh s hf hg =
    let le = switching_offset (get_bits d (o + 25) 1 == 1) o in
    ap
      (λ rest.
        if leb o (fh.fig_length * 8) then (if ltb (rank s.loading_state) 4 then s else rest) else s)
      (announcement_switching_loop_fuel f g d (o + (if get_bits d (o + 25) 1 == 1 then 40 else 32))
        fh
        (switch_cluster fh.cn_flag (get_bits d o 8) (get_bits d (o + 8) 16) (get_bits d (o + 26) 6)
          s)
        (omega (arith, le)) (omega (arith, le)))
