-- ===== src/FibDecoder/Process/Induction.antt =====
-- What every handler keeps, a FIB keeps.
use dabstar.Prelude.{
  ℕ, zero, suc, ◌+◌, ◌*◌, ◌≡◌, refl, Bool, true, false, ◌&&◌, ◌||◌, not, List, [], ◌∷◌, ◌==◌, ltb,
  leb, drop, All, if_elim, arith,
}
use dabstar.Bits.{get_bits_3, get_bits_5}
use dabstar.SubChannel.Fig01.{FigHeader, get_fig_header}
use dabstar.FibDecoder.State.{FibDecoder}
use dabstar.FibDecoder.Fig1.{process_fig1}
use dabstar.FibDecoder.Loading.{process_fast_audio_selection}
use dabstar.FibDecoder.Process.{
  Handler, Action, looped, whole, fig0_loop, process_fig0_loop, run_action, fig0_cases,
  switch_action, process_fig0, process_fig, fib_loop, process_fib,
}

module _ {ℓ} (P : FibDecoder → Type ℓ) where
  -- A handler is called while no restart is wanted.
  abbrev pub KeptByHandler : Handler → Type ℓ
  KeptByHandler h =
      (d : List Bool) (used : ℕ) (fh : FigHeader) (s : FibDecoder)
      → s.restart ≡ false
      → P s
      → P (h d used fh s).1

  abbrev pub KeptByFig : (List Bool → FibDecoder → FibDecoder) → Type ℓ
  KeptByFig h = (d : List Bool) (s : FibDecoder) → s.restart ≡ false → P s → P (h d s)

  abbrev pub KeptByAction : Action → Type ℓ
  KeptByAction (looped h) = KeptByHandler h
  KeptByAction (whole h) = KeptByFig h

  pub record IsKept : Type ℓ where
    pub by_cases : All (λ c. KeptByAction c.1) fig0_cases
    pub by_fig1 : KeptByFig process_fig1
    pub by_fast_audio :
        (s : FibDecoder) → s.restart ≡ false → P s → P (process_fast_audio_selection s)

  pub fig0_loop_kept :
      (h : Handler)
      → KeptByHandler h
      → (fuel : ℕ) (d : List Bool) (used : ℕ) (fh : FigHeader) (s : FibDecoder) → s.restart ≡ false
      → P s
      → P (fig0_loop h fuel d used fh s)
  unfolding fig0_loop
  fig0_loop_kept h k zero d used fh s r p = p
  fig0_loop_kept h k (suc fuel) d used fh s r p =
      let next = h d used fh s in
      let q = k d used fh s r p in
      if_elim P (leb used fh.fig_length)
        (λ more.
          if_elim P next.1.restart (λ stop. q)
            (λ on. fig0_loop_kept h k fuel d next.0 fh next.1 on q))
        (λ done. p)

  run_action_kept : (a : Action) → KeptByAction a → KeptByFig (run_action a)
  unfolding run_action process_fig0_loop
  run_action_kept (looped h) k d s r p =
      fig0_loop_kept h k (suc (get_fig_header d).fig_length) d 2 (get_fig_header d) s r p
  run_action_kept (whole h) k d s r p = k d s r p

  switch_action_kept :
      (cases : List (ℕ × Action))
      → All (λ c. KeptByAction c.1) cases
      → (extension : ℕ) → KeptByFig (switch_action cases extension)
  unfolding switch_action
  switch_action_kept [] k extension d s r p = p
  switch_action_kept ((n, a) ∷ cases) k extension d s r p =
      if_elim P (n == extension) (λ same. run_action_kept a k.0 d s r p)
        (λ other. switch_action_kept cases k.1 extension d s r p)

  process_fig0_kept : IsKept → KeptByFig process_fig0
  unfolding process_fig0
  process_fig0_kept k d s r p =
      let e = get_bits_5 d 11 in
      let t = switch_action fig0_cases e d s in
      let q = switch_action_kept fig0_cases k.by_cases e d s r p in
      if_elim P (not t.restart && (ltb 0 t.s_id_for_fast_audio && (e == 1 || e == 2)))
        (λ wanted. k.by_fast_audio t (not_left t.restart _ wanted) q) (λ unwanted. q)
    where
      not_left : (a b : Bool) → (not a && b) ≡ true → a ≡ false
      not_left a b h = ground arith

  process_fig_kept : IsKept → (fig_type : ℕ) → KeptByFig (process_fig fig_type)
  unfolding process_fig
  process_fig_kept k fig_type d s r p =
      if_elim P (fig_type == 0) (λ zero_type. process_fig0_kept k d s r p)
        (λ other. if_elim P (fig_type == 1) (λ one_type. k.by_fig1 d s r p) (λ no_type. p))

  fib_loop_kept :
      IsKept
      → (fuel : ℕ) (fib : List Bool) (processed : ℕ) (s : FibDecoder) → s.restart ≡ false
      → P s
      → P (fib_loop fuel fib processed s)
  unfolding fib_loop
  fib_loop_kept k zero fib processed s r p = p
  fib_loop_kept k (suc fuel) fib processed s r p =
      let d = drop (processed * 8) fib in
      let t = process_fig (get_bits_3 d 0) d s in
      let q = process_fig_kept k (get_bits_3 d 0) d s r p in
      if_elim P (ltb processed 30)
        (λ more.
          if_elim P (get_bits_3 d 0 == 7 && get_bits_5 d 3 == 31) (λ marker. p)
            (λ fig.
              if_elim P t.restart (λ stop. q)
                (λ on. fib_loop_kept k fuel fib (processed + get_bits_5 d 3 + 1) t on q)))
        (λ done. p)

  pub process_fib_induction :
      IsKept
      → (fib : List Bool) (s : FibDecoder) → P (record s { restart = false })
      → P (process_fib fib s)
  unfolding process_fib
  process_fib_induction k fib s p = fib_loop_kept k 30 fib 0 (record s { restart = false }) refl p
