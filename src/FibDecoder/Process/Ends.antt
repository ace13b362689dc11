-- ===== src/FibDecoder/Process/Ends.antt =====
-- The loops over a FIB and over a FIG 0: the fuel given is enough.
use dabstar.Prelude.{
  ℕ, zero, suc, ◌+◌, ◌*◌, ◌/◌, ◌≤◌, ◌<◌, ◌≡◌, refl, ap, Bool, true, false, Option, none, some, List,
  [], ◌∷◌, get_elem?, ◌==◌, ◌&&◌, leb, leb→le, ltb, if_elim, if◌then◌else◌, drop, All, arith,
}
use mathlib.Core.Option.{some-injective}
use mathlib.Core.Path.{subst}
use dabstar.Bits.{get_bits_1, get_bits_3, get_bits_4, get_bits_5, get_l_bits}
use dabstar.SubChannel.Fig01.{FigHeader, get_fig_header}
use dabstar.SubChannel.Fig01.Fuel.{subprocess_fig0s1_progress}
use dabstar.FibDecoder.Tables.{All-find_by}
use dabstar.FibDecoder.Config.{UserApplications, user_application_of, is_user_application}
use dabstar.FibDecoder.State.{FibDecoder, sub_channels}
use dabstar.FibDecoder.Multiplex.{
  s_id_bits, process_organization, components_loop, process_service, process_packet_mode,
  process_global_def, process_fec,
}
use dabstar.FibDecoder.Multiplex.UserApps.{
  read_user_applications, store_user_applications, process_user_applications,
}
use dabstar.FibDecoder.Information.{process_language}
use dabstar.FibDecoder.Process.{
  Handler, Action, looped, whole, fig0_loop, process_fig0_loop, fig0_cases, process_fig, fib_loop,
  process_fib,
}
use dabstar.FibDecoder.Process.Induction.{KeptByHandler}
use dabstar.FibDecoder.Sound.{IsSound}
use dabstar.FibDecoder.Sound.Mci.{
  process_organization-IsSound, process_service-IsSound, process_packet_mode-IsSound,
  process_global_def-IsSound, process_fec-IsSound,
}
use dabstar.FibDecoder.Sound.Info.{process_language-IsSound}
use dabstar.FibDecoder.Sound.Announce.{
  size_bits-read_user_applications, process_user_applications-IsSound,
}

-- A handler goes on by a byte at least.
abbrev Advances : Handler → Type 0
Advances h =
    (d : List Bool) (used : ℕ) (fh : FigHeader) (s : FibDecoder)
    → IsSound s
    → used + 1 ≤ (h d used fh s).0

-- Eight bits more are a byte more.
byte_more : (used n : ℕ) → used * 8 + 8 ≤ n → used + 1 ≤ n / 8
byte_more used n h = omega arith

organization-Advances : Advances process_organization
unfolding process_organization
organization-Advances d used fh s b =
    omega (arith, subprocess_fig0s1_progress d used fh (sub_channels s))

components_loop_le :
    (left : ℕ) (d : List Bool) (o : ℕ) (fh : FigHeader) (s_id n index : ℕ) (s : FibDecoder)
    → o ≤ (components_loop left d o fh s_id n index s).0
unfolding components_loop
components_loop_le zero d o fh s_id n index s = omega arith
components_loop_le (suc left) d o fh s_id n index s =
    omega (arith, components_loop_le left d (o + 16) fh s_id n (index + 1) _)

service-Advances : Advances process_service
unfolding process_service
service-Advances d used fh s b =
    let o = 8 * used + s_id_bits fh in
    let le =
      components_loop_le (get_bits_4 d (o + 4)) d (o + 8) fh
        (get_l_bits d (8 * used) (s_id_bits fh)) (get_bits_4 d (o + 4)) 0 s in
    byte_more used _ (omega (arith, le))

packet_mode-Advances : Advances process_packet_mode
unfolding process_packet_mode
packet_mode-Advances d used fh s b = byte_more used _ (omega arith)

language-Advances : Advances process_language
unfolding process_language
language-Advances d used fh s b =
    if_elim (λ (x : ℕ × FibDecoder). used + 1 ≤ x.0) (get_bits_1 d (used * 8) == 0)
      (λ short. byte_more used _ (omega arith)) (λ long. byte_more used _ (omega arith))

global_def-Advances : Advances process_global_def
unfolding process_global_def
global_def-Advances d used fh s b = byte_more used _ (ground arith)

fec-Advances : Advances process_fec
unfolding process_fec
fec-Advances d used fh s b = omega arith

store_user_applications_le :
    (o : Option UserApplications) (e : UserApplications) (used cn : ℕ) (s : FibDecoder)
    → ((k : UserApplications) → o ≡ some k → 8 ≤ k.size_bits)
    → 8 ≤ e.size_bits
    → used + 1 ≤ (store_user_applications o e used cn s).0
unfolding store_user_applications
store_user_applications_le none e used cn s known h = byte_more used _ (omega arith)
store_user_applications_le (some k) e used cn s known h =
    byte_more used _ (omega (arith, known k refl))

user_applications-Advances : Advances process_user_applications
unfolding process_user_applications user_application_of
user_applications-Advances d used fh s b =
    let e = read_user_applications d used fh in
    store_user_applications_le _ e used fh.cn_flag s
      (λ k found.
        All-find_by (λ (u : UserApplications). 8 ≤ u.size_bits)
          (is_user_application e.s_id e.sc_ids) s.curr.user_applications k
          b.of_curr.user_applications found)
      (size_bits-read_user_applications d used fh)

-- The `while` loop over a FIG 0 from the offset `used` on, as it runs without fuel: it leaves by its
-- own test, by the test of mRestartFibDecoding, or goes round once more.
pub data Runs (h : Handler) (d : List Bool) (fh : FigHeader)
    : ℕ → FibDecoder → FibDecoder → Type 0 where
  leaves : {used : ℕ} {s : FibDecoder} → fh.fig_length < used → Runs h d fh used s s
  stops :
      {used : ℕ} {s : FibDecoder}
      → used ≤ fh.fig_length
      → (h d used fh s).1.restart ≡ true
      → Runs h d fh used s (h d used fh s).1
  goes_on :
      {used : ℕ} {s t : FibDecoder}
      → used ≤ fh.fig_length
      → (h d used fh s).1.restart ≡ false
      → Runs h d fh (h d used fh s).0 (h d used fh s).1 t
      → Runs h d fh used s t

-- With more fuel than what is left of the FIG the loop runs to its end.
fig0_loop-Runs :
    (h : Handler)
    → Advances h
    → KeptByHandler IsSound h
    → (f : ℕ) (d : List Bool) (used : ℕ) (fh : FigHeader) (s : FibDecoder) → s.restart ≡ false
    → IsSound s
    → fh.fig_length < used + f
    → Runs h d fh used s (fig0_loop h f d used fh s)
unfolding fig0_loop
fig0_loop-Runs h a k zero d used fh s r b enough = leaves (omega arith)
fig0_loop-Runs h a k (suc f) d used fh s r b enough =
    let next = h d used fh s in
    if_elim (Runs h d fh used s) (leb used fh.fig_length)
      (λ more.
        if_elim (Runs h d fh used s) next.1.restart (λ stop. stops (leb→le _ _ more) stop)
          (λ on. goes_on (leb→le _ _ more) on (
            fig0_loop-Runs h a k f d next.0 fh next.1 on (k d used fh s r b)
              (omega (arith, a d used fh s b)))))
      (λ over. leaves (ground (arith, over)))

-- What the switch does with a FIG 0 it reads in a loop.
abbrev Ends : Action → Type 0
Ends (looped h) = Advances h × KeptByHandler IsSound h
Ends (whole h) = Unit

fig0_cases-Ends : All (λ (c : ℕ × Action). Ends c.1) fig0_cases
unfolding fig0_cases
fig0_cases-Ends = (
  tt,
  (
    (organization-Advances, process_organization-IsSound),
    (
      (service-Advances, process_service-IsSound),
      (
        (packet_mode-Advances, process_packet_mode-IsSound),
        (
          (language-Advances, process_language-IsSound),
          (
            tt,
            (
              (global_def-Advances, process_global_def-IsSound),
              (
                tt,
                (
                  tt,
                  (
                    (user_applications-Advances, process_user_applications-IsSound),
                    ((fec-Advances, process_fec-IsSound), (tt, (tt, (tt, (tt, tt))))),
                  ),
                ),
              ),
            ),
          ),
        ),
      ),
    ),
  ),
)

All-get_elem? :
    (cs : List (ℕ × Action)) (n : ℕ) (c : ℕ × Action)
    → All (λ (c : ℕ × Action). Ends c.1) cs
    → get_elem? cs n ≡ some c
    → Ends c.1
All-get_elem? [] n c a h = ground arith
All-get_elem? (x ∷ cs) zero c a h = subst (λ (c : ℕ × Action). Ends c.1) (some-injective _ _ h) a.0
All-get_elem? (x ∷ cs) (suc n) c a h = All-get_elem? cs n c a.1 h

-- For each handler that the switch runs in the loop over a FIG 0, FIG 0/13 with its stored sizes
-- included: from a sound state the source's `while` loop, which has no fuel, comes to its end, and in
-- the state that the model gives.
pub process_fig0_loop_ends :
    (n extension : ℕ) (h : Handler) (d : List Bool) (s : FibDecoder)
    → get_elem? fig0_cases n ≡ some (extension, looped h)
    → IsSound s
    → s.restart ≡ false
    → Runs h d (get_fig_header d) 2 s (process_fig0_loop h d s)
unfolding process_fig0_loop
process_fig0_loop_ends n extension h d s at_n b r =
    let ends = All-get_elem? fig0_cases n (extension, looped h) fig0_cases-Ends at_n in
    fig0_loop-Runs h ends.0 ends.1 (suc (get_fig_header d).fig_length) d 2 (get_fig_header d) s r b
      (omega arith)

fib_loop_fuel :
    (f g : ℕ) (fib : List Bool) (processed : ℕ) (s : FibDecoder)
    → 30 ≤ processed + f
    → 30 ≤ processed + g
    → fib_loop f fib processed s ≡ fib_loop g fib processed s
unfolding fib_loop
fib_loop_fuel zero zero fib processed s hf hg = refl
fib_loop_fuel zero (suc g) fib processed s hf hg =
    let over : ltb processed 30 ≡ false = ground arith in rw over refl
fib_loop_fuel (suc f) zero fib processed s hf hg =
    let over : ltb processed 30 ≡ false = ground arith in rw over refl
fib_loop_fuel (suc f) (suc g) fib processed s hf hg =
    let d = drop (processed * 8) fib in
    let t = process_fig (get_bits_3 d 0) d s in
    ap
      (λ rest.
        if ltb processed 30
        then (if get_bits_3 d 0 == 7 && get_bits_5 d 3 == 31
            then s
            else (if t.restart then t else rest))
        else s)
      (fib_loop_fuel f g fib (processed + get_bits_5 d 3 + 1) t (omega arith) (omega arith))

-- The loop over the FIGs of a FIB ends by its own tests: more fuel than 30 changes nothing.
pub process_fib_ends :
    (fuel : ℕ) (fib : List Bool) (s : FibDecoder)
    → 30 ≤ fuel
    → fib_loop fuel fib 0 (record s { restart = false }) ≡ process_fib fib s
unfolding process_fib
process_fib_ends fuel fib s h =
    fib_loop_fuel fuel 30 fib 0 (record s { restart = false }) (omega arith) (omega arith)
