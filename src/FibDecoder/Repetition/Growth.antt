-- ===== src/FibDecoder/Repetition/Growth.antt =====
-- The two FIGs 0 of which each repetition adds an entry.
use dabstar.Prelude.{
  ℕ, zero, suc, ◌+◌, ◌%◌, ◌≤◌, ◌<◌, ◌≡◌, refl, sym, ap, ◌∙◌, Bool, false, none, List, [], ◌∷◌, ◌++◌,
  length, length-append, ◌==◌, leb, if_elim, arith,
}
use native.Mathlib.Nat.{mod-lt}
use mathlib.Core.Path.{subst}
use dabstar.Bits.{get_bits, get_bits_8}
use dabstar.SubChannel.Fig01.{FigHeader}
use dabstar.FibDecoder.Tables.{find_by}
use dabstar.FibDecoder.Config.{
  ComponentLanguage, by_sc_id, FibConfig, language_of_sc_id, is_language_of_sc_id,
  user_application_of,
}
use dabstar.FibDecoder.State.{FibDecoder, emit, retrigger, rank, store}
use dabstar.FibDecoder.Information.{store_long_language}
use dabstar.FibDecoder.Multiplex.UserApps.{
  read_user_applications, store_user_applications, process_user_applications,
}

abbrev pub repeat : ℕ → (FibDecoder → FibDecoder) → FibDecoder → FibDecoder
repeat zero f s = s
repeat (suc n) f s = repeat n f (f s)

curr-retrigger : (s : FibDecoder) → (retrigger s).curr ≡ s.curr
unfolding retrigger emit
curr-retrigger s =
    if_elim (λ (t : FibDecoder). t.curr ≡ s.curr) (leb 4 (rank s.loading_state)) (λ _. refl)
      (λ _. refl)

next-retrigger : (s : FibDecoder) → (retrigger s).next ≡ s.next
unfolding retrigger emit
next-retrigger s =
    if_elim (λ (t : FibDecoder). t.next ≡ s.next) (leb 4 (rank s.loading_state)) (λ _. refl)
      (λ _. refl)

unfound-append {ℓ} :
    {A : Type ℓ} (test : A → Bool) (es : List A) (e : A)
    → find_by test es ≡ none
    → test e ≡ false
    → find_by test (es ++ (e ∷ [])) ≡ none
unfolding find_by
unfound-append test [] e h f = ground arith
unfound-append test (x ∷ es) e h f = ground (arith, unfound-append test es e)

long_language : List Bool → ℕ → ComponentLanguage
long_language d o = record {
  component = by_sc_id (get_bits d (o + 4) 12);
  language = get_bits_8 d (o + 16);
}

abbrev GrowsTo : List Bool → ℕ → FibDecoder → FibDecoder → Type 0
GrowsTo d o s t =
    (language_of_sc_id t.curr (get_bits d (o + 4) 12) ≡ none)
    × (length t.curr.languages ≡ length s.curr.languages + 1)

store_long_language_once :
    (d : List Bool) (o : ℕ) (s : FibDecoder)
    → 256 ≤ get_bits d (o + 4) 12
    → language_of_sc_id s.curr (get_bits d (o + 4) 12) ≡ none
    → GrowsTo d o s (store_long_language d o s)
unfolding store_long_language store language_of_sc_id
store_long_language_once d o s big unknown =
    let i = get_bits d (o + 4) 12 in
    let e : ComponentLanguage = record {
      component = by_sc_id i;
      language = get_bits_8 d (o + 16);
    } in
    let c : FibConfig = record s.curr { languages = s.curr.languages ++ (e ∷ []) } in
    let t = record s { curr = c } in
    let small : i % 256 < 256 = mod-lt i (omega arith) in
    let differs : (i == i % 256) ≡ false = ground arith in
    rw unknown (
      subst
        (λ (x : FibConfig).
          (language_of_sc_id x i ≡ none) × (length x.languages ≡ length s.curr.languages + 1))
        (sym (curr-retrigger t))
        (
          unfound-append (is_language_of_sc_id i) s.curr.languages e unknown differs,
          length-append s.curr.languages (e ∷ []),
        ))

-- The language of a component whose identifier does not fit into 8 bits is never found again, unless
-- another identifier with the same low byte is stored: each of `n` repetitions of that FIG 0/5 adds
-- an entry to the current configuration.
pub store_long_language_grows :
    (n : ℕ) (d : List Bool) (o : ℕ) (s : FibDecoder)
    → 256 ≤ get_bits d (o + 4) 12
    → language_of_sc_id s.curr (get_bits d (o + 4) 12) ≡ none
    → length (repeat n (store_long_language d o) s).curr.languages ≡ length s.curr.languages + n
store_long_language_grows zero d o s big unknown = omega arith
store_long_language_grows (suc n) d o s big unknown =
    let (still, more) = store_long_language_once d o s big unknown in
    omega (arith, store_long_language_grows n d o (store_long_language d o s) big still)

user_applications_once :
    (d : List Bool) (used : ℕ) (fh : FigHeader) (s : FibDecoder)
    → fh.cn_flag ≡ 1
    → (let e = read_user_applications d used fh in
        user_application_of s.curr e.s_id e.sc_ids ≡ none)
    → let t = (process_user_applications d used fh s).1 in
      (t.curr ≡ s.curr) × (length t.next.user_applications ≡ length s.next.user_applications + 1)
unfolding process_user_applications store_user_applications store
user_applications_once d used fh s cn unknown =
    let e = read_user_applications d used fh in
    let c : FibConfig = record s.next {
      user_applications = s.next.user_applications ++ (e ∷ []);
    } in
    rw (unknown, cn)
      ((
        curr-retrigger (record s { next = c }),
        (ap (λ (x : FibConfig). length x.user_applications) (next-retrigger (record s { next = c }))
            ∙ length-append s.next.user_applications (e ∷ [])),
      ))

-- The user applications of the next configuration are searched in the current one: while that does
-- not know them, each of `n` repetitions of the entry adds it to the next configuration once more.
pub process_user_applications_grows :
    (n : ℕ) (d : List Bool) (used : ℕ) (fh : FigHeader) (s : FibDecoder)
    → fh.cn_flag ≡ 1
    → user_application_of s.curr
        (read_user_applications d used fh).s_id
        (read_user_applications d used fh).sc_ids
      ≡ none
    → length (repeat n (λ t. (process_user_applications d used fh t).1) s).next.user_applications
      ≡ length s.next.user_applications + n
process_user_applications_grows zero d used fh s cn unknown = omega arith
process_user_applications_grows (suc n) d used fh s cn unknown =
    let e = read_user_applications d used fh in
    let t = (process_user_applications d used fh s).1 in
    let (same, more) = user_applications_once d used fh s cn unknown in
    let still : user_application_of t.curr e.s_id e.sc_ids ≡ none =
      ap (λ (c : FibConfig). user_application_of c e.s_id e.sc_ids) same ∙ unknown in
    omega (arith, more, process_user_applications_grows n d used fh t cn still)
