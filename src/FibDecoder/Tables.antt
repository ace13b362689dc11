-- ===== src/FibDecoder/Tables.antt =====
-- A vector of the configuration, as the functions of fib_config_fig0.cpp and fib_config_fig1.cpp
-- search it.
use dabstar.Prelude.{
  get_elem?, ℕ, zero, suc, ◌≡◌, refl, Bool, true, false, Bool-cases, inl, inr, Option, none, some,
  List, [], ◌∷◌, ◌++◌, All, if◌then◌else◌, arith,
}

module _ {ℓ} {A : Type ℓ} where
  -- `for (e : vec) if (test(e)) return &e; return nullptr`
  unfoldable pub find_by : (A → Bool) → List A → Option A
  find_by test [] = none
  find_by test (e ∷ es) = if test e then some e else find_by test es

  pub find_by_holds :
      (test : A → Bool) (es : List A) (e : A) → find_by test es ≡ some e → test e ≡ true
  unfolding find_by
  find_by_holds test [] e h = ground arith
  find_by_holds test (x ∷ es) e h = ground (arith, find_by_holds test es e)

  -- The entry stands in the vector.
  abbrev pub IsAmong : A → List A → Type ℓ
  IsAmong e es = (n : ℕ) × (get_elem? es n ≡ some e)

  pub find_by-IsAmong :
      (test : A → Bool) (es : List A) (e : A) → find_by test es ≡ some e → IsAmong e es
  unfolding find_by
  find_by-IsAmong test [] e h = ground arith
  find_by-IsAmong test (x ∷ es) e h = elim (Bool-cases (test x)) [
    | inl t ↦ (zero, ground arith)
    | inr f ↦ let (n, at) = find_by-IsAmong test es e (ground arith) in (suc n, at)
  ]

  pub find_by-append :
      (test : A → Bool) (es : List A) (e : A)
      → test e ≡ true
      → find_by test es ≡ none
      → find_by test (es ++ (e ∷ [])) ≡ some e
  unfolding find_by
  find_by-append test [] e t h = ground arith
  find_by-append test (x ∷ es) e t h = ground (arith, find_by-append test es e t)

  -- What is found stays found when entries are added behind it.
  pub find_by-append_known :
      (test : A → Bool) (es fs : List A) (e : A)
      → find_by test es ≡ some e
      → find_by test (es ++ fs) ≡ some e
  unfolding find_by
  find_by-append_known test [] fs e h = ground arith
  find_by-append_known test (x ∷ es) fs e h = ground (arith, find_by-append_known test es fs e)

  pub All-find_by {κ} :
      (P : A → Type κ) (test : A → Bool) (es : List A) (e : A)
      → All P es
      → find_by test es ≡ some e
      → P e
  unfolding find_by
  All-find_by P test [] e a h = ground arith
  All-find_by P test (x ∷ es) e a h = elim (Bool-cases (test x)) [
    | inl t ↦ ground (arith, a.0)
    | inr f ↦ All-find_by P test es e a.1 (ground arith)
  ]

  -- No entry is found twice: each is the only one that its own test finds.
  abbrev pub Distinct : (A → A → Bool) → List A → Type 0
  Distinct same [] = Unit
  Distinct same (e ∷ es) = All (λ f. same f e ≡ false) es × Distinct same es

  All-unfound :
      (same : A → A → Bool) (e : A) (es : List A)
      → find_by (same e) es ≡ none
      → All (λ f. same e f ≡ false) es
  unfolding find_by
  All-unfound same e [] h = tt
  All-unfound same e (x ∷ es) h = elim (Bool-cases (same e x)) [
    | inl t ↦ absurd (ground arith)
    | inr f ↦ (f, All-unfound same e es (ground arith))
  ]

  pub Distinct-snoc :
      (same : A → A → Bool) (e : A) (es : List A)
      → Distinct same es
      → All (λ f. same e f ≡ false) es
      → Distinct same (es ++ (e ∷ []))
  Distinct-snoc same e [] d a = (tt, tt)
  Distinct-snoc same e (x ∷ es) d a = (snoc es d.0 a.0, Distinct-snoc same e es d.1 a.1)
    where
      snoc :
          (fs : List A)
          → All (λ f. same f x ≡ false) fs
          → same e x ≡ false
          → All (λ f. same f x ≡ false) (fs ++ (e ∷ []))
      snoc [] b c = (c, tt)
      snoc (f ∷ fs) b c = (b.0, snoc fs b.1 c)

  -- An entry that a test for its key does not find may be added.
  pub Distinct-append :
      (same : A → A → Bool) (e : A) (es : List A)
      → find_by (same e) es ≡ none
      → Distinct same es
      → Distinct same (es ++ (e ∷ []))
  Distinct-append same e es unknown d = Distinct-snoc same e es d (All-unfound same e es unknown)

  pub find_by_ext :
      (test check : A → Bool) (es : List A)
      → ((f : A) → test f ≡ check f)
      → find_by test es ≡ find_by check es
  unfolding find_by
  find_by_ext test check [] agree = refl
  find_by_ext test check (f ∷ es) agree = ground (arith, agree f, find_by_ext test check es agree)
