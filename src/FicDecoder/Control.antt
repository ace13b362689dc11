-- ===== src/FicDecoder/Control.antt =====
-- base/decoder/fic_decoder.cpp: stop, restart, and what other parts ask of the FIC decoder.
use dabstar.Prelude.{ℕ, ◌*◌, ◌≤◌, ◌≡◌, refl, Bool, true, false, List, [], ◌∷◌, ◌++◌, some, arith}
use dabstar.FicDecoder.Input.{FicDecoder, process_fic_input}
use dabstar.FicDecoder.Counters.{InRange}

-- The bits of all FICs in a row.
unfoldable pub flatten : List (List Bool) → List Bool
flatten [] = []
flatten (xs ∷ xss) = xs ++ flatten xss

module _ {ℓ} {A : Type ℓ} where
  unfoldable pub stop : FicDecoder A → FicDecoder A
  stop s = record s { is_running = false }

  unfoldable pub restart : FicDecoder A → FicDecoder A
  restart s = record s { success_ratio = 0; is_running = true }

  unfoldable pub get_fib_bits : FicDecoder A → List Bool × List Bool
  unfolding flatten
  get_fib_bits s = (flatten s.fib_bits, s.fic_valid)

  unfoldable pub get_fic_decode_ratio_percent : FicDecoder A → ℕ
  get_fic_decode_ratio_percent s = s.success_ratio * 10

  -- After `stop` a FIC changes nothing; `restart` starts the ratio at 0 per cent and lets FICs
  -- through; neither changes the bits that others may fetch. The ratio is at most 100 per cent while
  -- the counters are in range, and `stop` and `restart` keep them so.
  pub stop-restart :
      (viterbi : List A → List Bool)
      → (calculate_ber : List A → List Bool → List Bool → ℕ → ℕ → ℕ × ℕ)
      → (fic_idx : ℕ) (soft_input : List A) (s : FicDecoder A) → InRange s
      → (process_fic_input viterbi calculate_ber fic_idx soft_input (stop s) ≡ some (stop s))
        × ((restart s).is_running ≡ true)
        × (get_fic_decode_ratio_percent (restart s) ≡ 0)
        × (get_fib_bits (restart (stop s)) ≡ get_fib_bits s)
        × (get_fic_decode_ratio_percent s ≤ 100)
        × InRange (stop s)
        × InRange (restart s)
  unfolding stop restart get_fib_bits get_fic_decode_ratio_percent process_fic_input
  stop-restart viterbi calculate_ber fic_idx soft_input s r = (
    refl,
    refl,
    refl,
    refl,
    omega (arith, r.ratio),
    record { ratio = r.ratio; block = r.block },
    record { ratio = omega arith; block = r.block },
  )
