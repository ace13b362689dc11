-- ===== src/Examples/Sizes.antt =====
-- The protection profiles and the configuration of the sub-channels.
use dabstar.Prelude.{
  ℕ, ◌+◌, ◌*◌, ◌≤◌, ◌≡◌, refl, Bool, true, false, List, [], ◌∷◌, ◌++◌, some, length, replicate,
  length-replicate, arith, ltb, map,
}
use dabstar.SubChannel.Tables.{ProtLevel, level, long_form}
use dabstar.Protection.Marks.{Marks, block_size}
use dabstar.Protection.Marks.Valid.{Rises}
use dabstar.Protection.Eep.Fits.{Fits, cu_unit, eep_protection-Fits}
use dabstar.Protection.Uep.{new_uep_protection}
use dabstar.Protection.Uep.Fits.{least_unused, most_unused, uep_protection_fits}
use dabstar.Protection.Deconvolve.{Protection, new_protection}
use dabstar.Protection.Deconvolve.Frames.{Deconvolved, deconvolve_eep_frames}
use dabstar.SubChannel.Fig01.{FibState, FigHeader}
use dabstar.SubChannel.Fig01.Disjoint.{IsValid}

eep_protection-Fits_example : Fits 0 2 (cu_unit 0 2 * 3)
eep_protection-Fits_example = eep_protection-Fits 0 2 3 (omega arith) (omega arith) (omega arith)

-- Entry 40 of the table, 160 kbit/s at level 3.
abbrev entry : ProtLevel
entry = level 116 3 160

uep_protection_fits_example :
    (m : Marks) × (new_uep_protection 160 3 ≡ some m)
    × (m.counter ≡ block_size 160)
    × Rises 0 m.addresses (block_size 160)
    × (length m.addresses + least_unused 40 ≤ 64 * 116)
    × (64 * 116 ≤ length m.addresses + most_unused 40)
uep_protection_fits_example = uep_protection_fits 40 entry refl

-- A decoder for the examples: the sign of each soft bit.
abbrev signs : List ℕ → List Bool
signs block = map (ltb 0) block

abbrev frame_size : ℕ
frame_size = 64 * (cu_unit 0 2 * 2)

deconvolve_eep_frames_example :
    (t : ProtLevel) × (long_form 0 2 (cu_unit 0 2 * 2) ≡ some t)
    × ((p : Protection ℕ) × (new_protection 0 false t.bit_rate t.prot_level ≡ some p)
        × Deconvolved signs 0 p (replicate frame_size 3) (replicate frame_size 1))
deconvolve_eep_frames_example =
    deconvolve_eep_frames signs 0 0 2 2 (replicate frame_size 3) (replicate frame_size 1)
      (omega arith) (omega arith) (omega arith) (length-replicate {A = ℕ} frame_size 3)
      (length-replicate {A = ℕ} frame_size 1)

-- FIG 0/1 for sub-channel 1 at address 0 and sub-channel 2 at address 140, both by the short form
-- with entry 36, 116 capacity units each.
abbrev fig : List Bool
fig =
    replicate 5 false
    ++ ((true ∷ true ∷ true ∷ [])
        ++ (replicate 7 false
            ++ ((true ∷ [])
                ++ ((replicate 5 false ++ (true ∷ []))
                    ++ (replicate 10 false
                        ++ ((false ∷ false ∷ true ∷ false ∷ false ∷ true ∷ false ∷ false ∷ [])
                            ++ ((replicate 4 false ++ (true ∷ false ∷ []))
                                ++ ((false ∷ false ∷ true ∷ false ∷ false ∷ false ∷ true ∷ true
                                      ∷ false ∷ false ∷ [])
                                    ++ (false ∷ false ∷ true ∷ false ∷ false ∷ true ∷ false ∷ false
                                        ∷ [])))))))))

abbrev empty_state : FibState
empty_state = record { curr = []; next = []; restart = false }

empty_state-IsValid : IsValid empty_state
empty_state-IsValid = record {
  curr_config = record { separate = tt; fitting = tt };
  next_config = record { separate = tt; fitting = tt };
}

abbrev fig_header : FigHeader
fig_header = record { fig_length = 7; cn_flag = 0; oe_flag = 0; pd_flag = 0 }
