-- ===== src/ReedSolomon/Dab.antt =====
-- The code of DAB+: `mRsDecoder(8, 0435, 0, 1, 10)` of base/backend/audio/mp4processor.cpp.
use dabstar.Prelude.{[], ◌∷◌, ◌≡◌, refl}
use dabstar.Galois.{dab_galois, new_galois, poly2power, power2poly, multiply_power}
use dabstar.ReedSolomon.{ReedSolomon, new_reed_solomon}

unfoldable pub dab_code : ReedSolomon
unfolding new_reed_solomon
dab_code = new_reed_solomon 8 0x11D 0 1 10

-- What the constructor makes, with the generator in power form.
abbrev pub dab_parameters : ReedSolomon
dab_parameters = record {
  galois = dab_galois;
  code_length = 255;
  generator = 45 ∷ 32 ∷ 94 ∷ 64 ∷ 70 ∷ 118 ∷ 61 ∷ 46 ∷ 67 ∷ 251 ∷ 0 ∷ [];
  nroots = 10;
  fcr = 0;
  prim = 1;
  iprim = 1;
}

same_galois : dab_code.galois ≡ dab_galois
unfolding dab_code dab_galois
same_galois = refl

same_generator : dab_code.generator ≡ dab_parameters.generator
unfolding dab_code new_galois poly2power power2poly multiply_power
same_generator = refl

same_numbers :
    (dab_code.code_length ≡ 255)
    × (dab_code.nroots ≡ 10)
    × (dab_code.iprim ≡ 1)
    × (dab_code.fcr ≡ 0)
    × (dab_code.prim ≡ 1)
unfolding dab_code
same_numbers = (refl, refl, refl, refl, refl)

pub dab_code_parameters : dab_code ≡ dab_parameters
unfolding dab_code
dab_code_parameters i = record {
  galois = same_galois i;
  code_length = same_numbers.0 i;
  generator = same_generator i;
  nroots = same_numbers.1 i;
  fcr = same_numbers.3 i;
  prim = same_numbers.4 i;
  iprim = same_numbers.2 i;
}
