-- ===== src/Keys/Tests.antt =====
-- Runs of keys/keys.go with the sample cryptography, and its theorems at a sample.
use tsjwt.Prelude.{some-injective, Text, pos, ℕ, ◌≡◌, refl, subst, some, [], ◌∷◌, arith}
use tsjwt.Keys.{thumbprint, Key, Set}
use tsjwt.GoTime.{hour}
use tsjwt.Samples.{sample_crypto}
use tsjwt.Keys.Rotation.{SetIsValid, Verifies, run_rotations, rotated_key-Verifies}

abbrev thumb : ℕ → Text
thumb k = thumbprint sample_crypto k

abbrev key : ℕ → Key sample_crypto
key k = record { kid = thumb k; priv = k; retires = 0 }

abbrev set : Set sample_crypto
set = record { overlap = pos hour; current = some (key 3); retired = [] }

set-SetIsValid : SetIsValid sample_crypto set
set-SetIsValid = record {
  current_ok =
      λ k e. subst (λ (x : Key sample_crypto). x.kid ≡ thumb x.priv) (some-injective e) refl;
  retired_ok = tt;
}

rotated_key-Verifies_example :
    Verifies sample_crypto
      (run_rotations sample_crypto set ((4, 100) ∷ (5, 200) ∷ []))
      (thumb 3)
      300
rotated_key-Verifies_example =
    rotated_key-Verifies sample_crypto (key 3) 4 100 hour 300 set ((5, 200) ∷ []) set-SetIsValid
      refl refl (omega arith) (omega arith, tt) (omega arith) (omega arith)
