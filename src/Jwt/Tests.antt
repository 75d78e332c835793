-- ===== src/Jwt/Tests.antt =====
-- Runs of jwt/jwt.go with the sample cryptography, and its theorems at a token.
use tsjwt.Prelude.{
  replicate, Text, codes, text_eq, split, equal_fold, ℕ, ◌≡◌, refl, some, [], ◌∷◌, ◌++◌,
}
use tsjwt.Errors.{signature, ok, err}
use tsjwt.Jwt.{
  es256, jwt_type, set_bytes, fill_bytes, sign, parse_parts, parse, verify_parts, verify,
}
use tsjwt.Crypto.{Bytes}
use tsjwt.Samples.{encode_bytes, sample_crypto, sample_laws}
use tsjwt.Jwt.RoundTrip.{verify-sign}
use tsjwt.Jwt.Soundness.{Checked, verify-Checked}

abbrev kid : Text
kid = codes "k1"

abbrev body : Bytes
body = codes "{}"

abbrev signature_bytes : Bytes
signature_bytes = replicate 31 0 ++ (3 ∷ replicate 31 0) ++ (7 ∷ [])

abbrev token : Text
token = encode_bytes kid ++ (b'.' ∷ encode_bytes body) ++ (b'.' ∷ encode_bytes signature_bytes)

token-signed : sign sample_crypto (some 3) kid (some body) [] ≡ ok token
unfolding sign fill_bytes
token-signed = refl

token-verified : verify sample_crypto (some 3) token ≡ ok body
unfolding verify verify_parts parse parse_parts split text_eq equal_fold set_bytes
token-verified = refl

-- A token under another key is refused.
token-other_key : verify sample_crypto (some 4) token ≡ err signature
unfolding verify verify_parts parse parse_parts split text_eq equal_fold set_bytes
token-other_key = refl

verify-sign_example :
    (parse sample_crypto token ≡ ok (record { alg = es256; typ = jwt_type; kid = kid }, body))
    × (verify sample_crypto (some 3) token ≡ ok body)
verify-sign_example = verify-sign sample_crypto sample_laws 3 kid body [] token-signed

verify-Checked_example : (k : ℕ) × (some 3 ≡ some k) × Checked sample_crypto k token body
verify-Checked_example = verify-Checked sample_crypto (some 3) token body token-verified
