-- ===== src/Samples.antt =====
-- A small `Crypto` for the tests: one-byte keys, and encodings whose laws hold.
use tsjwt.Prelude.{
  ◌==◌, Text, contains_char, ℕ, zero, suc, ◌+◌, ◌-◌, ◌%◌, ◌^◌, ◌<◌, ◌≡◌, refl, ap, true, false,
  ◌&&◌, Option, none, some, [], ◌∷◌, arith,
}
use tsjwt.Crypto.{Bytes, Crypto}
use tsjwt.Jwt.{es256, jwt_type}
use tsjwt.Jwt.RoundTrip.{Laws}

abbrev pub encode_bytes : Bytes → Text
encode_bytes [] = []
encode_bytes (b ∷ bs) = (b + 100) ∷ encode_bytes bs

abbrev pub decode_bytes : Text → Bytes
decode_bytes [] = []
decode_bytes (b ∷ bs) = (b - 100) ∷ decode_bytes bs

-- The last byte of the X coordinate of an uncompressed point.
abbrev pub point_key : ℕ → Bytes → Option ℕ
point_key n [] = none
point_key zero (b ∷ bs) = some b
point_key (suc n) (b ∷ bs) = point_key n bs

abbrev pub sample_crypto : Crypto
sample_crypto = record {
  PublicKey = ℕ;
  PrivateKey = ℕ;
  public = λ k. k;
  is_p256 = λ k. true;
  ecdsa_sign = λ k digest random. some (k % 251, 7);
  ecdsa_verify = λ k digest r s. (r == k % 251) && (s == 7);
  sha256 = λ t. t;
  b64 = encode_bytes;
  unb64 = λ t. some (decode_bytes t);
  pub_x = λ k. k ∷ [];
  pub_y = λ k. 1 ∷ [];
  parse_point = point_key 32;
  marshal_header = λ h. h.kid;
  unmarshal_header = λ b. some (record { alg = es256; typ = jwt_type; kid = b });
}

encode_bytes-no_dot : (b : Bytes) → contains_char (encode_bytes b) b'.' ≡ false
unfolding contains_char
encode_bytes-no_dot [] = refl
encode_bytes-no_dot (b ∷ bs) = ground (arith, encode_bytes-no_dot bs)

decode-encode_bytes : (b : Bytes) → decode_bytes (encode_bytes b) ≡ b
decode-encode_bytes [] = refl
decode-encode_bytes (b ∷ bs) = ground (arith, decode-encode_bytes bs)

small : (k : ℕ) → k % 251 < 256 ^ 32
small k = omega arith

signed-verifies :
    (k r s : ℕ)
    → ◌≡◌ {A = Option (ℕ × ℕ)} (some (k % 251, 7)) (some (r, s))
    → (((r == k % 251) && (s == 7)) ≡ true) × (r < 256 ^ 32) × (s < 256 ^ 32)
signed-verifies k r s e = ground (arith, small k)

pub sample_laws : Laws sample_crypto
sample_laws = record {
  b64_no_dot = encode_bytes-no_dot;
  unb64-b64 = λ b. ap some (decode-encode_bytes b);
  header_json = λ kid. refl;
  ecdsa_correct = λ k digest random r s e. signed-verifies k r s e;
}
