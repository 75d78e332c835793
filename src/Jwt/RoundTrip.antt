-- ===== src/Jwt/RoundTrip.antt =====
-- Sign and Verify of jwt/jwt.go against each other, and what Verify has checked when it accepts.
use tsjwt.Prelude.{
  Text, contains_char, split, ℕ, ◌^◌, ◌<◌, ◌≡◌, refl, ap, ◌∙◌, true, false, some, [], ◌∷◌, ◌++◌,
  ◌==◌, ==_iff, Bool-cases, Option-cases, length, length-append, ◌*◌, inl, inr, arith,
}
use tsjwt.Errors.{ok, ok-injective}
use tsjwt.Crypto.{Bytes, Header, Crypto}
use tsjwt.Jwt.{
  es256, jwt_type, coord_len, fill_bytes, sign, parse_parts, parse, verify_parts, verify,
}
use mathlib.Core.Path.{subst}
use mathlib.Core.List.{append_assoc}
use tsjwt.Jwt.Coordinates.{
  split_whole, split_first, length-fill_bytes, coordinate_roundtrip, take-append, drop-append,
}

-- What the documentation of the standard library promises: base64url decodes what it encoded and
-- uses no dot, a marshalled header reads back, and ecdsa.Verify accepts what ecdsa.Sign returned,
-- with coordinates below 2^256.
pub record Laws (c : Crypto) : Type 0 where
  pub b64_no_dot : (b : Bytes) → contains_char (c.b64 b) b'.' ≡ false
  pub unb64-b64 : (b : Bytes) → c.unb64 (c.b64 b) ≡ some b
  pub header_json :
      (kid : Text)
      → c.unmarshal_header (c.marshal_header (record { alg = es256; typ = jwt_type; kid = kid }))
        ≡ some (record { alg = es256; typ = jwt_type; kid = kid })
  pub ecdsa_correct :
      (k : c.PrivateKey) (digest random : Bytes) (r s : ℕ)
      → c.ecdsa_sign k digest random ≡ some (r, s)
      → (c.ecdsa_verify (c.public k) digest r s ≡ true) × (r < 256 ^ 32) × (s < 256 ^ 32)

module _ (c : Crypto) (laws : Laws c) where
  segments :
      (h b s : Bytes)
      → split ((c.b64 h ++ (b'.' ∷ c.b64 b)) ++ (b'.' ∷ c.b64 s)) b'.'
        ≡ c.b64 h ∷ c.b64 b ∷ c.b64 s ∷ []
  segments h b s = rw append_assoc (
      split_first (c.b64 h) (c.b64 b ++ (b'.' ∷ c.b64 s)) b'.' (laws.b64_no_dot h)
      ∙ ap (◌∷◌ (c.b64 h)) (
          split_first (c.b64 b) (c.b64 s) b'.' (laws.b64_no_dot b)
          ∙ ap (◌∷◌ (c.b64 b)) (split_whole (c.b64 s) b'.' (laws.b64_no_dot s))))

  -- The header that the signer writes passes Parse.
  parse_parts-written :
      (kid : Text) (body : Bytes)
      → parse_parts c
          (c.b64 (c.marshal_header (record { alg = es256; typ = jwt_type; kid = kid })))
          (c.b64 body)
        ≡ ok (record { alg = es256; typ = jwt_type; kid = kid }, body)
  unfolding parse_parts
  parse_parts-written kid body =
      rw
        (
          laws.unb64-b64 (c.marshal_header (record { alg = es256; typ = jwt_type; kid = kid })),
          laws.header_json kid,
          laws.unb64-b64 body,
        )
        refl

  -- The text that is signed, and the signature's bytes.
  abbrev header : Text → Header
  header kid = record { alg = es256; typ = jwt_type; kid = kid }

  abbrev signing : Text → Bytes → Text
  signing kid body = c.b64 (c.marshal_header (header kid)) ++ (b'.' ∷ c.b64 body)

  abbrev signature_of : ℕ → ℕ → Bytes
  signature_of r s = fill_bytes coord_len r [] ++ fill_bytes coord_len s []

  sign-eq-ok :
      (k : c.PrivateKey) (kid : Text) (body random : Bytes) {token : Text}
      → sign c (some k) kid (some body) random ≡ ok token
      → (c.is_p256 (c.public k) ≡ true)
        × (r : ℕ) × (s : ℕ) × (c.ecdsa_sign k (c.sha256 (signing kid body)) random ≡ some (r, s))
        × (signing kid body ++ (b'.' ∷ c.b64 (signature_of r s)) ≡ token)
  unfolding sign
  sign-eq-ok k kid body random {token} e = elim (Bool-cases (c.is_p256 (c.public k))) [
    | inr bad ↦ cc (rw bad at e)
    | inl good ↦ elim (Option-cases (c.ecdsa_sign k (c.sha256 (signing kid body)) random)) [
      | inl failed ↦ cc (rw (good, failed) at e)
      | inr ((r, s), signed) ↦ (good, r, s, signed, ok-injective (rw (good, signed) at e))
    ]
  ]

  length-signature : (r s : ℕ) → (length (signature_of r s) == 2 * coord_len) ≡ true
  length-signature r s = (==_iff _ _).1 (
      length-append (fill_bytes coord_len r []) (fill_bytes coord_len s [])
      ∙ omega (arith, length-fill_bytes coord_len r [], length-fill_bytes coord_len s []))

  parse-written :
      (kid : Text) (body sig : Bytes)
      → parse c (signing kid body ++ (b'.' ∷ c.b64 sig)) ≡ ok (header kid, body)
  unfolding parse
  parse-written kid body sig =
      rw (segments (c.marshal_header (header kid)) body sig, parse) (parse_parts-written kid body)

  verify_parts-written :
      (pub_key : c.PublicKey) (kid : Text) (body : Bytes) (r s : ℕ)
      → c.ecdsa_verify pub_key (c.sha256 (signing kid body)) r s ≡ true
      → r < 256 ^ 32
      → s < 256 ^ 32
      → verify_parts c pub_key
          (signing kid body ++ (b'.' ∷ c.b64 (signature_of r s)))
          (c.b64 (c.marshal_header (header kid)))
          (c.b64 body)
          (c.b64 (signature_of r s))
        ≡ ok body
  unfolding verify_parts
  verify_parts-written pub_key kid body r s valid hr hs =
      rw (parse-written kid body (signature_of r s)) (
        rw (laws.unb64-b64 (signature_of r s)) (
          rw (length-signature r s) (
            rw
              (
                take-append coord_len (fill_bytes coord_len r []) (fill_bytes coord_len s [])
                    (length-fill_bytes coord_len r [] ∙ omega arith),
                drop-append coord_len (fill_bytes coord_len r []) (fill_bytes coord_len s [])
                    (length-fill_bytes coord_len r [] ∙ omega arith),
                coordinate_roundtrip r hr,
                coordinate_roundtrip s hs,
              )
              (rw valid (rw (laws.unb64-b64 body) refl)))))

  abbrev Reads : c.PublicKey → Text → Bytes → Text → Type 0
  Reads key kid body token =
      (parse c token ≡ ok (header kid, body)) × (verify c (some key) token ≡ ok body)

  written-Reads :
      (key : c.PublicKey) (kid : Text) (body : Bytes) (r s : ℕ)
      → c.is_p256 key ≡ true
      → c.ecdsa_verify key (c.sha256 (signing kid body)) r s ≡ true
      → r < 256 ^ 32
      → s < 256 ^ 32
      → Reads key kid body (signing kid body ++ (b'.' ∷ c.b64 (signature_of r s)))
  unfolding verify
  written-Reads key kid body r s good valid hr hs = (
    parse-written kid body (signature_of r s),
    rw (good, segments (c.marshal_header (header kid)) body (signature_of r s), verify)
        (verify_parts-written key kid body r s valid hr hs),
  )

  -- A token that Sign wrote parses to a header that names ES256, JWT and the given kid, with the
  -- payload, and Verify with the public half of the key returns the payload.
  pub verify-sign :
      (k : c.PrivateKey) (kid : Text) (body random : Bytes) {token : Text}
      → sign c (some k) kid (some body) random ≡ ok token
      → (parse c token ≡ ok (header kid, body)) × (verify c (some (c.public k)) token ≡ ok body)
  verify-sign k kid body random {token} e =
      let (good, r, s, signed, same) = sign-eq-ok k kid body random e in
      let (valid, hr, hs) = laws.ecdsa_correct k (c.sha256 (signing kid body)) random r s signed in
      subst (Reads (c.public k) kid body) same
        (written-Reads (c.public k) kid body r s good valid hr hs)
