-- ===== src/Jwt.antt =====
-- The compact JWS of jwt/jwt.go. ECDSA, SHA-256, base64url and the JSON form of a header are the
-- fields of `Crypto`, and what a theorem needs of them is a named hypothesis of `Laws`.
pub mod Coordinates
pub mod RoundTrip
pub mod Soundness
mod Tests
use tsjwt.Prelude.{
  ◌==◌, length, take, drop, Text, codes, text_eq, split, equal_fold, ℕ, zero, suc, ◌+◌, ◌*◌, ◌/◌,
  ◌%◌, Bool, ◌||◌, Option, List, [], ◌∷◌, ◌++◌,
}
use tsjwt.Crypto.{Bytes, Header, Crypto}
use tsjwt.Errors.{
  malformed, algorithm, signature, key_mismatch, other, Result, ok, err, ◌>>=◌, ◌>>◌, guard,
  or_fail,
}

abbrev pub es256 : Text
es256 = codes "ES256"

abbrev pub jwt_type : Text
jwt_type = codes "JWT"

abbrev pub coord_len : ℕ
coord_len = 32

-- big.Int.SetBytes: a number from its big-endian bytes.
pub set_bytes : Bytes → ℕ → ℕ
set_bytes [] acc = acc
set_bytes (b ∷ bs) acc = set_bytes bs (acc * 256 + b)

-- big.Int.FillBytes: the big-endian bytes of a number, in a buffer of `n` bytes.
unfoldable pub fill_bytes : ℕ → ℕ → Bytes → Bytes
fill_bytes zero v acc = acc
fill_bytes (suc n) v acc = fill_bytes n (v / 256) (v % 256 ∷ acc)

module _ (c : Crypto) where
  open c use {PublicKey, PrivateKey}

  -- Sign. `payload` is the result of json.Marshal(payload), and a nil key is `none`.
  unfoldable pub sign : Option PrivateKey → Text → Option Bytes → Bytes → Result Text
  unfolding fill_bytes
  sign key kid payload random = do
    k ← or_fail key key_mismatch
    guard (c.is_p256 (c.public k)) key_mismatch
    let hdr = c.marshal_header (record { alg = es256; typ = jwt_type; kid = kid })
    body ← or_fail payload other
    let signing = c.b64 hdr ++ (b'.' ∷ c.b64 body)
    rs ← or_fail (c.ecdsa_sign k (c.sha256 signing) random) other
    let sig = fill_bytes coord_len rs.0 [] ++ fill_bytes coord_len rs.1 []
    ok (signing ++ (b'.' ∷ c.b64 sig))

  -- The header and the payload of the three segments.
  parse_parts : Text → Text → Result (Header × Bytes)
  unfolding text_eq equal_fold
  parse_parts p0 p1 = do
    raw_hdr ← or_fail (c.unb64 p0) malformed
    h ← or_fail (c.unmarshal_header raw_hdr) malformed
    guard (text_eq h.alg es256) algorithm
    guard (text_eq h.typ [] || equal_fold h.typ jwt_type) malformed
    body ← or_fail (c.unb64 p1) malformed
    ok (h, body)

  -- Parse
  unfoldable pub parse : Text → Result (Header × Bytes)
  unfolding split parse_parts
  parse token = elim (split token b'.') [
    | p0 ∷ p1 ∷ p2 ∷ [] ↦ parse_parts p0 p1
    | _ ↦ err malformed
  ]

  -- The signature check of Verify over the three segments.
  verify_parts : PublicKey → Text → Text → Text → Text → Result Bytes
  unfolding parse set_bytes
  verify_parts pub_key token p0 p1 p2 = do
    checked ← parse token
    sig ← or_fail (c.unb64 p2) malformed
    guard (length sig == 2 * coord_len) malformed
    let sum = c.sha256 (p0 ++ (b'.' ∷ p1))
    let r = set_bytes (take coord_len sig) 0
    let s = set_bytes (drop coord_len sig) 0
    guard (c.ecdsa_verify pub_key sum r s) signature
    or_fail (c.unb64 p1) malformed

  -- Verify. A nil key is `none`.
  unfoldable pub verify : Option PublicKey → Text → Result Bytes
  unfolding verify_parts
  verify key token = do
    k ← or_fail key key_mismatch
    guard (c.is_p256 k) key_mismatch
    elim (split token b'.') [
      | p0 ∷ p1 ∷ p2 ∷ [] ↦ verify_parts k token p0 p1 p2
      | _ ↦ err malformed
    ]
