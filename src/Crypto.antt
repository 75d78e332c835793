-- ===== src/Crypto.antt =====
-- The cryptography and the encodings that the program takes from Go's standard library, as an
-- interface: ECDSA over P-256, SHA-256, base64url, and the JSON form of the JOSE header that
-- jwt/jwt.go declares.
use tsjwt.Prelude.{Text, ℕ, Bool, Option, List}

abbrev pub Bytes : Type 0
Bytes = List ℕ

pub record Header : Type 0 where
  pub alg : Text
  pub typ : Text
  pub kid : Text

-- A key carries its curve: `is_p256` is the test key.Curve == elliptic256().
pub record Crypto : Type 1 where
  pub PublicKey : Type 0
  pub PrivateKey : Type 0
  pub public : PrivateKey → PublicKey
  pub is_p256 : PublicKey → Bool
  -- ecdsa.Sign with the bytes read from rand.Reader; `none` is its error.
  pub ecdsa_sign : PrivateKey → Bytes → Bytes → Option (ℕ × ℕ)
  pub ecdsa_verify : PublicKey → Bytes → ℕ → ℕ → Bool
  pub sha256 : Text → Bytes
  -- base64.RawURLEncoding
  pub b64 : Bytes → Text
  pub unb64 : Text → Option Bytes
  -- X.Bytes() and Y.Bytes() of a public key: big-endian, without leading zeros
  pub pub_x : PublicKey → Bytes
  pub pub_y : PublicKey → Bytes
  -- ecdsa.ParseUncompressedPublicKey for P-256; `none` is its error
  pub parse_point : Bytes → Option PublicKey
  -- json.Marshal and json.Unmarshal of a Header
  pub marshal_header : Header → Bytes
  pub unmarshal_header : Bytes → Option Header
