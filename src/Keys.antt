-- ===== src/Keys.antt =====
-- The signing key set of keys/keys.go: rotation with an overlap window, lookup, publication, and
-- the key ids that are derived from the keys. A generated key is an argument of `rotate`.
pub mod Rotation
pub mod Thumbprints
pub mod Sharing
mod Tests
use tsjwt.Prelude.{
  ltb, if◌then◌else◌, length, replicate, Text, codes, text_eq, ◌-◌, ◌&&◌, Option, none, some, List,
  [], ◌∷◌, ◌++◌,
}
use tsjwt.Errors.{no_current, other, Result, ok, err, ◌>>=◌, ◌>>◌, or_fail}
use tsjwt.GoTime.{Instant, Duration, add_time}
use tsjwt.Crypto.{Bytes, Crypto}

pub record Jwk : Type 0 where
  pub kty : Text
  pub crv : Text
  pub kid : Text
  pub use_for : Text
  pub alg : Text
  pub x : Text
  pub y : Text

-- Bytes behind zeros, to 32 bytes.
abbrev pub left_pad : Bytes → Bytes
left_pad b = replicate (32 - length b) 0 ++ b

-- coordBytes: an over-long coordinate is refused.
unfoldable pub coord_bytes : Bytes → Option Bytes
coord_bytes b = if ltb 32 (length b) then none else some (left_pad b)

-- json.Marshal of the four members that RFC 7638 names. The texts are base64url, so no character of
-- them is escaped.
unfoldable pub canonical : Text → Text → Text
canonical x y =
    codes "{\"crv\":\"P-256\",\"kty\":\"EC\",\"x\":\""
    ++ (x ++ (codes "\",\"y\":\"" ++ (y ++ codes "\"}")))

module _ (c : Crypto) where
  open c use {PublicKey, PrivateKey}

  -- coord, for a coordinate of at most 32 bytes, which a P-256 coordinate is
  unfoldable pub coord : Bytes → Text
  coord b = c.b64 (left_pad b)

  -- thumbprint and Thumbprint
  unfoldable pub thumbprint : PublicKey → Text
  unfolding canonical coord
  thumbprint k = c.b64 (c.sha256 (canonical (coord (c.pub_x k)) (coord (c.pub_y k))))

  -- jwkOf
  unfoldable pub jwk_of : PublicKey → Text → Jwk
  unfolding coord
  jwk_of k kid = record {
    kty = codes "EC";
    crv = codes "P-256";
    kid = kid;
    use_for = codes "sig";
    alg = codes "ES256";
    x = coord (c.pub_x k);
    y = coord (c.pub_y k);
  }

  -- PublicFromXY
  unfoldable pub public_from_xy : Text → Text → Result PublicKey
  unfolding coord_bytes
  public_from_xy x y = do
    xb ← or_fail (c.unb64 x) other
    yb ← or_fail (c.unb64 y) other
    xp ← or_fail (coord_bytes xb) other
    yp ← or_fail (coord_bytes yb) other
    or_fail (c.parse_point (4 ∷ xp ++ yp)) other

  -- One generation of signing key. `retires` is read only for a retired key.
  pub record Key : Type 0 where
    pub kid : Text
    pub priv : PrivateKey
    pub retires : Instant

  pub record Set : Type 0 where
    pub overlap : Duration
    pub current : Option Key
    pub retired : List Key

  -- pruneLocked
  unfoldable pub prune : Instant → List Key → List Key
  prune now [] = []
  prune now (k ∷ ks) = let rest = prune now ks in if ltb now k.retires then k ∷ rest else rest

  -- The previous current key, moved into the overlap window.
  retire : Instant → Duration → Option Key → List Key → List Key
  unfolding add_time
  retire now overlap none ks = ks
  retire now overlap (some k) ks = ks ++ record k { retires = add_time now overlap } ∷ []

  -- Rotate, with the key that ecdsa.GenerateKey gave; `none` is its error.
  unfoldable pub rotate : Option PrivateKey → Instant → Set → Result (Unit {0}) × Set
  unfolding prune retire
  rotate none now s = (err other, s)
  rotate (some priv) now s = (
    ok tt,
    record s {
      current = some (record { kid = thumbprint (c.public priv); priv = priv; retires = 0 });
      retired = prune now (retire now s.overlap s.current s.retired);
    },
  )

  -- NewSet, after its options are applied
  unfoldable pub new_set : Duration → Option PrivateKey → Instant → Result Set
  unfolding rotate
  new_set overlap generated now =
      let (r, s) =
        rotate generated now (record { overlap = overlap; current = none; retired = [] }) in
      r >>= λ _. ok s

  -- Current
  unfoldable pub current : Set → Result (PrivateKey × Text)
  current s = elim s.current [ none ↦ err no_current | some k ↦ ok (k.priv, k.kid) ]

  find_retired : Text → Instant → List Key → Option PublicKey
  unfolding text_eq
  find_retired kid now [] = none
  find_retired kid now (k ∷ ks) =
      if text_eq k.kid kid && ltb now k.retires
      then some (c.public k.priv)
      else find_retired kid now ks

  find_key : Text → Instant → Option Key → List Key → Option PublicKey
  unfolding find_retired
  find_key kid now none ks = find_retired kid now ks
  find_key kid now (some k) ks =
      if text_eq k.kid kid then some (c.public k.priv) else find_retired kid now ks

  -- Set.PublicKey
  unfoldable pub public_key : Set → Text → Instant → Option PublicKey
  unfolding find_key
  public_key s kid now = find_key kid now s.current s.retired

  retired_jwks : Instant → List Key → List Jwk
  unfolding jwk_of
  retired_jwks now [] = []
  retired_jwks now (k ∷ ks) =
      let rest = retired_jwks now ks in
      if ltb now k.retires then jwk_of (c.public k.priv) k.kid ∷ rest else rest

  current_jwks : Option Key → List Jwk
  unfolding jwk_of
  current_jwks none = []
  current_jwks (some k) = jwk_of (c.public k.priv) k.kid ∷ []

  -- Set.JWKS
  unfoldable pub jwks : Set → Instant → List Jwk
  unfolding current_jwks retired_jwks
  jwks s now = current_jwks s.current ++ retired_jwks now s.retired
