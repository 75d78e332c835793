-- ===== src/Signer.antt =====
-- The minting signer of signer/signer.go. The identity source, the tenant resolver, the key source's
-- Current, the claims' JSON form, the clock and the random bytes are arguments.
pub mod Handler
pub mod Clamps
pub mod Minting
pub mod EndToEnd
mod Tests
use tsjwt.Errors.{no_tenant, other, Result, ok, ◌>>=◌, ◌>>◌, guard, or_fail}
use tsjwt.Prelude.{
  if◌then◌else◌, Text, text_eq, trim, contains_char, pos, negsuc, ltb_ℤ, leb_ℤ, ℕ, suc, ◌*◌, Bool,
  not, Option, some, [], ◌==◌, length, zero,
}
use tsjwt.GoTime.{Instant, Duration, second, minute, to_unix, add_time}
use tsjwt.Claims.{Claims}
use tsjwt.Crypto.{Bytes, Crypto}
use tsjwt.Jwt.{sign}
use tsjwt.Tenant.{Identity, identity_valid, Tenant, Grant, grant_tenant, grant_ids, grant_valid}

abbrev pub max_ttl : ℕ
max_ttl = 15 * minute

abbrev pub default_ttl : ℕ
default_ttl = 5 * minute

-- The fields of Config that the signer reads; `has_keys`, `has_identities` and `has_tenants` say which of
-- the interfaces are not nil.
pub record Config : Type 0 where
  pub issuer : Text
  pub has_keys : Bool
  pub has_identities : Bool
  pub has_tenants : Bool
  pub ttl : Duration
  pub leeway : Duration

-- A TTL after New's two tests.
clamp_ttl : Duration → Duration
clamp_ttl ttl =
    let set = if leb_ℤ ttl (pos 0) then pos default_ttl else ttl in
    if ltb_ℤ (pos max_ttl) set then pos max_ttl else set

clamp_leeway : Duration → Duration
clamp_leeway leeway = if leb_ℤ leeway (pos 0) then pos (30 * second) else leeway

-- New
unfoldable pub new : Config → Result Config
unfolding text_eq clamp_ttl clamp_leeway
new cfg = do
  guard (not (text_eq (trim cfg.issuer) [])) other
  guard cfg.has_keys other
  guard cfg.has_identities other
  guard cfg.has_tenants other
  ok (record cfg { ttl = clamp_ttl cfg.ttl; leeway = clamp_leeway cfg.leeway })

-- -d, for a duration that is not the least one.
abbrev pub negate : Duration → Duration
negate (pos zero) = pos 0
negate (pos (suc n)) = negsuc n
negate (negsuc n) = pos (suc n)

-- The tenant that a grant gives for a requested id: the default's for the empty one.
unfoldable pub select_tenant : Grant → Text → Result Tenant
unfolding grant_tenant text_eq
select_tenant g requested = do
  guard (not (length g.tenants == 0)) no_tenant
  let id = if text_eq requested [] then g.default else requested
  guard (not (text_eq id [])) no_tenant
  or_fail (grant_tenant g id) no_tenant

-- The claims of Mint.
unfoldable pub claims_of : Config → Identity → Grant → Tenant → Text → Instant → Text → Claims
unfolding to_unix add_time grant_ids
claims_of cfg id grant t audience now jti = record {
  issuer = cfg.issuer;
  subject = id.subject;
  audience = audience;
  issued_at = to_unix now;
  not_before = to_unix (add_time now (negate cfg.leeway));
  expiry = to_unix (add_time now cfg.ttl);
  jti = jti;
  email = if contains_char id.login b'@' then id.login else [];
  display_name = id.display_name;
  node = id.node;
  tenant = t.id;
  tenants = grant_ids grant;
  roles = t.roles;
  groups = id.groups;
  extra = [];
}

module _ (c : Crypto) (encode : Claims → Option Bytes) (identify : Text → Result Identity)
    (tenants_of : Identity → Result Grant) where
  -- signClaims, for what Current returned and the bytes that the signature reads.
  sign_claims : Result (c.PrivateKey × Text) → Bytes → Claims → Result Text
  sign_claims current random claims = do
    key ← current
    sign c (some key.0) key.1 (encode claims) random

  -- Mint. `id_bytes` is what newID reads from the random source, or `none`.
  unfoldable pub mint :
      Config
      → Result (c.PrivateKey × Text)
      → Option Bytes
      → Bytes
      → Instant
      → Text
      → Text
      → Text
      → Result (Text × Claims)
  unfolding sign_claims select_tenant claims_of identity_valid grant_valid
  mint cfg current id_bytes random now remote_addr audience tenant = do
    guard (not (text_eq (trim audience) [])) other
    id ← identify remote_addr
    identity_valid id
    grant ← tenants_of id
    grant_valid grant
    t ← select_tenant grant tenant
    jti ← or_fail id_bytes other
    let claims = claims_of cfg id grant t audience now (c.b64 jti)
    token ← sign_claims current random claims
    ok (token, claims)
