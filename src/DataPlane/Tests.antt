-- ===== src/DataPlane/Tests.antt =====
-- Runs of the data plane's checks and of its minting, and the theorems on them at samples.
use tsjwt.Prelude.Sort.{sort}
use tsjwt.Prelude.{
  if◌then◌else◌, replicate, Text, codes, text_eq, text_lt, trim, trim_suffix, contains_char,
  before_char, decimal, pos, pos_part, ◌≤ℤ◌, ◌<ℤ◌, lookup, has, ℕ, ◌+◌, ◌*◌, ◌^◌, ◌<◌, ◌≡◌, refl,
  true, false, Option, none, some, List, [], ◌∷◌, ◌++◌,
}
use tsjwt.Errors.{other, Result, err, ok}
use tsjwt.GoTime.{Duration, second, minute, hour, epoch, to_unix, add_time}
use tsjwt.Crypto.{Bytes}
use tsjwt.Claims.{Claims}
use tsjwt.Tenant.{identity_valid, tenant_valid, grant_valid}
use tsjwt.Policy.{PolicyTenant, PolicyFile, policy_resolve}
use tsjwt.Jwt.{fill_bytes, sign}
use tsjwt.Samples.{encode_bytes, sample_crypto}
use tsjwt.Tailnet.{
  Addr, v4, v6, host_of, is_tailnet_addr, CapRule, WhoIs, sorted_keys, identity_of, cap_name,
  identity, identify,
}
use tsjwt.Signer as Signer
use tsjwt.Signer.Handler.{cache_seconds}
use tsjwt.DataPlane.{Flags, settle, source_of, signer_config, grace_of, assert_rejects, half}
use tsjwt.DataPlane.Startup.{ReadsOutside, assert_rejects-passes}
use tsjwt.DataPlane.Lifetimes.{settle-Covers}
use tsjwt.DataPlane.Callers.{StandsForPerson, mint-StandsForPerson}

abbrev flags : Flags
flags = record {
  gateway_ref = codes "edge/gw";
  tenants = codes "tenants.json";
  hostname = [];
  issuer = [];
  cap = codes "groups";
  key_tags = codes "tag:jwt";
  ttl = pos (5 * minute);
  overlap = pos hour;
  wait_timeout = pos 0;
  wait_pending = pos 64;
}

abbrev settled : Flags
settled = record flags { hostname = codes "gw"; issuer = codes "https://gw" }

settle-flags : settle flags ≡ ok settled
unfolding settle
settle-flags = refl

no_namespace : settle (record flags { gateway_ref = codes "gw" }) ≡ err other
unfolding settle
no_namespace = refl

ttl_too_long : settle (record flags { overlap = pos (5 * minute) }) ≡ err other
unfolding settle
ttl_too_long = refl

abbrev config : Signer.Config
config = record (signer_config settled) { leeway = pos (30 * second) }

signer_new : Signer.new (signer_config settled) ≡ ok config
unfolding Signer.new text_eq trim
signer_new = refl

settle-Covers_example :
    (pos 0 <ℤ flags.ttl
      → (config.ttl <ℤ flags.overlap)
        × (3 * pos_part flags.ttl < 2 ^ 63 → config.ttl <ℤ grace_of settled.ttl)
        × (pos (cache_seconds (half settled.overlap) * second) <ℤ flags.overlap))
    × (flags.ttl ≤ℤ pos 0 → config.ttl ≡ pos Signer.default_ttl)
settle-Covers_example = settle-Covers flags settled config settle-flags signer_new

-- A ttl of zero passes with an overlap of one minute, and the signer's tokens live for five.
short_overlap :
    settle (record flags { ttl = pos 0; overlap = pos minute })
    ≡ ok (record settled { ttl = pos 0; overlap = pos minute })
unfolding settle
short_overlap = refl

-- The host of the addresses of these tests, and their reading.
abbrev split_sample : Text → Option Text
split_sample t =
    if text_eq t (codes "[::1]:1") then some (codes "::1") else some (before_char t b':')

abbrev parse_sample : Text → Option Addr
parse_sample t =
    if text_eq t (codes "100.64.0.9")
    then some (v4 0x64400009)
    else if text_eq t (codes "127.0.0.1")
    then some (v4 0x7f000001)
    else if text_eq t (codes "::1")
    then some (v6 1 [])
    else if text_eq t (codes "203.0.113.1")
    then some (v4 0xcb007101)
    else none

abbrev read_sample : List CapRule → Text → Result (List CapRule)
read_sample m cap = ok m

abbrev who : WhoIs (List CapRule)
who = record {
  node = some (record { name = codes "laptop.ts.net."; tagged = false });
  user_profile =
      some (record { user_id = pos 42; login_name = codes "a@b"; display_name = codes "A" });
  cap_map = record { groups = codes "acme-devs" ∷ []; tenants = [] } ∷ [];
}

abbrev whois_sample : Duration → Text → Result (Option (WhoIs (List CapRule)))
whois_sample timeout remote = ok (some who)

reads : ReadsOutside split_sample parse_sample
unfolding text_eq before_char
reads = record { loopback_v4 = refl; loopback_v6 = refl; public_v4 = refl }

assert_rejects-passes_example :
    assert_rejects (identify read_sample split_sample parse_sample whois_sample (source_of settled))
    ≡ ok tt
assert_rejects-passes_example =
    assert_rejects-passes read_sample split_sample parse_sample whois_sample reads
      (source_of settled)

-- A source that takes any address for a person's is found out.
weakened :
    assert_rejects (λ remote. ok (
      identity_of
        (record { user_id = pos 1; login_name = codes "x"; display_name = [] })
        (record { name = []; tagged = false })
        []))
    ≡ err other
unfolding assert_rejects
weakened = refl

abbrev acme : PolicyTenant
acme = record {
  id = codes "acme";
  name = codes "Acme";
  groups = (codes "acme-devs", codes "admin") ∷ [];
  default = true;
}

abbrev policy : PolicyFile
policy = record { tenants = acme ∷ []; default_role = [] }

abbrev encode_sample : Claims → Option Bytes
encode_sample c = some (1 ∷ [])

abbrev minted_at : ℕ
minted_at = (epoch + 1_700_000_000) * second

abbrev claims : Claims
claims = record {
  issuer = codes "https://gw";
  subject = codes "tailnet:42";
  audience = codes "app";
  issued_at = pos 1_700_000_000;
  not_before = pos 1_699_999_970;
  expiry = pos 1_700_000_300;
  jti = encode_bytes (9 ∷ []);
  email = codes "a@b";
  display_name = codes "A";
  node = codes "laptop.ts.net";
  tenant = codes "acme";
  tenants = codes "acme" ∷ [];
  roles = codes "admin" ∷ [];
  groups = codes "acme-devs" ∷ [];
  extra = [];
}

abbrev token : Text
token =
    encode_bytes (codes "k1")
    ++ (b'.' ∷ encode_bytes (1 ∷ []))
    ++ (b'.' ∷ encode_bytes (replicate 31 0 ++ (3 ∷ replicate 31 0) ++ (7 ∷ [])))

minted :
    Signer.mint sample_crypto encode_sample
      (identify read_sample split_sample parse_sample whois_sample (source_of settled))
      (policy_resolve policy)
      config
      (ok (3, codes "k1"))
      (some (9 ∷ []))
      []
      minted_at
      (codes "100.64.0.9:5")
      (codes "app")
      []
    ≡ ok (token, claims)
unfolding Signer.mint sign Signer.select_tenant Signer.claims_of identity_valid grant_valid
    fill_bytes to_unix add_time trim contains_char sort identify identity identity_of
    is_tailnet_addr sorted_keys text_eq text_lt before_char has trim_suffix decimal policy_resolve
    lookup tenant_valid
minted = refl

mint-StandsForPerson_example :
    StandsForPerson read_sample parse_sample whois_sample
      (host_of (codes "100.64.0.9:5") (split_sample (codes "100.64.0.9:5")))
      (cap_name (source_of settled))
      (codes "100.64.0.9:5")
      policy
      claims
mint-StandsForPerson_example =
    mint-StandsForPerson sample_crypto encode_sample read_sample split_sample parse_sample
      whois_sample settled config policy (ok (3, codes "k1")) (some (9 ∷ [])) [] minted_at
      (codes "100.64.0.9:5") (codes "app") [] token claims minted
