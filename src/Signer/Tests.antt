-- ===== src/Signer/Tests.antt =====
-- Runs of signer/signer.go with the sample cryptography, and its theorems at a token.
use tsjwt.Prelude.Sort.{sort}
use tsjwt.Prelude.{
  replicate, Text, codes, text_eq, trim, pos, ℕ, ◌+◌, ◌-◌, ◌*◌, ◌≡◌, refl, Bool, true, false,
  Option, some, [], ◌∷◌, ◌++◌, arith, contains_char,
}
use tsjwt.Errors.{Result, ok}
use tsjwt.Signer.{Config, clamp_ttl, clamp_leeway, new, select_tenant, claims_of, sign_claims, mint}
use tsjwt.Crypto.{Bytes}
use tsjwt.Claims.{Claims}
use tsjwt.Tenant.{Identity, identity_valid, Tenant, Grant, grant_valid}
use tsjwt.GoTime.{Instant, second, minute, epoch, to_unix, add_time}
use tsjwt.Jwt.{fill_bytes, sign}
use tsjwt.Samples.{encode_bytes, sample_crypto, sample_laws}
use tsjwt.Signer.Minting.{IsAuthorized, mint-IsAuthorized}
use tsjwt.Signer.EndToEnd.{IsTimely, Admits, mint-verify_token}
use tsjwt.Verifier as V

abbrev config : Config
config = record {
  issuer = codes "https://s";
  has_keys = true;
  has_identities = true;
  has_tenants = true;
  ttl = pos (300 * second);
  leeway = pos (30 * second);
}

abbrev config_asked : Config
config_asked = record config { ttl = pos (300 * second); leeway = pos 0 }

abbrev alice : Identity
alice = record {
  subject = codes "u1";
  login = codes "a@b";
  display_name = codes "Alice";
  groups = codes "devs" ∷ [];
  node = codes "laptop";
  attributes = [];
}

abbrev acme : Tenant
acme = record { id = codes "acme"; name = []; roles = codes "admin" ∷ [] }

abbrev grant : Grant
grant = record { tenants = acme ∷ []; default = codes "acme" }

abbrev identify_sample : Text → Result Identity
identify_sample remote = ok alice

abbrev tenants_sample : Identity → Result Grant
tenants_sample id = ok grant

abbrev encode_sample : Claims → Option Bytes
encode_sample c = some (1 ∷ [])

abbrev minted_at : ℕ
minted_at = (epoch + 1_700_000_000) * second

abbrev claims : Claims
claims = record {
  issuer = codes "https://s";
  subject = codes "u1";
  audience = codes "app";
  issued_at = pos 1_700_000_000;
  not_before = pos 1_699_999_970;
  expiry = pos 1_700_000_300;
  jti = encode_bytes (9 ∷ []);
  email = codes "a@b";
  display_name = codes "Alice";
  node = codes "laptop";
  tenant = codes "acme";
  tenants = codes "acme" ∷ [];
  roles = codes "admin" ∷ [];
  groups = codes "devs" ∷ [];
  extra = [];
}

abbrev kid : Text
kid = codes "k1"

abbrev token : Text
token =
    encode_bytes kid
    ++ (b'.' ∷ encode_bytes (1 ∷ []))
    ++ (b'.' ∷ encode_bytes (replicate 31 0 ++ (3 ∷ replicate 31 0) ++ (7 ∷ [])))

token-minted :
    mint sample_crypto encode_sample identify_sample tenants_sample config
      (ok (3, kid))
      (some (9 ∷ []))
      []
      minted_at
      (codes "100.64.0.1:5")
      (codes "app")
      []
    ≡ ok (token, claims)
unfolding mint sign_claims sign select_tenant claims_of identity_valid grant_valid fill_bytes
    to_unix add_time trim contains_char sort
token-minted = refl

config-new : new config_asked ≡ ok config
unfolding new clamp_ttl clamp_leeway trim text_eq
config-new = refl

mint-IsAuthorized_example :
    IsAuthorized identify_sample tenants_sample (codes "100.64.0.1:5") [] claims
mint-IsAuthorized_example =
    mint-IsAuthorized sample_crypto encode_sample identify_sample tenants_sample config
      (ok (3, kid)) (some (9 ∷ [])) [] minted_at (codes "100.64.0.1:5") (codes "app") []
      token-minted

abbrev verifier : V.Config
verifier = record {
  issuer = codes "https://s";
  audience = codes "app";
  has_keys = true;
  leeway = pos minute;
  max_lifetime = pos (15 * minute);
  has_replay = false;
}

timely : IsTimely 300 (30 * second) minted_at (minted_at + 5)
timely = record {
  alive = omega arith;
  after_epoch = omega arith;
  fits = omega arith;
  minted = omega arith;
  unexpired = omega arith;
}

admits : Admits verifier 300
admits = record {
  max_life = 15 * minute - 1;
  max_life_ok = refl;
  max_life_fits = omega arith;
  long_enough = omega arith;
  slack = minute;
  slack_ok = refl;
  slack_fits = omega arith;
}

abbrev decode_sample : Bytes → Option Claims
decode_sample b = some claims

abbrev key_sample : Unit {0} → Text → Result ℕ × Unit {0}
key_sample ks asked = (ok 3, ks)

abbrev never_seen : Unit {0} → Text → Instant → Instant → Bool × Unit {0}
never_seen g jti exp now = (false, g)

mint-verify_token_example :
    (V.verify_token sample_crypto decode_sample key_sample never_seen verifier token
      (minted_at + 5)
      tt
      tt).0
    ≡ ok claims
mint-verify_token_example =
    mint-verify_token sample_crypto sample_laws encode_sample decode_sample identify_sample
      tenants_sample key_sample never_seen config verifier 3 kid (9 ∷ []) [] 300 (30 * second)
      minted_at (minted_at + 5) (codes "100.64.0.1:5") [] tt tt token-minted refl refl refl timely
      admits (λ e. cc) (λ e. cc) refl (λ body e. refl) (λ on. refl)
