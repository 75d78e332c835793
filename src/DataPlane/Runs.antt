-- ===== src/DataPlane/Runs.antt =====
-- Runs of what the data plane of gateway/cmd/tsjwt-dataplane/main.go answers about itself.
use tsjwt.Prelude.{codes, pos, ◌*◌, ◌≡◌, refl, true, false, none, []}
use tsjwt.Errors.{not_exist, other, Result, err, ok}
use tsjwt.GoTime.{minute, hour}
use tsjwt.RouteTable.Source.{FileSource}
use tsjwt.Signer.Handler.{not_allowed, key_set}
use tsjwt.Tailnet.Expiry.{Expiry}
use tsjwt.Tailnet.AuthKey.{Post, Answer}
use tsjwt.DataPlane.{Flags, auth_key, health, ready, jwks_of}

abbrev flags : Flags
flags = record {
  gateway_ref = codes "edge/gw";
  tenants = codes "tenants.json";
  hostname = codes "gw";
  issuer = codes "https://gw";
  cap = [];
  key_tags = codes "tag:a,tag:b";
  ttl = pos (5 * minute);
  overlap = pos hour;
  wait_timeout = pos 0;
  wait_pending = pos 64;
}

abbrev loaded : FileSource
loaded = record {
  has_cache = false;
  current = [];
  revision = pos 1;
  loaded = true;
  from_cache = false;
  cached = err not_exist;
  last_err = none;
}

ready_named : ready flags (codes "gw.example.ts.net.") loaded ≡ 200
unfolding ready
ready_named = refl

-- The tailnet gave another name, since the one asked for was taken.
ready_renamed : ready flags (codes "gw-1.example.ts.net.") loaded ≡ 503
unfolding ready
ready_renamed = refl

ready_no_table : ready flags (codes "gw.example.ts.net.") (record loaded { loaded = false }) ≡ 503
unfolding ready
ready_no_table = refl

abbrev expiry : Expiry
expiry = record { expires = 10 * hour; buffer = pos hour; splay = pos minute }

health-before : health expiry (8 * hour) ≡ 200
unfolding health
health-before = refl

health-near_expiry : health expiry (9 * hour) ≡ 503
unfolding health
health-near_expiry = refl

-- The exchange that mints a key for the tags.
abbrev exchange : Post → Result Answer
exchange post = ok (record {
  status = 200;
  decoded = true;
  token = codes "t";
  key = codes "k";
  expires = 20 * hour;
})

minted_key :
    auth_key exchange (λ d. d) (5 * hour) flags [] (codes "id") (codes "secret") expiry
    ≡ ok (codes "k", record expiry { expires = 20 * hour })
unfolding auth_key
minted_key = refl

no_secret : auth_key exchange (λ d. d) (5 * hour) flags [] (codes "id") [] expiry ≡ err other
unfolding auth_key
no_secret = refl

cached_half_hour : jwks_of flags [] (codes "GET") ≡ key_set 1800 []
unfolding jwks_of
cached_half_hour = refl

posted : jwks_of flags [] (codes "POST") ≡ not_allowed
unfolding jwks_of
posted = refl
