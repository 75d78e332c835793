-- ===== src/Gateway/Provision/Samples.antt =====
-- A sample configuration of the controller of gateway/provision.go.
use tsjwt.Gateway.{Gateway}
use tsjwt.GoTime.{Duration, second}
use tsjwt.Prelude.{Text, codes, pos, ◌*◌, true, Option, some, [], ◌∷◌}
use tsjwt.Gateway.Provision.{Config}
use tsjwt.Gateway.Rules.Samples.{gateway}

abbrev pub config : Config
config = record {
  image = codes "tsjwt:1";
  service_account = codes "runner";
  tag = codes "tag:jwt";
  credential_secret = codes "oauth";
  capability = [];
  jwks_over_tls = true;
  storage_class = [];
  zone = [];
}

-- Each duration that is asked for is ten seconds.
abbrev pub ten_seconds : Text → Option Duration
ten_seconds t = some (pos (10 * second))

-- A Gateway whose listeners declare no name.
abbrev pub nameless : Gateway
nameless = record gateway {
  listeners = [];
  annotations = (codes "tsjwt.dev/backend-wait-timeout", codes "10s") ∷ [];
}

abbrev pub tenants : Text
tenants = codes "tenants"
