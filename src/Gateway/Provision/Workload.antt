-- ===== src/Gateway/Provision/Workload.antt =====
-- The StatefulSet of gateway/provision.go. Constants of the pod's security and resources stand as the file sets
-- them.
mod Tests
pub mod Flags
pub mod Wiring
use tsjwt.Prelude.{
  Text, codes, text_eq, pos, ltb_ℤ, leb_ℤ, Dict, lookup, ℕ, ◌*◌, Bool, true, false, not, ◌&&◌, ◌||◌,
  Option, none, some, List, [], ◌∷◌, ◌++◌,
}
use tsjwt.Errors.{other, Result, ok, guard, ◌>>◌, ◌>>=◌}
use tsjwt.GoTime.{Duration, minute}
use tsjwt.Gateway.{Gateway, or_empty}
use tsjwt.Gateway.Provision.{
  Config, object_name, routes_name, keys_name, account_name, hostname, hostname_arg, labels, Meta,
  meta_of,
}

pub record Probe : Type 0 where
  pub path : Text
  pub port : Text
  pub over_tls : Bool
  pub initial_delay : ℕ
  pub period : ℕ
  pub failures : ℕ

pub data EnvSource : Type 0 where
  field_ref : Text → EnvSource
  secret_key : Text → Text → EnvSource

pub record Mount : Type 0 where
  pub volume : Text
  pub path : Text
  pub read_only : Bool

-- A volume from a ConfigMap.
pub record Volume : Type 0 where
  pub name : Text
  pub config_map : Text
  pub optional : Bool

pub record Container : Type 0 where
  pub name : Text
  pub image : Text
  pub command : Text
  pub args : List Text
  pub env : Dict EnvSource
  pub ports : List (Text × ℕ)
  pub mounts : List Mount
  pub readiness : Probe
  pub liveness : Probe
  pub may_escalate : Bool
  pub read_only_root : Bool
  pub dropped : List Text
  pub requests : Dict Text
  pub limits : Dict Text

pub record Claim : Type 0 where
  pub name : Text
  pub mode : Text
  pub storage : Text
  pub storage_class : Option Text

pub record StatefulSet : Type 0 where
  pub meta : Meta
  pub service_name : Text
  pub replicas : ℕ
  pub pod_management : Text
  pub selector : Dict Text
  pub pod_labels : Dict Text
  pub account : Text
  pub non_root : Bool
  pub user : ℕ
  pub group : ℕ
  pub fs_group : ℕ
  pub seccomp : Text
  pub container : Container
  pub volumes : List Volume
  pub claims : List Claim
  pub node_selector : Dict Text

abbrev pub wait_of : Gateway → Text
wait_of gw = or_empty (lookup (codes "tsjwt.dev/backend-wait-timeout") gw.annotations)

-- The key set is served over TLS.
abbrev pub over_tls : Gateway → Config → Bool
over_tls gw cfg =
    cfg.jwks_over_tls
    || text_eq (or_empty (lookup (codes "tsjwt.dev/jwks-tls") gw.annotations)) (codes "true")

abbrev pub is_wait : Option Duration → Bool
is_wait none = false
is_wait (some d) = ltb_ℤ (pos 0) d && leb_ℤ d (pos (2 * minute))

-- An argument that is given only under a test.
abbrev pub given_if : Bool → Text → List Text
given_if true arg = arg ∷ []
given_if false arg = []

-- The arguments of the container, with those that the end of StatefulSet appends.
pub container_args : Gateway → Config → List Text
unfolding text_eq hostname hostname_arg lookup
container_args gw cfg =
    (codes "-gateway=" ++ (gw.namespace ++ (b'/' ∷ gw.name)))
    ∷ hostname_arg gw
    ∷ codes "-routes=/etc/tsjwt/routes.json"
    ∷ codes "-state-dir=/var/lib/tsjwt"
    ∷ codes "-tenants=/etc/tsjwt-tenants/tenants.json"
    ∷ (codes "-issuer=https://" ++ hostname gw)
    ∷ codes "-listen=:443"
    ∷ codes "-jwks-listen=0.0.0.0:9100"
    ∷ (codes "-key-tags=" ++ cfg.tag)
    ∷ (codes "-share-keys=" ++ keys_name gw)
    ∷ (given_if (not (text_eq (wait_of gw) [])) (codes "-backend-wait-timeout=" ++ wait_of gw)
        ++ (given_if (over_tls gw cfg) (codes "-jwks-tls")
            ++ given_if (not (text_eq cfg.capability [])) (codes "-cap=" ++ cfg.capability)))

abbrev pub probe_of : Gateway → Config → Text → ℕ → ℕ → ℕ → Probe
probe_of gw cfg path initial period failures = record {
  path = path;
  port = codes "jwks";
  over_tls = over_tls gw cfg;
  initial_delay = initial;
  period = period;
  failures = failures;
}

abbrev mount : Text → Text → Bool → Mount
mount volume path read_only = record { volume = volume; path = path; read_only = read_only }

container_of : Gateway → Config → Container
unfolding container_args text_eq lookup
container_of gw cfg = record {
  name = codes "tsjwt";
  image = cfg.image;
  command = codes "/usr/local/bin/tsjwt-dataplane";
  args = container_args gw cfg;
  env =
      (codes "POD_NAME", field_ref (codes "metadata.name"))
      ∷ (codes "TS_OAUTH_CLIENT_ID", secret_key cfg.credential_secret (codes "TS_OAUTH_CLIENT_ID"))
      ∷ (
        codes "TS_OAUTH_CLIENT_SECRET",
        secret_key cfg.credential_secret (codes "TS_OAUTH_CLIENT_SECRET"),
      )
      ∷ [];
  ports = (codes "jwks", 9100) ∷ [];
  mounts =
      mount (codes "state") (codes "/var/lib/tsjwt") false
      ∷ mount (codes "routes") (codes "/etc/tsjwt") true
      ∷ mount (codes "tenants") (codes "/etc/tsjwt-tenants") true
      ∷ [];
  readiness = probe_of gw cfg (codes "/readyz") 0 5 24;
  liveness = probe_of gw cfg (codes "/healthz") 10 30 4;
  may_escalate = false;
  read_only_root = true;
  dropped = codes "ALL" ∷ [];
  requests = (codes "cpu", codes "10m") ∷ (codes "memory", codes "64Mi") ∷ [];
  limits = (codes "memory", codes "256Mi") ∷ [];
}

abbrev text_option : Text → Option Text
text_option [] = none
text_option (c ∷ t) = some (c ∷ t)

abbrev zone_selector : Text → Dict Text
zone_selector [] = []
zone_selector (c ∷ t) = (codes "topology.kubernetes.io/zone", c ∷ t) ∷ []

-- What StatefulSet builds once the checks have passed.
pub stateful_set_for : Gateway → Config → Text → StatefulSet
unfolding container_of
stateful_set_for gw cfg tenants = record {
  meta = meta_of gw (object_name gw);
  service_name = object_name gw;
  replicas = 1;
  pod_management = codes "Parallel";
  selector = labels gw;
  pod_labels = labels gw;
  account = account_name gw;
  non_root = true;
  user = 65532;
  group = 65532;
  fs_group = 65532;
  seccomp = codes "RuntimeDefault";
  container = container_of gw cfg;
  volumes =
      record { name = codes "routes"; config_map = routes_name gw; optional = true }
      ∷ record { name = codes "tenants"; config_map = tenants; optional = false }
      ∷ [];
  claims =
      record {
        name = codes "state";
        mode = codes "ReadWriteOnce";
        storage = codes "1Gi";
        storage_class = text_option cfg.storage_class;
      }
      ∷ [];
  node_selector = zone_selector cfg.zone;
}

module _ (parse_duration : Text → Option Duration) where
  -- The checks at the start of StatefulSet.
  pub workload_valid : Gateway → Config → Result (Unit {0})
  unfolding text_eq lookup
  workload_valid gw cfg = do
    guard (not (text_eq cfg.image [])) other
    guard (not (text_eq cfg.credential_secret [])) other
    guard (not (text_eq cfg.tag [])) other
    guard (text_eq (wait_of gw) [] || is_wait (parse_duration (wait_of gw))) other

  -- StatefulSet
  unfoldable pub stateful_set : Gateway → Config → Text → Result StatefulSet
  unfolding workload_valid stateful_set_for
  stateful_set gw cfg tenants = do workload_valid gw cfg; ok (stateful_set_for gw cfg tenants)
