-- ===== src/Gateway/Provision/Workload/Tests.antt =====
-- Runs of StatefulSet of gateway/provision.go, and its theorem at a sample.
use tsjwt.Errors.{other, err, ok}
use tsjwt.Prelude.{text_eq, lookup, ◌≡◌, refl, [], codes, ◌∷◌}
use tsjwt.Gateway.Provision.{declared_hostname, hostname, hostname_arg}
use tsjwt.Gateway.Provision.Workload.{StatefulSet, container_args, stateful_set}
use tsjwt.Gateway.Provision.Workload.Flags.{IsDeployable}
use tsjwt.Gateway.Provision.Workload.Wiring.{IsWired, stateful_set_iff}
use tsjwt.Gateway.Provision.Samples.{config, ten_seconds, nameless, tenants}

workload_flags :
    container_args nameless config
    ≡ codes "-gateway=edge/gw"
      ∷ codes "-hostname=$(POD_NAME)"
      ∷ codes "-routes=/etc/tsjwt/routes.json"
      ∷ codes "-state-dir=/var/lib/tsjwt"
      ∷ codes "-tenants=/etc/tsjwt-tenants/tenants.json"
      ∷ codes "-issuer=https://gw"
      ∷ codes "-listen=:443"
      ∷ codes "-jwks-listen=0.0.0.0:9100"
      ∷ codes "-key-tags=tag:jwt"
      ∷ codes "-share-keys=tsjwt-gw-keys"
      ∷ codes "-backend-wait-timeout=10s"
      ∷ codes "-jwks-tls"
      ∷ []
unfolding container_args hostname hostname_arg lookup text_eq declared_hostname
workload_flags = refl

no_image : stateful_set ten_seconds nameless (record config { image = [] }) tenants ≡ err other
unfolding stateful_set text_eq
no_image = refl

stateful_set_iff_example :
    (IsDeployable ten_seconds nameless config
      → (s : StatefulSet) × (stateful_set ten_seconds nameless config tenants ≡ ok s))
    × ((s : StatefulSet)
        → stateful_set ten_seconds nameless config tenants ≡ ok s
        → IsDeployable ten_seconds nameless config × IsWired nameless s)
stateful_set_iff_example = stateful_set_iff ten_seconds nameless config tenants
