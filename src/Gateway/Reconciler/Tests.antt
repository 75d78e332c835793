-- ===== src/Gateway/Reconciler/Tests.antt =====
-- Runs of the reconcilers of gateway/reconcile.go, and their theorems at a sample.
use tsjwt.Gateway.Provision.Workload.{stateful_set_for, stateful_set, StatefulSet, Claim}
use tsjwt.Prelude.{
  In, Text, codes, text_eq, pos, ℕ, suc, ◌≡◌, refl, true, none, some, [], ◌∷◌, length, lookup, zero,
  ◌≢◌, arith,
}
use tsjwt.Errors.{other, Result, err, ok}
use tsjwt.Gateway.Hostnames.{attached_to}
use tsjwt.Gateway.Rules.{RouteError}
use tsjwt.Gateway.Rules.Samples.{gateway, http_route, service, parse_sample}
use tsjwt.Gateway.Status.{controller_name}
use tsjwt.Gateway.Provision.{declared_hostname}
use tsjwt.Gateway.Provision.Samples.{config, ten_seconds, nameless, tenants}
use tsjwt.Gateway.Reconciler.{
  GatewayObject, ClassObject, gateway_status, workload, set_workload, blank_workload,
}
use tsjwt.Gateway.Reconciler.Rounds.{Client, reconcile}
use tsjwt.Gateway.Reconciler.Rounds.Applied.{round}
use tsjwt.Gateway.Reconciler.Reports.{first_pod, gateway_status-undeclared}
use tsjwt.RouteTable.{RouteFile}

abbrev object : GatewayObject
object = record {
  gateway = nameless;
  class_name = codes "tsjwt";
  generation = pos 1;
  conditions = [];
  addresses = [];
}

abbrev class : ClassObject
class = record { controller = controller_name; generation = pos 1; conditions = [] }

-- A cluster with one Gateway, its class, its route and its Service, where each apply finds one ready replica. Its
-- state is the number of applies that it still lets through, so that one beyond them fails.
apply_one : ℕ → Result ℕ × ℕ
apply_one zero = (err other, 0)
apply_one (suc n) = (ok 1, n)

abbrev client : Client ℕ
client = record {
  get_gateway = λ w namespace name. (ok (some object), w);
  get_class = λ w name. (ok (some class), w);
  list_routes = λ w. (ok (record { route = http_route; generation = pos 1; parents = [] } ∷ []), w);
  list_services = λ w. (ok (service ∷ []), w);
  create_or_update = λ w gw step. apply_one w;
  update_route = λ w r. w;
  update_gateway = λ w g. (ok tt, w);
  update_class = λ w gc. (ok tt, w);
}

abbrev explain : RouteError → Text
explain e = codes "refused"

abbrev rendered : RouteFile → Text
rendered f = codes "{}"

-- A round succeeds if each apply does, and ends with the fourth apply where that one fails.
round_succeeds :
    (round client parse_sample ten_seconds explain rendered 5 config tenants
      (codes "edge")
      (codes "gw")
      6).0
    ≡ ok tt
unfolding reconcile stateful_set text_eq lookup apply_one
round_succeeds = refl

round_fails :
    let r =
      round client parse_sample ten_seconds explain rendered 5 config tenants
        (codes "edge")
        (codes "gw")
        3 in
    (r.0 ≡ err other) × (length r.2 ≡ 3)
unfolding reconcile stateful_set text_eq lookup apply_one
round_fails = (refl, refl)

attached : attached_to gateway http_route ≡ true
unfolding attached_to text_eq
attached = refl

no_name : declared_hostname nameless ≡ none
unfolding declared_hostname
no_name = refl

deployed :
    stateful_set ten_seconds nameless config tenants ≡ ok (stateful_set_for nameless config tenants)
unfolding stateful_set text_eq lookup
deployed = refl

gateway_status-undeclared_example :
    ((gateway_status 5 object 1 2).addresses ≡ codes "gw" ∷ [])
    × In (codes "-hostname=$(POD_NAME)") (stateful_set_for nameless config tenants).container.args
    × (first_pod (stateful_set_for nameless config tenants) ≢ codes "gw")
gateway_status-undeclared_example =
    gateway_status-undeclared ten_seconds 5 object 1 2 config tenants
      (stateful_set_for nameless config tenants) no_name (ground arith) deployed

-- A StatefulSet that is there keeps its claim templates, and takes the rest.
abbrev wanted : StatefulSet
wanted = stateful_set_for nameless config tenants

abbrev claim : Claim
claim = record {
  name = codes "state";
  mode = codes "ReadWriteOnce";
  storage = codes "2Gi";
  storage_class = none;
}

claims_kept :
    set_workload wanted (workload (record (blank_workload wanted) { claims = claim ∷ [] }))
    ≡ workload (record wanted { claims = claim ∷ [] })
unfolding set_workload
claims_kept = refl

claims_created : set_workload wanted (workload (blank_workload wanted)) ≡ workload wanted
unfolding set_workload
claims_created = refl
