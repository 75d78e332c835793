-- ===== src/Gateway/Reconciler.antt =====
-- The objects of the reconcilers of gateway/reconcile.go: the statuses that they write, the mutations of what they
-- apply, and the requests that a change of a route makes.
mod Tests
pub mod Rounds
pub mod Requeue
pub mod Reports
use tsjwt.Gateway.Hostnames.{is_gateway_kind, or_text}
use tsjwt.Prelude.{
  ltb, if◌then◌else◌, Text, codes, decimal, ℤ, ℕ, Bool, true, not, Option, none, some, List, [],
  ◌∷◌, ◌++◌, ◌==◌, length, text_eq, false,
}
use tsjwt.Errors.{Result, err, ok}
use tsjwt.Verifier.Remote.{zero_time}
use tsjwt.GoTime.{Instant}
use tsjwt.Gateway.{Gateway, ParentRef, HttpRoute, Service}
use tsjwt.Gateway.Status.{Condition, set_condition, RouteObject, controller_name}
use tsjwt.Gateway.Provision.{
  hostname, Meta, ConfigMap, ServiceObject, Role, RoleBinding, labels, routes_config_map,
  service_object, service_account, keys_role, keys_role_binding,
}
use tsjwt.Gateway.Provision.Workload.{StatefulSet, Probe, over_tls}
use tsjwt.Routing.{Route}
use tsjwt.RouteTable.{RouteFile, render}

-- A Gateway's object: what the package reads of it, and the rest that its reconciler needs.
pub record GatewayObject : Type 0 where
  pub gateway : Gateway
  pub class_name : Text
  pub generation : ℤ
  pub conditions : List Condition
  pub addresses : List Text

pub record ClassObject : Type 0 where
  pub controller : Text
  pub generation : ℤ
  pub conditions : List Condition

-- What apply is called with, as the mutation leaves it.
pub data Provisioned : Type 0 where
  routes : ConfigMap → Provisioned
  account : Meta → Provisioned
  role : Role → Provisioned
  binding : RoleBinding → Provisioned
  service : ServiceObject → Provisioned
  workload : StatefulSet → Provisioned

-- A condition with a status of "True", which `accepted` says, at the generation of its object.
abbrev condition_at : Text → Bool → ℤ → Text → Text → Condition
condition_at type accepted generation reason message = record {
  type = type;
  status = if accepted then codes "True" else codes "False";
  generation = generation;
  transition = zero_time;
  reason = reason;
  message = message;
}

-- The class reconciler's condition
pub accept_class : Instant → ClassObject → ClassObject
unfolding set_condition
accept_class now gc = record gc {
  conditions = set_condition now gc.conditions (
      condition_at (codes "Accepted") true gc.generation (codes "Accepted")
        (codes "accepted by tsjwt"));
}

-- The Gateway's status, for the ready replicas of its data plane and the number of its routes.
unfoldable pub gateway_status : Instant → GatewayObject → ℕ → ℕ → GatewayObject
unfolding set_condition hostname decimal
gateway_status now g ready route_count =
    let is_ready = ltb 0 ready in
    let accepted = set_condition now g.conditions (
      condition_at (codes "Accepted") true g.generation (codes "Accepted")
        (codes "accepted by tsjwt")) in
    record g {
      conditions = set_condition now accepted (
          condition_at (codes "Programmed") is_ready g.generation
            (if is_ready then codes "Programmed" else codes "Pending")
            (if is_ready
              then decimal ready
                ++ (codes " replica(s) ready, serving "
                    ++ (decimal route_count ++ codes " route(s)"))
              else codes "the data plane is not ready yet"));
      addresses = if is_ready then hostname g.gateway ∷ [] else g.addresses;
    }

parent_requests : HttpRoute → List ParentRef → List (Text × Text)
unfolding is_gateway_kind
parent_requests r [] = []
parent_requests r (p ∷ ps) =
    let rest = parent_requests r ps in
    if is_gateway_kind p.kind then (or_text p.namespace r.namespace, p.name) ∷ rest else rest

-- routeToGateways of SetupWithManager: the Gateways, by namespace and name, that a change of the route requeues.
pub route_to_gateways : HttpRoute → List (Text × Text)
unfolding parent_requests
route_to_gateways r = parent_requests r r.parents

-- The mutations of Reconcile on the object that CreateOrUpdate found, or on the one that it creates.
pub set_routes_text : Text → Provisioned → Provisioned
set_routes_text rendered (routes cm) =
    routes (record cm { contents = (codes "routes.json", rendered) ∷ [] })
set_routes_text rendered o = o

pub set_rules : Gateway → Provisioned → Provisioned
unfolding keys_role
set_rules gw (role r) = role (record r { rules = (keys_role gw).rules })
set_rules gw o = o

pub set_binding : Gateway → Provisioned → Provisioned
unfolding keys_role_binding
set_binding gw (binding b) =
    binding
      (record b { role = (keys_role_binding gw).role; subjects = (keys_role_binding gw).subjects })
set_binding gw o = o

pub set_selector : Gateway → Provisioned → Provisioned
set_selector gw (service s) = service (record s { selector = labels gw })
set_selector gw o = o

-- The claim templates cannot be changed after the creation, so they are set only where there are none.
pub set_workload : StatefulSet → Provisioned → Provisioned
set_workload want (workload s) = workload (record want {
  meta = record s.meta { labels = want.meta.labels };
  claims = if length s.claims == 0 then want.claims else s.claims;
})
set_workload want o = o

pub unchanged : Provisioned → Provisioned
unchanged o = o

-- A StatefulSet with a name and a namespace alone.
abbrev blank_probe : Probe
blank_probe = record {
  path = [];
  port = [];
  over_tls = false;
  initial_delay = 0;
  period = 0;
  failures = 0;
}

abbrev pub blank_workload : StatefulSet → StatefulSet
blank_workload want = record {
  meta = record want.meta { labels = [] };
  service_name = [];
  replicas = 0;
  pod_management = [];
  selector = [];
  pod_labels = [];
  account = [];
  non_root = false;
  user = 0;
  group = 0;
  fs_group = 0;
  seccomp = [];
  container = record {
    name = [];
    image = [];
    command = [];
    args = [];
    env = [];
    ports = [];
    mounts = [];
    readiness = blank_probe;
    liveness = blank_probe;
    may_escalate = false;
    read_only_root = false;
    dropped = [];
    requests = [];
    limits = [];
  };
  volumes = [];
  claims = [];
  node_selector = [];
}

-- An object to apply, with its mutation.
pub record Step : Type 0 where
  pub object : Provisioned
  pub mutate : Provisioned → Provisioned

-- What Reconcile applies before the StatefulSet, in its order.
pub first_steps : Gateway → Text → List Step
unfolding routes_config_map service_account keys_role keys_role_binding service_object
first_steps gw rendered =
    record { object = routes (routes_config_map gw rendered); mutate = set_routes_text rendered }
    ∷ record { object = account (service_account gw); mutate = unchanged }
    ∷ record { object = role (keys_role gw); mutate = set_rules gw }
    ∷ record { object = binding (keys_role_binding gw); mutate = set_binding gw }
    ∷ record { object = service (service_object gw); mutate = set_selector gw }
    ∷ []

abbrev pub workload_step : StatefulSet → Step
workload_step want = record { object = workload (blank_workload want); mutate = set_workload want }
