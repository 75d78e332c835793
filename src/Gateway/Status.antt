-- ===== src/Gateway/Status.antt =====
-- The conditions that gateway/reconcile.go keeps on the status of Gateways and HTTPRoutes, with the Accepted
-- condition of gateway/routes.go. The clock and the Detail of a RouteError are arguments.
pub mod Settles
pub mod Conditions
pub mod Concerns
pub mod Accepted
mod Tests
use tsjwt.Prelude.{
  ◌==◌, if◌then◌else◌, Text, codes, text_eq, has_prefix, ℤ, eqb_ℤ, Bool, true, false, not, ◌&&◌,
  ◌||◌, Option, none, some, List, [], ◌∷◌, ◌++◌,
}
use tsjwt.GoTime.{Instant}
use tsjwt.Gateway.{Gateway, ParentRef, HttpRoute}
use tsjwt.Gateway.Hostnames.{attached_to}
use tsjwt.Gateway.Rules.{
  Reason, backend_not_found, unsupported_value, invalid_kind, ref_not_permitted,
  no_matching_hostname, accepted_reason, RouteError, route_key,
}
use tsjwt.Verifier.Remote.{zero_time}

-- A metav1.Condition.
pub record Condition : Type 0 where
  pub type : Text
  pub status : Text
  pub generation : ℤ
  pub transition : Instant
  pub reason : Text
  pub message : Text

-- setCondition, after its time is set: the first condition of the type is replaced, and a new one goes last.
replace_condition : List Condition → Condition → List Condition
unfolding text_eq
replace_condition [] c = c ∷ []
replace_condition (d ∷ ds) c =
    if text_eq d.type c.type
    then (if text_eq d.status c.status then record c { transition = d.transition } else c) ∷ ds
    else d ∷ replace_condition ds c

-- setCondition
unfoldable pub set_condition : Instant → List Condition → Condition → List Condition
unfolding replace_condition
set_condition now conds c =
    replace_condition conds (if c.transition == zero_time then record c { transition = now } else c)

-- A RouteParentStatus.
pub record ParentStatus : Type 0 where
  pub parent : ParentRef
  pub controller : Text
  pub conditions : List Condition

-- An HTTPRoute with the parts of its object that the status needs.
pub record RouteObject : Type 0 where
  pub route : HttpRoute
  pub generation : ℤ
  pub parents : List ParentStatus

abbrev pub controller_name : Text
controller_name = codes "tsjwt.dev/gateway-controller"

optional_eq : Option Text → Option Text → Bool
unfolding text_eq
optional_eq none none = true
optional_eq none (some b) = false
optional_eq (some a) none = false
optional_eq (some a) (some b) = text_eq a b

-- parentRefEqual
pub parent_ref_equal : ParentRef → ParentRef → Bool
unfolding optional_eq text_eq
parent_ref_equal a b = text_eq a.name b.name && optional_eq a.namespace b.namespace

-- parentRefToGateway, without its group.
abbrev pub parent_ref_to : Gateway → ParentRef
parent_ref_to gw = record {
  kind = some (codes "Gateway");
  namespace = some gw.namespace;
  name = gw.name;
}

-- The test of upsertRouteParentCondition on the first condition of the type.
same_condition : List Condition → Condition → Bool
unfolding text_eq
same_condition [] c = false
same_condition (d ∷ ds) c =
    if text_eq d.type c.type
    then text_eq d.status c.status
      && (text_eq d.reason c.reason
          && (text_eq d.message c.message && eqb_ℤ d.generation c.generation))
    else same_condition ds c

abbrev pub is_ours : ParentRef → ParentStatus → Bool
is_ours ref p = text_eq p.controller controller_name && parent_ref_equal p.parent ref

-- upsertRouteParentCondition: the parents' statuses, and whether anything changed.
unfoldable pub upsert_parent :
    Instant → List ParentStatus → ParentRef → Condition → List ParentStatus × Bool
unfolding text_eq parent_ref_equal same_condition set_condition
upsert_parent now [] ref c =
    (record { parent = ref; controller = controller_name; conditions = c ∷ [] } ∷ [], true)
upsert_parent now (p ∷ ps) ref c =
    let rest = upsert_parent now ps ref c in
    if is_ours ref p
    then (if same_condition p.conditions c
        then (p ∷ ps, false)
        else (record p { conditions = set_condition now p.conditions c } ∷ ps, true))
    else (p ∷ rest.0, rest.1)

abbrev pub reason_text : Reason → Text
reason_text backend_not_found = codes "BackendNotFound"
reason_text unsupported_value = codes "UnsupportedValue"
reason_text invalid_kind = codes "InvalidKind"
reason_text ref_not_permitted = codes "RefNotPermitted"
reason_text no_matching_hostname = codes "NoMatchingListenerHostname"
reason_text accepted_reason = codes "Accepted"

-- The error is the route's own, or one of its rules'.
abbrev pub concerns : HttpRoute → RouteError → Bool
concerns r e = text_eq e.route (route_key r) || has_prefix e.route (route_key r ++ codes "#")

-- The loop of routeAcceptedCondition: the first error that concerns the route.
pub first_error : HttpRoute → List RouteError → Option RouteError
unfolding text_eq has_prefix
first_error r [] = none
first_error r (e ∷ es) = if concerns r e then some e else first_error r es

-- routeStatusCondition
abbrev pub status_condition : Instant → ℤ → Bool → Reason → Text → Condition
status_condition now generation accepted reason message = record {
  type = codes "Accepted";
  status = if accepted then codes "True" else codes "False";
  generation = generation;
  transition = now;
  reason = reason_text reason;
  message = message;
}

module _ (detail : RouteError → Text) where
  condition_for : Instant → ℤ → Option RouteError → Condition
  condition_for now generation none =
      status_condition now generation true accepted_reason (codes "accepted by tsjwt")
  condition_for now generation (some e) = status_condition now generation false e.reason (detail e)

  -- routeAcceptedCondition
  unfoldable pub accepted_condition : Instant → RouteObject → List RouteError → Condition
  unfolding condition_for first_error
  accepted_condition now r errs = condition_for now r.generation (first_error r.route errs)

  -- One round of applyRouteStatus: the route, and whether its status is to be written.
  unfoldable pub route_round :
      Instant → Gateway → List RouteError → RouteObject → RouteObject × Bool
  unfolding upsert_parent accepted_condition attached_to
  route_round now gw errs r =
      if attached_to gw r.route
      then (let (parents, changed) =
            upsert_parent now r.parents (parent_ref_to gw) (accepted_condition now r errs) in
          (record r { parents = parents }, changed))
      else (r, false)

  -- applyRouteStatus: the routes, and the updates that it sends, in their order. An update that fails is only
  -- logged.
  unfoldable pub apply_route_status :
      Instant → Gateway → List RouteObject → List RouteError → List RouteObject × List RouteObject
  unfolding route_round
  apply_route_status now gw [] errs = ([], [])
  apply_route_status now gw (r ∷ rs) errs =
      let (routes, updates) = apply_route_status now gw rs errs in
      let (r', changed) = route_round now gw errs r in
      (r' ∷ routes, if changed then r' ∷ updates else updates)
