-- ===== src/Gateway/Status/Tests.antt =====
-- Runs of the status conditions of gateway/reconcile.go, and the theorems on them at a sample.
use tsjwt.Prelude.{Text, codes, text_eq, has_prefix, pos, ◌≡◌, refl, List, [], ◌∷◌}
use tsjwt.GoTime.{Instant}
use tsjwt.Gateway.Hostnames.{listener_admits, admitting_listeners, attached_to}
use tsjwt.Gateway.Rules.{backend_not_found, RouteError}
use tsjwt.Gateway.Rules.Samples.{gateway, http_route}
use tsjwt.Gateway.Status.{
  Condition, set_condition, RouteObject, controller_name, parent_ref_to, upsert_parent,
  accepted_condition, apply_route_status,
}
use tsjwt.Gateway.Status.Settles.{apply_route_status-settles}

abbrev explain : RouteError → Text
explain e = codes "no such backend"

abbrev object : RouteObject
object = record { route = http_route; generation = pos 3; parents = [] }

-- The route's second rule names a backend that is not there.
abbrev errors : List RouteError
errors = record { route = codes "shop/r#1"; reason = backend_not_found } ∷ []

abbrev refused_condition : Instant → Condition
refused_condition now = record {
  type = codes "Accepted";
  status = codes "False";
  generation = pos 3;
  transition = now;
  reason = codes "BackendNotFound";
  message = codes "no such backend";
}

refused_route : accepted_condition explain 7 object errors ≡ refused_condition 7
unfolding accepted_condition text_eq has_prefix
refused_route = refl

-- A change of the reason alone keeps the time of the last transition.
kept_time :
    set_condition 9 (refused_condition 7 ∷ []) (record (refused_condition 9) { reason = codes "X" })
    ≡ record (refused_condition 7) { reason = codes "X" } ∷ []
unfolding set_condition text_eq
kept_time = refl

abbrev object_after : RouteObject
object_after = record object {
  parents =
      record {
        parent = parent_ref_to gateway;
        controller = controller_name;
        conditions = refused_condition 7 ∷ [];
      }
      ∷ [];
}

first_round :
    apply_route_status explain 7 gateway (object ∷ []) errors
    ≡ (object_after ∷ [], object_after ∷ [])
unfolding apply_route_status attached_to admitting_listeners listener_admits upsert_parent text_eq
    accepted_condition has_prefix
first_round = refl

apply_route_status-settles_example :
    apply_route_status explain 9 gateway
      (apply_route_status explain 7 gateway (object ∷ []) errors).0
      errors
    ≡ ((apply_route_status explain 7 gateway (object ∷ []) errors).0, [])
apply_route_status-settles_example =
    apply_route_status-settles explain 7 9 gateway errors (object ∷ [])
