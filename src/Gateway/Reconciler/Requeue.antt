-- ===== src/Gateway/Reconciler/Requeue.antt =====
-- The requeues and the mutations of gateway/reconcile.go.
use tsjwt.Prelude.{
  Bool-cases, In, Text, text_eq_iff, text_eq, ◌≡◌, inl, inr, true, ◌&&◌, List, [], ◌∷◌, arith,
}
use tsjwt.Gateway.{Gateway, ParentRef, HttpRoute}
use tsjwt.Gateway.Hostnames.{is_gateway_kind, or_text, attached_loop, attached_to}
use tsjwt.Gateway.Reconciler.{parent_requests, route_to_gateways}

attached_loop-In :
    (gw : Gateway) (r : HttpRoute) (ps : List ParentRef)
    → attached_loop gw r ps ≡ true
    → In (gw.namespace, gw.name) (parent_requests r ps)
unfolding attached_loop parent_requests
attached_loop-In gw r [] h = absurd (cc h)
attached_loop-In gw r (p ∷ ps) h = elim (Bool-cases (is_gateway_kind p.kind)) [
  | inr other_kind ↦ rw other_kind (attached_loop-In gw r ps (rw other_kind at h))
  | inl of_kind ↦
      rw of_kind
        (elim (Bool-cases
          (text_eq p.name gw.name && text_eq (or_text p.namespace r.namespace) gw.namespace)) [
            | inl names ↦ inl (named p names)
            | inr apart ↦ inr (attached_loop-In gw r ps (rw (of_kind, apart) at h))
          ])
]
  where
    named :
        (p : ParentRef)
        → text_eq p.name gw.name && text_eq (or_text p.namespace r.namespace) gw.namespace ≡ true
        → ◌≡◌ {A = Text × Text} (or_text p.namespace r.namespace, p.name) (gw.namespace, gw.name)
    named p h = ground (
      arith,
      text_eq_iff p.name gw.name,
      text_eq_iff (or_text p.namespace r.namespace) gw.namespace,
    )

-- A change of a route requeues each Gateway that it is attached to, so the table of the Gateway is rendered
-- again.
pub attached_to-Requeued :
    (gw : Gateway) (r : HttpRoute)
    → attached_to gw r ≡ true
    → In (gw.namespace, gw.name) (route_to_gateways r)
unfolding attached_to route_to_gateways
attached_to-Requeued gw r h = attached_loop-In gw r r.parents h
