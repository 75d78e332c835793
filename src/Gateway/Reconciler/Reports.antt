-- ===== src/Gateway/Reconciler/Reports.antt =====
-- What the status of a Gateway reports, and what an apply keeps of a StatefulSet: gateway/reconcile.go.
use tsjwt.Gateway.Provision.Workload.Wiring.{stateful_set-hostname}
use tsjwt.Gateway.Reconciler.{GatewayObject, condition_at, gateway_status}
use tsjwt.Gateway.Provision.Workload.{StatefulSet, stateful_set}
use tsjwt.Gateway.Provision.{Config, declared_hostname, hostname, hostname_arg}
use tsjwt.Errors.{ok}
use tsjwt.Prelude.{
  decimal, ◌==◌, Bool-cases, some-injective, Text, codes, text_eq_refl, text_eq, ◌≡◌, refl, sym, ap,
  ◌∙◌, ◌↔◌, inl, inr, false, Option, none, some, List, ltb, if◌then◌else◌, ltb→lt, length,
  length-append, In, ℕ, ◌<◌, subst, ◌≢◌, Bool, true, [], ◌∷◌, ◌++◌, arith,
}
use tsjwt.GoTime.{Instant, Duration}
use tsjwt.Gateway.Status.{Condition, set_condition}
use tsjwt.Gateway.Status.Conditions.{find_condition, stamped, in_place_of, set_condition-find}
use tsjwt.Verifier.Remote.{zero_time}

-- The status of the condition of the type is "True".
abbrev pub IsTrue : Text → List Condition → Type 0
IsTrue t ds = (c : Condition) × (find_condition t ds ≡ some c) × (c.status ≡ codes "True")

put-True_iff :
    (o : Option Condition) (now : Instant) (c : Condition)
    → ((in_place_of o (stamped now c)).status ≡ codes "True") ↔ (c.status ≡ codes "True")
put-True_iff o now c = elim (Bool-cases (c.transition == zero_time)) [
  | inl unset ↦ rw unset (placed o (record c { transition = now }))
  | inr timed ↦ rw timed (placed o c)
]
  where
    placed :
        (o : Option Condition) (d : Condition)
        → ((in_place_of o d).status ≡ codes "True") ↔ (d.status ≡ codes "True")
    placed none d = (λ h. h, λ h. h)
    placed (some e) d = elim (Bool-cases (text_eq e.status d.status)) [
      | inl same ↦ rw same (λ h. h, λ h. h)
      | inr changed ↦ rw changed (λ h. h, λ h. h)
    ]

set_condition-True_iff :
    (now : Instant) (ds : List Condition) (c : Condition)
    → IsTrue c.type (set_condition now ds c) ↔ (c.status ≡ codes "True")
set_condition-True_iff now ds c =
    let found : find_condition c.type (set_condition now ds c)
        ≡ some (in_place_of (find_condition c.type ds) (stamped now c)) =
      set_condition-find now ds c c.type ∙ rw (text_eq_refl c.type) refl in
    let put = put-True_iff (find_condition c.type ds) now c in
    (
      λ t.
          let (d, at, is_true) = t in
          let same = some-injective (sym found ∙ at) in
          put.0 (ap (λ (x : Condition). x.status) same ∙ is_true),
      λ s. (_, found, put.1 s),
    )

set_condition-other :
    (now : Instant) (ds : List Condition) (c : Condition) (t : Text)
    → text_eq c.type t ≡ false
    → find_condition t (set_condition now ds c) ≡ find_condition t ds
set_condition-other now ds c t apart = set_condition-find now ds c t ∙ rw apart refl

true_if : (b : Bool) → ((if b then codes "True" else codes "False") ≡ codes "True") ↔ (b ≡ true)
true_if true = (λ h. refl, λ h. refl)
true_if false = (λ h. absurd (cc h), λ h. absurd (cc h))

-- A Gateway that the reconciler reports on is accepted; it is programmed exactly if a replica of its data plane is
-- ready, and then its address is its hostname.
pub gateway_status-Reports :
    (now : Instant) (g : GatewayObject) (ready count : ℕ)
    → IsTrue (codes "Accepted") (gateway_status now g ready count).conditions
      × (IsTrue (codes "Programmed") (gateway_status now g ready count).conditions ↔ (0 < ready))
      × (0 < ready → (gateway_status now g ready count).addresses ≡ hostname g.gateway ∷ [])
unfolding gateway_status
gateway_status-Reports now g ready count =
    let accepted =
      condition_at (codes "Accepted") true g.generation (codes "Accepted")
        (codes "accepted by tsjwt") in
    let (a, found, is_true) = (set_condition-True_iff now g.conditions accepted).1 refl in
    let reported =
      condition_at (codes "Programmed") (ltb 0 ready) g.generation
        (if ltb 0 ready then codes "Programmed" else codes "Pending")
        (if ltb 0 ready
          then decimal ready
            ++ (codes " replica(s) ready, serving " ++ (decimal count ++ codes " route(s)"))
          else codes "the data plane is not ready yet") in
    let programmed =
      set_condition-True_iff now (set_condition now g.conditions accepted) reported in
    let flag = true_if (ltb 0 ready) in
    (
      (
        a,
        set_condition-other now (set_condition now g.conditions accepted) reported
              (codes "Accepted") (unfold text_eq in refl)
            ∙ found,
        is_true,
      ),
      (λ t. ltb→lt 0 ready (flag.0 (programmed.0 t)), λ h. programmed.1 (flag.1 (ground arith))),
      λ h. let up : ltb 0 ready ≡ true = ground arith in rw up refl,
    )

-- The first pod of a StatefulSet.
abbrev pub first_pod : StatefulSet → Text
first_pod s = s.meta.name ++ codes "-0"

wrapped_differs : (p a b : Text) → 0 < length p → ((p ++ a) ++ b) ≢ a
wrapped_differs p a b long same =
    let whole = sym (length-append {0} (p ++ a) b) ∙ ap length same in
    let inner = length-append {0} p a in omega arith

-- A Gateway whose listeners declare no name for the node is reported at its own name, while its data plane, told
-- to take its pod's name, takes another one.
pub gateway_status-undeclared :
    (parse_duration : Text → Option Duration) (now : Instant) (g : GatewayObject) (ready count : ℕ)
    (cfg : Config) (tenants : Text) (s : StatefulSet)
    → declared_hostname g.gateway ≡ none
    → 0 < ready
    → stateful_set parse_duration g.gateway cfg tenants ≡ ok s
    → ((gateway_status now g ready count).addresses ≡ g.gateway.name ∷ [])
      × In (codes "-hostname=$(POD_NAME)") s.container.args
      × (first_pod s ≢ g.gateway.name)
unfolding hostname hostname_arg
gateway_status-undeclared parse_duration now g ready count cfg tenants s none_declared up e =
    let (accepted, programmed, address) = gateway_status-Reports now g ready count in
    let own : hostname_arg g.gateway ≡ codes "-hostname=$(POD_NAME)" = rw none_declared refl in
    let (named, told) = stateful_set-hostname parse_duration g.gateway cfg tenants s e in
    (
      address up ∙ rw none_declared refl,
      subst (λ (arg : Text). In arg s.container.args) own told,
      λ same.
          wrapped_differs (codes "tsjwt-") g.gateway.name (codes "-0") (ground arith)
            (ap (λ n. n ++ codes "-0") (sym named) ∙ same),
    )
