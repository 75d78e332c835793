-- ===== src/Gateway/Reconciler/Rounds.antt =====
-- The rounds of the reconcilers of gateway/reconcile.go. The client's calls are arguments that act on a world: a
-- read gives `none` where the object is not there, and an apply is CreateOrUpdate with the owner reference.
-- The text that json.MarshalIndent makes of a route file is an argument too. A nil upstream in the table, at which
-- Render panics, ends the round with an error.
pub mod Wanted
pub mod Chain
pub mod Provisioning
pub mod Serving
pub mod Applied
use tsjwt.Prelude.{
  if◌then◌else◌, length, Text, text_eq, ℕ, Option, none, some, List, [], ◌∷◌, ◌++◌, map,
}
use tsjwt.Errors.{other, Result, err, ok}
use tsjwt.GoTime.{Instant, Duration}
use tsjwt.Gateway.{Gateway, Service}
use tsjwt.Gateway.Rules.{RouteError, translate}
use tsjwt.Gateway.Status.{RouteObject, controller_name, apply_route_status}
use tsjwt.Gateway.Provision.{Config}
use tsjwt.Gateway.Provision.Workload.{StatefulSet, stateful_set}
use tsjwt.Gateway.Reconciler.{
  GatewayObject, ClassObject, accept_class, gateway_status, Step, first_steps, workload_step,
  routes,
}
use tsjwt.RouteTable.{RouteFile, render}

abbrev pub if_found :
    {W A : Type 0}
    → Result (Option A) × W
    → Result (Unit {0}) × W
    → (A → Result (Unit {0}) × W)
    → Result (Unit {0}) × W
if_found (err e, w) absent next = (err e, w)
if_found (ok none, w) absent next = absent
if_found (ok (some a), w) absent next = next a

-- A read that another step follows, and one after which IgnoreNotFound ends the round.
abbrev pub if_read :
    {W A : Type 0}
    → Result A × W
    → (A → W → Result (Unit {0}) × W × List Step)
    → Result (Unit {0}) × W × List Step
if_read (err e, w) next = (err e, w, [])
if_read (ok a, w) next = next a w

abbrev pub if_there :
    {W A : Type 0}
    → Result (Option A) × W
    → (A → W → Result (Unit {0}) × W × List Step)
    → Result (Unit {0}) × W × List Step
if_there (err e, w) next = (err e, w, [])
if_there (ok none, w) next = (ok tt, w, [])
if_there (ok (some a), w) next = next a w

-- The client, over a world of type W. An update of a route's status that fails is only logged, so it gives no
-- result; CreateOrUpdate gives the ready replicas of the object that it read or wrote.
pub record Client (W : Type 0) : Type 0 where
  pub get_gateway : W → Text → Text → Result (Option GatewayObject) × W
  pub get_class : W → Text → Result (Option ClassObject) × W
  pub list_routes : W → Result (List RouteObject) × W
  pub list_services : W → Result (List Service) × W
  pub create_or_update : W → Gateway → Step → Result ℕ × W
  pub update_route : W → RouteObject → W
  pub update_gateway : W → GatewayObject → Result (Unit {0}) × W
  pub update_class : W → ClassObject → Result (Unit {0}) × W

module _ {W : Type 0} (client : Client W) where
  -- GatewayClassReconciler.Reconcile
  unfoldable pub reconcile_class : Instant → Text → W → Result (Unit {0}) × W
  unfolding text_eq accept_class
  reconcile_class now name w =
      let got = client.get_class w name in
      if_found got (ok tt, got.1)
        (λ gc.
          if text_eq gc.controller controller_name
          then client.update_class got.1 (accept_class now gc)
          else (ok tt, got.1))

  pub update_all : List RouteObject → W → W
  update_all [] w = w
  update_all (r ∷ rs) w = update_all rs (client.update_route w r)

  -- What was applied is the last part; an apply that fails ends it.
  after_apply : Step → Result ℕ × W → (ℕ → W → Result ℕ × W × List Step) → Result ℕ × W × List Step
  after_apply step (err e, w) next = (err e, w, [])
  after_apply step (ok n, w) next = let (r, w', done) = next n w in (r, w', step ∷ done)

  -- The calls of apply, one after another, with the ready replicas that the last one gave.
  pub apply_steps : Gateway → ℕ → List Step → W → Result ℕ × W × List Step
  unfolding after_apply
  apply_steps gw ready [] w = (ok ready, w, [])
  apply_steps gw ready (s ∷ ss) w =
      after_apply s (client.create_or_update w gw s) (λ n v. apply_steps gw n ss v)

  module _ (parse_url : Text → Option Text) (parse_duration : Text → Option Duration)
      (detail : RouteError → Text) (render_text : RouteFile → Text) (now : Instant) (cfg : Config)
      (tenants : Text) where
    -- The status, once the StatefulSet is applied.
    finish :
        GatewayObject → ℕ → Result ℕ × W × List Step → List Step → Result (Unit {0}) × W × List Step
    unfolding gateway_status
    finish g count (err e, w, last) done = (err e, w, done ++ last)
    finish g count (ok ready, w, last) done =
        let (r, w') = client.update_gateway w (gateway_status now g ready count) in
        (r, w', done ++ last)

    -- The end of Reconcile, from the StatefulSet on.
    pub with_workload :
        GatewayObject
        → ℕ
        → Result StatefulSet
        → Result ℕ × W × List Step
        → Result (Unit {0}) × W × List Step
    unfolding finish apply_steps
    with_workload g count want (err e, w, done) = (err e, w, done)
    with_workload g count (err e) (ok n, w, done) = (err e, w, done)
    with_workload g count (ok want) (ok n, w, done) =
        finish g count (apply_steps g.gateway 0 (workload_step want ∷ []) w) done

    with_file : GatewayObject → ℕ → Option RouteFile → W → Result (Unit {0}) × W × List Step
    unfolding with_workload stateful_set first_steps apply_steps
    with_file g count none w = (err other, w, [])
    with_file g count (some file) w =
        with_workload g count (stateful_set parse_duration g.gateway cfg tenants)
          (apply_steps g.gateway 0 (first_steps g.gateway (render_text file)) w)

    -- Reconcile, with what render has listed.
    pub with_table :
        GatewayObject → List RouteObject → List Service → W → Result (Unit {0}) × W × List Step
    unfolding with_file update_all translate apply_route_status render
    with_table g objects services w =
        let table =
          translate parse_url g.gateway (map (λ (r : RouteObject). r.route) objects) services in
        with_file g (length table.routes)
          (render (g.gateway.namespace ++ (b'/' ∷ g.gateway.name)) g.generation table.routes)
          (update_all (apply_route_status detail now g.gateway objects table.errors).1 w)

    -- GatewayReconciler.Reconcile, for the namespace and the name of a Gateway.
    unfoldable pub reconcile : Text → Text → W → Result (Unit {0}) × W × List Step
    unfolding with_table text_eq
    reconcile namespace name w = if_there (client.get_gateway w namespace name) (λ g w1.
        if_there (client.get_class w1 g.class_name) (λ gc w2.
          let ours = if_read (client.list_routes w2) (λ objects w3.
            if_read (client.list_services w3) (λ services w4. with_table g objects services w4)) in
          if text_eq gc.controller controller_name then ours else (ok tt, w2, [])))
