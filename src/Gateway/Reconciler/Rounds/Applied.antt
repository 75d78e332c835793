-- ===== src/Gateway/Reconciler/Rounds/Applied.antt =====
-- For which Gateways a round of the reconciler applies something, and what:
-- gateway/reconcile.go.
use tsjwt.Gateway.Reconciler.Rounds.Serving.{Provisions}
use tsjwt.Gateway.Status.{controller_name}
use tsjwt.Prelude.{Text, ◌≡◌, Option, List, [], ◌⊎◌, some, if◌then◌else◌, text_eq}
use tsjwt.Errors.{Result, ok}
use tsjwt.GoTime.{Instant, Duration}
use tsjwt.Gateway.Rules.{RouteError}
use tsjwt.Gateway.Provision.{Config}
use tsjwt.Gateway.Reconciler.{GatewayObject, Step, ClassObject}
use tsjwt.Gateway.Reconciler.Rounds.{Client, if_read, with_table, reconcile}
use tsjwt.RouteTable.{RouteFile}

module _ {W : Type 0} (client : Client W) where
  module _ (parse_url : Text → Option Text) (parse_duration : Text → Option Duration)
      (detail : RouteError → Text) (render_text : RouteFile → Text) (now : Instant) (cfg : Config)
      (tenants : Text) where
    -- The Gateway is there, and its class names this controller; the second world is the one after both reads.
    abbrev pub IsOurs : Text → Text → W → GatewayObject → W → Type 0
    IsOurs namespace name w g w2 =
        (w1 : W) × (client.get_gateway w namespace name ≡ (ok (some g), w1))
        × (gc : ClassObject) × (client.get_class w1 g.class_name ≡ (ok (some gc), w2))
        × (gc.controller ≡ controller_name)

    -- The round of Reconcile for the namespace and the name.
    abbrev pub round : Text → Text → W → Result (Unit {0}) × W × List Step
    round = reconcile client parse_url parse_duration detail render_text now cfg tenants

    -- The end of the round, once the class is there and ours.
    abbrev served : GatewayObject → W → Result (Unit {0}) × W × List Step
    served g w = if_read (client.list_routes w) (λ objects w3.
        if_read (client.list_services w3) (λ services w4.
          with_table client parse_url parse_duration detail render_text now cfg tenants g objects
            services w4))

    -- What the round comes to: nothing applied for a Gateway that is not ours, or the objects of one that is.
    abbrev pub Comes : Text → Text → W → Result (Unit {0}) × W × List Step → Type 0
    Comes namespace name w a =
        ((a.2 ≡ []) × ((g : GatewayObject) (w2 : W) → ¬ IsOurs namespace name w g w2))
        ⊎ ((g : GatewayObject) × (w2 : W) × IsOurs namespace name w g w2
            × Provisions client parse_url parse_duration detail render_text now cfg tenants g w2 a)

    -- The round once the class is there.
    abbrev class_round : GatewayObject → ClassObject → W → Result (Unit {0}) × W × List Step
    class_round g gc w2 =
        if text_eq gc.controller controller_name then served g w2 else (ok tt, w2, [])
