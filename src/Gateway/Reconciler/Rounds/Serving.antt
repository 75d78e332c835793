-- ===== src/Gateway/Reconciler/Rounds/Serving.antt =====
-- What Reconcile of gateway/reconcile.go reads, renders and applies once the class is read.
use tsjwt.Gateway.{Service}
use tsjwt.Gateway.Status.{RouteObject, apply_route_status}
use tsjwt.Gateway.Rules.{RouteError, translate}
use tsjwt.Gateway.Provision.{Config}
use tsjwt.Gateway.Provision.Workload.{stateful_set}
use tsjwt.Gateway.Reconciler.{GatewayObject, Step, first_steps}
use tsjwt.Gateway.Reconciler.Rounds.{Client, update_all, apply_steps, with_file, with_table}
use tsjwt.Gateway.Reconciler.Rounds.Chain.{apply_steps-RanThrough}
use tsjwt.Gateway.Reconciler.Rounds.Provisioning.{Lands, with_workload-Lands}
use tsjwt.RouteTable.{RouteFile, render}
use tsjwt.GoTime.{Instant, Duration}
use tsjwt.Errors.{Result, ok}
use tsjwt.Prelude.{
  length, Text, ℕ, ◌≡◌, refl, ◌≢◌, ◌⊎◌, inl, inr, Option, none, some, List, [], ◌∷◌, ◌++◌, map,
}

module _ {W : Type 0} (client : Client W) where
  module _ (parse_url : Text → Option Text) (parse_duration : Text → Option Duration)
      (detail : RouteError → Text) (render_text : RouteFile → Text) (now : Instant) (cfg : Config)
      (tenants : Text) where
    -- What a round comes to once the class is read, from that world on. It applies nothing before it has read
    -- the routes and the Services, rendered the table and written the routes' statuses.
    pub record Serves (g : GatewayObject) (w : W) (a : Result (Unit {0}) × W × List Step)
        : Type 0 where
      pub objects : List RouteObject
      pub listed : W
      pub routes_read : client.list_routes w ≡ (ok objects, listed)
      pub services : List Service
      pub found : W
      pub services_read : client.list_services listed ≡ (ok services, found)
      pub file : RouteFile
      pub rendered :
          let table =
            translate parse_url g.gateway (map (λ (r : RouteObject). r.route) objects) services in
          render (g.gateway.namespace ++ b'/' ∷ g.gateway.name) g.generation table.routes
          ≡ some file
      pub lands :
          let table =
            translate parse_url g.gateway (map (λ (r : RouteObject). r.route) objects) services in
          Lands client parse_url parse_duration detail render_text now cfg tenants g
            (length table.routes)
            (render_text file)
            (update_all client
              (apply_route_status detail now g.gateway objects table.errors).1
              found)
            a

    abbrev pub Provisions : GatewayObject → W → Result (Unit {0}) × W × List Step → Type 0
    Provisions g w a = ((a.2 ≡ []) × ((u : Unit {0}) → a.0 ≢ ok u)) ⊎ Serves g w a

    with_file-Lands :
        (g : GatewayObject) (count : ℕ) (file : Option RouteFile) (start : W)
        → (let a =
              with_file client parse_url parse_duration detail render_text now cfg tenants g count
                file start in
            ((a.2 ≡ []) × ((u : Unit {0}) → a.0 ≢ ok u))
            ⊎ ((f : RouteFile) × (file ≡ some f)
                × Lands client parse_url parse_duration detail render_text now cfg tenants g count
                    (render_text f)
                    start
                    a))
    unfolding with_file
    with_file-Lands g count none start = inl (refl, λ u h. cc h)
    with_file-Lands g count (some file) start = inr (
      file,
      refl,
      with_workload-Lands client parse_url parse_duration detail render_text now cfg tenants g count
          (render_text file) (stateful_set parse_duration g.gateway cfg tenants) start
          (apply_steps client g.gateway 0 (first_steps g.gateway (render_text file)) start) refl
          (apply_steps-RanThrough client g.gateway 0 (first_steps g.gateway (render_text file))
            start),
    )

    pub with_table-Provisions :
        (g : GatewayObject) (w : W) (objects : List RouteObject) (listed : W)
        (services : List Service) (found : W)
        → client.list_routes w ≡ (ok objects, listed)
        → client.list_services listed ≡ (ok services, found)
        → Provisions g w (
            with_table client parse_url parse_duration detail render_text now cfg tenants g objects
              services found)
    unfolding with_table
    with_table-Provisions g w objects listed services found routes_read services_read =
        let table =
          translate parse_url g.gateway (map (λ (r : RouteObject). r.route) objects) services in
        elim (with_file-Lands g (length table.routes)
          (render (g.gateway.namespace ++ (b'/' ∷ g.gateway.name)) g.generation table.routes)
          (update_all client (apply_route_status detail now g.gateway objects table.errors).1
            found)) [
              | inl nothing ↦ inl nothing
              | inr (file, rendered, lands) ↦ inr (record {
                objects = objects;
                listed = listed;
                routes_read = routes_read;
                services = services;
                found = found;
                services_read = services_read;
                file = file;
                rendered = rendered;
                lands = lands;
              })
            ]
