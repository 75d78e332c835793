-- ===== src/Gateway/Rules.antt =====
-- The translation of HTTPRoutes in gateway/routes.go. url.Parse is an argument.
pub mod Audience
pub mod Samples
mod Tests
pub use tsjwt.Gateway.Fields.{
  Reason, backend_not_found, unsupported_value, invalid_kind, ref_not_permitted,
}
pub use tsjwt.Gateway.Fields.{
  no_matching_hostname, accepted_reason, RouteError, Verdict, refused, passed,
}
pub use tsjwt.Gateway.Fields.{require, need, ◌>>=◌, ◌>>◌}
unfoldable pub use tsjwt.Gateway.Fields.{
  parse_allowed_audiences, parse_claim_headers, path_prefixes, port_exists,
}
use tsjwt.Gateway.Hostnames.{attached_to, hostnames_for}
use tsjwt.Prelude.Sort.{sort}
use tsjwt.Prelude.{
  ◌==◌, if◌then◌else◌, length, Text, codes, text_eq, decimal, Dict, lookup, insert, has, ℕ, ◌+◌,
  Bool, true, false, not, Option, none, some, List, [], ◌∷◌, ◌++◌, text_lt,
}
use tsjwt.Gateway.{PathMatch, BackendRef, Rule, HttpRoute, Service, or_empty, Gateway}
use tsjwt.Routing.{Route}

abbrev pub audience_key : Text
audience_key = codes "tsjwt.dev/audience"

abbrev pub derived_audience : Service → Text
derived_audience s = s.name ++ (b'.' ∷ s.namespace)

-- The switch of translateRule over the audience annotation.
choose_audience : List Text → Text → Text → Verdict Text
unfolding text_eq has
choose_audience allowed derived asked =
    if text_eq asked []
    then passed derived
    else if text_eq asked derived
    then passed asked
    else (require (has asked allowed) unsupported_value >> passed asked)

is_service_kind : Option Text → Bool
is_service_kind none = true
is_service_kind (some kind) = text_eq kind (codes "Service")

own_namespace : Option Text → Text → Bool
own_namespace none ns = true
own_namespace (some other_ns) ns = text_eq other_ns ns

-- The map of Translate from "<namespace>/<name>" to the Service.
unfoldable pub service_map : List Service → Dict Service → Dict Service
unfolding insert
service_map [] m = m
service_map (s ∷ ss) m = service_map ss (insert (s.namespace ++ (b'/' ∷ s.name)) s m)

-- The one backend of a rule.
the_backend : List BackendRef → Verdict BackendRef
the_backend [] = refused backend_not_found
the_backend (b ∷ []) = passed b
the_backend (b ∷ c ∷ bs) = refused unsupported_value

pub name_prefixes : Text → ℕ → Route → List Text → List Route
unfolding decimal
name_prefixes name i r [] = []
name_prefixes name i r (p ∷ ps) =
    record r { name = name ++ (b'.' ∷ decimal i); path_prefix = p }
    ∷ name_prefixes name (i + 1) r ps

abbrev pub route_key : HttpRoute → Text
route_key r = r.namespace ++ (b'/' ∷ r.name)

abbrev pub rule_name : HttpRoute → ℕ → Text
rule_name r i = route_key r ++ (b'#' ∷ decimal i)

module _ (parse_url : Text → Option Text) where
  -- translateRule, after the name.
  unfoldable pub translate_rule :
      HttpRoute → Text → Rule → List Text → Dict Service → List Text → Verdict (List Route)
  unfolding the_backend is_service_kind own_namespace port_exists choose_audience
      parse_claim_headers path_prefixes lookup
  translate_rule r name rule hostnames services allowed = do
    ref ← the_backend rule.backends
    require (is_service_kind ref.kind) invalid_kind
    require (own_namespace ref.namespace r.namespace) ref_not_permitted
    s ← need (lookup (r.namespace ++ (b'/' ∷ ref.name)) services) backend_not_found
    port ← need ref.port unsupported_value
    require (port_exists s.ports port) backend_not_found
    upstream ←
        need
          (parse_url
            (codes "http://" ++ s.name ++ (b'.' ∷ s.namespace) ++ codes ".svc:" ++ decimal port))
          unsupported_value
    audience ←
        choose_audience allowed (derived_audience s) (or_empty (lookup audience_key r.annotations))
    claim_headers ←
        parse_claim_headers (or_empty (lookup (codes "tsjwt.dev/claim-headers") r.annotations))
    require (rule.filters == 0) unsupported_value
    require (ref.filters == 0) unsupported_value
    require (not (length (path_prefixes rule) == 0)) unsupported_value
    passed (
        name_prefixes name 0
          (record {
            name = [];
            hostnames = hostnames;
            path_prefix = [];
            upstream = some upstream;
            audience = audience;
            tenant = or_empty (lookup (codes "tsjwt.dev/tenant") r.annotations);
            claim_headers = claim_headers;
          })
          (path_prefixes rule))

  pub record Table : Type 0 where
    pub routes : List Route
    pub errors : List RouteError

  unfoldable pub add_verdict : Text → Verdict (List Route) → Table → Table
  add_verdict name (refused why) rest = record rest {
    errors = record { route = name; reason = why } ∷ rest.errors;
  }
  add_verdict name (passed built) rest = record rest { routes = built ++ rest.routes }

  -- The loop of Translate over the rules of a route.
  unfoldable pub rules_loop :
      HttpRoute → List Text → Dict Service → List Text → ℕ → List Rule → Table → Table
  unfolding add_verdict translate_rule
  rules_loop r hostnames services allowed i [] rest = rest
  rules_loop r hostnames services allowed i (rule ∷ rules) rest =
      add_verdict (rule_name r i) (translate_rule r (rule_name r i) rule hostnames services allowed)
        (rules_loop r hostnames services allowed (i + 1) rules rest)

  unfoldable pub one_route : HttpRoute → List Text × Bool → Dict Service → List Text → Table → Table
  unfolding rules_loop add_verdict
  one_route r (hostnames, false) services allowed rest =
      add_verdict (route_key r) (refused no_matching_hostname) rest
  one_route r (hostnames, true) services allowed rest =
      rules_loop r hostnames services allowed 0 r.rules rest

  -- The loop of Translate over the routes.
  unfoldable pub routes_loop : Gateway → Dict Service → List Text → List HttpRoute → Table
  unfolding one_route attached_to hostnames_for
  routes_loop gw services allowed [] = record { routes = []; errors = [] }
  routes_loop gw services allowed (r ∷ rs) =
      let rest = routes_loop gw services allowed rs in
      if attached_to gw r then one_route r (hostnames_for gw r) services allowed rest else rest

  abbrev by_name : Route → Route → Bool
  by_name a b = text_lt a.name b.name

  abbrev pub allowed_of : Gateway → List Text
  allowed_of gw =
      parse_allowed_audiences
        (or_empty (lookup (codes "tsjwt.dev/allowed-audiences") gw.annotations))

  -- Translate
  unfoldable pub translate : Gateway → List HttpRoute → List Service → Table
  unfolding routes_loop sort service_map parse_allowed_audiences lookup
  translate gw routes services =
      let table = routes_loop gw (service_map services []) (allowed_of gw) routes in
      record table { routes = sort by_name table.routes }
