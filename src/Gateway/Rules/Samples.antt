-- ===== src/Gateway/Rules/Samples.antt =====
-- A Gateway with an HTTPRoute and its Service, for the tests of the gateway package.
use tsjwt.Prelude.{
  Text, codes, text_eq, trim, cut_prefix, has_prefix, trim_prefix, has_suffix, cut, split, to_lower,
  decimal, lookup, ◌≡◌, refl, Option, none, some, [], ◌∷◌,
}
use tsjwt.Gateway.{Gateway, BackendRef, HttpRoute, Service}
use tsjwt.Gateway.Hostnames.{
  listener_admits, admitting_listeners, attached_to, intersect_hostname, hostnames_for,
}
use tsjwt.Gateway.Rules.{
  parse_allowed_audiences, parse_claim_headers, path_prefixes, port_exists, choose_audience,
  service_map, translate_rule, translate, name_prefixes,
}
use tsjwt.Routing.{Route}
use tsjwt.Prelude.Sort.{sort}

abbrev pub gateway : Gateway
gateway = record {
  namespace = codes "edge";
  name = codes "gw";
  annotations = (codes "tsjwt.dev/allowed-audiences", codes "shared, x") ∷ [];
  listeners =
      record { hostname = some (codes "*.example.com"); from = some (codes "All") }
      ∷ record { hostname = some (codes "admin.example.net"); from = none }
      ∷ [];
}

abbrev pub backend : BackendRef
backend = record { kind = none; namespace = none; name = codes "web"; port = some 80; filters = 0 }

abbrev pub http_route : HttpRoute
http_route = record {
  namespace = codes "shop";
  name = codes "r";
  annotations =
      (codes "tsjwt.dev/audience", codes "shared")
      ∷ (codes "tsjwt.dev/claim-headers", codes "X-User=sub, X-Roles=roles")
      ∷ [];
  parents = record { kind = none; namespace = some (codes "edge"); name = codes "gw" } ∷ [];
  hostnames = codes "App.example.com" ∷ codes "admin.example.net" ∷ [];
  rules = record { paths = []; backends = backend ∷ []; filters = 0 } ∷ [];
}

abbrev pub service : Service
service = record { namespace = codes "shop"; name = codes "web"; ports = 443 ∷ 80 ∷ [] }

abbrev pub parse_sample : Text → Option Text
parse_sample t = some t

-- The host of the listener that does not admit the route's namespace is left out.
abbrev pub built : Route
built = record {
  name = codes "shop/r#0.0";
  hostnames = codes "app.example.com" ∷ [];
  path_prefix = [];
  upstream = some (codes "http://web.shop.svc:80");
  audience = codes "shared";
  tenant = [];
  claim_headers = (codes "X-User", codes "sub") ∷ (codes "X-Roles", codes "roles") ∷ [];
}

pub translated :
    (translate parse_sample gateway (http_route ∷ []) (service ∷ [])).routes ≡ built ∷ []
unfolding translate translate_rule choose_audience sort attached_to hostnames_for
    admitting_listeners listener_admits intersect_hostname to_lower has_suffix trim_prefix
    cut_prefix has_prefix text_eq lookup parse_allowed_audiences parse_claim_headers path_prefixes
    port_exists service_map decimal trim split cut name_prefixes
translated = refl
