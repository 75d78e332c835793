-- ===== src/Gateway/Rules/Audience.antt =====
-- What a route of the table that gateway/routes.go builds may mint tokens for, and where it may send them.
use tsjwt.Gateway.Hostnames.{attached_to, hostnames_for}
use tsjwt.Prelude.{
  In, Text, codes, decimal, Dict, lookup, ℕ, ◌≡◌, ◌⊎◌, true, Option, some, List, ◌∷◌, ◌++◌,
}
use tsjwt.Gateway.Rules.{port_exists, derived_audience}
use tsjwt.Gateway.{HttpRoute, Service, or_empty, Gateway}
use tsjwt.Routing.{Route}

-- The audience of a route of the backend `s`: its own, or one that the Gateway's owner listed.
abbrev pub Audience : List Text → Service → Text → Type 0
Audience allowed s audience = (audience ≡ derived_audience s) ⊎ In audience allowed

-- The route, the rule's backend and the Service behind a route of the table.
pub record IsBacked (parse_url : Text → Option Text) (r : HttpRoute) (hostnames : List Text)
    (services : Dict Service) (allowed : List Text) (x : Route) : Type 0 where
  pub backend : Text
  pub service : Service
  pub found : lookup (r.namespace ++ (b'/' ∷ backend)) services ≡ some service
  pub port : ℕ
  pub port_ok : port_exists service.ports port ≡ true
  pub upstream : Text
  pub upstream_ok : x.upstream ≡ some upstream
  pub upstream_url :
      parse_url (
        codes "http://"
        ++ service.name
        ++ (b'.' ∷ service.namespace)
        ++ codes ".svc:"
        ++ decimal port)
      ≡ some upstream
  pub audience_ok : Audience allowed service x.audience
  pub tenant_ok : x.tenant ≡ or_empty (lookup (codes "tsjwt.dev/tenant") r.annotations)
  pub hostnames_ok : x.hostnames ≡ hostnames

module _ (parse_url : Text → Option Text) where
  -- An attached route stands behind the table's route.
  abbrev pub Backed : Gateway → Dict Service → List Text → Route → HttpRoute → Type 0
  Backed gw services allowed x r =
      (attached_to gw r ≡ true)
      × ((hostnames_for gw r).1 ≡ true)
      × IsBacked parse_url r (hostnames_for gw r).0 services allowed x
