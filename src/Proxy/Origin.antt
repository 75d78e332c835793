-- ===== src/Proxy/Origin.antt =====
-- Where the headers of a request that proxy/proxy.go forwards come from.
use tsjwt.Claims.{Claims}
use tsjwt.Routing.{Route, Request, match_route}
use tsjwt.Proxy.{Headers, Proxy, asked_tenant, cleaned}
use tsjwt.Errors.{Result, ok}
use tsjwt.Prelude.{In, Text, ◌≡◌, ◌⊎◌, Option, some}
use tsjwt.Proxy.Stripping.{Comes}
use tsjwt.Proxy.Asked.{IsAsked}

module _ (mint mint_again : Text → Text → Text → Result (Text × Claims))
    (tenant_from : Option (Request → Text)) where
  -- What Mint answered to the first call, for this tenant, or to the second call,
  -- after a wait, for the tenant of the token that the first one returned.
  abbrev pub FromMint : Request → Route → Text → Result (Text × Claims) → Type 0
  FromMint req route asked r =
      (mint req.remote_addr route.audience asked ≡ r)
      ⊎ ((first : Text × Claims) × (mint req.remote_addr route.audience asked ≡ ok first)
          × (mint_again req.remote_addr route.audience first.1.tenant ≡ r))

  abbrev asked_for : Proxy → Request → Route → Text
  asked_for p req route =
      asked_tenant mint mint_again tenant_from route (cleaned mint mint_again tenant_from p req)

  -- The route, the token and the headers behind a forwarded request.
  pub record Passed (p : Proxy) (req : Request) (upstream : Option Text) (hs : Headers)
      : Type 0 where
    pub route : Route
    pub matched : match_route p.routes (cleaned mint mint_again tenant_from p req) ≡ some route
    pub upstream_ok : route.upstream ≡ upstream
    pub token : Text
    pub claims : Claims
    pub asked : Text
    pub asked_ok : IsAsked tenant_from route (cleaned mint mint_again tenant_from p req) asked
    pub minted : FromMint req route asked (ok (token, claims))
    pub headers_ok : (n v : Text) → In (n, v) hs → Comes p route token claims req.headers n v
