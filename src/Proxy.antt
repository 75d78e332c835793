-- ===== src/Proxy.antt =====
-- The forwarding proxy of proxy/proxy.go and proxy/dynamic.go, and StripAssertion of context.go. The signer's
-- Mint, the gate's answer and the tenant selector are arguments; a response or a forwarded request is a value.
pub mod Origin
pub mod Outcomes
pub mod Asked
pub mod Claimed
pub mod Stripping
pub mod Replies
pub mod Edits
mod Tests
use tsjwt.Prelude.{
  if◌then◌else◌, Text, codes, text_eq, trim, join, equal_fold, Dict, ℕ, Bool, not, ◌||◌, Option,
  none, some, List, [], ◌∷◌, ◌++◌, map, true, false,
}
use tsjwt.Errors.{Error, no_identity, no_tenant, other, Result, ok, err, ◌>>=◌, ◌>>◌, guard}
use tsjwt.Routing.{Route, Request, new_router, match_route}
use tsjwt.Claims.{Claims}

-- A header list, in order; names are compared without case, as http.Header does on its canonical names.
abbrev pub Headers : Type 0
Headers = List (Text × Text)

-- Header.Del
unfoldable pub del_header : Text → Headers → Headers
unfolding equal_fold
del_header name [] = []
del_header name ((n, v) ∷ hs) =
    let rest = del_header name hs in if equal_fold n name then rest else (n, v) ∷ rest

-- Header.Set
unfoldable pub set_header : Text → Text → Headers → Headers
unfolding del_header
set_header name value hs = (name, value) ∷ del_header name hs

abbrev pub default_header : Text
default_header = codes "X-Tailnet-Jwt-Assertion"

-- StripAssertion
pub strip_assertion : Text → Headers → Headers
unfolding del_header
strip_assertion header hs = del_header (if text_eq header [] then default_header else header) hs

-- The fields of Config that New and ServeHTTP read: whether Signer is set, the router's table or `none`, the
-- upstream, the audience, the header and the Bearer flag.
pub record Config : Type 0 where
  pub has_signer : Bool
  pub router : Option (List Route)
  pub upstream : Option Text
  pub audience : Text
  pub header : Text
  pub bearer : Bool

pub record Proxy : Type 0 where
  pub routes : List Route
  pub header : Text
  pub bearer : Bool
  pub stripped : List Text

abbrev default_route : Option Text → Text → Route
default_route upstream audience = record {
  name = codes "default";
  hostnames = [];
  path_prefix = [];
  upstream = upstream;
  audience = audience;
  tenant = [];
  claim_headers = [];
}

-- The keys of the routes' claim headers.
unfoldable pub claim_header_names : List Route → List Text
claim_header_names [] = []
claim_header_names (r ∷ rs) =
    map (λ (p : Text × Text). p.0) r.claim_headers ++ claim_header_names rs

abbrev pub is_none {ℓ} : {A : Type ℓ} → Option A → Bool
is_none none = true
is_none (some a) = false

-- The router that New uses.
choose_router : Config → Result (List Route)
unfolding new_router
choose_router cfg = elim cfg.router [
  | none ↦ do
    guard (not (is_none cfg.upstream)) other
    guard (not (text_eq (trim cfg.audience) [])) other
    new_router (default_route cfg.upstream cfg.audience ∷ [])
  | some routes ↦ guard (is_none cfg.upstream) other >> ok routes
]

-- New
unfoldable pub new : Config → Result Proxy
unfolding choose_router claim_header_names
new cfg = do
  guard cfg.has_signer other
  routes ← choose_router cfg
  ok (record {
    routes = routes;
    header = if text_eq cfg.header [] then default_header else cfg.header;
    bearer = cfg.bearer;
    stripped = claim_header_names routes;
  })

pub del_all : List Text → Headers → Headers
unfolding del_header
del_all [] hs = hs
del_all (n ∷ ns) hs = del_all ns (del_header n hs)

-- claimValue
unfoldable pub claim_value : Claims → Text → Text
unfolding join text_eq
claim_value c name =
    if text_eq name (codes "sub") || text_eq name (codes "subject")
    then c.subject
    else if text_eq name (codes "email")
    then c.email
    else if text_eq name (codes "name")
    then c.display_name
    else if text_eq name (codes "node")
    then c.node
    else if text_eq name (codes "tenant")
    then c.tenant
    else if text_eq name (codes "roles")
    then join c.roles (codes ",")
    else if text_eq name (codes "groups")
    then join c.groups (codes ",")
    else if text_eq name (codes "tenants")
    then join c.tenants (codes ",")
    else []

-- The loop of ServeHTTP over the route's claim headers.
pub set_claims : Claims → Dict Text → Headers → Headers
unfolding claim_value set_header
set_claims c [] hs = hs
set_claims c ((header, claim) ∷ rest) hs =
    let v = claim_value c claim in
    set_claims c rest (if text_eq v [] then hs else set_header header v hs)

-- What ServeHTTP does with a request: it answers with a status, it forwards the request to an upstream with
-- these headers, or it returns without either, after the caller went away.
pub data Outcome : Type 0 where
  answered : ℕ → Outcome
  forwarded : Option Text → Headers → Outcome
  dropped : Outcome

-- What the gate does: there is none, it fails, or it admits the request, whose context is then done or not.
pub data Gate : Type 0 where
  ungated : Gate
  wait_failed : Gate
  admitted : Bool → Gate

-- refuse
unfoldable pub refuse_status : Error → ℕ
refuse_status no_identity = 401
refuse_status no_tenant = 403
refuse_status e = 500

-- The token as the header carries it.
abbrev pub carried : Bool → Text → Text
carried bearer token = if bearer then codes "Bearer " ++ token else token

-- The end of ServeHTTP, for the answer of the last Mint.
pub forward : Proxy → Route → Headers → Result (Text × Claims) → Outcome
unfolding set_claims set_header refuse_status
forward p route hs (err e) = answered (refuse_status e)
forward p route hs (ok (token, claims)) =
    forwarded route.upstream
      (set_claims claims route.claim_headers (set_header p.header (carried p.bearer token) hs))

module _ (mint mint_again : Text → Text → Text → Result (Text × Claims))
    (tenant_from : Option (Request → Text)) where
  -- The tenant that the first Mint is asked for.
  pub asked_tenant : Route → Request → Text
  asked_tenant route req =
      if text_eq route.tenant []
      then elim tenant_from [ none ↦ [] | some f ↦ f req ]
      else route.tenant

  -- ServeHTTP after the first Mint.
  pass_gate : Proxy → Route → Request → Gate → Result (Text × Claims) → Outcome
  unfolding forward refuse_status
  pass_gate p route req gate (err e) = answered (refuse_status e)
  pass_gate p route req ungated (ok t) = forward p route req.headers (ok t)
  pass_gate p route req wait_failed (ok t) = answered 503
  pass_gate p route req (admitted done) (ok t) =
      if done
      then dropped
      else forward p route req.headers (mint_again req.remote_addr route.audience t.1.tenant)

  serve_route : Proxy → Request → Gate → Option Route → Outcome
  unfolding pass_gate asked_tenant
  serve_route p req gate none = answered 404
  serve_route p req gate (some route) =
      pass_gate p route req gate (mint req.remote_addr route.audience (asked_tenant route req))

  -- The request after ServeHTTP removed the headers that only the proxy may set.
  unfoldable pub cleaned : Proxy → Request → Request
  unfolding strip_assertion del_all
  cleaned p req = record req { headers = del_all p.stripped (strip_assertion p.header req.headers) }

  -- ServeHTTP
  unfoldable pub serve : Proxy → Request → Gate → Outcome
  unfolding serve_route cleaned match_route
  serve p req gate = let req' = cleaned p req in serve_route p req' gate (match_route p.routes req')

  -- Dynamic.ServeHTTP, where the stored pointer is `none` or a proxy.
  pub serve_current : Option Proxy → Request → Gate → Outcome
  unfolding serve
  serve_current none req gate = answered 503
  serve_current (some p) req gate = serve p req gate

-- Dynamic.Set: the error, if any, and the pointer it leaves.
unfoldable pub set_routes : Config → Option Proxy → List Route → Result (Unit {0}) × Option Proxy
unfolding new_router new
set_routes cfg current [] = (ok tt, none)
set_routes cfg current (r ∷ rs) =
    elim (new_router (r ∷ rs) >>= λ routes.
    new (record cfg { router = some routes; upstream = none })) [
      | err e ↦ (err e, current)
      | ok p ↦ (ok tt, some p)
    ]

-- Dynamic.Routes
pub current_routes : Option Proxy → List Route
current_routes none = []
current_routes (some p) = p.routes
