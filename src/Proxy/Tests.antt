-- ===== src/Proxy/Tests.antt =====
-- Runs of proxy/proxy.go and proxy/dynamic.go, and their theorems at a sample.
use tsjwt.Prelude.{
  Text, codes, text_eq, to_lower, equal_fold, insert, ◌≡◌, refl, true, false, none, some, [], ◌∷◌,
  ◌↔◌, Option,
}
use tsjwt.Errors.{no_identity, Result, ok, err}
use tsjwt.Proxy.Outcomes.{Because, serve-Because}
use tsjwt.Proxy.Replies.{own, respond}
use tsjwt.Proxy.{
  Headers, del_header, set_header, default_header, strip_assertion, Config, Proxy, del_all,
  claim_value, set_claims, answered, ungated, refuse_status, forward, asked_tenant, pass_gate,
  serve_route, cleaned, serve,
}
use tsjwt.Routing.{Route, Request, host_rank, path_rank, matches, match_route}
use tsjwt.Claims.{Claims, no_claims}
use tsjwt.Prelude.Sort.{sort}

abbrev route : Route
route = record {
  name = codes "r";
  hostnames = [];
  path_prefix = [];
  upstream = some (codes "http://a");
  audience = codes "a";
  tenant = [];
  claim_headers = (codes "X-User", codes "sub") ∷ [];
}

abbrev config : Config
config = record {
  has_signer = true;
  router = some (route ∷ []);
  upstream = none;
  audience = [];
  header = [];
  bearer = false;
}

abbrev proxy : Proxy
proxy = record {
  routes = route ∷ [];
  header = default_header;
  bearer = false;
  stripped = codes "X-User" ∷ [];
}

-- The caller forges the user and the assertion.
abbrev request : Request
request = record {
  host = codes "h";
  path = codes "/";
  remote_addr = codes "100.64.0.1:5";
  headers =
      (codes "x-user", codes "root")
      ∷ (codes "Accept", codes "*/*")
      ∷ (codes "x-tailnet-jwt-assertion", codes "forged")
      ∷ [];
}

abbrev mint_sample : Text → Text → Text → Result (Text × Claims)
mint_sample remote audience tenant = ok (codes "T", record no_claims { subject = codes "alice" })

abbrev mint_nobody : Text → Text → Text → Result (Text × Claims)
mint_nobody remote audience tenant = err no_identity

abbrev sent : Headers
sent =
    (codes "X-User", codes "alice")
    ∷ (default_header, codes "T")
    ∷ (codes "Accept", codes "*/*")
    ∷ []

request-refused : serve mint_nobody mint_nobody none proxy request ungated ≡ answered 401
unfolding serve serve_route pass_gate asked_tenant forward cleaned strip_assertion del_all
    del_header set_header set_claims claim_value equal_fold to_lower text_eq match_route sort insert
    matches host_rank path_rank refuse_status
request-refused = refl

-- An upstream that answers nothing.
abbrev unreachable : Option Text → Headers → Option Text
unreachable upstream hs = none

serve-Because_example :
    (respond unreachable (serve mint_nobody mint_nobody none proxy request ungated) ≡ own 401)
    ↔ Because mint_nobody mint_nobody none unreachable proxy request ungated 401
serve-Because_example =
    serve-Because mint_nobody mint_nobody none unreachable proxy request ungated 401
