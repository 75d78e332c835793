-- ===== src/Routing/Tests.antt =====
-- Runs of proxy/router.go, and its theorems at a table.
use tsjwt.Prelude.{
  codes, text_eq, cut_prefix, has_prefix, has_suffix, trim_suffix, before_char, to_lower, insert,
  ◌≡◌, refl, none, some, List, [], ◌∷◌,
}
use tsjwt.Routing.{
  Route, Request, request_host, covers_suffix, covers, rank_loop, host_rank, path_rank, with_rank,
  matches, scored_routes, first_route, match_route,
}
use tsjwt.Prelude.Sort.{sort}
use tsjwt.Routing.Best.{IsBest, match_route-IsBest}

abbrev plain : Route
plain = record {
  name = codes "plain";
  hostnames = [];
  path_prefix = codes "/api/";
  upstream = some (codes "http://a");
  audience = codes "a";
  tenant = [];
  claim_headers = [];
}

abbrev wild : Route
wild = record plain {
  name = codes "wild";
  hostnames = codes "*.Example.com" ∷ [];
  path_prefix = [];
}

abbrev table : List Route
table = plain ∷ wild ∷ []

abbrev request : Request
request = record {
  host = codes "App.example.com:443";
  path = codes "/api/v1";
  remote_addr = codes "100.64.0.1:5";
  headers = [];
}

plain-matches : matches plain request ≡ some (1, 4)
unfolding matches host_rank rank_loop path_rank request_host to_lower trim_suffix has_suffix
    before_char text_eq has_prefix with_rank
plain-matches = refl

-- A prefix matches on a segment boundary only.
boundary : matches plain (record request { path = codes "/apixyz" }) ≡ none
unfolding matches host_rank rank_loop path_rank request_host to_lower trim_suffix has_suffix
    before_char text_eq has_prefix with_rank
boundary = refl

wild-matched : match_route table request ≡ some wild
unfolding match_route scored_routes first_route sort insert matches host_rank rank_loop covers
    covers_suffix cut_prefix path_rank request_host to_lower trim_suffix has_suffix before_char
    text_eq has_prefix with_rank
wild-matched = refl

match_route-IsBest_example : IsBest table request wild
match_route-IsBest_example = match_route-IsBest table request wild-matched
