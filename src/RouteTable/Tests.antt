-- ===== src/RouteTable/Tests.antt =====
-- Runs of routetable/routefile.go and routetable/filesource.go, and their theorems at a table.
use tsjwt.Prelude.{
  Text, codes, text_eq, trim, has_prefix, count_char, pos, ◌≡◌, refl, true, Option, some, [], ◌∷◌,
  ◌⊎◌, inl, Bool, none, List, map,
}
use tsjwt.Errors.{not_exist, err, ok, Result}
use tsjwt.RouteTable.{RouteFile, Url, entry_of, render, parse, read_route_file}
use tsjwt.RouteTable.RoundTrip.{render-parse}
use tsjwt.RouteTable.Source.Serves.{restarted, last_read, run-Serves}
use tsjwt.RouteTable.Source.{FileSource, load_cache, same_routes, run}
use tsjwt.RouteTable.Source.Tracks.{bare}
use tsjwt.Routing.{Route, route_valid}

abbrev route : Route
route = record {
  name = codes "r";
  hostnames = codes "*.example.com" ∷ [];
  path_prefix = codes "/api";
  upstream = some (codes "http://a");
  audience = codes "a";
  tenant = [];
  claim_headers = [];
}

-- The same route with a claim header.
abbrev edited : Route
edited = record route { claim_headers = (codes "X-User", codes "sub") ∷ [] }

-- A parser that takes every text for a URL with the host "a".
abbrev parse_sample : Text → Option Url
parse_sample t = some (record { host = codes "a"; text = t })

abbrev edited_file : RouteFile
edited_file = record {
  revision = pos 8;
  gateway = codes "g";
  routes = entry_of edited (codes "http://a") ∷ [];
}

abbrev source : FileSource
source = record {
  has_cache = true;
  current = route ∷ [];
  revision = pos 7;
  loaded = true;
  from_cache = true;
  cached = err not_exist;
  last_err = none;
}

route-valid : route_valid route ≡ ok tt
unfolding route_valid trim has_prefix count_char text_eq
route-valid = refl

edited-parsed : parse parse_sample edited_file ≡ ok (edited ∷ [])
unfolding parse route_valid trim has_prefix count_char text_eq
edited-parsed = refl

-- A start from an empty cache is not an error.
no_cache : load_cache parse_sample source ≡ (ok tt, source)
unfolding load_cache read_route_file
no_cache = refl

render-parse_example :
    (f : RouteFile) × (render (codes "g") (pos 8) (route ∷ []) ≡ some f)
    × (f.gateway ≡ codes "g")
    × (f.revision ≡ pos 8)
    × (parse parse_sample f ≡ ok (route ∷ []))
render-parse_example = render-parse parse_sample (codes "g") (pos 8) (route ∷ []) (
  record {
    valid = route-valid;
    upstream = codes "http://a";
    upstream_ok = refl;
    host = codes "a";
    host_ok = λ e. cc;
    read_back = refl;
  },
  tt,
)

abbrev started : FileSource
started = restarted source

abbrev reads : List (Bool × Result RouteFile)
reads = (true, ok edited_file) ∷ (true, err not_exist) ∷ []

-- The failure of the last read is kept, and the table of the first.
run-reads :
    ((run parse_sample started reads).current ≡ edited ∷ [])
    × ((run parse_sample started reads).last_err ≡ some not_exist)
unfolding run read_route_file parse route_valid trim has_prefix count_char text_eq same_routes
run-reads = (refl, refl)

run-Serves_example :
    ((map bare (run parse_sample started reads).current, (run parse_sample started reads).revision)
      ≡ last_read parse_sample ([], pos 0) reads)
    × ((map bare (run parse_sample started reads).current ≡ [])
        ⊎ (map bare (load_cache parse_sample (restarted (run parse_sample started reads))).1.current
            ≡ map bare (run parse_sample started reads).current))
run-Serves_example = run-Serves parse_sample started reads (refl, (refl, tt)) refl (inl refl)
