-- ===== src/Routing.antt =====
-- The route table of proxy/router.go: Route.Valid, matches, NewRouter and Match.
pub mod Best
pub mod Answers
pub mod Table
mod Tests
use tsjwt.Errors.{other, Result, ok, ◌>>=◌, ◌>>◌, guard, or_fail}
use tsjwt.Prelude.Sort.{sort}
use tsjwt.Prelude.{
  ltb, ◌==◌, if◌then◌else◌, length, Text, codes, text_eq, trim, cut_prefix, has_prefix, has_suffix,
  trim_suffix, contains_char, count_char, before_char, to_lower, decimal, Dict, ℕ, ◌+◌, ◌*◌, ◌/◌,
  Bool, false, not, ◌&&◌, ◌||◌, Option, none, some, List, [], ◌∷◌, ◌++◌, map,
}

-- The nil Upstream is `none`; otherwise the text of its URL. A claim-header map is a list of its pairs.
pub record Route : Type 0 where
  pub name : Text
  pub hostnames : List Text
  pub path_prefix : Text
  pub upstream : Option Text
  pub audience : Text
  pub tenant : Text
  pub claim_headers : Dict Text

-- The parts of an http.Request that routing reads.
pub record Request : Type 0 where
  pub host : Text
  pub path : Text
  pub remote_addr : Text
  pub headers : List (Text × Text)

-- A hostname of a route is exact, or a wildcard whose only star is its first label.
abbrev pub hostname_valid : Text → Bool
hostname_valid h =
    (has_prefix h (codes "*.") && (count_char h b'*' == 1)) || not (contains_char h b'*')

hostnames_valid : List Text → Result (Unit {0})
hostnames_valid [] = ok tt
hostnames_valid (h ∷ hs) = guard (hostname_valid h) other >> hostnames_valid hs

-- Route.Valid
unfoldable pub route_valid : Route → Result (Unit {0})
unfolding hostnames_valid text_eq
route_valid r = do
  u ← or_fail r.upstream other
  guard (not (text_eq (trim r.audience) [])) other
  hostnames_valid r.hostnames
  guard (text_eq r.path_prefix [] || has_prefix r.path_prefix (codes "/")) other

-- The request's host without its port and its last dot, in lower case.
unfoldable pub request_host : Request → Text
unfolding to_lower trim_suffix before_char
request_host req = to_lower (trim_suffix (before_char req.host b':') (codes "."))

-- A wildcard, in lower case, covers the host.
covers_suffix : Text → Option Text → Bool
covers_suffix host none = false
covers_suffix host (some suffix) = has_suffix host (b'.' ∷ suffix)

unfoldable pub covers : Text → Text → Bool
unfolding covers_suffix
covers host h = covers_suffix host (cut_prefix h (codes "*."))

-- The loop of matches over the hostnames, with the rank so far.
rank_loop : Text → ℕ → List Text → ℕ
unfolding covers to_lower
rank_loop host rank [] = rank
rank_loop host rank (h ∷ hs) =
    let rest = rank_loop host (if covers host (to_lower h) && ltb rank 2 then 2 else rank) hs in
    if text_eq (to_lower h) host then 3 else rest

unfoldable pub host_rank : Text → List Text → ℕ
unfolding rank_loop
host_rank host [] = 1
host_rank host (h ∷ hs) = rank_loop host 0 (h ∷ hs)

-- The path test of matches: the length of the prefix that the path has, on a segment boundary.
unfoldable pub path_rank : Text → Text → Option ℕ
unfolding trim_suffix text_eq has_prefix
path_rank prefix p =
    let trimmed = trim_suffix prefix (codes "/") in
    if text_eq prefix []
    then some 0
    else if not (text_eq p trimmed) && not (has_prefix p (trimmed ++ codes "/"))
    then none
    else some (length trimmed)

with_rank : ℕ → Option ℕ → Option (ℕ × ℕ)
with_rank rank none = none
with_rank rank (some len) = some (rank, len)

-- Route.matches: the rank of the hostname and the length of the prefix.
unfoldable pub matches : Route → Request → Option (ℕ × ℕ)
unfolding host_rank path_rank request_host with_rank
matches r req =
    let rank = host_rank (request_host req) r.hostnames in
    if rank == 0 then none else with_rank rank (path_rank r.path_prefix req.path)

fill_names : ℕ → List Route → List Route
fill_names i [] = []
fill_names i (r ∷ rs) =
    (if text_eq r.name [] then record r { name = codes "route-" ++ decimal i } else r)
    ∷ fill_names (i + 1) rs

routes_valid : List Route → Result (Unit {0})
unfolding route_valid
routes_valid [] = ok tt
routes_valid (r ∷ rs) = route_valid r >> routes_valid rs

-- NewRouter
unfoldable pub new_router : List Route → Result (List Route)
unfolding routes_valid fill_names
new_router rs = do guard (not (length rs == 0)) other; routes_valid rs; ok (fill_names 0 rs)

pub record Scored : Type 0 where
  pub route : Route
  pub host : ℕ
  pub path : ℕ
  pub ix : ℕ

push_scored : Route → ℕ → Option (ℕ × ℕ) → List Scored → List Scored
push_scored r i none found = found
push_scored r i (some (h, p)) found = record { route = r; host = h; path = p; ix = i } ∷ found

-- The first loop of Match: the matching routes with their ranks.
scored_routes : Request → ℕ → List Route → List Scored
unfolding push_scored matches
scored_routes req i [] = []
scored_routes req i (r ∷ rs) = push_scored r i (matches r req) (scored_routes req (i + 1) rs)

-- The order of Match.
abbrev pub more_specific : Scored → Scored → Bool
more_specific a b =
    if not (a.host == b.host)
    then ltb b.host a.host
    else if not (a.path == b.path)
    then ltb b.path a.path
    else ltb a.ix b.ix

first_route : List Scored → Option Route
first_route [] = none
first_route (s ∷ ss) = some s.route

-- Router.Match
unfoldable pub match_route : List Route → Request → Option Route
unfolding scored_routes first_route
match_route rs req = first_route (sort more_specific (scored_routes req 0 rs))
