-- ===== src/RouteTable.antt =====
-- The rendered route table of routetable/routefile.go and the file source of routetable/filesource.go. url.Parse
-- and the reading and writing of files are arguments: a read gives the decoded file or an error.
pub mod RoundTrip
pub mod Source
mod Tests
use tsjwt.Errors.{other, Result, ok, guard, ◌>>=◌, ◌>>◌, or_fail}
use tsjwt.Prelude.{Text, text_eq, ℤ, Dict, not, Option, none, some, List, [], ◌∷◌}
use tsjwt.Routing.{Route, route_valid}

pub record RouteEntry : Type 0 where
  pub name : Text
  pub hostnames : List Text
  pub path_prefix : Text
  pub upstream : Text
  pub audience : Text
  pub tenant : Text
  pub claim_headers : Dict Text

pub record RouteFile : Type 0 where
  pub revision : ℤ
  pub gateway : Text
  pub routes : List RouteEntry

-- The host and the text of a URL.
pub record Url : Type 0 where
  pub host : Text
  pub text : Text

-- The entry of a route whose upstream has the text `upstream`.
abbrev pub entry_of : Route → Text → RouteEntry
entry_of r upstream = record {
  name = r.name;
  hostnames = r.hostnames;
  path_prefix = r.path_prefix;
  upstream = upstream;
  audience = r.audience;
  tenant = r.tenant;
  claim_headers = r.claim_headers;
}

add_entry : Route → Option Text → Option (List RouteEntry) → Option (List RouteEntry)
add_entry r none rest = none
add_entry r (some upstream) none = none
add_entry r (some upstream) (some entries) = some (entry_of r upstream ∷ entries)

-- The loop of Render; `none` stands for the panic at a nil upstream.
render_entries : List Route → Option (List RouteEntry)
unfolding add_entry
render_entries [] = some []
render_entries (r ∷ rs) = add_entry r r.upstream (render_entries rs)

-- Render
unfoldable pub render : Text → ℤ → List Route → Option RouteFile
unfolding render_entries
render gateway revision routes = elim (render_entries routes) [
  | none ↦ none
  | some entries ↦ some (record { revision = revision; gateway = gateway; routes = entries })
]

abbrev pub route_of : RouteEntry → Text → Route
route_of e upstream = record {
  name = e.name;
  hostnames = e.hostnames;
  path_prefix = e.path_prefix;
  upstream = some upstream;
  audience = e.audience;
  tenant = e.tenant;
  claim_headers = e.claim_headers;
}

module _ (parse_url : Text → Option Url) where
  parse_entries : List RouteEntry → Result (List Route)
  unfolding route_valid
  parse_entries [] = ok []
  parse_entries (e ∷ es) = do
    u ← or_fail (parse_url e.upstream) other
    guard (not (text_eq u.host [])) other
    route_valid (route_of e u.text)
    rest ← parse_entries es
    ok (route_of e u.text ∷ rest)

  -- RouteFile.Parse
  unfoldable pub parse : RouteFile → Result (List Route)
  unfolding parse_entries
  parse f = parse_entries f.routes

  -- ReadRouteFile, for what reading and decoding the file gave.
  unfoldable pub read_route_file : Result RouteFile → Result (RouteFile × List Route)
  unfolding parse
  read_route_file decoded = do f ← decoded; routes ← parse f; ok (f, routes)
