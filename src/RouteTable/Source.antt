-- ===== src/RouteTable/Source.antt =====
-- The file source of routetable/filesource.go: the table in use, the cache and the reads.
pub mod Tracks
pub mod Serves
use tsjwt.Prelude.{
  if◌then◌else◌, Text, text_eq, ℤ, Bool, true, false, ◌&&◌, Option, none, some, List, [], ◌∷◌,
}
use tsjwt.Errors.{Error, not_exist, Result, err, ok}
use tsjwt.RouteTable.{RouteFile, Url, read_route_file}
use tsjwt.Routing.{Route}

-- The fields that Refresh and LoadCache touch, and what the cache file holds.
pub record FileSource : Type 0 where
  pub has_cache : Bool
  pub current : List Route
  pub revision : ℤ
  pub loaded : Bool
  pub from_cache : Bool
  pub cached : Result RouteFile
  pub last_err : Option Error

hostnames_same : List Text → List Text → Bool
unfolding text_eq
hostnames_same [] [] = true
hostnames_same [] (b ∷ bs) = false
hostnames_same (a ∷ as_) [] = false
hostnames_same (a ∷ as_) (b ∷ bs) = text_eq a b && hostnames_same as_ bs

-- The upstreams' texts. A table in use has valid routes, whose upstream is not nil.
upstream_same : Option Text → Option Text → Bool
unfolding text_eq
upstream_same none none = true
upstream_same none (some b) = false
upstream_same (some a) none = false
upstream_same (some a) (some b) = text_eq a b

route_same : Route → Route → Bool
unfolding text_eq hostnames_same upstream_same
route_same a b =
    text_eq a.name b.name
    && (text_eq a.path_prefix b.path_prefix
        && (text_eq a.audience b.audience
            && (text_eq a.tenant b.tenant
                && (upstream_same a.upstream b.upstream
                    && hostnames_same a.hostnames b.hostnames))))

-- sameRoutes
unfoldable pub same_routes : List Route → List Route → Bool
unfolding route_same
same_routes [] [] = true
same_routes [] (b ∷ bs) = false
same_routes (a ∷ l) [] = false
same_routes (a ∷ l) (b ∷ bs) = route_same a b && same_routes l bs

module _ (parse_url : Text → Option Url) where
  -- LoadCache, after reading the cache file.
  loaded_cache : FileSource → Result (RouteFile × List Route) → Result (Unit {0}) × FileSource
  loaded_cache s (err not_exist) = (ok tt, s)
  loaded_cache s (err e) = (err e, s)
  loaded_cache s (ok (f, routes)) = (
    ok tt,
    record s { current = routes; revision = f.revision; loaded = true; from_cache = true },
  )

  -- LoadCache
  unfoldable pub load_cache : FileSource → Result (Unit {0}) × FileSource
  unfolding loaded_cache read_route_file
  load_cache s =
      if s.has_cache then loaded_cache s (read_route_file parse_url s.cached) else (ok tt, s)

  -- Refresh, after reading the file; `written` says whether the cache file could be written. The last part
  -- is the table that OnChange is called with, if it is.
  took :
      FileSource
      → Bool
      → Result (RouteFile × List Route)
      → Result (Unit {0}) × FileSource × Option (List Route)
  unfolding same_routes
  took s written (err e) = (err e, s, none)
  took s written (ok (f, routes)) =
      let marked = record s { revision = f.revision; loaded = true; from_cache = false } in
      if same_routes s.current routes then (ok tt, marked, none) else (
        ok tt,
        record marked {
          current = routes;
          cached = if s.has_cache && written then ok f else s.cached;
        },
        some routes,
      )

  -- Refresh
  unfoldable pub refresh :
      FileSource → Bool → Result RouteFile → Result (Unit {0}) × FileSource × Option (List Route)
  unfolding took read_route_file
  refresh s written decoded = took s written (read_route_file parse_url decoded)

  note_error : Result (Unit {0}) → FileSource → FileSource
  note_error (err e) s = record s { last_err = some e }
  note_error (ok u) s = record s { last_err = none }

  -- A read of Run.
  pub round : FileSource → Bool → Result RouteFile → FileSource
  unfolding refresh note_error
  round s written decoded =
      let (result, s', changed) = refresh s written decoded in note_error result s'

  -- Run, for what its reads bring until the context ends: whether the cache file could be written, and the file.
  unfoldable pub run : FileSource → List (Bool × Result RouteFile) → FileSource
  unfolding round
  run s [] = s
  run s ((written, decoded) ∷ reads) = run (round s written decoded) reads
