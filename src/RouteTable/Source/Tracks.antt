-- ===== src/RouteTable/Source/Tracks.antt =====
-- How the table in use follows the file in routetable/filesource.go.
use tsjwt.Prelude.{
  Bool-cases, Text, text_eq_iff, ◌≡◌, refl, ◌↔◌, inl, inr, Bool, true, false, Option, none, some,
  List, [], ◌∷◌, map, arith,
}
use tsjwt.Errors.{Result, err, ok}
use tsjwt.RouteTable.Source.{
  FileSource, hostnames_same, upstream_same, route_same, same_routes, took, refresh,
}
use tsjwt.RouteTable.{RouteFile, Url, parse, read_route_file}
use tsjwt.Routing.{Route}

-- A route without its claim headers.
abbrev pub bare : Route → Route
bare r = record r { claim_headers = [] }

hostnames_same_iff : (a b : List Text) → (hostnames_same a b ≡ true) ↔ (a ≡ b)
unfolding hostnames_same
hostnames_same_iff [] [] = ((λ h. refl), λ h. refl)
hostnames_same_iff [] (b ∷ l) = ((λ h. cc), λ h. cc)
hostnames_same_iff (a ∷ k) [] = ((λ h. cc), λ h. cc)
hostnames_same_iff (a ∷ k) (b ∷ l) = ground (arith, text_eq_iff a b, hostnames_same_iff k l)

upstream_same_iff : (a b : Option Text) → (upstream_same a b ≡ true) ↔ (a ≡ b)
unfolding upstream_same
upstream_same_iff none none = ((λ h. refl), λ h. refl)
upstream_same_iff none (some b) = ((λ h. cc), λ h. cc)
upstream_same_iff (some a) none = ((λ h. cc), λ h. cc)
upstream_same_iff (some a) (some b) = ground (arith, text_eq_iff a b)

route_same_iff : (a b : Route) → (route_same a b ≡ true) ↔ (bare a ≡ bare b)
unfolding route_same
route_same_iff a b = ground (
  arith,
  text_eq_iff a.name b.name,
  text_eq_iff a.path_prefix b.path_prefix,
  text_eq_iff a.audience b.audience,
  text_eq_iff a.tenant b.tenant,
  upstream_same_iff a.upstream b.upstream,
  hostnames_same_iff a.hostnames b.hostnames,
)

pub same_routes_iff : (a b : List Route) → (same_routes a b ≡ true) ↔ (map bare a ≡ map bare b)
unfolding same_routes
same_routes_iff [] [] = ((λ h. refl), λ h. refl)
same_routes_iff [] (b ∷ l) = ((λ h. cc), λ h. cc)
same_routes_iff (a ∷ k) [] = ((λ h. cc), λ h. cc)
same_routes_iff (a ∷ k) (b ∷ l) = ground (arith, route_same_iff a b, same_routes_iff k l)

module _ (parse_url : Text → Option Url) where
  -- After a read the table in use and the file agree in all but the claim headers, and the revision is the
  -- file's.
  pub record Agrees (f : RouteFile) (routes : List Route) (s : FileSource) : Type 0 where
    pub table_ok : map bare s.current ≡ map bare routes
    pub revision_ok : s.revision ≡ f.revision
    pub is_loaded : s.loaded ≡ true
    pub is_current : s.from_cache ≡ false

  -- What Refresh leaves, by what the read gave.
  abbrev pub Tracks :
      FileSource
      → Result (RouteFile × List Route)
      → Result (Unit {0}) × FileSource × Option (List Route)
      → Type 0
  Tracks s (err e) a = a ≡ (err e, s, none)
  Tracks s (ok (f, routes)) a = (a.0 ≡ ok tt) × Agrees f routes a.1

  took-Tracks :
      (s : FileSource) (written : Bool) (r : Result (RouteFile × List Route))
      → Tracks s r (took parse_url s written r)
  unfolding took
  took-Tracks s written (err e) = refl
  took-Tracks s written (ok (f, routes)) = elim (Bool-cases (same_routes s.current routes)) [
    | inl same ↦ rw same (
      refl,
      record {
        table_ok = (same_routes_iff s.current routes).0 same;
        revision_ok = refl;
        is_loaded = refl;
        is_current = refl;
      },
    )
    | inr changed ↦
        rw changed (
          refl,
          record { table_ok = refl; revision_ok = refl; is_loaded = refl; is_current = refl },
        )
  ]

  -- A file that cannot be read or parsed leaves the source as it was, with the error. Otherwise Refresh
  -- succeeds, the table in use agrees with the file in every field but the claim headers, and the revision
  -- is the file's.
  pub refresh-Tracks :
      (s : FileSource) (written : Bool) (decoded : Result RouteFile)
      → Tracks s (read_route_file parse_url decoded) (refresh parse_url s written decoded)
  unfolding refresh
  refresh-Tracks s written decoded = took-Tracks s written (read_route_file parse_url decoded)

  -- An edit of the claim headers alone is not taken: Refresh reports success and the new revision, and leaves
  -- the routes in use, their claim headers included, as they were.
  pub refresh-claim_headers :
      (s : FileSource) (written : Bool) (f : RouteFile) (routes : List Route)
      → parse parse_url f ≡ ok routes
      → map bare s.current ≡ map bare routes
      → refresh parse_url s written (ok f)
        ≡ (ok tt, record s { revision = f.revision; loaded = true; from_cache = false }, none)
  unfolding refresh took read_route_file
  refresh-claim_headers s written f routes p same =
      rw p (rw ((same_routes_iff s.current routes).1 same) refl)
