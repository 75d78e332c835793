-- ===== src/Gateway/Watcher/Follows.antt =====
-- How the watcher of gateway/watcher.go follows the routes of its Gateway.
use tsjwt.Prelude.{
  Bool-cases, Text, ◌+◌, ◌%◌, ◌^◌, ◌≡◌, refl, ◌≢◌, inl, inr, Option, none, some, List, [], ◌∷◌, map,
}
use tsjwt.Errors.{Error, err, ok, Result}
use tsjwt.Gateway.Watcher.{Watcher, Reads, same_table, read_table, replace_table, refresh}
use tsjwt.Routing.{Route}
use tsjwt.RouteTable.Source.Tracks.{bare, same_routes_iff}

-- What a read leaves of the table, and the failure that it reports.
abbrev pub latest : List Route → Result (List Route) → List Route
latest table (err e) = table
latest table (ok new) = new

abbrev pub fault_of : Result (List Route) → Option Error
fault_of (err e) = some e
fault_of (ok table) = none

module _ (parse_url : Text → Option Text) where
  -- The abstract table: that of the last read that gave one, or the first.
  pub last_table : List Route → List Reads → List Route
  last_table table [] = table
  last_table table (r ∷ rs) = last_table (latest table (read_table parse_url r)) rs

  -- The failure of the last read.
  pub last_fault : Option Error → List Reads → Option Error
  last_fault was [] = was
  last_fault was (r ∷ rs) = last_fault (fault_of (read_table parse_url r)) rs

  -- A read that gives the same routes, in every field but the claim headers, changes neither the table nor the
  -- revision and calls nobody; any other table replaces the one held, counts as a change and is passed on.
  pub refresh-changes :
      (w : Watcher) (r : Reads) (table : List Route)
      → read_table parse_url r ≡ ok table
      → (map bare w.current ≡ map bare table → refresh parse_url w r ≡ (ok tt, w, none))
        × (map bare w.current ≢ map bare table
            → refresh parse_url w r
              ≡ (ok tt, record w { current = table; rev = (w.rev + 1) % 2 ^ 64 }, some table))
  unfolding refresh replace_table same_table
  refresh-changes w r table read = (
    λ same. rw read (rw ((same_routes_iff w.current table).1 same) refl),
    λ differs. elim (Bool-cases (same_table w.current table)) [
      | inl same ↦ absurd (differs ((same_routes_iff w.current table).0 same))
      | inr new ↦ rw read (rw new refl)
    ],
  )
