-- ===== src/Gateway/Watcher.antt =====
-- The watcher of gateway/watcher.go: Refresh, sameTable, and the rounds of Run. What the client reads is an
-- argument, and so is url.Parse.
pub mod Follows
mod Tests
use tsjwt.Prelude.{if◌then◌else◌, Text, ℕ, ◌+◌, ◌%◌, ◌^◌, Bool, Option, none, some, List, [], ◌∷◌}
use tsjwt.Errors.{Error, Result, err, ok, ◌>>=◌, ◌>>◌}
use tsjwt.Gateway.{Gateway, HttpRoute, Service}
use tsjwt.Gateway.Rules.{translate}
use tsjwt.Routing.{Route}
use tsjwt.RouteTable.Source.{same_routes}

-- The fields that change. `rev` is a uint64, and `last_err` the last read failure.
pub record Watcher : Type 0 where
  pub current : List Route
  pub rev : ℕ
  pub last_err : Option Error

-- What one Refresh reads, in its order.
pub record Reads : Type 0 where
  pub gateway : Result Gateway
  pub routes : Result (List HttpRoute)
  pub services : Result (List Service)

-- sameTable, which is sameRoutes of the file source word for word.
unfoldable pub same_table : List Route → List Route → Bool
unfolding same_routes
same_table a b = same_routes a b

module _ (parse_url : Text → Option Text) where
  -- The table that the reads give.
  unfoldable pub read_table : Reads → Result (List Route)
  unfolding translate
  read_table r = do
    gw ← r.gateway
    routes ← r.routes
    services ← r.services
    ok (translate parse_url gw routes services).routes

  -- Refresh, after the reads; the last part is the table that OnChange is called with, if it is.
  replace_table : Watcher → Result (List Route) → Result (Unit {0}) × Watcher × Option (List Route)
  unfolding same_table
  replace_table w (err e) = (err e, w, none)
  replace_table w (ok table) =
      if same_table w.current table
      then (ok tt, w, none)
      else (ok tt, record w { current = table; rev = (w.rev + 1) % 2 ^ 64 }, some table)

  -- Refresh
  unfoldable pub refresh : Watcher → Reads → Result (Unit {0}) × Watcher × Option (List Route)
  unfolding replace_table read_table
  refresh w r = replace_table w (read_table r)

  note_error : Result (Unit {0}) → Watcher → Watcher
  note_error (err e) w = record w { last_err = some e }
  note_error (ok u) w = record w { last_err = none }

  -- A round of Run.
  pub round : Watcher → Reads → Watcher
  unfolding refresh note_error
  round w r = let (result, w', changed) = refresh w r in note_error result w'

  -- Run, for the reads of its rounds until the context ends.
  pub run : Watcher → List Reads → Watcher
  unfolding round
  run w [] = w
  run w (r ∷ rs) = run (round w r) rs
