-- ===== src/Gateway/Watcher/Tests.antt =====
-- Runs of gateway/watcher.go, and its theorems at a sample.
use tsjwt.Prelude.{◌≡◌, ap, none, some, [], ◌∷◌, List}
use tsjwt.Errors.{other, err, ok, Result}
use tsjwt.Gateway.Rules.Samples.{gateway, http_route, service, parse_sample, built, translated}
use tsjwt.Gateway.Watcher.{
  Watcher, Reads, read_table, replace_table, refresh, note_error, round, run, same_table,
}
use tsjwt.Routing.{Route}

abbrev idle : Watcher
idle = record { current = []; rev = 0; last_err = none }

abbrev reads : Reads
reads = record { gateway = ok gateway; routes = ok (http_route ∷ []); services = ok (service ∷ []) }

abbrev unreachable : Reads
unreachable = record { gateway = ok gateway; routes = err other; services = err other }

table_read : read_table parse_sample reads ≡ ok (built ∷ [])
unfolding read_table
table_read = ap ok translated

-- The table of the first round is kept while the API server cannot be reached.
kept :
    run parse_sample idle (reads ∷ unreachable ∷ [])
    ≡ record { current = built ∷ []; rev = 1; last_err = some other }
unfolding run round refresh replace_table note_error read_table same_table
kept =
    ap
      (λ (r : Result (List Route)).
        run parse_sample
          (note_error parse_sample (replace_table parse_sample idle r).0
            (replace_table parse_sample idle r).1)
          (unreachable ∷ []))
      table_read
