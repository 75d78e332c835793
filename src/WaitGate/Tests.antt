-- ===== src/WaitGate/Tests.antt =====
-- A run of proxy/wait.go, and its theorems at a point of the run.
use tsjwt.Prelude.{
  In, Text, codes, text_eq, pos, lookup, insert, ◌≡◌, refl, inl, true, false, [], ◌∷◌,
}
use tsjwt.Errors.{other, err, ok}
use tsjwt.WaitGate.{
  WaitConfig, Demand, Gate, demand, new_wait_gate, arrive, leave, probed, World, arrives, Reachable,
  start, next,
}
use tsjwt.WaitGate.Balance.{IsBalanced}
use tsjwt.WaitGate.Reached.{Reachable-IsBalanced, waiting-wakes}

abbrev config : WaitConfig
config = record { timeout = pos 9; interval = pos 1; max_pending = pos 2; max_backends = pos 1 }

abbrev empty_gate : Gate
empty_gate = record { backends = []; closed = []; next = 0 }

abbrev upstream : Text
upstream = codes "http://a"

abbrev one_demand : Demand
one_demand = record { pending = 1; active = 0; last_activity = 5; checking = true; changed = 0 }

abbrev one_gate : Gate
one_gate = record { backends = (upstream, one_demand) ∷ []; closed = []; next = 1 }

abbrev one_waits : World
one_waits = record { gate = one_gate; waiting = (upstream, 0) ∷ []; holding = [] }

made : new_wait_gate config ≡ ok empty_gate
unfolding new_wait_gate
made = refl

arrived : arrive config false 5 upstream empty_gate ≡ (ok 0, one_gate)
unfolding arrive demand lookup insert
arrived = refl

-- Another backend is past the limit of one.
second_backend : arrive config false 6 (codes "http://b") one_gate ≡ (err other, one_gate)
unfolding arrive demand lookup insert text_eq
second_backend = refl

-- The request wakes after the probe, and holds the backend.
woken : leave true 7 upstream (probed upstream 0 one_gate) ≡ record {
  backends =
      (
        upstream,
        record { pending = 0; active = 1; last_activity = 7; checking = false; changed = 0 },
      )
      ∷ [];
  closed = 0 ∷ [];
  next = 1;
}
unfolding leave probed demand lookup insert text_eq
woken = refl

one_waits-Reachable : Reachable config one_waits
one_waits-Reachable = next (start made) (arrives false 5 upstream 0 arrived)

Reachable-IsBalanced_example : IsBalanced config one_waits
Reachable-IsBalanced_example = Reachable-IsBalanced config one_waits-Reachable

waiting-wakes_example : In 0 (probed upstream 0 one_gate).closed
waiting-wakes_example = waiting-wakes config upstream 0 one_waits-Reachable (inl refl)
