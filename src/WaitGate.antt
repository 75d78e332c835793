-- ===== src/WaitGate.antt =====
-- The wait gate of proxy/wait.go: what each of its locked sections does to the demand of a backend, and the
-- steps of the requests and probes around them. Probing a backend and the timers are not modelled: a probe
-- that succeeds, a request that gives up and a release may come at any point.
pub mod Balance
pub mod Moves
pub mod Reached
mod Tests
use tsjwt.Errors.{Error, cancelled, other, Result, err, ok}
use tsjwt.Prelude.{
  ◌==◌, if◌then◌else◌, length, In, Text, ℤ, pos, leb_ℤ, Dict, lookup, insert, ℕ, suc, ◌-◌, ◌≡◌,
  Bool, true, false, ◌&&◌, ◌||◌, Option, none, some, List, [], ◌∷◌,
}
use tsjwt.GoTime.{Instant, Duration}

pub record WaitConfig : Type 0 where
  pub timeout : Duration
  pub interval : Duration
  pub max_pending : ℤ
  pub max_backends : ℤ

-- The demand of one backend. A channel is a number.
pub record Demand : Type 0 where
  pub pending : ℕ
  pub active : ℕ
  pub last_activity : Instant
  pub checking : Bool
  pub changed : ℕ

-- The demands by upstream, the channels that were closed, and the number of the next channel.
pub record Gate : Type 0 where
  pub backends : Dict Demand
  pub closed : List ℕ
  pub next : ℕ

-- The demand of a backend that has no entry.
abbrev pub idle : Demand
idle = record { pending = 0; active = 0; last_activity = 0; checking = false; changed = 0 }

abbrev pub or_idle : Option Demand → Demand
or_idle none = idle
or_idle (some d) = d

unfoldable pub demand : Text → Gate → Demand
unfolding lookup
demand key g = or_idle (lookup key g.backends)

abbrev pub put : Text → Demand → Gate → Gate
put key d g = record g { backends = insert key d g.backends }

-- NewWaitGate
pub new_wait_gate : WaitConfig → Result Gate
new_wait_gate cfg =
    if leb_ℤ cfg.timeout (pos 0)
      || (leb_ℤ cfg.interval (pos 0)
          || (leb_ℤ cfg.max_pending (pos 0) || leb_ℤ cfg.max_backends (pos 0)))
    then err other
    else ok (record { backends = []; closed = []; next = 0 })

abbrev absent : Option Demand → Bool
absent none = true
absent (some d) = false

-- The start of Acquire, up to the first Unlock: the channel to wait on, or an error.
unfoldable pub arrive : WaitConfig → Bool → Instant → Text → Gate → Result ℕ × Gate
unfolding demand lookup insert
arrive cfg done now key g =
    let d = demand key g in
    if done
    then (err cancelled, g)
    else if absent (lookup key g.backends) && leb_ℤ cfg.max_backends (pos (length g.backends))
    then (err other, g)
    else if leb_ℤ cfg.max_pending (pos d.pending)
    then (err other, put key d g)
    else if d.checking
    then (ok d.changed, put key (record d { pending = suc d.pending; last_activity = now }) g)
    else (
      ok g.next,
      record g {
        backends =
            insert key
              (record d {
                pending = suc d.pending;
                last_activity = now;
                checking = true;
                changed = g.next;
              })
              g.backends;
        next = suc g.next;
      },
    )

-- The second locked section of Acquire; `woken` is err == nil.
unfoldable pub leave : Bool → Instant → Text → Gate → Gate
unfolding demand insert
leave woken now key g =
    let d = demand key g in
    let left = d.pending - 1 in
    put key
      (record d {
        pending = left;
        active = if woken then suc d.active else d.active;
        last_activity = now;
        checking = if (left == 0) && d.checking then false else d.checking;
      })
      g

-- The release function that Acquire returns, at its first call.
unfoldable pub release : Instant → Text → Gate → Gate
unfolding demand insert
release now key g =
    let d = demand key g in put key (record d { active = d.active - 1; last_activity = now }) g

-- check, after a probe that succeeded: the channel that it was started with.
unfoldable pub probed : Text → ℕ → Gate → Gate
unfolding demand insert
probed key ready g =
    let d = demand key g in
    if d.checking && (d.changed == ready)
    then record g {
      backends = insert key (record d { checking = false }) g.backends;
      closed = ready ∷ g.closed;
    }
    else g

-- The list without one of its elements.
pub data Removes {A : Type 0} (a : A) : List A → List A → Type 0 where
  here : {l : List A} → Removes a (a ∷ l) l
  there : {b : A} {l k : List A} → Removes a l k → Removes a (b ∷ l) (b ∷ k)

-- The gate, the requests that wait, each with its upstream and channel, and the upstreams of the requests
-- that hold a release function.
pub record World : Type 0 where
  pub gate : Gate
  pub waiting : List (Text × ℕ)
  pub holding : List Text

-- What can happen next.
pub data Step (cfg : WaitConfig) : World → World → Type 0 where
  arrives :
      {w : World} {g : Gate} (done : Bool) (now : Instant) (key : Text) (ready : ℕ)
      → arrive cfg done now key w.gate ≡ (ok ready, g)
      → Step cfg w (record w { gate = g; waiting = (key, ready) ∷ w.waiting })
  refused :
      {w : World} {g : Gate} (done : Bool) (now : Instant) (key : Text) (e : Error)
      → arrive cfg done now key w.gate ≡ (err e, g)
      → Step cfg w (record w { gate = g })
  wakes :
      {w : World} {rest : List (Text × ℕ)} (now : Instant) (key : Text) (ready : ℕ)
      → Removes (key, ready) w.waiting rest
      → In ready w.gate.closed
      → Step cfg w
          (record { gate = leave true now key w.gate; waiting = rest; holding = key ∷ w.holding })
  gives_up :
      {w : World} {rest : List (Text × ℕ)} (now : Instant) (key : Text) (ready : ℕ)
      → Removes (key, ready) w.waiting rest
      → Step cfg w (record w { gate = leave false now key w.gate; waiting = rest })
  releases :
      {w : World} {rest : List Text} (now : Instant) (key : Text)
      → Removes key w.holding rest
      → Step cfg w (record w { gate = release now key w.gate; holding = rest })
  probe_succeeds :
      {w : World} (key : Text) (ready : ℕ)
      → Step cfg w (record w { gate = probed key ready w.gate })

-- The worlds that the steps reach from a new gate.
pub data Reachable (cfg : WaitConfig) : World → Type 0 where
  start :
      {g : Gate}
      → new_wait_gate cfg ≡ ok g
      → Reachable cfg (record { gate = g; waiting = []; holding = [] })
  next : {w w' : World} → Reachable cfg w → Step cfg w w' → Reachable cfg w'
