-- ===== src/WaitGate/Reached.antt =====
-- What holds at every point that the requests and probes of proxy/wait.go reach.
use tsjwt.Prelude.{
  ◌==◌, ==_iff, Bool-cases, In, Text, pos, ◌≤ℤ◌, leb_ℤ, lookup, insert, ℕ, suc, ◌≡◌, subst, ◌⊎◌,
  inl, inr, Bool, true, false, ◌&&◌, [], ◌∷◌, arith,
}
use tsjwt.Errors.{Error, err, ok}
use tsjwt.WaitGate.{
  WaitConfig, Gate, or_idle, demand, put, new_wait_gate, arrive, leave, release, probed, World,
  Step, arrives, refused, wakes, gives_up, releases, probe_succeeds, Reachable, start, next,
}
use tsjwt.WaitGate.Balance.{Balanced, IsBalanced, empty-Balanced, AllBalanced, put-AllBalanced}
use tsjwt.WaitGate.Moves.{
  joined-other, joined-probe, joined-new, left-other, held-other, left-own, released-own,
  released-other, probed-own, closed-more,
}
use tsjwt.GoTime.{Instant}

-- What arrive does when it lets a request wait.
Joined : WaitConfig → Instant → Text → Gate → ℕ → Gate → Type 0
Joined cfg now key g ready g' =
    let d = demand key g in
    (leb_ℤ cfg.max_pending (pos d.pending) ≡ false)
    × (((d.checking ≡ true)
          × (d.changed ≡ ready)
          × (put key (record d { pending = suc d.pending; last_activity = now }) g ≡ g'))
        ⊎ ((d.checking ≡ false)
            × (g.next ≡ ready)
            × (record g {
              backends =
                  insert key
                    (record d {
                      pending = suc d.pending;
                      last_activity = now;
                      checking = true;
                      changed = g.next;
                    })
                    g.backends;
              next = suc g.next;
            }
                ≡ g')))

arrive-Joined :
    (cfg : WaitConfig) (done : Bool) (now : Instant) (key : Text) (g : Gate) {ready : ℕ} {g' : Gate}
    → arrive cfg done now key g ≡ (ok ready, g')
    → Joined cfg now key g ready g'
unfolding arrive Joined
arrive-Joined cfg done now key g e = ground arith

arrive-kept :
    (cfg : WaitConfig) (done : Bool) (now : Instant) (key : Text) (g : Gate) {e : Error} {g' : Gate}
    → arrive cfg done now key g ≡ (err e, g')
    → (g ≡ g') ⊎ (put key (demand key g) g ≡ g')
unfolding arrive
arrive-kept cfg done now key g h = ground arith

arrives-IsBalanced :
    (cfg : WaitConfig) (w : World) (now : Instant) (key : Text) (ready : ℕ) (g : Gate)
    → Joined cfg now key w.gate ready g
    → IsBalanced cfg w
    → IsBalanced cfg (record w { gate = g; waiting = (key, ready) ∷ w.waiting })
unfolding Joined demand
arrives-IsBalanced cfg w now key ready g (room, inl (on, same, put_it)) b =
    subst (λ (x : Gate). AllBalanced cfg x.backends x.closed ((key, ready) ∷ w.waiting) w.holding)
      put_it
      (put-AllBalanced cfg key _ w.gate.backends w.gate.closed _ w.holding
        (subst
          (λ (r : ℕ).
            Balanced cfg
              (record (demand key w.gate) {
                pending = suc (demand key w.gate).pending;
                last_activity = now;
              })
              w.gate.closed key ((key, r) ∷ w.waiting) w.holding)
          same (joined-probe now room on (b key)))
        (λ k miss. joined-other miss (b k)))
arrives-IsBalanced cfg w now key ready g (room, inr (off, same, put_it)) b =
    subst (λ (x : Gate). AllBalanced cfg x.backends x.closed ((key, ready) ∷ w.waiting) w.holding)
      put_it
      (put-AllBalanced cfg key _ w.gate.backends w.gate.closed _ w.holding
        (subst
          (λ (r : ℕ).
            Balanced cfg
              (record (demand key w.gate) {
                pending = suc (demand key w.gate).pending;
                last_activity = now;
                checking = true;
                changed = w.gate.next;
              })
              w.gate.closed key ((key, r) ∷ w.waiting) w.holding)
          same (joined-new now w.gate.next room off (b key)))
        (λ k miss. joined-other miss (b k)))

refused-IsBalanced :
    (cfg : WaitConfig) (w : World) (key : Text) (g : Gate)
    → (w.gate ≡ g) ⊎ (put key (demand key w.gate) w.gate ≡ g)
    → IsBalanced cfg w
    → IsBalanced cfg (record w { gate = g })
unfolding demand
refused-IsBalanced cfg w key g (inl same) b =
    subst (λ (x : Gate). AllBalanced cfg x.backends x.closed w.waiting w.holding) same b
refused-IsBalanced cfg w key g (inr same) b =
    subst (λ (x : Gate). AllBalanced cfg x.backends x.closed w.waiting w.holding) same
      (put-AllBalanced cfg key _ w.gate.backends w.gate.closed w.waiting w.holding (b key)
        (λ k miss. b k))

probed-IsBalanced :
    (cfg : WaitConfig) (w : World) (key : Text) (ready : ℕ)
    → IsBalanced cfg w
    → IsBalanced cfg (record w { gate = probed key ready w.gate })
unfolding probed demand
probed-IsBalanced cfg w key ready b =
    elim (Bool-cases (
      (or_idle (lookup key w.gate.backends)).checking
      && ((or_idle (lookup key w.gate.backends)).changed == ready))) [
        | inl hit ↦ rw hit (
            put-AllBalanced cfg key _ w.gate.backends (ready ∷ w.gate.closed) w.waiting w.holding
              (probed-own ready
                (ground (arith, hit, ==_iff (or_idle (lookup key w.gate.backends)).changed ready))
                (b key))
              (λ k miss. closed-more ready (b k)))
        | inr miss ↦ rw miss b
      ]

Step-IsBalanced :
    (cfg : WaitConfig) {w w' : World} → Step cfg w w' → IsBalanced cfg w → IsBalanced cfg w'
unfolding leave release demand
Step-IsBalanced cfg {w} (arrives {g = g} done now key ready e) b =
    arrives-IsBalanced cfg w now key ready g (arrive-Joined cfg done now key w.gate e) b
Step-IsBalanced cfg {w} (refused {g = g} done now key e h) b =
    refused-IsBalanced cfg w key g (arrive-kept cfg done now key w.gate h) b
Step-IsBalanced cfg {w} (wakes {rest = rest} now key ready gone done) b =
    put-AllBalanced cfg key _ w.gate.backends w.gate.closed rest (key ∷ w.holding)
      (left-own now true gone (b key)) (λ k miss. held-other miss (left-other miss gone (b k)))
Step-IsBalanced cfg {w} (gives_up {rest = rest} now key ready gone) b =
    put-AllBalanced cfg key _ w.gate.backends w.gate.closed rest w.holding
      (left-own now false gone (b key)) (λ k miss. left-other miss gone (b k))
Step-IsBalanced cfg {w} (releases {rest = rest} now key gone) b =
    put-AllBalanced cfg key _ w.gate.backends w.gate.closed w.waiting rest
      (released-own now gone (b key)) (λ k miss. released-other miss gone (b k))
Step-IsBalanced cfg {w} (probe_succeeds key ready) b = probed-IsBalanced cfg w key ready b

-- A new gate has no demand, and positive limits.
new-empty :
    (cfg : WaitConfig) {g : Gate}
    → new_wait_gate cfg ≡ ok g
    → (record { backends = []; closed = []; next = 0 } ≡ g) × (pos 0 ≤ℤ cfg.max_pending)
unfolding new_wait_gate
new-empty cfg e = ground arith

start-IsBalanced :
    (cfg : WaitConfig) {g : Gate}
    → new_wait_gate cfg ≡ ok g
    → IsBalanced cfg (record { gate = g; waiting = []; holding = [] })
unfolding demand lookup
start-IsBalanced cfg e =
    let (empty, positive) = new-empty cfg e in
    subst (λ (x : Gate). IsBalanced cfg (record { gate = x; waiting = []; holding = [] })) empty
      (λ k. empty-Balanced cfg k positive)

-- At every point that the gate reaches, the counters of each backend are the numbers of the requests that
-- wait and that hold it, the pending ones are within MaxPending, a probe runs only while a request waits,
-- and each request that waits has a closed channel, or the one that the running probe will close.
pub Reachable-IsBalanced : (cfg : WaitConfig) {w : World} → Reachable cfg w → IsBalanced cfg w
Reachable-IsBalanced cfg (start e) = start-IsBalanced cfg e
Reachable-IsBalanced cfg (next r s) = Step-IsBalanced cfg s (Reachable-IsBalanced cfg r)

-- At every point that the gate reaches, if the probe that a waiting request's channel stands for succeeds
-- next, the channel is closed afterwards.
pub waiting-wakes :
    (cfg : WaitConfig) {w : World} (key : Text) (ready : ℕ)
    → Reachable cfg w
    → In (key, ready) w.waiting
    → In ready (probed key ready w.gate).closed
unfolding probed
waiting-wakes cfg {w} key ready r i =
    let b = Reachable-IsBalanced cfg r key in let s = b.served ready i in ground (arith, s)
