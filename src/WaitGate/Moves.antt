-- ===== src/WaitGate/Moves.antt =====
-- How one request or probe of proxy/wait.go moves the balance of a backend.
use tsjwt.Prelude.{
  ◌==◌, if◌then◌else◌, Text, text_eq_iff, text_eq_refl, text_eq, pos, leb_ℤ, ℕ, suc, ◌-◌, ◌≡◌, refl,
  sym, ap, ◌∙◌, inl, inr, Bool, true, false, ◌&&◌, List, ◌∷◌, arith,
}
use tsjwt.WaitGate.{WaitConfig, Demand, Removes}
use tsjwt.WaitGate.Balance.{
  count_waiting, count_holding, Balanced, Removes-count_waiting, Removes-count_holding, Removes-In,
  In-count_waiting,
}
use tsjwt.GoTime.{Instant}

-- A request of another backend joins those that wait.
pub joined-other :
    {cfg : WaitConfig} {d : Demand} {closed : List ℕ} {key k : Text} {ready : ℕ}
    {waiting : List (Text × ℕ)} {holding : List Text}
    → text_eq key k ≡ false
    → Balanced cfg d closed k waiting holding
    → Balanced cfg d closed k ((key, ready) ∷ waiting) holding
unfolding count_waiting
joined-other {key = key} {k = k} other_key b = record {
  pending_ok = rw other_key (omega (arith, b.pending_ok));
  active_ok = b.active_ok;
  bounded = b.bounded;
  probing = b.probing;
  served = λ r i. elim i [
    | inl e ↦ absurd (cc (other_key, (text_eq_iff key k).1 (ap (λ (p : Text × ℕ). p.0) e)))
    | inr old ↦ b.served r old
  ];
}

-- A request of this backend joins them, on the channel of a running probe.
pub joined-probe :
    {cfg : WaitConfig} {d : Demand} {closed : List ℕ} {k : Text} {waiting : List (Text × ℕ)}
    {holding : List Text} (now : Instant)
    → leb_ℤ cfg.max_pending (pos d.pending) ≡ false
    → d.checking ≡ true
    → Balanced cfg d closed k waiting holding
    → Balanced cfg
        (record d { pending = suc d.pending; last_activity = now })
        closed
        k
        ((k, d.changed) ∷ waiting)
        holding
unfolding count_waiting
joined-probe {k = k} now room on b = record {
  pending_ok = rw (text_eq_refl k) (omega (arith, b.pending_ok));
  active_ok = b.active_ok;
  bounded = ground (arith, room);
  probing = λ c. omega arith;
  served =
      λ r i. elim i [ inl e ↦ inr (on, ap (λ (p : Text × ℕ). p.1) e) | inr old ↦ b.served r old ];
}

-- A request of this backend joins them, and starts a probe with a new channel.
pub joined-new :
    {cfg : WaitConfig} {d : Demand} {closed : List ℕ} {k : Text} {waiting : List (Text × ℕ)}
    {holding : List Text} (now : Instant) (fresh : ℕ)
    → leb_ℤ cfg.max_pending (pos d.pending) ≡ false
    → d.checking ≡ false
    → Balanced cfg d closed k waiting holding
    → Balanced cfg
        (record d {
          pending = suc d.pending;
          last_activity = now;
          checking = true;
          changed = fresh;
        })
        closed
        k
        ((k, fresh) ∷ waiting)
        holding
unfolding count_waiting
joined-new {k = k} now fresh room off b = record {
  pending_ok = rw (text_eq_refl k) (omega (arith, b.pending_ok));
  active_ok = b.active_ok;
  bounded = ground (arith, room);
  probing = λ c. omega arith;
  served = λ r i. elim i [
    | inl e ↦ inr (refl, ap (λ (p : Text × ℕ). p.1) e)
    | inr old ↦ elim (b.served r old) [
      | inl done ↦ inl done
      | inr (on, same) ↦ absurd (cc (on, off))
    ]
  ];
}

-- A request of another backend stops waiting, and may then hold a release function.
pub left-other :
    {cfg : WaitConfig} {d : Demand} {closed : List ℕ} {key k : Text} {ready : ℕ}
    {waiting rest : List (Text × ℕ)} {holding : List Text}
    → text_eq key k ≡ false
    → Removes (key, ready) waiting rest
    → Balanced cfg d closed k waiting holding
    → Balanced cfg d closed k rest holding
left-other {key = key} {k = k} {ready = ready} other_key gone b =
    let fewer = Removes-count_waiting key k ready gone in
    let same = rw other_key at fewer in
    record {
      pending_ok = omega (arith, b.pending_ok, same);
      active_ok = b.active_ok;
      bounded = b.bounded;
      probing = b.probing;
      served = λ r i. b.served r (Removes-In (key, ready) (k, r) gone i);
    }

pub held-other :
    {cfg : WaitConfig} {d : Demand} {closed : List ℕ} {key k : Text} {waiting : List (Text × ℕ)}
    {holding : List Text}
    → text_eq key k ≡ false
    → Balanced cfg d closed k waiting holding
    → Balanced cfg d closed k waiting (key ∷ holding)
unfolding count_holding
held-other other_key b = record {
  pending_ok = b.pending_ok;
  active_ok = rw other_key (omega (arith, b.active_ok));
  bounded = b.bounded;
  probing = b.probing;
  served = b.served;
}

-- A request of this backend stops waiting; the last one ends the probe.
pub left-own :
    {cfg : WaitConfig} {d : Demand} {closed : List ℕ} {k : Text} {ready : ℕ}
    {waiting rest : List (Text × ℕ)} {holding : List Text} (now : Instant) (woken : Bool)
    → Removes (k, ready) waiting rest
    → Balanced cfg d closed k waiting holding
    → Balanced cfg
        (record d {
          pending = d.pending - 1;
          active = if woken then suc d.active else d.active;
          last_activity = now;
          checking = if ((d.pending - 1) == 0) && d.checking then false else d.checking;
        })
        closed
        k
        rest
        (if woken then k ∷ holding else holding)
unfolding count_holding
left-own {k = k} {ready = ready} {rest = rest} now woken gone b =
    let fewer = Removes-count_waiting k k ready gone in
    let one = rw (text_eq_refl k) at fewer in
    record {
      pending_ok = omega (arith, b.pending_ok, one);
      active_ok = ground (arith, b.active_ok, text_eq_refl k);
      bounded = omega (arith, b.bounded);
      probing = λ c. ground (arith, b.probing, c);
      served = λ r i.
          let some_wait = In-count_waiting k r rest i in
          let before = b.served r (Removes-In (k, ready) (k, r) gone i) in
          ground (arith, before, some_wait, b.pending_ok, one);
    }

pub released-own :
    {cfg : WaitConfig} {d : Demand} {closed : List ℕ} {k : Text} {waiting : List (Text × ℕ)}
    {holding rest : List Text} (now : Instant)
    → Removes k holding rest
    → Balanced cfg d closed k waiting holding
    → Balanced cfg (record d { active = d.active - 1; last_activity = now }) closed k waiting rest
released-own {k = k} now gone b =
    let fewer = Removes-count_holding k k gone in
    let one = rw (text_eq_refl k) at fewer in
    record {
      pending_ok = b.pending_ok;
      active_ok = omega (arith, b.active_ok, one);
      bounded = b.bounded;
      probing = b.probing;
      served = b.served;
    }

pub released-other :
    {cfg : WaitConfig} {d : Demand} {closed : List ℕ} {key k : Text} {waiting : List (Text × ℕ)}
    {holding rest : List Text}
    → text_eq key k ≡ false
    → Removes key holding rest
    → Balanced cfg d closed k waiting holding
    → Balanced cfg d closed k waiting rest
released-other {key = key} {k = k} other_key gone b =
    let fewer = Removes-count_holding key k gone in
    let same = rw other_key at fewer in
    record {
      pending_ok = b.pending_ok;
      active_ok = omega (arith, b.active_ok, same);
      bounded = b.bounded;
      probing = b.probing;
      served = b.served;
    }

-- The probe of this backend has closed its channel.
pub probed-own :
    {cfg : WaitConfig} {d : Demand} {closed : List ℕ} {k : Text} {waiting : List (Text × ℕ)}
    {holding : List Text} (ready : ℕ)
    → d.changed ≡ ready
    → Balanced cfg d closed k waiting holding
    → Balanced cfg (record d { checking = false }) (ready ∷ closed) k waiting holding
probed-own ready same b = record {
  pending_ok = b.pending_ok;
  active_ok = b.active_ok;
  bounded = b.bounded;
  probing = λ c. absurd (cc c);
  served = λ r i. elim (b.served r i) [
    | inl done ↦ inl (inr done)
    | inr (on, this) ↦ inl (inl (sym same ∙ this))
  ];
}

-- Another backend's channel was closed.
pub closed-more :
    {cfg : WaitConfig} {d : Demand} {closed : List ℕ} {k : Text} {waiting : List (Text × ℕ)}
    {holding : List Text} (ready : ℕ)
    → Balanced cfg d closed k waiting holding
    → Balanced cfg d (ready ∷ closed) k waiting holding
closed-more ready b = record {
  pending_ok = b.pending_ok;
  active_ok = b.active_ok;
  bounded = b.bounded;
  probing = b.probing;
  served = λ r i. elim (b.served r i) [ inl done ↦ inl (inr done) | inr now ↦ inr now ];
}
