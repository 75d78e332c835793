-- ===== src/WaitGate/Balance.antt =====
-- The counters and the channels of proxy/wait.go, at every point that its requests and probes can reach.
use tsjwt.Prelude.{
  if◌then◌else◌, In, Text, text_eq, pos, ◌≤ℤ◌, Dict, lookup-insert, lookup, insert, ℕ, ◌+◌, ◌<◌,
  ◌≡◌, refl, ◌⊎◌, inl, inr, Bool, true, false, Option, some, List, [], ◌∷◌, arith, text_eq_iff, ap,
  Bool-cases, subst,
}
use tsjwt.WaitGate.{WaitConfig, Demand, or_idle, demand, Removes, here, there, World, idle}

unfoldable pub count_waiting : Text → List (Text × ℕ) → ℕ
count_waiting k [] = 0
count_waiting k ((j, ready) ∷ l) = (if text_eq j k then 1 else 0) + count_waiting k l

unfoldable pub count_holding : Text → List Text → ℕ
count_holding k [] = 0
count_holding k (j ∷ l) = (if text_eq j k then 1 else 0) + count_holding k l

-- The demand of one backend fits the requests: it counts those that wait and those that hold a release
-- function, within the limit, a probe runs only while some request waits, and each request that waits has
-- a closed channel, or the one that the running probe will close.
pub record Balanced (cfg : WaitConfig) (d : Demand) (closed : List ℕ) (k : Text)
    (waiting : List (Text × ℕ)) (holding : List Text) : Type 0 where
  pub pending_ok : d.pending ≡ count_waiting k waiting
  pub active_ok : d.active ≡ count_holding k holding
  pub bounded : pos d.pending ≤ℤ cfg.max_pending
  pub probing : d.checking ≡ true → 0 < d.pending
  pub served :
      (ready : ℕ)
      → In (k, ready) waiting
      → In ready closed ⊎ ((d.checking ≡ true) × (d.changed ≡ ready))

abbrev pub IsBalanced : WaitConfig → World → Type 0
IsBalanced cfg w = (k : Text) → Balanced cfg (demand k w.gate) w.gate.closed k w.waiting w.holding

demand-insert :
    (k j : Text) (d : Demand) (m : Dict Demand)
    → or_idle (lookup j (insert k d m)) ≡ (if text_eq k j then d else or_idle (lookup j m))
demand-insert k j d m = rw (lookup-insert k j d m) (if_or_idle (text_eq k j) (lookup j m))
  where
    if_or_idle :
        (b : Bool) (o : Option Demand)
        → or_idle (if b then some d else o) ≡ (if b then d else or_idle o)
    if_or_idle true o = refl
    if_or_idle false o = refl

pub Removes-count_waiting :
    (key k : Text) (ready : ℕ) {l rest : List (Text × ℕ)}
    → Removes (key, ready) l rest
    → count_waiting k l ≡ (if text_eq key k then 1 else 0) + count_waiting k rest
unfolding count_waiting
Removes-count_waiting key k ready here = refl
Removes-count_waiting key k ready (there r) = omega (arith, Removes-count_waiting key k ready r)

pub Removes-count_holding :
    (key k : Text) {l rest : List Text}
    → Removes key l rest
    → count_holding k l ≡ (if text_eq key k then 1 else 0) + count_holding k rest
unfolding count_holding
Removes-count_holding key k here = refl
Removes-count_holding key k (there r) = omega (arith, Removes-count_holding key k r)

pub Removes-In : {A : Type 0} (a x : A) {l rest : List A} → Removes a l rest → In x rest → In x l
Removes-In a x here i = inr i
Removes-In a x (there r) (inl e) = inl e
Removes-In a x (there r) (inr i) = inr (Removes-In a x r i)

pub In-count_waiting :
    (k : Text) (ready : ℕ) (l : List (Text × ℕ)) → In (k, ready) l → 0 < count_waiting k l
unfolding count_waiting
In-count_waiting k ready [] i = absurd i
In-count_waiting k ready ((j, r) ∷ l) (inl e) =
    let same : j ≡ k = ap (λ (p : Text × ℕ). p.0) e in ground (arith, (text_eq_iff j k).1 same)
In-count_waiting k ready ((j, r) ∷ l) (inr i) = omega (arith, In-count_waiting k ready l i)

pub empty-Balanced :
    (cfg : WaitConfig) (k : Text) → pos 0 ≤ℤ cfg.max_pending → Balanced cfg idle [] k [] []
unfolding count_waiting count_holding
empty-Balanced cfg k h = record {
  pending_ok = refl;
  active_ok = refl;
  bounded = h;
  probing = λ c. absurd (cc c);
  served = λ r i. absurd i;
}

-- The balance of every backend, with the world in its parts.
abbrev pub AllBalanced : WaitConfig → Dict Demand → List ℕ → List (Text × ℕ) → List Text → Type 0
AllBalanced cfg backends closed waiting holding =
    (k : Text) → Balanced cfg (or_idle (lookup k backends)) closed k waiting holding

-- It is enough to look at the backend whose demand is replaced, and at each other one.
pub put-AllBalanced :
    (cfg : WaitConfig) (key : Text) (d : Demand) (m : Dict Demand) (closed : List ℕ)
    (waiting : List (Text × ℕ)) (holding : List Text)
    → Balanced cfg d closed key waiting holding
    → ((k : Text)
        → text_eq key k ≡ false
        → Balanced cfg (or_idle (lookup k m)) closed k waiting holding)
    → AllBalanced cfg (insert key d m) closed waiting holding
put-AllBalanced cfg key d m closed waiting holding own others k =
    rw (demand-insert key k d m) (elim (Bool-cases (text_eq key k)) [
      | inl hit ↦ rw hit (
          subst (λ (x : Text). Balanced cfg d closed x waiting holding) ((text_eq_iff key k).0 hit)
            own)
      | inr miss ↦ rw miss (others k miss)
    ])
