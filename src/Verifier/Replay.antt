-- ===== src/Verifier/Replay.antt =====
-- The in-memory replay guard of verifier/verifier.go: MemoryReplayGuard.
use tsjwt.Prelude.{
  ltb, if◌then◌else◌, Text, Dict, lookup, insert, ◌≤◌, ◌≡◌, Bool, true, false, Option, none, some,
  [], ◌∷◌, arith, text_eq_iff, text_eq_refl, lookup-insert, Bool-cases, some-injective, All, In,
  IsDistinct, text_eq, ◌<◌, refl, inl, inr, List, map, sym, subst, ◌⊎◌,
}
use tsjwt.GoTime.{Instant}

-- The map `seen`, from a token id to the time until which it is remembered.
abbrev pub Guard : Type 0
Guard = Dict Instant

-- The loop that forgets the ids whose time has passed.
purge : Instant → Guard → Guard
purge now [] = []
purge now ((k, t) ∷ g) = let rest = purge now g in if ltb t now then rest else (k, t) ∷ rest

is_some : Option Instant → Bool
is_some none = false
is_some (some t) = true

-- MemoryReplayGuard.Seen
unfoldable pub guard_seen : Guard → Text → Instant → Instant → Bool × Guard
unfolding purge is_some lookup insert
guard_seen g jti exp now =
    let live = purge now g in
    if is_some (lookup jti live) then (true, live) else (false, insert jti exp live)

lookup-purge :
    (k : Text) (now t : Instant) (g : Guard)
    → lookup k g ≡ some t
    → now ≤ t
    → lookup k (purge now g) ≡ some t
unfolding lookup purge
lookup-purge k now t [] e h = cc
lookup-purge k now t ((j, u) ∷ g) e h = ground (arith, lookup-purge k now t g)

-- A call remembers the id that it is given, or had it already.
pub seen-remembers :
    (g : Guard) (jti : Text) (exp now : Instant)
    → (guard_seen g jti exp now).0 ≡ false
    → lookup jti (guard_seen g jti exp now).1 ≡ some exp
unfolding guard_seen
seen-remembers g jti exp now e =
    ground (arith, lookup-insert jti jti exp (purge now g), text_eq_refl jti)

-- A call at a time up to `t` keeps an id that is remembered until `t`.
seen-keeps :
    (g : Guard) (k jti : Text) (exp now t : Instant)
    → lookup k g ≡ some t
    → now ≤ t
    → lookup k (guard_seen g jti exp now).1 ≡ some t
unfolding guard_seen
seen-keeps g k jti exp now t e h =
    ground
      (arith, lookup-purge k now t g e h, lookup-insert jti k exp (purge now g), text_eq_iff jti k)

-- A call: the token id, its expiry and the time of the call.
pub record Call : Type 0 where
  pub jti : Text
  pub exp : Instant
  pub at : Instant

-- The guard after a sequence of calls.
pub run_guard : Guard → List Call → Guard
unfolding guard_seen
run_guard g [] = g
run_guard g (c ∷ cs) = run_guard (guard_seen g c.jti c.exp c.at).1 cs

pub run-keeps :
    (k : Text) (t : Instant) (cs : List Call) (g : Guard)
    → lookup k g ≡ some t
    → All (λ (c : Call). c.at ≤ t) cs
    → lookup k (run_guard g cs) ≡ some t
unfolding run_guard
run-keeps k t [] g e early = e
run-keeps k t (c ∷ cs) g e early =
    run-keeps k t cs (guard_seen g c.jti c.exp c.at).1 (seen-keeps g k c.jti c.exp c.at t e early.0)
      early.1

pub remembered-seen :
    (g : Guard) (jti : Text) (exp now t : Instant)
    → lookup jti g ≡ some t
    → now ≤ t
    → (guard_seen g jti exp now).0 ≡ true
unfolding guard_seen
remembered-seen g jti exp now t e h = ground (arith, lookup-purge jti now t g e h)

-- A token id is taken once: after a call that was not a replay, and any calls at times up to the
-- expiry that it recorded, a further call with the same id at a time up to that expiry is a replay.
pub seen_once :
    (g : Guard) (jti : Text) (exp first now exp' : Instant) (cs : List Call)
    → (guard_seen g jti exp first).0 ≡ false
    → All (λ (c : Call). c.at ≤ exp) cs
    → now ≤ exp
    → (guard_seen (run_guard (guard_seen g jti exp first).1 cs) jti exp' now).0 ≡ true
seen_once g jti exp first now exp' cs fresh early h =
    remembered-seen _ jti exp' now exp
      (run-keeps jti exp cs _ (seen-remembers g jti exp first fresh) early) h

abbrev pub keys : Guard → List Text
keys = map λ (e : Text × Instant). e.0

lookup_absent : (k : Text) (g : Guard) → (¬ In k (keys g)) → lookup k g ≡ none
unfolding lookup
lookup_absent k [] n = refl
lookup_absent k ((j, t) ∷ g) n = elim (Bool-cases (text_eq j k)) [
  | inl hit ↦ absurd (n (inl ((text_eq_iff j k).0 hit)))
  | inr miss ↦ rw miss (lookup_absent k g (λ i. n (inr i)))
]

In-keys-purge : (k : Text) (now : Instant) (g : Guard) → In k (keys (purge now g)) → In k (keys g)
unfolding purge
In-keys-purge k now [] i = i
In-keys-purge k now ((j, t) ∷ g) i = ground (arith, In-keys-purge k now g)

purge-expired :
    (k : Text) (now t : Instant) (g : Guard)
    → IsDistinct (keys g)
    → lookup k g ≡ some t
    → t < now
    → lookup k (purge now g) ≡ none
unfolding lookup purge
purge-expired k now t [] d e h = refl
purge-expired k now t ((j, u) ∷ g) d e h = elim (Bool-cases (text_eq j k)) [
  | inl hit ↦
      let same : u ≡ t = some-injective (rw hit at e) in
      let gone : ltb u now ≡ true = ground arith in
      rw gone (
        lookup_absent k (purge now g)
          (λ i. d.0 (rw ((text_eq_iff j k).0 hit) (In-keys-purge k now g i))))
  | inr miss ↦ let rest = purge-expired k now t g d.1 (rw miss at e) h in ground (arith, miss, rest)
]

-- The guard forgets a token id as soon as the recorded expiry has passed: a call after it is not
-- taken for a replay.
pub forgotten-after-expiry :
    (g : Guard) (jti : Text) (exp now t : Instant)
    → IsDistinct (keys g)
    → lookup jti g ≡ some t
    → t < now
    → (guard_seen g jti exp now).0 ≡ false
unfolding guard_seen
forgotten-after-expiry g jti exp now t d e h = ground (arith, purge-expired jti now t g d e h)

purge-IsDistinct :
    (now : Instant) (g : Guard) → IsDistinct (keys g) → IsDistinct (keys (purge now g))
unfolding purge
purge-IsDistinct now [] d = tt
purge-IsDistinct now ((j, t) ∷ g) d = elim (Bool-cases (ltb t now)) [
  | inl gone ↦ rw gone (purge-IsDistinct now g d.1)
  | inr live ↦ rw live (λ i. d.0 (In-keys-purge j now g i), purge-IsDistinct now g d.1)
]

In-keys-insert :
    (k j : Text) (t : Instant) (g : Guard) → In k (keys (insert j t g)) → (k ≡ j) ⊎ In k (keys g)
unfolding insert
In-keys-insert k j t [] (inl e) = inl (sym e)
In-keys-insert k j t [] (inr i) = absurd i
In-keys-insert k j t ((i, u) ∷ g) h = elim (Bool-cases (text_eq i j)) [
  | inl hit ↦ elim (rw hit at h) [ inl e ↦ inl (sym e) | inr l ↦ inr (inr l) ]
  | inr miss ↦ elim (rw miss at h) [
    | inl e ↦ inr (inl e)
    | inr l ↦ elim (In-keys-insert k j t g l) [ inl e ↦ inl e | inr x ↦ inr (inr x) ]
  ]
]

insert-IsDistinct :
    (j : Text) (t : Instant) (g : Guard) → IsDistinct (keys g) → IsDistinct (keys (insert j t g))
unfolding insert
insert-IsDistinct j t [] d = (λ i. i, tt)
insert-IsDistinct j t ((i, u) ∷ g) d = elim (Bool-cases (text_eq i j)) [
  | inl hit ↦ rw hit (subst (λ (x : Text). ¬ In x (keys g)) ((text_eq_iff i j).0 hit) d.0, d.1)
  | inr miss ↦ rw miss (
    λ h. elim (In-keys-insert i j t g h) [
      | inl e ↦ cc (miss, (text_eq_iff i j).1 e)
      | inr l ↦ d.0 l
    ],
    insert-IsDistinct j t g d.1,
  )
]

-- A call keeps the ids of the guard distinct.
pub guard_seen-IsDistinct :
    (g : Guard) (jti : Text) (exp now : Instant)
    → IsDistinct (keys g)
    → IsDistinct (keys (guard_seen g jti exp now).1)
unfolding guard_seen
guard_seen-IsDistinct g jti exp now d =
    let live = purge-IsDistinct now g d in
    elim (Bool-cases (is_some (lookup jti (purge now g)))) [
      | inl dup ↦ rw dup live
      | inr fresh ↦ rw fresh (insert-IsDistinct jti exp (purge now g) live)
    ]

pub run_guard-IsDistinct :
    (cs : List Call) (g : Guard) → IsDistinct (keys g) → IsDistinct (keys (run_guard g cs))
unfolding run_guard
run_guard-IsDistinct [] g d = d
run_guard-IsDistinct (c ∷ cs) g d =
    run_guard-IsDistinct cs (guard_seen g c.jti c.exp c.at).1
      (guard_seen-IsDistinct g c.jti c.exp c.at d)
