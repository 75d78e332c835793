-- ===== src/Keys/Rotation.antt =====
-- Rotation in keys/keys.go: what verifies and for how long.
use tsjwt.Prelude.{
  ltb, Bool-cases, All, Any, Text, text_eq_iff, text_eq, ◌≤◌, ◌<◌, ◌≡◌, refl, sym, ◌∙◌, inl, inr,
  ◌&&◌, Option, none, some, List, [], ◌∷◌, ◌++◌, arith, some-injective, pos, ℕ, ◌+◌, ◌*◌, ◌^◌,
}
use mathlib.Core.Path.{subst}
use tsjwt.GoTime.{Instant, Duration, add_time, second, add_time-pos}
use tsjwt.Crypto.{Crypto}
use tsjwt.Keys.{thumbprint, Key, Set, prune, retire, rotate, find_retired, public_key, find_key}

module _ (c : Crypto) where
  abbrev IsDerived : Key c → Type 0
  IsDerived k = k.kid ≡ thumbprint c (c.public k.priv)

  -- Every key id of the set is the thumbprint of its key.
  pub record SetIsValid (s : Set c) : Type 0 where
    pub current_ok : (k : Key c) → s.current ≡ some k → k.kid ≡ thumbprint c (c.public k.priv)
    pub retired_ok : All (λ (k : Key c). k.kid ≡ thumbprint c (c.public k.priv)) s.retired

  prune-All :
      (P : Key c → Type 0) (now : Instant) (ks : List (Key c)) → All P ks → All P (prune c now ks)
  unfolding prune
  prune-All P now [] h = tt
  prune-All P now (k ∷ ks) h = elim (Bool-cases (ltb now k.retires)) [
    | inl live ↦ rw live (h.0, prune-All P now ks h.1)
    | inr gone ↦ rw gone (prune-All P now ks h.1)
  ]

  All-snoc :
      (P : Key c → Type 0) (ks : List (Key c)) (k : Key c) → All P ks → P k → All P (ks ++ k ∷ [])
  All-snoc P [] k h p = (p, tt)
  All-snoc P (j ∷ ks) k h p = (h.0, All-snoc P ks k h.1 p)

  retire-All :
      (P : Key c → Type 0) (now : Instant) (overlap : Duration) (o : Option (Key c))
      (ks : List (Key c))
      → ((k : Key c) → o ≡ some k → P (record k { retires = add_time now overlap }))
      → All P ks
      → All P (retire c now overlap o ks)
  unfolding retire
  retire-All P now overlap none ks p h = h
  retire-All P now overlap (some k) ks p h = All-snoc P ks _ h (p k refl)

  -- Rotation keeps every key id the thumbprint of its key, whether the new key was generated or not.
  pub rotate-SetIsValid :
      (generated : Option c.PrivateKey) (now : Instant) (s : Set c)
      → SetIsValid s
      → SetIsValid (rotate c generated now s).1
  unfolding rotate
  rotate-SetIsValid none now s v = v
  rotate-SetIsValid (some priv) now s v = record {
    current_ok = λ k e. subst IsDerived (some-injective e) refl;
    retired_ok =
        prune-All IsDerived now _
          (retire-All IsDerived now s.overlap s.current s.retired v.current_ok v.retired_ok);
  }

  -- The key id verifies at `t`, with a key whose thumbprint it is.
  abbrev pub Verifies : Set c → Text → Instant → Type 0
  Verifies s kid t = (p : c.PublicKey) × (public_key c s kid t ≡ some p) × (thumbprint c p ≡ kid)

  -- A retired key of the list has the id and is live until `until`.
  abbrev LiveUntil : Text → Instant → List (Key c) → Type 0
  LiveUntil kid until ks = Any (λ (k : Key c). (k.kid ≡ kid) × (until ≤ k.retires)) ks

  find_retired-live :
      (kid : Text) (t until : Instant) (ks : List (Key c))
      → All IsDerived ks
      → t < until
      → LiveUntil kid until ks
      → (p : c.PublicKey) × (find_retired c kid t ks ≡ some p) × (thumbprint c p ≡ kid)
  unfolding find_retired
  find_retired-live kid t until [] d h l = absurd l
  find_retired-live kid t until (k ∷ ks) d h l =
      elim (Bool-cases (text_eq k.kid kid && ltb t k.retires)) [
        | inl hit ↦
            (c.public k.priv, rw hit, sym d.0 ∙ (text_eq_iff k.kid kid).0 (ground (arith, hit)))
        | inr miss ↦ rw miss (
            find_retired-live kid t until ks d.1 h (elim l [
              | inl (same, late) ↦ absurd (ground (arith, text_eq_iff k.kid kid))
              | inr later ↦ later
            ]))
      ]

  prune-LiveUntil :
      (kid : Text) (until now : Instant) (ks : List (Key c))
      → now < until
      → LiveUntil kid until ks
      → LiveUntil kid until (prune c now ks)
  unfolding prune
  prune-LiveUntil kid until now [] h l = l
  prune-LiveUntil kid until now (k ∷ ks) h (inl (e, r)) = ground arith
  prune-LiveUntil kid until now (k ∷ ks) h (inr l) =
      ground (arith, prune-LiveUntil kid until now ks h l)

  LiveUntil-snoc :
      (kid : Text) (until : Instant) (ks : List (Key c)) (k : Key c)
      → LiveUntil kid until ks
      → LiveUntil kid until (ks ++ k ∷ [])
  LiveUntil-snoc kid until [] k l = absurd l
  LiveUntil-snoc kid until (j ∷ ks) k (inl h) = inl h
  LiveUntil-snoc kid until (j ∷ ks) k (inr l) = inr (LiveUntil-snoc kid until ks k l)

  snoc-LiveUntil :
      (kid : Text) (until : Instant) (ks : List (Key c)) (k : Key c)
      → k.kid ≡ kid
      → until ≤ k.retires
      → LiveUntil kid until (ks ++ k ∷ [])
  snoc-LiveUntil kid until [] k e h = inl (e, h)
  snoc-LiveUntil kid until (j ∷ ks) k e h = inr (snoc-LiveUntil kid until ks k e h)

  retire-LiveUntil :
      (kid : Text) (until now : Instant) (overlap : Duration) (o : Option (Key c))
      (ks : List (Key c))
      → LiveUntil kid until ks
      → LiveUntil kid until (retire c now overlap o ks)
  unfolding retire
  retire-LiveUntil kid until now overlap none ks l = l
  retire-LiveUntil kid until now overlap (some k) ks l = LiveUntil-snoc kid until ks _ l

  find_key-live :
      (kid : Text) (t until : Instant) (o : Option (Key c)) (ks : List (Key c))
      → ((k : Key c) → o ≡ some k → IsDerived k)
      → All IsDerived ks
      → t < until
      → LiveUntil kid until ks
      → (p : c.PublicKey) × (find_key c kid t o ks ≡ some p) × (thumbprint c p ≡ kid)
  unfolding find_key
  find_key-live kid t until none ks cur d h l = find_retired-live kid t until ks d h l
  find_key-live kid t until (some k) ks cur d h l = elim (Bool-cases (text_eq k.kid kid)) [
    | inl hit ↦ (c.public k.priv, rw hit refl, sym (cur k refl) ∙ (text_eq_iff k.kid kid).0 hit)
    | inr miss ↦ rw miss (find_retired-live kid t until ks d h l)
  ]

  -- Successful rotations, each with its key and its time.
  pub run_rotations : Set c → List (c.PrivateKey × Instant) → Set c
  run_rotations s [] = s
  run_rotations s ((priv, now) ∷ rs) = run_rotations (rotate c (some priv) now s).1 rs

  run-keeps :
      (kid : Text) (until : Instant) (rs : List (c.PrivateKey × Instant)) (s : Set c)
      → All (λ (r : c.PrivateKey × Instant). r.1 < until) rs
      → SetIsValid s
      → LiveUntil kid until s.retired
      → SetIsValid (run_rotations s rs) × LiveUntil kid until (run_rotations s rs).retired
  unfolding run_rotations
  run-keeps kid until [] s early v l = (v, l)
  run-keeps kid until ((priv, now) ∷ rs) s early v l =
      run-keeps kid until rs (rotate c (some priv) now s).1 early.1
        (rotate-SetIsValid (some priv) now s v)
        (unfold rotate in
          prune-LiveUntil kid until now _ early.0
            (retire-LiveUntil kid until now s.overlap s.current s.retired l))

  first_rotation-LiveUntil :
      (k : Key c) (priv : c.PrivateKey) (now overlap : ℕ) (s : Set c)
      → s.current ≡ some k
      → s.overlap ≡ pos overlap
      → 0 < overlap
      → now + overlap < 2 ^ 64 * second
      → LiveUntil k.kid (now + overlap) (rotate c (some priv) now s).1.retired
  unfolding rotate
  first_rotation-LiveUntil k priv now overlap s cur ov h fits =
      rw (cur, ov)
        (prune-LiveUntil k.kid (now + overlap) now _ (omega arith) (
          unfold retire in
          snoc-LiveUntil k.kid (now + overlap) s.retired _ refl
            (omega (arith, add_time-pos now overlap fits))))

  -- A rotation is invisible to callers for the overlap: the key that was current when a rotation ran
  -- still verifies at every time before the end of its overlap window, however many further
  -- rotations ran inside that window, and the key that is found has the id as its thumbprint.
  pub rotated_key-Verifies :
      (k : Key c) (priv : c.PrivateKey) (now overlap t : ℕ) (s : Set c)
      (rs : List (c.PrivateKey × Instant))
      → SetIsValid s
      → s.current ≡ some k
      → s.overlap ≡ pos overlap
      → now + overlap < 2 ^ 64 * second
      → All (λ (r : c.PrivateKey × Instant). r.1 < now + overlap) rs
      → now ≤ t
      → t < now + overlap
      → Verifies (run_rotations s ((priv, now) ∷ rs)) k.kid t
  unfolding public_key run_rotations
  rotated_key-Verifies k priv now overlap t s rs v cur ov fits early from before =
      let (v', l) =
        run-keeps k.kid (now + overlap) rs (rotate c (some priv) now s).1 early
          (rotate-SetIsValid (some priv) now s v)
          (first_rotation-LiveUntil k priv now overlap s cur ov (omega arith) fits) in
      find_key-live k.kid t (now + overlap) _ _ v'.current_ok v'.retired_ok before l
