-- ===== src/Keys/Sharing/Union.antt =====
-- The union of keys that a replica serves, Published.JWKS of keys/shared.go.
use tsjwt.Prelude.{
  Bool-cases, In, Any, Text, text_eq_iff, ◌≤◌, ◌≡◌, inl, inr, true, List, [], ◌∷◌, has_iff, has,
  refl, ◌⊎◌, false, map, arith,
}
use tsjwt.Errors.{ok, Result-cases}
use mathlib.Core.Path.{subst}
use tsjwt.Prelude.Sort.{In-sort, sort-In}
use tsjwt.GoTime.{Instant, add_time}
use tsjwt.Crypto.{Crypto}
use tsjwt.Keys.{Jwk, thumbprint, public_from_xy, jwks}
use tsjwt.Keys.Sharing.{
  Entry, Published, derives, usable, jwk_of_entry, merge_entries, jwk_less, published_jwks,
}
use tsjwt.Keys.Sharing.Merge.{In-append_split}

module _ (c : Crypto) where
  -- A key added from the store: its point is a P-256 key, and its id is the thumbprint of that key.
  abbrev pub Derives : Jwk → Type 0
  Derives j = (k : c.PublicKey) × (public_from_xy c j.x j.y ≡ ok k) × (thumbprint c k ≡ j.kid)

  -- A stored entry within its lease and grace that the key was made from.
  abbrev pub ComesFrom : Published c → Instant → Jwk → Entry → Type 0
  ComesFrom p now j e =
      (e.kid ≡ j.kid) × (e.x ≡ j.x) × (e.y ≡ j.y) × (now ≤ add_time e.lease p.grace)

  derives-Derives : (e : Entry) → derives c e ≡ true → Derives (jwk_of_entry c e)
  unfolding derives
  derives-Derives e h = elim (Result-cases (public_from_xy c e.x e.y)) [
    | inl (k, found) ↦ (k, found, (text_eq_iff (thumbprint c k) e.kid).0 (rw (found, derives) at h))
    | inr (x, failed) ↦ cc (rw (failed, derives) at h)
  ]

  usable_sound :
      (p : Published c) (now : Instant) (seen : List Text) (e : Entry)
      → usable c p now seen e ≡ true
      → (has e.kid seen ≡ false) × (now ≤ add_time e.lease p.grace) × (derives c e ≡ true)
  unfolding usable
  usable_sound p now seen e h = ground arith

  merge_entries_sound :
      (p : Published c) (now : Instant) (j : Jwk) (seen : List Text) (es : List Entry)
      → In j (merge_entries c p now seen es)
      → Derives j × Any (ComesFrom p now j) es × (¬ In j.kid seen)
  unfolding merge_entries
  merge_entries_sound p now j seen [] i = absurd i
  merge_entries_sound p now j seen (e ∷ es) i = elim (Bool-cases (usable c p now seen e)) [
    | inr skip ↦ let (d, a, n) = merge_entries_sound p now j seen es (rw skip at i) in (d, inr a, n)
    | inl good ↦
        let (new, live, der) = usable_sound p now seen e good in
        let split_in : (jwk_of_entry c e ≡ j) ⊎ In j (merge_entries c p now (e.kid ∷ seen) es) =
          rw good at i in
        elim split_in [
          | inl here ↦
              subst (λ (k : Jwk). Derives k × Any (ComesFrom p now k) (e ∷ es) × (¬ In k.kid seen))
                here
                (
                  derives-Derives e der,
                  inl (refl, refl, refl, live),
                  λ old. cc (new, (has_iff e.kid seen).1 old),
                )
          | inr later ↦
              let (d, a, n) = merge_entries_sound p now j (e.kid ∷ seen) es later in
              (d, inr a, λ old. n (inr old))
        ]
  ]

  -- Every key of the served union is one of the replica's own, or it was made from a stored entry
  -- within its lease and grace, has no id of an own key, and its id is the thumbprint of its point.
  -- So a bad write to the store cannot put a key under the id of another key.
  pub published_jwks_sound :
      (p : Published c) (now : Instant) (j : Jwk)
      → In j (published_jwks c p now)
      → In j (jwks c p.local now)
        ⊎ (Derives j
            × Any (ComesFrom p now j) p.merged
            × (¬ In j.kid (map (λ (k : Jwk). k.kid) (jwks c p.local now))))
  unfolding published_jwks
  published_jwks_sound p now j i =
      elim ((In-append_split j (jwks c p.local now) _).0 (In-sort jwk_less j _ i)) [
        | inl own ↦ inl own
        | inr added ↦ inr (merge_entries_sound p now j _ p.merged added)
      ]

  -- The replica's own keys are always served, also before any publish has landed.
  pub own_key-served :
      (p : Published c) (now : Instant) (j : Jwk)
      → In j (jwks c p.local now)
      → In j (published_jwks c p now)
  unfolding published_jwks
  own_key-served p now j i =
      sort-In jwk_less j _ ((In-append_split j (jwks c p.local now) _).1 (inl i))
