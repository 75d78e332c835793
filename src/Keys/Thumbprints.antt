-- ===== src/Keys/Thumbprints.antt =====
-- The published key set of keys/keys.go against the lookup: the same key ids, and only live ones.
use tsjwt.Prelude.{
  ltb, Bool-cases, some-injective, In, Any, Text, text_eq_iff, text_eq, ◌<◌, ◌≡◌, refl, ◌↔◌, ◌⊎◌,
  inl, inr, Bool, true, false, ◌&&◌, Option, none, some, List, [], ◌∷◌, ◌++◌, map, arith,
}
use tsjwt.GoTime.{Instant}
use tsjwt.Crypto.{Crypto}
use tsjwt.Keys.{Jwk, Key, Set, find_retired, find_key, public_key, retired_jwks, current_jwks, jwks}

abbrev pub kids : List Jwk → List Text
kids = map λ (j : Jwk). j.kid

abbrev pub is_some {ℓ} : {A : Type ℓ} → Option A → Bool
is_some none = false
is_some (some a) = true

module _ (c : Crypto) where
  retired_iff :
      (kid : Text) (now : Instant) (ks : List (Key c))
      → In kid (kids (retired_jwks c now ks)) ↔ (is_some (find_retired c kid now ks) ≡ true)
  unfolding retired_jwks find_retired
  retired_iff kid now [] = ground arith
  retired_iff kid now (k ∷ ks) = elim (Bool-cases (ltb now k.retires)) [
    | inl live ↦ rw live (elim (Bool-cases (text_eq k.kid kid)) [
      | inl hit ↦ rw hit ((λ _. refl), λ _. inl ((text_eq_iff k.kid kid).0 hit))
      | inr miss ↦ rw miss (
        λ i. elim i [
          | inl e ↦ cc (miss, (text_eq_iff k.kid kid).1 e)
          | inr j ↦ (retired_iff kid now ks).0 j
        ],
        λ h. inr ((retired_iff kid now ks).1 h),
      )
    ])
    | inr gone ↦ elim (Bool-cases (text_eq k.kid kid)) [
      | inl hit ↦ rw (gone, hit) (retired_iff kid now ks)
      | inr miss ↦ rw (gone, miss) (retired_iff kid now ks)
    ]
  ]

  find_key_iff :
      (kid : Text) (now : Instant) (o : Option (Key c)) (ks : List (Key c))
      → In kid (kids (current_jwks c o ++ retired_jwks c now ks))
        ↔ (is_some (find_key c kid now o ks) ≡ true)
  unfolding current_jwks find_key
  find_key_iff kid now none ks = retired_iff kid now ks
  find_key_iff kid now (some k) ks = elim (Bool-cases (text_eq k.kid kid)) [
    | inl hit ↦ rw hit ((λ _. refl), λ _. inl ((text_eq_iff k.kid kid).0 hit))
    | inr miss ↦ rw miss (
      λ i. elim i [
        | inl e ↦ cc (miss, (text_eq_iff k.kid kid).1 e)
        | inr j ↦ (retired_iff kid now ks).0 j
      ],
      λ h. inr ((retired_iff kid now ks).1 h),
    )
  ]

  -- The key set published at a time holds a key id exactly if PublicKey finds a key for it then.
  pub jwks-public_key :
      (s : Set c) (kid : Text) (now : Instant)
      → In kid (kids (jwks c s now)) ↔ (is_some (public_key c s kid now) ≡ true)
  unfolding jwks public_key
  jwks-public_key s kid now = find_key_iff kid now s.current s.retired

  find_retired-live :
      (kid : Text) (now : Instant) (ks : List (Key c)) {p : c.PublicKey}
      → find_retired c kid now ks ≡ some p
      → Any (λ (k : Key c). (k.kid ≡ kid) × (now < k.retires) × (c.public k.priv ≡ p)) ks
  unfolding find_retired
  find_retired-live kid now [] e = cc
  find_retired-live kid now (k ∷ ks) e =
      elim (Bool-cases (text_eq k.kid kid && ltb now k.retires)) [
        | inl hit ↦ inl (
          (text_eq_iff k.kid kid).0 (ground (arith, hit)),
          ground (arith, hit),
          some-injective (rw hit at e),
        )
        | inr miss ↦ inr (find_retired-live kid now ks (rw miss at e))
      ]

  find_key-live :
      (kid : Text) (now : Instant) (o : Option (Key c)) (ks : List (Key c)) {p : c.PublicKey}
      → find_key c kid now o ks ≡ some p
      → ((k : Key c) × (o ≡ some k) × (k.kid ≡ kid) × (c.public k.priv ≡ p))
        ⊎ Any (λ (k : Key c). (k.kid ≡ kid) × (now < k.retires) × (c.public k.priv ≡ p)) ks
  unfolding find_key
  find_key-live kid now none ks e = inr (find_retired-live kid now ks e)
  find_key-live kid now (some k) ks e = elim (Bool-cases (text_eq k.kid kid)) [
    | inl hit ↦ inl (k, refl, (text_eq_iff k.kid kid).0 hit, some-injective (rw hit at e))
    | inr miss ↦ inr (find_retired-live kid now ks (rw miss at e))
  ]

  -- A key that PublicKey returns is the current one, or a retired one whose window is still open.
  pub public_key-live :
      (s : Set c) (kid : Text) (now : Instant) {p : c.PublicKey}
      → public_key c s kid now ≡ some p
      → ((k : Key c) × (s.current ≡ some k) × (k.kid ≡ kid) × (c.public k.priv ≡ p))
        ⊎ Any (λ (k : Key c). (k.kid ≡ kid) × (now < k.retires) × (c.public k.priv ≡ p)) s.retired
  unfolding public_key
  public_key-live s kid now e = find_key-live kid now s.current s.retired e
