-- ===== src/Verifier/Remote/Cache.antt =====
-- What the cache of verifier/remote.go promises: bound key ids, a ceiling on staleness, a rate limit.
use tsjwt.Prelude.{
  Bool-cases, some-injective, All, Text, codes, text_eq_iff, text_eq, Dict, lookup, insert, ◌≡◌,
  refl, sym, ap, ◌∙◌, ◌⊎◌, inl, inr, Bool, true, false, ◌&&◌, ◌||◌, Option, none, some, List, [],
  ◌∷◌, arith,
}
use tsjwt.Errors.{
  no_key, other, Result, ok, err, guard, or_fail, >>=-eq-ok, guard-eq-ok, ok-injective,
}
use tsjwt.GoTime.{Instant}
use tsjwt.Crypto.{Crypto}
use tsjwt.Keys.{Jwk, thumbprint, public_from_xy}
use tsjwt.Verifier.Remote.{
  Meets, RemoteKeys, jwk_to_public, add_key, parse_set, install, fetched, refresh, found_in,
  stale_key, unknown_key, is_fresh, key_for, remote_key,
}

module _ (c : Crypto) where
  abbrev Bound : Text × c.PublicKey → Type 0
  Bound e = thumbprint c e.1 ≡ e.0

  -- Every cached key stands under its own thumbprint.
  pub record CacheIsBound (r : RemoteKeys c) : Type 0 where
    pub bound : All (λ (e : Text × c.PublicKey). thumbprint c e.1 ≡ e.0) r.by_kid

  insert-All :
      (k : Text) (v : c.PublicKey) (m : Dict c.PublicKey)
      → thumbprint c v ≡ k
      → All Bound m
      → All Bound (insert k v m)
  unfolding insert
  insert-All k v [] b h = (b, tt)
  insert-All k v ((j, w) ∷ m) b h = ground (arith, insert-All k v m b)

  lookup-Bound :
      (k : Text) (v : c.PublicKey) (m : Dict c.PublicKey)
      → All Bound m
      → lookup k m ≡ some v
      → thumbprint c v ≡ k
  unfolding lookup
  lookup-Bound k v [] h e = cc
  lookup-Bound k v ((j, w) ∷ m) h e = elim (Bool-cases (text_eq j k)) [
    | inl hit ↦
        ap (thumbprint c) (sym (some-injective (rw hit at e))) ∙ (h.0 ∙ (text_eq_iff j k).0 hit)
    | inr miss ↦ lookup-Bound k v m h.1 (rw miss at e)
  ]

  -- A key is taken from a key set only if it is an EC P-256 key for ES256 signatures, its point is on the
  -- curve, and its declared id is its thumbprint.
  pub record IsUsable (j : Jwk) (k : c.PublicKey) : Type 0 where
    pub kty_ok : j.kty ≡ codes "EC"
    pub crv_ok : j.crv ≡ codes "P-256"
    pub alg_ok : (j.alg ≡ []) ⊎ (j.alg ≡ codes "ES256")
    pub use_ok : (j.use_for ≡ []) ⊎ (j.use_for ≡ codes "sig")
    pub point_ok : public_from_xy c j.x j.y ≡ ok k
    pub kid_ok : j.kid ≡ thumbprint c k

  both_eq : (a b p q : Text) → (text_eq a p && text_eq b q) ≡ true → (a ≡ p) × (b ≡ q)
  both_eq a b p q h = ground (arith, text_eq_iff a p, text_eq_iff b q)

  either_eq : (a p q : Text) → (text_eq a p || text_eq a q) ≡ true → (a ≡ p) ⊎ (a ≡ q)
  either_eq a p q h = ground (arith, text_eq_iff a p, text_eq_iff a q)

  pub jwk_to_public-IsUsable : (j : Jwk) (k : c.PublicKey) → jwk_to_public c j ≡ ok k → IsUsable j k
  unfolding jwk_to_public
  jwk_to_public-IsUsable j k e =
      let (_, t1, e1) = >>=-eq-ok (guard _ other) _ e in
      let (_, t2, e2) = >>=-eq-ok (guard _ other) _ e1 in
      let (_, t3, e3) = >>=-eq-ok (guard _ other) _ e2 in
      let (k', t4, e4) = >>=-eq-ok (public_from_xy c j.x j.y) _ e3 in
      let (_, t5, e5) = >>=-eq-ok (guard _ other) _ e4 in
      let (kty, crv) = both_eq j.kty j.crv _ _ (guard-eq-ok _ other t1) in
      record {
        kty_ok = kty;
        crv_ok = crv;
        alg_ok = either_eq j.alg _ _ (guard-eq-ok _ other t2);
        use_ok = either_eq j.use_for _ _ (guard-eq-ok _ other t3);
        point_ok = t4 ∙ e5;
        kid_ok =
            (text_eq_iff j.kid (thumbprint c k')).0 (guard-eq-ok _ other t5)
            ∙ ap (thumbprint c) (ok-injective e5);
      }

  add_key-Bound :
      (j : Jwk) (r : Result c.PublicKey) (m : Dict c.PublicKey)
      → jwk_to_public c j ≡ r
      → All Bound m
      → All Bound (add_key c j.kid r m)
  unfolding add_key
  add_key-Bound j (err x) m e h = h
  add_key-Bound j (ok k) m e h = insert-All j.kid k m (sym (jwk_to_public-IsUsable j k e).kid_ok) h

  parse_set-Bound :
      (js : List Jwk) (m : Dict c.PublicKey) → All Bound m → All Bound (parse_set c js m)
  unfolding parse_set
  parse_set-Bound [] m h = h
  parse_set-Bound (j ∷ js) m h = parse_set-Bound js _ (add_key-Bound j (jwk_to_public c j) m refl h)

  install-Bound :
      (parsed : Dict c.PublicKey) (t : Instant) (r : RemoteKeys c)
      → All Bound parsed
      → CacheIsBound r
      → CacheIsBound (install c parsed t r).1
  unfolding install
  install-Bound [] t r h b = b
  install-Bound (e ∷ parsed) t r h b = record { bound = h }

  fetched-Bound :
      (m : Meets) (o : Option (List Jwk)) (r : RemoteKeys c)
      → m.response ≡ o
      → CacheIsBound r
      → CacheIsBound (fetched c m r).1
  unfolding fetched
  fetched-Bound m none r e b = rw (e, fetched) b
  fetched-Bound m (some set) r e b =
      rw (e, fetched) (install-Bound (parse_set c set []) m.done_at r (parse_set-Bound set [] tt) b)

  refresh-CacheIsBound :
      (limited : Bool) (m : Meets) (r : RemoteKeys c)
      → CacheIsBound r
      → CacheIsBound (refresh c limited m r).1
  unfolding refresh
  refresh-CacheIsBound limited m r b =
      let new =
        fetched-Bound m m.response (record r { last_try = m.try_at }) refl
          (record { bound = b.bound }) in
      ground (arith, new, b)

  -- A call's answer and the cache that it leaves.
  abbrev pub Sound : Text → Result c.PublicKey × RemoteKeys c → Type 0
  Sound kid a = CacheIsBound a.1 × ((k : c.PublicKey) → a.0 ≡ ok k → thumbprint c k ≡ kid)

  found_in-Sound : (kid : Text) (r : RemoteKeys c) → CacheIsBound r → Sound kid (found_in c kid r)
  unfolding found_in
  found_in-Sound kid r b = (b, λ k e. at_lookup (lookup kid r.by_kid) k refl e)
    where
      at_lookup :
          (o : Option c.PublicKey) (k : c.PublicKey)
          → lookup kid r.by_kid ≡ o
          → or_fail o no_key ≡ ok k
          → thumbprint c k ≡ kid
      at_lookup none k e h = cc
      at_lookup (some v) k e h = lookup-Bound kid k r.by_kid b.bound (e ∙ ap some (ok-injective h))

  stale_key-Sound :
      (kid : Text) (k : c.PublicKey) (m : Meets) (a : Result (Unit {0}) × RemoteKeys c)
      → thumbprint c k ≡ kid
      → CacheIsBound a.1
      → Sound kid (stale_key c kid k m a)
  unfolding stale_key
  stale_key-Sound kid k m (ok u, r) t b = found_in-Sound kid r b
  stale_key-Sound kid k m (err x, r) t b = (b, λ k' e. ground arith)

  unknown_key-Sound :
      (kid : Text) (a : Result (Unit {0}) × RemoteKeys c)
      → CacheIsBound a.1
      → Sound kid (unknown_key c kid a)
  unfolding unknown_key
  unknown_key-Sound kid (ok u, r) b = found_in-Sound kid r b
  unknown_key-Sound kid (err x, r) b = (b, λ k e. cc)

  key_for-Sound :
      (kid : Text) (m : Meets) (r : RemoteKeys c) (o : Option c.PublicKey)
      → CacheIsBound r
      → lookup kid r.by_kid ≡ o
      → Sound kid (key_for c kid m r o)
  unfolding key_for
  key_for-Sound kid m r none b e = unknown_key-Sound kid _ (refresh-CacheIsBound true m r b)
  key_for-Sound kid m r (some k) b e =
      let thumb = lookup-Bound kid k r.by_kid b.bound e in
      elim (Bool-cases (is_fresh c m r)) [
        | inl fresh ↦ rw fresh (b, λ k' h. ap (thumbprint c) (sym (ok-injective h)) ∙ thumb)
        | inr stale ↦ rw stale (stale_key-Sound kid k m _ thumb (refresh-CacheIsBound false m r b))
      ]

  -- From a cache whose keys stand under their thumbprints, a key that Key returns has the requested id as
  -- its thumbprint, whatever the endpoint answered, and the cache stays so.
  pub remote_key-Sound :
      (kid : Text) (m : Meets) (r : RemoteKeys c)
      → CacheIsBound r
      → Sound kid (remote_key c kid m r)
  unfolding remote_key
  remote_key-Sound kid m r b = key_for-Sound kid m r (lookup kid r.by_kid) b refl
