-- ===== src/Verifier/Remote/Outage.antt =====
-- What Key of verifier/remote.go does when the endpoint fails, and how often it asks.
use tsjwt.Prelude.{
  Bool-cases, Text, pos, leb_ℤ, lookup, ◌≡◌, ◌⊎◌, inl, inr, true, none, some, arith, ltb_ℤ, ◌*◌,
  refl, ap, ◌∙◌, false, Option, ◌≢◌, ◌==◌, ==_iff, ℕ, ◌≤ℤ◌, ◌<ℤ◌,
}
use tsjwt.Errors.{no_key, ok, err, ok-injective}
use tsjwt.Verifier.Remote.{
  or_default, Meets, RemoteKeys, fetched, refresh, stale_key, is_fresh, zero_time, unknown_key,
  key_for, remote_key,
}
use tsjwt.Crypto.{Crypto}
use tsjwt.GoTime.{hour, sub_time, second, Duration, minute}

differs : (a b : ℕ) → a ≢ b → (a == b) ≡ false
differs a b h = ground (arith, ==_iff a b)

-- The limit that a setting asks for: the setting itself where it is positive, and otherwise the default.
abbrev pub IsLimit : Duration → Duration → Duration → Type 0
IsLimit setting default limit =
    ((setting ≤ℤ pos 0) × (limit ≡ default)) ⊎ ((pos 0 <ℤ setting) × (limit ≡ setting))

or_default-IsLimit :
    (setting default : Duration) → IsLimit setting default (or_default setting default)
or_default-IsLimit setting default = elim (Bool-cases (leb_ℤ setting (pos 0))) [
  | inl low ↦ inl (ground arith, rw low refl)
  | inr high ↦ inr (ground arith, rw high refl)
]

module _ (c : Crypto) where
  -- The key was in the cache, and the cache was younger than its TTL (5 minutes unless set) at the start of
  -- the call, or no older than the staleness ceiling (an hour unless set) after the failed fetch.
  pub record StillHeld (kid : Text) (m : Meets) (r : RemoteKeys c) (k : c.PublicKey) : Type 0 where
    pub held : lookup kid r.by_kid ≡ some k
    pub limit : Duration
    pub age_ok :
        (IsLimit r.ttl (pos (5 * minute)) limit × (sub_time m.now r.fetched_at <ℤ limit))
        ⊎ (IsLimit r.max_stale (pos hour) limit × (sub_time m.age_at r.fetched_at ≤ℤ limit))

  refresh-fails :
      (m : Meets) (r : RemoteKeys c)
      → m.response ≡ none
      → refresh c false m r ≡ (err no_key, record r { last_try = m.try_at })
  unfolding refresh fetched
  refresh-fails m r e = rw e refl

  stale-StillHeld :
      (kid : Text) (m : Meets) (r : RemoteKeys c) (k k' : c.PublicKey)
      → lookup kid r.by_kid ≡ some k
      → (stale_key c kid k m (err no_key, record r { last_try = m.try_at })).0 ≡ ok k'
      → StillHeld kid m r k'
  unfolding stale_key
  stale-StillHeld kid m r k k' l h =
      elim (Bool-cases
        (leb_ℤ (sub_time m.age_at r.fetched_at) (or_default r.max_stale (pos hour)))) [
          | inl t ↦
              let same : ok k ≡ ok k' = rw t at h in
              record {
                held = l ∙ ap some (ok-injective same);
                limit = or_default r.max_stale (pos hour);
                age_ok = inr (or_default-IsLimit r.max_stale (pos hour), ground (arith, t));
              }
          | inr t ↦ let no : err no_key ≡ ok k' = rw t at h in cc
        ]

  key_for-StillHeld :
      (kid : Text) (m : Meets) (r : RemoteKeys c) (o : Option c.PublicKey) (k : c.PublicKey)
      → m.response ≡ none
      → lookup kid r.by_kid ≡ o
      → (key_for c kid m r o).0 ≡ ok k
      → StillHeld kid m r k
  unfolding key_for unknown_key refresh fetched
  key_for-StillHeld kid m r none k n l h =
      let limited : (unknown_key c kid (refresh c true m r)).0 ≡ ok k = h in ground (arith, n)
  key_for-StillHeld kid m r (some v) k n l h = elim (Bool-cases (is_fresh c m r)) [
    | inl t ↦
        let same : ok v ≡ ok k = rw t at h in
        record {
          held = l ∙ ap some (ok-injective same);
          limit = or_default r.ttl (pos (5 * minute));
          age_ok = inl (or_default-IsLimit r.ttl (pos (5 * minute)), ground (arith, t));
        }
    | inr t ↦
        let slow : (stale_key c kid v m (refresh c false m r)).0 ≡ ok k = rw t at h in
        stale-StillHeld kid m r v k l (rw (refresh-fails m r n) at slow)
  ]

  -- While the endpoint does not answer with a key set, Key returns only a key that the cache held, and only
  -- if the cache was younger than the TTL when the call began, or no older than the staleness ceiling when
  -- its age was taken after the fetch; the TTL is 5 minutes and the ceiling an hour where the setting is not
  -- positive.
  pub remote_key-StillHeld :
      (kid : Text) (m : Meets) (r : RemoteKeys c) (k : c.PublicKey)
      → m.response ≡ none
      → (remote_key c kid m r).0 ≡ ok k
      → StillHeld kid m r k
  unfolding remote_key
  remote_key-StillHeld kid m r k n h = key_for-StillHeld kid m r (lookup kid r.by_kid) k n refl h

  -- An unknown key id within the refetch gap of the last attempt does not reach the endpoint: Key answers
  -- with an error and leaves the cache and the time of the last attempt as they were.
  pub remote_key-limited :
      (kid : Text) (m : Meets) (r : RemoteKeys c)
      → lookup kid r.by_kid ≡ none
      → r.last_try ≢ zero_time
      → ltb_ℤ (sub_time m.try_at r.last_try) (or_default r.min_refetch (pos (30 * second))) ≡ true
      → remote_key c kid m r ≡ (err no_key, r)
  unfolding remote_key key_for refresh unknown_key
  remote_key-limited kid m r l t g =
      rw (l, key_for, refresh, g) (rw (differs r.last_try zero_time t) refl)
