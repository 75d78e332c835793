-- ===== src/Keys/Sharing.antt =====
-- The key set that replicas share, keys/shared.go: the published entries, the optimistic write with
-- its retries, and the union that a replica serves. The store is the interface of the source: the
-- parameters `load` and `save` act on a world, which other replicas may change too.
pub mod Union
mod Tests
pub mod Merge
use tsjwt.Prelude.{
  ltb, ◌/◌, ◌==◌, negsuc, if◌then◌else◌, Text, codes, text_eq, text_lt, pos, has, ℕ, zero, suc, ◌*◌,
  Bool, false, not, ◌&&◌, ◌||◌, List, [], ◌∷◌, ◌++◌, map,
}
use tsjwt.Errors.{Error, conflict, other, Result, ok, err, ◌>>=◌, is_ok}
use tsjwt.Prelude.Sort.{sort}
use tsjwt.GoTime.{Instant, Duration, second, minute, add_time}
use tsjwt.Crypto.{Crypto}
use tsjwt.Keys.{Jwk, thumbprint, public_from_xy, Set, current, jwks}

pub record Entry : Type 0 where
  pub kid : Text
  pub x : Text
  pub y : Text
  pub replica : Text
  pub lease : Instant

-- What one attempt of Publish meets: the clock, and whether the context is done before the back-off
-- has passed.
pub record Attempt : Type 0 where
  pub now : Instant
  pub cancelled : Bool

abbrev entry_less : Entry → Entry → Bool
entry_less a b = text_lt a.kid b.kid

abbrev jwk_less : Jwk → Jwk → Bool
jwk_less a b = text_lt a.kid b.kid

module _ (c : Crypto) where
  pub record Published : Type 0 where
    pub local : Set c
    pub replica : Text
    pub lease : Duration
    pub grace : Duration
    pub merged : List Entry

  -- NewPublished, with the defaults that its options may replace. The flags are the nil tests.
  unfoldable pub new_published : Bool → Bool → Set c → Text → Result Published
  unfolding text_eq
  new_published has_local has_store local replica =
      if not has_local || not has_store || text_eq replica []
      then err other
      else ok (record {
        local = local;
        replica = replica;
        lease = pos (2 * minute);
        grace = pos (30 * minute);
        merged = [];
      })

  abbrev entry_of : Published → Instant → Jwk → Entry
  entry_of p now k = record {
    kid = k.kid;
    x = k.x;
    y = k.y;
    replica = p.replica;
    lease = add_time now p.lease;
  }

  -- mineNow
  unfoldable pub mine_now : Published → Instant → List Entry
  mine_now p now = map (entry_of p now) (jwks c p.local now)

  -- The loop of publishOnce over the stored entries.
  kept_entries : Published → Instant → List Entry → List Entry
  unfolding text_eq add_time
  kept_entries p now [] = []
  kept_entries p now (e ∷ es) =
      let rest = kept_entries p now es in
      if text_eq e.replica p.replica
      then rest
      else if ltb (add_time e.lease p.grace) now
      then rest
      else e ∷ rest

  -- What publishOnce writes.
  unfoldable pub next_entries : Published → Instant → List Entry → List Entry
  unfolding kept_entries mine_now
  next_entries p now stored = sort entry_less (kept_entries p now stored ++ mine_now p now)

  -- The entries of the store that JWKS adds to the local keys.
  derives : Entry → Bool
  unfolding text_eq public_from_xy thumbprint
  derives e = elim (public_from_xy c e.x e.y) [
    | err x ↦ false
    | ok k ↦ text_eq (thumbprint c k) e.kid
  ]

  usable : Published → Instant → List Text → Entry → Bool
  usable p now seen e =
      not (has e.kid seen) && (not (ltb (add_time e.lease p.grace) now) && derives e)

  abbrev jwk_of_entry : Entry → Jwk
  jwk_of_entry e = record {
    kty = codes "EC";
    crv = codes "P-256";
    kid = e.kid;
    use_for = codes "sig";
    alg = codes "ES256";
    x = e.x;
    y = e.y;
  }

  merge_entries : Published → Instant → List Text → List Entry → List Jwk
  unfolding usable
  merge_entries p now seen [] = []
  merge_entries p now seen (e ∷ es) =
      let rest = merge_entries p now (if usable p now seen e then e.kid ∷ seen else seen) es in
      if usable p now seen e then jwk_of_entry e ∷ rest else rest

  -- Published.JWKS
  unfoldable pub published_jwks : Published → Instant → List Jwk
  unfolding merge_entries has derives add_time
  published_jwks p now =
      let mine = jwks c p.local now in
      sort jwk_less (mine ++ merge_entries p now (map (λ (j : Jwk). j.kid) mine) p.merged)

  -- Published.Current
  pub published_current : Published → Result (c.PrivateKey × Text)
  unfolding current
  published_current p = current c p.local

  -- The interval of Run: a third of the lease, or 30 seconds.
  pub run_interval : Published → Duration
  run_interval p = elim p.lease [
    | negsuc n ↦ pos (30 * second)
    | pos n ↦ if n / 3 == 0 then pos (30 * second) else pos (n / 3)
  ]

  module _ {W : Type 0} (load : W → Result (List Entry × Text) × W)
      (save : W → List Entry → Text → Result (Unit {0}) × W) where
    save_next :
        Published → Instant → Result (List Entry × Text) → W → Result (Unit {0}) × Published × W
    unfolding next_entries
    save_next p now (err e) w = (err e, p, w)
    save_next p now (ok (stored, version)) w =
        let next = next_entries p now stored in
        let (r, w') = save w next version in
        (r, (if is_ok r then record p { merged = next } else p), w')

    -- publishOnce
    unfoldable pub publish_once : Published → Instant → W → Result (Unit {0}) × Published × W
    unfolding save_next
    publish_once p now w = let (r, w') = load w in save_next p now r w'

    after_attempt :
        Bool
        → (Published → W → Result (Unit {0}) × Published × W)
        → Result (Unit {0}) × Published × W
        → Result (Unit {0}) × Published × W
    after_attempt cancelled again (ok u, p, w) = (ok u, p, w)
    after_attempt cancelled again (err conflict, p, w) =
        let next = again p w in if cancelled then (err Error.cancelled, p, w) else next
    after_attempt cancelled again (err e, p, w) = (err e, p, w)

    -- The loop of Publish: attempts left, and the attempts ahead.
    publish_loop : ℕ → (ℕ → Attempt) → ℕ → Published → W → Result (Unit {0}) × Published × W
    unfolding publish_once after_attempt
    publish_loop zero attempt i p w = (err conflict, p, w)
    publish_loop (suc left) attempt i p w =
        after_attempt (attempt i).cancelled (publish_loop left attempt (suc i))
          (publish_once p (attempt i).now w)

    -- Publish
    unfoldable pub publish : (ℕ → Attempt) → Published → W → Result (Unit {0}) × Published × W
    unfolding publish_loop
    publish attempt p w = publish_loop 5 attempt 0 p w

    -- Refresh
    pub refresh : Published → W → Result (Unit {0}) × Published × W
    refresh p w = let (r, w') = load w in (r >>= λ _. ok tt, taken r, w')
      where
        taken : Result (List Entry × Text) → Published
        taken (err e) = p
        taken (ok (stored, version)) = record p { merged = stored }

    -- Run, for its rounds: what the other replicas do before each, and the attempts of its Publish. The errors
    -- are those that onError is called with.
    pub run : List ((W → W) × (ℕ → Attempt)) → Published → W → List Error × Published × W
    unfolding publish
    run [] p w = ([], p, w)
    run ((others, attempt) ∷ rounds) p w =
        let (r, p', w') = publish attempt p (others w) in
        let (errors, q, v) = run rounds p' w' in (reported r ++ errors, q, v)
      where
        reported : Result (Unit {0}) → List Error
        reported (ok u) = []
        reported (err e) = e ∷ []
