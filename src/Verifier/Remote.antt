-- ===== src/Verifier/Remote.antt =====
-- The cached remote key set of verifier/remote.go. The HTTP exchange is an argument: what the endpoint
-- answered, and the readings of the clock.
pub mod Cache
pub mod Outage
mod Tests
use tsjwt.Prelude.{
  ◌==◌, if◌then◌else◌, Text, codes, text_eq, pos, ltb_ℤ, leb_ℤ, Dict, lookup, insert, ◌*◌, ◌^◌,
  Bool, true, false, not, ◌&&◌, ◌||◌, Option, none, some, List, [], ◌∷◌,
}
use tsjwt.Errors.{no_key, other, Result, ok, err, ◌>>=◌, ◌>>◌, guard, or_fail}
use tsjwt.GoTime.{Instant, Duration, second, minute, hour, sub_time}
use tsjwt.Crypto.{Crypto}
use tsjwt.Keys.{Jwk, thumbprint, public_from_xy}

-- The zero time.Time.
abbrev pub zero_time : Instant
zero_time = 2 ^ 63 * second

-- A configured duration, or the default where it is not positive.
abbrev pub or_default : Duration → Duration → Duration
or_default d default = if leb_ℤ d (pos 0) then default else d

-- What one call of Key meets: the clock at its start, at the start of the fetch, after the fetch and at
-- the age check, and the decoded key set, or `none` if the request, its status or the decoding fails.
pub record Meets : Type 0 where
  pub now : Instant
  pub try_at : Instant
  pub done_at : Instant
  pub age_at : Instant
  pub response : Option (List Jwk)

module _ (c : Crypto) where
  pub record RemoteKeys : Type 0 where
    pub ttl : Duration
    pub min_refetch : Duration
    pub max_stale : Duration
    pub by_kid : Dict c.PublicKey
    pub fetched_at : Instant
    pub last_try : Instant

  -- jwkToPublic
  unfoldable pub jwk_to_public : Jwk → Result c.PublicKey
  jwk_to_public j = do
    guard (text_eq j.kty (codes "EC") && text_eq j.crv (codes "P-256")) other
    guard (text_eq j.alg [] || text_eq j.alg (codes "ES256")) other
    guard (text_eq j.use_for [] || text_eq j.use_for (codes "sig")) other
    k ← public_from_xy c j.x j.y
    guard (text_eq j.kid (thumbprint c k)) other
    ok k

  -- The loop of refresh over the fetched keys: a key that cannot be used is skipped.
  add_key : Text → Result c.PublicKey → Dict c.PublicKey → Dict c.PublicKey
  add_key kid (err e) parsed = parsed
  add_key kid (ok k) parsed = insert kid k parsed

  parse_set : List Jwk → Dict c.PublicKey → Dict c.PublicKey
  unfolding add_key
  parse_set [] parsed = parsed
  parse_set (j ∷ js) parsed = parse_set js (add_key j.kid (jwk_to_public j) parsed)

  install : Dict c.PublicKey → Instant → RemoteKeys → Result (Unit {0}) × RemoteKeys
  install [] done_at r = (err no_key, r)
  install (e ∷ parsed) done_at r = (ok tt, record r { by_kid = e ∷ parsed; fetched_at = done_at })

  fetched : Meets → RemoteKeys → Result (Unit {0}) × RemoteKeys
  unfolding parse_set install
  fetched m r = elim m.response [
    | none ↦ (err no_key, r)
    | some set ↦ install (parse_set set []) m.done_at r
  ]

  -- refresh
  refresh : Bool → Meets → RemoteKeys → Result (Unit {0}) × RemoteKeys
  unfolding fetched sub_time
  refresh rate_limit m r =
      let gap = or_default r.min_refetch (pos (30 * second)) in
      if rate_limit && (not (r.last_try == zero_time) && ltb_ℤ (sub_time m.try_at r.last_try) gap)
      then (err no_key, r)
      else fetched m (record r { last_try = m.try_at })

  -- The lookup after a refresh that succeeded.
  found_in : Text → RemoteKeys → Result c.PublicKey × RemoteKeys
  found_in kid r = (or_fail (lookup kid r.by_kid) no_key, r)

  -- A known key of a stale set, after the refresh.
  stale_key :
      Text → c.PublicKey → Meets → Result (Unit {0}) × RemoteKeys → Result c.PublicKey × RemoteKeys
  unfolding found_in sub_time
  stale_key kid k m (ok u, r) = found_in kid r
  stale_key kid k m (err e, r) = (
    if leb_ℤ (sub_time m.age_at r.fetched_at) (or_default r.max_stale (pos hour))
        then ok k
        else err no_key,
    r,
  )

  unknown_key : Text → Result (Unit {0}) × RemoteKeys → Result c.PublicKey × RemoteKeys
  unfolding found_in
  unknown_key kid (ok u, r) = found_in kid r
  unknown_key kid (err e, r) = (err e, r)

  -- The cached set is within its TTL at the start of the call.
  abbrev pub is_fresh : Meets → RemoteKeys → Bool
  is_fresh m r = ltb_ℤ (sub_time m.now r.fetched_at) (or_default r.ttl (pos (5 * minute)))

  key_for : Text → Meets → RemoteKeys → Option c.PublicKey → Result c.PublicKey × RemoteKeys
  unfolding refresh stale_key unknown_key
  key_for kid m r none = unknown_key kid (refresh true m r)
  key_for kid m r (some k) =
      if is_fresh m r then (ok k, r) else stale_key kid k m (refresh false m r)

  -- Key
  unfoldable pub remote_key : Text → Meets → RemoteKeys → Result c.PublicKey × RemoteKeys
  unfolding key_for lookup
  remote_key kid m r = key_for kid m r (lookup kid r.by_kid)
