-- ===== src/Verifier.antt =====
-- The backend's side, verifier/verifier.go: the configuration, the checks of a claim set, Verify, the
-- replay guard and the middleware. A key source and a replay guard are interfaces of the source: they
-- are the parameters `key` and `seen`, each with its own state.
pub mod Bounds
pub mod Accepts
pub mod Refusals
pub mod Replay
pub mod Leeway
pub mod Remote
pub mod Middleware
mod Tests
use tsjwt.Prelude.{
  ltb, if◌then◌else◌, Text, text_eq, trim, pos, ltb_ℤ, leb_ℤ, eqb_ℤ, ◌*◌, Bool, not, ◌||◌, Option,
  some, [],
}
use tsjwt.Errors.{invalid_token, other, Result, ok, err, ◌>>=◌, ◌>>◌, guard, or_fail}
use tsjwt.GoTime.{Instant, Duration, minute, unix, add_time, sub_time}
use tsjwt.Claims.{Claims}
use tsjwt.Crypto.{Bytes, Crypto}
use tsjwt.Jwt.{parse, verify}
use tsjwt.Jwt

pub record Config : Type 0 where
  pub issuer : Text
  pub audience : Text
  pub has_keys : Bool
  pub leeway : Duration
  pub max_lifetime : Duration
  pub has_replay : Bool

-- New. `has_keys` is the test cfg.Keys != nil.
pub new : Config → Result Config
unfolding text_eq
new cfg = do
  guard (not (text_eq (trim cfg.issuer) [])) other
  guard (not (text_eq (trim cfg.audience) [])) other
  guard cfg.has_keys other
  let leeway = if leb_ℤ cfg.leeway (pos 0) then pos minute else cfg.leeway
  let life = if eqb_ℤ cfg.max_lifetime (pos 0) then pos (15 * minute) else cfg.max_lifetime
  ok (record cfg { leeway = leeway; max_lifetime = life })

-- The lifetime limit of Verify, for a positive MaxLifetime.
check_lifetime : Config → Claims → Instant → Result (Unit {0})
unfolding unix add_time sub_time
check_lifetime cfg c now = do
  guard (not (eqb_ℤ c.issued_at (pos 0))) invalid_token
  let life = sub_time (unix c.expiry) (unix c.issued_at)
  guard (not (leb_ℤ life (pos 0) || ltb_ℤ cfg.max_lifetime life)) invalid_token
  guard (not (ltb (add_time (add_time now cfg.max_lifetime) cfg.leeway) (unix c.expiry)))
      invalid_token

-- The registered-claim checks of Verify, in their order.
unfoldable pub check_claims : Config → Claims → Instant → Result (Unit {0})
unfolding check_lifetime
check_claims cfg c now = do
  guard (text_eq c.issuer cfg.issuer) invalid_token
  guard (text_eq c.audience cfg.audience) invalid_token
  guard (not (text_eq c.subject [])) invalid_token
  guard (not (text_eq c.jti [])) invalid_token
  guard (not (eqb_ℤ c.expiry (pos 0) || ltb (add_time (unix c.expiry) cfg.leeway) now))
      invalid_token
  guard (eqb_ℤ c.not_before (pos 0) || not (ltb (add_time now cfg.leeway) (unix c.not_before)))
      invalid_token
  if ltb_ℤ (pos 0) cfg.max_lifetime then check_lifetime cfg c now else ok tt

-- An error of a step, as Verify wraps it.
abbrev pub as_invalid {ℓ} : {A : Type ℓ} → Result A → Result A
as_invalid (ok a) = ok a
as_invalid (err e) = err invalid_token

module _ (crypto : Crypto) (decode : Bytes → Option Claims) {K G : Type 0}
    (key : K → Text → Result crypto.PublicKey × K)
    (seen : G → Text → Instant → Instant → Bool × G) where
  -- The header check of Verify, before the key source is asked: the kid, or an error.
  token_kid : Text → Result Text
  token_kid token = do
    h ← as_invalid (parse crypto token)
    guard (not (text_eq h.0.kid [])) invalid_token
    ok h.0.kid

  -- The steps of Verify after the key is known, up to the replay guard.
  token_claims : Config → Text → Instant → crypto.PublicKey → Result Claims
  token_claims cfg token now pub_key = do
    payload ← as_invalid (verify crypto (some pub_key) token)
    c ← or_fail (decode payload) invalid_token
    check_claims cfg c now
    ok c

  -- The replay guard, for claims that passed.
  replay_step : Config → Instant → G → Result Claims → Result Claims × G
  replay_step cfg now g (err e) = (err e, g)
  replay_step cfg now g (ok c) =
      if cfg.has_replay
      then (let (dup, g') = seen g c.jti (unix c.expiry) now in
          (if dup then err invalid_token else ok c, g'))
      else (ok c, g)

  with_key : Config → Text → Instant → G → Result crypto.PublicKey × K → Result Claims × K × G
  unfolding token_claims replay_step
  with_key cfg token now g (err e, ks) = (err invalid_token, ks, g)
  with_key cfg token now g (ok pub_key, ks) =
      let (r, g') = replay_step cfg now g (token_claims cfg token now pub_key) in (r, ks, g')

  with_kid : Config → Text → Instant → K → G → Result Text → Result Claims × K × G
  unfolding with_key
  with_kid cfg token now ks g (err e) = (err e, ks, g)
  with_kid cfg token now ks g (ok kid) = with_key cfg token now g (key ks kid)

  -- Verify
  unfoldable pub verify_token : Config → Text → Instant → K → G → Result Claims × K × G
  unfolding with_kid token_kid
  verify_token cfg token now ks g = with_kid cfg token now ks g (token_kid token)
