-- ===== src/Verifier/Refusals.antt =====
-- Every refusal of Verify of verifier/verifier.go wraps ErrInvalidToken.
use tsjwt.Prelude.{Text, ◌≡◌, refl, Bool, Option, none, some, arith}
use tsjwt.Errors.{Error, invalid_token, Result, ok, err, ◌>>=◌, or_fail, ◌>>◌}
use tsjwt.GoTime.{Instant}
use tsjwt.Claims.{Claims}
use tsjwt.Jwt.{verify}
use tsjwt.Crypto.{Bytes, Crypto}
use tsjwt.Verifier.{
  Config, check_lifetime, check_claims, as_invalid, token_kid, token_claims, replay_step, with_key,
  with_kid, verify_token,
}

-- The only error of the result is ErrInvalidToken.
abbrev pub Wraps {ℓ} : {A : Type ℓ} → Result A → Type ℓ
Wraps r = (e : Error) → r ≡ err e → e ≡ invalid_token

Wraps-bind {ℓ κ} :
    {A : Type ℓ} {B : Type κ} (m : Result A) (f : A → Result B)
    → Wraps m
    → ((a : A) → Wraps (f a))
    → Wraps (m >>= f)
Wraps-bind (ok a) f w k = k a
Wraps-bind (err x) f w k = λ e h. cc (w x refl, h)

Wraps-as_invalid {ℓ} : {A : Type ℓ} (r : Result A) → Wraps (as_invalid r)
Wraps-as_invalid (ok a) e h = cc
Wraps-as_invalid (err x) e h = cc

Wraps-or_fail {ℓ} : {A : Type ℓ} (o : Option A) → Wraps (or_fail o invalid_token)
Wraps-or_fail none e h = cc
Wraps-or_fail (some a) e h = cc

check_lifetime-Wraps :
    (cfg : Config) (c : Claims) (now : Instant) → Wraps (check_lifetime cfg c now)
unfolding check_lifetime
check_lifetime-Wraps cfg c now e h = ground arith

check_claims-Wraps : (cfg : Config) (c : Claims) (now : Instant) → Wraps (check_claims cfg c now)
unfolding check_claims
check_claims-Wraps cfg c now e h = ground (arith, check_lifetime-Wraps cfg c now e)

module _ (crypto : Crypto) (decode : Bytes → Option Claims) {K G : Type 0}
    (key : K → Text → Result crypto.PublicKey × K)
    (seen : G → Text → Instant → Instant → Bool × G) where
  token_kid-Wraps : (token : Text) → Wraps (token_kid crypto decode key seen token)
  unfolding token_kid
  token_kid-Wraps token e h = ground arith

  token_claims-Wraps :
      (cfg : Config) (token : Text) (now : Instant) (pub_key : crypto.PublicKey)
      → Wraps (token_claims crypto decode key seen cfg token now pub_key)
  unfolding token_claims
  token_claims-Wraps cfg token now pub_key =
      Wraps-bind (as_invalid (verify crypto (some pub_key) token))
        (λ payload. do c ← or_fail (decode payload) invalid_token; check_claims cfg c now; ok c)
        (Wraps-as_invalid (verify crypto (some pub_key) token))
        λ payload.
          Wraps-bind (or_fail (decode payload) invalid_token) (λ c. check_claims cfg c now >> ok c)
            (Wraps-or_fail (decode payload))
            λ c.
              Wraps-bind (check_claims cfg c now) (λ _. ok c) (check_claims-Wraps cfg c now)
                (λ _ e h. cc)

  replay_step-Wraps :
      (cfg : Config) (now : Instant) (g : G) (r : Result Claims)
      → Wraps r
      → Wraps (replay_step crypto decode key seen cfg now g r).0
  unfolding replay_step
  replay_step-Wraps cfg now g (err x) w e h = w e h
  replay_step-Wraps cfg now g (ok c) w e h = ground arith

  with_key-Wraps :
      (cfg : Config) (token : Text) (now : Instant) (g : G) (r : Result crypto.PublicKey × K)
      → Wraps (with_key crypto decode key seen cfg token now g r).0
  unfolding with_key
  with_key-Wraps cfg token now g (err x, ks) e h = cc
  with_key-Wraps cfg token now g (ok k, ks) e h =
      replay_step-Wraps cfg now g _ (token_claims-Wraps cfg token now k) e h

  with_kid-Wraps :
      (cfg : Config) (token : Text) (now : Instant) (ks : K) (g : G) (r : Result Text)
      → Wraps r
      → Wraps (with_kid crypto decode key seen cfg token now ks g r).0
  unfolding with_kid
  with_kid-Wraps cfg token now ks g (err x) w e h = w e (ground (arith, h))
  with_kid-Wraps cfg token now ks g (ok kid) w e h = with_key-Wraps cfg token now g (key ks kid) e h

  -- Whatever goes wrong, an unknown key included, the error of Verify is ErrInvalidToken: the caller
  -- cannot tell one refusal from another.
  pub verify_token-Wraps :
      (cfg : Config) (token : Text) (now : Instant) (ks : K) (g : G)
      → Wraps (verify_token crypto decode key seen cfg token now ks g).0
  unfolding verify_token
  verify_token-Wraps cfg token now ks g =
      with_kid-Wraps cfg token now ks g _ (token_kid-Wraps token)
