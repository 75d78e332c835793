-- ===== src/Verifier/Tests.antt =====
-- Runs of verifier/verifier.go with the sample cryptography, and its theorems at a token.
use tsjwt.Prelude.{
  replicate, Text, codes, text_eq, cut_prefix, trim_prefix, split, to_lower, equal_fold, pos,
  lookup, ℕ, ◌+◌, ◌-◌, ◌*◌, ◌≡◌, refl, ◌↔◌, true, false, Option, some, List, [], ◌∷◌, ◌++◌, arith,
  ◌≤◌, ◌≢◌,
}
use tsjwt.Errors.{Result, ok}
use tsjwt.Verifier.{
  Config, check_lifetime, check_claims, token_kid, token_claims, replay_step, with_key,
  verify_token,
}
use tsjwt.Crypto.{Bytes}
use tsjwt.Claims.{Claims, no_claims}
use tsjwt.GoTime.{second, minute, epoch, unix, add_time, sub_time, Instant}
use tsjwt.Jwt.{parse, verify}
use tsjwt.Samples.{encode_bytes, sample_crypto}
use tsjwt.Verifier.Bounds.{NamesMatch, InWindow, LifetimeIsBounded, check_claims_iff}
use tsjwt.Verifier.Accepts.{Accepted, verify_token-Accepted}
use tsjwt.Verifier.Replay.{guard_seen, run_guard, seen_once, Call}
use tsjwt.Verifier.Leeway.{replay_in_leeway}
use tsjwt.Verifier.Middleware.{handled, middleware, middleware-Accepted, Admitted}

abbrev config : Config
config = record {
  issuer = codes "s";
  audience = codes "app";
  has_keys = true;
  leeway = pos minute;
  max_lifetime = pos (15 * minute);
  has_replay = true;
}

abbrev claims : Claims
claims = record no_claims {
  issuer = codes "s";
  subject = codes "u1";
  audience = codes "app";
  issued_at = pos 1_700_000_000;
  expiry = pos 1_700_000_300;
  jti = codes "j1";
}

abbrev kid : Text
kid = codes "k1"

abbrev body : Bytes
body = codes "{}"

abbrev token : Text
token =
    encode_bytes kid
    ++ (b'.' ∷ encode_bytes body)
    ++ (b'.' ∷ encode_bytes (replicate 31 0 ++ (3 ∷ replicate 31 0) ++ (7 ∷ [])))

abbrev decode_sample : Bytes → Option Claims
decode_sample b = some claims

abbrev key_sample : Unit {0} → Text → Result ℕ × Unit {0}
key_sample ks asked = (ok 3, ks)

abbrev early : ℕ
early = (epoch + 1_700_000_010) * second

-- Within the leeway after the expiry.
abbrev late : ℕ
late = (epoch + 1_700_000_330) * second

claims-checked : check_claims config claims early ≡ ok tt
unfolding check_claims check_lifetime unix add_time sub_time text_eq
claims-checked = refl

claims-checked_late : check_claims config claims late ≡ ok tt
unfolding check_claims check_lifetime unix add_time sub_time text_eq
claims-checked_late = refl

token-accepted :
    (verify_token sample_crypto decode_sample key_sample guard_seen config token early tt []).0
    ≡ ok claims
unfolding verify_token with_key token_kid token_claims replay_step check_claims check_lifetime unix
    add_time sub_time text_eq parse verify split equal_fold guard_seen lookup
token-accepted = refl

check_claims_iff_example : (check_claims config claims early ≡ ok tt) ↔ (
    NamesMatch config claims
    × InWindow config claims early
    × LifetimeIsBounded config claims early (15 * minute))
check_claims_iff_example = check_claims_iff config claims early (15 * minute - 1) refl (omega arith)

token-Accepted :
    Accepted sample_crypto decode_sample key_sample guard_seen config token early tt [] claims
token-Accepted =
    verify_token-Accepted sample_crypto decode_sample key_sample guard_seen config token early tt []
      claims token-accepted

verify_token-Accepted_example :
    Accepted sample_crypto decode_sample key_sample guard_seen config token early tt [] claims
verify_token-Accepted_example =
    verify_token-Accepted sample_crypto decode_sample key_sample guard_seen config token early tt []
      claims token-accepted

seen_once_example :
    (guard_seen
      (run_guard
        (guard_seen [] (codes "j1") 300 10).1
        (record { jti = codes "j2"; exp = 9; at = 20 } ∷ []))
      (codes "j1")
      300
      30).0
    ≡ true
unfolding guard_seen
seen_once_example =
    seen_once [] (codes "j1") 300 10 30 300 (record { jti = codes "j2"; exp = 9; at = 20 } ∷ [])
      first_call (omega arith, tt) (omega arith)
  where
    first_call : (guard_seen [] (codes "j1") 300 10).0 ≡ false
    first_call = refl

abbrev other_call : List Call
other_call = record { jti = codes "j2"; exp = 9; at = 20 } ∷ []

replay_in_leeway_example :
    let after =
      verify_token sample_crypto decode_sample key_sample guard_seen config token early tt [] in
    (after.0 ≡ ok claims)
    × ((live : Instant)
        → live ≤ unix claims.expiry
        → (verify_token sample_crypto decode_sample key_sample guard_seen config token live tt
            (run_guard after.2 other_call)).0
          ≢ ok claims)
    × ((verify_token sample_crypto decode_sample key_sample guard_seen config token late tt
          (run_guard after.2 other_call)).0
        ≡ ok claims)
unfolding unix
replay_in_leeway_example =
    replay_in_leeway sample_crypto decode_sample key_sample config token early late tt tt [] claims
      other_call token-Accepted refl tt (omega arith, tt) (omega arith) token-Accepted.key_found
      claims-checked_late

abbrev bearer : List (Text × Text)
bearer = (codes "authorization", codes "Bearer " ++ token) ∷ []

bearer-handled :
    (middleware sample_crypto decode_sample key_sample guard_seen config
      (codes "Authorization")
      bearer
      early
      tt
      []).0
    ≡ handled claims
unfolding middleware equal_fold to_lower cut_prefix text_eq verify_token with_key token_kid
    token_claims replay_step check_claims check_lifetime unix add_time sub_time parse verify split
    guard_seen lookup trim_prefix
bearer-handled = refl

middleware-Accepted_example :
    Admitted sample_crypto decode_sample key_sample guard_seen config
      (codes "Authorization")
      bearer
      early
      tt
      []
      claims
middleware-Accepted_example =
    middleware-Accepted sample_crypto decode_sample key_sample guard_seen config
      (codes "Authorization") bearer early tt [] claims bearer-handled
