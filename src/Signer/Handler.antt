-- ===== src/Signer/Handler.antt =====
-- JWKSHandler of signer/signer.go. What set.JWKS() gives is an argument, and so is the method of the request.
use tsjwt.Prelude.{
  if◌then◌else◌, Text, codes, text_eq, pos, negsuc, ℕ, zero, suc, ◌*◌, ◌/◌, ◌||◌, List, ◌≤◌, ◌<◌,
  arith,
}
use tsjwt.GoTime.{Duration, second, minute}
use tsjwt.Keys.{Jwk}

-- The answer: a refusal with the Allow header, or the key set with the max-age of its Cache-Control.
pub data JwksAnswer : Type 0 where
  not_allowed : JwksAnswer
  key_set : (max_age : ℕ) → List Jwk → JwksAnswer

-- The seconds of the cache time, five minutes for one that is not positive.
pub cache_seconds : Duration → ℕ
cache_seconds (negsuc n) = 5 * minute / second
cache_seconds (pos zero) = 5 * minute / second
cache_seconds (pos (suc n)) = suc n / second

-- A positive cache time is not exceeded.
pub cache_seconds-below : (n : ℕ) → 0 < n → cache_seconds (pos n) * second ≤ n
unfolding cache_seconds
cache_seconds-below zero h = absurd (omega (arith, h))
cache_seconds-below (suc n) h = omega arith

-- JWKSHandler
unfoldable pub jwks_handler : List Jwk → Duration → Text → JwksAnswer
unfolding text_eq cache_seconds
jwks_handler set cache_for method =
    if text_eq method (codes "GET") || text_eq method (codes "HEAD")
    then key_set (cache_seconds cache_for) set
    else not_allowed
