-- ===== src/Verifier/Leeway.antt =====
-- The replay guard and the leeway of verifier/verifier.go together.
use tsjwt.Prelude.{IsDistinct, Text, lookup, ◌≤◌, ◌<◌, ◌≡◌, ◌≢◌, true, Option, some, All, List}
use tsjwt.Errors.{Result, ok}
use tsjwt.GoTime.{Instant, unix}
use tsjwt.Claims.{Claims}
use tsjwt.Crypto.{Bytes, Crypto}
use tsjwt.Verifier.{Config, check_claims, verify_token}
use tsjwt.Verifier.Accepts.{Accepted, verify_token-Accepted, Accepted-verify_token, Accepted-state}
use tsjwt.Verifier.Replay.{
  Guard, guard_seen, remembered-seen, forgotten-after-expiry, seen-remembers, Call, run_guard,
  run-keeps, keys, guard_seen-IsDistinct, run_guard-IsDistinct,
}

module _ (crypto : Crypto) (decode : Bytes → Option Claims) {K : Type 0}
    (key : K → Text → Result crypto.PublicKey × K) where
  -- The guard stops a second use up to the expiry: a token that was accepted, and whose id is still
  -- recorded until its expiry, is refused at every time up to the expiry.
  pub replay_refused :
      (cfg : Config) (token : Text) (now : Instant) (ks : K) (g : Guard) (c : Claims)
      → cfg.has_replay ≡ true
      → lookup c.jti g ≡ some (unix c.expiry)
      → now ≤ unix c.expiry
      → (verify_token crypto decode key guard_seen cfg token now ks g).0 ≢ ok c
  replay_refused cfg token now ks g c on recorded live accepted =
      let a = verify_token-Accepted crypto decode key guard_seen cfg token now ks g c accepted in
      cc (
        a.not_replayed on,
        remembered-seen g c.jti (unix c.expiry) now (unix c.expiry) recorded live,
      )

  -- The guard after a token was accepted, and after further calls up to the token's expiry, records it until
  -- the expiry.
  recorded :
      (cfg : Config) (token : Text) (first : Instant) (ks : K) (g : Guard) (c : Claims)
      (cs : List Call)
      → cfg.has_replay ≡ true
      → Accepted crypto decode key guard_seen cfg token first ks g c
      → All (λ (k : Call). k.at ≤ unix c.expiry) cs
      → lookup c.jti
          (run_guard (verify_token crypto decode key guard_seen cfg token first ks g).2 cs)
        ≡ some (unix c.expiry)
  recorded cfg token first ks g c cs on a early =
      rw (Accepted-state crypto decode key guard_seen cfg token first ks g c a on) (
        run-keeps c.jti (unix c.expiry) cs (guard_seen g c.jti (unix c.expiry) first).1
          (seen-remembers g c.jti (unix c.expiry) first (a.not_replayed on)) early)

  recorded-IsDistinct :
      (cfg : Config) (token : Text) (first : Instant) (ks : K) (g : Guard) (c : Claims)
      (cs : List Call)
      → cfg.has_replay ≡ true
      → Accepted crypto decode key guard_seen cfg token first ks g c
      → IsDistinct (keys g)
      → IsDistinct
          (keys (run_guard (verify_token crypto decode key guard_seen cfg token first ks g).2 cs))
  recorded-IsDistinct cfg token first ks g c cs on a distinct =
      rw (Accepted-state crypto decode key guard_seen cfg token first ks g c a on) (
        run_guard-IsDistinct cs (guard_seen g c.jti (unix c.expiry) first).1
          (guard_seen-IsDistinct g c.jti (unix c.expiry) first distinct))

  -- With a replay guard whose ids are distinct, as those of a map are, a token that passes every check is
  -- accepted. After that call, and any calls of the guard at times up to the token's expiry, the token is
  -- refused at every time up to the expiry; and it is accepted again at a later time at which its key is
  -- still found and the claim checks, which allow the leeway, still pass.
  pub replay_in_leeway :
      (cfg : Config) (token : Text) (first now : Instant) (ks ks' : K) (g : Guard) (c : Claims)
      (cs : List Call) (a : Accepted crypto decode key guard_seen cfg token first ks g c)
      → cfg.has_replay ≡ true
      → IsDistinct (keys g)
      → All (λ (k : Call). k.at ≤ unix c.expiry) cs
      → unix c.expiry < now
      → (key ks' a.kid).0 ≡ ok a.pub_key
      → check_claims cfg c now ≡ ok tt
      → (let after = verify_token crypto decode key guard_seen cfg token first ks g in
          (after.0 ≡ ok c)
          × ((live : Instant)
              → live ≤ unix c.expiry
              → (verify_token crypto decode key guard_seen cfg token live ks'
                  (run_guard after.2 cs)).0
                ≢ ok c)
          × ((verify_token crypto decode key guard_seen cfg token now ks' (run_guard after.2 cs)).0
              ≡ ok c))
  replay_in_leeway cfg token first now ks ks' g c cs a on distinct early late found passes =
      let after = (verify_token crypto decode key guard_seen cfg token first ks g).2 in
      let kept = recorded cfg token first ks g c cs on a early in
      (
        Accepted-verify_token crypto decode key guard_seen cfg token first ks g c a,
        λ live up_to. replay_refused cfg token live ks' (run_guard after cs) c on kept up_to,
        Accepted-verify_token crypto decode key guard_seen cfg token now ks' (run_guard after cs) c
            (record {
              kid = a.kid;
              kid_named = a.kid_named;
              header = a.header;
              payload = a.payload;
              parsed = a.parsed;
              names_kid = a.names_kid;
              pub_key = a.pub_key;
              key_found = found;
              body = a.body;
              signature_ok = a.signature_ok;
              decoded = a.decoded;
              claims_ok = passes;
              not_replayed = λ _.
                  forgotten-after-expiry (run_guard after cs) c.jti (unix c.expiry) now
                    (unix c.expiry) (recorded-IsDistinct cfg token first ks g c cs on a distinct)
                    kept late;
            }),
      )
