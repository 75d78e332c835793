-- ===== src/Keys/Sharing/Tests.antt =====
-- Runs of keys/shared.go with the sample cryptography, and its theorems at a sample.
use tsjwt.Prelude.{
  In, Any, Text, codes, pos, ℕ, ◌≡◌, refl, ◌⊎◌, inl, false, some, List, [], ◌∷◌, map,
}
use tsjwt.Errors.{Result, ok}
use tsjwt.Keys.{Jwk, coord, thumbprint, jwk_of, Set, retired_jwks, current_jwks, jwks}
use tsjwt.Keys.Sharing.{
  Entry, Attempt, Published, published_jwks, save_next, publish_once, after_attempt, publish_loop,
  publish,
}
use tsjwt.GoTime.{minute, hour}
use tsjwt.Samples.{sample_crypto}
use tsjwt.Keys.Sharing.Union.{Derives, ComesFrom, published_jwks_sound, own_key-served}

abbrev thumb : ℕ → Text
thumb k = thumbprint sample_crypto k

abbrev set : Set sample_crypto
set = record {
  overlap = pos hour;
  current = some (record { kid = thumb 3; priv = 3; retires = 0 });
  retired = [];
}

abbrev peer : Entry
peer = record {
  kid = thumb 5;
  x = coord sample_crypto (5 ∷ []);
  y = coord sample_crypto (1 ∷ []);
  replica = codes "b";
  lease = 500;
}

abbrev published : Published sample_crypto
published = record {
  local = set;
  replica = codes "a";
  lease = pos minute;
  grace = pos hour;
  merged = peer ∷ [];
}

abbrev load_sample : List Entry → Result (List Entry × Text) × List Entry
load_sample w = (ok (w, codes "1"), w)

abbrev save_sample : List Entry → List Entry → Text → Result (Unit {0}) × List Entry
save_sample w es version = (ok tt, es)

abbrev attempts : ℕ → Attempt
attempts i = record { now = 100; cancelled = false }

published-ok :
    (publish sample_crypto load_sample save_sample attempts published (peer ∷ [])).0 ≡ ok tt
unfolding publish publish_loop after_attempt publish_once save_next
published-ok = refl

abbrev own_jwk : Jwk
own_jwk = jwk_of sample_crypto 3 (thumb 3)

own-listed : In own_jwk (jwks sample_crypto set 100)
unfolding jwks current_jwks retired_jwks
own-listed = inl refl

own-served : In own_jwk (published_jwks sample_crypto published 100)
own-served = own_key-served sample_crypto published 100 own_jwk own-listed

published_jwks_sound_example :
    In own_jwk (jwks sample_crypto set 100)
    ⊎ (Derives sample_crypto own_jwk
        × Any (ComesFrom sample_crypto published 100 own_jwk) (peer ∷ [])
        × (¬ In (thumb 3) (map (λ (k : Jwk). k.kid) (jwks sample_crypto set 100))))
unfolding thumbprint jwk_of
published_jwks_sound_example = published_jwks_sound sample_crypto published 100 own_jwk own-served
