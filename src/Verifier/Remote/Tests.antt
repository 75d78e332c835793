-- ===== src/Verifier/Remote/Tests.antt =====
-- Runs of verifier/remote.go with the sample cryptography, and its theorems at a sample.
use tsjwt.Prelude.{Text, text_eq, pos, lookup, ℕ, ◌*◌, ◌≡◌, refl, none, [], ◌∷◌}
use tsjwt.Errors.{ok}
use tsjwt.Verifier.Remote.{Meets, RemoteKeys, fetched, refresh, stale_key, key_for, remote_key}
use tsjwt.GoTime.{second, sub_time}
use tsjwt.Keys.{thumbprint}
use tsjwt.Samples.{sample_crypto}
use tsjwt.Verifier.Remote.Cache.{CacheIsBound, Sound, remote_key-Sound}
use tsjwt.Verifier.Remote.Outage.{StillHeld, remote_key-StillHeld}

abbrev thumb : ℕ → Text
thumb k = thumbprint sample_crypto k

-- One key, fetched at 1000 seconds, with a TTL of 5 minutes.
abbrev remote : RemoteKeys sample_crypto
remote = record {
  ttl = pos 0;
  min_refetch = pos 0;
  max_stale = pos 0;
  by_kid = (thumb 3, 3) ∷ [];
  fetched_at = 1000 * second;
  last_try = 1000 * second;
}

-- The endpoint is down, 10 minutes after the fetch.
abbrev outage : Meets
outage = record {
  now = 1600 * second;
  try_at = 1600 * second;
  done_at = 1601 * second;
  age_at = 1601 * second;
  response = none;
}

abbrev soon : Meets
soon = record outage { now = 1010 * second; try_at = 1010 * second }

remote-CacheIsBound : CacheIsBound sample_crypto remote
remote-CacheIsBound = record { bound = (refl, tt) }

remote_key-Sound_example :
    Sound sample_crypto (thumb 3) (remote_key sample_crypto (thumb 3) outage remote)
remote_key-Sound_example =
    remote_key-Sound sample_crypto (thumb 3) outage remote remote-CacheIsBound

stale-served : (remote_key sample_crypto (thumb 3) outage remote).0 ≡ ok 3
unfolding remote_key key_for stale_key refresh fetched sub_time lookup text_eq thumbprint
stale-served = refl

remote_key-StillHeld_example : StillHeld sample_crypto (thumb 3) outage remote 3
remote_key-StillHeld_example =
    remote_key-StillHeld sample_crypto (thumb 3) outage remote 3 refl stale-served
