-- ===== src/Tailnet/AuthKey/Tests.antt =====
-- Runs of Mint of tsnetid/authkey.go, and the theorem at a sample.
use tsjwt.Prelude.{codes, text_eq, ℤ, pos, pos_part, ◌+◌, ◌*◌, ◌/◌, ◌≡◌, refl, true, false, [], ◌∷◌}
use tsjwt.Errors.{other, Result, err, ok}
use tsjwt.GoTime.{Duration, second, hour, add_time}
use tsjwt.Verifier.Remote.{zero_time}
use tsjwt.Tailnet.AuthKey.{AuthKeyMinter, Post, Answer, token_post, key_post, mint_key}
use tsjwt.Tailnet.AuthKey.Exchange.{Ran, mint_key-Ran}

abbrev minter : AuthKeyMinter
minter = record {
  client_id = codes "id";
  client_secret = codes "hush";
  tags = codes "tag:gw" ∷ [];
  ephemeral = false;
  validity = pos 0;
  base_url = [];
}

-- Both endpoints answer with 200.
abbrev send_sample : Post → Result Answer
send_sample p = ok (record {
  status = 200;
  decoded = true;
  token = codes "at";
  key = codes "tskey";
  expires = zero_time;
})

abbrev whole : Duration → ℤ
whole d = pos (pos_part d / second)

minted : mint_key send_sample whole 5 minter ≡ (
  ok (record { key = codes "tskey"; expires = 5 + 90 * (24 * hour) }),
  token_post minter ∷ key_post minter (codes "at") (pos 7_776_000) ∷ [],
)
unfolding mint_key text_eq add_time
minted = refl

untagged : mint_key send_sample whole 5 (record minter { tags = [] }) ≡ (err other, [])
unfolding mint_key text_eq
untagged = refl

mint_key-Ran_example : Ran send_sample whole 5 minter (mint_key send_sample whole 5 minter)
mint_key-Ran_example = mint_key-Ran send_sample whole 5 minter
