-- ===== src/Tailnet/AuthKey.antt =====
-- The minting of a tailnet auth key, tsnetid/authkey.go: Mint, token and createKey. The HTTP exchange, which
-- decodes the answer's JSON, and the seconds of a duration as a float64 cut to an int64 are arguments.
pub mod Requests
pub mod Exchange
mod Tests
use tsjwt.Prelude.{
  ◌==◌, if◌then◌else◌, length, Text, codes, text_eq, ℤ, pos, leb_ℤ, Dict, ℕ, ◌*◌, Bool, true, not,
  ◌||◌, Option, none, some, List, [], ◌∷◌, ◌++◌,
}
use tsjwt.Errors.{other, Result, err, ok, guard, ◌>>◌, ◌>>=◌}
use tsjwt.GoTime.{Instant, Duration, hour, add_time}
use tsjwt.Verifier.Remote.{zero_time}

pub record AuthKeyMinter : Type 0 where
  pub client_id : Text
  pub client_secret : Text
  pub tags : List Text
  pub ephemeral : Bool
  pub validity : Duration
  pub base_url : Text

pub record AuthKey : Type 0 where
  pub key : Text
  pub expires : Instant

-- The body of a request: the form of the token request, or the JSON of the key request.
pub data Body : Type 0 where
  form : Dict Text → Body
  device_key : (reusable ephemeral preauthorized : Bool) → List Text → ℤ → Body

-- A POST. The bearer is the token of its Authorization header, if it has one.
pub record Post : Type 0 where
  pub url : Text
  pub bearer : Option Text
  pub body : Body

-- An answer's status and decoded body, with whether it decodes: `token` is the access_token of the first answer, `key` and `expires`
-- are the fields of the second; a field that the body does not have is empty or the zero time.
pub record Answer : Type 0 where
  pub status : ℕ
  pub decoded : Bool
  pub token : Text
  pub key : Text
  pub expires : Instant

-- base
pub base : AuthKeyMinter → Text
unfolding text_eq
base m = if text_eq m.base_url [] then codes "https://api.tailscale.com" else m.base_url

abbrev pub token_post : AuthKeyMinter → Post
token_post m = record {
  url = base m ++ codes "/api/v2/oauth/token";
  bearer = none;
  body = form (
      (codes "client_id", m.client_id)
      ∷ (codes "client_secret", m.client_secret)
      ∷ (codes "grant_type", codes "client_credentials")
      ∷ []);
}

abbrev pub key_post : AuthKeyMinter → Text → ℤ → Post
key_post m token seconds = record {
  url = base m ++ codes "/api/v2/tailnet/-/keys";
  bearer = some token;
  body = device_key true m.ephemeral true m.tags seconds;
}

-- The checks of token on the answer.
token_of : Result Answer → Result Text
unfolding text_eq
token_of (err e) = err other
token_of (ok a) = do
  guard (a.status == 200) other
  guard a.decoded other
  guard (not (text_eq a.token [])) other
  ok a.token

-- The checks of createKey on the answer; `now` is read where the answer has no expiry.
key_of : Duration → Instant → Result Answer → Result AuthKey
unfolding text_eq add_time
key_of validity now (err e) = err other
key_of validity now (ok a) = do
  guard (a.status == 200 || a.status == 201) other
  guard a.decoded other
  guard (not (text_eq a.key [])) other
  ok (record {
    key = a.key;
    expires = if a.expires == zero_time then add_time now validity else a.expires;
  })

-- What Mint asks for: the validity, or 90 days.
abbrev pub validity_of : AuthKeyMinter → Duration
validity_of m = if leb_ℤ m.validity (pos 0) then pos (90 * (24 * hour)) else m.validity

module _ (send : Post → Result Answer) (seconds_of : Duration → ℤ) (now : Instant) where
  -- createKey, with the requests that it sends.
  create_key : AuthKeyMinter → Duration → Result Text → Result AuthKey × List Post
  unfolding key_of
  create_key m validity (err e) = (err e, [])
  create_key m validity (ok token) =
      let post = key_post m token (seconds_of validity) in
      (key_of validity now (send post), post ∷ [])

  -- Mint, with the requests that it sends, in their order.
  unfoldable pub mint_key : AuthKeyMinter → Result AuthKey × List Post
  unfolding create_key token_of text_eq
  mint_key m =
      if text_eq m.client_id [] || text_eq m.client_secret []
      then (err other, [])
      else if length m.tags == 0
      then (err other, [])
      else (let (r, posts) = create_key m (validity_of m) (token_of (send (token_post m))) in
          (r, token_post m ∷ posts))
