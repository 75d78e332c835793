-- ===== src/Tailnet/AuthKey/Requests.antt =====
-- The two requests of Mint of tsnetid/authkey.go.
use tsjwt.GoTime.{Duration, hour}
use tsjwt.Tailnet.AuthKey.{
  AuthKeyMinter, AuthKey, form, device_key, Post, base, token_post, key_post, validity_of,
}
use tsjwt.Prelude.{
  if◌then◌else◌, Bool-cases, Text, codes, text_eq_iff, text_eq, ℤ, pos, ◌≤ℤ◌, ◌<ℤ◌, leb_ℤ, ◌*◌, ◌≡◌,
  refl, ◌≢◌, ◌⊎◌, inl, inr, true, false, none, some, [], ◌∷◌, ◌++◌, arith,
}

pub text-ne : (t : Text) → text_eq t [] ≡ false → t ≢ []
text-ne t e empty = cc (e, (text_eq_iff t []).1 empty)

-- The request goes to the path below the base URL, or below api.tailscale.com where none is set.
abbrev pub IsUrl : AuthKeyMinter → Text → Text → Type 0
IsUrl m path url =
    ((m.base_url ≡ []) × (url ≡ codes "https://api.tailscale.com" ++ path))
    ⊎ ((m.base_url ≢ []) × (url ≡ m.base_url ++ path))

-- The request for an access token, with the client's id and secret.
pub record AsksToken (m : AuthKeyMinter) (p : Post) : Type 0 where
  pub url_ok : IsUrl m (codes "/api/v2/oauth/token") p.url
  pub bearer_ok : p.bearer ≡ none
  pub body_ok :
      p.body
      ≡ form (
          (codes "client_id", m.client_id)
          ∷ (codes "client_secret", m.client_secret)
          ∷ (codes "grant_type", codes "client_credentials")
          ∷ [])

-- The request, with the token, for a reusable and preauthorized key that carries the tags.
pub record AsksKey (m : AuthKeyMinter) (token : Text) (seconds : ℤ) (p : Post) : Type 0 where
  pub url_ok : IsUrl m (codes "/api/v2/tailnet/-/keys") p.url
  pub bearer_ok : p.bearer ≡ some token
  pub body_ok : p.body ≡ device_key true m.ephemeral true m.tags seconds

-- The validity asked for: 90 days, unless the minter's is positive.
abbrev pub IsValidity : AuthKeyMinter → Duration → Type 0
IsValidity m d =
    ((m.validity ≤ℤ pos 0) × (d ≡ pos (90 * (24 * hour))))
    ⊎ ((pos 0 <ℤ m.validity) × (d ≡ m.validity))

base-IsUrl :
    (m : AuthKeyMinter) (path : Text)
    → IsUrl m path
        ((if text_eq m.base_url [] then codes "https://api.tailscale.com" else m.base_url) ++ path)
base-IsUrl m path = elim (Bool-cases (text_eq m.base_url [])) [
  | inl empty ↦ inl ((text_eq_iff m.base_url []).0 empty, rw empty refl)
  | inr full ↦ inr (text-ne m.base_url full, rw full refl)
]

pub token_post-AsksToken : (m : AuthKeyMinter) → AsksToken m (token_post m)
unfolding tsjwt.Tailnet.AuthKey.base text_eq
token_post-AsksToken m = record {
  url_ok = base-IsUrl m (codes "/api/v2/oauth/token");
  bearer_ok = refl;
  body_ok = refl;
}

pub key_post-AsksKey :
    (m : AuthKeyMinter) (token : Text) (seconds : ℤ)
    → AsksKey m token seconds (key_post m token seconds)
unfolding tsjwt.Tailnet.AuthKey.base text_eq
key_post-AsksKey m token seconds = record {
  url_ok = base-IsUrl m (codes "/api/v2/tailnet/-/keys");
  bearer_ok = refl;
  body_ok = refl;
}

pub validity_of-IsValidity : (m : AuthKeyMinter) → IsValidity m (validity_of m)
validity_of-IsValidity m = elim (Bool-cases (leb_ℤ m.validity (pos 0))) [
  | inl low ↦ inl (ground arith, rw low refl)
  | inr high ↦ inr (ground arith, rw high refl)
]
