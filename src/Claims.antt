-- ===== src/Claims.antt =====
-- The token payload of package tsjwt: claims.go and context.go.
pub mod Wire
use tsjwt.Prelude.{if◌then◌else◌, Text, text_eq, ℤ, pos, Dict, Bool, true, false, List, [], ◌∷◌}
use tsjwt.GoTime.{Instant, unix}

-- The JSON values of a claim set. `raw` stands for a value that this package does not look into.
pub data Json : Type 0 where
  str : Text → Json
  num : ℤ → Json
  list : List Text → Json
  raw : Text → Json

pub record Claims : Type 0 where
  pub issuer : Text
  pub subject : Text
  pub audience : Text
  pub issued_at : ℤ
  pub not_before : ℤ
  pub expiry : ℤ
  pub jti : Text
  pub email : Text
  pub display_name : Text
  pub node : Text
  pub tenant : Text
  pub tenants : List Text
  pub roles : List Text
  pub groups : List Text
  pub extra : Dict Json

abbrev pub no_claims : Claims
no_claims = record {
  issuer = [];
  subject = [];
  audience = [];
  issued_at = pos 0;
  not_before = pos 0;
  expiry = pos 0;
  jti = [];
  email = [];
  display_name = [];
  node = [];
  tenant = [];
  tenants = [];
  roles = [];
  groups = [];
  extra = [];
}

-- Claims.ExpiresAt
unfoldable pub expires_at : Claims → Instant
unfolding unix
expires_at c = unix c.expiry

-- Claims.HasRole
pub has_role : Claims → Text → Bool
has_role c name = role_in c.roles
  where
    role_in : List Text → Bool
    role_in [] = false
    role_in (r ∷ rs) = if text_eq r name then true else role_in rs
