-- ===== src/Tenant.antt =====
-- The identity and tenant model of package tsjwt: identity.go and tenant.go.
pub mod Grants
pub mod Roles
mod Tests
use tsjwt.Prelude.{
  leb, ◌==◌, if◌then◌else◌, length, Text, text_eq, text_lt, trim, Dict, lookup, has, ℕ, Bool, true,
  false, ◌&&◌, ◌||◌, Option, none, some, List, [], ◌∷◌, ◌++◌, map,
}
use tsjwt.Prelude.Sort.{sort}
use tsjwt.Errors.{no_identity, no_tenant, Result, ok, err, ◌>>=◌, ◌>>◌}

-- `attributes` holds lists of texts, the only value that an identity source of the repository sets.
pub record Identity : Type 0 where
  pub subject : Text
  pub login : Text
  pub display_name : Text
  pub groups : List Text
  pub node : Text
  pub attributes : Dict (List Text)

-- Identity.Valid
unfoldable pub identity_valid : Identity → Result (Unit {0})
unfolding text_eq
identity_valid i = if text_eq (trim i.subject) [] then err no_identity else ok tt

-- for _, x := range xs { if x == name { return true } }; return false
contains_name : List Text → Text → Bool
contains_name [] name = false
contains_name (g ∷ gs) name = if text_eq g name then true else contains_name gs name

-- Identity.HasGroup
pub has_group : Identity → Text → Bool
has_group i name = contains_name i.groups name

pub record Tenant : Type 0 where
  pub id : Text
  pub name : Text
  pub roles : List Text

-- The character classes of `tenantIDPattern`: [a-z0-9] and [a-z0-9._-].
abbrev pub is_id_end : ℕ → Bool
is_id_end c = (leb b'a' c && leb c b'z') || (leb b'0' c && leb c b'9')

abbrev pub is_id_char : ℕ → Bool
is_id_char c = is_id_end c || (c == b'.') || (c == b'_') || (c == b'-')

-- [a-z0-9._-]*[a-z0-9]$
id_rest : Text → Bool
id_rest [] = false
id_rest (c ∷ []) = is_id_end c
id_rest (c ∷ d ∷ s) = is_id_char c && id_rest (d ∷ s)

-- tenantIDPattern.MatchString. The middle of the longer alternative has at most 62 characters.
unfoldable pub is_tenant_id : Text → Bool
unfolding id_rest
is_tenant_id [] = false
is_tenant_id (c ∷ []) = is_id_end c
is_tenant_id (c ∷ d ∷ s) = is_id_end c && (leb (length s) 62 && id_rest (d ∷ s))

roles_valid : List Text → Result (Unit {0})
roles_valid [] = ok tt
roles_valid (r ∷ rs) = if text_eq (trim r) [] then err no_tenant else roles_valid rs

-- Tenant.Valid
unfoldable pub tenant_valid : Tenant → Result (Unit {0})
unfolding is_tenant_id roles_valid
tenant_valid t = if is_tenant_id t.id then roles_valid t.roles else err no_tenant

-- Tenant.HasRole
pub tenant_has_role : Tenant → Text → Bool
tenant_has_role t name = contains_name t.roles name

pub record Grant : Type 0 where
  pub tenants : List Tenant
  pub default : Text

abbrev pub empty_grant : Grant
empty_grant = record { tenants = []; default = [] }

find_tenant : Text → List Tenant → Option Tenant
find_tenant id [] = none
find_tenant id (t ∷ ts) = if text_eq t.id id then some t else find_tenant id ts

-- Grant.Tenant
unfoldable pub grant_tenant : Grant → Text → Option Tenant
unfolding find_tenant
grant_tenant g id = find_tenant id g.tenants

abbrev pub tenant_ids : List Tenant → List Text
tenant_ids = map λ t. t.id

-- Grant.IDs
unfoldable pub grant_ids : Grant → List Text
grant_ids g = sort text_lt (tenant_ids g.tenants)

-- The loop of Grant.Valid: the ids seen, or the first error.
valid_loop : List Tenant → List Text → Result (List Text)
unfolding tenant_valid has
valid_loop [] seen = ok seen
valid_loop (t ∷ ts) seen =
    let rest = valid_loop ts (t.id ∷ seen) in
    tenant_valid t >> (if has t.id seen then err no_tenant else rest)

default_valid : Text → List Text → Result (Unit {0})
unfolding text_eq has
default_valid default seen =
    if text_eq default [] then ok tt else (if has default seen then ok tt else err no_tenant)

-- Grant.Valid
unfoldable pub grant_valid : Grant → Result (Unit {0})
unfolding valid_loop default_valid
grant_valid g = do seen ← valid_loop g.tenants []; default_valid g.default seen

add_role : Option Text → List Text → List Text
unfolding has
add_role none roles = roles
add_role (some r) roles = if has r roles then roles else roles ++ r ∷ []

-- The loop that gathers the roles of the mapped groups: the map `seen` of the source has the
-- roles appended so far for its keys.
unfoldable pub collect_roles : Dict Text → List Text → List Text → List Text
unfolding add_role lookup
collect_roles m [] roles = roles
collect_roles m (g ∷ gs) roles = collect_roles m gs (add_role (lookup g m) roles)

-- StaticGrant
pub static_grant : Grant → Identity → Result Grant
static_grant g i = ok g

pub record GroupTenantResolver : Type 0 where
  pub tenant : Tenant
  pub roles : Dict Text
  pub default_role : Text

grant_roles : GroupTenantResolver → List Text → Grant
grant_roles r roles = record {
  tenants = record r.tenant { roles = sort text_lt roles } ∷ [];
  default = r.tenant.id;
}

-- GroupTenantResolver.Resolve
pub resolve : GroupTenantResolver → Identity → Result Grant
unfolding collect_roles grant_roles
resolve r i = tenant_valid r.tenant >> (elim (collect_roles r.roles i.groups []) [
  | [] ↦
      if text_eq r.default_role [] then ok empty_grant else ok (grant_roles r (r.default_role ∷ []))
  | role ∷ rest ↦ ok (grant_roles r (role ∷ rest))
])
