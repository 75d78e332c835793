-- ===== src/Policy.antt =====
-- The tenant policy file of package tsjwt: policy.go. Reading and decoding the file is not modelled:
-- the model starts from the decoded PolicyFile.
pub mod Isolation
pub mod Validation
mod Tests
use tsjwt.Prelude.{
  ◌==◌, if◌then◌else◌, length, Text, text_eq, Dict, ℕ, Bool, not, ◌&&◌, ◌||◌, Option, none, some,
  List, [], ◌∷◌, ◌++◌,
}
use tsjwt.Errors.{other, Result, ok, err, ◌>>◌, ◌>>=◌}
use tsjwt.Tenant.{Identity, Tenant, tenant_valid, Grant, empty_grant, collect_roles}

pub record PolicyTenant : Type 0 where
  pub id : Text
  pub name : Text
  pub groups : Dict Text
  pub default : Bool

pub record PolicyFile : Type 0 where
  pub tenants : List PolicyTenant
  pub default_role : Text

abbrev bare_tenant : Text → Tenant
bare_tenant id = record { id = id; name = []; roles = [] }

-- The first loop of PolicyFile.Resolver: the id of the default tenant so far, or an error.
check_tenants : List PolicyTenant → Text → Result Text
unfolding tenant_valid text_eq
check_tenants [] default_id = ok default_id
check_tenants (t ∷ ts) default_id =
    let rest = check_tenants ts (if t.default then t.id else default_id) in
    tenant_valid (bare_tenant t.id)
    >> (if t.default && not (text_eq default_id []) then err other else rest)

-- The roles of an identity in one tenant of the policy; `none` is the `continue` of the loop. The
-- default role counts only where the policy has a single tenant.
roles_in : Text → ℕ → List Text → Option (List Text)
unfolding text_eq
roles_in default_role count [] =
    if text_eq default_role [] || not (count == 1) then none else some (default_role ∷ [])
roles_in default_role count (role ∷ rest) = some (role ∷ rest)

policy_tenant : PolicyTenant → List Text → Tenant
policy_tenant t roles = record { id = t.id; name = t.name; roles = roles }

add_tenant : PolicyTenant → Option (List Text) → Grant → Grant
unfolding policy_tenant
add_tenant t none g = g
add_tenant t (some roles) g = record {
  tenants = g.tenants ++ policy_tenant t roles ∷ [];
  default = if t.default then t.id else g.default;
}

-- The loop of the resolver function over the tenants of the policy.
grant_loop : Text → ℕ → List Text → List PolicyTenant → Grant → Grant
unfolding roles_in add_tenant collect_roles
grant_loop default_role count groups [] g = g
grant_loop default_role count groups (t ∷ ts) g =
    grant_loop default_role count groups ts
      (add_tenant t (roles_in default_role count (collect_roles t.groups groups [])) g)

-- Reaching exactly one tenant makes that the default.
set_default : List Tenant → Text → Text
unfolding text_eq
set_default (t ∷ []) default = if text_eq default [] then t.id else default
set_default [] default = default
set_default (t ∷ u ∷ ts) default = default

-- The function that PolicyFile.Resolver returns.
unfoldable pub policy_resolve : PolicyFile → Identity → Result Grant
unfolding grant_loop set_default
policy_resolve p i =
    let g = grant_loop p.default_role (length p.tenants) i.groups p.tenants empty_grant in
    ok (record g { default = set_default g.tenants g.default })

resolver_of : PolicyFile → List PolicyTenant → Result (Identity → Result Grant)
unfolding check_tenants
resolver_of p [] = err other
resolver_of p (t ∷ ts) = check_tenants (t ∷ ts) [] >>= λ _. ok (policy_resolve p)

-- PolicyFile.Resolver
pub policy_resolver : PolicyFile → Result (Identity → Result Grant)
unfolding resolver_of
policy_resolver p = resolver_of p p.tenants
