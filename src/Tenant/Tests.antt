-- ===== src/Tenant/Tests.antt =====
-- Runs of identity.go and tenant.go, and the theorems about grants at a sample.
use tsjwt.Prelude.{codes, text_eq, text_lt, lookup, insert, ◌≡◌, refl, ◌↔◌, inl, [], ◌∷◌, trim}
use tsjwt.Errors.{ok}
use tsjwt.Prelude.Sort.{sort}
use tsjwt.Tenant.{
  Identity, Tenant, tenant_valid, Grant, grant_ids, grant_valid, collect_roles, GroupTenantResolver,
  grant_roles, resolve,
}
use tsjwt.Tenant.Grants.{GrantIsWellFormed, grant_valid_iff}
use tsjwt.Tenant.Roles.{Follows, resolve-Follows}

abbrev acme : Tenant
acme = record { id = codes "acme"; name = codes "Acme"; roles = codes "admin" ∷ [] }

abbrev beta : Tenant
beta = record { id = codes "beta-2"; name = []; roles = [] }

abbrev two_tenants : Grant
two_tenants = record { tenants = beta ∷ acme ∷ []; default = codes "acme" }

abbrev alice : Identity
alice = record {
  subject = codes "u1";
  login = codes "alice@example.com";
  display_name = codes "Alice";
  groups = codes "devs" ∷ codes "ops" ∷ [];
  node = codes "laptop";
  attributes = [];
}

abbrev resolver : GroupTenantResolver
resolver = record {
  tenant = acme;
  roles = (codes "ops", codes "operator") ∷ (codes "devs", codes "admin") ∷ [];
  default_role = [];
}

abbrev acme_grant : Grant
acme_grant = record {
  tenants = record acme { roles = codes "admin" ∷ codes "operator" ∷ [] } ∷ [];
  default = codes "acme";
}

abbrev closed_resolver : GroupTenantResolver
closed_resolver = record { tenant = acme; roles = []; default_role = [] }

ids : grant_ids two_tenants ≡ codes "acme" ∷ codes "beta-2" ∷ []
unfolding grant_ids sort insert text_lt
ids = refl

two_tenants-valid : grant_valid two_tenants ≡ ok tt
unfolding grant_valid trim
two_tenants-valid = refl

grant_valid_iff_example : (grant_valid two_tenants ≡ ok tt) ↔ GrantIsWellFormed two_tenants
grant_valid_iff_example = grant_valid_iff two_tenants

alice-resolved : resolve resolver alice ≡ ok acme_grant
unfolding resolve grant_roles sort insert text_lt collect_roles lookup text_eq tenant_valid trim
alice-resolved = refl

resolve-Follows_example :
    Follows resolver alice acme_grant
      (record acme { roles = codes "admin" ∷ codes "operator" ∷ [] })
resolve-Follows_example = resolve-Follows resolver alice alice-resolved _ (inl refl)
