-- ===== src/Policy/Tests.antt =====
-- Runs of policy.go, and the theorems about policies at a sample.
use tsjwt.Prelude.{Any, codes, text_eq, lookup, ◌≡◌, refl, inl, true, false, [], ◌∷◌}
use tsjwt.Errors.{ok}
use tsjwt.Tenant.Roles.{Confers}
use tsjwt.Policy.{
  PolicyTenant, PolicyFile, check_tenants, grant_loop, set_default, policy_resolve, resolver_of,
}
use tsjwt.Tenant.{Identity, Tenant, tenant_valid, Grant, collect_roles}
use tsjwt.Policy.Isolation.{StandsFor, policy_resolve-StandsFor}

abbrev acme : PolicyTenant
acme = record {
  id = codes "acme";
  name = codes "Acme";
  groups = (codes "acme-devs", codes "admin") ∷ [];
  default = false;
}

abbrev beta : PolicyTenant
beta = record {
  id = codes "beta";
  name = [];
  groups = (codes "beta-devs", codes "viewer") ∷ [];
  default = true;
}

abbrev policy : PolicyFile
policy = record { tenants = acme ∷ beta ∷ []; default_role = codes "guest" }

abbrev alice : Identity
alice = record {
  subject = codes "u1";
  login = [];
  display_name = [];
  groups = codes "acme-devs" ∷ [];
  node = [];
  attributes = [];
}

abbrev alice_tenant : Tenant
alice_tenant = record { id = codes "acme"; name = codes "Acme"; roles = codes "admin" ∷ [] }

abbrev alice_grant : Grant
alice_grant = record { tenants = alice_tenant ∷ []; default = codes "acme" }

alice-resolved : policy_resolve policy alice ≡ ok alice_grant
unfolding policy_resolve resolver_of grant_loop check_tenants set_default collect_roles lookup
    text_eq tenant_valid
alice-resolved = refl

policy_resolve-StandsFor_example :
    Any (StandsFor (codes "guest") 2 alice.groups alice_tenant) policy.tenants
policy_resolve-StandsFor_example =
    policy_resolve-StandsFor policy alice alice-resolved alice_tenant (inl refl)

alice-Confers : Confers acme.groups alice.groups (codes "admin")
unfolding lookup text_eq
alice-Confers = inl refl
