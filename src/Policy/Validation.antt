-- ===== src/Policy/Validation.antt =====
-- What PolicyFile.Resolver of policy.go accepts, and the default tenant of the grants that it gives.
use tsjwt.Prelude.{
  if◌then◌else◌, Bool-cases, length, All, In, Text, text_eq_iff, text_eq, ℕ, ◌+◌, ◌≤◌, ◌≡◌, refl,
  ap, ◌≢◌, ◌↔◌, ◌⊎◌, inl, inr, true, false, not, ◌&&◌, Option, none, some, List, [], ◌∷◌, ◌++◌,
  arith, sym, ◌∙◌,
}
use tsjwt.Errors.{ok, is_ok, >>=-eq-ok, ok-injective, Result, err, ◌>>=◌, Result-cases}
use mathlib.Core.Path.{subst}
use tsjwt.Tenant.{Identity, Tenant, is_tenant_id, tenant_valid, Grant, empty_grant, tenant_ids}
use tsjwt.Policy.{
  PolicyTenant, PolicyFile, bare_tenant, check_tenants, policy_tenant, add_tenant, grant_loop,
  set_default, policy_resolve, policy_resolver, resolver_of,
}

unfoldable pub count_defaults : List PolicyTenant → ℕ
count_defaults [] = 0
count_defaults (t ∷ ts) = (if t.default then 1 else 0) + count_defaults ts

-- A policy file names a tenant, each id is permitted, and at most one tenant is the default.
pub record PolicyIsWellFormed (p : PolicyFile) : Type 0 where
  pub named : p.tenants ≢ []
  pub ids_ok : All (λ (t : PolicyTenant). is_tenant_id t.id ≡ true) p.tenants
  pub one_default : count_defaults p.tenants ≤ 1

bare_valid_iff : (id : Text) → (tenant_valid (bare_tenant id) ≡ ok tt) ↔ (is_tenant_id id ≡ true)
unfolding tenant_valid
bare_valid_iff id = ground arith

is_tenant_id-ne-nil : (id : Text) → is_tenant_id id ≡ true → text_eq id [] ≡ false
unfolding is_tenant_id text_eq
is_tenant_id-ne-nil [] h = cc
is_tenant_id-ne-nil (c ∷ id) h = refl

-- The first default id found counts against the later ones.
abbrev set_already : Text → ℕ
set_already d = if text_eq d [] then 0 else 1

check_tenants_sound :
    (ts : List PolicyTenant) (d : Text) {found : Text}
    → check_tenants ts d ≡ ok found
    → All (λ (t : PolicyTenant). is_tenant_id t.id ≡ true) ts
      × (count_defaults ts + set_already d ≤ 1)
unfolding check_tenants count_defaults
check_tenants_sound [] d e = (tt, ground arith)
check_tenants_sound (t ∷ ts) d {found} e =
    let (_, v, rest) = >>=-eq-ok (tenant_valid (bare_tenant t.id)) _ e in
    let id_ok = (bare_valid_iff t.id).0 v in
    elim (Bool-cases (t.default && not (text_eq d []))) [
      | inl twice ↦ cc (rw twice at rest)
      | inr once ↦
          let (ids, few) =
            check_tenants_sound ts (if t.default then t.id else d) (rw once at rest) in
          ((id_ok, ids), ground (arith, is_tenant_id-ne-nil t.id id_ok, few))
    ]

check_tenants_complete :
    (ts : List PolicyTenant) (d : Text)
    → All (λ (t : PolicyTenant). is_tenant_id t.id ≡ true) ts
    → count_defaults ts + set_already d ≤ 1
    → is_ok (check_tenants ts d) ≡ true
unfolding check_tenants count_defaults
check_tenants_complete [] d ids few = refl
check_tenants_complete (t ∷ ts) d ids few = ground (
  arith,
  (bare_valid_iff t.id).1 ids.0,
  is_tenant_id-ne-nil t.id ids.0,
  check_tenants_complete ts (if t.default then t.id else d) ids.1,
)

is_ok-bind : (r : Result Text) (f : Identity → Result Grant) → is_ok (r >>= λ _. ok f) ≡ is_ok r
is_ok-bind (ok a) f = refl
is_ok-bind (err e) f = refl

resolver_of_iff :
    (p : PolicyFile) (ts : List PolicyTenant)
    → p.tenants ≡ ts
    → (is_ok (resolver_of p ts) ≡ true) ↔ PolicyIsWellFormed p
unfolding resolver_of
resolver_of_iff p [] e = ((λ h. cc), λ w. absurd (w.named e))
resolver_of_iff p (t ∷ ts) e = rw (is_ok-bind (check_tenants (t ∷ ts) []) (policy_resolve p)) (
  (λ h. elim (Result-cases (check_tenants (t ∷ ts) [])) [
    | inl (d, done) ↦
        let (ids, few) = check_tenants_sound (t ∷ ts) [] done in
        record {
          named = λ z. cc (sym e ∙ z);
          ids_ok = rw e ids;
          one_default = rw e (unfold text_eq in omega (arith, few));
        }
    | inr (x, failed) ↦ cc (rw failed at h)
  ]),
  λ w.
      check_tenants_complete (t ∷ ts) [] (rw e at w.ids_ok)
        (unfold text_eq in (omega (arith, (rw e at w.one_default)))),
)

-- PolicyFile.Resolver accepts a policy file exactly if it is well formed.
pub policy_resolver_iff :
    (p : PolicyFile) → (is_ok (policy_resolver p) ≡ true) ↔ PolicyIsWellFormed p
unfolding policy_resolver
policy_resolver_iff p = resolver_of_iff p p.tenants refl

-- The default is empty or names a tenant of the grant.
abbrev pub DefaultIsGranted : Grant → Type 0
DefaultIsGranted g = (g.default ≡ []) ⊎ In g.default (tenant_ids g.tenants)

tenant_ids-append : (ts us : List Tenant) → tenant_ids (ts ++ us) ≡ tenant_ids ts ++ tenant_ids us
tenant_ids-append [] us = refl
tenant_ids-append (t ∷ ts) us = ap (◌∷◌ t.id) (tenant_ids-append ts us)

In-tenant_ids-snoc :
    (x : Text) (ts : List Tenant) (u : Tenant)
    → (In x (tenant_ids ts) ⊎ (u.id ≡ x))
    → In x (tenant_ids (ts ++ u ∷ []))
In-tenant_ids-snoc x [] u h = ground arith
In-tenant_ids-snoc x (t ∷ ts) u h = ground (arith, In-tenant_ids-snoc x ts u)

add_tenant-default :
    (t : PolicyTenant) (o : Option (List Text)) (g : Grant)
    → DefaultIsGranted g
    → DefaultIsGranted (add_tenant t o g)
unfolding add_tenant policy_tenant
add_tenant-default t none g h = h
add_tenant-default t (some roles) g h = ground (
  arith,
  In-tenant_ids-snoc g.default g.tenants (policy_tenant t roles),
  In-tenant_ids-snoc t.id g.tenants (policy_tenant t roles),
)

grant_loop-default :
    (d : Text) (n : ℕ) (gs : List Text) (ts : List PolicyTenant) (g : Grant)
    → DefaultIsGranted g
    → DefaultIsGranted (grant_loop d n gs ts g)
unfolding grant_loop
grant_loop-default d n gs [] g h = h
grant_loop-default d n gs (t ∷ ts) g h = grant_loop-default d n gs ts _ (add_tenant-default t _ g h)

set_default-granted :
    (ts : List Tenant) (d : Text)
    → (d ≡ []) ⊎ In d (tenant_ids ts)
    → (set_default ts d ≡ []) ⊎ In (set_default ts d) (tenant_ids ts)
unfolding set_default
set_default-granted [] d h = h
set_default-granted (t ∷ []) d h = ground (arith, text_eq_iff d [])
set_default-granted (t ∷ u ∷ ts) d h = h

-- Every grant of a policy has a default that is empty or one of its own tenants.
pub policy_resolve-default :
    (p : PolicyFile) (i : Identity) {g : Grant} → policy_resolve p i ≡ ok g → DefaultIsGranted g
unfolding policy_resolve
policy_resolve-default p i {g} e = subst DefaultIsGranted (ok-injective e) (
    set_default-granted _ _ (
      grant_loop-default p.default_role (length p.tenants) i.groups p.tenants empty_grant
        (inl refl)))
