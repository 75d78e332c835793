-- ===== src/Tenant/Roles.antt =====
-- GroupTenantResolver.Resolve of tenant.go: the roles that a grant carries are those of the mapped
-- groups.
use tsjwt.Prelude.{
  if◌then◌else◌, Bool-cases, In, Any, Text, text_eq, Dict, has_iff, lookup, has, ◌≡◌, sym, ap, ◌≢◌,
  ◌↔◌, ◌⊎◌, inl, inr, Option, none, some, some-injective, List, [], ◌∷◌, ◌++◌, arith, text_eq_iff,
  text_lt, refl, ◌∙◌, true, IsDistinct,
}
use tsjwt.Prelude.Sort.{In-sort, sort-In}
use mathlib.Core.Path.{subst}
use tsjwt.Errors.{Result, ok, ◌>>◌, >>=-eq-ok, ok-injective}
use tsjwt.Tenant.{
  collect_roles, add_role, grant_roles, Identity, Tenant, tenant_valid, Grant, empty_grant,
  GroupTenantResolver, resolve,
}

-- One of the groups maps to the role.
abbrev pub Confers : Dict Text → List Text → Text → Type 0
Confers m groups role = Any (λ g. lookup g m ≡ some role) groups

pub In-append : (x y : Text) (l : List Text) → In x (l ++ y ∷ []) ↔ (In x l ⊎ (y ≡ x))
In-append x y [] = ground arith
In-append x y (z ∷ l) = ground (arith, In-append x y l)

In-add_role :
    (x : Text) (o : Option Text) (l : List Text) → In x (add_role o l) ↔ (In x l ⊎ (o ≡ some x))
unfolding add_role
In-add_role x none l = ground arith
In-add_role x (some r) l = elim (Bool-cases (has r l)) [
  | inl old ↦ rw old (
    inl,
    λ h. elim h [
      | inl i ↦ i
      | inr e ↦ (has_iff x l).0 (subst (λ y. has y l ≡ true) (some-injective e) old)
    ],
  )
  | inr new ↦ rw new (
    λ i. elim ((In-append x r l).0 i) [ inl j ↦ inl j | inr e ↦ inr (ap some e) ],
    λ h. (In-append x r l).1 (elim h [ inl i ↦ inl i | inr e ↦ inr (some-injective e) ]),
  )
]

-- The loop keeps the roles that it is given and adds those that the groups confer, and no other.
pub In-collect_roles :
    (x : Text) (m : Dict Text) (gs roles : List Text)
    → In x (collect_roles m gs roles) ↔ (In x roles ⊎ Confers m gs x)
unfolding collect_roles
In-collect_roles x m [] roles = ground arith
In-collect_roles x m (g ∷ gs) roles =
    ground (
      arith,
      In-collect_roles x m gs (add_role (lookup g m) roles),
      In-add_role x (lookup g m) roles,
    )

IsDistinct-append :
    (y : Text) (l : List Text) → IsDistinct l → (¬ In y l) → IsDistinct (l ++ y ∷ [])
IsDistinct-append y [] d new = (absurd, tt)
IsDistinct-append y (x ∷ l) d new = (
  λ i. elim ((In-append x y l).0 i) [ inl j ↦ d.0 j | inr e ↦ new (inl (sym e)) ],
  IsDistinct-append y l d.1 (λ i. new (inr i)),
)

add_role-IsDistinct : (o : Option Text) (l : List Text) → IsDistinct l → IsDistinct (add_role o l)
unfolding add_role
add_role-IsDistinct none l d = d
add_role-IsDistinct (some r) l d = elim (Bool-cases (has r l)) [
  | inl old ↦ rw old d
  | inr new ↦ rw new (IsDistinct-append r l d (λ i. cc ((has_iff r l).1 i)))
]

pub collect_roles-IsDistinct :
    (m : Dict Text) (gs roles : List Text)
    → IsDistinct roles
    → IsDistinct (collect_roles m gs roles)
unfolding collect_roles
collect_roles-IsDistinct m [] roles d = d
collect_roles-IsDistinct m (g ∷ gs) roles d =
    collect_roles-IsDistinct m gs (add_role (lookup g m) roles)
      (add_role-IsDistinct (lookup g m) roles d)

-- The grant for the roles that the loop gathered.
granted : GroupTenantResolver → List Text → Result Grant
granted r [] =
    if text_eq r.default_role [] then ok empty_grant else ok (grant_roles r (r.default_role ∷ []))
granted r (role ∷ rest) = ok (grant_roles r (role ∷ rest))

resolve-granted :
    (r : GroupTenantResolver) (i : Identity)
    → resolve r i ≡ (tenant_valid r.tenant >> granted r (collect_roles r.roles i.groups []))
unfolding resolve granted
resolve-granted r i = ground arith

-- Where a role of a resolved grant comes from: a group of the identity confers it, or no group
-- confers any role and it is the default role, which is not empty.
abbrev pub Comes : GroupTenantResolver → Identity → Text → Type 0
Comes r i role =
    Confers r.roles i.groups role
    ⊎ ((role ≡ r.default_role)
        × (r.default_role ≢ [])
        × ((other : Text) → ¬ Confers r.roles i.groups other))

-- A tenant of a resolved grant is the resolver's own, the default, and its roles are exact.
pub record Follows (r : GroupTenantResolver) (i : Identity) (g : Grant) (t : Tenant) : Type 0 where
  pub same_tenant : t.id ≡ r.tenant.id
  pub is_default : g.default ≡ t.id
  pub role_from : (role : Text) → In role t.roles → Comes r i role
  pub role_kept : (role : Text) → Confers r.roles i.groups role → In role t.roles

grant_roles-Follows :
    (r : GroupTenantResolver) (i : Identity) (roles : List Text)
    → ((x : Text) → In x roles → Comes r i x)
    → ((x : Text) → Confers r.roles i.groups x → In x roles)
    → (t : Tenant) → In t (grant_roles r roles).tenants
    → Follows r i (grant_roles r roles) t
unfolding grant_roles
grant_roles-Follows r i roles from kept t (inr mem) = absurd mem
grant_roles-Follows r i roles from kept t (inl e) = record {
  same_tenant = ap (λ (u : Tenant). u.id) (sym e);
  is_default = ap (λ (u : Tenant). u.id) e;
  role_from = λ role mem.
      from role (In-sort text_lt role roles (subst (λ (u : Tenant). In role u.roles) (sym e) mem));
  role_kept = λ role c.
      subst (λ (u : Tenant). In role u.roles) e (sort-In text_lt role roles (kept role c));
}

granted-Follows :
    (r : GroupTenantResolver) (i : Identity) (roles : List Text) {g : Grant}
    → ((x : Text) → In x roles ↔ Confers r.roles i.groups x)
    → granted r roles ≡ ok g
    → (t : Tenant) → In t g.tenants
    → Follows r i g t
unfolding granted
granted-Follows r i [] {g} same e t mem = elim (Bool-cases (text_eq r.default_role [])) [
  | inl blank ↦
      let none_there : empty_grant ≡ g = ok-injective (rw blank at e) in
      absurd (subst (λ (h : Grant). In t h.tenants) (sym none_there) mem)
  | inr named ↦
      let one : grant_roles r (r.default_role ∷ []) ≡ g = ok-injective (rw named at e) in
      subst (λ (h : Grant). In t h.tenants → Follows r i h t) one
        (grant_roles-Follows r i (r.default_role ∷ [])
          (λ x m. elim m [
            | inl d ↦ inr (
              sym d,
              (λ z. cc (named, (text_eq_iff r.default_role []).1 z)),
              λ other c. (same other).1 c,
            )
            | inr no_more ↦ absurd no_more
          ])
          (λ x c. absurd ((same x).1 c)) t)
        mem
]
granted-Follows r i (role ∷ rest) {g} same e t mem =
    let all : grant_roles r (role ∷ rest) ≡ g = ok-injective e in
    subst (λ (h : Grant). In t h.tenants → Follows r i h t) all
      (grant_roles-Follows r i (role ∷ rest) (λ x m. inl ((same x).0 m)) (λ x c. (same x).1 c) t)
      mem

collected_iff :
    (r : GroupTenantResolver) (i : Identity) (x : Text)
    → In x (collect_roles r.roles i.groups []) ↔ Confers r.roles i.groups x
collected_iff r i x = ground (arith, In-collect_roles x r.roles i.groups [])

-- Every tenant of a grant that GroupTenantResolver.Resolve returns is the resolver's own tenant and
-- the default. It holds each role that a group of the identity maps to, and any role it holds
-- is mapped to by a group, or is the default role where no group is mapped.
pub resolve-Follows :
    (r : GroupTenantResolver) (i : Identity) {g : Grant}
    → resolve r i ≡ ok g
    → (t : Tenant) → In t g.tenants
    → Follows r i g t
resolve-Follows r i {g} e t mem =
    let (_, v, rest) =
      >>=-eq-ok (tenant_valid r.tenant) (λ _. granted r (collect_roles r.roles i.groups []))
        (sym (resolve-granted r i) ∙ e) in
    granted-Follows r i (collect_roles r.roles i.groups []) (collected_iff r i) rest t mem

-- It fails closed: with a valid tenant, no mapped group and no default role the grant is empty.
pub resolve-empty :
    (r : GroupTenantResolver) (i : Identity)
    → tenant_valid r.tenant ≡ ok tt
    → ((role : Text) → ¬ Confers r.roles i.groups role)
    → r.default_role ≡ []
    → resolve r i ≡ ok empty_grant
unfolding granted text_eq
resolve-empty r i v unmapped d =
    resolve-granted r i ∙ rw v (empty_of (collect_roles r.roles i.groups []) (collected_iff r i))
  where
    empty_of :
        (roles : List Text)
        → ((x : Text) → In x roles ↔ Confers r.roles i.groups x)
        → granted r roles ≡ ok empty_grant
    empty_of [] same = rw (d, granted) refl
    empty_of (x ∷ rest) same = absurd (unmapped x ((same x).0 (inl refl)))
