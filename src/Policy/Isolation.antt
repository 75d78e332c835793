-- ===== src/Policy/Isolation.antt =====
-- Tenant isolation of policy.go: a tenant enters a grant only through a group of the identity.
use tsjwt.Errors.{ok, ok-injective}
use tsjwt.Prelude.{
  ◌==◌, Bool-cases, some-injective, In, Any, Text, text_eq_iff, text_eq, ℕ, ◌≡◌, sym, ◌∙◌, ◌≢◌, ◌⊎◌,
  inl, inr, not, ◌||◌, some, List, [], ◌∷◌, ◌++◌, arith, length, refl, ap, Option, none,
}
use mathlib.Core.Path.{subst}
use tsjwt.Tenant.{Tenant, Grant, collect_roles, Identity, empty_grant}
use tsjwt.Tenant.Roles.{Confers, In-collect_roles}
use tsjwt.Policy.{
  roles_in, add_tenant, grant_loop, PolicyTenant, PolicyFile, policy_resolve, policy_tenant,
}

-- Why an identity with these groups may hold a role in a tenant of the policy: one of its groups
-- maps to the role there, or the role is the default role of a policy with one tenant.
abbrev pub Permits : Text → ℕ → List Text → PolicyTenant → Text → Type 0
Permits default_role count groups pt role =
    Confers pt.groups groups role ⊎ ((count ≡ 1) × (role ≡ default_role) × (default_role ≢ []))

-- The tenant of the grant stands for this tenant of the policy, and each of its roles is permitted.
abbrev pub StandsFor : Text → ℕ → List Text → Tenant → PolicyTenant → Type 0
StandsFor default_role count groups t pt =
    (pt.id ≡ t.id)
    × (t.roles ≢ [])
    × ((role : Text) → In role t.roles → Permits default_role count groups pt role)

Any-append_left : {A : Type 0} (P : A → Type 0) (xs ys : List A) → Any P xs → Any P (xs ++ ys)
Any-append_left P [] ys a = absurd a
Any-append_left P (x ∷ xs) ys (inl p) = inl p
Any-append_left P (x ∷ xs) ys (inr a) = inr (Any-append_left P xs ys a)

Any-append_right : {A : Type 0} (P : A → Type 0) (xs ys : List A) → Any P ys → Any P (xs ++ ys)
Any-append_right P [] ys a = a
Any-append_right P (x ∷ xs) ys a = inr (Any-append_right P xs ys a)

In-append_one : {A : Type 0} (x y : A) (l : List A) → In x (l ++ y ∷ []) → In x l ⊎ (y ≡ x)
In-append_one x y [] (inl e) = inr e
In-append_one x y [] (inr i) = absurd i
In-append_one x y (z ∷ l) (inl e) = inl (inl e)
In-append_one x y (z ∷ l) (inr i) = elim (In-append_one x y l i) [
  | inl j ↦ inl (inr j)
  | inr e ↦ inr e
]

module _ (default_role : Text) (count : ℕ) (groups : List Text) where
  roles_in-Permits :
      (pt : PolicyTenant) (found : List Text) {roles : List Text}
      → ((x : Text) → In x found → Confers pt.groups groups x)
      → roles_in default_role count found ≡ some roles
      → (roles ≢ []) × ((x : Text) → In x roles → Permits default_role count groups pt x)
  unfolding roles_in
  roles_in-Permits pt [] {roles} conf e =
      elim (Bool-cases (text_eq default_role [] || not (count == 1))) [
        | inl out ↦ cc (rw out at e)
        | inr one ↦
            let same : default_role ∷ [] ≡ roles = some-injective (rw one at e) in
            (
              (λ z. cc (same ∙ z)),
              λ x m. inr (
                ground arith,
                elim (subst (λ l. In x l) (sym same) m) [
                  | inl d ↦ sym d
                  | inr no_more ↦ absurd no_more
                ],
                λ z. cc ((text_eq_iff default_role []).1 z, one),
              ),
            )
      ]
  roles_in-Permits pt (r ∷ rest) {roles} conf e =
      let same : r ∷ rest ≡ roles = some-injective e in
      ((λ z. cc (same ∙ z)), λ x m. inl (conf x (subst (λ l. In x l) (sym same) m)))

  add_tenant-StandsFor :
      (pt : PolicyTenant) (o : Option (List Text)) (g : Grant) (t : Tenant)
      → roles_in default_role count (collect_roles pt.groups groups []) ≡ o
      → In t (add_tenant pt o g).tenants
      → In t g.tenants ⊎ StandsFor default_role count groups t pt
  unfolding add_tenant policy_tenant
  add_tenant-StandsFor pt none g t e m = inl m
  add_tenant-StandsFor pt (some roles) g t e m =
      elim (In-append_one t (policy_tenant pt roles) g.tenants m) [
        | inl old ↦ inl old
        | inr same ↦
            let (full, permitted) =
              roles_in-Permits pt (collect_roles pt.groups groups [])
                (λ x i. elim ((In-collect_roles x pt.groups groups []).0 i) [
                  | inl no_more ↦ absurd no_more
                  | inr c ↦ c
                ])
                e in
            inr (subst (StandsForIn pt) same (refl, full, permitted))
      ]
    where
      StandsForIn : PolicyTenant → Tenant → Type 0
      StandsForIn q u = StandsFor default_role count groups u q

  grant_loop-StandsFor :
      (ts : List PolicyTenant) (g : Grant) (t : Tenant)
      → In t (grant_loop default_role count groups ts g).tenants
      → In t g.tenants ⊎ Any (StandsFor default_role count groups t) ts
  unfolding grant_loop
  grant_loop-StandsFor [] g t m = inl m
  grant_loop-StandsFor (pt ∷ ts) g t m =
      let o = roles_in default_role count (collect_roles pt.groups groups []) in
      elim (grant_loop-StandsFor ts (add_tenant pt o g) t m) [
        | inl here ↦ elim (add_tenant-StandsFor pt o g t refl here) [
          | inl old ↦ inl old
          | inr new ↦ inr (inl new)
        ]
        | inr later ↦ inr (inr later)
      ]

-- Tenant isolation. Each tenant of a grant that the policy gives is a tenant of the policy file, it
-- carries a role, and the identity may hold every role that it carries: one of its groups maps to
-- the role in that very tenant, or the role is the non-empty default role of a policy that names
-- exactly one tenant. So in a policy of several tenants a group opens only the tenants that map it.
pub policy_resolve-StandsFor :
    (p : PolicyFile) (i : Identity) {g : Grant}
    → policy_resolve p i ≡ ok g
    → (t : Tenant) → In t g.tenants
    → Any (StandsFor p.default_role (length p.tenants) i.groups t) p.tenants
unfolding policy_resolve
policy_resolve-StandsFor p i {g} e t m =
    elim (grant_loop-StandsFor p.default_role (length p.tenants) i.groups p.tenants empty_grant t
      (subst (λ (h : Grant). In t h.tenants) (sym (ok-injective e)) m)) [
        | inl no_more ↦ absurd no_more
        | inr here ↦ here
      ]

module _ (default_role : Text) (count : ℕ) (groups : List Text) where
  roles_in-some :
      (x : Text) (found : List Text) → In x found → roles_in default_role count found ≡ some found
  unfolding roles_in
  roles_in-some x [] i = absurd i
  roles_in-some x (r ∷ rest) i = refl

  -- A tenant of the grant stays in it while the loop goes on.
  grant_loop-keeps :
      (P : Tenant → Type 0) (ts : List PolicyTenant) (g : Grant)
      → Any P g.tenants
      → Any P (grant_loop default_role count groups ts g).tenants
  unfolding grant_loop add_tenant
  grant_loop-keeps P [] g a = a
  grant_loop-keeps P (pt ∷ ts) g a =
      grant_loop-keeps P ts _
        (kept (roles_in default_role count (collect_roles pt.groups groups [])))
    where
      kept : (o : Option (List Text)) → Any P (add_tenant pt o g).tenants
      kept none = a
      kept (some roles) = Any-append_left P g.tenants _ a

  grant_loop-reaches :
      (pt : PolicyTenant) (role : Text) (ts : List PolicyTenant) (g : Grant)
      → In pt ts
      → Confers pt.groups groups role
      → Any
          (λ t. (t.id ≡ pt.id) × In role t.roles)
          (grant_loop default_role count groups ts g).tenants
  unfolding grant_loop add_tenant policy_tenant
  grant_loop-reaches pt role [] g i c = absurd i
  grant_loop-reaches pt role (q ∷ ts) g (inr i) c = grant_loop-reaches pt role ts _ i c
  grant_loop-reaches pt role (q ∷ ts) g (inl same) c =
      grant_loop-keeps (λ t. (t.id ≡ pt.id) × In role t.roles) ts _
        (rw (roles_in-some role _ q_holds) (
          Any-append_right (λ t. (t.id ≡ pt.id) × In role t.roles) g.tenants _
            (inl (ap (λ (u : PolicyTenant). u.id) same, q_holds))))
    where
      q_holds : In role (collect_roles q.groups groups [])
      q_holds =
          (In-collect_roles role q.groups groups []).1
            (inr (subst (λ (u : PolicyTenant). Confers u.groups groups role) (sym same) c))

-- And no mapping is lost: a tenant of the policy in which some group of the identity maps to a role
-- is in the grant, with that role.
pub policy_resolve-reaches :
    (p : PolicyFile) (i : Identity) (pt : PolicyTenant) (role : Text) {g : Grant}
    → policy_resolve p i ≡ ok g
    → In pt p.tenants
    → Confers pt.groups i.groups role
    → Any (λ t. (t.id ≡ pt.id) × In role t.roles) g.tenants
unfolding policy_resolve
policy_resolve-reaches p i pt role {g} e here c =
    subst (λ (h : Grant). Any (λ t. (t.id ≡ pt.id) × In role t.roles) h.tenants) (ok-injective e)
      (grant_loop-reaches p.default_role (length p.tenants) i.groups pt role p.tenants empty_grant
        here c)
