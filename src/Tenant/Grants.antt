-- ===== src/Tenant/Grants.antt =====
-- Grant.Valid of tenant.go decides a well-formedness predicate, and Grant.Tenant and Grant.IDs keep
-- to the tenants of the grant.
use tsjwt.Prelude.{
  Bool-cases, All, In, Text, text_eq_iff, text_eq_refl, text_eq, trim, has_iff, has, ◌≡◌, refl, sym,
  ap, ◌∙◌, ◌≢◌, ◌↔◌, ◌⊎◌, inl, inr, true, some, List, [], ◌∷◌, arith, IsDistinct,
}
use tsjwt.Errors.{ok, >>=-eq-ok}
use tsjwt.Tenant.{
  Tenant, is_tenant_id, tenant_valid, Grant, grant_tenant, tenant_ids, grant_valid, find_tenant,
  valid_loop, roles_valid, default_valid,
}

-- A name that is not blank.
abbrev pub IsNamed : Text → Type 0
IsNamed r = trim r ≢ []

pub record TenantIsWellFormed (t : Tenant) : Type 0 where
  pub id_ok : is_tenant_id t.id ≡ true
  pub roles_ok : All IsNamed t.roles

-- What a grant promises: each tenant is well formed, no id stands twice, and the default is empty
-- or one of the ids.
pub record GrantIsWellFormed (g : Grant) : Type 0 where
  pub tenants_ok : All TenantIsWellFormed g.tenants
  pub ids_distinct : IsDistinct (tenant_ids g.tenants)
  pub default_ok : (g.default ≡ []) ⊎ In g.default (tenant_ids g.tenants)

roles_valid_iff : (rs : List Text) → (roles_valid rs ≡ ok tt) ↔ All IsNamed rs
unfolding roles_valid
roles_valid_iff [] = ((λ _. tt), λ _. refl)
roles_valid_iff (r ∷ rs) = ground (arith, text_eq_iff (trim r) [], roles_valid_iff rs)

tenant_valid_iff : (t : Tenant) → (tenant_valid t ≡ ok tt) ↔ TenantIsWellFormed t
unfolding tenant_valid
tenant_valid_iff t = ground (arith, roles_valid_iff t.roles)

-- The ids are new to `seen` and to one another: what the loop of Grant.Valid checks.
abbrev IsFresh : List Text → List Text → Type 0
IsFresh [] seen = Unit {0}
IsFresh (x ∷ xs) seen = (¬ In x seen) × IsFresh xs (x ∷ seen)

abbrev push_all : List Text → List Text → List Text
push_all [] seen = seen
push_all (x ∷ xs) seen = push_all xs (x ∷ seen)

valid_loop_complete :
    (ts : List Tenant) (seen : List Text)
    → All TenantIsWellFormed ts
    → IsFresh (tenant_ids ts) seen
    → valid_loop ts seen ≡ ok (push_all (tenant_ids ts) seen)
unfolding valid_loop
valid_loop_complete [] seen w f = refl
valid_loop_complete (t ∷ ts) seen w f = ground (
  arith,
  (tenant_valid_iff t).1 w.0,
  has_iff t.id seen,
  valid_loop_complete ts (t.id ∷ seen) w.1 f.1,
)

valid_loop_sound :
    (ts : List Tenant) (seen : List Text) {found : List Text}
    → valid_loop ts seen ≡ ok found
    → All TenantIsWellFormed ts × IsFresh (tenant_ids ts) seen
unfolding valid_loop
valid_loop_sound [] seen e = (tt, tt)
valid_loop_sound (t ∷ ts) seen {found} e =
    let (_, v, rest) = >>=-eq-ok (tenant_valid t) _ e in
    elim (Bool-cases (has t.id seen)) [
      | inl dup ↦ cc (rw dup at rest)
      | inr new ↦
          let (ws, fs) = valid_loop_sound ts (t.id ∷ seen) (rw new at rest) in
          (((tenant_valid_iff t).0 v, ws), ((λ i. cc ((has_iff t.id seen).1 i)), fs))
    ]

IsFresh-sound :
    (xs seen : List Text) → IsFresh xs seen → IsDistinct xs × ((x : Text) → In x xs → ¬ In x seen)
IsFresh-sound [] seen f = (tt, λ x i. absurd i)
IsFresh-sound (y ∷ xs) seen f =
    let (d, new) = IsFresh-sound xs (y ∷ seen) f.1 in
    (
      ((λ i. new y i (inl refl)), d),
      λ x i old. elim i [ inl e ↦ f.0 (rw e old) | inr j ↦ new x j (inr old) ],
    )

IsFresh-complete :
    (xs seen : List Text) → IsDistinct xs → ((x : Text) → In x xs → ¬ In x seen) → IsFresh xs seen
IsFresh-complete [] seen d new = tt
IsFresh-complete (y ∷ xs) seen d new = (
  new y (inl refl),
  IsFresh-complete xs (y ∷ seen) d.1
      (λ x i old. elim old [ inl e ↦ d.0 (rw e i) | inr o ↦ new x (inr i) o ]),
)

In-push_all : (x : Text) (xs seen : List Text) → In x (push_all xs seen) ↔ (In x xs ⊎ In x seen)
In-push_all x [] seen = ground arith
In-push_all x (y ∷ xs) seen = ground (arith, In-push_all x xs (y ∷ seen))

default_valid_iff :
    (g : Grant)
    → (default_valid g.default (push_all (tenant_ids g.tenants) []) ≡ ok tt)
      ↔ ((g.default ≡ []) ⊎ In g.default (tenant_ids g.tenants))
unfolding default_valid
default_valid_iff g = ground (
  arith,
  text_eq_iff g.default [],
  has_iff g.default (push_all (tenant_ids g.tenants) []),
  In-push_all g.default (tenant_ids g.tenants) [],
)

-- Grant.Valid accepts a grant exactly when each tenant has a permitted id and no blank role, no
-- tenant id stands twice, and the default is empty or names a tenant of the grant.
pub grant_valid_iff : (g : Grant) → (grant_valid g ≡ ok tt) ↔ GrantIsWellFormed g
unfolding grant_valid
grant_valid_iff g = (
  λ e.
      let (seen, v, d) = >>=-eq-ok (valid_loop g.tenants []) _ e in
      let (ws, fresh) = valid_loop_sound g.tenants [] v in
      let same : ok (push_all (tenant_ids g.tenants) []) ≡ ok seen =
        sym (valid_loop_complete g.tenants [] ws fresh) ∙ v in
      record {
        tenants_ok = ws;
        ids_distinct = (IsFresh-sound (tenant_ids g.tenants) [] fresh).0;
        default_ok = (default_valid_iff g).0 (ground arith);
      },
  λ w.
      rw
        (valid_loop_complete g.tenants [] w.tenants_ok
          (IsFresh-complete (tenant_ids g.tenants) [] w.ids_distinct (λ x i. absurd)))
        ((default_valid_iff g).1 w.default_ok),
)

find_tenant-In :
    (id : Text) (ts : List Tenant) {t : Tenant} → find_tenant id ts ≡ some t → In t ts × (t.id ≡ id)
unfolding find_tenant
find_tenant-In id [] e = cc
find_tenant-In id (u ∷ ts) {t} e = elim (Bool-cases (text_eq u.id id)) [
  | inl hit ↦ ground (arith, text_eq_iff u.id id)
  | inr miss ↦ let (i, same) = find_tenant-In id ts (rw miss at e) in (inr i, same)
]

-- Grant.Tenant returns a tenant of the grant, the one that has the id.
pub grant_tenant-In :
    (g : Grant) (id : Text) {t : Tenant} → grant_tenant g id ≡ some t → In t g.tenants × (t.id ≡ id)
unfolding grant_tenant
grant_tenant-In g id e = find_tenant-In id g.tenants e

In-tenant_ids : (t : Tenant) (ts : List Tenant) → In t ts → In t.id (tenant_ids ts)
In-tenant_ids t [] i = i
In-tenant_ids t (u ∷ ts) (inl e) = inl (ap (λ (v : Tenant). v.id) e)
In-tenant_ids t (u ∷ ts) (inr i) = inr (In-tenant_ids t ts i)

find-tenant_self :
    (t : Tenant) (ts : List Tenant)
    → IsDistinct (tenant_ids ts)
    → In t ts
    → find_tenant t.id ts ≡ some t
unfolding find_tenant
find-tenant_self t [] d i = absurd i
find-tenant_self t (u ∷ ts) d (inl e) = rw (← e) (rw (text_eq_refl u.id))
find-tenant_self t (u ∷ ts) d (inr i) = elim (Bool-cases (text_eq u.id t.id)) [
  | inl hit ↦ absurd (d.0 (rw ((text_eq_iff u.id t.id).0 hit) (In-tenant_ids t ts i)))
  | inr miss ↦ rw miss (find-tenant_self t ts d.1 i)
]

-- In a grant that Grant.Valid accepts, Grant.Tenant finds every tenant by its own id.
pub grant_tenant_self :
    (g : Grant) (t : Tenant) → grant_valid g ≡ ok tt → In t g.tenants → grant_tenant g t.id ≡ some t
unfolding grant_tenant
grant_tenant_self g t v i = find-tenant_self t g.tenants ((grant_valid_iff g).0 v).ids_distinct i
