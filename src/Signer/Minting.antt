-- ===== src/Signer/Minting.antt =====
-- What New and Mint of signer/signer.go guarantee about a minted token.
use tsjwt.Prelude.{
  Bool-cases, In, Text, text_eq_iff, text_eq, trim, ◌≡◌, sym, ap, ◌≢◌, ◌⊎◌, inl, inr, Option, none,
  some, [], arith, ◌==◌, if◌then◌else◌, length, subst, not,
}
use tsjwt.Errors.{Error, no_tenant, Result, ok, guard, or_fail, >>=-eq-ok, ok-injective, other}
use tsjwt.Signer.{Config, select_tenant, claims_of, sign_claims, mint}
use tsjwt.GoTime.{Instant}
use tsjwt.Claims.{Claims}
use tsjwt.Crypto.{Bytes, Crypto}
use tsjwt.Jwt.{sign}
use tsjwt.Tenant.{Identity, identity_valid, Tenant, Grant, grant_ids, grant_valid}
use tsjwt.Tenant.Grants.{GrantIsWellFormed, grant_tenant-In, grant_valid_iff}

-- The identity, the grant and the tenant behind a minted token.
pub record IsAuthorized (identify : Text → Result Identity) (tenants_of : Identity → Result Grant)
    (remote_addr requested : Text) (claims : Claims) : Type 0 where
  pub id : Identity
  pub identified : identify remote_addr ≡ ok id
  pub subject_ok : claims.subject ≡ id.subject
  pub subject_named : trim id.subject ≢ []
  pub grant : Grant
  pub resolved : tenants_of id ≡ ok grant
  pub grant_ok : GrantIsWellFormed grant
  pub held : Tenant
  pub in_grant : In held grant.tenants
  pub tenant_ok : claims.tenant ≡ held.id
  pub roles_ok : claims.roles ≡ held.roles
  pub tenants_ok : claims.tenants ≡ grant_ids grant
  pub requested_ok : (requested ≡ held.id) ⊎ ((requested ≡ []) × (grant.default ≡ held.id))

or_fail-eq-ok {ℓ} :
    {A : Type ℓ} (o : Option A) (e : Error) {a : A} → or_fail o e ≡ ok a → o ≡ some a
or_fail-eq-ok none e h = cc
or_fail-eq-ok (some a) e h = ap some (ok-injective h)

-- The tenant selected is in the grant: the requested one, or the default one for the empty request.
pub select_tenant-held :
    (g : Grant) (requested : Text) {t : Tenant}
    → select_tenant g requested ≡ ok t
    → In t g.tenants × ((requested ≡ t.id) ⊎ ((requested ≡ []) × (g.default ≡ t.id)))
unfolding select_tenant
select_tenant-held g requested {t} e =
    let (_, _, e1) = >>=-eq-ok (guard (not (length g.tenants == 0)) no_tenant) _ e in
    let (_, _, e2) =
      >>=-eq-ok
        (guard (not (text_eq (if text_eq requested [] then g.default else requested) [])) no_tenant)
        _ e1 in
    elim (Bool-cases (text_eq requested [])) [
      | inl none_asked ↦
          let (i, same) =
            grant_tenant-In g g.default (or_fail-eq-ok _ no_tenant (rw none_asked at e2)) in
          (i, inr ((text_eq_iff requested []).0 none_asked, sym same))
      | inr asked ↦
          let (i, same) =
            grant_tenant-In g requested (or_fail-eq-ok _ no_tenant (rw asked at e2)) in
          (i, inl (sym same))
    ]

pub identity_valid-named : (i : Identity) → identity_valid i ≡ ok tt → trim i.subject ≢ []
unfolding identity_valid
identity_valid-named i e = ground (arith, text_eq_iff (trim i.subject) [])

module _ (c : Crypto) (encode : Claims → Option Bytes) (identify : Text → Result Identity)
    (tenants_of : Identity → Result Grant) where
  -- The steps behind a minted token.
  pub record Minted (cfg : Config) (current : Result (c.PrivateKey × Text))
      (random_id : Option Bytes) (now : Instant) (remote_addr audience requested token : Text)
      (claims : Claims) (random : Bytes) : Type 0 where
    pub who : Identity
    pub grant : Grant
    pub held : Tenant
    pub id_bytes : Bytes
    pub key : c.PrivateKey
    pub kid : Text
    pub current_ok : current ≡ ok (key, kid)
    pub id_read : random_id ≡ some id_bytes
    pub identified : identify remote_addr ≡ ok who
    pub who_ok : identity_valid who ≡ ok tt
    pub resolved : tenants_of who ≡ ok grant
    pub grant_ok : grant_valid grant ≡ ok tt
    pub selected : select_tenant grant requested ≡ ok held
    pub claims_ok : claims_of cfg who grant held audience now (c.b64 id_bytes) ≡ claims
    pub signed : sign c (some key) kid (encode claims) random ≡ ok token

  pub mint-Minted :
      (cfg : Config) (current : Result (c.PrivateKey × Text)) (id_bytes : Option Bytes)
      (random : Bytes) (now : Instant) (remote_addr audience requested : Text) {token : Text}
      {claims : Claims}
      → mint c encode identify tenants_of cfg current id_bytes random now remote_addr audience
          requested
        ≡ ok (token, claims)
      → Minted cfg current id_bytes now remote_addr audience requested token claims random
  unfolding mint sign_claims
  mint-Minted cfg current id_bytes random now remote_addr audience requested {token} {claims} e =
      let (_, _, e1) = >>=-eq-ok (guard (not (text_eq (trim audience) [])) other) _ e in
      let (who, identified, e2) = >>=-eq-ok (identify remote_addr) _ e1 in
      let (u, who_ok, e3) = >>=-eq-ok (identity_valid who) _ e2 in
      let (grant, resolved, e4) = >>=-eq-ok (tenants_of who) _ e3 in
      let (v, grant_ok, e5) = >>=-eq-ok (grant_valid grant) _ e4 in
      let (held, selected, e6) = >>=-eq-ok (select_tenant grant requested) _ e5 in
      let (jti, read, e7) = >>=-eq-ok (or_fail id_bytes other) _ e6 in
      let (made, signed, e8) =
        >>=-eq-ok
          (sign_claims c encode identify tenants_of current random
            (claims_of cfg who grant held audience now (c.b64 jti)))
          _ e7 in
      let (key, have, signed') = >>=-eq-ok current _ signed in
      let same = ok-injective e8 in
      record {
        who = who;
        grant = grant;
        held = held;
        id_bytes = jti;
        key = key.0;
        kid = key.1;
        current_ok = have;
        id_read = or_fail-eq-ok id_bytes other read;
        identified = identified;
        who_ok = who_ok;
        resolved = resolved;
        grant_ok = grant_ok;
        selected = selected;
        claims_ok = ap (λ (p : Text × Claims). p.1) same;
        signed =
            subst (λ (p : Text × Claims). sign c (some key.0) key.1 (encode p.1) random ≡ ok p.0)
              same signed';
      }

  -- A minted token acts for a tenant of the grant that the resolver gave to the caller's own identity: the
  -- grant is well formed, the claims carry the identity's subject, the tenant's id and roles and the
  -- grant's sorted ids, and the tenant is the requested one, or the default for the empty request.
  pub mint-IsAuthorized :
      (cfg : Config) (current : Result (c.PrivateKey × Text)) (id_bytes : Option Bytes)
      (random : Bytes) (now : Instant) (remote_addr audience requested : Text) {token : Text}
      {claims : Claims}
      → mint c encode identify tenants_of cfg current id_bytes random now remote_addr audience
          requested
        ≡ ok (token, claims)
      → IsAuthorized identify tenants_of remote_addr requested claims
  unfolding claims_of
  mint-IsAuthorized cfg current id_bytes random now remote_addr audience requested {token} {claims}
        e =
      let m = mint-Minted cfg current id_bytes random now remote_addr audience requested e in
      let (i, chosen) = select_tenant-held m.grant requested m.selected in
      record {
        id = m.who;
        identified = m.identified;
        subject_ok = ap (λ (x : Claims). x.subject) (sym m.claims_ok);
        subject_named = identity_valid-named m.who m.who_ok;
        grant = m.grant;
        resolved = m.resolved;
        grant_ok = (grant_valid_iff m.grant).0 m.grant_ok;
        held = m.held;
        in_grant = i;
        tenant_ok = ap (λ (x : Claims). x.tenant) (sym m.claims_ok);
        roles_ok = ap (λ (x : Claims). x.roles) (sym m.claims_ok);
        tenants_ok = ap (λ (x : Claims). x.tenants) (sym m.claims_ok);
        requested_ok = chosen;
      }
