-- ===== src/Signer/Clamps.antt =====
-- The configuration that New of signer/signer.go returns.
use tsjwt.Prelude.{
  ltb, Bool-cases, text_eq_iff, text_eq, trim, pos, negsuc, ℕ, suc, ◌≤◌, ◌<◌, ◌≡◌, refl, sym, ap,
  ◌≢◌, inl, inr, [], arith, zero, ◌*◌, subst, not, ◌≤ℤ◌, ◌<ℤ◌,
}
use tsjwt.Errors.{ok, guard, >>=-eq-ok, ok-injective, other, guard-eq-ok}
use tsjwt.Signer.{max_ttl, default_ttl, Config, clamp_ttl, new, clamp_leeway}
use tsjwt.GoTime.{Duration, second}

-- The configuration of a signer: a TTL and a leeway within bounds.
pub record IsClamped (cfg : Config) : Type 0 where
  pub issuer_ok : trim cfg.issuer ≢ []
  pub ttl_ok : (n : ℕ) × (cfg.ttl ≡ pos n) × (0 < n) × (n ≤ max_ttl)
  pub leeway_ok : (n : ℕ) × (cfg.leeway ≡ pos n) × (0 < n)

clamp_ttl-bounds : (d : Duration) → (n : ℕ) × (clamp_ttl d ≡ pos n) × (0 < n) × (n ≤ max_ttl)
unfolding clamp_ttl
clamp_ttl-bounds (negsuc k) = (default_ttl, ground arith, omega arith, omega arith)
clamp_ttl-bounds (pos zero) = (default_ttl, refl, omega arith, omega arith)
clamp_ttl-bounds (pos (suc k)) = elim (Bool-cases (ltb max_ttl (suc k))) [
  | inl long ↦ (max_ttl, ground (arith, long), omega arith, omega arith)
  | inr short ↦ (suc k, ground (arith, short), omega arith, ground (arith, short))
]

clamp_ttl-keeps :
    (d : Duration) → (pos 0 <ℤ d → clamp_ttl d ≤ℤ d) × (d ≤ℤ pos 0 → clamp_ttl d ≡ pos default_ttl)
unfolding clamp_ttl
clamp_ttl-keeps (negsuc k) = (λ h. absurd (omega (arith, h)), λ h. ground arith)
clamp_ttl-keeps (pos zero) = (λ h. ground arith, λ h. refl)
clamp_ttl-keeps (pos (suc k)) = (
  λ h. elim (Bool-cases (ltb max_ttl (suc k))) [
    | inl long ↦
        let longest : clamp_ttl (pos (suc k)) ≡ pos max_ttl = ground (arith, long) in
        subst (λ (t : Duration). t ≤ℤ pos (suc k)) (sym longest) (ground (arith, long))
    | inr short ↦
        let kept : clamp_ttl (pos (suc k)) ≡ pos (suc k) = ground (arith, short) in
        subst (λ (t : Duration). t ≤ℤ pos (suc k)) (sym kept) (omega arith)
  ],
  λ h. ground arith,
)

clamp_leeway-positive : (d : Duration) → (n : ℕ) × (clamp_leeway d ≡ pos n) × (0 < n)
unfolding clamp_leeway
clamp_leeway-positive (negsuc k) = (30 * second, ground arith, omega arith)
clamp_leeway-positive (pos zero) = (30 * second, refl, omega arith)
clamp_leeway-positive (pos (suc k)) = (suc k, ground arith, omega arith)

-- A signer that New returns has an issuer that is not blank, a lifetime above zero and of at most 15
-- minutes, and a leeway above zero, whatever the configuration asked for.
pub new-IsClamped : (cfg cfg' : Config) → new cfg ≡ ok cfg' → IsClamped cfg'
unfolding new
new-IsClamped cfg cfg' e =
    let (_, named, e1) = >>=-eq-ok (guard (not (text_eq (trim cfg.issuer) [])) other) _ e in
    let (_, _, e2) = >>=-eq-ok (guard cfg.has_keys other) _ e1 in
    let (_, _, e3) = >>=-eq-ok (guard cfg.has_identities other) _ e2 in
    let (_, _, e4) = >>=-eq-ok (guard cfg.has_tenants other) _ e3 in
    subst IsClamped (ok-injective e4) (record {
      issuer_ok =
          λ blank. cc (guard-eq-ok _ other named, (text_eq_iff (trim cfg.issuer) []).1 blank);
      ttl_ok = clamp_ttl-bounds cfg.ttl;
      leeway_ok = clamp_leeway-positive cfg.leeway;
    })

-- New keeps a lifetime that is positive, or shortens it to the longest one, and puts five minutes in place of one
-- that is not.
pub new-ttl :
    (cfg cfg' : Config)
    → new cfg ≡ ok cfg'
    → (pos 0 <ℤ cfg.ttl → cfg'.ttl ≤ℤ cfg.ttl) × (cfg.ttl ≤ℤ pos 0 → cfg'.ttl ≡ pos default_ttl)
unfolding new
new-ttl cfg cfg' e =
    let (_, _, e1) = >>=-eq-ok (guard (not (text_eq (trim cfg.issuer) [])) other) _ e in
    let (_, _, e2) = >>=-eq-ok (guard cfg.has_keys other) _ e1 in
    let (_, _, e3) = >>=-eq-ok (guard cfg.has_identities other) _ e2 in
    let (_, _, e4) = >>=-eq-ok (guard cfg.has_tenants other) _ e3 in
    let same : clamp_ttl cfg.ttl ≡ cfg'.ttl = ap (λ (x : Config). x.ttl) (ok-injective e4) in
    rw (sym same) (clamp_ttl-keeps cfg.ttl)
