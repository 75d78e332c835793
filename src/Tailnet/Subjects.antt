-- ===== src/Tailnet/Subjects.antt =====
-- Who shares a subject, and on what an identity depends: tsnetid/tsnetid.go.
use tsjwt.Prelude.{
  All, In, IsDistinct, Text, codes, decimal, decimal-injective, decimal-digits, ℤ, pos, negsuc, ℕ,
  suc, ◌≤◌, ◌≡◌, refl, sym, ap, ◌∙◌, subst, ◌≢◌, ◌↔◌, inl, Option, some, List, [], ◌∷◌, ◌++◌, arith,
}
use tsjwt.Errors.{Result, ok}
use tsjwt.GoTime.{Duration}
use tsjwt.Tailnet.{
  Addr, CapRule, Node, UserProfile, WhoIs, Source, attr_tenants, decimal_int, rule_keys,
  groups_field, tenants_field, sorted_keys, tenant_attributes, identity_of, identify,
}
use tsjwt.Tailnet.Asserted.{IsCaller, identify-StandsFor}
use tsjwt.Tailnet.Sets.{Names, In-rule_keys, rule_keys-IsDistinct}
use tsjwt.Tenant.{Identity}
use tsjwt.Prelude.Sort.Canonical.{sort-canonical}

signless : (m n : ℕ) (rest : Text) → decimal m ≢ b'-' ∷ rest
signless m n rest e =
    let signed : All (λ (c : ℕ). b'0' ≤ c) (b'-' ∷ rest) =
      subst (λ (s : Text). All (λ (c : ℕ). b'0' ≤ c) s) e (decimal-digits m) in
    absurd (omega (arith, signed.0))

-- Two ids that print alike are one.
decimal_int-injective : (a b : ℤ) → decimal_int a ≡ decimal_int b → a ≡ b
unfolding decimal_int
decimal_int-injective (pos m) (pos n) e = ap pos (decimal-injective m n e)
decimal_int-injective (pos m) (negsuc n) e = absurd (signless m n (decimal (suc n)) e)
decimal_int-injective (negsuc m) (pos n) e = absurd (signless n m (decimal (suc m)) (sym e))
decimal_int-injective (negsuc m) (negsuc n) e =
    let same : suc m ≡ suc n = decimal-injective (suc m) (suc n) (cc e) in
    ap negsuc (omega (arith, same))

prefixed : (p a b : Text) → p ++ a ≡ p ++ b → a ≡ b
prefixed [] a b e = e
prefixed (c ∷ p) a b e = prefixed p a b (cc e)

module _ {CapMap : Type 0} (read_cap : CapMap → Text → Result (List CapRule))
    (split_host_port : Text → Option Text) (parse_addr : Text → Option Addr)
    (whois : Duration → Text → Result (Option (WhoIs CapMap))) where
  -- The user of an answer about the address.
  abbrev pub IsUser : Source → Text → ℤ → Type 0
  IsUser s remote id =
      (timeout : Duration) × (who : WhoIs CapMap) × (whois timeout remote ≡ ok (some who))
      × (n : Node) × (u : UserProfile) × IsCaller s who n u
      × (u.user_id ≡ id)

  IsUser-of :
      (s : Source) (remote : Text) (i : Identity)
      → identify read_cap split_host_port parse_addr whois s remote ≡ ok i
      → (id : ℤ) × IsUser s remote id × (i.subject ≡ codes "tailnet:" ++ decimal_int id)
  IsUser-of s remote i e =
      let (ip, parsed, peer, timeout, who, said, n, u, rules, caller, read, described) =
        identify-StandsFor read_cap split_host_port parse_addr whois s remote i e in
      (u.user_id, (timeout, who, said, n, u, caller, refl), described.subject_ok)

  -- Two callers whose identities have the same subject are the same user: there is one user id that WhoIs
  -- gave for both addresses.
  pub same_subject :
      (s : Source) (remote remote' : Text) (i j : Identity)
      → identify read_cap split_host_port parse_addr whois s remote ≡ ok i
      → identify read_cap split_host_port parse_addr whois s remote' ≡ ok j
      → i.subject ≡ j.subject
      → (id : ℤ) × IsUser s remote id × IsUser s remote' id
  same_subject s remote remote' i j e f same =
      let (id, user, subject) = IsUser-of s remote i e in
      let (id', user', subject') = IsUser-of s remote' j f in
      let shared : id' ≡ id = decimal_int-injective id' id (
        prefixed (codes "tailnet:") (decimal_int id') (decimal_int id)
          (sym subject' ∙ (sym same ∙ subject))) in
      (id, user, subst (λ (k : ℤ). IsUser s remote' k) shared user')

-- The rules name the same texts.
abbrev pub SameNames : (CapRule → List Text) → List CapRule → List CapRule → Type 0
SameNames field rules rules' = (x : Text) → Names field rules x ↔ Names field rules' x

same_keys :
    (field : CapRule → List Text) (rules rules' : List CapRule)
    → SameNames field rules rules'
    → (x : Text) → In x (rule_keys field rules []) ↔ In x (rule_keys field rules' [])
same_keys field rules rules' same x =
    ground (arith, In-rule_keys x field rules [], In-rule_keys x field rules' [], same x)

tenant_attributes-canonical :
    (xs ys : List Text)
    → IsDistinct xs
    → IsDistinct ys
    → ((x : Text) → In x xs ↔ In x ys)
    → tenant_attributes xs ≡ tenant_attributes ys
unfolding tenant_attributes sorted_keys
tenant_attributes-canonical [] [] d e same = refl
tenant_attributes-canonical [] (y ∷ ys) d e same = absurd ((same y).1 (inl refl))
tenant_attributes-canonical (x ∷ xs) [] d e same = absurd ((same x).0 (inl refl))
tenant_attributes-canonical (x ∷ xs) (y ∷ ys) d e same =
    ap (λ (l : List Text). (attr_tenants, l) ∷ []) (sort-canonical (x ∷ xs) (y ∷ ys) d e same)

-- An identity depends on the sets of the groups and of the tenants that the rules name, and neither on the
-- order of the rules nor on repetitions.
pub identity_of-canonical :
    (u : UserProfile) (n : Node) (rules rules' : List CapRule)
    → SameNames groups_field rules rules'
    → SameNames tenants_field rules rules'
    → identity_of u n rules ≡ identity_of u n rules'
unfolding identity_of sorted_keys
identity_of-canonical u n rules rules' groups tenants =
    let g =
      sort-canonical (rule_keys groups_field rules []) (rule_keys groups_field rules' [])
        (rule_keys-IsDistinct groups_field rules [] tt)
        (rule_keys-IsDistinct groups_field rules' [] tt)
        (same_keys groups_field rules rules' groups) in
    let t =
      tenant_attributes-canonical (rule_keys tenants_field rules [])
        (rule_keys tenants_field rules' []) (rule_keys-IsDistinct tenants_field rules [] tt)
        (rule_keys-IsDistinct tenants_field rules' [] tt)
        (same_keys tenants_field rules rules' tenants) in
    rw (g, t) refl
