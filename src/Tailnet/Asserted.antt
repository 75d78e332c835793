-- ===== src/Tailnet/Asserted.antt =====
-- What Source.Identify of tsnetid/tsnetid.go asserts of a caller.
use tsjwt.Tailnet.Address.{IsPeer, is_tailnet_addr_iff}
use tsjwt.GoTime.{Duration}
use tsjwt.Tenant.{Identity}
use tsjwt.Errors.{no_identity, Result, err, ok, guard, >>=-eq-ok, guard-eq-ok, ok-injective}
use tsjwt.Prelude.{
  Bool-cases, Text, ◌≡◌, subst, ◌⊎◌, inl, inr, List, [], Option-cases, codes, text_eq_iff, text_eq,
  trim_suffix, refl, ap, ◌≢◌, Bool, true, false, not, ◌&&◌, Option, none, some, ◌++◌,
}
use tsjwt.Tailnet.{
  CapRule, Addr, host_of, is_tailnet_addr, Node, UserProfile, WhoIs, Source, decimal_int,
  groups_field, named_profile, identity_of, cap_name, or_no_identity, identity, with_node, answered,
  identify,
}
use tsjwt.Tailnet.Sets.{
  Names, IsSetOf, sorted_keys-IsSetOf, CarriesTenants, tenant_attributes-Carries,
}

-- The identity is that of the user's profile: the subject is the numeric id, the groups are exactly those
-- that the capability's rules name, and so are the tenants.
pub record Describes (u : UserProfile) (n : Node) (rules : List CapRule) (i : Identity)
    : Type 0 where
  pub subject_ok : i.subject ≡ codes "tailnet:" ++ decimal_int u.user_id
  pub login_ok : (i.login ≡ u.login_name) × (u.login_name ≢ [])
  pub display_ok : i.display_name ≡ u.display_name
  pub node_ok : i.node ≡ trim_suffix n.name (codes ".")
  pub groups_ok : IsSetOf (Names groups_field rules) i.groups
  pub tenants_ok : CarriesTenants rules i.attributes

identity_of-Describes :
    (u : UserProfile) (n : Node) (rules : List CapRule)
    → u.login_name ≢ []
    → Describes u n rules (identity_of u n rules)
unfolding identity_of
identity_of-Describes u n rules named = record {
  subject_ok = refl;
  login_ok = (refl, named);
  display_ok = refl;
  node_ok = refl;
  groups_ok = sorted_keys-IsSetOf groups_field rules;
  tenants_ok = tenant_attributes-Carries rules _ refl;
}

named_profile-eq-ok :
    (p : Option UserProfile) (u : UserProfile)
    → named_profile p ≡ ok u
    → (p ≡ some u) × (u.login_name ≢ [])
unfolding named_profile
named_profile-eq-ok none u e = absurd (cc)
named_profile-eq-ok (some v) u e = elim (Bool-cases (text_eq v.login_name [])) [
  | inl blank ↦ let never : err no_identity ≡ ok u = rw blank at e in absurd (cc never)
  | inr named ↦
      let same : v ≡ u = ok-injective (rw named at e) in
      let is_named : v.login_name ≢ [] =
        λ empty. cc (named, (text_eq_iff v.login_name []).1 empty) in
      (ap some same, subst (λ (w : UserProfile). w.login_name ≢ []) same is_named)
]

-- A caller is the user `u` on the node `n`, by an answer of WhoIs about the address.
pub record IsCaller {CapMap : Type 0} (s : Source) (who : WhoIs CapMap) (n : Node) (u : UserProfile)
    : Type 0 where
  pub node_is : who.node ≡ some n
  pub user_is : who.user_profile ≡ some u
  pub person : (n.tagged ≡ false) ⊎ (s.allow_tagged ≡ true)

module _ {CapMap : Type 0} (read_cap : CapMap → Text → Result (List CapRule)) where
  identity_sound :
      (s : Source) (who : WhoIs CapMap) (n : Node) (i : Identity)
      → who.node ≡ some n
      → identity read_cap s who n ≡ ok i
      → (u : UserProfile) × (rules : List CapRule) × IsCaller s who n u
        × (read_cap who.cap_map (cap_name s) ≡ ok rules)
        × Describes u n rules i
  unfolding identity
  identity_sound s who n i at_node e =
      let (g, untagged, e1) =
        >>=-eq-ok (guard (not (n.tagged && not s.allow_tagged)) no_identity) _ e in
      let (u, named, e2) = >>=-eq-ok (named_profile who.user_profile) _ e1 in
      let (rules, read, e3) =
        >>=-eq-ok (or_no_identity read_cap (read_cap who.cap_map (cap_name s))) _ e2 in
      let (is_user, has_login) = named_profile-eq-ok who.user_profile u named in
      (
        u,
        rules,
        record {
          node_is = at_node;
          user_is = is_user;
          person = tag_rule n.tagged s.allow_tagged untagged;
        },
        rules_read (read_cap who.cap_map (cap_name s)) rules read,
        subst (Describes u n rules) (ok-injective e3) (identity_of-Describes u n rules has_login),
      )
    where
      tag_rule :
          (tagged allow : Bool)
          → guard (not (tagged && not allow)) no_identity ≡ ok tt
          → (tagged ≡ false) ⊎ (allow ≡ true)
      tag_rule false allow h = inl refl
      tag_rule true true h = inr refl
      tag_rule true false h = absurd (cc h)

      rules_read :
          (r : Result (List CapRule)) (rules : List CapRule)
          → or_no_identity read_cap r ≡ ok rules
          → r ≡ ok rules
      rules_read (ok l) rules h = h
      rules_read (err x) rules h = absurd (cc h)

  module _ (split_host_port : Text → Option Text) (parse_addr : Text → Option Addr)
      (whois : Duration → Text → Result (Option (WhoIs CapMap))) where
    -- All that stands behind an identity: the address is a tailnet peer's, and what WhoIs said of it.
    abbrev pub StandsFor : Source → Text → Identity → Type 0
    StandsFor s remote i =
        (ip : Addr) × (parse_addr (host_of remote (split_host_port remote)) ≡ some ip)
        × IsPeer ip
        × (timeout : Duration) × (who : WhoIs CapMap) × (whois timeout remote ≡ ok (some who))
        × (n : Node) × (u : UserProfile) × (rules : List CapRule) × IsCaller s who n u
        × (read_cap who.cap_map (cap_name s) ≡ ok rules)
        × Describes u n rules i

    answered_sound :
        (s : Source) (r : Result (Option (WhoIs CapMap))) (i : Identity)
        → answered read_cap s r ≡ ok i
        → (who : WhoIs CapMap) × (r ≡ ok (some who))
          × (n : Node) × (who.node ≡ some n)
          × (identity read_cap s who n ≡ ok i)
    unfolding answered with_node
    answered_sound s (err x) i e = absurd (cc e)
    answered_sound s (ok none) i e = absurd (cc e)
    answered_sound s (ok (some who)) i e = elim (Option-cases who.node) [
      | inl nothing ↦ let never : err no_identity ≡ ok i = rw nothing at e in absurd (cc never)
      | inr (n, found) ↦ (who, refl, n, found, rw found at e)
    ]

    -- An identity is given only to a tailnet address for which WhoIs has an answer with a node that is not
    -- tagged, or whose tags the source allows, and with a user that has a login name. The subject is made of the
    -- user's id, and the groups and tenants are the sets that the rules of the capability name.
    pub identify-StandsFor :
        (s : Source) (remote : Text) (i : Identity)
        → identify read_cap split_host_port parse_addr whois s remote ≡ ok i
        → StandsFor s remote i
    unfolding identify
    identify-StandsFor s remote i e =
        let (g, local, e1) = >>=-eq-ok (guard s.has_local no_identity) _ e in
        let (h, peer, e2) =
          >>=-eq-ok (guard (is_tailnet_addr split_host_port parse_addr remote) no_identity) _ e1 in
        let (ip, parsed, is_peer) =
          (is_tailnet_addr_iff split_host_port parse_addr remote).0
            (guard-eq-ok _ no_identity peer) in
        let (who, said, n, at_node, e3) = answered_sound s _ i e2 in
        let (u, rules, caller, read, described) = identity_sound s who n i at_node e3 in
        (ip, parsed, is_peer, _, who, said, n, u, rules, caller, read, described)
