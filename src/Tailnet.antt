-- ===== src/Tailnet.antt =====
-- The identity of a tailnet peer, tsnetid/tsnetid.go. The answer of WhoIs, the reading of a capability and
-- the parsing of addresses are code of other modules, and arguments here.

pub mod Address
pub mod Sets
pub mod Asserted
pub mod Subjects
pub mod AuthKey
pub mod Expiry
mod Tests
use tsjwt.Prelude.{
  ◌==◌, if◌then◌else◌, Text, codes, text_eq, text_lt, trim_suffix, decimal, ℤ, pos, negsuc, leb_ℤ,
  Dict, has, ℕ, suc, ◌+◌, ◌*◌, ◌/◌, ◌%◌, ◌^◌, Bool, false, not, ◌&&◌, Option, none, some, List, [],
  ◌∷◌, ◌++◌,
}
use tsjwt.Errors.{no_identity, Result, err, ok, guard, ◌>>=◌, ◌>>◌}
use tsjwt.Prelude.Sort.{sort}
use tsjwt.Tenant.{Identity}
use tsjwt.GoTime.{Duration, second}

-- A netip.Addr: an IPv4 address as its number, or an IPv6 address as its number with its zone.
pub data Addr : Type 0 where
  v4 : ℕ → Addr
  v6 : ℕ → Text → Addr

-- Addr.Unmap: an IPv4 address that is written as an IPv6 one, ::ffff:0:0/96.
abbrev pub unmap : Addr → Addr
unmap (v4 n) = v4 n
unmap (v6 n zone) = if n / 2 ^ 32 == 0xffff then v4 (n % 2 ^ 32) else v6 n zone

-- tailnetV4.Contains(ip) || tailnetV6.Contains(ip), for 100.64.0.0/10 and fd7a:115c:a1e0::/48: the address
-- has the prefix's first bits. No prefix contains an address with a zone.
unfoldable pub in_tailnet : Addr → Bool
in_tailnet (v4 n) = n / 2 ^ 22 == (100 * 2 ^ 24 + 64 * 2 ^ 16) / 2 ^ 22
in_tailnet (v6 n []) = n / 2 ^ 80 == 0xfd7a115ca1e0
in_tailnet (v6 n (c ∷ zone)) = false

-- The host of net.SplitHostPort, or the text itself where that gives an error.
abbrev pub host_of : Text → Option Text → Text
host_of remote none = remote
host_of remote (some host) = host

module _ (split_host_port : Text → Option Text) (parse_addr : Text → Option Addr) where
  -- isTailnetAddr
  unfoldable pub is_tailnet_addr : Text → Bool
  unfolding in_tailnet
  is_tailnet_addr remote = elim (parse_addr (host_of remote (split_host_port remote))) [
    | none ↦ false
    | some ip ↦ in_tailnet (unmap ip)
  ]

pub record CapRule : Type 0 where
  pub groups : List Text
  pub tenants : List Text

-- A node of a WhoIs answer; `tagged` is what IsTagged says of it.
pub record Node : Type 0 where
  pub name : Text
  pub tagged : Bool

pub record UserProfile : Type 0 where
  pub user_id : ℤ
  pub login_name : Text
  pub display_name : Text

-- A WhoIsResponse. The nil pointers are `none`.
pub record WhoIs (CapMap : Type 0) : Type 0 where
  pub node : Option Node
  pub user_profile : Option UserProfile
  pub cap_map : CapMap

-- Source, with whether Local is set.
pub record Source : Type 0 where
  pub has_local : Bool
  pub cap : Text
  pub allow_tagged : Bool
  pub timeout : Duration

abbrev pub cap_groups : Text
cap_groups = codes "tsjwt.dev/cap/groups"

abbrev pub attr_tenants : Text
attr_tenants = codes "tsnetid.tenants"

-- fmt.Sprintf("%d", id)
pub decimal_int : ℤ → Text
unfolding decimal
decimal_int (pos n) = decimal n
decimal_int (negsuc n) = b'-' ∷ decimal (suc n)

-- set[g] = struct{}{} for each g of a list
pub add_all : List Text → List Text → List Text
unfolding has
add_all [] set = set
add_all (g ∷ gs) set = add_all gs (if has g set then set else g ∷ set)

-- The loop of identity over the rules, for one of the two sets.
pub rule_keys : (CapRule → List Text) → List CapRule → List Text → List Text
unfolding add_all
rule_keys field [] set = set
rule_keys field (r ∷ rs) set = rule_keys field rs (add_all (field r) set)

abbrev pub groups_field : CapRule → List Text
groups_field r = r.groups

abbrev pub tenants_field : CapRule → List Text
tenants_field r = r.tenants

-- sortedKeys, of the keys in the order in which the map yields them.
unfoldable pub sorted_keys : List Text → List Text
unfolding sort text_lt
sorted_keys keys = sort text_lt keys

pub tenant_attributes : List Text → Dict (List Text)
unfolding sorted_keys
tenant_attributes [] = []
tenant_attributes (t ∷ ts) = (attr_tenants, sorted_keys (t ∷ ts)) ∷ []

-- The profile, if it has a login name.
named_profile : Option UserProfile → Result UserProfile
unfolding text_eq
named_profile none = err no_identity
named_profile (some u) = if text_eq u.login_name [] then err no_identity else ok u

-- The identity that the profile, the node's name and the capability's rules give.
unfoldable pub identity_of : UserProfile → Node → List CapRule → Identity
unfolding decimal_int trim_suffix rule_keys sorted_keys tenant_attributes
identity_of u node rules = record {
  subject = codes "tailnet:" ++ decimal_int u.user_id;
  login = u.login_name;
  display_name = u.display_name;
  groups = sorted_keys (rule_keys groups_field rules []);
  node = trim_suffix node.name (codes ".");
  attributes = tenant_attributes (rule_keys tenants_field rules []);
}

-- The capability read for the groups.
abbrev pub cap_name : Source → Text
cap_name s = if text_eq s.cap [] then cap_groups else s.cap

module _ {CapMap : Type 0} (read_cap : CapMap → Text → Result (List CapRule)) where
  or_no_identity : Result (List CapRule) → Result (List CapRule)
  or_no_identity (ok rules) = ok rules
  or_no_identity (err e) = err no_identity

  -- Source.identity, after the test that the answer has a node.
  unfoldable pub identity : Source → WhoIs CapMap → Node → Result Identity
  unfolding named_profile or_no_identity
  identity s who node = do
    guard (not (node.tagged && not s.allow_tagged)) no_identity
    u ← named_profile who.user_profile
    rules ← or_no_identity (read_cap who.cap_map (cap_name s))
    ok (identity_of u node rules)

  with_node : Source → Option (WhoIs CapMap) → Result Identity
  unfolding identity
  with_node s none = err no_identity
  with_node s (some who) = elim who.node [ none ↦ err no_identity | some n ↦ identity s who n ]

  answered : Source → Result (Option (WhoIs CapMap)) → Result Identity
  unfolding with_node
  answered s (err e) = err no_identity
  answered s (ok who) = with_node s who

  module _ (split_host_port : Text → Option Text) (parse_addr : Text → Option Addr)
      (whois : Duration → Text → Result (Option (WhoIs CapMap))) where
    -- Source.Identify
    unfoldable pub identify : Source → Text → Result Identity
    unfolding answered is_tailnet_addr
    identify s remote = do
      guard s.has_local no_identity
      guard (is_tailnet_addr split_host_port parse_addr remote) no_identity
      answered s (whois (if leb_ℤ s.timeout (pos 0) then pos (5 * second) else s.timeout) remote)
