-- ===== src/DataPlane/Callers.antt =====
-- Whom a token stands for that the data plane of gateway/cmd/tsjwt-dataplane/main.go mints, from the tailnet's
-- answer to the tenant policy.
use tsjwt.Prelude.{length, Any, Text, codes, ◌≡◌, ◌∙◌, inl, inr, false, Option, some, List, ◌++◌}
use tsjwt.Errors.{Result, ok}
use tsjwt.GoTime.{Instant, Duration}
use tsjwt.Crypto.{Bytes, Crypto}
use tsjwt.Claims.{Claims}
use tsjwt.Tenant.{Tenant}
use tsjwt.Policy.{PolicyFile, policy_resolve}
use tsjwt.Policy.Isolation as Policy
use tsjwt.Tailnet.{
  Addr, host_of, CapRule, Node, UserProfile, WhoIs, decimal_int, groups_field, cap_name, identify,
}
use tsjwt.Tailnet.Address.{IsPeer}
use tsjwt.Tailnet.Asserted as Tailnet
use tsjwt.Tailnet.Sets.{IsSetOf, Names}
use tsjwt.Signer.{Config, mint}
use tsjwt.Signer.Minting.{mint-IsAuthorized}
use tsjwt.DataPlane.{Flags, source_of}

-- A person at a tailnet address, and a tenant that the policy gives to the person's groups.
pub record StandsForPerson {CapMap : Type 0} (read_cap : CapMap → Text → Result (List CapRule))
    (parse_addr : Text → Option Addr) (whois : Duration → Text → Result (Option (WhoIs CapMap)))
    (host cap : Text) (remote : Text) (p : PolicyFile) (claims : Claims) : Type 0 where
  pub address : Addr
  pub parsed : parse_addr host ≡ some address
  pub is_peer : IsPeer address
  pub timeout : Duration
  pub who : WhoIs CapMap
  pub said : whois timeout remote ≡ ok (some who)
  pub node : Node
  pub node_is : who.node ≡ some node
  pub untagged : node.tagged ≡ false
  pub user : UserProfile
  pub user_is : who.user_profile ≡ some user
  pub subject_ok : claims.subject ≡ codes "tailnet:" ++ decimal_int user.user_id
  pub rules : List CapRule
  pub rules_read : read_cap who.cap_map cap ≡ ok rules
  pub groups : List Text
  pub groups_ok : IsSetOf (Names groups_field rules) groups
  pub tenant : Tenant
  pub tenant_ok : (claims.tenant ≡ tenant.id) × (claims.roles ≡ tenant.roles)
  pub permitted : Any (Policy.StandsFor p.default_role (length p.tenants) groups tenant) p.tenants

module _ (c : Crypto) (encode : Claims → Option Bytes) {CapMap : Type 0}
    (read_cap : CapMap → Text → Result (List CapRule)) (split_host_port : Text → Option Text)
    (parse_addr : Text → Option Addr) (whois : Duration → Text → Result (Option (WhoIs CapMap)))
    (f : Flags) (cfg : Config) (p : PolicyFile) where
  -- A token that the data plane mints stands for a person on the tailnet: WhoIs answered for the address, which
  -- is a tailnet peer's, with an untagged node and a user whose id is the subject. The tenant is one of the
  -- policy file, and each role in it is one that the policy gives there to a group that the capability names
  -- for that person, or the default role of a policy with one tenant.
  pub mint-StandsForPerson :
      (current : Result (c.PrivateKey × Text)) (id_bytes : Option Bytes) (random : Bytes)
      (now : Instant) (remote audience requested token : Text) (claims : Claims)
      → mint c encode
          (identify read_cap split_host_port parse_addr whois (source_of f))
          (policy_resolve p)
          cfg
          current
          id_bytes
          random
          now
          remote
          audience
          requested
        ≡ ok (token, claims)
      → StandsForPerson read_cap parse_addr whois
          (host_of remote (split_host_port remote))
          (cap_name (source_of f))
          remote
          p
          claims
  mint-StandsForPerson current id_bytes random now remote audience requested token claims e =
      let a =
        mint-IsAuthorized c encode
          (identify read_cap split_host_port parse_addr whois (source_of f)) (policy_resolve p) cfg
          current id_bytes random now remote audience requested e in
      let (ip, parsed, peer, timeout, who, said, n, u, rules, caller, read, described) =
        Tailnet.identify-StandsFor read_cap split_host_port parse_addr whois (source_of f) remote
          a.id a.identified in
      record {
        address = ip;
        parsed = parsed;
        is_peer = peer;
        timeout = timeout;
        who = who;
        said = said;
        node = n;
        node_is = caller.node_is;
        untagged = elim caller.person [ inl person ↦ person | inr allowed ↦ absurd (cc allowed) ];
        user = u;
        user_is = caller.user_is;
        subject_ok = a.subject_ok ∙ described.subject_ok;
        rules = rules;
        rules_read = read;
        groups = a.id.groups;
        groups_ok = described.groups_ok;
        tenant = a.held;
        tenant_ok = (a.tenant_ok, a.roles_ok);
        permitted = Policy.policy_resolve-StandsFor p a.id a.resolved a.held a.in_grant;
      }
