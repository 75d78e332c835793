-- ===== src/Tailnet/Tests.antt =====
-- Runs of tsnetid/tsnetid.go at samples, and the theorems there.
use tsjwt.Prelude.Sort.{sort}
use tsjwt.Prelude.{
  if◌then◌else◌, Text, codes, text_eq, text_lt, trim_suffix, before_char, decimal, pos, has, ◌≡◌,
  refl, true, false, Option, none, some, List, [], ◌∷◌, arith,
}
use tsjwt.Errors.{no_identity, Result, err, ok}
use tsjwt.GoTime.{Duration}
use tsjwt.Tailnet.{
  Addr, v4, CapRule, Node, UserProfile, WhoIs, Source, groups_field, tenants_field, sorted_keys,
  identity_of, identity, identify,
}
use tsjwt.Tailnet.Asserted.{StandsFor, identify-StandsFor}
use tsjwt.Tailnet.Subjects.{SameNames, identity_of-canonical}
use tsjwt.Tenant.{Identity}

abbrev split_sample : Text → Option Text
split_sample t = some (before_char t b':')

abbrev parse_sample : Text → Option Addr
parse_sample t = if text_eq t (codes "100.64.0.9") then some (v4 0x64400009) else none

abbrev rules : List CapRule
rules =
    record { groups = codes "ops" ∷ codes "dev" ∷ []; tenants = [] }
    ∷ record { groups = codes "dev" ∷ []; tenants = codes "acme" ∷ [] }
    ∷ []

abbrev rules_again : List CapRule
rules_again = record { groups = codes "dev" ∷ codes "ops" ∷ []; tenants = codes "acme" ∷ [] } ∷ []

abbrev read_sample : List CapRule → Text → Result (List CapRule)
read_sample m cap = ok m

abbrev user : UserProfile
user = record { user_id = pos 42; login_name = codes "a@b"; display_name = codes "A" }

abbrev laptop : Node
laptop = record { name = codes "laptop.ts.net."; tagged = false }

abbrev answer : Node → WhoIs (List CapRule)
answer n = record { node = some n; user_profile = some user; cap_map = rules }

abbrev whois_sample : Duration → Text → Result (Option (WhoIs (List CapRule)))
whois_sample timeout remote = ok (some (answer laptop))

abbrev whois_tagged : Duration → Text → Result (Option (WhoIs (List CapRule)))
whois_tagged timeout remote =
    ok (some (answer (record { name = codes "ci.ts.net."; tagged = true })))

abbrev source : Source
source = record { has_local = true; cap = []; allow_tagged = false; timeout = pos 0 }

abbrev caller : Identity
caller = record {
  subject = codes "tailnet:42";
  login = codes "a@b";
  display_name = codes "A";
  groups = codes "dev" ∷ codes "ops" ∷ [];
  node = codes "laptop.ts.net";
  attributes = (codes "tsnetid.tenants", codes "acme" ∷ []) ∷ [];
}

identified :
    identify read_sample split_sample parse_sample whois_sample source (codes "100.64.0.9:5")
    ≡ ok caller
unfolding identify before_char text_eq identity identity_of decimal sorted_keys sort text_lt has
    trim_suffix
identified = refl

identified_again :
    identify read_sample split_sample parse_sample whois_sample source (codes "100.64.0.9:6")
    ≡ ok caller
unfolding identify before_char text_eq identity identity_of decimal sorted_keys sort text_lt has
    trim_suffix
identified_again = refl

off_tailnet :
    identify read_sample split_sample parse_sample whois_sample source (codes "10.0.0.1:5")
    ≡ err no_identity
unfolding identify before_char text_eq
off_tailnet = refl

-- A tagged node has a complete profile, and is refused all the same.
tagged :
    identify read_sample split_sample parse_sample whois_tagged source (codes "100.64.0.9:5")
    ≡ err no_identity
unfolding identify before_char text_eq identity
tagged = refl

identify-StandsFor_example :
    StandsFor read_sample split_sample parse_sample whois_sample source
      (codes "100.64.0.9:5")
      caller
identify-StandsFor_example =
    identify-StandsFor read_sample split_sample parse_sample whois_sample source
      (codes "100.64.0.9:5") caller identified

same_groups : SameNames groups_field rules rules_again
same_groups x = ground arith

same_tenants : SameNames tenants_field rules rules_again
same_tenants x = ground arith

identity_of-canonical_example : identity_of user laptop rules ≡ identity_of user laptop rules_again
identity_of-canonical_example =
    identity_of-canonical user laptop rules rules_again same_groups same_tenants
