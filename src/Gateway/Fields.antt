-- ===== src/Gateway/Fields.antt =====
-- What gateway/routes.go reads from the fields and annotations of an HTTPRoute, with the reasons of its refusals.
use tsjwt.Prelude.{
  ◌==◌, if◌then◌else◌, length, Text, codes, text_eq, trim, cut, split, Dict, insert, has, ℕ, Bool,
  true, false, not, ◌&&◌, ◌||◌, Option, none, some, List, [], ◌∷◌,
}
use tsjwt.Gateway.{PathMatch, Rule}

-- The reasons of a RouteError.
pub data Reason : Type 0 where
  backend_not_found unsupported_value invalid_kind ref_not_permitted : Reason
  no_matching_hostname accepted_reason : Reason

pub record RouteError : Type 0 where
  pub route : Text
  pub reason : Reason

pub data Verdict (A : Type 0) : Type 0 where
  refused : Reason → Verdict A
  passed : A → Verdict A

infixl 5 ◌>>=◌ ◌>>◌
abbrev pub ◌>>=◌ : {A B : Type 0} → Verdict A → (A → Verdict B) → Verdict B
refused why >>= then_do = refused why
passed x >>= then_do = then_do x

abbrev pub ◌>>◌ : {B : Type 0} → Verdict (Unit {0}) → Verdict B → Verdict B
check >> after = check >>= λ u. after

abbrev pub require : Bool → Reason → Verdict (Unit {0})
require false why = refused why
require true why = passed tt

abbrev pub need : {A : Type 0} → Option A → Reason → Verdict A
need none why = refused why
need (some x) why = passed x

-- parseAllowedAudiences
allowed_loop : List Text → List Text
unfolding text_eq
allowed_loop [] = []
allowed_loop (a ∷ as_) =
    let rest = allowed_loop as_ in if text_eq (trim a) [] then rest else trim a ∷ rest

unfoldable pub parse_allowed_audiences : Text → List Text
unfolding allowed_loop split
parse_allowed_audiences v = allowed_loop (split v b',')

abbrev known_claims : List Text
known_claims =
    codes "sub"
    ∷ codes "subject"
    ∷ codes "email"
    ∷ codes "name"
    ∷ codes "node"
    ∷ codes "tenant"
    ∷ codes "tenants"
    ∷ codes "roles"
    ∷ codes "groups"
    ∷ []

-- One pair of parseClaimHeaders, cut at "=".
claim_pair : Option (Text × Text) → Verdict (Text × Text)
unfolding text_eq has
claim_pair none = refused unsupported_value
claim_pair (some (header, claim)) = do
  require (not (text_eq (trim header) []) && not (text_eq (trim claim) [])) unsupported_value
  require (has (trim claim) known_claims) unsupported_value
  passed (trim header, trim claim)

claim_headers_loop : List Text → Dict Text → Verdict (Dict Text)
unfolding claim_pair cut insert
claim_headers_loop [] out = passed out
claim_headers_loop (pair ∷ pairs) out =
    if text_eq (trim pair) []
    then claim_headers_loop pairs out
    else (claim_pair (cut (trim pair) b'=') >>= λ p. claim_headers_loop pairs (insert p.0 p.1 out))

-- parseClaimHeaders; nil is the empty list.
unfoldable pub parse_claim_headers : Text → Verdict (Dict Text)
unfolding claim_headers_loop split
parse_claim_headers v =
    if text_eq (trim v) [] then passed [] else claim_headers_loop (split v b',') []

abbrev is_prefix_type : Option Text → Bool
is_prefix_type none = true
is_prefix_type (some kind) = text_eq kind (codes "PathPrefix")

-- One match of pathPrefixes; `none` is the `continue` at a type that the router cannot honour.
path_prefix_of : Option PathMatch → Option Text
unfolding text_eq
path_prefix_of none = some []
path_prefix_of (some m) = elim m.value [
  | none ↦ some []
  | some p ↦
      if is_prefix_type m.match_type then some (if text_eq p (codes "/") then [] else p) else none
]

push_prefix : Option Text → List Text → List Text
push_prefix none l = l
push_prefix (some p) l = p ∷ l

prefix_loop : List (Option PathMatch) → List Text
unfolding path_prefix_of push_prefix
prefix_loop [] = []
prefix_loop (m ∷ ms) = push_prefix (path_prefix_of m) (prefix_loop ms)

-- pathPrefixes
unfoldable pub path_prefixes : Rule → List Text
unfolding prefix_loop
path_prefixes rule = if length rule.paths == 0 then [] ∷ [] else prefix_loop rule.paths

-- servicePortExists
unfoldable pub port_exists : List ℕ → ℕ → Bool
port_exists [] port = false
port_exists (p ∷ ps) port = (p == port) || port_exists ps port
