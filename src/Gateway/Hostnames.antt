-- ===== src/Gateway/Hostnames.antt =====
-- Attachment and hostnames of gateway/routes.go: which listeners admit a route, and which names it serves.
pub mod Narrower
use tsjwt.Prelude.{
  ◌==◌, if◌then◌else◌, length, All, Text, codes, text_eq, has_prefix, trim_prefix, has_suffix,
  to_lower, has, ◌*◌, Bool, true, false, not, ◌&&◌, Option, none, some, List, [], ◌∷◌, ◌++◌,
}
use tsjwt.Gateway.{Listener, Gateway, ParentRef, HttpRoute}

-- listenerAdmits
unfoldable pub listener_admits : Listener → Text → Text → Bool
unfolding text_eq
listener_admits l gateway_ns route_ns = elim l.from [
  | none ↦ text_eq route_ns gateway_ns
  | some from ↦
      if text_eq from (codes "All")
      then true
      else if text_eq from (codes "Same")
      then text_eq route_ns gateway_ns
      else false
]

admitting : Text → Text → List Listener → List Listener
unfolding listener_admits
admitting gateway_ns route_ns [] = []
admitting gateway_ns route_ns (l ∷ ls) =
    let rest = admitting gateway_ns route_ns ls in
    if listener_admits l gateway_ns route_ns then l ∷ rest else rest

-- admittingListeners
unfoldable pub admitting_listeners : Gateway → Text → List Listener
unfolding admitting
admitting_listeners gw route_ns = admitting gw.namespace route_ns gw.listeners

unfoldable pub is_gateway_kind : Option Text → Bool
is_gateway_kind none = true
is_gateway_kind (some kind) = text_eq kind (codes "Gateway")

abbrev pub or_text : Option Text → Text → Text
or_text none t = t
or_text (some u) t = u

unfoldable pub attached_loop : Gateway → HttpRoute → List ParentRef → Bool
unfolding is_gateway_kind text_eq admitting_listeners
attached_loop gw r [] = false
attached_loop gw r (p ∷ ps) =
    let rest = attached_loop gw r ps in
    if is_gateway_kind p.kind
      && (text_eq p.name gw.name && text_eq (or_text p.namespace r.namespace) gw.namespace)
    then not (length (admitting_listeners gw r.namespace) == 0)
    else rest

-- attachedTo
unfoldable pub attached_to : Gateway → HttpRoute → Bool
unfolding attached_loop
attached_to gw r = attached_loop gw r r.parents

-- intersectHostname, for names in lower case.
intersect_lower : Text → Text → Option Text
unfolding text_eq has_suffix trim_prefix has_prefix
intersect_lower a b =
    let wild_a = has_prefix a (codes "*.") in
    let wild_b = has_prefix b (codes "*.") in
    let tail_a = trim_prefix a (codes "*") in
    let tail_b = trim_prefix b (codes "*") in
    if not wild_a && not wild_b
    then (if text_eq a b then some a else none)
    else if wild_a && not wild_b
    then (if has_suffix b tail_a then some b else none)
    else if not wild_a && wild_b
    then (if has_suffix a tail_b then some a else none)
    else if text_eq a b
    then some a
    else if has_suffix tail_a tail_b
    then some a
    else if has_suffix tail_b tail_a
    then some b
    else none

-- intersectHostname
unfoldable pub intersect_hostname : Text → Text → Option Text
unfolding intersect_lower to_lower
intersect_hostname a b = intersect_lower (to_lower a) (to_lower b)

push_some : Option Text → List Text → List Text
push_some none l = l
push_some (some h) l = h ∷ l

-- The inner and the outer loop of hostnamesFor.
intersect_all : Text → List Text → List Text
unfolding push_some intersect_hostname
intersect_all rh [] = []
intersect_all rh (lh ∷ ls) = push_some (intersect_hostname rh lh) (intersect_all rh ls)

intersect_lists : List Text → List Text → List Text
unfolding intersect_all
intersect_lists [] listener = []
intersect_lists (rh ∷ route) listener = intersect_all rh listener ++ intersect_lists route listener

dedupe_loop : List Text → List Text → List Text
unfolding has
dedupe_loop seen [] = []
dedupe_loop seen (s ∷ ss) =
    let again = dedupe_loop seen ss in
    let first = dedupe_loop (s ∷ seen) ss in if has s seen then again else s ∷ first

-- dedupe
pub dedupe : List Text → List Text
unfolding dedupe_loop
dedupe l = dedupe_loop [] l

push_named : Option Text → List Text → List Text
push_named none l = l
push_named (some []) l = l
push_named (some (c ∷ h)) l = (c ∷ h) ∷ l

listener_names : List Listener → List Text
unfolding push_named
listener_names [] = []
listener_names (l ∷ ls) = push_named l.hostname (listener_names ls)

-- The switch of hostnamesFor.
names_for : List Text → List Text → List Text × Bool
unfolding dedupe intersect_lists
names_for [] [] = ([], true)
names_for [] (r ∷ route) = (r ∷ route, true)
names_for (l ∷ listener) [] = (l ∷ listener, true)
names_for (l ∷ listener) (r ∷ route) =
    let out = dedupe (intersect_lists (r ∷ route) (l ∷ listener)) in (out, not (length out == 0))

-- hostnamesFor
unfoldable pub hostnames_for : Gateway → HttpRoute → List Text × Bool
unfolding names_for listener_names admitting_listeners
hostnames_for gw r = names_for (listener_names (admitting_listeners gw r.namespace)) r.hostnames
