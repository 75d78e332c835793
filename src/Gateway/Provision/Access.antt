-- ===== src/Gateway/Provision/Access.antt =====
-- What the Role of a data plane allows, gateway/provision.go.
use tsjwt.Prelude.{
  ◌==◌, length, Text, codes, text_eq, has, ℕ, ◌≡◌, ◌↔◌, ◌⊎◌, Bool, true, false, ◌&&◌, ◌||◌, List,
  [], ◌∷◌, ◌++◌, arith, has_iff, refl, sym, ◌∙◌, ◌≢◌, inl, inr, In, subst,
}
use mathlib.Core.List.{append_assoc}
use tsjwt.Gateway.{Gateway}
use tsjwt.Gateway.Provision.{keys_name, PolicyRule, keys_role, routes_name, routes_config_map}

abbrev config_maps : Text
config_maps = codes "configmaps"

-- A request to the API server: the verb, the API group, the resource with its subresource (empty for the
-- resource itself), and the object's name.
pub record Access : Type 0 where
  pub verb : Text
  pub api_group : Text
  pub resource : Text
  pub subresource : Text
  pub name : Text

-- A list of a rule has the word, or allows every word with "*".
matches : Text → List Text → Bool
matches word words = has (codes "*") words || has word words

-- A subresource is listed as "resource/subresource", or as "*/subresource" for that of every resource.
names_resource : Text → Text → List Text → Bool
unfolding matches
names_resource resource [] words = matches resource words
names_resource resource (c ∷ sub) words =
    matches (resource ++ b'/' ∷ c ∷ sub) words || has (codes "*/" ++ c ∷ sub) words

-- How Kubernetes reads a rule: no resource names are all of them.
permits : Access → PolicyRule → Bool
unfolding names_resource
permits a rule =
    matches a.api_group rule.api_groups
    && (names_resource a.resource a.subresource rule.resources
        && (matches a.verb rule.verbs
            && ((length rule.resource_names == 0) || has a.name rule.resource_names)))

pub role_permits : Access → List PolicyRule → Bool
unfolding permits
role_permits a [] = false
role_permits a (rule ∷ rules) = permits a rule || role_permits a rules

-- The request is about a ConfigMap itself.
abbrev pub IsConfigMap : Access → Type 0
IsConfigMap a = (a.api_group ≡ []) × (a.resource ≡ codes "configmaps") × (a.subresource ≡ [])

-- A rule over the ConfigMaps allows its verbs on its names.
map_rule : List Text → List Text → PolicyRule
map_rule names verbs = record {
  api_groups = [] ∷ [];
  resources = config_maps ∷ [];
  resource_names = names;
  verbs = verbs;
}

either_rule :
    (a b : Bool) {P Q : Type 0}
    → (a ≡ true) ↔ P
    → (b ≡ true) ↔ Q
    → (a || (b || false) ≡ true) ↔ (P ⊎ Q)
either_rule true b p q = (λ h. inl (p.0 refl), λ h. refl)
either_rule false true p q = (λ h. inr (q.0 refl), λ h. refl)
either_rule false false p q = (λ h. cc h, λ h. elim h [ inl x ↦ p.1 x | inr y ↦ q.1 y ])

has-one : (x y : Text) → (has x (y ∷ []) ≡ true) ↔ (x ≡ y)
has-one x y = ground (arith, has_iff x (y ∷ []))

has-two : (x y z : Text) → (has x (y ∷ z ∷ []) ≡ true) ↔ ((x ≡ y) ⊎ (x ≡ z))
has-two x y z = ground (arith, has_iff x (y ∷ z ∷ []))

matches_iff :
    (word : Text) (words : List Text)
    → has (codes "*") words ≡ false
    → (matches word words ≡ true) ↔ (has word words ≡ true)
unfolding matches
matches_iff word words no_star = rw no_star (λ h. h, λ h. h)

no_slash : (a b : Text) → a ++ b'/' ∷ b ≢ config_maps
no_slash a b e =
    let found : In b'/' config_maps = subst (λ (t : Text). In b'/' t) e (slash a) in ground arith
  where
    slash : (a : Text) → In b'/' (a ++ b'/' ∷ b)
    slash [] = inl refl
    slash (x ∷ a) = inr (slash a)

resource_iff :
    (resource sub : Text)
    → (names_resource resource sub (config_maps ∷ []) ≡ true)
      ↔ ((resource ≡ config_maps) × (sub ≡ []))
unfolding names_resource matches has text_eq
resource_iff resource [] =
    let same = has-one resource config_maps in (λ h. (same.0 h, refl), λ h. same.1 h.0)
resource_iff resource (c ∷ sub) = (
  λ h.
      let same = has-one (resource ++ b'/' ∷ c ∷ sub) config_maps in
      absurd (no_slash resource (c ∷ sub) (ground (arith, same))),
  λ h. absurd (cc h.1),
)

permits_iff :
    (a : Access) (names verbs : List Text)
    → has (codes "*") verbs ≡ false
    → (permits a (map_rule names verbs) ≡ true) ↔ (
        IsConfigMap a
        × (has a.verb verbs ≡ true)
        × ((length names == 0) || has a.name names ≡ true))
unfolding permits map_rule has text_eq
permits_iff a names verbs no_star =
    let group = matches_iff a.api_group ([] ∷ []) refl in
    let one = has-one a.api_group [] in
    let resource = resource_iff a.resource a.subresource in
    let verb = matches_iff a.verb verbs no_star in ground (arith, group, one, resource, verb)

create_iff :
    (a : Access)
    → (permits a (map_rule [] (codes "create" ∷ [])) ≡ true)
      ↔ (IsConfigMap a × (a.verb ≡ codes "create"))
unfolding has text_eq
create_iff a =
    let whole = permits_iff a [] (codes "create" ∷ []) refl in
    let verb = has-one a.verb (codes "create") in
    (λ h. let (m, v, _) = whole.0 h in (m, verb.0 v), λ h. whole.1 (h.0, verb.1 h.1, refl))

named_iff :
    (a : Access) (own : Text)
    → (permits a (map_rule (own ∷ []) (codes "get" ∷ codes "update" ∷ [])) ≡ true)
      ↔ (IsConfigMap a × ((a.verb ≡ codes "get") ⊎ (a.verb ≡ codes "update")) × (a.name ≡ own))
unfolding has text_eq
named_iff a own =
    let whole = permits_iff a (own ∷ []) (codes "get" ∷ codes "update" ∷ []) refl in
    let verb = has-two a.verb (codes "get") (codes "update") in
    let name = has-one a.name own in
    (
      λ h. let (m, v, n) = whole.0 h in (m, verb.0 v, name.0 n),
      λ h. whole.1 (h.0, verb.1 h.1, name.1 h.2),
    )

-- The Role of a Gateway allows to create ConfigMaps, and to get and update the one of the Gateway's keys.
keys_role_iff :
    (gw : Gateway) (a : Access)
    → (role_permits a (keys_role gw).rules ≡ true) ↔ (
        (IsConfigMap a × (a.verb ≡ codes "create"))
        ⊎ (IsConfigMap a
            × ((a.verb ≡ codes "get") ⊎ (a.verb ≡ codes "update"))
            × (a.name ≡ keys_name gw)))
unfolding role_permits keys_role map_rule
keys_role_iff gw a =
    either_rule (permits a (map_rule [] (codes "create" ∷ [])))
      (permits a (map_rule (keys_name gw ∷ []) (codes "get" ∷ codes "update" ∷ []))) (create_iff a)
      (named_iff a (keys_name gw))

-- Texts with different last letters but one.
before_last : (x y z : ℕ) (a b : Text) → a ++ (x ∷ z ∷ []) ≡ b ++ (y ∷ z ∷ []) → x ≡ y
before_last x y z [] [] e = cc e
before_last x y z [] (c ∷ []) e = absurd (cc e)
before_last x y z [] (c ∷ d ∷ b) e = absurd (no_more b e)
  where
    no_more : (b : Text) → x ∷ z ∷ [] ≡ c ∷ d ∷ (b ++ (y ∷ z ∷ [])) → ⊥
    no_more [] e = cc e
    no_more (f ∷ b) e = cc e
before_last x y z (c ∷ []) [] e = absurd (cc e)
before_last x y z (c ∷ d ∷ a) [] e = absurd (no_more a e)
  where
    no_more : (a : Text) → c ∷ d ∷ (a ++ (x ∷ z ∷ [])) ≡ y ∷ z ∷ [] → ⊥
    no_more [] e = cc e
    no_more (f ∷ a) e = cc e
before_last x y z (c ∷ a) (d ∷ b) e = before_last x y z a b (cc e)

-- The keys of a Gateway are never in the ConfigMap of a Gateway's routes.
keys_name-routes_name : (g h : Gateway) → keys_name g ≢ routes_name h
keys_name-routes_name g h e =
    let tails : g.name ++ codes "-keys" ≡ h.name ++ codes "-routes" = cc e in
    let last : b'y' ≡ b'e' =
      before_last b'y' b'e' b's' (g.name ++ codes "-ke") (h.name ++ codes "-rout") (
        append_assoc g.name (codes "-ke") (codes "ys")
        ∙ (tails ∙ sym (append_assoc h.name (codes "-rout") (codes "es")))) in
    absurd (omega (arith, last))

-- Of all requests to the API server, with the wildcards that a rule may have, the Role of a Gateway's data
-- planes allows exactly to create ConfigMaps, and to get and update the one that holds the Gateway's keys; so
-- it lets them read or change the route table of no Gateway.
pub keys_role-IsNarrow :
    (gw : Gateway) (a : Access)
    → ((role_permits a (keys_role gw).rules ≡ true) ↔ (
        IsConfigMap a
        × ((a.verb ≡ codes "create")
            ⊎ (((a.verb ≡ codes "get") ⊎ (a.verb ≡ codes "update")) × (a.name ≡ keys_name gw)))))
      × ((h : Gateway) (rendered : Text)
          → a.name ≡ (routes_config_map h rendered).meta.name
          → role_permits a (keys_role gw).rules ≡ true
          → a.verb ≡ codes "create")
unfolding routes_config_map
keys_role-IsNarrow gw a =
    let may = keys_role_iff gw a in
    (
      (
        λ h. elim (may.0 h) [ inl c ↦ (c.0, inl c.1) | inr (m, v, n) ↦ (m, inr (v, n)) ],
        λ (m, why). may.1 (elim why [ inl c ↦ inl (m, c) | inr (v, n) ↦ inr (m, v, n) ]),
      ),
      λ h rendered routes allowed. elim (may.0 allowed) [
        | inl create ↦ create.1
        | inr own ↦ absurd (keys_name-routes_name gw h (sym own.2 ∙ routes))
      ],
    )
