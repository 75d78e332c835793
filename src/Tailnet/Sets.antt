-- ===== src/Tailnet/Sets.antt =====
-- The sets of groups and tenants that identity of tsnetid/tsnetid.go makes of the rules of a capability.
use tsjwt.Prelude.Sort.Canonical.{IsAscending, sort-IsAscending}
use tsjwt.Prelude.Sort.{In-sort, sort-In}
use tsjwt.Prelude.{
  Bool-cases, In, Any, IsDistinct, Text, has_iff, has, ◌≡◌, subst, ◌↔◌, ◌⊎◌, inl, inr, List, [],
  ◌∷◌, arith, text_lt, Dict, refl, sym,
}
use tsjwt.Tailnet.{
  CapRule, add_all, attr_tenants, rule_keys, tenants_field, sorted_keys, tenant_attributes,
}

In-add_all : (x : Text) (gs set : List Text) → In x (add_all gs set) ↔ (In x gs ⊎ In x set)
unfolding add_all
In-add_all x [] set = (λ h. inr h, λ h. elim h [ inl e ↦ absurd e | inr i ↦ i ])
In-add_all x (g ∷ gs) set = elim (Bool-cases (has g set)) [
  | inl old ↦ rw old (ground (arith, In-add_all x gs set, (has_iff g set).0 old, held x g set))
  | inr new ↦ rw new (ground (arith, In-add_all x gs (g ∷ set)))
]
  where
    held : (x g : Text) (set : List Text) → In g set → g ≡ x → In x set
    held x g set i e = subst (λ (y : Text). In y set) e i

add_all-IsDistinct : (gs set : List Text) → IsDistinct set → IsDistinct (add_all gs set)
unfolding add_all
add_all-IsDistinct [] set d = d
add_all-IsDistinct (g ∷ gs) set d = elim (Bool-cases (has g set)) [
  | inl old ↦ rw old (add_all-IsDistinct gs set d)
  | inr new ↦ rw new (add_all-IsDistinct gs (g ∷ set) (λ i. cc (new, (has_iff g set).1 i), d))
]

-- A rule of the capability names the group.
abbrev pub Names : (CapRule → List Text) → List CapRule → Text → Type 0
Names field rules x = Any (λ (r : CapRule). In x (field r)) rules

pub In-rule_keys :
    (x : Text) (field : CapRule → List Text) (rules : List CapRule) (set : List Text)
    → In x (rule_keys field rules set) ↔ (Names field rules x ⊎ In x set)
unfolding rule_keys
In-rule_keys x field [] set = (λ h. inr h, λ h. elim h [ inl e ↦ absurd e | inr i ↦ i ])
In-rule_keys x field (r ∷ rs) set =
    ground (arith, In-rule_keys x field rs (add_all (field r) set), In-add_all x (field r) set)

pub rule_keys-IsDistinct :
    (field : CapRule → List Text) (rules : List CapRule) (set : List Text)
    → IsDistinct set
    → IsDistinct (rule_keys field rules set)
unfolding rule_keys
rule_keys-IsDistinct field [] set d = d
rule_keys-IsDistinct field (r ∷ rs) set d =
    rule_keys-IsDistinct field rs (add_all (field r) set) (add_all-IsDistinct (field r) set d)

-- The list is the set of the texts that a rule names: each once, in ascending order.
pub record IsSetOf (named : Text → Type 0) (l : List Text) : Type 0 where
  pub holds : (x : Text) → In x l ↔ named x
  pub ascending : IsAscending l

pub sorted_keys-IsSetOf :
    (field : CapRule → List Text) (rules : List CapRule)
    → IsSetOf (Names field rules) (sorted_keys (rule_keys field rules []))
unfolding sorted_keys
sorted_keys-IsSetOf field rules = record {
  holds = λ x.
      let found = In-rule_keys x field rules [] in
      (
        λ i. elim (found.0 (In-sort text_lt x _ i)) [ inl n ↦ n | inr e ↦ absurd e ],
        λ n. sort-In text_lt x _ (found.1 (inl n)),
      );
  ascending = sort-IsAscending (rule_keys field rules []) (rule_keys-IsDistinct field rules [] tt);
}

-- What the attributes carry: the tenants that the rules name, or nothing where they name none.
abbrev pub CarriesTenants : List CapRule → Dict (List Text) → Type 0
CarriesTenants rules attributes =
    ((attributes ≡ []) × ((x : Text) → ¬ Names tenants_field rules x))
    ⊎ ((l : List Text) × (attributes ≡ (attr_tenants, l) ∷ [])
        × IsSetOf (Names tenants_field rules) l)

pub tenant_attributes-Carries :
    (rules : List CapRule) (keys : List Text)
    → keys ≡ rule_keys tenants_field rules []
    → CarriesTenants rules (tenant_attributes keys)
unfolding tenant_attributes
tenant_attributes-Carries rules [] e = inl (
  refl,
  λ x n.
      subst (λ (l : List Text). In x l) (sym e) ((In-rule_keys x tenants_field rules []).1 (inl n)),
)
tenant_attributes-Carries rules (t ∷ ts) e = inr (
  sorted_keys (t ∷ ts),
  refl,
  subst (λ (l : List Text). IsSetOf (Names tenants_field rules) (sorted_keys l)) (sym e)
      (sorted_keys-IsSetOf tenants_field rules),
)
