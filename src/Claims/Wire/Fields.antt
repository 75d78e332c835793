-- ===== src/Claims/Wire/Fields.antt =====
-- The members that MarshalJSON of claims.go owes to a claim set, as a table.
use tsjwt.Claims.{Json, str, num, list, Claims}
use tsjwt.Claims.Wire.{reserved, text_member, list_member, base_members}
use tsjwt.Prelude.{
  In, Text, codes, text_eq, Dict, has_iff, has, ◌≡◌, refl, sym, ap, ◌∙◌, subst, ◌↔◌, ◌⊎◌, inl, inr,
  Bool, true, false, not, ◌&&◌, Option, none, some, List, [], ◌∷◌, map, arith,
}

-- A member of a table of them, where it has a value.
omit : Text → Option Json → Dict Json → Dict Json
omit k none rest = rest
omit k (some v) rest = (k, v) ∷ rest

members : List (Text × Option Json) → Dict Json
unfolding omit
members [] = []
members ((k, f) ∷ fs) = omit k f (members fs)

abbrev pub names : List (Text × Option Json) → List Text
names fs = map (λ (p : Text × Option Json). p.0) fs

distinct : List Text → Bool
distinct [] = true
distinct (k ∷ ks) = not (has k ks) && distinct ks

In-omit :
    (k j : Text) (v : Json) (g : Option Json) (rest : Dict Json)
    → In (k, v) (omit j g rest)
    → ((k ≡ j) × (g ≡ some v)) ⊎ In (k, v) rest
unfolding omit
In-omit k j v none rest i = inr i
In-omit k j v (some w) rest (inl e) =
    inl (sym (ap (λ (p : Text × Json). p.0) e), ap (λ (p : Text × Json). some p.1) e)
In-omit k j v (some w) rest (inr i) = inr i

omit-later :
    (k j : Text) (v : Json) (g : Option Json) (rest : Dict Json)
    → In (k, v) rest
    → In (k, v) (omit j g rest)
unfolding omit
omit-later k j v none rest i = i
omit-later k j v (some w) rest i = inr i

omit-here : (k : Text) (v : Json) (rest : Dict Json) → In (k, v) (omit k (some v) rest)
unfolding omit
omit-here k v rest = inl refl

members-names :
    (fs : List (Text × Option Json)) (k : Text) (v : Json)
    → In (k, v) (members fs)
    → In k (names fs)
unfolding members
members-names [] k v i = absurd i
members-names ((j, g) ∷ fs) k v i = elim (In-omit k j v g (members fs) i) [
  | inl here ↦ inl (sym here.0)
  | inr later ↦ inr (members-names fs k v later)
]

pub In-names :
    (fs : List (Text × Option Json)) (k : Text) (f : Option Json) → In (k, f) fs → In k (names fs)
In-names [] k f i = absurd i
In-names (p ∷ fs) k f (inl e) = inl (ap (λ (q : Text × Option Json). q.0) e)
In-names (p ∷ fs) k f (inr i) = inr (In-names fs k f i)

-- In a table of distinct names, the members under a name are those of its row.
In-members :
    (fs : List (Text × Option Json)) (k : Text) (f : Option Json) (v : Json)
    → distinct (names fs) ≡ true
    → In (k, f) fs
    → In (k, v) (members fs) ↔ (f ≡ some v)
unfolding members distinct
In-members [] k f v d i = absurd i
In-members ((j, g) ∷ fs) k f v d (inl e) =
    let same : j ≡ k = ap (λ (q : Text × Option Json). q.0) e in
    let value : g ≡ f = ap (λ (q : Text × Option Json). q.1) e in
    let alone : has j (names fs) ≡ false = ground (arith, d) in
    (
      λ h. elim (In-omit k j v g (members fs) h) [
        | inl here ↦ sym value ∙ here.1
        | inr later ↦ absurd (
            cc (
              alone,
              (has_iff j (names fs)).1
                  (subst (λ (t : Text). In t (names fs)) (sym same) (members-names fs k v later)),
            ))
      ],
      λ h. rw (same, value, h) (omit-here k v (members fs)),
    )
In-members ((j, g) ∷ fs) k f v d (inr i) =
    let alone : has j (names fs) ≡ false = ground (arith, d) in
    let rest = In-members fs k f v (ground (arith, d)) i in
    (
      λ h. elim (In-omit k j v g (members fs) h) [
        | inl here ↦ absurd (
            cc (
              alone,
              (has_iff j (names fs)).1
                  (subst (λ (t : Text). In t (names fs)) here.0 (In-names fs k f i)),
            ))
        | inr later ↦ rest.0 later
      ],
      λ h. omit-later k j v g (members fs) (rest.1 h),
    )

-- A field that is left out where it is empty.
abbrev pub text_field : Text → Option Json
text_field [] = none
text_field (c ∷ t) = some (str (c ∷ t))

abbrev pub list_field : List Text → Option Json
list_field [] = none
list_field (t ∷ l) = some (list (t ∷ l))

-- The names that the package owns, each with the value that a claim set gives it.
abbrev pub fields : Claims → List (Text × Option Json)
fields c =
    (codes "iss", some (str c.issuer))
    ∷ (codes "sub", some (str c.subject))
    ∷ (codes "aud", some (str c.audience))
    ∷ (codes "iat", some (num c.issued_at))
    ∷ (codes "nbf", some (num c.not_before))
    ∷ (codes "exp", some (num c.expiry))
    ∷ (codes "jti", some (str c.jti))
    ∷ (codes "email", text_field c.email)
    ∷ (codes "name", text_field c.display_name)
    ∷ (codes "node", text_field c.node)
    ∷ (codes "tenant", text_field c.tenant)
    ∷ (codes "tenants", list_field c.tenants)
    ∷ (codes "roles", list_field c.roles)
    ∷ (codes "groups", list_field c.groups)
    ∷ []

omit-text_field :
    (k t : Text) (rest : Dict Json) → omit k (text_field t) rest ≡ text_member k t rest
unfolding omit text_member
omit-text_field k [] rest = refl
omit-text_field k (c ∷ t) rest = refl

omit-list_field :
    (k : Text) (l : List Text) (rest : Dict Json)
    → omit k (list_field l) rest ≡ list_member k l rest
unfolding omit list_member
omit-list_field k [] rest = refl
omit-list_field k (t ∷ l) rest = refl

members-fields : (c : Claims) → members (fields c) ≡ base_members c
unfolding members base_members
members-fields c = simp (omit-text_field, omit-list_field, omit)

reserved-distinct : distinct reserved ≡ true
unfolding distinct has text_eq
reserved-distinct = refl

pub base_members_iff :
    (c : Claims) (k : Text) (f : Option Json) (v : Json)
    → In (k, f) (fields c)
    → In (k, v) (base_members c) ↔ (f ≡ some v)
base_members_iff c k f v i =
    subst (λ (m : Dict Json). In (k, v) m ↔ (f ≡ some v)) (members-fields c)
      (In-members (fields c) k f v reserved-distinct i)
