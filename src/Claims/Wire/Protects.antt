-- ===== src/Claims/Wire/Protects.antt =====
-- What MarshalJSON of claims.go does with the names that the package owns.
use tsjwt.Claims.Wire.Fields.{In-names, fields, base_members_iff}
use tsjwt.Prelude.{
  ◌==◌, Bool-cases, length, In, Text, text_eq_iff, text_eq, Dict, insert, has, ◌≡◌, sym, ap, ◌∙◌,
  subst, ◌≢◌, ◌↔◌, inl, inr, true, false, [], ◌∷◌, ℤ, refl, List, has_iff, Option, some,
}
use tsjwt.Errors.{other, err, ok, >>=-eq-ok, ok-injective}
use tsjwt.Claims.Wire.{
  reserved, base_members, merge_extra, by_name, marshal, text_member, list_member, reread,
  reread_members,
}
use tsjwt.Claims.{Json, Claims}
use tsjwt.Prelude.Sort.{In-sort, sort-In}

other_name : {k j : Text} {v w : Json} → k ≢ j → ◌≡◌ {A = Text × Json} (j, w) (k, v) → ⊥
other_name d e = d (sym (ap (λ (p : Text × Json). p.0) e))

-- An insertion under another name neither adds nor takes a member of this name.
In-insert_dict :
    (k j : Text) (v w : Json) (m : Dict Json) → k ≢ j → In (k, v) (insert j w m) ↔ In (k, v) m
unfolding insert
In-insert_dict k j v w [] d = (λ h. elim h [ inl e ↦ other_name d e | inr x ↦ x ], λ h. absurd h)
In-insert_dict k j v w ((i, x) ∷ m) d = elim (Bool-cases (text_eq i j)) [
  | inl hit ↦
      let same : i ≡ j = (text_eq_iff i j).0 hit in
      rw hit (
        λ h. elim h [ inl e ↦ absurd (other_name d e) | inr l ↦ inr l ],
        λ h. elim h [
          | inl e ↦ absurd (d (sym (ap (λ (p : Text × Json). p.0) e) ∙ same))
          | inr l ↦ inr l
        ],
      )
  | inr miss ↦
      let rest = In-insert_dict k j v w m d in
      rw miss (
        λ h. elim h [ inl e ↦ inl e | inr l ↦ inr (rest.0 l) ],
        λ h. elim h [ inl e ↦ inl e | inr l ↦ inr (rest.1 l) ],
      )
]

reserved-differs : (k j : Text) → has k reserved ≡ true → has j reserved ≡ false → k ≢ j
reserved-differs k j h g e = cc (h, g, ap (λ (t : Text). has t reserved) e)

merge_extra-keeps :
    (k : Text) (v : Json) (extra merged o : Dict Json)
    → has k reserved ≡ true
    → merge_extra extra merged ≡ ok o
    → In (k, v) o ↔ In (k, v) merged
unfolding merge_extra
merge_extra-keeps k v [] merged o r e =
    subst (λ (x : Dict Json). In (k, v) x ↔ In (k, v) merged) (ok-injective e) (λ h. h, λ h. h)
merge_extra-keeps k v ((j, w) ∷ extra) merged o r e = elim (Bool-cases (has j reserved)) [
  | inl bad ↦ let never : err other ≡ ok o = rw bad at e in absurd (cc never)
  | inr free ↦
      let rest = merge_extra-keeps k v extra (insert j w merged) o r (rw free at e) in
      let step = In-insert_dict k j v w merged (reserved-differs k j r free) in
      (λ h. step.0 (rest.0 h), λ h. rest.1 (step.1 h))
]

module _ (as_float : ℤ → ℤ) where
  reread-text_member :
      (name t : Text) (rest : Dict Json)
      → reread_members as_float (text_member name t rest)
        ≡ text_member name t (reread_members as_float rest)
  unfolding text_member reread_members reread
  reread-text_member name [] rest = refl
  reread-text_member name (c ∷ t) rest = refl

  reread-list_member :
      (name : Text) (l : List Text) (rest : Dict Json)
      → reread_members as_float (list_member name l rest)
        ≡ list_member name l (reread_members as_float rest)
  unfolding list_member reread_members reread
  reread-list_member name [] rest = refl
  reread-list_member name (t ∷ l) rest = refl

  reread-base_members :
      (c : Claims)
      → as_float c.issued_at ≡ c.issued_at
      → as_float c.not_before ≡ c.not_before
      → as_float c.expiry ≡ c.expiry
      → reread_members as_float (base_members c) ≡ base_members c
  unfolding base_members reread_members reread
  reread-base_members c i n e = simp (i, n, e, reread-text_member, reread-list_member)

marshal-keeps :
    (as_float : ℤ → ℤ) (c : Claims) (o : Dict Json) (k : Text) (v : Json)
    → as_float c.issued_at ≡ c.issued_at
    → as_float c.not_before ≡ c.not_before
    → as_float c.expiry ≡ c.expiry
    → marshal as_float c ≡ ok o
    → has k reserved ≡ true
    → In (k, v) o ↔ In (k, v) (base_members c)
unfolding marshal
marshal-keeps as_float c o k v i n x e r = elim (Bool-cases (length c.extra == 0)) [
  | inl none_extra ↦
      let same : ok (base_members c) ≡ ok o = rw none_extra at e in
      subst (λ (z : Dict Json). In (k, v) z ↔ In (k, v) (base_members c)) (ok-injective same)
        (λ h. h, λ h. h)
  | inr extra ↦
      let (merged, m, s) =
        >>=-eq-ok (merge_extra c.extra (reread_members as_float (base_members c))) _
          (rw extra at e) in
      let m' : merge_extra c.extra (base_members c) ≡ ok merged =
        rw (reread-base_members as_float c i n x) at m in
      let kept = merge_extra-keeps k v c.extra (base_members c) merged r m' in
      subst (λ (z : Dict Json). In (k, v) z ↔ In (k, v) (base_members c)) (ok-injective s)
        (
          λ h. kept.0 (In-sort by_name (k, v) merged h),
          λ h. sort-In by_name (k, v) merged (kept.1 h),
        )
]

-- Where the three times are numbers that a float64 holds, the object that MarshalJSON writes has, under each
-- name that the package owns, the member that the claims' own field gives and no other: iss, sub, aud, iat,
-- nbf, exp and jti always, and email, name, node, tenant, tenants, roles and groups where they are not empty.
pub marshal-Protects :
    (as_float : ℤ → ℤ) (c : Claims) (o : Dict Json) (k : Text) (f : Option Json) (v : Json)
    → as_float c.issued_at ≡ c.issued_at
    → as_float c.not_before ≡ c.not_before
    → as_float c.expiry ≡ c.expiry
    → marshal as_float c ≡ ok o
    → In (k, f) (fields c)
    → In (k, v) o ↔ (f ≡ some v)
marshal-Protects as_float c o k f v i n x e row =
    let owned = (has_iff k reserved).1 (In-names (fields c) k f row) in
    let kept = marshal-keeps as_float c o k v i n x e owned in
    let own = base_members_iff c k f v row in (λ h. own.0 (kept.0 h), λ h. kept.1 (own.1 h))
