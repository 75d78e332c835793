-- ===== src/Gateway/Hostnames/Narrower.antt =====
-- The name that intersectHostname of gateway/routes.go picks, against what the router matches.
use mathlib.Core.List.{append_assoc}
use tsjwt.Gateway.Hostnames.{intersect_lower, intersect_hostname}
use tsjwt.Prelude.{
  length, take, drop, length-append, Text, codes, text_eq_iff, cut_prefix, has_prefix, trim_prefix,
  has_suffix, ℕ, zero, suc, ◌-◌, ◌≡◌, refl, sym, ap, ◌∙◌, subst, ◌⊎◌, true, false, [], ◌∷◌, ◌++◌,
  arith, text_eq_refl, to_lower, inl, inr, some,
}
use tsjwt.Routing.{covers}
use tsjwt.Routing.Answers.{has_prefix_iff}

-- A route with this name, in lower case, answers for the host: matches of proxy/router.go compares the
-- name, or takes it for a wildcard.
abbrev pub Serves : Text → Text → Type 0
Serves host h = (h ≡ host) ⊎ (covers host h ≡ true)

take-drop : (n : ℕ) (s : Text) → take n s ++ drop n s ≡ s
take-drop zero s = refl
take-drop (suc n) [] = refl
take-drop (suc n) (c ∷ s) = ap (◌∷◌ c) (take-drop n s)

drop-length : (pre suf : Text) → drop (length pre) (pre ++ suf) ≡ suf
drop-length [] suf = refl
drop-length (c ∷ pre) suf = drop-length pre suf

minus-length : (pre suf : Text) → length (pre ++ suf) - length suf ≡ length pre
minus-length pre suf = omega (arith, length-append pre suf)

has_suffix-split : (s suf : Text) → has_suffix s suf ≡ true → (pre : Text) × (s ≡ pre ++ suf)
unfolding has_suffix
has_suffix-split s suf h =
    let last : drop (length s - length suf) s ≡ suf =
      ground (arith, h, text_eq_iff (drop (length s - length suf) s) suf) in
    (
      take (length s - length suf) s,
      sym (take-drop (length s - length suf) s)
          ∙ ap (λ (t : Text). take (length s - length suf) s ++ t) last,
    )

has_suffix-append : (pre suf : Text) → has_suffix (pre ++ suf) suf ≡ true
unfolding has_suffix
has_suffix-append pre suf =
    rw (minus-length pre suf, drop-length pre suf)
      (ground (arith, text_eq_refl suf, length-append pre suf))

has_suffix_trans :
    (x y z : Text) → has_suffix x y ≡ true → has_suffix y z ≡ true → has_suffix x z ≡ true
has_suffix_trans x y z h k =
    let (p, e) = has_suffix-split x y h in
    let (q, f) = has_suffix-split y z k in
    subst (λ (t : Text). has_suffix t z ≡ true)
      (append_assoc p q z ∙ (ap (λ (t : Text). p ++ t) (sym f) ∙ sym e))
      (has_suffix-append (p ++ q) z)

has_suffix-cons : (c : ℕ) (x y : Text) → has_suffix x y ≡ true → has_suffix (c ∷ x) y ≡ true
has_suffix-cons c x y h =
    let (p, e) = has_suffix-split x y h in
    subst (λ (t : Text). has_suffix (c ∷ t) y ≡ true) (sym e) (has_suffix-append (c ∷ p) y)

-- A wildcard is "*" and the suffix that the host must have.
wild-split :
    (a : Text) → has_prefix a (codes "*.") ≡ true → (rest : Text) × (a ≡ b'*' ∷ b'.' ∷ rest)
wild-split a h = (has_prefix_iff a (codes "*.")).0 h

covers-wild : (host rest : Text) → covers host (b'*' ∷ b'.' ∷ rest) ≡ has_suffix host (b'.' ∷ rest)
unfolding covers cut_prefix
covers-wild host rest = refl

trim-wild : (rest : Text) → trim_prefix (b'*' ∷ b'.' ∷ rest) (codes "*") ≡ b'.' ∷ rest
unfolding trim_prefix cut_prefix
trim-wild rest = refl

-- The suffix of a wildcard in the two forms that the gateway and the router use.
covers-tail :
    (host a : Text)
    → has_prefix a (codes "*.") ≡ true
    → covers host a ≡ has_suffix host (trim_prefix a (codes "*"))
covers-tail host a h =
    let (rest, e) = wild-split a h in
    subst (λ (t : Text). covers host t ≡ has_suffix host (trim_prefix t (codes "*"))) (sym e)
      (covers-wild host rest ∙ ap (has_suffix host) (sym (trim-wild rest)))

wild-cons : (a : Text) → has_prefix a (codes "*.") ≡ true → a ≡ b'*' ∷ trim_prefix a (codes "*")
wild-cons a h =
    let (rest, e) = wild-split a h in
    subst (λ (t : Text). t ≡ b'*' ∷ trim_prefix t (codes "*")) (sym e)
      (ap (◌∷◌ b'*') (sym (trim-wild rest)))

-- A name that is no wildcard answers for itself only.
exact-covers : (host a : Text) → has_prefix a (codes "*.") ≡ false → covers host a ≡ false
unfolding covers cut_prefix has_prefix
exact-covers host [] h = refl
exact-covers host (c ∷ []) h = ground arith
exact-covers host (c ∷ d ∷ a) h = ground arith

exact-Serves : (host a : Text) → has_prefix a (codes "*.") ≡ false → Serves host a → a ≡ host
exact-Serves host a w (inl e) = e
exact-Serves host a w (inr c) = absurd (cc (c, exact-covers host a w))

-- A host that ends in the wildcard's suffix is served by it.
tail-Serves :
    (host a : Text)
    → has_prefix a (codes "*.") ≡ true
    → has_suffix host (trim_prefix a (codes "*")) ≡ true
    → Serves host a
tail-Serves host a w h = inr (covers-tail host a w ∙ h)

-- What the narrower of two wildcards serves, the wider one serves.
wider-Serves :
    (host a b : Text)
    → has_prefix a (codes "*.") ≡ true
    → has_prefix b (codes "*.") ≡ true
    → has_suffix (trim_prefix a (codes "*")) (trim_prefix b (codes "*")) ≡ true
    → Serves host a
    → Serves host b
wider-Serves host a b wa wb h (inl e) = tail-Serves host b wb (
    subst (λ (t : Text). has_suffix t (trim_prefix b (codes "*")) ≡ true) (sym (wild-cons a wa) ∙ e)
      (has_suffix-cons b'*' (trim_prefix a (codes "*")) (trim_prefix b (codes "*")) h))
wider-Serves host a b wa wb h (inr c) = tail-Serves host b wb (
    has_suffix_trans host (trim_prefix a (codes "*")) (trim_prefix b (codes "*"))
      (sym (covers-tail host a wa) ∙ c) h)

intersect_lower-cases :
    (a b : Text) {h : Text}
    → intersect_lower a b ≡ some h
    → let wa = has_prefix a (codes "*.") in
      let wb = has_prefix b (codes "*.") in
      let ta = trim_prefix a (codes "*") in
      let tb = trim_prefix b (codes "*") in
      ((a ≡ b) × (a ≡ h))
      ⊎ (((wa ≡ true) × (wb ≡ false) × (has_suffix b ta ≡ true) × (b ≡ h))
          ⊎ (((wa ≡ false) × (wb ≡ true) × (has_suffix a tb ≡ true) × (a ≡ h))
              ⊎ (((wa ≡ true) × (wb ≡ true) × (has_suffix ta tb ≡ true) × (a ≡ h))
                  ⊎ ((wa ≡ true) × (wb ≡ true) × (has_suffix tb ta ≡ true) × (b ≡ h)))))
unfolding intersect_lower
intersect_lower-cases a b e = ground (arith, text_eq_iff a b)

intersect_lower-Serves :
    (host a b h : Text)
    → intersect_lower a b ≡ some h
    → Serves host h
    → Serves host a × Serves host b
intersect_lower-Serves host a b h e s = elim (intersect_lower-cases a b e) [
  | inl (same, is_a) ↦
      let sa = subst (Serves host) (sym is_a) s in (sa, subst (Serves host) same sa)
  | inr (inl (wa, wb, suffix, is_b)) ↦
      let sb = subst (Serves host) (sym is_b) s in
      (
        tail-Serves host a wa (
            subst (λ (t : Text). has_suffix t (trim_prefix a (codes "*")) ≡ true)
              (exact-Serves host b wb sb) suffix),
        sb,
      )
  | inr (inr (inl (wa, wb, suffix, is_a))) ↦
      let sa = subst (Serves host) (sym is_a) s in
      (
        sa,
        tail-Serves host b wb (
            subst (λ (t : Text). has_suffix t (trim_prefix b (codes "*")) ≡ true)
              (exact-Serves host a wa sa) suffix),
      )
  | inr (inr (inr (inl (wa, wb, suffix, is_a)))) ↦
      let sa = subst (Serves host) (sym is_a) s in (sa, wider-Serves host a b wa wb suffix sa)
  | inr (inr (inr (inr (wa, wb, suffix, is_b)))) ↦
      let sb = subst (Serves host) (sym is_b) s in (wider-Serves host b a wb wa suffix sb, sb)
]

-- The name that intersectHostname picks serves no host that either of the two names, in lower case, does not
-- serve at the router.
pub intersect_hostname-Serves :
    (host a b h : Text)
    → intersect_hostname a b ≡ some h
    → Serves host h
    → Serves host (to_lower a) × Serves host (to_lower b)
unfolding intersect_hostname
intersect_hostname-Serves host a b h e s =
    intersect_lower-Serves host (to_lower a) (to_lower b) h e s
