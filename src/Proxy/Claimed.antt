-- ===== src/Proxy/Claimed.antt =====
-- The claims that claimValue of proxy/proxy.go gives.
use tsjwt.Claims.{Claims}
use tsjwt.Proxy.{claim_value}
use tsjwt.Prelude.{
  if◌then◌else◌, In, Text, codes, text_eq_iff, text_eq, join, Dict, ◌≡◌, refl, sym, ap, ◌≢◌, inl,
  inr, Bool, true, false, ◌||◌, [], ◌∷◌, ◌∙◌, subst,
}

-- The claims that a header may carry, by the name that a route gives them; a list is joined with commas.
abbrev pub headed : Claims → Dict Text
headed c =
    (codes "sub", c.subject)
    ∷ (codes "subject", c.subject)
    ∷ (codes "email", c.email)
    ∷ (codes "name", c.display_name)
    ∷ (codes "node", c.node)
    ∷ (codes "tenant", c.tenant)
    ∷ (codes "roles", join c.roles (codes ","))
    ∷ (codes "groups", join c.groups (codes ","))
    ∷ (codes "tenants", join c.tenants (codes ","))
    ∷ []

-- The first value under a name, and the empty text where there is none.
choice : Text → Dict Text → Text
choice name [] = []
choice name ((k, v) ∷ d) = if text_eq name k then v else choice name d

In-choice : (name : Text) (d : Dict Text) → choice name d ≢ [] → In (name, choice name d) d
unfolding choice
In-choice name [] filled = absurd (filled refl)
In-choice name ((k, v) ∷ d) filled = by_test (text_eq name k) refl (In-choice name d) filled
  where
    by_test :
        (b : Bool)
        → text_eq name k ≡ b
        → (choice name d ≢ [] → In (name, choice name d) d)
        → (if b then v else choice name d) ≢ []
        → In (name, if b then v else choice name d) ((k, v) ∷ d)
    by_test true same later full =
        inl (ap (λ (t : Text). (t, v)) (sym ((text_eq_iff name k).0 same)))
    by_test false differs later full = inr (later full)

either_name :
    (a b : Bool) (v rest : Text)
    → (if a || b then v else rest) ≡ (if a then v else if b then v else rest)
either_name true b v rest = refl
either_name false b v rest = refl

claim_value-choice : (c : Claims) (name : Text) → claim_value c name ≡ choice name (headed c)
unfolding claim_value choice
claim_value-choice c name =
    either_name (text_eq name (codes "sub")) (text_eq name (codes "subject")) c.subject _

-- A claim that is not empty is the one of its name.
pub claim_value-In :
    (c : Claims) (name : Text) → claim_value c name ≢ [] → In (name, claim_value c name) (headed c)
claim_value-In c name filled =
    let same = claim_value-choice c name in
    subst (λ (t : Text). In (name, t) (headed c)) (sym same)
      (In-choice name (headed c) (λ e. filled (same ∙ e)))
