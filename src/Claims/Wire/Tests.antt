-- ===== src/Claims/Wire/Tests.antt =====
-- Runs of MarshalJSON and UnmarshalJSON of claims.go, and the theorem at a sample.
use tsjwt.Prelude.{
  In, codes, text_eq, text_lt, to_lower, equal_fold, pos, Dict, insert, has, ◌≡◌, refl, ◌↔◌, Bool,
  true, false, [], ◌∷◌, ℤ, inl, inr, some,
}
use tsjwt.Errors.{other, Result, err, ok, ◌>>=◌}
use tsjwt.Claims.Wire.{marshal, unmarshal}
use tsjwt.Claims.{Json, str, num, list, Claims, no_claims}
use tsjwt.Prelude.Sort.{sort}
use tsjwt.Claims.Wire.Protects.{marshal-Protects}

abbrev claims : Claims
claims = record no_claims {
  issuer = codes "s";
  subject = codes "u";
  expiry = pos 9;
  roles = codes "admin" ∷ [];
  extra = (codes "plan", str (codes "pro")) ∷ [];
}

abbrev object : Dict Json
object =
    (codes "aud", str [])
    ∷ (codes "exp", num (pos 9))
    ∷ (codes "iat", num (pos 0))
    ∷ (codes "iss", str (codes "s"))
    ∷ (codes "jti", str [])
    ∷ (codes "nbf", num (pos 0))
    ∷ (codes "plan", str (codes "pro"))
    ∷ (codes "roles", list (codes "admin" ∷ []))
    ∷ (codes "sub", str (codes "u"))
    ∷ []

-- Every number of the tests is one that a float64 holds.
abbrev exact : ℤ → ℤ
exact n = n

marshalled : marshal exact claims ≡ ok object
unfolding marshal has text_eq insert sort text_lt
marshalled = refl

round_trip : unmarshal exact object ≡ ok claims
unfolding unmarshal has text_eq insert equal_fold to_lower
round_trip = refl

-- An extra claim may not have a reserved name.
refused :
    marshal exact (record claims { extra = (codes "email", str (codes "x")) ∷ [] }) ≡ err other
unfolding marshal has text_eq insert
refused = refl

is_ok_and {ℓ} : {A : Type ℓ} → (A → Bool) → Result A → Bool
is_ok_and test (err e) = false
is_ok_and test (ok a) = test a

-- But it may have one in another case, and then reads back as the omitted claim.
shadowed :
    is_ok_and
      (λ (c : Claims). text_eq c.email (codes "x"))
      (marshal exact (record claims { extra = (codes "Email", str (codes "x")) ∷ [] })
        >>= unmarshal exact)
    ≡ true
unfolding is_ok_and marshal unmarshal has text_eq insert sort text_lt equal_fold to_lower
shadowed = refl

marshal-Protects_example :
    In (codes "roles", list (codes "viewer" ∷ [])) object
    ↔ (some (list (codes "admin" ∷ [])) ≡ some (list (codes "viewer" ∷ [])))
marshal-Protects_example =
    marshal-Protects exact claims object (codes "roles") (some (list (codes "admin" ∷ [])))
      (list (codes "viewer" ∷ [])) refl refl refl marshalled
      (inr (inr (inr (inr (inr (inr (inr (inr (inr (inr (inr (inr (inl refl)))))))))))))
