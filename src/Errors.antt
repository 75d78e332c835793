-- ===== src/Errors.antt =====
-- The errors that the packages return, by the sentinel that they wrap (identity.go, jwt/jwt.go,
-- keys/keys.go, keys/shared.go); `other` wraps none. The text of a message only reaches the log and
-- is not modelled, so `errors.Is` is the comparison of two constructors.
use tsjwt.Prelude.{◌≡◌, refl, ◌⊎◌, inl, inr, Bool, true, false, Option, none, some, ◌↔◌}

pub data Error : Type 0 where
  no_identity no_tenant invalid_token no_key : Error
  malformed algorithm signature key_mismatch : Error
  no_current conflict not_exist cancelled other : Error

-- What a Go function with a last result `error` returns.
pub data Result {ℓ} (A : Type ℓ) : Type ℓ where
  err : Error → Result A
  ok : A → Result A

abbrev pub is_ok {ℓ} : {A : Type ℓ} → Result A → Bool
is_ok (err e) = false
is_ok (ok a) = true

-- An early `return err` under a test.
abbrev pub guard : Bool → Error → Result (Unit {0})
guard false e = err e
guard true e = ok tt

-- `if err != nil { return err }` between two calls.
infixl 5 ◌>>=◌ ◌>>◌
abbrev pub ◌>>=◌ {ℓ κ} : {B : Type ℓ} {C : Type κ} → Result B → (B → Result C) → Result C
err e >>= next = err e
ok b >>= next = next b

abbrev pub ◌>>◌ {κ} : {C : Type κ} → Result (Unit {0}) → Result C → Result C
first >> second = first >>= λ done. second

-- A value, or the error for its absence.
abbrev pub or_fail {ℓ} : {A : Type ℓ} → Option A → Error → Result A
or_fail none e = err e
or_fail (some a) e = ok a

pub >>=-eq-ok {ℓ κ} :
    {B : Type ℓ} {C : Type κ} (r : Result B) (next : B → Result C) {c : C}
    → (r >>= next) ≡ ok c
    → (b : B) × (r ≡ ok b) × (next b ≡ ok c)
>>=-eq-ok (err e) next h = cc
>>=-eq-ok (ok b) next h = (b, refl, h)

pub Result-cases {ℓ} :
    {A : Type ℓ} (r : Result A) → ((a : A) × (r ≡ ok a)) ⊎ ((e : Error) × (r ≡ err e))
Result-cases (ok a) = inl (a, refl)
Result-cases (err e) = inr (e, refl)

pub guard-eq-ok : (b : Bool) (e : Error) → guard b e ≡ ok tt → b ≡ true
guard-eq-ok true e h = refl
guard-eq-ok false e h = cc

pub ok-injective {ℓ} : {A : Type ℓ} {a b : A} → ok a ≡ ok b → a ≡ b
ok-injective e = cc

-- A guard and the rest of the block.
pub guard-then :
    (b : Bool) (e : Error) (rest : Result (Unit {0}))
    → ((guard b e >> rest) ≡ ok tt) ↔ ((b ≡ true) × (rest ≡ ok tt))
guard-then true e rest = ((λ h. (refl, h)), λ p. p.1)
guard-then false e rest = ((λ h. cc), λ p. cc)

pub guard-only : (b : Bool) (e : Error) → (guard b e ≡ ok tt) ↔ (b ≡ true)
guard-only true e = ((λ h. refl), λ h. refl)
guard-only false e = ((λ h. cc), λ h. cc)
