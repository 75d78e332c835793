-- ===== src/Gateway/Status/Concerns.antt =====
-- Which errors of Translate concern a route, by its name: routeAcceptedCondition of gateway/routes.go.
use tsjwt.Prelude.{
  Bool-cases, All, Text, text_eq_iff, text_eq, has_prefix, contains_char, decimal, ℕ, ◌≡◌, refl,
  ◌↔◌, inl, inr, true, false, none, List, [], ◌∷◌, ◌++◌, arith,
}
use tsjwt.Gateway.{HttpRoute}
use tsjwt.Gateway.Rules.{Reason, RouteError, route_key, rule_name}
use tsjwt.Gateway.Status.{concerns, first_error}

-- Kubernetes names have no "#".
abbrev pub HasNoHash : Text → Type 0
HasNoHash t = contains_char t b'#' ≡ false

has_prefix-hash :
    (k j rest : Text)
    → HasNoHash k
    → HasNoHash j
    → (has_prefix (k ++ (b'#' ∷ rest)) (j ++ (b'#' ∷ [])) ≡ true) ↔ (k ≡ j)
unfolding contains_char has_prefix
has_prefix-hash [] [] rest h g = (λ e. refl, λ e. refl)
has_prefix-hash [] (d ∷ j) rest h g = (λ e. ground arith, λ e. cc e)
has_prefix-hash (c ∷ k) [] rest h g = (λ e. ground arith, λ e. cc e)
has_prefix-hash (c ∷ k) (d ∷ j) rest h g = ground (arith, has_prefix-hash k j rest)

has_prefix-none : (k j : Text) → HasNoHash k → has_prefix k (j ++ (b'#' ∷ [])) ≡ false
unfolding contains_char has_prefix
has_prefix-none [] [] h = refl
has_prefix-none [] (d ∷ j) h = refl
has_prefix-none (c ∷ k) [] h = ground arith
has_prefix-none (c ∷ k) (d ∷ j) h = ground (arith, has_prefix-none k j)

hash-ne : (k j rest : Text) → HasNoHash j → text_eq (k ++ (b'#' ∷ rest)) j ≡ false
unfolding contains_char text_eq
hash-ne [] [] rest h = refl
hash-ne [] (d ∷ j) rest h = ground arith
hash-ne (c ∷ k) [] rest h = refl
hash-ne (c ∷ k) (d ∷ j) rest h = ground (arith, hash-ne k j rest)

-- Which errors of a route concern which route.
pub concerns_route_iff :
    (r s : HttpRoute) (why : Reason)
    → HasNoHash (route_key r)
    → (concerns s (record { route = route_key r; reason = why }) ≡ true)
      ↔ (route_key r ≡ route_key s)
concerns_route_iff r s why h =
    rw (has_prefix-none (route_key r) (route_key s) h)
      (ground (arith, text_eq_iff (route_key r) (route_key s)))

pub concerns_rule_iff :
    (r s : HttpRoute) (i : ℕ) (why : Reason)
    → HasNoHash (route_key r)
    → HasNoHash (route_key s)
    → (concerns s (record { route = rule_name r i; reason = why }) ≡ true)
      ↔ (route_key r ≡ route_key s)
concerns_rule_iff r s i why h g =
    rw (hash-ne (route_key r) (route_key s) (decimal i) g)
      (has_prefix-hash (route_key r) (route_key s) (decimal i) h g)

unfoldable pub NoneConcerns : HttpRoute → List RouteError → Type 0
NoneConcerns s es = All (λ (e : RouteError). concerns s e ≡ false) es

pub first_error-none :
    (s : HttpRoute) (es : List RouteError) → (first_error s es ≡ none) ↔ NoneConcerns s es
unfolding first_error NoneConcerns
first_error-none s [] = (λ h. tt, λ h. refl)
first_error-none s (e ∷ es) = elim (Bool-cases (concerns s e)) [
  | inl hit ↦ rw hit (λ h. cc h, λ h. cc (h.0))
  | inr miss ↦ let rest = first_error-none s es in rw miss (λ h. (refl, rest.0 h), λ h. rest.1 h.1)
]
