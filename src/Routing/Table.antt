-- ===== src/Routing/Table.antt =====
-- What NewRouter of proxy/router.go makes of a list of routes.
use tsjwt.Prelude.{
  ◌==◌, if◌then◌else◌, ==_iff, Bool-cases, length, All, codes, text_eq, decimal, ℕ, suc, ◌+◌, ◌<◌,
  ◌≡◌, refl, ap, subst, inl, inr, not, List, [], ◌∷◌, ◌++◌, arith,
}
use tsjwt.Errors.{other, ok, guard, >>=-eq-ok, guard-eq-ok, ok-injective}
use tsjwt.Routing.{Route, route_valid, fill_names, routes_valid, new_router}

named-valid :
    (i : ℕ) (r : Route)
    → route_valid r ≡ ok tt
    → route_valid (if text_eq r.name [] then record r { name = codes "route-" ++ decimal i } else r)
      ≡ ok tt
unfolding route_valid
named-valid i r v = elim (Bool-cases (text_eq r.name [])) [
  | inl unnamed ↦ rw unnamed v
  | inr named ↦ rw named v
]

fill_names-All :
    (i : ℕ) (rs : List Route)
    → routes_valid rs ≡ ok tt
    → All (λ (r : Route). route_valid r ≡ ok tt) (fill_names i rs)
unfolding fill_names routes_valid
fill_names-All i [] e = tt
fill_names-All i (r ∷ rs) e =
    let (_, v, w) = >>=-eq-ok (route_valid r) (λ _. routes_valid rs) e in
    (named-valid i r v, fill_names-All (i + 1) rs w)

length-fill_names : (i : ℕ) (rs : List Route) → length (fill_names i rs) ≡ length rs
unfolding fill_names
length-fill_names i [] = refl
length-fill_names i (r ∷ rs) = ap suc (length-fill_names (i + 1) rs)

pub new_router-good :
    (rs routes : List Route)
    → new_router rs ≡ ok routes
    → (0 < length routes) × All (λ (r : Route). route_valid r ≡ ok tt) routes
unfolding new_router
new_router-good rs routes e =
    let (_, some_route, e1) = >>=-eq-ok (guard (not (length rs == 0)) other) _ e in
    let (_, valid, e2) = >>=-eq-ok (routes_valid rs) _ e1 in
    subst (λ (l : List Route). (0 < length l) × All (λ (r : Route). route_valid r ≡ ok tt) l)
      (ok-injective e2)
      (
        rw (length-fill_names 0 rs)
            (ground (arith, guard-eq-ok _ other some_route, ==_iff (length rs) 0)),
        fill_names-All 0 rs valid,
      )
