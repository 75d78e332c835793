-- ===== src/Proxy/Edits.antt =====
-- What an edit of the table does in proxy/dynamic.go.
use tsjwt.Routing.{Route, route_valid, new_router}
use tsjwt.Routing.Table.{new_router-good}
use tsjwt.Proxy.{Config, Proxy, choose_router, new, set_routes}
use tsjwt.Errors.{Error, Result, err, ok, ◌>>=◌, >>=-eq-ok, ok-injective}
use tsjwt.Prelude.{
  Bool-cases, length, All, ◌<◌, ◌≡◌, refl, ap, ◌∙◌, ◌⊎◌, inl, inr, Option, none, some, List, [],
  ◌∷◌, arith,
}

-- What Set keeps of a stored proxy: its table is not empty and each route is one that Route.Valid accepts.
pub record IsServing (p : Proxy) : Type 0 where
  pub table_ok : 0 < length p.routes
  pub routes_ok : All (λ (r : Route). route_valid r ≡ ok tt) p.routes

abbrev pub TableIsGood : Option Proxy → Type 0
TableIsGood none = Unit {0}
TableIsGood (some p) = IsServing p

-- New keeps the router that it is given.
new-routes :
    (cfg : Config) (routes : List Route) (p : Proxy)
    → new (record cfg { router = some routes; upstream = none }) ≡ ok p
    → routes ≡ p.routes
unfolding new choose_router
new-routes cfg routes p e = elim (Bool-cases cfg.has_signer) [
  | inl on ↦ ap (λ (x : Proxy). x.routes) (ok-injective (rw on at e))
  | inr off ↦ ground (arith, off, e)
]

-- An edit of the table.
abbrev pub Edited : Option Proxy → List Route → Result (Unit {0}) × Option Proxy → Type 0
Edited current rs a =
    ((e : Error) × (a ≡ (err e, current)))
    ⊎ (((rs ≡ []) × (a ≡ (ok tt, none)))
        ⊎ ((p : Proxy) × (new_router rs ≡ ok p.routes) × (a ≡ (ok tt, some p)) × IsServing p))

-- Set either reports an error and leaves the stored table as it was, or empties it for an empty list, or
-- stores the routes that NewRouter made of the list, which are not empty and all valid.
pub set_routes-Edited :
    (cfg : Config) (current : Option Proxy) (rs : List Route)
    → Edited current rs (set_routes cfg current rs)
unfolding set_routes
set_routes-Edited cfg current [] = inr (inl (refl, refl))
set_routes-Edited cfg current (r ∷ rs) =
    stored
      (new_router (r ∷ rs) >>= λ routes. new (record cfg { router = some routes; upstream = none }))
      refl
  where
    stored :
        (a : Result Proxy)
        → (new_router (r ∷ rs) >>= λ routes.
            new (record cfg { router = some routes; upstream = none }))
          ≡ a
        → Edited current (r ∷ rs) (elim a [ err e ↦ (err e, current) | ok p ↦ (ok tt, some p) ])
    stored (err e) h = inl (e, refl)
    stored (ok p) h =
        let (routes, routed, made) = >>=-eq-ok (new_router (r ∷ rs)) _ h in
        let kept = new-routes cfg routes p made in
        let (full, valid) = new_router-good (r ∷ rs) p.routes (routed ∙ ap ok kept) in
        inr (inr (p, routed ∙ ap ok kept, refl, record { table_ok = full; routes_ok = valid }))
