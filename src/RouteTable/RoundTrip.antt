-- ===== src/RouteTable/RoundTrip.antt =====
-- Render and Parse of routetable/routefile.go against each other.
use tsjwt.Prelude.{
  All, Text, text_eq, ℤ, ◌≡◌, refl, subst, ◌≢◌, not, Option, some, List, [], ◌∷◌, text_eq_iff, sym,
  ap, false, arith,
}
use tsjwt.Errors.{other, ok, guard, or_fail, >>=-eq-ok, ok-injective}
use tsjwt.RouteTable.{
  RouteEntry, RouteFile, Url, entry_of, render_entries, render, route_of, parse_entries, parse,
}
use tsjwt.Routing.{Route, route_valid}

module _ (parse_url : Text → Option Url) where
  -- A route that the round trip keeps: Route.Valid accepts it, and its upstream is an absolute URL in the form
  -- that url.Parse and String agree on.
  pub record IsRenderable (r : Route) : Type 0 where
    pub valid : route_valid r ≡ ok tt
    pub upstream : Text
    pub upstream_ok : r.upstream ≡ some upstream
    pub host : Text
    pub host_ok : host ≢ []
    pub read_back : parse_url upstream ≡ some (record { host = host; text = upstream })

  same_route : (r : Route) (u : Text) → r.upstream ≡ some u → r ≡ route_of (entry_of r u) u
  same_route r u e = ap (λ (o : Option Text). record r { upstream = o }) e

  absolute : (host : Text) → host ≢ [] → text_eq host [] ≡ false
  absolute host h = ground (arith, text_eq_iff host [])

  valid_entry :
      (r : Route) (u : Text)
      → r.upstream ≡ some u
      → route_valid r ≡ ok tt
      → route_valid (route_of (entry_of r u) u) ≡ ok tt
  valid_entry r u e v = subst (λ (x : Route). route_valid x ≡ ok tt) (same_route r u e) v

  render_entries-parse_entries :
      (rs : List Route)
      → All IsRenderable rs
      → (es : List RouteEntry) × (render_entries rs ≡ some es)
        × (parse_entries parse_url es ≡ ok rs)
  unfolding render_entries parse_entries
  render_entries-parse_entries [] h = ([], refl, refl)
  render_entries-parse_entries (r ∷ rs) h =
      let (es, rendered, parsed) = render_entries-parse_entries rs h.1 in
      let i = h.0 in
      (
        entry_of r i.upstream ∷ es,
        rw (i.upstream_ok, rendered) refl,
        rw (i.read_back, absolute i.host i.host_ok)
            (rw (valid_entry r i.upstream i.upstream_ok i.valid, parsed)
              (ap (λ (x : Route). ok (x ∷ rs)) (sym (same_route r i.upstream i.upstream_ok)))),
      )

  -- A table of valid routes, each with an absolute upstream that url.Parse reads back, survives the file: Render
  -- gives a file with the gateway and the revision, and Parse reads the same routes from it.
  pub render-parse :
      (gateway : Text) (revision : ℤ) (rs : List Route)
      → All IsRenderable rs
      → (f : RouteFile) × (render gateway revision rs ≡ some f)
        × (f.gateway ≡ gateway)
        × (f.revision ≡ revision)
        × (parse parse_url f ≡ ok rs)
  unfolding render parse
  render-parse gateway revision rs h =
      let (es, rendered, parsed) = render_entries-parse_entries rs h in
      (
        record { revision = revision; gateway = gateway; routes = es },
        rw (rendered, render) refl,
        refl,
        refl,
        parsed,
      )

  -- Every route that Parse returns is one that Route.Valid accepts.
  parse_entries_valid :
      (es : List RouteEntry) (rs : List Route)
      → parse_entries parse_url es ≡ ok rs
      → All (λ (r : Route). route_valid r ≡ ok tt) rs
  unfolding parse_entries
  parse_entries_valid [] rs e =
      subst (All (λ (r : Route). route_valid r ≡ ok tt)) (ok-injective e) tt
  parse_entries_valid (x ∷ es) rs e =
      let (u, _, e1) = >>=-eq-ok (or_fail (parse_url x.upstream) other) _ e in
      let (_, _, e2) = >>=-eq-ok (guard (not (text_eq u.host [])) other) _ e1 in
      let (v, valid, e3) = >>=-eq-ok (route_valid (route_of x u.text)) _ e2 in
      let (rest, parsed, e4) = >>=-eq-ok (parse_entries parse_url es) _ e3 in
      subst (All (λ (r : Route). route_valid r ≡ ok tt)) (ok-injective e4)
        (valid, parse_entries_valid es rest parsed)

  pub parse_valid :
      (f : RouteFile) (rs : List Route)
      → parse parse_url f ≡ ok rs
      → All (λ (r : Route). route_valid r ≡ ok tt) rs
  unfolding parse
  parse_valid f rs e = parse_entries_valid f.routes rs e
