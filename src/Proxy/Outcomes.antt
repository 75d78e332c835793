-- ===== src/Proxy/Outcomes.antt =====
-- When ServeHTTP of proxy/proxy.go answers with a status of its own.
use tsjwt.Claims.{Claims}
use tsjwt.Routing.{Route, Request, match_route}
use tsjwt.Proxy.{
  Headers, Proxy, answered, forwarded, Gate, ungated, wait_failed, admitted, asked_tenant,
  pass_gate, serve_route, cleaned, serve,
}
use tsjwt.Errors.{Error, Result, err, ok, ok-injective}
use tsjwt.Prelude.{
  some-injective, Text, ℕ, ◌≡◌, refl, sym, ap, ◌∙◌, subst, ◌↔◌, ◌⊎◌, inl, inr, true, false, Option,
  none, some, [],
}
use tsjwt.Proxy.Replies.{
  own, respond, IsRefusal, refuse_status-IsRefusal, IsRefusal-refuse_status, err-injective,
  admitted-differs, answered-injective, refused_again, replied,
}
use tsjwt.Proxy.Asked.{IsAsked, asked_tenant-IsAsked, IsAsked-asked_tenant}

module _ (mint mint_again : Text → Text → Text → Result (Text × Claims))
    (tenant_from : Option (Request → Text)) where
  -- What the first Mint answers for a route and a tenant.
  abbrev pub first_mint : Request → Route → Text → Result (Text × Claims)
  first_mint req route tenant = mint req.remote_addr route.audience tenant

  -- Why the matched route's request is refused before it is forwarded: by the first Mint, by the gate after
  -- that Mint returned a token, or, after the gate, by the second Mint for the tenant of that token.
  abbrev pub IsRefused : Request → Gate → Route → Text → ℕ → Type 0
  IsRefused req gate route tenant status =
      ((e : Error) × (first_mint req route tenant ≡ err e) × IsRefusal e status)
      ⊎ ((t : Text × Claims) × (first_mint req route tenant ≡ ok t)
          × (gate ≡ wait_failed)
          × (status ≡ 503))
      ⊎ ((t : Text × Claims) × (first_mint req route tenant ≡ ok t)
          × (gate ≡ admitted false)
          × (e : Error) × (mint_again req.remote_addr route.audience t.1.tenant ≡ err e)
          × IsRefusal e status)

  -- Why the proxy does not forward a request.
  abbrev pub IsStopped : Proxy → Request → Gate → ℕ → Type 0
  IsStopped p req gate status =
      ((match_route p.routes (cleaned mint mint_again tenant_from p req) ≡ none) × (status ≡ 404))
      ⊎ ((route : Route) × (match_route p.routes (cleaned mint mint_again tenant_from p req)
            ≡ some route)
          × (tenant : Text) × IsAsked tenant_from route (cleaned mint mint_again tenant_from p req)
              tenant
          × IsRefused req gate route tenant status)

  -- Why the caller gets a status of the proxy's own: the request is stopped, or its reverse proxy fails.
  abbrev pub Because :
      {A : Type 0} → (Option Text → Headers → Option A) → Proxy → Request → Gate → ℕ → Type 0
  Because round_trip p req gate status =
      IsStopped p req gate status
      ⊎ ((upstream : Option Text) × (hs : Headers) × (serve mint mint_again tenant_from p req gate
            ≡ forwarded upstream hs)
          × (round_trip upstream hs ≡ none)
          × (status ≡ 502))

  gate_refuses :
      (p : Proxy) (req : Request) (route : Route) (tenant : Text) (gate : Gate)
      (r : Result (Text × Claims)) (status : ℕ)
      → first_mint req route tenant ≡ r
      → (pass_gate mint mint_again tenant_from p route
            (cleaned mint mint_again tenant_from p req)
            gate
            r
          ≡ answered status)
        ↔ IsRefused req gate route tenant status
  unfolding pass_gate cleaned
  gate_refuses p req route tenant gate (err x) status minted =
      let same = refused_again p req route [] (err x) status in
      (
        λ h.
            inl (x, minted, subst (IsRefusal x) (answered-injective h) (refuse_status-IsRefusal x)),
        λ h. elim h [
          | inl (e, refused, r) ↦ ap answered (
              sym (
                IsRefusal-refuse_status x status (
                  subst (λ (y : Error). IsRefusal y status) (err-injective (sym refused ∙ minted))
                    r)))
          | inr (inl c) ↦ absurd (cc (minted, c.1))
          | inr (inr c) ↦ absurd (cc (minted, c.1))
        ],
      )
  gate_refuses p req route tenant ungated (ok t) status minted = (
    λ h. absurd (cc h),
    λ h. elim h [
      | inl (e, refused, r) ↦ absurd (cc (minted, refused))
      | inr (inl c) ↦ absurd (cc c.2)
      | inr (inr c) ↦ absurd (cc c.2)
    ],
  )
  gate_refuses p req route tenant wait_failed (ok t) status minted = (
    λ h. inr (inl (t, minted, refl, sym (answered-injective h))),
    λ h. elim h [
      | inl (e, refused, r) ↦ absurd (cc (minted, refused))
      | inr (inl (t, given, gated, unavailable)) ↦ ap answered (sym unavailable)
      | inr (inr c) ↦ absurd (cc c.2)
    ],
  )
  gate_refuses p req route tenant (admitted true) (ok t) status minted = (
    λ h. absurd (cc h),
    λ h. elim h [
      | inl (e, refused, r) ↦ absurd (cc (minted, refused))
      | inr (inl c) ↦ absurd (cc c.2)
      | inr (inr c) ↦ absurd (admitted-differs c.2)
    ],
  )
  gate_refuses p req route tenant (admitted false) (ok t) status minted =
      let again =
        refused_again p req route (cleaned mint mint_again tenant_from p req).headers
          (mint_again req.remote_addr route.audience t.1.tenant) status in
      (
        λ h. let (x, refused, why) = again.0 h in inr (inr (t, minted, refl, x, refused, why)),
        λ h. elim h [
          | inl (e, refused, r) ↦ absurd (cc (minted, refused))
          | inr (inl c) ↦ absurd (cc c.2)
          | inr (inr (u, given, gated, x, refused, why)) ↦ again.1 (
              subst
                (λ (x : Text × Claims).
                  (e : Error) × (mint_again req.remote_addr route.audience x.1.tenant ≡ err e)
                  × IsRefusal e status)
                (ok-injective (sym given ∙ minted)) (x, refused, why))
        ],
      )

  route_stops :
      (p : Proxy) (req : Request) (gate : Gate) (o : Option Route) (status : ℕ)
      → match_route p.routes (cleaned mint mint_again tenant_from p req) ≡ o
      → (serve_route mint mint_again tenant_from p
            (cleaned mint mint_again tenant_from p req)
            gate
            o
          ≡ answered status)
        ↔ IsStopped p req gate status
  unfolding serve_route cleaned
  route_stops p req gate none status m = (
    λ h. inl (m, sym (answered-injective h)),
    λ h. elim h [
      | inl (unmatched, missing) ↦ ap answered (sym missing)
      | inr c ↦ absurd (cc (m, c.1))
    ],
  )
  route_stops p req gate (some route) status m =
      let sent = cleaned mint mint_again tenant_from p req in
      let asked = asked_tenant mint mint_again tenant_from route sent in
      let refused = gate_refuses p req route asked gate (first_mint req route asked) status refl in
      (
        λ h. inr (
          route,
          m,
          asked,
          asked_tenant-IsAsked mint mint_again tenant_from route sent,
          refused.0 h,
        ),
        λ h. elim h [
          | inl (missing, unused) ↦ absurd (cc (m, missing))
          | inr (other_route, found, tenant, chosen, why) ↦
              let same = some-injective (sym found ∙ m) in
              let chosen' = subst (λ (x : Route). IsAsked tenant_from x sent tenant) same chosen in
              refused.1 (
                subst (λ (t : Text). IsRefused req gate route t status)
                  (IsAsked-asked_tenant mint mint_again tenant_from route sent tenant chosen')
                  (subst (λ (x : Route). IsRefused req gate x tenant status) same why))
        ],
      )

  serve-stops :
      (p : Proxy) (req : Request) (gate : Gate) (status : ℕ)
      → (serve mint mint_again tenant_from p req gate ≡ answered status)
        ↔ IsStopped p req gate status
  unfolding serve
  serve-stops p req gate status = route_stops p req gate _ status refl

  -- The caller gets a status of the proxy's own exactly for one of these reasons. It is 404 where no route
  -- matches; the refusal of the first Mint for the matched route, whatever the gate would do; 503 where that
  -- Mint returned a token and the gate failed; the refusal of the second Mint, for the tenant of the first
  -- token, where the gate let the request through and its caller is still there; and 502 where the request
  -- was forwarded and its reverse proxy failed. The first Mint is asked for the tenant that the route pins,
  -- or, where it pins none, for the one that the selector says. A refusal is 401 for no identity, 403 for no
  -- tenant, and 500 for every other error.
  pub serve-Because :
      {A : Type 0} (round_trip : Option Text → Headers → Option A) (p : Proxy) (req : Request)
      (gate : Gate) (status : ℕ)
      → (respond round_trip (serve mint mint_again tenant_from p req gate) ≡ own status)
        ↔ Because round_trip p req gate status
  serve-Because round_trip p req gate status =
      let whole = replied round_trip (serve mint mint_again tenant_from p req gate) status in
      let stops = serve-stops p req gate status in
      (
        λ h. elim (whole.0 h) [ inl s ↦ inl (stops.0 s) | inr failed ↦ inr failed ],
        λ h. whole.1 (elim h [ inl s ↦ inl (stops.1 s) | inr failed ↦ inr failed ]),
      )
