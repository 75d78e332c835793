-- ===== src/Proxy/Replies.antt =====
-- What a caller of proxy/proxy.go gets, with the errors of the reverse proxies that New builds.
use tsjwt.Claims.{Claims}
use tsjwt.Routing.{Route, Request}
use tsjwt.Proxy.{
  Headers, Proxy, Outcome, answered, forwarded, dropped, admitted, refuse_status, forward,
}
use tsjwt.Errors.{
  Error, no_identity, no_tenant, invalid_token, no_key, malformed, algorithm, signature,
  key_mismatch, no_current, conflict, not_exist, cancelled, other, Result, err, ok,
}
use tsjwt.Prelude.{
  Text, ℕ, ◌≡◌, refl, sym, ap, subst, ◌≢◌, ◌↔◌, ◌⊎◌, inl, inr, true, false, Option, none, some,
  arith,
}
use tsjwt.Proxy.Stripping.{forwarded-injective}

-- What the caller gets: a status of the proxy's own, what the upstream answered, or nothing.
pub data Reply (A : Type 0) : Type 0 where
  own : ℕ → Reply A
  relayed : A → Reply A
  silent : Reply A

-- The end of a request. `round_trip` is what the reverse proxy of an upstream gets for a request with these
-- headers, or `none` where it fails, which its ErrorHandler answers.
pub respond : {A : Type 0} → (Option Text → Headers → Option A) → Outcome → Reply A
respond round_trip (answered status) = own status
respond round_trip (forwarded upstream hs) = elim (round_trip upstream hs) [
  | none ↦ own 502
  | some a ↦ relayed a
]
respond round_trip dropped = silent

own-injective : {A : Type 0} {a b : ℕ} → ◌≡◌ {A = Reply A} (own a) (own b) → a ≡ b
own-injective e = ground arith

-- The status that an error of Mint stands for.
abbrev pub IsRefusal : Error → ℕ → Type 0
IsRefusal e status =
    ((e ≡ no_identity) × (status ≡ 401))
    ⊎ ((e ≡ no_tenant) × (status ≡ 403))
    ⊎ ((e ≢ no_identity) × (e ≢ no_tenant) × (status ≡ 500))

pub refuse_status-IsRefusal : (e : Error) → IsRefusal e (refuse_status e)
unfolding refuse_status
refuse_status-IsRefusal no_identity = inl (refl, refl)
refuse_status-IsRefusal no_tenant = inr (inl (refl, refl))
refuse_status-IsRefusal invalid_token = inr (inr ((λ h. cc h), (λ h. cc h), refl))
refuse_status-IsRefusal no_key = inr (inr ((λ h. cc h), (λ h. cc h), refl))
refuse_status-IsRefusal malformed = inr (inr ((λ h. cc h), (λ h. cc h), refl))
refuse_status-IsRefusal algorithm = inr (inr ((λ h. cc h), (λ h. cc h), refl))
refuse_status-IsRefusal signature = inr (inr ((λ h. cc h), (λ h. cc h), refl))
refuse_status-IsRefusal key_mismatch = inr (inr ((λ h. cc h), (λ h. cc h), refl))
refuse_status-IsRefusal no_current = inr (inr ((λ h. cc h), (λ h. cc h), refl))
refuse_status-IsRefusal conflict = inr (inr ((λ h. cc h), (λ h. cc h), refl))
refuse_status-IsRefusal not_exist = inr (inr ((λ h. cc h), (λ h. cc h), refl))
refuse_status-IsRefusal cancelled = inr (inr ((λ h. cc h), (λ h. cc h), refl))
refuse_status-IsRefusal other = inr (inr ((λ h. cc h), (λ h. cc h), refl))

pub IsRefusal-refuse_status :
    (e : Error) (status : ℕ) → IsRefusal e status → status ≡ refuse_status e
IsRefusal-refuse_status e status r = elim (refuse_status-IsRefusal e) [
  | inl a ↦ ground (arith, r, a)
  | inr (inl a) ↦ ground (arith, r, a)
  | inr (inr a) ↦ ground (arith, r, a)
]

pub err-injective : {x y : Error} → ◌≡◌ {A = Result (Text × Claims)} (err x) (err y) → x ≡ y
err-injective h = ground arith

pub admitted-differs : ¬ (admitted true ≡ admitted false)
admitted-differs e = ground arith

pub answered-injective : {a b : ℕ} → answered a ≡ answered b → a ≡ b
answered-injective e = ground arith

pub refused_again :
    (p : Proxy) (req : Request) (route : Route) (sent : Headers) (r : Result (Text × Claims))
    (status : ℕ)
    → (forward p route sent r ≡ answered status) ↔ ((e : Error) × (r ≡ err e) × IsRefusal e status)
unfolding forward
refused_again p req route sent (ok t) status = (λ h. absurd (cc h), λ h. absurd (cc h.1))
refused_again p req route sent (err e) status = (
  λ h. (e, refl, subst (IsRefusal e) (answered-injective h) (refuse_status-IsRefusal e)),
  λ (x, same, r).
      let now_e : IsRefusal e status =
        subst (λ (y : Error). IsRefusal y status) (err-injective (sym same)) r in
      ap answered (sym (IsRefusal-refuse_status e status now_e)),
)

pub replied :
    {A : Type 0} (round_trip : Option Text → Headers → Option A) (o : Outcome) (status : ℕ)
    → (respond round_trip o ≡ own status) ↔ (
        (o ≡ answered status)
        ⊎ ((upstream : Option Text) × (hs : Headers) × (o ≡ forwarded upstream hs)
            × (round_trip upstream hs ≡ none)
            × (status ≡ 502)))
unfolding respond
replied round_trip (answered s) status = (
  λ h. inl (ap answered (own-injective h)),
  λ h. elim h [ inl same ↦ ap own (answered-injective same) | inr c ↦ absurd (cc c.2) ],
)
replied round_trip dropped status =
    (λ h. absurd (cc h), λ h. elim h [ inl same ↦ absurd (cc same) | inr c ↦ absurd (cc c.2) ])
replied {A} round_trip (forwarded u hs) status = tried (round_trip u hs) refl
  where
    tried :
        (o : Option A)
        → round_trip u hs ≡ o
        → ((elim o [ none ↦ own 502 | some a ↦ relayed a ]) ≡ own status) ↔ (
            (forwarded u hs ≡ answered status)
            ⊎ ((upstream : Option Text) × (ks : Headers) × (forwarded u hs ≡ forwarded upstream ks)
                × (round_trip upstream ks ≡ none)
                × (status ≡ 502)))
    tried none e = (
      λ h. inr (u, hs, refl, e, sym (own-injective h)),
      λ h. elim h [
        | inl same ↦ absurd (cc same)
        | inr (v, ks, sent, failed, bad) ↦ ap own (sym bad)
      ],
    )
    tried (some a) e = (
      λ h. absurd (cc h),
      λ h. elim h [
        | inl same ↦ absurd (cc same)
        | inr (v, ks, sent, failed, bad) ↦
            let (up, sent_hs) = forwarded-injective sent in absurd (cc (e, failed, up, sent_hs))
      ],
    )
