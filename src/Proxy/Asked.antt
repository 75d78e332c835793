-- ===== src/Proxy/Asked.antt =====
-- The tenant that ServeHTTP of proxy/proxy.go asks Mint for.
use tsjwt.Claims.{Claims}
use tsjwt.Routing.{Route, Request}
use tsjwt.Proxy.{asked_tenant}
use tsjwt.Errors.{Result}
use tsjwt.Prelude.{
  Bool-cases, Text, text_eq_iff, text_eq, ◌≡◌, refl, sym, ◌∙◌, ◌≢◌, ◌⊎◌, inl, inr, Option, none,
  some, [],
}

-- What the configured selector says, which is nothing where there is none.
abbrev pub selected : Option (Request → Text) → Request → Text
selected none req = []
selected (some f) req = f req

-- The tenant that the route pins, or, where it pins none, the one that the selector says.
abbrev pub IsAsked : Option (Request → Text) → Route → Request → Text → Type 0
IsAsked tenant_from route req tenant =
    ((route.tenant ≢ []) × (tenant ≡ route.tenant))
    ⊎ ((route.tenant ≡ []) × (tenant ≡ selected tenant_from req))

module _ (mint mint_again : Text → Text → Text → Result (Text × Claims))
    (tenant_from : Option (Request → Text)) where
  pub asked_tenant-IsAsked :
      (route : Route) (req : Request)
      → IsAsked tenant_from route req (asked_tenant mint mint_again tenant_from route req)
  unfolding asked_tenant
  asked_tenant-IsAsked route req = elim (Bool-cases (text_eq route.tenant [])) [
    | inl free ↦ inr ((text_eq_iff route.tenant []).0 free, rw free (of_selector tenant_from))
    | inr pinned ↦ inl ((λ e. cc (pinned, (text_eq_iff route.tenant []).1 e)), rw pinned refl)
  ]
    where
      of_selector :
          (o : Option (Request → Text)) → (elim o [ none ↦ [] | some f ↦ f req ]) ≡ selected o req
      of_selector none = refl
      of_selector (some f) = refl

  pub IsAsked-asked_tenant :
      (route : Route) (req : Request) (tenant : Text)
      → IsAsked tenant_from route req tenant
      → tenant ≡ asked_tenant mint mint_again tenant_from route req
  IsAsked-asked_tenant route req tenant asked = elim (asked_tenant-IsAsked route req) [
    | inl a ↦ elim asked [ inl b ↦ b.1 ∙ sym a.1 | inr b ↦ absurd (a.0 b.0) ]
    | inr a ↦ elim asked [ inl b ↦ absurd (b.0 a.0) | inr b ↦ b.1 ∙ sym a.1 ]
  ]
