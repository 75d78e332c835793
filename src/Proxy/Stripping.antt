-- ===== src/Proxy/Stripping.antt =====
-- What a proxy that New of proxy/proxy.go returns removes from a request and sets on it.
use tsjwt.Proxy.Claimed.{headed, claim_value-In}
use tsjwt.Claims.{Claims}
use tsjwt.Routing.{Route}
use tsjwt.Proxy.{
  Headers, del_header, set_header, Config, Proxy, claim_header_names, choose_router, new, del_all,
  claim_value, set_claims, forwarded, carried,
}
use tsjwt.Errors.{other, ok, guard, >>=-eq-ok, ok-injective}
use tsjwt.Prelude.{
  if◌then◌else◌, Bool-cases, All, In, Text, text_eq_iff, text_eq, equal_fold, Dict, ◌≡◌, sym, ap,
  subst, ◌≢◌, ◌⊎◌, inl, inr, false, Option, List, [], ◌∷◌, ◌++◌, map, arith, codes, refl, Bool,
  true,
}

-- Only a caller sets the header: it is not the assertion's, and no route of the proxy names it for a claim.
pub record IsKept (p : Proxy) (name : Text) : Type 0 where
  pub not_assertion : equal_fold name p.header ≡ false
  pub not_claim :
      (route : Route) (header claim : Text)
      → In route p.routes
      → In (header, claim) route.claim_headers
      → equal_fold name header ≡ false

In-append-left : (t : Text) (a b : List Text) → In t a → In t (a ++ b)
In-append-left t [] b i = absurd i
In-append-left t (x ∷ a) b (inl e) = inl e
In-append-left t (x ∷ a) b (inr i) = inr (In-append-left t a b i)

In-append-right : (t : Text) (a b : List Text) → In t b → In t (a ++ b)
In-append-right t [] b i = i
In-append-right t (x ∷ a) b i = inr (In-append-right t a b i)

In-names :
    (header claim : Text) (d : Dict Text)
    → In (header, claim) d
    → In header (map (λ (p : Text × Text). p.0) d)
In-names header claim [] i = absurd i
In-names header claim (p ∷ d) (inl e) = inl (ap (λ (q : Text × Text). q.0) e)
In-names header claim (p ∷ d) (inr i) = inr (In-names header claim d i)

-- The name of a claim header of any of the routes is in the list that the proxy removes.
In-claim_header_names :
    (rs : List Route) (route : Route) (header claim : Text)
    → In route rs
    → In (header, claim) route.claim_headers
    → In header (claim_header_names rs)
unfolding claim_header_names
In-claim_header_names [] route header claim j i = absurd j
In-claim_header_names (r ∷ rs) route header claim (inl e) i =
    In-append-left header _ (claim_header_names rs) (
      subst (λ (q : Route). In header (map (λ (p : Text × Text). p.0) q.claim_headers)) (sym e)
        (In-names header claim route.claim_headers i))
In-claim_header_names (r ∷ rs) route header claim (inr j) i =
    In-append-right header _ (claim_header_names rs)
      (In-claim_header_names rs route header claim j i)

pub All-In : (P : Text → Type 0) (ns : List Text) (n : Text) → All P ns → In n ns → P n
All-In P [] n all i = absurd i
All-In P (m ∷ ns) n (here, later) (inl e) = subst P e here
All-In P (m ∷ ns) n (here, later) (inr i) = All-In P ns n later i

-- The value of the assertion's header: the token, after "Bearer " where that is configured.
abbrev pub IsCarried : Bool → Text → Text → Type 0
IsCarried true token v = v ≡ codes "Bearer " ++ token
IsCarried false token v = v ≡ token

pub carried-IsCarried :
    (bearer : Bool) (token : Text) → IsCarried bearer token (carried bearer token)
carried-IsCarried true token = refl
carried-IsCarried false token = refl

-- A header of a forwarded request is one of the caller's that only a caller sets, or the assertion, or a
-- claim of the minted token that the route asks for.
abbrev pub Comes : Proxy → Route → Text → Claims → Headers → Text → Text → Type 0
Comes p route token claims sent n v =
    (In (n, v) sent × IsKept p n)
    ⊎ (((n ≡ p.header) × IsCarried p.bearer token v)
        ⊎ ((claim : Text) × In (n, claim) route.claim_headers × In (claim, v) (headed claims)))

kept-head :
    (name m w : Text) (hs : Headers) (n v : Text)
    → equal_fold m name ≡ false
    → (In (n, v) (del_header name hs) → In (n, v) hs × (equal_fold n name ≡ false))
    → In (n, v) ((m, w) ∷ del_header name hs)
    → In (n, v) ((m, w) ∷ hs) × (equal_fold n name ≡ false)
kept-head name m w hs n v miss later (inl e) =
    (inl e, subst (λ (p : Text × Text). equal_fold p.0 name ≡ false) e miss)
kept-head name m w hs n v miss later (inr k) = let (i, f) = later k in (inr i, f)

pub In-del_header :
    (name : Text) (hs : Headers) (n v : Text)
    → In (n, v) (del_header name hs)
    → In (n, v) hs × (equal_fold n name ≡ false)
unfolding del_header
In-del_header name [] n v h = absurd h
In-del_header name ((m, w) ∷ hs) n v h = elim (Bool-cases (equal_fold m name)) [
  | inl hit ↦ let (i, k) = In-del_header name hs n v (rw hit at h) in (inr i, k)
  | inr miss ↦ kept-head name m w hs n v miss (In-del_header name hs n v) (rw miss at h)
]

pub In-set_header :
    (name value : Text) (hs : Headers) (n v : Text)
    → In (n, v) (set_header name value hs)
    → ((n ≡ name) × (v ≡ value)) ⊎ In (n, v) hs
unfolding set_header
In-set_header name value hs n v (inl e) = inl (sym (ap (λ p. p.0) e), sym (ap (λ p. p.1) e))
In-set_header name value hs n v (inr h) = inr (In-del_header name hs n v h).0

pub In-del_all :
    (ns : List Text) (hs : Headers) (n v : Text)
    → In (n, v) (del_all ns hs)
    → In (n, v) hs × All (λ (s : Text). equal_fold n s ≡ false) ns
unfolding del_all
In-del_all [] hs n v h = (h, tt)
In-del_all (m ∷ ns) hs n v h =
    let (i, later) = In-del_all ns (del_header m hs) n v h in
    let (j, here) = In-del_header m hs n v i in (j, (here, later))

pub In-set_claims :
    (c : Claims) (wanted : Dict Text) (hs : Headers) (n v : Text)
    → In (n, v) (set_claims c wanted hs)
    → In (n, v) hs ⊎ ((claim : Text) × In (n, claim) wanted × In (claim, v) (headed c))
unfolding set_claims
In-set_claims c [] hs n v h = inl h
In-set_claims c ((header, claim) ∷ rest) hs n v h =
    elim (In-set_claims c rest
      (if text_eq (claim_value c claim) [] then hs else set_header header (claim_value c claim) hs)
      n v h) [
        | inr (other_claim, i, e) ↦ inr (other_claim, inr i, e)
        | inl before ↦ elim (Bool-cases (text_eq (claim_value c claim) [])) [
          | inl empty ↦ inl (rw empty at before)
          | inr full ↦
              elim (In-set_header header (claim_value c claim) hs n v (rw full at before)) [
                | inl (e, f) ↦ inr (
                  claim,
                  inl (ap (λ (x : Text). (x, claim)) (sym e)),
                  subst (λ (x : Text). In (claim, x) (headed c)) (sym f)
                      (claim_value-In c claim
                        (λ z. cc (full, (text_eq_iff (claim_value c claim) []).1 z))),
                )
                | inr i ↦ inl i
              ]
        ]
      ]

pub forwarded-injective :
    {u w : Option Text} {hs ks : Headers} → forwarded u hs ≡ forwarded w ks → (u ≡ w) × (hs ≡ ks)
forwarded-injective e = ground arith

-- A proxy that New returns has a header, an empty one being the default, and removes each claim header.
pub record IsMade (p : Proxy) : Type 0 where
  pub named : p.header ≢ []
  pub strips :
      (route : Route) (header claim : Text)
      → In route p.routes
      → In (header, claim) route.claim_headers
      → In header p.stripped

pub new-IsMade : (cfg : Config) (p : Proxy) → new cfg ≡ ok p → IsMade p
unfolding new text_eq
new-IsMade cfg p e =
    let (_, _, e1) = >>=-eq-ok (guard cfg.has_signer other) _ e in
    let (routes, _, e2) = >>=-eq-ok (choose_router cfg) _ e1 in
    subst IsMade (ok-injective e2) (record {
      named = ground (arith, text_eq_iff cfg.header []);
      strips = In-claim_header_names routes;
    })
