-- ===== src/Gateway/Provision/Workload/Flags.antt =====
-- When a Gateway gets a StatefulSet, and what its flags agree with: gateway/provision.go.
use tsjwt.Prelude.{
  Bool-cases, some-injective, Text, text_eq_iff, text_eq, pos, ◌≤ℤ◌, ◌<ℤ◌, ◌*◌, ◌≡◌, refl, sym,
  subst, ◌≢◌, ◌↔◌, ◌⊎◌, inl, inr, true, not, ◌||◌, Option, none, some, [], ◌∷◌, arith, codes, has,
  Bool, false, ◌++◌,
}
use tsjwt.Errors.{other, ok, guard-then, guard-only}
use tsjwt.GoTime.{Duration, minute}
use tsjwt.Gateway.{Gateway}
use tsjwt.Gateway.Provision.{Config, hostname_arg}
use tsjwt.Gateway.Provision.Workload.{
  wait_of, is_wait, workload_valid, over_tls, given_if, container_args,
}

is_filled : (t : Text) → (not (text_eq t []) ≡ true) ↔ (t ≢ [])
is_filled [] = (λ h. absurd (unfold text_eq in cc h), λ h. absurd (h refl))
is_filled (c ∷ t) = (λ h e. cc e, λ h. unfold text_eq in refl)

-- The two minutes that a backend may be waited for.
abbrev pub MayWait : Option Duration → Type 0
MayWait o = (d : Duration) × (o ≡ some d) × (pos 0 <ℤ d) × (d ≤ℤ pos (2 * minute))

is_wait_iff : (o : Option Duration) → (is_wait o ≡ true) ↔ MayWait o
is_wait_iff none = (λ h. absurd (cc h), λ p. absurd (cc (p.1)))
is_wait_iff (some d) = (
  λ h. (d, refl, ground arith, ground arith),
  λ p.
      let same : d ≡ p.0 = some-injective p.1 in
      subst (λ (e : Duration). is_wait (some e) ≡ true) (sym same) (within p.0 p.2 p.3),
)
  where
    within : (e : Duration) → pos 0 <ℤ e → e ≤ℤ pos (2 * minute) → is_wait (some e) ≡ true
    within e low high = ground arith

module _ (parse_duration : Text → Option Duration) where
  -- The deployment is named, and a waiting time is a positive duration of at most two minutes.
  abbrev pub IsDeployable : Gateway → Config → Type 0
  IsDeployable gw cfg =
      (cfg.image ≢ [])
      × (cfg.credential_secret ≢ [])
      × (cfg.tag ≢ [])
      × ((wait_of gw ≡ []) ⊎ MayWait (parse_duration (wait_of gw)))

  wait_valid_iff :
      (t : Text)
      → (text_eq t [] || is_wait (parse_duration t) ≡ true)
        ↔ ((t ≡ []) ⊎ MayWait (parse_duration t))
  wait_valid_iff t = elim (Bool-cases (text_eq t [])) [
    | inl empty ↦ rw empty (λ h. inl ((text_eq_iff t []).0 empty), λ h. refl)
    | inr full ↦
        let e = is_wait_iff (parse_duration t) in
        rw full (
          λ h. inr (e.0 h),
          λ h. elim h [
            | inl none_asked ↦ cc (full, (text_eq_iff t []).1 none_asked)
            | inr w ↦ e.1 w
          ],
        )
  ]

  pub workload_valid_iff :
      (gw : Gateway) (cfg : Config)
      → (workload_valid parse_duration gw cfg ≡ ok tt) ↔ IsDeployable gw cfg
  unfolding workload_valid
  workload_valid_iff gw cfg =
      let g1 = guard-then (not (text_eq cfg.image [])) other _ in
      let g2 = guard-then (not (text_eq cfg.credential_secret [])) other _ in
      let g3 = guard-then (not (text_eq cfg.tag [])) other _ in
      let g4 =
        guard-only (text_eq (wait_of gw) [] || is_wait (parse_duration (wait_of gw))) other in
      let w = wait_valid_iff (wait_of gw) in
      (
        λ h.
            let (a, h1) = g1.0 h in
            let (b, h2) = g2.0 h1 in
            let (c, h3) = g3.0 h2 in
            (
              (is_filled cfg.image).0 a,
              (is_filled cfg.credential_secret).0 b,
              (is_filled cfg.tag).0 c,
              w.0 (g4.0 h3),
            ),
        λ p. g1.1 (
          (is_filled cfg.image).1 p.0,
          g2.1 (
            (is_filled cfg.credential_secret).1 p.1,
            g3.1 ((is_filled cfg.tag).1 p.2, g4.1 (w.1 p.3)),
          ),
        ),
      )

abbrev pub tls_flag : Text
tls_flag = codes "-jwks-tls"

-- The one flag for TLS is that of TLS.
pub has-tls_flag :
    (gw : Gateway) (cfg : Config) → has tls_flag (container_args gw cfg) ≡ over_tls gw cfg
unfolding container_args has text_eq hostname_arg
has-tls_flag gw cfg =
    flags (not (text_eq (wait_of gw) [])) (over_tls gw cfg) (not (text_eq cfg.capability []))
      (wait_of gw) cfg.capability
  where
    flags :
        (wait tls cap : Bool) (w c : Text)
        → has tls_flag (
            given_if wait (codes "-backend-wait-timeout=" ++ w)
            ++ (given_if tls (codes "-jwks-tls") ++ given_if cap (codes "-cap=" ++ c)))
          ≡ tls
    flags true true true w c = refl
    flags true true false w c = refl
    flags true false true w c = refl
    flags true false false w c = refl
    flags false true true w c = refl
    flags false true false w c = refl
    flags false false true w c = refl
    flags false false false w c = refl
