-- ===== src/Gateway/Status/Settles.antt =====
-- A second round over the routes of a Gateway writes no status, gateway/reconcile.go.
use tsjwt.Prelude.{
  ◌==◌, Bool-cases, Text, text_eq_refl, text_eq, ℤ, pos, negsuc, eqb_ℤ, ◌≡◌, refl, inl, inr, true,
  false, Option, some, List, [], ◌∷◌, arith, Option-cases, ap, Bool, codes,
}
use tsjwt.GoTime.{Instant}
use tsjwt.Gateway.{ParentRef, Gateway}
use tsjwt.Gateway.Hostnames.{attached_to}
use tsjwt.Gateway.Rules.{RouteError}
use tsjwt.Gateway.Status.{
  Condition, replace_condition, set_condition, ParentStatus, controller_name, parent_ref_equal,
  same_condition, is_ours, upsert_parent, RouteObject, parent_ref_to, first_error, condition_for,
  accepted_condition, route_round, apply_route_status,
}
use tsjwt.Verifier.Remote.{zero_time}

-- A condition at another time.
abbrev pub at_time : Instant → Condition → Condition
at_time t c = record c { transition = t }

eqb_ℤ_refl : (a : ℤ) → eqb_ℤ a a ≡ true
eqb_ℤ_refl (pos n) = ground arith
eqb_ℤ_refl (negsuc n) = ground arith

same_condition-replace :
    (t : Instant) (ds : List Condition) (c : Condition)
    → same_condition (replace_condition ds c) (at_time t c) ≡ true
unfolding same_condition replace_condition
same_condition-replace t [] c = simp (text_eq_refl, eqb_ℤ_refl)
same_condition-replace t (d ∷ ds) c = elim (Bool-cases (text_eq d.type c.type)) [
  | inr another ↦ rw another (rw another (same_condition-replace t ds c))
  | inl same_type ↦ elim (Bool-cases (text_eq d.status c.status)) [
    | inl same ↦ rw (same_type, same) (simp (text_eq_refl, eqb_ℤ_refl))
    | inr changed ↦ rw (same_type, changed) (simp (text_eq_refl, eqb_ℤ_refl))
  ]
]

same_condition-set :
    (now t : Instant) (ds : List Condition) (c : Condition)
    → same_condition (set_condition now ds c) (at_time t c) ≡ true
unfolding set_condition
same_condition-set now t ds c = elim (Bool-cases (c.transition == zero_time)) [
  | inl unset ↦ rw unset (same_condition-replace t ds (at_time now c))
  | inr timed ↦ rw timed (same_condition-replace t ds c)
]

same_condition-time :
    (t : Instant) (ds : List Condition) (c : Condition)
    → same_condition ds (at_time t c) ≡ same_condition ds c
unfolding same_condition
same_condition-time t [] c = refl
same_condition-time t (d ∷ ds) c = elim (Bool-cases (text_eq d.type c.type)) [
  | inl same_type ↦ rw same_type refl
  | inr another ↦ rw another (same_condition-time t ds c)
]

parent_ref_equal_refl :
    (ns name : Text) (kind kind' : Option Text)
    → parent_ref_equal
        (record { kind = kind; namespace = some ns; name = name })
        (record { kind = kind'; namespace = some ns; name = name })
      ≡ true
unfolding parent_ref_equal
parent_ref_equal_refl ns name kind kind' = simp text_eq_refl

module _ (now later : Instant) (ref : ParentRef) (self : parent_ref_equal ref ref ≡ true) where
  -- What was upserted once is left alone, apart from the clock.
  upsert-settles :
      (ps : List ParentStatus) (c : Condition)
      → upsert_parent later (upsert_parent now ps ref c).0 ref (at_time later c)
        ≡ ((upsert_parent now ps ref c).0, false)
  unfolding upsert_parent
  upsert-settles [] c =
      let same : same_condition (c ∷ []) (at_time later c) ≡ true =
        unfold same_condition in simp (text_eq_refl, eqb_ℤ_refl) in
      rw (text_eq_refl controller_name, self, same) refl
  upsert-settles (p ∷ ps) c = elim (Bool-cases (is_ours ref p)) [
    | inr other_parent ↦ rw other_parent (
        rw other_parent
          (ap (λ (z : List ParentStatus × Bool). (p ∷ z.0, z.1)) (upsert-settles ps c)))
    | inl ours ↦ elim (Bool-cases (same_condition p.conditions c)) [
      | inl same ↦ rw (ours, same) (rw (ours, same_condition-time later p.conditions c, same) refl)
      | inr changed ↦
          rw (ours, changed) (rw (ours, same_condition-set now later p.conditions c) refl)
    ]
  ]

module _ (detail : RouteError → Text) (now later : Instant) (gw : Gateway)
    (errs : List RouteError) where
  accepted_condition-time :
      (r : RouteObject) (parents : List ParentStatus)
      → accepted_condition detail later (record r { parents = parents }) errs
        ≡ at_time later (accepted_condition detail now r errs)
  unfolding accepted_condition condition_for
  accepted_condition-time r parents = elim (Option-cases (first_error r.route errs)) [
    | inl clean ↦ rw clean refl
    | inr (e, found) ↦ rw found refl
  ]

  round-settles :
      (r : RouteObject)
      → route_round detail later gw errs (route_round detail now gw errs r).0
        ≡ ((route_round detail now gw errs r).0, false)
  unfolding route_round
  round-settles r = elim (Bool-cases (attached_to gw r.route)) [
    | inr apart ↦ rw apart (rw apart refl)
    | inl attached ↦
        let same =
          accepted_condition-time r
            (upsert_parent now r.parents (parent_ref_to gw)
              (accepted_condition detail now r errs)).0 in
        let settled =
          upsert-settles now later (parent_ref_to gw)
            (parent_ref_equal_refl gw.namespace gw.name (some (codes "Gateway"))
              (some (codes "Gateway")))
            r.parents (accepted_condition detail now r errs) in
        rw attached (
          rw attached (
            rw same
              (ap (λ (z : List ParentStatus × Bool). (record r { parents = z.0 }, z.1)) settled)))
  ]

  -- A round over routes whose statuses the round before has left, with the same errors, sends no update and
  -- changes no status, at whatever time it runs.
  pub apply_route_status-settles :
      (rs : List RouteObject)
      → apply_route_status detail later gw (apply_route_status detail now gw rs errs).0 errs
        ≡ ((apply_route_status detail now gw rs errs).0, [])
  unfolding apply_route_status
  apply_route_status-settles [] = refl
  apply_route_status-settles (r ∷ rs) =
      rw (round-settles r) (rw (apply_route_status-settles rs) refl)
