-- ===== src/Gateway/Status/Conditions.antt =====
-- setCondition of gateway/reconcile.go as an update of a map from types to conditions.
use tsjwt.Prelude.{
  ◌==◌, if◌then◌else◌, Bool-cases, Text, text_eq_iff, text_eq, ◌≡◌, refl, inl, inr, false, Option,
  none, some, List, [], ◌∷◌,
}
use tsjwt.GoTime.{Instant}
use tsjwt.Gateway.Status.{Condition, replace_condition, set_condition}
use tsjwt.Verifier.Remote.{zero_time}

-- The first condition of the type.
pub find_condition : Text → List Condition → Option Condition
unfolding text_eq
find_condition t [] = none
find_condition t (d ∷ ds) = if text_eq d.type t then some d else find_condition t ds

-- The condition with the time of the call, where it has none.
abbrev pub stamped : Instant → Condition → Condition
stamped now c = if c.transition == zero_time then record c { transition = now } else c

-- The time of the last transition stays while the status does.
abbrev pub in_place_of : Option Condition → Condition → Condition
in_place_of none c = c
in_place_of (some d) c =
    if text_eq d.status c.status then record c { transition = d.transition } else c

same_type : (d c : Condition) → (in_place_of (some d) c).type ≡ c.type
same_type d c = elim (Bool-cases (text_eq d.status c.status)) [
  | inl same ↦ rw same refl
  | inr changed ↦ rw changed refl
]

replace_condition-find :
    (ds : List Condition) (c : Condition) (t : Text)
    → find_condition t (replace_condition ds c) ≡ (
        if text_eq c.type t
        then some (in_place_of (find_condition c.type ds) c)
        else find_condition t ds)
unfolding find_condition replace_condition
replace_condition-find [] c t = refl
replace_condition-find (d ∷ ds) c t = elim (Bool-cases (text_eq d.type c.type)) [
  | inl here ↦
      let at : d.type ≡ c.type = (text_eq_iff d.type c.type).0 here in
      rw here (
        rw (same_type d c) (
          rw at (elim (Bool-cases (text_eq c.type t)) [
            | inl hit ↦ rw hit refl
            | inr miss ↦ rw miss refl
          ])))
  | inr apart ↦ rw apart (elim (Bool-cases (text_eq d.type t)) [
    | inr miss ↦ rw miss (replace_condition-find ds c t)
    | inl hit ↦
        let differs : text_eq c.type t ≡ false = elim (Bool-cases (text_eq c.type t)) [
          | inl both ↦ cc (apart, hit, (text_eq_iff c.type t).0 both)
          | inr apart_too ↦ apart_too
        ] in
        rw (hit, differs) refl
  ])
]

-- After setCondition the list has under the condition's type that condition, with the time of the condition that
-- it replaces where the status is the same, and under any other type what it had.
pub set_condition-find :
    (now : Instant) (ds : List Condition) (c : Condition) (t : Text)
    → find_condition t (set_condition now ds c) ≡ (
        if text_eq c.type t
        then some (in_place_of (find_condition c.type ds) (stamped now c))
        else find_condition t ds)
unfolding set_condition
set_condition-find now ds c t = elim (Bool-cases (c.transition == zero_time)) [
  | inl unset ↦ rw unset (replace_condition-find ds (record c { transition = now }) t)
  | inr set ↦ rw set (replace_condition-find ds c t)
]
