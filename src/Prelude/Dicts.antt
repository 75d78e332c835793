-- ===== src/Prelude/Dicts.antt =====
-- Go maps with text keys as association lists, and sets of texts. Where the source ranges over a
-- map, the model takes the entries in the order of the list.
use mathlib.Core.Path.{◌≡◌, refl}
use mathlib.Core.Logic.{◌↔◌}
use mathlib.Core.Bool.{Bool, true, false, ◌||◌}
use mathlib.Core.Option.{Option, none, some}
use mathlib.Core.List.{List, [], ◌∷◌}
use native.Mathlib.Omega.{arith}
use tsjwt.Prelude.Tests.{if◌then◌else◌}
use tsjwt.Prelude.Lists.{In}
use tsjwt.Prelude.Texts.{Text, text_eq, text_eq_iff}

abbrev pub Dict {ℓ} : Type ℓ → Type ℓ
Dict V = List (Text × V)

module _ {ℓ} {V : Type ℓ} where
  -- m[k]
  unfoldable pub lookup : Text → Dict V → Option V
  lookup k [] = none
  lookup k ((j, v) ∷ m) = if text_eq j k then some v else lookup k m

  -- m[k] = v
  unfoldable pub insert : Text → V → Dict V → Dict V
  insert k v [] = (k, v) ∷ []
  insert k v ((j, w) ∷ m) = if text_eq j k then (k, v) ∷ m else (j, w) ∷ insert k v m

  pub lookup-insert :
      (k j : Text) (v : V) (m : Dict V)
      → lookup j (insert k v m) ≡ (if text_eq k j then some v else lookup j m)
  unfolding lookup insert
  lookup-insert k j v [] = refl
  lookup-insert k j v ((i, w) ∷ m) =
      ground (arith, text_eq_iff k j, text_eq_iff i k, text_eq_iff i j, lookup-insert k j v m)

-- _, ok := set[k]
unfoldable pub has : Text → List Text → Bool
has k [] = false
has k (j ∷ s) = text_eq j k || has k s

pub has_iff : (k : Text) (s : List Text) → (has k s ≡ true) ↔ In k s
unfolding has
has_iff k [] = ground arith
has_iff k (j ∷ s) = ground (arith, text_eq_iff j k, has_iff k s)
