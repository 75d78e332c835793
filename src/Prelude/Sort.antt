-- ===== src/Prelude/Sort.antt =====
-- The stable sort of package sort, as an insertion sort by a strict order.
pub mod Canonical
use mathlib.Core.Logic.{inl, inr}
use mathlib.Core.Bool.{Bool}
use mathlib.Core.List.{List, [], ◌∷◌, Perm}
use mathlib.Core.List.Perm
use native.Mathlib.Omega.{arith}
use tsjwt.Prelude.Tests.{if◌then◌else◌, Bool-cases}
use tsjwt.Prelude.Lists.{In}

module _ {A : Type 0} (less : A → A → Bool) where
  -- `a` goes before the first element that is not less than it.
  unfoldable pub insert : A → List A → List A
  insert a [] = a ∷ []
  insert a (b ∷ l) = if less b a then b ∷ insert a l else a ∷ b ∷ l

  unfoldable pub sort : List A → List A
  unfolding insert
  sort [] = []
  sort (a ∷ l) = insert a (sort l)

  insert-perm : (a : A) (l : List A) → Perm (insert a l) (a ∷ l)
  unfolding insert
  insert-perm a [] = Perm.refl _
  insert-perm a (b ∷ l) = elim (Bool-cases (less b a)) [
    | inl after ↦ rw after (Perm.trans (Perm.cons b (insert-perm a l)) (Perm.swap a b l))
    | inr first ↦ rw first (Perm.refl _)
  ]

  pub sort-perm : (l : List A) → Perm (sort l) l
  unfolding sort
  sort-perm [] = Perm.refl _
  sort-perm (a ∷ l) = Perm.trans (insert-perm a (sort l)) (Perm.cons a (sort-perm l))

  insert-In : (a x : A) (l : List A) → In x (insert a l) → In x (a ∷ l)
  unfolding insert
  insert-In a x [] h = h
  insert-In a x (b ∷ l) h = ground (arith, insert-In a x l)

  In-insert : (a x : A) (l : List A) → In x (a ∷ l) → In x (insert a l)
  unfolding insert
  In-insert a x [] h = h
  In-insert a x (b ∷ l) h = ground (arith, In-insert a x l)

  -- A sort loses no element and makes none up.
  pub In-sort : (x : A) (l : List A) → In x (sort l) → In x l
  unfolding sort
  In-sort x [] h = h
  In-sort x (a ∷ l) h = ground (arith, insert-In a x (sort l) h, In-sort x l)

  pub sort-In : (x : A) (l : List A) → In x l → In x (sort l)
  unfolding sort
  sort-In x [] h = h
  sort-In x (a ∷ l) h = ground (arith, In-insert a x (sort l), sort-In x l)
