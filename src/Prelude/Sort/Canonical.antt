-- ===== src/Prelude/Sort/Canonical.antt =====
-- The sorted list of a set of texts does not depend on the order in which the set is given.
use mathlib.Core.Path.{◌≡◌, refl, sym, subst}
use mathlib.Core.Logic.{◌↔◌, inl, inr}
use mathlib.Core.Bool.{true}
use mathlib.Core.List.{List, [], ◌∷◌}
use tsjwt.Prelude.Tests.{Bool-cases}
use tsjwt.Prelude.Lists.{In, All, IsDistinct}
use tsjwt.Prelude.Texts.{Text, text_lt}
use tsjwt.Prelude.Texts.Order.{text_lt_irrefl, text_lt_trans, text_lt_total}
use tsjwt.Prelude.Sort.{insert, sort, In-sort, sort-In}

-- Each text is below all that follow.
abbrev pub IsAscending : List Text → Type 0
IsAscending [] = Unit
IsAscending (x ∷ xs) = All (λ (y : Text). text_lt x y ≡ true) xs × IsAscending xs

All-below :
    (a b : Text) (l : List Text)
    → text_lt a b ≡ true
    → All (λ (y : Text). text_lt b y ≡ true) l
    → All (λ (y : Text). text_lt a y ≡ true) l
All-below a b [] h k = tt
All-below a b (c ∷ l) h (k, ks) = (text_lt_trans a b c h k, All-below a b l h ks)

All-insert :
    (P : Text → Type 0) (a : Text) (l : List Text) → P a → All P l → All P (insert text_lt a l)
unfolding insert
All-insert P a [] h k = (h, tt)
All-insert P a (b ∷ l) h k = elim (Bool-cases (text_lt b a)) [
  | inl after ↦ rw after (k.0, All-insert P a l h k.1)
  | inr first ↦ rw first (h, k)
]

insert-IsAscending :
    (a : Text) (l : List Text) → (¬ In a l) → IsAscending l → IsAscending (insert text_lt a l)
unfolding insert
insert-IsAscending a [] n s = (tt, tt)
insert-IsAscending a (b ∷ l) n s = elim (Bool-cases (text_lt b a)) [
  | inl after ↦ rw after (
    All-insert (λ (y : Text). text_lt b y ≡ true) a l after s.0,
    insert-IsAscending a l (λ i. n (inr i)) s.1,
  )
  | inr first ↦
      let below : text_lt a b ≡ true = elim (Bool-cases (text_lt a b)) [
        | inl yes_below ↦ yes_below
        | inr neither ↦ absurd (n (inl (text_lt_total b a first neither)))
      ] in
      rw first ((below, All-below a b l below s.0), s)
]

pub sort-IsAscending : (l : List Text) → IsDistinct l → IsAscending (sort text_lt l)
unfolding sort
sort-IsAscending [] d = tt
sort-IsAscending (a ∷ l) d =
    insert-IsAscending a (sort text_lt l) (λ i. d.0 (In-sort text_lt a l i))
      (sort-IsAscending l d.1)

In-above :
    (x y : Text) (l : List Text)
    → All (λ (z : Text). text_lt x z ≡ true) l
    → In y l
    → text_lt x y ≡ true
In-above x y [] h i = absurd i
In-above x y (z ∷ l) h i = elim i [
  | inl e ↦ subst (λ (w : Text). text_lt x w ≡ true) e h.0
  | inr later ↦ In-above x y l h.1 later
]

-- The first of two ascending lists of the same texts.
same_head :
    (x y : Text) (xs ys : List Text)
    → IsAscending (x ∷ xs)
    → IsAscending (y ∷ ys)
    → In x (y ∷ ys)
    → In y (x ∷ xs)
    → x ≡ y
same_head x y xs ys s t i j = elim i [
  | inl e ↦ sym e
  | inr i' ↦ elim j [
    | inl e ↦ e
    | inr j' ↦
        let up = text_lt_trans x y x (In-above x y xs s.0 j') (In-above y x ys t.0 i') in
        absurd (cc (up, text_lt_irrefl x))
  ]
]

later-In :
    (x z : Text) (xs ys : List Text)
    → All (λ (w : Text). text_lt x w ≡ true) xs
    → (In z (x ∷ xs) → In z (x ∷ ys))
    → In z xs
    → In z ys
later-In x z xs ys below f i = elim (f (inr i)) [
  | inl e ↦
      let loop : text_lt x x ≡ true =
        subst (λ (w : Text). text_lt x w ≡ true) (sym e) (In-above x z xs below i) in
      absurd (cc (loop, text_lt_irrefl x))
  | inr later ↦ later
]

pub IsAscending-unique :
    (xs ys : List Text)
    → IsAscending xs
    → IsAscending ys
    → ((z : Text) → In z xs ↔ In z ys)
    → xs ≡ ys
IsAscending-unique [] [] s t same = refl
IsAscending-unique [] (y ∷ ys) s t same = absurd ((same y).1 (inl refl))
IsAscending-unique (x ∷ xs) [] s t same = absurd ((same x).0 (inl refl))
IsAscending-unique (x ∷ xs) (y ∷ ys) s t same =
    let head = same_head x y xs ys s t ((same x).0 (inl refl)) ((same y).1 (inl refl)) in
    let t' : IsAscending (x ∷ ys) = subst (λ (w : Text). IsAscending (w ∷ ys)) (sym head) t in
    let same' : ((z : Text) → In z (x ∷ xs) ↔ In z (x ∷ ys)) =
      subst (λ (w : Text). (z : Text) → In z (x ∷ xs) ↔ In z (w ∷ ys)) (sym head) same in
    let tails =
      IsAscending-unique xs ys s.1 t'.1
        (λ z. (later-In x z xs ys s.0 (same' z).0, later-In x z ys xs t'.0 (same' z).1)) in
    cc (head, tails)

-- Two lists without repetitions that hold the same texts have one sorted form.
pub sort-canonical :
    (xs ys : List Text)
    → IsDistinct xs
    → IsDistinct ys
    → ((z : Text) → In z xs ↔ In z ys)
    → sort text_lt xs ≡ sort text_lt ys
sort-canonical xs ys d e same =
    IsAscending-unique (sort text_lt xs) (sort text_lt ys) (sort-IsAscending xs d)
      (sort-IsAscending ys e)
      (λ z. (
        λ i. sort-In text_lt z ys ((same z).0 (In-sort text_lt z xs i)),
        λ i. sort-In text_lt z xs ((same z).1 (In-sort text_lt z ys i)),
      ))
