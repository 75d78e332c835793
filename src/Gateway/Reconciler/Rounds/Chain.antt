-- ===== src/Gateway/Reconciler/Rounds/Chain.antt =====
-- The applies of a round of gateway/reconcile.go as a chain of CreateOrUpdate calls.
use tsjwt.Gateway.{Gateway}
use tsjwt.Gateway.Reconciler.{Step}
use tsjwt.Gateway.Reconciler.Rounds.{Client, after_apply, apply_steps}
use tsjwt.Errors.{Result, err, ok}
use tsjwt.Prelude.{All, ℕ, ◌≡◌, refl, sym, ap, ◌∙◌, subst, List, [], ◌∷◌, ◌++◌, map}

-- The list begins with these.
abbrev pub IsPrefix : {A : Type 0} → List A → List A → Type 0
IsPrefix [] l = Unit
IsPrefix (x ∷ xs) [] = ⊥
IsPrefix (x ∷ xs) (y ∷ ys) = (x ≡ y) × IsPrefix xs ys

pub IsPrefix-refl : {A : Type 0} (l : List A) → IsPrefix l l
IsPrefix-refl [] = tt
IsPrefix-refl (x ∷ xs) = (refl, IsPrefix-refl xs)

pub IsPrefix-append : {A : Type 0} (xs ys zs : List A) → IsPrefix xs ys → IsPrefix xs (ys ++ zs)
IsPrefix-append [] ys zs h = tt
IsPrefix-append (x ∷ xs) [] zs h = absurd h
IsPrefix-append (x ∷ xs) (y ∷ ys) zs h = (h.0, IsPrefix-append xs ys zs h.1)

pub IsPrefix-after :
    {A : Type 0} (xs ys zs : List A) → IsPrefix ys zs → IsPrefix (xs ++ ys) (xs ++ zs)
IsPrefix-after [] ys zs h = h
IsPrefix-after (x ∷ xs) ys zs h = (refl, IsPrefix-after xs ys zs h)

pub IsPrefix-map :
    {A B : Type 0} (f : A → B) (xs ys : List A) → IsPrefix xs ys → IsPrefix (map f xs) (map f ys)
IsPrefix-map f [] ys h = tt
IsPrefix-map f (x ∷ xs) [] h = absurd h
IsPrefix-map f (x ∷ xs) (y ∷ ys) h = (ap f h.0, IsPrefix-map f xs ys h.1)

pub All-IsPrefix :
    {A : Type 0} (P : A → Type 0) (xs ys : List A) → IsPrefix xs ys → All P ys → All P xs
All-IsPrefix P [] ys h all = tt
All-IsPrefix P (x ∷ xs) [] h all = absurd h
All-IsPrefix P (x ∷ xs) (y ∷ ys) h (here, later) =
    (subst P (sym h.0) here, All-IsPrefix P xs ys h.1 later)

module _ {W : Type 0} (client : Client W) (gw : Gateway) where
  -- The calls of CreateOrUpdate for the steps, one after another, each a success, take one world to the other.
  abbrev pub Applies : W → List Step → W → Type 0
  Applies w [] v = w ≡ v
  Applies w (s ∷ ss) v =
      (ready : ℕ) × (u : W) × (client.create_or_update w gw s ≡ (ok ready, u)) × Applies u ss v

  pub Applies-append :
      (w u v : W) (ss ts : List Step) → Applies w ss u → Applies u ts v → Applies w (ss ++ ts) v
  Applies-append w u v [] ts h k = subst (λ (x : W). Applies x ts v) (sym h) k
  Applies-append w u v (s ∷ ss) ts (n, x, called, later) k =
      (n, x, called, Applies-append x u v ss ts later k)

  -- The steps that were applied come first, and they are all of them if the last result is a success.
  abbrev pub RanThrough : W → List Step → Result ℕ × W × List Step → Type 0
  RanThrough w ss a =
      (v : W) × Applies w a.2 v × IsPrefix a.2 ss × ((n : ℕ) → a.0 ≡ ok n → (a.2 ≡ ss) × (v ≡ a.1))

  after_apply-RanThrough :
      (s : Step) (ss : List Step) (w : W) (r : Result ℕ) (u : W)
      (next : ℕ → W → Result ℕ × W × List Step)
      → client.create_or_update w gw s ≡ (r, u)
      → ((n : ℕ) (x : W) → RanThrough x ss (next n x))
      → RanThrough w (s ∷ ss) (after_apply client s (r, u) next)
  unfolding after_apply
  after_apply-RanThrough s ss w (err e) u next called h = (w, refl, tt, λ n e. absurd (cc e))
  after_apply-RanThrough s ss w (ok n) u next called h =
      let (v, chain, prefix, whole) = h n u in
      (
        v,
        (n, u, called, chain),
        (refl, prefix),
        λ m e. let (all, last) = whole m e in (ap (λ (l : List Step). s ∷ l) all, last),
      )

  pub apply_steps-RanThrough :
      (ready : ℕ) (ss : List Step) (w : W) → RanThrough w ss (apply_steps client gw ready ss w)
  unfolding apply_steps
  apply_steps-RanThrough ready [] w = (w, refl, tt, λ n e. (refl, refl))
  apply_steps-RanThrough ready (s ∷ ss) w =
      after_apply-RanThrough s ss w (client.create_or_update w gw s).0
        (client.create_or_update w gw s).1 (λ n v. apply_steps client gw n ss v) refl
        (λ n v. apply_steps-RanThrough n ss v)

  -- A single apply that succeeds gives the ready replicas that its call reported.
  pub apply_one :
      (s : Step) (ready : ℕ) (w : W) (n : ℕ)
      → (apply_steps client gw ready (s ∷ []) w).0 ≡ ok n
      → client.create_or_update w gw s ≡ (ok n, (apply_steps client gw ready (s ∷ []) w).1)
  unfolding apply_steps after_apply
  apply_one s ready w n e =
      called (client.create_or_update w gw s).0 (client.create_or_update w gw s).1 refl e
    where
      called :
          (r : Result ℕ) (u : W)
          → client.create_or_update w gw s ≡ (r, u)
          → (after_apply client s (r, u) (λ m v. (ok m, v, []))).0 ≡ ok n
          → client.create_or_update w gw s
            ≡ (ok n, (after_apply client s (r, u) (λ m v. (ok m, v, []))).1)
      called (err x) u c h = absurd (cc h)
      called (ok m) u c h = c ∙ ap (λ (x : Result ℕ). (x, u)) h
