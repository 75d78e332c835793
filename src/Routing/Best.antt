-- ===== src/Routing/Best.antt =====
-- The route that Router.Match of proxy/router.go picks: the most specific one, and the first of those.
use tsjwt.Prelude.Sort.{insert, sort, In-sort, sort-In}
use tsjwt.Prelude.{
  All, ℕ, zero, suc, ◌≡◌, true, false, Option, none, some, List, [], ◌∷◌, arith, Bool-cases,
  some-injective, In, ◌+◌, refl, inl, inr, sym, subst, ◌≤◌, ◌<◌, ap, ◌∙◌, ◌⊎◌,
}
use tsjwt.Routing.{
  Route, Request, matches, Scored, push_scored, scored_routes, more_specific, first_route,
  match_route,
}

-- The route at a position of the table.
unfoldable pub nth {ℓ} : {A : Type ℓ} → List A → ℕ → Option A
nth [] n = none
nth (a ∷ l) zero = some a
nth (a ∷ l) (suc n) = nth l n

-- No element of the list goes before `a`.
abbrev IsLeast : Scored → List Scored → Type 0
IsLeast a l = All (λ (b : Scored). more_specific b a ≡ false) l

more_specific-asym : (a b : Scored) → more_specific a b ≡ true → more_specific b a ≡ false
more_specific-asym a b h = ground arith

not-more_specific_trans :
    (a b x : Scored)
    → more_specific b a ≡ false
    → more_specific x b ≡ false
    → more_specific x a ≡ false
not-more_specific_trans a b x h k = ground arith

more_specific_irrefl : (a : Scored) → more_specific a a ≡ false
more_specific_irrefl a = ground arith

insert-All :
    (P : Scored → Type 0) (a : Scored) (l : List Scored)
    → P a
    → All P l
    → All P (insert more_specific a l)
unfolding insert
insert-All P a [] p h = (p, tt)
insert-All P a (b ∷ l) p h = elim (Bool-cases (more_specific b a)) [
  | inl after ↦ rw after (h.0, insert-All P a l p h.1)
  | inr first ↦ rw first (p, h)
]

later-IsLeast :
    (a b : Scored) (l : List Scored) → more_specific b a ≡ false → IsLeast b l → IsLeast a l
later-IsLeast a b [] e h = tt
later-IsLeast a b (x ∷ l) e h = (not-more_specific_trans a b x e h.0, later-IsLeast a b l e h.1)

HasLeastHead : List Scored → Type 0
HasLeastHead [] = Unit {0}
HasLeastHead (a ∷ l) = IsLeast a l

insert-HasLeastHead :
    (a : Scored) (l : List Scored) → HasLeastHead l → HasLeastHead (insert more_specific a l)
unfolding insert HasLeastHead
insert-HasLeastHead a [] h = tt
insert-HasLeastHead a (b ∷ l) h = elim (Bool-cases (more_specific b a)) [
  | inl after ↦
      rw after (insert-All (λ x. more_specific x b ≡ false) a l (more_specific-asym b a after) h)
  | inr first ↦ rw first (first, later-IsLeast a b l first h)
]

sort-HasLeastHead : (l : List Scored) → HasLeastHead (sort more_specific l)
unfolding sort HasLeastHead
sort-HasLeastHead [] = tt
sort-HasLeastHead (a ∷ l) = insert-HasLeastHead a (sort more_specific l) (sort-HasLeastHead l)

-- A scored route stands at its position of the table, counted from `i`, and matches with its ranks.
record Stands (req : Request) (i : ℕ) (rs : List Route) (s : Scored) : Type 0 where
  offset : ℕ
  position : s.ix ≡ i + offset
  at_offset : nth rs offset ≡ some s.route
  ranked : matches s.route req ≡ some (s.host, s.path)

Stands-suc :
    (req : Request) (i : ℕ) (r : Route) (rs : List Route) (s : Scored)
    → Stands req (i + 1) rs s
    → Stands req i (r ∷ rs) s
unfolding nth
Stands-suc req i r rs s h = record {
  offset = suc h.offset;
  position = omega (arith, h.position);
  at_offset = h.at_offset;
  ranked = h.ranked;
}

head-Stands :
    (req : Request) (i : ℕ) (r : Route) (rs : List Route) (s : Scored) (o : Option (ℕ × ℕ))
    (l : List Scored)
    → matches r req ≡ o
    → (In s l → Stands req i (r ∷ rs) s)
    → In s (push_scored r i o l)
    → Stands req i (r ∷ rs) s
unfolding push_scored nth
head-Stands req i r rs s none l e later k = later k
head-Stands req i r rs s (some (h, p)) l e later (inl same) =
    subst (Stands req i (r ∷ rs)) same
      (record { offset = 0; position = omega arith; at_offset = refl; ranked = e })
head-Stands req i r rs s (some (h, p)) l e later (inr k) = later k

scored-Stands :
    (req : Request) (i : ℕ) (rs : List Route) (s : Scored)
    → In s (scored_routes req i rs)
    → Stands req i rs s
unfolding scored_routes
scored-Stands req i [] s h = absurd h
scored-Stands req i (r ∷ rs) s h =
    head-Stands req i r rs s (matches r req) (scored_routes req (i + 1) rs) refl
      (λ k. Stands-suc req i r rs s (scored-Stands req (i + 1) rs s k)) h

In-push_scored :
    (r : Route) (i : ℕ) (o : Option (ℕ × ℕ)) (s : Scored) (l : List Scored)
    → In s l
    → In s (push_scored r i o l)
unfolding push_scored
In-push_scored r i none s l h = h
In-push_scored r i (some (a, b)) s l h = inr h

stands-scored :
    (req : Request) (i n k h p : ℕ) (r : Route) (rs : List Route)
    → k ≡ i + n
    → nth rs n ≡ some r
    → matches r req ≡ some (h, p)
    → In (record { route = r; host = h; path = p; ix = k }) (scored_routes req i rs)
unfolding scored_routes nth push_scored
stands-scored req i n k h p r [] at e m = cc
stands-scored req i zero k h p r (q ∷ rs) at e m =
    let here : k ≡ i = omega (arith, at) in rw (some-injective e, m, here) (inl refl)
stands-scored req i (suc n) k h p r (q ∷ rs) at e m =
    In-push_scored q i (matches q req) _ _
      (stands-scored req (i + 1) n k h p r rs (omega (arith, at)) e m)

-- The route stands in the table at `ix` and answers for the request with these ranks, and each other route
-- that answers has a lower hostname rank, or the same and a shorter prefix, or the same of both and a later
-- position.
pub record IsBest (rs : List Route) (req : Request) (r : Route) : Type 0 where
  pub ix : ℕ
  pub host : ℕ
  pub path : ℕ
  pub in_table : nth rs ix ≡ some r
  pub answers : matches r req ≡ some (host, path)
  pub best :
      (j h p : ℕ) (q : Route)
      → nth rs j ≡ some q
      → matches q req ≡ some (h, p)
      → (h < host) ⊎ ((h ≡ host) × ((p < path) ⊎ ((p ≡ path) × (ix ≤ j))))

IsLeast-all :
    (a s : Scored) (l : List Scored) → IsLeast a l → In s (a ∷ l) → more_specific s a ≡ false
IsLeast-all a s l h (inl e) = rw e (more_specific_irrefl s)
IsLeast-all a s [] h (inr k) = absurd k
IsLeast-all a s (b ∷ l) h (inr (inl e)) = rw (sym e) h.0
IsLeast-all a s (b ∷ l) h (inr (inr k)) = IsLeast-all a s l h.1 (inr k)

first-IsBest :
    (rs : List Route) (req : Request) (r : Route) (l : List Scored)
    → HasLeastHead l
    → ((s : Scored) → In s l → Stands req 0 rs s)
    → ((s : Scored) → In s (scored_routes req 0 rs) → In s l)
    → first_route l ≡ some r
    → IsBest rs req r
unfolding first_route HasLeastHead
first-IsBest rs req r [] least sound complete e = cc
first-IsBest rs req r (a ∷ l) least sound complete e =
    let st = sound a (inl refl) in
    let here : st.offset ≡ a.ix = omega (arith, st.position) in
    let best : (j h p : ℕ) (q : Route)
        → nth rs j ≡ some q
        → matches q req ≡ some (h, p)
        → (h < a.host) ⊎ ((h ≡ a.host) × ((p < a.path) ⊎ ((p ≡ a.path) × (a.ix ≤ j)))) =
      λ j h p q at m.
        let s : Scored = record { route = q; host = h; path = p; ix = j } in
        let not_before =
          IsLeast-all a s l least
            (complete s (stands-scored req 0 j j h p q rs (omega arith) at m)) in
        ground (arith, not_before) in
    subst (IsBest rs req) (some-injective e) (record {
      ix = a.ix;
      host = a.host;
      path = a.path;
      in_table = ap (nth rs) (sym here) ∙ st.at_offset;
      answers = st.ranked;
      best = best;
    })

-- A route that Match returns is the best of the table for the request: the most specific hostname, then
-- the longest path prefix, then the earliest position.
pub match_route-IsBest :
    (rs : List Route) (req : Request) {r : Route} → match_route rs req ≡ some r → IsBest rs req r
unfolding match_route
match_route-IsBest rs req {r} e =
    first-IsBest rs req r (sort more_specific (scored_routes req 0 rs))
      (sort-HasLeastHead (scored_routes req 0 rs))
      (λ s h. scored-Stands req 0 rs s (In-sort more_specific s (scored_routes req 0 rs) h))
      (λ s h. sort-In more_specific s (scored_routes req 0 rs) h) e

-- Match finds a route whenever a route of the table answers for the request.
pub answers-match_route :
    (rs : List Route) (req : Request) (j h p : ℕ) (q : Route)
    → nth rs j ≡ some q
    → matches q req ≡ some (h, p)
    → (r : Route) × (match_route rs req ≡ some r)
unfolding match_route first_route
answers-match_route rs req j h p q at m =
    first_some _ (sort more_specific (scored_routes req 0 rs)) (
      sort-In more_specific _ (scored_routes req 0 rs)
        (stands-scored req 0 j j h p q rs (omega arith) at m))
  where
    first_some : (s : Scored) (l : List Scored) → In s l → (r : Route) × (first_route l ≡ some r)
    first_some s [] k = absurd k
    first_some s (a ∷ l) k = (a.route, refl)
