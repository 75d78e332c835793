-- ===== src/Routing/Answers.antt =====
-- What it takes for a route of proxy/router.go to answer for a request.
use tsjwt.Prelude.{
  ltb, if◌then◌else◌, Bool-cases, Any, Text, text_eq_iff, text_eq, to_lower, ℕ, ◌≡◌, refl, ◌⊎◌, inl,
  inr, true, ◌&&◌, List, [], ◌∷◌, arith, length, ◌≢◌, ◌↔◌, ◌++◌, Option, none, some, codes,
  has_prefix, trim_suffix, ==_iff,
}
use tsjwt.Routing.{
  covers, rank_loop, host_rank, Route, Request, request_host, path_rank, with_rank, matches,
}

-- Some hostname of the list is the host, in lower case.
abbrev Names : Text → List Text → Type 0
Names host hs = Any (λ (h : Text). to_lower h ≡ host) hs

-- Some hostname of the list is a wildcard over the host.
abbrev Covered : Text → List Text → Type 0
Covered host hs = Any (λ (h : Text). covers host (to_lower h) ≡ true) hs

-- What a rank says of the hostnames: 1 for a route with none, 3 for an exact name, 2 for a wildcard and no
-- exact name.
abbrev pub RankMeans : Text → List Text → ℕ → Type 0
RankMeans host hs rank =
    ((hs ≡ []) × (rank ≡ 1))
    ⊎ ((Names host hs × (rank ≡ 3)) ⊎ (Covered host hs × (¬ Names host hs) × (rank ≡ 2)))

rank_loop-cases :
    (host : Text) (rank : ℕ) (hs : List Text)
    → ((rank ≡ 0) ⊎ (rank ≡ 2))
    → (Names host hs × (rank_loop host rank hs ≡ 3))
      ⊎ ((¬ Names host hs)
          × ((Covered host hs × (rank_loop host rank hs ≡ 2))
              ⊎ ((¬ Covered host hs) × (rank_loop host rank hs ≡ rank))))
unfolding rank_loop
rank_loop-cases host rank [] r = inr (λ x. x, inr (λ x. x, refl))
rank_loop-cases host rank (h ∷ hs) r =
    let next =
      rank_loop-cases host (if covers host (to_lower h) && ltb rank 2 then 2 else rank) hs
        (ground (arith, r)) in
    elim (Bool-cases (text_eq (to_lower h) host)) [
      | inl hit ↦ inl (inl ((text_eq_iff (to_lower h) host).0 hit), rw hit refl)
      | inr miss ↦ ground (arith, miss, next, text_eq_iff (to_lower h) host)
    ]

host_rank_iff :
    (host : Text) (hs : List Text) (n : ℕ)
    → ((host_rank host hs ≡ n) × (n ≢ 0)) ↔ RankMeans host hs n
unfolding host_rank
host_rank_iff host [] n = ground (arith)
host_rank_iff host (h ∷ hs) n =
    let cases = rank_loop-cases host 0 (h ∷ hs) (inl refl) in ground (arith, cases)

-- What a path rank says: no prefix, or the path is the prefix without its last slash, or goes on after it
-- with a slash.
abbrev pub PathMeans : Text → Text → ℕ → Type 0
PathMeans prefix path len =
    let trimmed = trim_suffix prefix (codes "/") in
    ((prefix ≡ []) × (len ≡ 0))
    ⊎ ((prefix ≢ [])
        × ((path ≡ trimmed) ⊎ ((rest : Text) × (path ≡ (trimmed ++ codes "/") ++ rest)))
        × (len ≡ length trimmed))

pub has_prefix_iff : (s p : Text) → (has_prefix s p ≡ true) ↔ ((rest : Text) × (s ≡ p ++ rest))
unfolding has_prefix
has_prefix_iff s [] = ((λ h. (s, refl)), λ h. refl)
has_prefix_iff [] (c ∷ p) = ((λ h. ground arith), λ h. cc (h.1))
has_prefix_iff (d ∷ s) (c ∷ p) =
    let next = has_prefix_iff s p in
    (
      λ h. let (rest, e) = next.0 (ground (arith, h)) in (rest, ground (arith, h, e)),
      λ h. let (rest, e) = h in ground (arith, next.1, e),
    )

path_rank_iff :
    (prefix path : Text) (n : ℕ) → (path_rank prefix path ≡ some n) ↔ PathMeans prefix path n
unfolding path_rank
path_rank_iff prefix path n = ground (
  arith,
  text_eq_iff prefix [],
  text_eq_iff path (trim_suffix prefix (codes "/")),
  has_prefix_iff path (trim_suffix prefix (codes "/") ++ codes "/"),
)

with_rank_iff :
    (o : Option ℕ) (a h p : ℕ) → (with_rank a o ≡ some (h, p)) ↔ ((a ≡ h) × (o ≡ some p))
unfolding with_rank
with_rank_iff none a h p = ((λ e. cc), λ e. cc)
with_rank_iff (some q) a h p = ground arith

-- A route answers for a request with the ranks `h` and `p` exactly when: it has no hostnames and `h` is 1, or
-- one of them is the request's host in lower case, without its port and last dot, and `h` is 3, or only a
-- wildcard covers the host and `h` is 2; and it has no path prefix, or the path is the prefix or stands
-- below it on a segment boundary, with `p` the prefix's length.
pub matches_iff :
    (r : Route) (req : Request) (h p : ℕ)
    → (matches r req ≡ some (h, p))
      ↔ (RankMeans (request_host req) r.hostnames h × PathMeans r.path_prefix req.path p)
unfolding matches
matches_iff r req h p = ground (
  arith,
  host_rank_iff (request_host req) r.hostnames h,
  path_rank_iff r.path_prefix req.path p,
  with_rank_iff (path_rank r.path_prefix req.path) (host_rank (request_host req) r.hostnames) h p,
  ==_iff (host_rank (request_host req) r.hostnames) 0,
)
