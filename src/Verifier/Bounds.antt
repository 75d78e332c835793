-- ===== src/Verifier/Bounds.antt =====
-- What the registered-claim checks of verifier/verifier.go bound, in nanoseconds and whatever the
-- signer wrote: saturation and wrap-around of the time arithmetic are accounted for.
use tsjwt.Prelude.{
  ltb, ℤ, pos, ltb_ℤ, leb_ℤ, eqb_ℤ, ℕ, ◌+◌, ◌≤◌, ◌<◌, ◌≡◌, ◌≢◌, ◌↔◌, ◌⊎◌, true, not, ◌||◌, [],
  arith, negsuc, zero, suc, refl, if◌then◌else◌, Text, text_eq_iff, text_eq, inl, inr, ◌∷◌,
}
use tsjwt.Errors.{ok, guard-then, guard-only}
use tsjwt.GoTime.{Instant, max_int64, unix, add_time, sub_time}
use tsjwt.Claims.{Claims}
use tsjwt.Verifier.{Config, check_lifetime, check_claims}

-- The claims name this backend and its issuer, a subject and a token id.
pub record NamesMatch (cfg : Config) (c : Claims) : Type 0 where
  pub issuer_ok : c.issuer ≡ cfg.issuer
  pub audience_ok : c.audience ≡ cfg.audience
  pub subject_ok : c.subject ≢ []
  pub jti_ok : c.jti ≢ []

-- The token is inside its window at `now`, with the leeway on both sides.
pub record InWindow (cfg : Config) (c : Claims) (now : Instant) : Type 0 where
  pub expiry_set : c.expiry ≢ pos 0
  pub not_expired : now ≤ add_time (unix c.expiry) cfg.leeway
  pub started : (c.not_before ≡ pos 0) ⊎ (unix c.not_before ≤ add_time now cfg.leeway)

-- The lifetime limit: the token lives at most `life` nanoseconds from its iat, and its expiry
-- is at most that and the leeway away from `now`.
pub record LifetimeIsBounded (cfg : Config) (c : Claims) (now : Instant) (life : ℕ) : Type 0 where
  pub iat_set : c.issued_at ≢ pos 0
  pub positive : unix c.issued_at < unix c.expiry
  pub short : unix c.expiry ≤ unix c.issued_at + life
  pub near : unix c.expiry ≤ add_time (add_time now cfg.max_lifetime) cfg.leeway

life_bounded :
    (x i m : ℕ)
    → m < max_int64
    → not (leb_ℤ (sub_time x i) (pos 0) || ltb_ℤ (pos m) (sub_time x i)) ≡ true
    → (i < x) × (x ≤ i + m)
unfolding sub_time
life_bounded x i m h e = ground arith

life_complete :
    (x i m : ℕ)
    → m < max_int64
    → i < x
    → x ≤ i + m
    → not (leb_ℤ (sub_time x i) (pos 0) || ltb_ℤ (pos m) (sub_time x i)) ≡ true
unfolding sub_time
life_complete x i m h k l = ground arith

not-ltb : (a b : ℕ) → (not (ltb a b) ≡ true) ↔ (b ≤ a)
not-ltb a b = ground arith

eqb_ℤ_iff : (a : ℤ) → (not (eqb_ℤ a (pos 0)) ≡ true) ↔ (a ≢ pos 0)
eqb_ℤ_iff (pos zero) = ((λ h. cc), λ n. absurd (n refl))
eqb_ℤ_iff (pos (suc n)) = ((λ h e. cc), λ n. ground arith)
eqb_ℤ_iff (negsuc n) = ((λ h e. cc), λ n. ground arith)

-- The lifetime limit, in full.
check_lifetime_iff :
    (cfg : Config) (c : Claims) (now : Instant) (life : ℕ)
    → cfg.max_lifetime ≡ pos life
    → life < max_int64
    → (check_lifetime cfg c now ≡ ok tt) ↔ LifetimeIsBounded cfg c now life
unfolding check_lifetime
check_lifetime_iff cfg c now life e h =
    let latest = add_time (add_time now cfg.max_lifetime) cfg.leeway in
    (
      λ done.
          let (iat, d1) = (guard-then _ _ _).0 done in
          let (span, d2) = (guard-then _ _ _).0 d1 in
          let close = (guard-only _ _).0 d2 in
          let (above, within) =
            life_bounded (unix c.expiry) (unix c.issued_at) life h (rw e at span) in
          record {
            iat_set = (eqb_ℤ_iff c.issued_at).0 iat;
            positive = above;
            short = within;
            near = (not-ltb latest (unix c.expiry)).0 close;
          },
      λ w. (guard-then _ _ _).1 (
        (eqb_ℤ_iff c.issued_at).1 w.iat_set,
        (guard-then _ _ _).1 (
          rw e (life_complete (unix c.expiry) (unix c.issued_at) life h w.positive w.short),
          (guard-only _ _).1 ((not-ltb latest (unix c.expiry)).1 w.near),
        ),
      ),
    )

expired_iff :
    (x : ℤ) (a n : ℕ) → (not (eqb_ℤ x (pos 0) || ltb a n) ≡ true) ↔ ((x ≢ pos 0) × (n ≤ a))
expired_iff (pos zero) a n = ((λ h. cc), λ w. absurd (w.0 refl))
expired_iff (pos (suc k)) a n = ((λ h. ((λ e. cc), ground arith)), λ w. ground arith)
expired_iff (negsuc k) a n = ((λ h. ((λ e. cc), ground arith)), λ w. ground arith)

started_iff :
    (x : ℤ) (a b : ℕ) → ((eqb_ℤ x (pos 0) || not (ltb a b)) ≡ true) ↔ ((x ≡ pos 0) ⊎ (b ≤ a))
started_iff (pos zero) a b = ((λ h. inl refl), λ w. ground arith)
started_iff (pos (suc k)) a b = ((λ h. inr (ground arith)), λ w. ground arith)
started_iff (negsuc k) a b = ((λ h. inr (ground arith)), λ w. ground arith)

ne_iff : (a : Text) → (not (text_eq a []) ≡ true) ↔ (a ≢ [])
unfolding text_eq
ne_iff [] = ((λ h. cc), λ n. absurd (n refl))
ne_iff (x ∷ a) = ((λ h e. cc), λ n. refl)

-- The checks accept a claim set exactly if it names this issuer, this audience, a subject and a
-- token id, it is inside its window at `now`, and its lifetime is bounded, where the configured
-- maximum is positive and below the largest int64.
pub check_claims_iff :
    (cfg : Config) (c : Claims) (now : Instant) (life : ℕ)
    → cfg.max_lifetime ≡ pos (suc life)
    → suc life < max_int64
    → (check_claims cfg c now ≡ ok tt)
      ↔ (NamesMatch cfg c × InWindow cfg c now × LifetimeIsBounded cfg c now (suc life))
unfolding check_claims
check_claims_iff cfg c now life e h =
    let lifetime = check_lifetime_iff cfg c now (suc life) e h in
    (
      λ done.
          let (iss, d1) = (guard-then _ _ _).0 done in
          let (aud, d2) = (guard-then _ _ _).0 d1 in
          let (sub, d3) = (guard-then _ _ _).0 d2 in
          let (jti, d4) = (guard-then _ _ _).0 d3 in
          let (exp, d5) = (guard-then _ _ _).0 d4 in
          let (nbf, d6) = (guard-then _ _ _).0 d5 in
          let (set, live) =
            (expired_iff c.expiry (add_time (unix c.expiry) cfg.leeway) now).0 exp in
          (
            record {
              issuer_ok = (text_eq_iff c.issuer cfg.issuer).0 iss;
              audience_ok = (text_eq_iff c.audience cfg.audience).0 aud;
              subject_ok = (ne_iff c.subject).0 sub;
              jti_ok = (ne_iff c.jti).0 jti;
            },
            record {
              expiry_set = set;
              not_expired = live;
              started =
                  (started_iff c.not_before (add_time now cfg.leeway) (unix c.not_before)).0 nbf;
            },
            lifetime.0 (ground (arith, e, d6)),
          ),
      λ w. (guard-then _ _ _).1 (
        (text_eq_iff c.issuer cfg.issuer).1 w.0.issuer_ok,
        (guard-then _ _ _).1 (
          (text_eq_iff c.audience cfg.audience).1 w.0.audience_ok,
          (guard-then _ _ _).1 (
            (ne_iff c.subject).1 w.0.subject_ok,
            (guard-then _ _ _).1 (
              (ne_iff c.jti).1 w.0.jti_ok,
              (guard-then _ _ _).1 (
                (expired_iff c.expiry _ now).1 (w.1.expiry_set, w.1.not_expired),
                (guard-then _ _ _).1
                    ((started_iff c.not_before _ _).1 w.1.started, limit (lifetime.1 w.2)),
              ),
            ),
          ),
        ),
      ),
    )
  where
    limit :
        check_lifetime cfg c now ≡ ok tt
        → (if ltb_ℤ (pos 0) cfg.max_lifetime then check_lifetime cfg c now else ok (tt {0})) ≡ ok tt
    limit l = ground (arith, e, l)
