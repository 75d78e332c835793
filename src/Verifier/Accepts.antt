-- ===== src/Verifier/Accepts.antt =====
-- When Verify of verifier/verifier.go accepts a token, and what a refusal looks like.
use tsjwt.Prelude.{
  if◌then◌else◌, Bool-cases, Text, text_eq_iff, text_eq, ◌≡◌, refl, ap, ◌∙◌, ◌≢◌, inl, inr, Bool,
  true, false, not, Option, none, some, [], sym, subst, arith,
}
use tsjwt.Errors.{
  Error, invalid_token, Result, ok, err, guard, or_fail, >>=-eq-ok, guard-eq-ok, ok-injective,
}
use tsjwt.GoTime.{Instant, unix}
use tsjwt.Claims.{Claims}
use tsjwt.Crypto.{Bytes, Header, Crypto}
use tsjwt.Jwt.{parse, verify}
use tsjwt.Verifier.{
  Config, check_claims, as_invalid, token_kid, token_claims, replay_step, with_key, with_kid,
  verify_token,
}

or_fail-eq-ok {ℓ} :
    {A : Type ℓ} (o : Option A) (e : Error) {a : A} → or_fail o e ≡ ok a → o ≡ some a
or_fail-eq-ok none e h = cc
or_fail-eq-ok (some a) e h = ap some (ok-injective h)

as_invalid-eq-ok {ℓ} : {A : Type ℓ} (r : Result A) {a : A} → as_invalid r ≡ ok a → r ≡ ok a
as_invalid-eq-ok (ok b) h = h
as_invalid-eq-ok (err e) h = cc

module _ (crypto : Crypto) (decode : Bytes → Option Claims) {K G : Type 0}
    (key : K → Text → Result crypto.PublicKey × K)
    (seen : G → Text → Instant → Instant → Bool × G) where
  -- The chain of checks behind an accepted token.
  pub record Accepted (cfg : Config) (token : Text) (now : Instant) (ks : K) (g : G) (c : Claims)
      : Type 0 where
    pub kid : Text
    pub kid_named : kid ≢ []
    pub header : Header
    pub payload : Bytes
    pub parsed : parse crypto token ≡ ok (header, payload)
    pub names_kid : header.kid ≡ kid
    pub pub_key : crypto.PublicKey
    pub key_found : (key ks kid).0 ≡ ok pub_key
    pub body : Bytes
    pub signature_ok : verify crypto (some pub_key) token ≡ ok body
    pub decoded : decode body ≡ some c
    pub claims_ok : check_claims cfg c now ≡ ok tt
    pub not_replayed : cfg.has_replay ≡ true → (seen g c.jti (unix c.expiry) now).0 ≡ false

  token_kid_sound :
      (token kid : Text)
      → token_kid crypto decode key seen token ≡ ok kid
      → (h : Header × Bytes) × (parse crypto token ≡ ok h) × (h.0.kid ≡ kid) × (kid ≢ [])
  unfolding token_kid
  token_kid_sound token kid e =
      let (h, parsed, e1) = >>=-eq-ok (as_invalid (parse crypto token)) _ e in
      let (_, named, e2) = >>=-eq-ok (guard (not (text_eq h.0.kid [])) invalid_token) _ e1 in
      (
        h,
        as_invalid-eq-ok (parse crypto token) parsed,
        ok-injective e2,
        λ z.
            cc
              (guard-eq-ok _ invalid_token named, (text_eq_iff h.0.kid []).1 (ok-injective e2 ∙ z)),
      )

  -- What the steps after the key lookup have found.
  ClaimsFound : Config → Text → Instant → crypto.PublicKey → Claims → Type 0
  ClaimsFound cfg token now pub_key c =
      (body : Bytes) × (verify crypto (some pub_key) token ≡ ok body)
      × (decode body ≡ some c)
      × (check_claims cfg c now ≡ ok tt)

  token_claims_sound :
      (cfg : Config) (token : Text) (now : Instant) (pub_key : crypto.PublicKey) (c : Claims)
      → token_claims crypto decode key seen cfg token now pub_key ≡ ok c
      → ClaimsFound cfg token now pub_key c
  unfolding token_claims ClaimsFound
  token_claims_sound cfg token now pub_key c e =
      let (body, verified, e1) = >>=-eq-ok (as_invalid (verify crypto (some pub_key) token)) _ e in
      let (c', read, e2) = >>=-eq-ok (or_fail (decode body) invalid_token) _ e1 in
      let (_, checked, e3) = >>=-eq-ok (check_claims cfg c' now) _ e2 in
      (
        body,
        as_invalid-eq-ok _ verified,
        or_fail-eq-ok (decode body) invalid_token read ∙ ap some (ok-injective e3),
        subst (λ (x : Claims). check_claims cfg x now ≡ ok tt) (ok-injective e3) checked,
      )

  replay_step_sound :
      (cfg : Config) (now : Instant) (g : G) (r : Result Claims) (c : Claims)
      → (replay_step crypto decode key seen cfg now g r).0 ≡ ok c
      → (r ≡ ok c) × (cfg.has_replay ≡ true → (seen g c.jti (unix c.expiry) now).0 ≡ false)
  unfolding replay_step
  replay_step_sound cfg now g (err e) c h = cc
  replay_step_sound cfg now g (ok d) c h = elim (Bool-cases cfg.has_replay) [
    | inr off ↦ (rw off at h, λ on. cc)
    | inl on ↦ guarded (rw on at h)
  ]
    where
      guarded :
          ((if (seen g d.jti (unix d.expiry) now).0 then err invalid_token else ok d) ≡ ok c)
          → (ok d ≡ ok c) × (cfg.has_replay ≡ true → (seen g c.jti (unix c.expiry) now).0 ≡ false)
      guarded k = elim (Bool-cases (seen g d.jti (unix d.expiry) now).0) [
        | inl dup ↦ cc (rw dup at k)
        | inr fresh ↦
            let same : ok d ≡ ok c = rw fresh at k in
            (
              same,
              λ on'.
                  subst (λ (x : Claims). (seen g x.jti (unix x.expiry) now).0 ≡ false)
                    (ok-injective same) fresh,
            )
      ]

  with_key_sound :
      (cfg : Config) (token : Text) (now : Instant) (g : G) (r : Result crypto.PublicKey × K)
      (c : Claims)
      → (with_key crypto decode key seen cfg token now g r).0 ≡ ok c
      → (pub_key : crypto.PublicKey) × (r.0 ≡ ok pub_key)
        × (token_claims crypto decode key seen cfg token now pub_key ≡ ok c)
        × (cfg.has_replay ≡ true → (seen g c.jti (unix c.expiry) now).0 ≡ false)
  unfolding with_key
  with_key_sound cfg token now g (err e, ks) c h = cc
  with_key_sound cfg token now g (ok pub_key, ks) c h =
      let (found, fresh) = replay_step_sound cfg now g _ c h in (pub_key, refl, found, fresh)

  with_kid_sound :
      (cfg : Config) (token : Text) (now : Instant) (ks : K) (g : G) (r : Result Text) (c : Claims)
      → token_kid crypto decode key seen token ≡ r
      → (with_kid crypto decode key seen cfg token now ks g r).0 ≡ ok c
      → Accepted cfg token now ks g c
  unfolding with_kid ClaimsFound
  with_kid_sound cfg token now ks g (err e) c named h = cc
  with_kid_sound cfg token now ks g (ok kid) c named h =
      let (hdr, parsed, same, nonempty) = token_kid_sound token kid named in
      let (pub_key, found, claims, fresh) = with_key_sound cfg token now g (key ks kid) c h in
      let (body, verified, read, checked) = token_claims_sound cfg token now pub_key c claims in
      record {
        kid = kid;
        kid_named = nonempty;
        header = hdr.0;
        payload = hdr.1;
        parsed = parsed;
        names_kid = same;
        pub_key = pub_key;
        key_found = found;
        body = body;
        signature_ok = verified;
        decoded = read;
        claims_ok = checked;
        not_replayed = fresh;
      }

  -- An accepted token names a non-empty key id in its header, the key source had a key for that id, the
  -- signature verifies under that key, the payload is the claims that are returned, those pass
  -- every registered-claim check, and a configured replay guard had not seen the token id.
  pub verify_token-Accepted :
      (cfg : Config) (token : Text) (now : Instant) (ks : K) (g : G) (c : Claims)
      → (verify_token crypto decode key seen cfg token now ks g).0 ≡ ok c
      → Accepted cfg token now ks g c
  unfolding verify_token
  verify_token-Accepted cfg token now ks g c h = with_kid_sound cfg token now ks g _ c refl h

  token_kid_complete :
      (token : Text) (h : Header × Bytes)
      → parse crypto token ≡ ok h
      → h.0.kid ≢ []
      → token_kid crypto decode key seen token ≡ ok h.0.kid
  unfolding token_kid
  token_kid_complete token h parsed named =
      rw parsed (ground (arith, named, text_eq_iff h.0.kid []))

  token_claims_complete :
      (cfg : Config) (token : Text) (now : Instant) (pub_key : crypto.PublicKey) (c : Claims)
      (body : Bytes)
      → verify crypto (some pub_key) token ≡ ok body
      → decode body ≡ some c
      → check_claims cfg c now ≡ ok tt
      → token_claims crypto decode key seen cfg token now pub_key ≡ ok c
  unfolding token_claims
  token_claims_complete cfg token now pub_key c body verified read checked =
      rw (verified, read, checked) refl

  replay_step_complete :
      (cfg : Config) (now : Instant) (g : G) (c : Claims)
      → (cfg.has_replay ≡ true → (seen g c.jti (unix c.expiry) now).0 ≡ false)
      → (replay_step crypto decode key seen cfg now g (ok c)).0 ≡ ok c
  unfolding replay_step
  replay_step_complete cfg now g c fresh = elim (Bool-cases cfg.has_replay) [
    | inr off ↦ rw off refl
    | inl on ↦ let f = fresh on in rw on (rw f refl)
  ]

  with_key_complete :
      (cfg : Config) (token : Text) (now : Instant) (g : G) (r : Result crypto.PublicKey × K)
      (c : Claims) (pub_key : crypto.PublicKey)
      → r.0 ≡ ok pub_key
      → token_claims crypto decode key seen cfg token now pub_key ≡ ok c
      → (cfg.has_replay ≡ true → (seen g c.jti (unix c.expiry) now).0 ≡ false)
      → (with_key crypto decode key seen cfg token now g r).0 ≡ ok c
  unfolding with_key
  with_key_complete cfg token now g (err e, ks) c pub_key found claims fresh = cc
  with_key_complete cfg token now g (ok k, ks) c pub_key found claims fresh =
      rw (ok-injective found, claims) (replay_step_complete cfg now g c fresh)

  -- These checks suffice: a token for which they all hold is accepted with its claims.
  pub Accepted-verify_token :
      (cfg : Config) (token : Text) (now : Instant) (ks : K) (g : G) (c : Claims)
      → Accepted cfg token now ks g c
      → (verify_token crypto decode key seen cfg token now ks g).0 ≡ ok c
  unfolding verify_token with_kid
  Accepted-verify_token cfg token now ks g c a =
      rw
        (token_kid_complete token (a.header, a.payload) a.parsed
          (λ z. a.kid_named (sym a.names_kid ∙ z)))
        (rw a.names_kid (
          with_key_complete cfg token now g (key ks a.kid) c a.pub_key a.key_found
            (token_claims_complete cfg token now a.pub_key c a.body a.signature_ok a.decoded
              a.claims_ok)
            a.not_replayed))

  replay_step-state :
      (cfg : Config) (now : Instant) (g : G) (c : Claims)
      → cfg.has_replay ≡ true
      → (replay_step crypto decode key seen cfg now g (ok c)).1
        ≡ (seen g c.jti (unix c.expiry) now).1
  unfolding replay_step
  replay_step-state cfg now g c on = rw on refl

  with_key-state :
      (cfg : Config) (token : Text) (now : Instant) (g : G) (r : Result crypto.PublicKey × K)
      (c : Claims) (pub_key : crypto.PublicKey)
      → r.0 ≡ ok pub_key
      → token_claims crypto decode key seen cfg token now pub_key ≡ ok c
      → cfg.has_replay ≡ true
      → (with_key crypto decode key seen cfg token now g r).2 ≡ (seen g c.jti (unix c.expiry) now).1
  unfolding with_key
  with_key-state cfg token now g (err e, ks) c pub_key found claims on = cc
  with_key-state cfg token now g (ok k, ks) c pub_key found claims on =
      rw (ok-injective found, claims) (replay_step-state cfg now g c on)

  -- With a replay guard, the state after an accepted token is what the guard made of its id and expiry.
  pub Accepted-state :
      (cfg : Config) (token : Text) (now : Instant) (ks : K) (g : G) (c : Claims)
      → Accepted cfg token now ks g c
      → cfg.has_replay ≡ true
      → (verify_token crypto decode key seen cfg token now ks g).2
        ≡ (seen g c.jti (unix c.expiry) now).1
  unfolding verify_token with_kid
  Accepted-state cfg token now ks g c a on =
      rw
        (token_kid_complete token (a.header, a.payload) a.parsed
          (λ z. a.kid_named (sym a.names_kid ∙ z)))
        (rw a.names_kid (
          with_key-state cfg token now g (key ks a.kid) c a.pub_key a.key_found
            (token_claims_complete cfg token now a.pub_key c a.body a.signature_ok a.decoded
              a.claims_ok)
            on))
