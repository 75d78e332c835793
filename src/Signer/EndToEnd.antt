-- ===== src/Signer/EndToEnd.antt =====
-- A token from signer/signer.go at the verifier of verifier/verifier.go: what the two promise each other.
use tsjwt.Verifier.Accepts.{Accepted-verify_token}
use tsjwt.Jwt.RoundTrip.{Laws, verify-sign}
use tsjwt.Jwt.{es256, jwt_type, sign, verify}
use tsjwt.Crypto.{Bytes, Crypto}
use tsjwt.Claims.{Claims}
use tsjwt.Verifier.Bounds.{check_claims_iff}
use tsjwt.Tenant.{Identity, Tenant, Grant}
use tsjwt.Signer.Minting.{identity_valid-named, mint-Minted}
use tsjwt.Signer.{Config, negate, claims_of, mint}
use tsjwt.Errors.{ok, Result, ok-injective, key_mismatch, other, err}
use tsjwt.Prelude.{
  pos, ℕ, suc, ◌+◌, ◌-◌, ◌*◌, ◌/◌, ◌^◌, ◌≤◌, ◌<◌, ◌≡◌, ◌≢◌, arith, Text, zero, refl, sym, ap, ◌∙◌,
  inr, [], some-injective, trim, negsuc, subst, Bool, true, false, Option, none, some, Bool-cases,
  inl,
}
use tsjwt.GoTime.{Instant, second, epoch, to_unix, unix, add_time, unix-to_unix, add_time-pos}
use tsjwt.Verifier as V

-- The times of a token whose lifetime is `life` seconds, minted in a second after the epoch and before
-- the year 73 billion by a signer with the leeway `skew`, and read between its minting and a second
-- before its expiry.
pub record IsTimely (life skew now at : ℕ) : Type 0 where
  pub alive : 0 < life
  pub after_epoch : (epoch + 1) * second + skew ≤ now
  pub fits : at + life * second < (epoch + 2 ^ 61) * second
  pub minted : now ≤ at
  pub unexpired : at + second ≤ now + life * second

-- A verifier's limits for such a token.
pub record Admits (cfg : V.Config) (life : ℕ) : Type 0 where
  pub max_life : ℕ
  pub max_life_ok : cfg.max_lifetime ≡ pos (suc max_life)
  pub max_life_fits : suc max_life < second * 2 ^ 32
  pub long_enough : life * second ≤ suc max_life
  pub slack : ℕ
  pub slack_ok : cfg.leeway ≡ pos slack
  pub slack_fits : slack < second * 2 ^ 32

to_unix-set : (t : Instant) → (epoch + 1) * second ≤ t → to_unix t ≢ pos 0
unfolding to_unix
to_unix-set t h = ground arith

read_back :
    (t : Instant)
    → (epoch + 1) * second ≤ t
    → t < (epoch + 2 ^ 62) * second
    → unix (to_unix t) ≡ t / second * second
read_back t h k = unix-to_unix t (omega arith) k

add_time-negsuc : (t k : ℕ) → second + suc k ≤ t → add_time t (negsuc k) ≡ t - suc k
unfolding add_time
add_time-negsuc t k h = ground arith

-- What Mint writes as expiry and as not-before, read back.
expiry-read :
    (life skew now at : ℕ)
    → IsTimely life skew now at
    → (unix (to_unix (add_time now (pos (life * second)))) ≡ now / second * second + life * second)
      × (to_unix (add_time now (pos (life * second))) ≢ pos 0)
expiry-read life skew now at t =
    let sum = add_time-pos now (life * second) (omega (arith, t.fits, t.minted)) in
    (
      ap (λ x. unix (to_unix x)) sum
          ∙ read_back (now + life * second) (omega (arith, t.after_epoch))
              (omega (arith, t.fits, t.minted))
          ∙ omega arith,
      λ z.
          to_unix-set (now + life * second) (omega (arith, t.after_epoch))
            (ap to_unix (sym sum) ∙ z),
    )

add_zero : (n : ℕ) → n + 0 ≡ n
add_zero n = omega arith

not_before-read :
    (life skew now at : ℕ)
    → IsTimely life skew now at
    → unix (to_unix (add_time now (negate (pos skew)))) ≤ now
not_before-read life zero now at t =
    rw (add_time-pos now 0 (omega (arith, t.fits, t.minted)), add_zero now)
      (omega
        (arith, read_back now (omega (arith, t.after_epoch)) (omega (arith, t.fits, t.minted))))
not_before-read life (suc k) now at t = rw (add_time-negsuc now k (omega (arith, t.after_epoch))) (
    omega (
      arith,
      read_back (now - suc k) (omega (arith, t.after_epoch)) (omega (arith, t.fits, t.minted)),
    ))

-- The claims that Mint writes pass the registered-claim checks of a verifier with the same issuer and
-- audience.
minted-passes :
    (cfg : Config) (vcfg : V.Config) (id : Identity) (grant : Grant) (held : Tenant) (jti : Text)
    (life skew now at : ℕ)
    → cfg.ttl ≡ pos (life * second)
    → cfg.leeway ≡ pos skew
    → vcfg.issuer ≡ cfg.issuer
    → IsTimely life skew now at
    → Admits vcfg life
    → id.subject ≢ []
    → jti ≢ []
    → V.check_claims vcfg (claims_of cfg id grant held vcfg.audience now jti) at ≡ ok tt
unfolding claims_of
minted-passes cfg vcfg id grant held jti life skew now at ttl lee iss t a sub named =
    let (back, set) = expiry-read life skew now at t in
    let iat = read_back now (omega (arith, t.after_epoch)) (omega (arith, t.fits, t.minted)) in
    let late = add_time-pos at (suc a.max_life) (omega (arith, t.fits, a.max_life_fits)) in
    let later =
      add_time-pos (at + suc a.max_life) a.slack
        (omega (arith, t.fits, a.max_life_fits, a.slack_fits)) in
    let room =
      add_time-pos (now / second * second + life * second) a.slack
        (omega (arith, t.fits, t.minted, a.slack_fits)) in
    let soon = add_time-pos at a.slack (omega (arith, t.fits, a.slack_fits)) in
    (check_claims_iff vcfg _ at a.max_life a.max_life_ok (omega (arith, a.max_life_fits))).1 (
      record { issuer_ok = sym iss; audience_ok = refl; subject_ok = sub; jti_ok = named },
      record {
        expiry_set = rw ttl set;
        not_expired = rw (ttl, a.slack_ok, back, room) (omega (arith, t.unexpired));
        started = inr (
            rw (lee, a.slack_ok, soon)
              (omega (arith, not_before-read life skew now at t, t.minted)));
      },
      record {
        iat_set = to_unix-set now (omega (arith, t.after_epoch));
        positive = rw (ttl, back, iat) (omega (arith, t.alive));
        short = rw (ttl, back, iat) (omega (arith, a.long_enough));
        near =
            rw (ttl, back, a.max_life_ok, a.slack_ok, late, later)
              (omega (arith, a.long_enough, t.minted));
      },
    )

module _ (c : Crypto) (laws : Laws c) (encode : Claims → Option Bytes)
    (decode : Bytes → Option Claims) (identify : Text → Result Identity)
    (tenants_of : Identity → Result Grant) {K G : Type 0} (key : K → Text → Result c.PublicKey × K)
    (seen : G → Text → Instant → Instant → Bool × G) where
  sign-encoded :
      (k : c.PrivateKey) (kid : Text) (o : Option Bytes) (random : Bytes) {token : Text}
      → sign c (some k) kid o random ≡ ok token
      → (b : Bytes) × (o ≡ some b) × (sign c (some k) kid (some b) random ≡ ok token)
  unfolding sign
  sign-encoded k kid none random {token} e = elim (Bool-cases (c.is_p256 (c.public k))) [
    | inl good ↦ let bad : err other ≡ ok token = rw good at e in cc
    | inr wrong ↦ let bad : err key_mismatch ≡ ok token = rw wrong at e in cc
  ]
  sign-encoded k kid (some b) random e = (b, refl, e)

  -- A token that Mint returned, under a non-empty key id and with a non-empty token id, is accepted by a
  -- verifier with the same issuer, for the audience it was minted for, whose decoder reads the claims back,
  -- whose key source gives the signing key id the public half of the signing key and whose replay guard
  -- has not seen the id: from the minting, which is a second and the signer's leeway after the epoch or
  -- later, until a second before the expiry, for a lifetime of whole seconds within the verifier's limit,
  -- Verify returns the minted claims. The encodings and ECDSA keep their documented laws.
  pub mint-verify_token :
      (cfg : Config) (vcfg : V.Config) (priv : c.PrivateKey) (kid : Text) (id_bytes random : Bytes)
      (life skew now at : ℕ) (remote_addr requested : Text) (ks : K) (g : G) {token : Text}
      {claims : Claims}
      → mint c encode identify tenants_of cfg
          (ok (priv, kid))
          (some id_bytes)
          random
          now
          remote_addr
          vcfg.audience
          requested
        ≡ ok (token, claims)
      → cfg.ttl ≡ pos (life * second)
      → cfg.leeway ≡ pos skew
      → vcfg.issuer ≡ cfg.issuer
      → IsTimely life skew now at
      → Admits vcfg life
      → kid ≢ []
      → c.b64 id_bytes ≢ []
      → (key ks kid).0 ≡ ok (c.public priv)
      → ((body : Bytes) → encode claims ≡ some body → decode body ≡ some claims)
      → (vcfg.has_replay ≡ true → (seen g claims.jti (unix claims.expiry) at).0 ≡ false)
      → (V.verify_token c decode key seen vcfg token at ks g).0 ≡ ok claims
  unfolding trim
  mint-verify_token cfg vcfg priv kid id_bytes random life skew now at remote_addr requested ks g
        {token} {claims} e ttl lee iss t a kid_ok jti_ok found reads fresh =
      let m =
        mint-Minted c encode identify tenants_of cfg (ok (priv, kid)) (some id_bytes) random now
          remote_addr vcfg.audience requested e in
      let same_key = ok-injective m.current_ok in
      let (body, written, signed) = sign-encoded m.key m.kid (encode claims) random m.signed in
      let (parsed, verified) = verify-sign c laws m.key m.kid body random signed in
      Accepted-verify_token c decode key seen vcfg token at ks g claims (record {
        kid = kid;
        kid_named = kid_ok;
        header = record { alg = es256; typ = jwt_type; kid = m.kid };
        payload = body;
        parsed = parsed;
        names_kid = sym (ap (λ p. p.1) same_key);
        pub_key = c.public priv;
        key_found = found;
        body = body;
        signature_ok =
            subst (λ (k : c.PrivateKey). verify c (some (c.public k)) token ≡ ok body)
              (sym (ap (λ p. p.0) same_key)) verified;
        decoded = reads body written;
        claims_ok =
            subst (λ (x : Claims). V.check_claims vcfg x at ≡ ok tt) m.claims_ok
              (minted-passes cfg vcfg m.who m.grant m.held (c.b64 m.id_bytes) life skew now at ttl
                lee iss t a (λ z. identity_valid-named m.who m.who_ok (ap trim z))
                (λ z. jti_ok (ap c.b64 (some-injective m.id_read) ∙ z)));
        not_replayed = fresh;
      })
