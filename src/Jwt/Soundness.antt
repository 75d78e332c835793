-- ===== src/Jwt/Soundness.antt =====
-- What Verify of jwt/jwt.go has checked when it accepts a token: one algorithm, one curve, a
-- signature of fixed width over the first two segments.
use tsjwt.Prelude.{
  ◌==◌, ==_iff, some-injective, length, take, drop, Text, text_eq_iff, text_eq, split, equal_fold,
  ◌*◌, ◌≡◌, refl, sym, ap, ◌∙◌, true, ◌||◌, Option, none, some, List, [], ◌∷◌, ◌++◌, arith,
}
use tsjwt.Errors.{
  Error, malformed, algorithm, signature, key_mismatch, Result, ok, err, guard, or_fail, >>=-eq-ok,
  guard-eq-ok, ok-injective,
}
use tsjwt.Crypto.{Bytes, Header, Crypto}
use tsjwt.Jwt.{es256, jwt_type, coord_len, set_bytes, parse_parts, parse, verify_parts, verify}

or_fail-eq-ok {ℓ} :
    {A : Type ℓ} (o : Option A) (e : Error) {a : A} → or_fail o e ≡ ok a → o ≡ some a
or_fail-eq-ok none e h = cc
or_fail-eq-ok (some a) e h = ap some (ok-injective h)

module _ (c : Crypto) where
  -- The checks of a token that is accepted with a key, and the payload that it carries.
  pub record Checked (key : c.PublicKey) (token : Text) (body : Bytes) : Type 0 where
    pub curve : c.is_p256 key ≡ true
    pub p0 : Text
    pub p1 : Text
    pub p2 : Text
    pub three : split token b'.' ≡ p0 ∷ p1 ∷ p2 ∷ []
    pub header : Header
    pub parsed : parse c token ≡ ok (header, body)
    pub es256_only : header.alg ≡ es256
    pub sig : Bytes
    pub sig_decoded : c.unb64 p2 ≡ some sig
    pub sig_width : length sig ≡ 2 * coord_len
    pub signed :
        c.ecdsa_verify key
          (c.sha256 (p0 ++ (b'.' ∷ p1)))
          (set_bytes (take coord_len sig) 0)
          (set_bytes (drop coord_len sig) 0)
        ≡ true

  record PartsParsed (p0 p1 : Text) (h : Header) (body : Bytes) : Type 0 where
    alg_ok : h.alg ≡ es256
    body_ok : c.unb64 p1 ≡ some body

  parse_parts_sound :
      (p0 p1 : Text) (h : Header) (body : Bytes)
      → parse_parts c p0 p1 ≡ ok (h, body)
      → PartsParsed p0 p1 h body
  unfolding parse_parts
  parse_parts_sound p0 p1 h body e =
      let (raw_hdr, _, e1) = >>=-eq-ok (or_fail (c.unb64 p0) malformed) _ e in
      let (h', _, e2) = >>=-eq-ok (or_fail (c.unmarshal_header raw_hdr) malformed) _ e1 in
      let (_, alg, e3) = >>=-eq-ok (guard (text_eq h'.alg es256) algorithm) _ e2 in
      let (_, typ, e4) =
        >>=-eq-ok (guard (text_eq h'.typ [] || equal_fold h'.typ jwt_type) malformed) _ e3 in
      let (body', read, e5) = >>=-eq-ok (or_fail (c.unb64 p1) malformed) _ e4 in
      record {
        alg_ok =
            ap (λ (t : Header × Bytes). t.0.alg) (sym (ok-injective e5))
            ∙ (text_eq_iff h'.alg es256).0 (guard-eq-ok _ algorithm alg);
        body_ok =
            or_fail-eq-ok (c.unb64 p1) malformed read
            ∙ ap (λ (t : Header × Bytes). some t.1) (ok-injective e5);
      }

  parse_three :
      (token p0 p1 p2 : Text)
      → split token b'.' ≡ p0 ∷ p1 ∷ p2 ∷ []
      → parse c token ≡ parse_parts c p0 p1
  unfolding parse
  parse_three token p0 p1 p2 e = rw (e, parse) refl

  verify_parts_sound :
      (key : c.PublicKey) (token p0 p1 p2 : Text) (body : Bytes)
      → c.is_p256 key ≡ true
      → split token b'.' ≡ p0 ∷ p1 ∷ p2 ∷ []
      → verify_parts c key token p0 p1 p2 ≡ ok body
      → Checked key token body
  unfolding verify_parts
  verify_parts_sound key token p0 p1 p2 body curve three e =
      let ((h, body'), parsed, e1) = >>=-eq-ok (parse c token) _ e in
      let (sig, decoded, e2) = >>=-eq-ok (or_fail (c.unb64 p2) malformed) _ e1 in
      let (_, width, e3) = >>=-eq-ok (guard (length sig == 2 * coord_len) malformed) _ e2 in
      let (_, valid, e4) = >>=-eq-ok (guard (c.ecdsa_verify key _ _ _) signature) _ e3 in
      let parts =
        parse_parts_sound p0 p1 h body' (sym (parse_three token p0 p1 p2 three) ∙ parsed) in
      let same : body' ≡ body =
        some-injective (sym parts.body_ok ∙ or_fail-eq-ok (c.unb64 p1) malformed e4) in
      record {
        curve = curve;
        p0 = p0;
        p1 = p1;
        p2 = p2;
        three = three;
        header = h;
        parsed = parsed ∙ ap (λ (b : Bytes). ok (h, b)) same;
        es256_only = parts.alg_ok;
        sig = sig;
        sig_decoded = or_fail-eq-ok (c.unb64 p2) malformed decoded;
        sig_width = (==_iff _ _).0 (guard-eq-ok _ malformed width);
        signed = guard-eq-ok _ signature valid;
      }

  verify_segments : c.PublicKey → Text → List Text → Result Bytes
  verify_segments key token (p0 ∷ p1 ∷ p2 ∷ []) = verify_parts c key token p0 p1 p2
  verify_segments key token _ = err malformed

  verify_segments_sound :
      (key : c.PublicKey) (token : Text) (ps : List Text) (body : Bytes)
      → c.is_p256 key ≡ true
      → split token b'.' ≡ ps
      → verify_segments key token ps ≡ ok body
      → Checked key token body
  unfolding verify_segments
  verify_segments_sound key token (p0 ∷ p1 ∷ p2 ∷ []) body curve three e =
      verify_parts_sound key token p0 p1 p2 body curve three e
  verify_segments_sound key token [] body curve three e = cc
  verify_segments_sound key token (p0 ∷ []) body curve three e = cc
  verify_segments_sound key token (p0 ∷ p1 ∷ []) body curve three e = cc
  verify_segments_sound key token (p0 ∷ p1 ∷ p2 ∷ p3 ∷ ps) body curve three e = cc

  -- If Verify accepts a token, the key is a P-256 key, the token has three segments, its header names
  -- ES256, its signature has 64 bytes and is an ECDSA signature by the key over the first two
  -- segments, and the payload returned is the one that Parse reads.
  pub verify-Checked :
      (key : Option c.PublicKey) (token : Text) (body : Bytes)
      → verify c key token ≡ ok body
      → (k : c.PublicKey) × (key ≡ some k) × Checked k token body
  unfolding verify verify_segments
  verify-Checked none token body e = cc
  verify-Checked (some k) token body e =
      let (_, curve, e1) = >>=-eq-ok (guard (c.is_p256 k) key_mismatch) _ e in
      (
        k,
        refl,
        verify_segments_sound k token (split token b'.') body (guard-eq-ok _ key_mismatch curve)
            refl (ground (arith, e1)),
      )
