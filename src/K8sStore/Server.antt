-- ===== src/K8sStore/Server.antt =====
-- A small API server that meets the contract which k8sstore/k8sstore.go relies on, for the tests.
use tsjwt.Keys.{current}
use tsjwt.K8sStore.Contract.{IsWritten, ApiServer}
use tsjwt.Jwt.Coordinates.{take-append, drop-append}
use tsjwt.Prelude.{
  leb, if◌then◌else◌, length, take, drop, Text, codes, text_eq, lookup, ℕ, zero, suc, ◌≤◌, ◌≡◌,
  refl, ap, Option, none, some, [], ◌∷◌, ◌++◌, arith, leb→le, Bool-cases, text_eq_iff, sym, ◌∙◌,
  ◌≢◌, inl, inr,
}
use tsjwt.Errors.{other, Result, err, ok, ok-injective}
use tsjwt.K8sStore.{Store, Method, get, put, post, Request, ConfigMap, keys_json, limit, or_empty}

-- The server holds the keys.json of the one ConfigMap, whose version is a mark before its text.
abbrev pub World : Type 0
World = Option Text

abbrev pub held_sample : World → Option (Text × Text)
held_sample none = none
held_sample (some t) = some (b'v' ∷ t, t)

-- A ConfigMap goes over the wire as the length of its version, its version and its keys.json.
abbrev pub write_sample : ConfigMap → Text
write_sample cm = length cm.version ∷ (cm.version ++ or_empty (lookup keys_json cm.contents))

abbrev pub read_sample : Text → Result ConfigMap
read_sample t = ok (record {
  name = codes "keys";
  namespace = codes "ns";
  version = b'v' ∷ t;
  contents = (keys_json, t) ∷ [];
})

answer_get : World → Result (ℕ × Text) × World
answer_get none = (ok (404, []), none)
answer_get (some t) = (if leb (length t) limit then ok (200, t) else ok (500, []), some t)

answer_post : World → Text → Result (ℕ × Text) × World
answer_post none payload = (ok (201, []), some payload)
answer_post (some t) payload = (ok (409, []), some t)

answer_put : World → Text → Text → Result (ℕ × Text) × World
unfolding text_eq
answer_put none version payload = (ok (404, []), none)
answer_put (some t) version payload =
    if text_eq (b'v' ∷ t) version then (ok (200, []), some payload) else (ok (409, []), some t)

unfoldable pub answer : World → Method → Option Text → Result (ℕ × Text) × World
unfolding answer_get answer_post answer_put
answer w get body = answer_get w
answer w put (some (n ∷ rest)) = answer_put w (take n rest) (drop n rest)
answer w post (some (n ∷ rest)) = answer_post w (drop n rest)
answer w put body = (err other, w)
answer w post body = (err other, w)

abbrev pub send_sample : World → Request → Result (ℕ × Text) × World
send_sample w r = answer w r.method r.body

take-all : (n : ℕ) (t : Text) → length t ≤ n → take n t ≡ t
take-all zero [] h = refl
take-all zero (c ∷ t) h = absurd (omega arith)
take-all (suc n) [] h = refl
take-all (suc n) (c ∷ t) h = ap (λ (l : Text). c ∷ l) (take-all n t (omega arith))

abbrev pub store : Store
store = record {
  name = codes "keys";
  namespace = codes "ns";
  host = codes "https://api";
  token = codes "t";
  token_path = [];
}

same_code : (m n : ℕ) (t u : Text) → ◌≡◌ {A = Result (ℕ × Text)} (ok (m, t)) (ok (n, u)) → m ≡ n
same_code m n t u e = ap (λ (p : ℕ × Text). p.0) (ok-injective e)

same_text : (m n : ℕ) (t u : Text) → ◌≡◌ {A = Result (ℕ × Text)} (ok (m, t)) (ok (n, u)) → t ≡ u
same_text m n t u e = ap (λ (p : ℕ × Text). p.1) (ok-injective e)

get_found_sample :
    (w : World) (text : Text)
    → (answer_get w).0 ≡ ok (200, text)
    → (cm : ConfigMap) × (read_sample (take limit text) ≡ ok cm)
      × (held_sample w ≡ some (cm.version, or_empty (lookup keys_json cm.contents)))
      × (cm.version ≢ [])
unfolding answer_get lookup text_eq
get_found_sample none text e = absurd (omega (arith, same_code 404 200 [] text e))
get_found_sample (some t) text e = elim (Bool-cases (leb (length t) limit)) [
  | inl short ↦
      let sent : ok (200, t) ≡ ok (200, text) = rw short at e in
      let same = sym (same_text 200 200 t text sent) in
      let whole : take limit text ≡ t =
        ap (take limit) same ∙ take-all limit t (leb→le (length t) limit short) in
      (_, refl, ap (λ (x : Text). some (b'v' ∷ x, x)) (sym whole), λ z. cc z)
  | inr long ↦ absurd (omega (arith, same_code 500 200 [] text (rw long at e)))
]

get_missing_sample :
    (w : World) (text : Text) → (answer_get w).0 ≡ ok (404, text) → held_sample w ≡ none
unfolding answer_get
get_missing_sample none text e = refl
get_missing_sample (some t) text e = elim (Bool-cases (leb (length t) limit)) [
  | inl short ↦ absurd (omega (arith, same_code 200 404 t text (rw short at e)))
  | inr long ↦ absurd (omega (arith, same_code 500 404 [] text (rw long at e)))
]

get_unchanged_sample : (w : World) → held_sample (answer_get w).1 ≡ held_sample w
unfolding answer_get
get_unchanged_sample none = refl
get_unchanged_sample (some t) = refl

post_done_sample :
    (w : World) (text payload payload' : Text) (code : ℕ)
    → payload' ≡ payload
    → (answer_post w payload').0 ≡ ok (code, text)
    → IsWritten code
    → (held_sample w ≡ none)
      × ((v : Text) × (held_sample (answer_post w payload').1 ≡ some (v, payload)))
unfolding answer_post
post_done_sample none text payload payload' code same e c =
    (refl, (b'v' ∷ payload', ap (λ (t : Text). some (b'v' ∷ payload', t)) same))
post_done_sample (some t) text payload payload' code same e c =
    let refused = same_code 409 code [] text e in
    absurd (elim c [ inl x ↦ omega arith | inr x ↦ omega arith ])

put_done_sample :
    (w : World) (text payload payload' version version' : Text) (code : ℕ)
    → payload' ≡ payload
    → version' ≡ version
    → (answer_put w version' payload').0 ≡ ok (code, text)
    → IsWritten code
    → ((was : Text) × (held_sample w ≡ some (version, was)))
      × ((v : Text) × (held_sample (answer_put w version' payload').1 ≡ some (v, payload)))
unfolding answer_put
put_done_sample none text payload payload' version version' code same at e c =
    let refused = same_code 404 code [] text e in
    absurd (elim c [ inl x ↦ omega arith | inr x ↦ omega arith ])
put_done_sample (some t) text payload payload' version version' code same at e c =
    elim (Bool-cases (text_eq (b'v' ∷ t) version')) [
      | inl current ↦
          rw (current, answer_put)
            (
              (
                t,
                ap (λ (v : Text). some (v, t)) ((text_eq_iff (b'v' ∷ t) version').0 current ∙ at),
              ),
              (b'v' ∷ payload', ap (λ (x : Text). some (b'v' ∷ payload', x)) same),
            )
      | inr stale ↦
          let refused = same_code 409 code [] text (rw (stale, answer_put) at e) in
          absurd (elim c [ inl x ↦ omega arith | inr x ↦ omega arith ])
    ]

pub api_sample : ApiServer send_sample read_sample write_sample store held_sample
unfolding answer lookup text_eq
api_sample = record {
  get_unchanged = λ w token. get_unchanged_sample w;
  get_missing = λ w token text e. get_missing_sample w text e;
  get_found = λ w token text e. get_found_sample w text e;
  post_done =
      λ w token text payload code e c. post_done_sample w text payload payload code refl e c;
  put_done = λ w token text payload version code filled e c.
      put_done_sample w text payload _ version _ code
        (drop-append (length version) version payload refl)
        (take-append (length version) version payload refl) e c;
}
