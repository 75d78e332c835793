-- ===== src/Verifier/Middleware.antt =====
-- The HTTP middleware of verifier/verifier.go. Header names are compared without case.
use tsjwt.Prelude.{
  if◌then◌else◌, Bool-cases, Text, codes, text_eq, trim_prefix, equal_fold, ◌≡◌, ap, ◌≢◌, inl, inr,
  Bool, Option, List, [], ◌∷◌, arith, text_eq_iff, ◌==◌, ==_iff, some-injective, All, cut_prefix,
  refl, ◌∙◌, ◌⊎◌, true, false, none, some, ◌++◌,
}
use tsjwt.Errors.{Result, ok, err}
use tsjwt.Verifier.{Config, verify_token}
use tsjwt.Crypto.{Bytes, Crypto}
use tsjwt.Claims.{Claims}
use tsjwt.GoTime.{Instant}
use tsjwt.Verifier.Accepts.{Accepted, verify_token-Accepted}

-- Header.Get
get_header : Text → List (Text × Text) → Text
unfolding equal_fold
get_header name [] = []
get_header name ((n, v) ∷ hs) = if equal_fold n name then v else get_header name hs

-- The token that a header carries, bare or after "Bearer ".
abbrev bare : Text → Text
bare tok = trim_prefix tok (codes "Bearer ")

-- What a handler behind the middleware sees: nothing, after the answer 401, or the request with claims.
pub data Passage : Type 0 where
  unauthorized : Passage
  handled : Claims → Passage

passage : Result Claims → Passage
passage (err e) = unauthorized
passage (ok c) = handled c

passage-handled : (r : Result Claims) (c : Claims) → passage r ≡ handled c → r ≡ ok c
unfolding passage
passage-handled (err e) c h = cc
passage-handled (ok d) c h = ap ok (handled-injective h)
  where
    handled-injective : handled d ≡ handled c → d ≡ c
    handled-injective e = ground arith

-- The first header whose name is the given one up to case has this value.
pub record Carries (name value : Text) (hs : List (Text × Text)) : Type 0 where
  pub spelled : Text
  pub before : List (Text × Text)
  pub after : List (Text × Text)
  pub stands : hs ≡ before ++ (spelled, value) ∷ after
  pub first : All (λ (h : Text × Text). equal_fold h.0 name ≡ false) before
  pub folds : equal_fold spelled name ≡ true

-- The header that the middleware is to read.
abbrev pub IsHeader : Text → Text → Type 0
IsHeader header name =
    ((header ≡ []) × (name ≡ codes "X-Tailnet-Jwt-Assertion")) ⊎ ((header ≢ []) × (name ≡ header))

-- The token of a header's value: what follows "Bearer ", or the value where it does not start so.
abbrev pub IsTokenOf : Text → Text → Type 0
IsTokenOf value token =
    (value ≡ codes "Bearer " ++ token)
    ⊎ ((value ≡ token) × ((rest : Text) → value ≢ codes "Bearer " ++ rest))

carries-later :
    (n v name value : Text) (hs : List (Text × Text))
    → equal_fold n name ≡ false
    → Carries name value hs
    → Carries name value ((n, v) ∷ hs)
carries-later n v name value hs miss later = record {
  spelled = later.spelled;
  before = (n, v) ∷ later.before;
  after = later.after;
  stands = ap (λ (l : List (Text × Text)). (n, v) ∷ l) later.stands;
  first = (miss, later.first);
  folds = later.folds;
}

get_header-Carries :
    (name : Text) (hs : List (Text × Text))
    → get_header name hs ≢ []
    → Carries name (get_header name hs) hs
unfolding get_header
get_header-Carries name [] filled = absurd (filled refl)
get_header-Carries name ((n, v) ∷ hs) filled = elim (Bool-cases (equal_fold n name)) [
  | inl hit ↦
      rw hit
        (record { spelled = n; before = []; after = hs; stands = refl; first = tt; folds = hit })
  | inr miss ↦
      let later : get_header name hs ≢ [] = rw miss at filled in
      rw miss (carries-later n v name _ hs miss (get_header-Carries name hs later))
]

cut_prefix-some : (s p rest : Text) → cut_prefix s p ≡ some rest → s ≡ p ++ rest
unfolding cut_prefix
cut_prefix-some s [] rest e = some-injective e
cut_prefix-some [] (q ∷ p) rest e = absurd (cc e)
cut_prefix-some (c ∷ s) (q ∷ p) rest e = elim (Bool-cases (c == q)) [
  | inl same ↦
      let cut : cut_prefix s p ≡ some rest = rw same at e in
      rw ((==_iff c q).0 same) (ap (λ (t : Text). q ∷ t) (cut_prefix-some s p rest cut))
  | inr other_code ↦ let no : none ≡ some rest = rw other_code at e in absurd (cc no)
]

cut_prefix-append : (p rest : Text) → cut_prefix (p ++ rest) p ≡ some rest
unfolding cut_prefix
cut_prefix-append [] rest = refl
cut_prefix-append (q ∷ p) rest = rw ((==_iff q q).1 refl) (cut_prefix-append p rest)

bare-IsTokenOf : (value : Text) → IsTokenOf value (bare value)
unfolding trim_prefix
bare-IsTokenOf value = cases (cut_prefix value (codes "Bearer ")) refl
  where
    cases :
        (o : Option Text)
        → cut_prefix value (codes "Bearer ") ≡ o
        → IsTokenOf value (elim o [ none ↦ value | some rest ↦ rest ])
    cases none e = inr (
      refl,
      λ rest starts.
          let cut : cut_prefix value (codes "Bearer ") ≡ some rest =
            ap (λ (t : Text). cut_prefix t (codes "Bearer ")) starts
            ∙ cut_prefix-append (codes "Bearer ") rest in
          cc (e, cut),
    )
    cases (some rest) e = inl (cut_prefix-some value (codes "Bearer ") rest e)

IsHeader-name :
    (header : Text)
    → IsHeader header (if text_eq header [] then codes "X-Tailnet-Jwt-Assertion" else header)
IsHeader-name header = elim (Bool-cases (text_eq header [])) [
  | inl empty ↦ inl ((text_eq_iff header []).0 empty, rw empty refl)
  | inr full ↦ inr ((λ e. cc (full, (text_eq_iff header []).1 e)), rw full refl)
]

module _ (crypto : Crypto) (decode : Bytes → Option Claims) {K G : Type 0}
    (key : K → Text → Result crypto.PublicKey × K)
    (seen : G → Text → Instant → Instant → Bool × G) where
  -- Middleware: the passage, and the states of the key source and the replay guard after it.
  unfoldable pub middleware : Config → Text → List (Text × Text) → Instant → K → G → Passage × K × G
  unfolding get_header passage text_eq trim_prefix
  middleware cfg header hs now ks g =
      let name = if text_eq header [] then codes "X-Tailnet-Jwt-Assertion" else header in
      let tok = bare (get_header name hs) in
      if text_eq tok []
      then (unauthorized, ks, g)
      else (let (r, ks', g') = verify_token crypto decode key seen cfg tok now ks g in
          (passage r, ks', g'))

  -- The token of the request, and the checks that it passed.
  pub record Admitted (cfg : Config) (header : Text) (hs : List (Text × Text)) (now : Instant)
      (ks : K) (g : G) (c : Claims) : Type 0 where
    pub name : Text
    pub name_ok : IsHeader header name
    pub value : Text
    pub carried : Carries name value hs
    pub token : Text
    pub token_ok : IsTokenOf value token
    pub filled : token ≢ []
    pub accepted : Accepted crypto decode key seen cfg token now ks g c

  -- A handler behind the middleware runs only with claims that Verify accepted for a token that is not empty,
  -- with the whole chain of checks behind them. The token is that of the first header with the configured
  -- name (X-Tailnet-Jwt-Assertion where none is configured) up to case: its value without a leading
  -- "Bearer ".
  pub middleware-Accepted :
      (cfg : Config) (header : Text) (hs : List (Text × Text)) (now : Instant) (ks : K) (g : G)
      (c : Claims)
      → (middleware cfg header hs now ks g).0 ≡ handled c
      → Admitted cfg header hs now ks g c
  unfolding middleware trim_prefix
  middleware-Accepted cfg header hs now ks g c h =
      let name = if text_eq header [] then codes "X-Tailnet-Jwt-Assertion" else header in
      let value = get_header name hs in
      elim (Bool-cases (text_eq (bare value) [])) [
        | inl empty ↦ let bad : unauthorized ≡ handled c = rw empty at h in cc
        | inr full ↦
            let filled : bare value ≢ [] = λ z. cc (full, (text_eq_iff (bare value) []).1 z) in
            record {
              name = name;
              name_ok = IsHeader-name header;
              value = value;
              carried = get_header-Carries name hs (λ none_sent. filled (ap bare none_sent));
              token = bare value;
              token_ok = bare-IsTokenOf value;
              filled = filled;
              accepted =
                  verify_token-Accepted crypto decode key seen cfg (bare value) now ks g c
                    (passage-handled _ c (rw full at h));
            }
      ]
