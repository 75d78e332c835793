-- ===== src/Tailnet/AuthKey/Exchange.antt =====
-- What Mint of tsnetid/authkey.go sends, and what an auth key comes from.
use tsjwt.Tailnet.AuthKey.Requests.{
  text-ne, AsksToken, AsksKey, IsValidity, token_post-AsksToken, key_post-AsksKey,
  validity_of-IsValidity,
}
use tsjwt.Prelude.{
  ◌==◌, if◌then◌else◌, ==_iff, Bool-cases, Text, text_eq_iff, text_eq, ℤ, ℕ, ◌≡◌, refl, subst, ◌≢◌,
  ◌⊎◌, inl, inr, Bool, true, false, not, ◌||◌, List, [], ◌∷◌, arith, length, ap, sym, ◌∙◌,
}
use tsjwt.Errors.{other, Result, err, ok, guard, >>=-eq-ok, guard-eq-ok, ok-injective}
use tsjwt.GoTime.{Instant, Duration, add_time}
use tsjwt.Verifier.Remote.{zero_time}
use tsjwt.Tailnet.AuthKey.{
  AuthKeyMinter, AuthKey, Post, Answer, token_post, key_post, token_of, key_of, validity_of,
  create_key, mint_key,
}

-- The minter has an OAuth client and a tag.
abbrev pub IsComplete : AuthKeyMinter → Type 0
IsComplete m = (m.client_id ≢ []) × (m.client_secret ≢ []) × (m.tags ≢ [])

-- An answer to the token request that carries an access token.
abbrev pub GivesToken : Result Answer → Text → Type 0
GivesToken r token =
    (a : Answer) × (r ≡ ok a)
    × (a.status ≡ 200)
    × (a.decoded ≡ true)
    × (a.token ≡ token)
    × (token ≢ [])

-- An answer to the key request that carries a key; without an expiry it is the validity from `now` on.
abbrev pub GivesKey : Duration → Instant → Result Answer → AuthKey → Type 0
GivesKey validity now r k =
    (a : Answer) × (r ≡ ok a)
    × ((a.status ≡ 200) ⊎ (a.status ≡ 201))
    × (a.decoded ≡ true)
    × (a.key ≡ k.key)
    × (k.key ≢ [])
    × (((a.expires ≢ zero_time) × (k.expires ≡ a.expires))
        ⊎ ((a.expires ≡ zero_time) × (k.expires ≡ add_time now validity)))

not-true : (b : Bool) → not b ≡ true → b ≡ false
not-true false h = refl
not-true true h = absurd (cc h)

token_of-Gives : (r : Result Answer) (token : Text) → token_of r ≡ ok token → GivesToken r token
unfolding token_of
token_of-Gives (err e) token h = absurd (cc h)
token_of-Gives (ok a) token h =
    let (g, status, h1) = >>=-eq-ok (guard (a.status == 200) other) _ h in
    let (g', decoded, h2) = >>=-eq-ok (guard a.decoded other) _ h1 in
    let (g'', filled, h3) = >>=-eq-ok (guard (not (text_eq a.token [])) other) _ h2 in
    let same : a.token ≡ token = ok-injective h3 in
    (
      a,
      refl,
      (==_iff a.status 200).0 (guard-eq-ok _ other status),
      guard-eq-ok _ other decoded,
      same,
      subst (λ (t : Text). t ≢ []) same (text-ne a.token (not-true _ (guard-eq-ok _ other filled))),
    )

either-status : (n : ℕ) → (n == 200) || (n == 201) ≡ true → (n ≡ 200) ⊎ (n ≡ 201)
either-status n h = ground (arith, ==_iff n 200, ==_iff n 201)

expiry-cases :
    (validity : Duration) (now expires : Instant)
    → ((expires ≢ zero_time)
        × ((if expires == zero_time then add_time now validity else expires) ≡ expires))
      ⊎ ((expires ≡ zero_time)
          × ((if expires == zero_time then add_time now validity else expires)
              ≡ add_time now validity))
expiry-cases validity now expires = elim (Bool-cases (expires == zero_time)) [
  | inl unset ↦ inr ((==_iff expires zero_time).0 unset, rw unset refl)
  | inr set ↦ inl ((λ e. cc (set, (==_iff expires zero_time).1 e)), rw set refl)
]

key_of-Gives :
    (validity : Duration) (now : Instant) (r : Result Answer) (k : AuthKey)
    → key_of validity now r ≡ ok k
    → GivesKey validity now r k
unfolding key_of
key_of-Gives validity now (err e) k h = absurd (cc h)
key_of-Gives validity now (ok a) k h =
    let (g, status, h1) = >>=-eq-ok (guard (a.status == 200 || a.status == 201) other) _ h in
    let (g', decoded, h2) = >>=-eq-ok (guard a.decoded other) _ h1 in
    let (g'', filled, h3) = >>=-eq-ok (guard (not (text_eq a.key [])) other) _ h2 in
    subst (GivesKey validity now (ok a)) (ok-injective h3) (
      a,
      refl,
      either-status a.status (guard-eq-ok _ other status),
      guard-eq-ok _ other decoded,
      refl,
      text-ne a.key (not-true _ (guard-eq-ok _ other filled)),
      expiry-cases validity now a.expires,
    )

Gives-token_of : (r : Result Answer) (token : Text) → GivesToken r token → token_of r ≡ ok token
unfolding token_of
Gives-token_of r token (a, answered, status, decoded, same, filled) =
    let named : text_eq a.token [] ≡ false = elim (Bool-cases (text_eq a.token [])) [
      | inl empty ↦ absurd (filled (sym same ∙ (text_eq_iff a.token []).0 empty))
      | inr full ↦ full
    ] in
    rw (answered, token_of)
      (rw ((==_iff a.status 200).1 status) (rw decoded (rw named (ap ok same))))

key_filled : (a : Answer) (k : AuthKey) → a.key ≡ k.key → k.key ≢ [] → text_eq a.key [] ≡ false
key_filled a k same filled = elim (Bool-cases (text_eq a.key [])) [
  | inl empty ↦ absurd (filled (sym same ∙ (text_eq_iff a.key []).0 empty))
  | inr full ↦ full
]

Gives-key_of :
    (validity : Duration) (now : Instant) (r : Result Answer) (k : AuthKey)
    → GivesKey validity now r k
    → (k' : AuthKey) × (key_of validity now r ≡ ok k')
unfolding key_of
Gives-key_of validity now r k (a, answered, status, decoded, same, filled, expiry) =
    let good : (a.status == 200) || (a.status == 201) ≡ true =
      ground (arith, ==_iff a.status 200, ==_iff a.status 201) in
    rw (answered, key_of) (rw good (rw decoded (rw (key_filled a k same filled) (_, refl))))

module _ (send : Post → Result Answer) (seconds_of : Duration → ℤ) (now : Instant) where
  -- The two requests of a call that got a token, and the validity that the second asks for.
  pub record Exchange (m : AuthKeyMinter) (posts : List Post) : Type 0 where
    pub first : Post
    pub asks_token : AsksToken m first
    pub token : Text
    pub gives : GivesToken (send first) token
    pub validity : Duration
    pub validity_ok : IsValidity m validity
    pub second : Post
    pub asks_key : AsksKey m token (seconds_of validity) second
    pub order : posts ≡ first ∷ second ∷ []

  -- What a call of Mint did, by its result and the requests that it sent. A key comes from two requests; an
  -- error comes before the first, after an answer without a token, or after an answer without a key.
  abbrev pub Ran : AuthKeyMinter → Result AuthKey × List Post → Type 0
  Ran m (ok k, posts) =
      IsComplete m × (x : Exchange m posts) × GivesKey x.validity now (send x.second) k
  Ran m (err e, posts) =
      ((posts ≡ []) × (¬ IsComplete m))
      ⊎ (IsComplete m
          × (first : Post) × AsksToken m first
          × (posts ≡ first ∷ [])
          × ((token : Text) → ¬ GivesToken (send first) token))
      ⊎ (IsComplete m
          × (x : Exchange m posts) × ((k : AuthKey) → ¬ GivesKey x.validity now (send x.second) k))

  exchange :
      (m : AuthKeyMinter) (token : Text)
      → GivesToken (send (token_post m)) token
      → Exchange m (token_post m ∷ key_post m token (seconds_of (validity_of m)) ∷ [])
  exchange m token gives = record {
    first = token_post m;
    asks_token = token_post-AsksToken m;
    token = token;
    gives = gives;
    validity = validity_of m;
    validity_ok = validity_of-IsValidity m;
    second = key_post m token (seconds_of (validity_of m));
    asks_key = key_post-AsksKey m token (seconds_of (validity_of m));
    order = refl;
  }

  create_key-Ran :
      (m : AuthKeyMinter) (token : Text)
      → IsComplete m
      → GivesToken (send (token_post m)) token
      → (r : Result AuthKey)
      → key_of (validity_of m) now (send (key_post m token (seconds_of (validity_of m)))) ≡ r
      → Ran m (r, token_post m ∷ key_post m token (seconds_of (validity_of m)) ∷ [])
  unfolding exchange
  create_key-Ran m token complete gives (ok k) e =
      (complete, exchange m token gives, key_of-Gives (validity_of m) now _ k e)
  create_key-Ran m token complete gives (err x) e = inr (
      inr (
        complete,
        exchange m token gives,
        λ k g. let (k', found) = Gives-key_of (validity_of m) now _ k g in cc (e, found),
      ))

  requested :
      (m : AuthKeyMinter)
      → IsComplete m
      → (r : Result Text) → token_of (send (token_post m)) ≡ r
      → Ran m (
          let (k, posts) = create_key send seconds_of now m (validity_of m) r in
          (k, token_post m ∷ posts))
  unfolding create_key
  requested m complete (ok token) e =
      create_key-Ran m token complete (token_of-Gives (send (token_post m)) token e) _ refl
  requested m complete (err x) e = inr (
      inl (
        complete,
        token_post m,
        token_post-AsksToken m,
        refl,
        λ token g. cc (e, Gives-token_of (send (token_post m)) token g),
      ))

  is_complete :
      (m : AuthKeyMinter)
      → text_eq m.client_id [] || text_eq m.client_secret [] ≡ false
      → (length m.tags == 0) ≡ false
      → IsComplete m
  is_complete m named tagged = (
    λ e. ground (arith, text_eq_iff m.client_id []),
    λ e. ground (arith, text_eq_iff m.client_secret []),
    λ e. let zero_tags = ap (λ (l : List Text). length l) e in ground arith,
  )

  -- Mint sends nothing where the client's id, its secret or the tags are missing. Otherwise it sends the id and
  -- the secret to the token endpoint, and, if that gives a token, asks with the token as its bearer for a
  -- reusable, preauthorized key with the minter's tags and its validity (90 days where it has none). A key
  -- that it returns is the one of the second answer, and an error means that an answer gave none.
  pub mint_key-Ran : (m : AuthKeyMinter) → Ran m (mint_key send seconds_of now m)
  unfolding mint_key
  mint_key-Ran m = elim (Bool-cases (text_eq m.client_id [] || text_eq m.client_secret [])) [
    | inl missing ↦ rw missing (
        inl (
          refl,
          λ c.
              let (i, s, t) = c in
              ground (arith, text_eq_iff m.client_id [], text_eq_iff m.client_secret []),
        ))
    | inr named ↦ elim (Bool-cases (length m.tags == 0)) [
      | inl none_tagged ↦
          rw named (rw none_tagged (inl (refl, λ c. c.2 (no_tags m.tags none_tagged))))
      | inr tagged ↦ rw named (rw tagged (requested m (is_complete m named tagged) _ refl))
    ]
  ]
    where
      no_tags : (l : List Text) → (length l == 0) ≡ true → l ≡ []
      no_tags [] h = refl
      no_tags (t ∷ l) h = absurd (ground arith)
