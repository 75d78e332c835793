-- ===== src/K8sStore/Contract.antt =====
-- The store of k8sstore/k8sstore.go keeps the contract of keys.Store, over an API server that checks the
-- resource version of a write.
use tsjwt.Prelude.{
  take, Text, lookup, ℕ, ◌≡◌, ◌≢◌, ◌⊎◌, Option, none, some, [], ◌==◌, ==_iff, Bool-cases, ap, ◌∙◌,
  inl, inr, List, text_eq, refl, arith, ◌∷◌,
}
use tsjwt.Errors.{Result, ok, other, err, ◌>>=◌, >>=-eq-ok, Result-cases}
use tsjwt.Keys.Sharing.{Entry}
use tsjwt.K8sStore.{
  Store, get, put, post, Request, ConfigMap, keys_json, limit, collection_url, object_url, or_empty,
  config_map, read_entries, entries_of, loaded, bearer, with_bearer, do_request, load, saved,
  send_save, save_payload, save,
}

abbrev pub get_request : Store → Text → Request
get_request s token = record { method = get; url = object_url s; bearer = token; body = none }

abbrev pub post_request : (ConfigMap → Text) → Store → Text → Text → Request
post_request write s token payload = record {
  method = post;
  url = collection_url s;
  bearer = token;
  body = some (write (config_map s payload []));
}

abbrev pub put_request : (ConfigMap → Text) → Store → Text → Text → Text → Request
put_request write s token payload version = record {
  method = put;
  url = object_url s;
  bearer = token;
  body = some (write (config_map s payload version));
}

abbrev pub IsWritten : ℕ → Type 0
IsWritten code = (code ≡ 200) ⊎ (code ≡ 201)

-- What the store relies on in the API server. `held` is the ConfigMap of the store in a world: its resource
-- version and its keys.json, the empty text where it has none.
pub record ApiServer {W : Type 0} (send : W → Request → Result (ℕ × Text) × W)
    (read_config_map : Text → Result ConfigMap) (write_config_map : ConfigMap → Text) (s : Store)
    (held : W → Option (Text × Text)) : Type 0 where
  -- A GET changes nothing. It answers 404 only if there is no ConfigMap, and 200 only with the one held, in
  -- full; a resource version is never empty.
  pub get_unchanged : (w : W) (token : Text) → held (send w (get_request s token)).1 ≡ held w
  pub get_missing :
      (w : W) (token text : Text)
      → (send w (get_request s token)).0 ≡ ok (404, text)
      → held w ≡ none
  pub get_found :
      (w : W) (token text : Text)
      → (send w (get_request s token)).0 ≡ ok (200, text)
      → (cm : ConfigMap) × (read_config_map (take limit text) ≡ ok cm)
        × (held w ≡ some (cm.version, or_empty (lookup keys_json cm.contents)))
        × (cm.version ≢ [])
  -- A POST succeeds only if there is no ConfigMap, which then holds what was posted.
  pub post_done :
      (w : W) (token text payload : Text) (code : ℕ)
      → (send w (post_request write_config_map s token payload)).0 ≡ ok (code, text)
      → IsWritten code
      → (held w ≡ none)
        × ((v : Text) × (held (send w (post_request write_config_map s token payload)).1
              ≡ some (v, payload)))
  -- A PUT that names a resource version succeeds only if it is the one held, and then holds what was put.
  pub put_done :
      (w : W) (token text payload version : Text) (code : ℕ)
      → version ≢ []
      → (send w (put_request write_config_map s token payload version)).0 ≡ ok (code, text)
      → IsWritten code
      → ((was : Text) × (held w ≡ some (version, was)))
        × ((v : Text) × (held (send w (put_request write_config_map s token payload version)).1
              ≡ some (v, payload)))

module _ {W : Type 0} (read_file : W → Text → Result Text)
    (send : W → Request → Result (ℕ × Text) × W) (read_config_map : Text → Result ConfigMap)
    (write_config_map : ConfigMap → Text) (decode_entries : Text → Result (List Entry))
    (encode_entries : List Entry → Result Text) (s : Store) (held : W → Option (Text × Text))
    (api : ApiServer send read_config_map write_config_map s held) where
  -- What Load says of the ConfigMap: that there is none, with an empty version, or its version and entries.
  abbrev pub Shows : Option (Text × Text) → List Entry → Text → Type 0
  Shows none es version = (es ≡ []) × (version ≡ [])
  Shows (some (v, t)) es version =
      (version ≡ v) × (v ≢ []) × (read_entries decode_entries t ≡ ok es)

  -- The ConfigMap is at the version: there is none for the empty one.
  abbrev pub IsAt : Option (Text × Text) → Text → Type 0
  IsAt none version = version ≡ []
  IsAt (some (v, t)) version = (version ≡ v) × (version ≢ [])

  entries_of-Shows :
      (h : Option (Text × Text)) (cm : ConfigMap) (es : List Entry) (version : Text)
      → h ≡ some (cm.version, or_empty (lookup keys_json cm.contents))
      → cm.version ≢ []
      → entries_of read_file send read_config_map write_config_map decode_entries encode_entries cm
        ≡ ok (es, version)
      → Shows h es version
  unfolding entries_of
  entries_of-Shows h cm es version e filled r =
      let (l, read, r') =
        >>=-eq-ok (read_entries decode_entries (or_empty (lookup keys_json cm.contents))) _ r in
      rw e (cc (r'), filled, read ∙ cc (r'))

  load_body :
      (w : W) (token : Text) (es : List Entry) (version : Text) (r : Result (ℕ × Text))
      → (send w (get_request s token)).0 ≡ r
      → loaded read_file send read_config_map write_config_map decode_entries encode_entries
          (r >>= λ a. ok (a.0, take limit a.1))
        ≡ ok (es, version)
      → Shows (held w) es version
  unfolding loaded
  load_body w token es version (err x) e h = absurd (cc h)
  load_body w token es version (ok (code, text)) e h = elim (Bool-cases (code == 404)) [
    | inl missing ↦
        let gone : held w ≡ none =
          api.get_missing w token text
            (e ∙ ap (λ (n : ℕ). ok (n, text)) ((==_iff code 404).0 missing)) in
        let empty : ok ([], []) ≡ ok (es, version) = rw missing at h in rw gone (cc empty, cc empty)
    | inr other_code ↦ elim (Bool-cases (code == 200)) [
      | inl found ↦
          let (cm, read, holds, filled) =
            api.get_found w token text
              (e ∙ ap (λ (n : ℕ). ok (n, text)) ((==_iff code 200).0 found)) in
          entries_of-Shows (held w) cm es version holds filled (rw (other_code, found, read) at h)
      | inr bad ↦
          let never : err other ≡ ok (es, version) = rw (other_code, bad) at h in absurd (cc never)
    ]
  ]

  -- If Load succeeds, it leaves the ConfigMap as it is and says what it holds: no entries and an empty version
  -- where there is none, and otherwise its version, which is not empty, and the entries of its keys.json.
  pub load-Shows :
      (w : W) (es : List Entry) (version : Text)
      → (load read_file send read_config_map write_config_map decode_entries encode_entries s w).0
        ≡ ok (es, version)
      → Shows (held w) es version
        × (held
              (load read_file send read_config_map write_config_map decode_entries encode_entries s
                w).1
            ≡ held w)
  unfolding load do_request with_bearer loaded
  load-Shows w es version h = elim (Result-cases (bearer read_file send w s)) [
    | inr (x, unread) ↦
        let never : err other ≡ ok (es, version) = rw unread at h in absurd (cc never)
    | inl (token, read) ↦ (
      load_body w token es version (send w (get_request s token)).0 refl (rw read at h),
      rw read (api.get_unchanged w token),
    )
  ]

  saved-IsWritten :
      (r : Result (ℕ × Text))
      → saved read_file send read_config_map write_config_map decode_entries encode_entries
          (r >>= λ a. ok (a.0, take limit a.1))
        ≡ ok tt
      → (code : ℕ) × (text : Text) × (r ≡ ok (code, text)) × IsWritten code
  unfolding saved
  saved-IsWritten (err x) h = absurd (cc h)
  saved-IsWritten (ok (code, text)) h =
      (code, text, refl, ground (arith, ==_iff code 200, ==_iff code 201))

  -- The ConfigMap was replaced: it was at the version, and it holds the payload.
  abbrev pub Replaced : W → W → Text → Text → Type 0
  Replaced w w' version payload =
      IsAt (held w) version × ((v : Text) × (held w' ≡ some (v, payload)))

  send_save-Replaced :
      (w : W) (payload version : Text)
      → (save_payload read_file send read_config_map write_config_map decode_entries encode_entries
          s w version
          (ok payload)).0
        ≡ ok tt
      → Replaced w
          (save_payload read_file send read_config_map write_config_map decode_entries
            encode_entries s w version
            (ok payload)).1
          version
          payload
  unfolding save_payload send_save do_request with_bearer text_eq
  send_save-Replaced w payload [] h = elim (Result-cases (bearer read_file send w s)) [
    | inr (x, unread) ↦ let never : err other ≡ ok tt = rw (unread, saved) at h in absurd (cc never)
    | inl (token, read) ↦
        let (code, text, e, written) = saved-IsWritten _ (rw read at h) in
        let (absent, held_now) = api.post_done w token text payload code e written in
        rw read (rw absent refl, held_now)
  ]
  send_save-Replaced w payload (c ∷ version) h = elim (Result-cases (bearer read_file send w s)) [
    | inr (x, unread) ↦ let never : err other ≡ ok tt = rw (unread, saved) at h in absurd (cc never)
    | inl (token, read) ↦
        let (code, text, e, written) = saved-IsWritten _ (rw read at h) in
        let ((was, at_version), held_now) =
          api.put_done w token text payload (c ∷ version) code (λ z. cc z) e written in
        rw read (rw at_version (refl, λ z. cc z), held_now)
  ]

  -- A Save that succeeds replaces the entries, and only if the store is still at the version: the ConfigMap
  -- was at it, or absent for the empty version, and it now holds the text of the entries.
  pub save-Replaced :
      (w : W) (es : List Entry) (version : Text)
      → (save read_file send read_config_map write_config_map decode_entries encode_entries s w es
          version).0
        ≡ ok tt
      → (payload : Text) × (encode_entries es ≡ ok payload)
        × Replaced w
            (save read_file send read_config_map write_config_map decode_entries encode_entries s w
              es version).1
            version
            payload
  unfolding save
  save-Replaced w es version h = elim (Result-cases (encode_entries es)) [
    | inr (x, failed) ↦
        let never : err x ≡ ok tt = rw (failed, save_payload) at h in absurd (cc never)
    | inl (payload, encoded) ↦
        (payload, encoded, rw encoded (send_save-Replaced w payload version (rw encoded at h)))
  ]
