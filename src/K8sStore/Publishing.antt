-- ===== src/K8sStore/Publishing.antt =====
-- Publish of keys/shared.go over the store of k8sstore/k8sstore.go, with other replicas at work between the two
-- requests of an attempt.
use tsjwt.Prelude.{Text, ℕ, ◌≡◌, refl, sym, ap, ◌∙◌, subst, Option, none, some, List, []}
use tsjwt.Errors.{Result, ok}
use tsjwt.GoTime.{Instant}
use tsjwt.Crypto.{Crypto}
use tsjwt.Keys.Sharing.{Entry, Attempt, Published, next_entries, publish}
use tsjwt.Keys.Sharing.Merge.{publish-WasSaved}
use tsjwt.K8sStore.{Store, Request, ConfigMap, read_entries, load, save}
use tsjwt.K8sStore.Contract.{ApiServer, Shows, IsAt, load-Shows, save-Replaced}

module _ {W : Type 0} (read_file : W → Text → Result Text)
    (send : W → Request → Result (ℕ × Text) × W) (read_config_map : Text → Result ConfigMap)
    (write_config_map : ConfigMap → Text) (decode_entries : Text → Result (List Entry))
    (encode_entries : List Entry → Result Text) (s : Store) (held : W → Option (Text × Text))
    (api : ApiServer send read_config_map write_config_map s held) where
  -- A Load, after which the other replicas do as they like before the write.
  abbrev pub load_then : (W → W) → W → Result (List Entry × Text) × W
  load_then others w =
      let (r, w') =
        load read_file send read_config_map write_config_map decode_entries encode_entries s w in
      (r, others w')

  abbrev pub save_over : W → List Entry → Text → Result (Unit {0}) × W
  save_over = save read_file send read_config_map write_config_map decode_entries encode_entries s

  -- The entries that a ConfigMap holds.
  abbrev pub Has : Option (Text × Text) → List Entry → Type 0
  Has none es = es ≡ []
  Has (some (v, t)) es = read_entries decode_entries t ≡ ok es

  -- A write put the replica's next entries in the place of the very entries that they were merged from.
  abbrev pub Merged : (c : Crypto) → Published c → Published c → Type 0
  Merged c p p' =
      (now : Instant) × (stored : List Entry) × (version : Text) × (before : W) × Has (held before)
        stored
      × (p'.merged ≡ next_entries c p now stored)
      × (payload : Text) × (encode_entries p'.merged ≡ ok payload)
      × (v : Text) × (held (save_over before p'.merged version).1 ≡ some (v, payload))

  still-Has :
      (loaded at_write : Option (Text × Text)) (es : List Entry) (version : Text)
      (contents : Text → Text)
      → ((v t : Text) → loaded ≡ some (v, t) → t ≡ contents v)
      → ((v t : Text) → at_write ≡ some (v, t) → t ≡ contents v)
      → Shows read_file send read_config_map write_config_map decode_entries encode_entries s held
          api loaded es version
      → IsAt read_file send read_config_map write_config_map decode_entries encode_entries s held
          api at_write version
      → Has at_write es
  still-Has none none es version contents f g shown at = shown.0
  still-Has none (some (v, t)) es version contents f g shown at = absurd (at.1 shown.1)
  still-Has (some (v, t)) none es version contents f g shown at =
      absurd (shown.1 (sym shown.0 ∙ at))
  still-Has (some (v, t)) (some (v', t')) es version contents f g shown at =
      let same : t ≡ t' = f v t refl ∙ (ap contents (sym shown.0 ∙ at.0) ∙ sym (g v' t' refl)) in
      subst (λ (x : Text). read_entries decode_entries x ≡ ok es) same shown.2

  -- No update is lost: if Publish succeeds, then what its write replaced held exactly the entries that it had
  -- merged, whatever other replicas did between its read and its write, given that a resource version stands
  -- for one content.
  pub publish-Merged :
      (c : Crypto) (others : W → W) (contents : Text → Text) (attempt : ℕ → Attempt)
      (p : Published c) (w : W)
      → ((x : W) (v t : Text) → held x ≡ some (v, t) → t ≡ contents v)
      → (publish c (load_then others) save_over attempt p w).0 ≡ ok tt
      → Merged c p (publish c (load_then others) save_over attempt p w).1
  publish-Merged c others contents attempt p w fixed h =
      let m = publish-WasSaved c (load_then others) save_over attempt p w h in
      let (shown, same) =
        load-Shows read_file send read_config_map write_config_map decode_entries encode_entries s
          held api m.start m.stored m.version
          (ap (λ (x : Result (List Entry × Text) × W). x.0) m.loaded) in
      let (payload, encoded, (at, (v, now_held))) =
        save-Replaced read_file send read_config_map write_config_map decode_entries encode_entries
          s held api m.before _ m.version m.accepted in
      (
        m.now,
        m.stored,
        m.version,
        m.before,
        still-Has (held m.start) (held m.before) m.stored m.version contents (fixed m.start)
            (fixed m.before) shown at,
        m.is_next,
        payload,
        encoded,
        v,
        now_held,
      )
