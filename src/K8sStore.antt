-- ===== src/K8sStore.antt =====
-- The key store over a ConfigMap, k8sstore/k8sstore.go, and the wire format of keys/shared.go. Files, the
-- environment, the HTTP exchange, JSON and the reading of a certificate are arguments.
pub mod Contract
pub mod Publishing
mod Server
mod Tests
use tsjwt.Prelude.{
  ◌==◌, if◌then◌else◌, take, Text, codes, text_eq, trim, Dict, lookup, ℕ, ◌*◌, ◌^◌, Bool, not, ◌||◌,
  Option, none, some, List, [], ◌∷◌, ◌++◌,
}
use tsjwt.Errors.{conflict, other, Result, err, ok, guard, ◌>>=◌, ◌>>◌}
use tsjwt.Keys.Sharing.{Entry}

-- Store, without its HTTP client.
pub record Store : Type 0 where
  pub name : Text
  pub namespace : Text
  pub host : Text
  pub token : Text
  pub token_path : Text

pub data Method : Type 0 where
  get put post : Method

pub record Request : Type 0 where
  pub method : Method
  pub url : Text
  pub bearer : Text
  pub body : Option Text

-- configMap: the resource version is empty where it is absent.
pub record ConfigMap : Type 0 where
  pub name : Text
  pub namespace : Text
  pub version : Text
  pub contents : Dict Text

abbrev pub token_file : Text
token_file = codes "/var/run/secrets/kubernetes.io/serviceaccount/token"

abbrev ca_file : Text
ca_file = codes "/var/run/secrets/kubernetes.io/serviceaccount/ca.crt"

abbrev namespace_file : Text
namespace_file = codes "/var/run/secrets/kubernetes.io/serviceaccount/namespace"

abbrev pub keys_json : Text
keys_json = codes "keys.json"

-- The most that is read of an answer, 4 << 20.
unfoldable pub limit : ℕ
limit = 4 * 2 ^ 20

-- The host that New takes from the environment.
api_host : Text → Text → Text
unfolding text_eq
api_host service_host service_port =
    if text_eq service_host []
    then codes "https://kubernetes.default.svc"
    else codes "https://"
      ++ service_host
      ++ (b':' ∷ (if text_eq service_port [] then codes "443" else service_port))

-- New. The client that trusts the certificates of `ca_file` is left out.
pub new_store : (Text → Result Text) → (Text → Bool) → (Text → Text) → Text → Result Store
unfolding text_eq trim api_host
new_store read_file is_pem getenv name = do
  guard (not (text_eq name [])) other
  ns ← read_file namespace_file
  token ← read_file token_file
  ca ← read_file ca_file
  guard (is_pem ca) other
  ok (record {
    name = name;
    namespace = trim ns;
    host =
        api_host (getenv (codes "KUBERNETES_SERVICE_HOST"))
          (getenv (codes "KUBERNETES_SERVICE_PORT"));
    token = [];
    token_path = [];
  })

-- The ConfigMaps of the namespace, and url
abbrev pub collection_url : Store → Text
collection_url s = s.host ++ codes "/api/v1/namespaces/" ++ (s.namespace ++ codes "/configmaps")

abbrev pub object_url : Store → Text
object_url s = collection_url s ++ (b'/' ∷ s.name)

-- UnmarshalEntries: the empty text is an empty list.
pub read_entries : (Text → Result (List Entry)) → Text → Result (List Entry)
read_entries decode [] = ok []
read_entries decode (c ∷ t) = decode (c ∷ t)

abbrev pub or_empty : Option Text → Text
or_empty none = []
or_empty (some t) = t

-- What Save writes.
abbrev pub config_map : Store → Text → Text → ConfigMap
config_map s payload version = record {
  name = s.name;
  namespace = s.namespace;
  version = version;
  contents = (keys_json, payload) ∷ [];
}

module _ {W : Type 0} (read_file : W → Text → Result Text)
    (send : W → Request → Result (ℕ × Text) × W) where
  -- bearer
  pub bearer : W → Store → Result Text
  unfolding text_eq trim
  bearer w s =
      if text_eq s.token []
      then (read_file w (if text_eq s.token_path [] then token_file else s.token_path) >>= λ t.
          ok (trim t))
      else ok s.token

  with_bearer : W → Result Text → Method → Text → Option Text → Result (ℕ × Text) × W
  with_bearer w (err e) method url body = (err e, w)
  with_bearer w (ok t) method url body =
      let (r, w') = send w (record { method = method; url = url; bearer = t; body = body }) in
      (r >>= λ a. ok (a.0, take limit a.1), w')

  -- do
  unfoldable pub do_request : W → Store → Method → Text → Option Text → Result (ℕ × Text) × W
  unfolding bearer with_bearer
  do_request w s method url body = with_bearer w (bearer w s) method url body

  module _ (read_config_map : Text → Result ConfigMap) (write_config_map : ConfigMap → Text)
      (decode_entries : Text → Result (List Entry))
      (encode_entries : List Entry → Result Text) where
    entries_of : ConfigMap → Result (List Entry × Text)
    unfolding read_entries lookup
    entries_of cm = do
      es ← read_entries decode_entries (or_empty (lookup keys_json cm.contents))
      ok (es, cm.version)

    -- Load, after the exchange.
    loaded : Result (ℕ × Text) → Result (List Entry × Text)
    unfolding entries_of
    loaded (err e) = err other
    loaded (ok (code, body)) =
        if code == 404
        then ok ([], [])
        else if code == 200
        then (read_config_map body >>= λ cm. entries_of cm)
        else err other

    -- Load
    unfoldable pub load : Store → W → Result (List Entry × Text) × W
    unfolding do_request loaded
    load s w = let (r, w') = do_request w s get (object_url s) none in (loaded r, w')

    -- Save, after the exchange.
    saved : Result (ℕ × Text) → Result (Unit {0})
    saved (err e) = err other
    saved (ok (code, body)) =
        if code == 200 || code == 201
        then ok tt
        else if code == 409
        then err conflict
        else err other

    -- The request of Save: an empty version creates the ConfigMap.
    send_save : Store → W → Text → Text → Result (ℕ × Text) × W
    unfolding do_request text_eq
    send_save s w payload version =
        let body = some (write_config_map (config_map s payload version)) in
        if text_eq version []
        then do_request w s post (collection_url s) body
        else do_request w s put (object_url s) body

    save_payload : Store → W → Text → Result Text → Result (Unit {0}) × W
    unfolding send_save saved
    save_payload s w version (err e) = (err e, w)
    save_payload s w version (ok payload) =
        let (r, w') = send_save s w payload version in (saved r, w')

    -- Save
    unfoldable pub save : Store → W → List Entry → Text → Result (Unit {0}) × W
    unfolding save_payload
    save s w es version = save_payload s w version (encode_entries es)
