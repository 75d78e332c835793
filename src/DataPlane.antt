-- ===== src/DataPlane.antt =====
-- The data plane's command, gateway/cmd/tsjwt-dataplane/main.go: the checks of its flags, the auth key, the
-- shared keys, the startup assertion, the route table it serves, its health and readiness, and the rotation of
-- its key. Flags are a record, the environment and the process id are arguments.
pub mod Lifetimes
pub mod Callers
pub mod Startup
mod Tests
mod Runs
use tsjwt.Prelude.{
  if◌then◌else◌, Text, codes, text_eq, trim_suffix, cut, before_char, split, decimal, ℤ, pos,
  negsuc, ltb_ℤ, leb_ℤ, ℕ, ◌+◌, ◌*◌, Bool, true, false, not, ◌&&◌, ◌||◌, Option, none, some, List,
  [], ◌∷◌, ◌++◌, suc, ◌/◌,
}
use tsjwt.Errors.{no_identity, other, Result, err, ok, guard, ◌>>=◌, ◌>>◌}
use tsjwt.GoTime.{Instant, Duration, minute}
use tsjwt.Crypto.{Crypto}
use tsjwt.Tenant.{Identity}
use tsjwt.Keys.{Set, rotate, current, Jwk}
use tsjwt.Keys.Sharing.{Published, new_published}
use tsjwt.Tailnet.{Source, identify}
use tsjwt.Tailnet.Expiry.{wrap, Expiry, healthy, set_expiry}
use tsjwt.Tailnet.AuthKey.{AuthKey, Post, Answer, mint_key}
use tsjwt.RouteTable.Source.{FileSource}
use tsjwt.Proxy as Proxy
use tsjwt.Signer as Signer
use tsjwt.Signer.Handler.{JwksAnswer, jwks_handler}
use tsjwt.Routing.{Route}

-- The flags that the checks and the wiring read.
pub record Flags : Type 0 where
  pub gateway_ref : Text
  pub tenants : Text
  pub hostname : Text
  pub issuer : Text
  pub cap : Text
  pub key_tags : Text
  pub ttl : Duration
  pub overlap : Duration
  pub wait_timeout : Duration
  pub wait_pending : ℤ

-- The name of -gateway, which must be namespace/name.
name_of : Option (Text × Text) → Result Text
name_of none = err other
name_of (some ([], name)) = err other
name_of (some (c ∷ ns, [])) = err other
name_of (some (c ∷ ns, d ∷ name)) = ok (d ∷ name)

abbrev or_default : Text → Text → Text
or_default [] t = t
or_default (c ∷ s) t = c ∷ s

-- The waiting time is at most two minutes, and the pending limit is positive.
abbrev may_wait : Flags → Bool
may_wait f =
    not (ltb_ℤ f.wait_timeout (pos 0))
    && (leb_ℤ f.wait_timeout (pos (2 * minute)) && ltb_ℤ (pos 0) f.wait_pending)

-- The checks at the start of run, with the defaults that they fill in.
unfoldable pub settle : Flags → Result Flags
unfolding name_of cut text_eq
settle f = do
  guard (may_wait f) other
  name ← name_of (cut f.gateway_ref b'/')
  guard (not (text_eq f.tenants [])) other
  let hostname = or_default f.hostname name
  guard (ltb_ℤ f.ttl f.overlap) other
  ok (record f { hostname = hostname; issuer = or_default f.issuer (codes "https://" ++ hostname) })

-- The identity source of the signer.
abbrev pub source_of : Flags → Source
source_of f = record { has_local = true; cap = f.cap; allow_tagged = false; timeout = pos 0 }

-- The signer's configuration; the leeway is New's default.
abbrev pub signer_config : Flags → Signer.Config
signer_config f = record {
  issuer = f.issuer;
  has_keys = true;
  has_identities = true;
  has_tenants = true;
  ttl = f.ttl;
  leeway = pos 0;
}

-- The grace of the shared keys, 3**ttl as an int64.
pub grace_of : Duration → Duration
unfolding wrap
grace_of (pos n) = wrap (pos (3 * n))
grace_of (negsuc n) = wrap (negsuc (3 * n + 2))

-- The name of the replica: the pod's, or the hostname with the process id.
pub replica_of : Flags → Text → ℕ → Text
unfolding decimal
replica_of f [] pid = f.hostname ++ (b'-' ∷ decimal pid)
replica_of f (c ∷ pod) pid = c ∷ pod

module _ (c : Crypto) where
  -- What run makes of NewPublished, with the grace.
  pub published_of : Flags → Set c → Text → ℕ → Result (Published c)
  unfolding new_published replica_of grace_of
  published_of f local pod pid = do
    p ← new_published c true true local (replica_of f pod pid)
    ok (record p { grace = grace_of f.ttl })

  -- rotateLoop, for what its ticks bring: the time and the key generated.
  rotate_ticks : List (Instant × Option c.PrivateKey) → Set c → Set c
  unfolding rotate
  rotate_ticks [] s = s
  rotate_ticks ((now, key) ∷ ticks) s = rotate_ticks ticks (rotate c key now s).1

  pub rotate_loop : Duration → List (Instant × Option c.PrivateKey) → Set c → Set c
  unfolding rotate_ticks
  rotate_loop every ticks s = if leb_ℤ every (pos 0) then s else rotate_ticks ticks s

keyed : Expiry → Result AuthKey → Result (Text × Expiry)
unfolding set_expiry
keyed e (err x) = err x
keyed e (ok k) = ok (k.key, set_expiry e k.expires)

-- The auth key and its expiry: the one of the environment, or one minted for the tags.
pub auth_key :
    (Post → Result Answer)
    → (Duration → ℤ)
    → Instant
    → Flags
    → (static client_id client_secret : Text) → Expiry
    → Result (Text × Expiry)
unfolding keyed mint_key text_eq split
auth_key send seconds_of now f static client_id client_secret e =
    if text_eq f.key_tags []
    then ok (static, e)
    else if text_eq client_id [] || text_eq client_secret []
    then err other
    else keyed e
        (mint_key send seconds_of now (record {
          client_id = client_id;
          client_secret = client_secret;
          tags = split f.key_tags b',';
          ephemeral = false;
          validity = pos 0;
          base_url = [];
        })).0

-- errors.Is(err, ErrNoIdentity)
pub is_refused : Result Identity → Bool
is_refused (err no_identity) = true
is_refused (err e) = false
is_refused (ok i) = false

all_refused : (Text → Result Identity) → List Text → Result (Unit {0})
unfolding is_refused
all_refused identify [] = ok tt
all_refused identify (addr ∷ addrs) =
    let rest = all_refused identify addrs in if is_refused (identify addr) then rest else err other

abbrev pub outside : List Text
outside = codes "127.0.0.1:1" ∷ codes "[::1]:1" ∷ codes "203.0.113.1:443" ∷ []

-- assertRejectsNonTailnet
unfoldable pub assert_rejects : (Text → Result Identity) → Result (Unit {0})
unfolding all_refused
assert_rejects identify = all_refused identify outside

-- The status of /healthz.
pub health : Expiry → Instant → ℕ
unfolding healthy
health e now = if healthy e now then 200 else 503

-- The first label of the name that the tailnet gave, and the status of /readyz.
pub granted_name : Text → Text
unfolding before_char trim_suffix
granted_name dns_name = before_char (trim_suffix dns_name (codes ".")) b'.'

pub ready : Flags → Text → FileSource → ℕ
unfolding granted_name text_eq
ready f dns_name s =
    if text_eq (granted_name dns_name) f.hostname then (if s.loaded then 200 else 503) else 503

-- OnChange: a table that Set refuses leaves the one in use.
pub on_change : Proxy.Config → Option (List Route) → Option Proxy.Proxy → Option Proxy.Proxy
unfolding Proxy.set_routes
on_change cfg none current = current
on_change cfg (some routes) current = (Proxy.set_routes cfg current routes).1

-- Half of the overlap, for which the key set may be cached.
pub half : Duration → Duration
half (pos n) = pos (n / 2)
half (negsuc n) = Signer.negate (pos (suc n / 2))

-- What /.well-known/jwks.json answers.
pub jwks_of : Flags → List Jwk → Text → JwksAnswer
unfolding half jwks_handler
jwks_of f set method = jwks_handler set (half f.overlap) method
