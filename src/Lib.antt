-- ===== src/Lib.antt =====
-- tsjwt: short-lived, tenant-scoped identity assertions for backends behind a tailnet proxy.
--
-- The program is a signer that turns a network identity into a signed JWT, a proxy that puts that token on
-- the requests it forwards, and a verifier that a backend runs. This library models each and proves what
-- they promise one another. Each file opens with a comment that names the code it is about.
--
--   Errors, GoTime, Crypto  the program's errors and results, package time as the program uses it, and the
--                           cryptography and encodings of the standard library as an interface
--   Tenant                  identity.go and tenant.go: Identity.Valid, Tenant.Valid, Grant.Valid (grant_valid),
--                           Grant.Tenant, StaticGrant, GroupTenantResolver.Resolve
--   Policy                  policy.go: PolicyFile.Resolver (policy_resolver) and its resolver (policy_resolve)
--   Claims                  claims.go: the claim record, HasRole, MarshalJSON and UnmarshalJSON (Wire)
--   Jwt                     jwt/jwt.go: Sign, Parse, Verify
--   Keys, Keys.Sharing      keys/keys.go (Rotate, PublicKey, JWKS, the thumbprint) and keys/shared.go
--                           (Publish, Run, Refresh and JWKS of the replicas' union)
--   Signer                  signer/signer.go: New, Mint (mint) and its steps, JWKSHandler (Handler)
--   Verifier                verifier/verifier.go: New, Verify (verify_token), MemoryReplayGuard (Replay) and
--                           Middleware; verifier/remote.go: RemoteKeys.Key and refresh (Remote)
--   Routing, Proxy          proxy/router.go: Route.Valid, matches, NewRouter, Match; proxy/proxy.go: New and
--                           ServeHTTP (serve); proxy/dynamic.go: Set (set_routes)
--   WaitGate                proxy/wait.go: the locked sections of Acquire (arrive, leave), release and check
--                           (probed), and the steps of requests and probes as a relation
--   RouteTable              routetable/routefile.go: Render and Parse; routetable/filesource.go: LoadCache,
--                           Refresh, Run and sameRoutes (RouteTable.Source)
--   Gateway                 gateway/routes.go: Translate (Rules), what it reads of a route (Fields), attachment
--                           and hostnames (Hostnames); gateway/watcher.go: Refresh and Run (Watcher); the
--                           conditions of routes and setCondition (Status); gateway/provision.go: the names, the Role, the Service
--                           (Provision) and the StatefulSet (Provision.Workload); gateway/reconcile.go: the
--                           status of Gateways and the mutations (Reconciler), both Reconcile functions with
--                           render and apply (Reconciler.Rounds)
--   K8sStore                k8sstore/k8sstore.go: New (new_store), bearer, do (do_request), Load and Save
--   Tailnet                 tsnetid/tsnetid.go: Identify and identity; tsnetid/authkey.go: AuthKeyMinter.Mint
--                           (AuthKey) and the expiry of a key (Expiry)
--   DataPlane               gateway/cmd/tsjwt-dataplane/main.go: the checks of run (settle), the auth key, the
--                           startup assertion (assert_rejects), /healthz and /readyz, rotateLoop
--   Samples                 a small Crypto whose laws hold, for the tests
--
-- How the parts meet. Mint asks the identity source and the tenant resolver, which are parameters, then
-- signs with jwt/jwt.go; ServeHTTP strips headers, picks a route, calls Mint and forwards; Verify parses
-- the token, asks a key source (the key set, or the remote cache), checks signature, claims and replay.
-- Identify is the data plane's identity source, and the policy its tenant resolver (DataPlane.Callers puts
-- them under Mint). The replicas share their keys through the ConfigMap of K8sStore (K8sStore.Publishing
-- puts Publish over its Load and Save). The reconciler renders the table of a Gateway with Translate and
-- Render and applies it with the workload that mounts it, where the data plane's file source reads it.
-- State is passed explicitly: a key set, a remote cache or a replay guard goes in and comes out, and where
-- a client or a server keeps it, it is a world that each call changes.
--
-- Conventions. A text is a list of code points, its length counts them, and lower case is that of
-- ASCII: for ASCII texts this is what Go's byte strings do. An Instant counts nanoseconds
-- from the first second that time.Time represents, a Duration is an integer of nanoseconds, and Unix, Add
-- and Sub wrap and saturate as the library does. A nil pointer or interface is `none` or a Boolean field. A
-- Go map is a list of pairs. Loops are structural recursion; the one loop with a count, Publish, has the
-- five attempts of the source, so no fuel is chosen. Error texts are left out: an error is the sentinel that
-- errors.Is finds, or `other`.
--
-- Parameters, for code that the repository does not hold: ECDSA, SHA-256, base64url, the JSON form of the
-- header and of the claims (the interface Crypto, with Jwt.RoundTrip.Laws for what a theorem needs of it),
-- the identity source and the tenant resolver of Mint, the store of the shared keys, the HTTP exchanges,
-- the round trips of the reverse proxies (Proxy.Replies), WhoIs and the capability map, net/netip, the API
-- server (the record ApiServer of K8sStore.Contract) and its client (the record Client of
-- Gateway.Reconciler.Rounds, with CreateOrUpdate), the JSON of ConfigMaps and of route files, url.Parse,
-- time.ParseDuration, the reading and writing of files, the float64 that a number of Claims.Extra goes
-- through, the random draw of a splay, and the clock.
--
-- Not modelled: the other commands, which parse flags and wire packages together, and the listeners of the
-- data plane; what the reverse proxies do to a request, and their transport; the tailnet node itself;
-- registering the reconcilers with their manager; timeouts and cancellation; logging; mutual exclusion,
-- where each method, or each locked section of the wait gate, is one step.
pub mod Claims
pub mod Crypto
pub mod DataPlane
pub mod Errors
pub mod Gateway
pub mod GoTime
pub mod Jwt
pub mod K8sStore
pub mod Keys
pub mod Policy
pub mod Prelude
pub mod Proxy
pub mod RouteTable
pub mod Routing
pub mod Samples
pub mod Signer
pub mod Tailnet
pub mod Tenant
pub mod Verifier
pub mod WaitGate
