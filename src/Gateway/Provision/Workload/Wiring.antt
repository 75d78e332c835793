-- ===== src/Gateway/Provision/Workload/Wiring.antt =====
-- How the objects that gateway/provision.go makes for a Gateway fit together.
use tsjwt.Prelude.{
  In, Text, codes, has_iff, ◌≡◌, refl, sym, ◌∙◌, subst, ◌↔◌, inl, inr, true, Option, List, ◌++◌, ap,
}
use tsjwt.Errors.{ok, >>=-eq-ok, ok-injective}
use tsjwt.GoTime.{Duration}
use tsjwt.Gateway.{Gateway}
use tsjwt.Gateway.Provision.{
  Config, keys_name, routes_config_map, service_object, service_account, keys_role,
  keys_role_binding, object_name, hostname_arg,
}
use tsjwt.Gateway.Provision.Workload.{
  StatefulSet, over_tls, container_args, workload_valid, stateful_set, container_of,
  stateful_set_for,
}
use tsjwt.Gateway.Provision.Workload.Flags.{
  IsDeployable, workload_valid_iff, tls_flag, has-tls_flag,
}

abbrev flags : StatefulSet → List Text
flags s = s.container.args

-- The pods run as the account that the RoleBinding gives the Role to, share their keys in the ConfigMap that the
-- Role names, read the ConfigMap of the routes, are those that the Service selects, and are probed over TLS just
-- if they serve TLS.
pub record IsWired (gw : Gateway) (s : StatefulSet) : Type 0 where
  pub runs_as : s.account ≡ (service_account gw).name
  pub is_bound :
      In
        (record { kind = codes "ServiceAccount"; name = s.account; scope = s.meta.namespace })
        (keys_role_binding gw).subjects
  pub has_role : (keys_role_binding gw).role.name ≡ (keys_role gw).meta.name
  pub shares_keys : In (codes "-share-keys=" ++ (keys_role gw).meta.name) (flags s)
  pub reads_routes :
      (rendered : Text)
      → In
          (record {
            name = codes "routes";
            config_map = (routes_config_map gw rendered).meta.name;
            optional = true;
          })
          s.volumes
  pub is_selected : ((service_object gw).selector ≡ s.pod_labels) × (s.selector ≡ s.pod_labels)
  pub readiness_ok : (s.container.readiness.over_tls ≡ true) ↔ In tls_flag (flags s)
  pub liveness_ok : (s.container.liveness.over_tls ≡ true) ↔ In tls_flag (flags s)

tls_iff :
    (gw : Gateway) (cfg : Config) → (over_tls gw cfg ≡ true) ↔ In tls_flag (container_args gw cfg)
tls_iff gw cfg =
    let e = has-tls_flag gw cfg in
    let i = has_iff tls_flag (container_args gw cfg) in (λ h. i.0 (e ∙ h), λ h. sym e ∙ i.1 h)

In-share_keys :
    (gw : Gateway) (cfg : Config)
    → In (codes "-share-keys=" ++ keys_name gw) (container_args gw cfg)
unfolding container_args
In-share_keys gw cfg = inr (inr (inr (inr (inr (inr (inr (inr (inr (inl refl)))))))))

wired :
    (gw : Gateway) (cfg : Config) (tenants : Text) → IsWired gw (stateful_set_for gw cfg tenants)
unfolding stateful_set_for container_of service_account keys_role_binding keys_role
    routes_config_map service_object
wired gw cfg tenants = record {
  runs_as = refl;
  is_bound = inl refl;
  has_role = refl;
  shares_keys = In-share_keys gw cfg;
  reads_routes = λ rendered. inl refl;
  is_selected = (refl, refl);
  readiness_ok = tls_iff gw cfg;
  liveness_ok = tls_iff gw cfg;
}

module _ (parse_duration : Text → Option Duration) where
  -- A Gateway gets a StatefulSet exactly if the deployment's image, secret and tag are named and a waiting time,
  -- where it asks for one, is a positive duration of at most two minutes; and the StatefulSet fits the other
  -- objects.
  pub stateful_set_iff :
      (gw : Gateway) (cfg : Config) (tenants : Text)
      → ((IsDeployable parse_duration gw cfg
            → (s : StatefulSet) × (stateful_set parse_duration gw cfg tenants ≡ ok s))
          × ((s : StatefulSet)
              → stateful_set parse_duration gw cfg tenants ≡ ok s
              → IsDeployable parse_duration gw cfg × IsWired gw s))
  unfolding stateful_set
  stateful_set_iff gw cfg tenants =
      let valid = workload_valid_iff parse_duration gw cfg in
      (
        λ d. rw (valid.1 d) (_, refl),
        λ s e.
            let (u, v, built) = >>=-eq-ok (workload_valid parse_duration gw cfg) _ e in
            (valid.0 v, subst (IsWired gw) (ok-injective built) (wired gw cfg tenants)),
      )

  -- The name of the StatefulSet, and the name that its pods are told to take.
  pub stateful_set-hostname :
      (gw : Gateway) (cfg : Config) (tenants : Text) (s : StatefulSet)
      → stateful_set parse_duration gw cfg tenants ≡ ok s
      → (s.meta.name ≡ object_name gw) × In (hostname_arg gw) s.container.args
  unfolding stateful_set stateful_set_for container_of container_args
  stateful_set-hostname gw cfg tenants s e =
      let (u, v, built) = >>=-eq-ok (workload_valid parse_duration gw cfg) _ e in
      let made : stateful_set_for gw cfg tenants ≡ s = ok-injective built in
      (
        ap (λ (x : StatefulSet). x.meta.name) (sym made),
        subst (λ (x : StatefulSet). In (hostname_arg gw) x.container.args) made (inr (inl refl)),
      )
