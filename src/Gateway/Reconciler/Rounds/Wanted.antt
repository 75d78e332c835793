-- ===== src/Gateway/Reconciler/Rounds/Wanted.antt =====
-- The six objects that a round of gateway/reconcile.go applies, and what its mutations do to them.
use tsjwt.Gateway.{Gateway}
use tsjwt.Gateway.Provision.{
  Meta, ConfigMap, routes_config_map, ServiceObject, service_object, service_account, Role,
  keys_role, RoleBinding, keys_role_binding,
}
use tsjwt.Gateway.Provision.Workload.{StatefulSet}
use tsjwt.Gateway.Reconciler.{
  Provisioned, routes, account, role, binding, service, workload, set_routes_text, set_rules,
  set_binding, set_selector, set_workload, unchanged, Step, first_steps, workload_step,
}
use tsjwt.Prelude.{
  ◌==◌, if◌then◌else◌, length, All, Text, ◌≡◌, refl, ap, ◌∙◌, List, [], ◌∷◌, ◌++◌, map,
}

-- The five objects before the StatefulSet, as a round wants them.
abbrev pub wanted : Gateway → Text → List Provisioned
wanted gw text =
    routes (routes_config_map gw text)
    ∷ account (service_account gw)
    ∷ role (keys_role gw)
    ∷ binding (keys_role_binding gw)
    ∷ service (service_object gw)
    ∷ []

-- What a step makes where the object is not there yet.
abbrev pub created : Step → Provisioned
created s = s.mutate s.object

-- A mutation leaves an object that was found as it is, but for the part that the wanted one determines.
abbrev pub Restores : Provisioned → (Provisioned → Provisioned) → Type 0
Restores (routes want) f =
    (cm : ConfigMap) → f (routes cm) ≡ routes (record cm { contents = want.contents })
Restores (account want) f = (m : Meta) → f (account m) ≡ account m
Restores (role want) f = (r : Role) → f (role r) ≡ role (record r { rules = want.rules })
Restores (binding want) f =
    (b : RoleBinding)
    → f (binding b) ≡ binding (record b { role = want.role; subjects = want.subjects })
Restores (service want) f =
    (s : ServiceObject) → f (service s) ≡ service (record s { selector = want.selector })
Restores (workload want) f =
    (s : StatefulSet)
    → f (workload s)
      ≡ workload (record want {
        meta = record s.meta { labels = want.meta.labels };
        claims = if length s.claims == 0 then want.claims else s.claims;
      })

abbrev pub IsRestoring : Step → Type 0
IsRestoring s = Restores (created s) s.mutate

pub first_steps-wanted :
    (gw : Gateway) (text : Text) → map created (first_steps gw text) ≡ wanted gw text
unfolding first_steps set_routes_text set_rules set_binding set_selector unchanged routes_config_map
    service_object
first_steps-wanted gw text = refl

pub first_steps-IsRestoring : (gw : Gateway) (text : Text) → All IsRestoring (first_steps gw text)
unfolding first_steps set_routes_text set_rules set_binding set_selector unchanged routes_config_map
    service_object
first_steps-IsRestoring gw text =
    ((λ x. refl), ((λ x. refl), ((λ x. refl), ((λ x. refl), ((λ x. refl), tt)))))

workload_step-created : (want : StatefulSet) → created (workload_step want) ≡ workload want
unfolding set_workload
workload_step-created want = refl

pub workload_step-IsRestoring : (want : StatefulSet) → IsRestoring (workload_step want)
unfolding set_workload
workload_step-IsRestoring want s = refl

pub All-append : (P : Step → Type 0) (xs ys : List Step) → All P xs → All P ys → All P (xs ++ ys)
All-append P [] ys all more = more
All-append P (x ∷ xs) ys all more = (all.0, All-append P xs ys all.1 more)

created-append : (xs ys : List Step) → map created (xs ++ ys) ≡ map created xs ++ map created ys
created-append [] ys = refl
created-append (x ∷ xs) ys = ap (λ (l : List Provisioned). created x ∷ l) (created-append xs ys)

pub six_created :
    (gw : Gateway) (text : Text) (want : StatefulSet)
    → map created (first_steps gw text ++ workload_step want ∷ [])
      ≡ wanted gw text ++ workload want ∷ []
six_created gw text want =
    created-append (first_steps gw text) (workload_step want ∷ [])
    ∙ (ap (λ (l : List Provisioned). l ++ created (workload_step want) ∷ [])
          (first_steps-wanted gw text)
        ∙ ap (λ (o : Provisioned). wanted gw text ++ o ∷ []) (workload_step-created want))
