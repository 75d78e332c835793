-- ===== src/Gateway/Provision.antt =====
-- What the controller provisions for a Gateway, gateway/provision.go: the names, the ConfigMap of the routes, the
-- account, Role and RoleBinding of the data plane, its Service and its StatefulSet. The objects have the fields
-- that the file sets; time.ParseDuration is an argument.
mod Tests
pub mod Samples
pub mod Workload
pub mod Access
use tsjwt.Prelude.{
  if◌then◌else◌, Text, codes, has_prefix, cut, Dict, ℕ, Bool, Option, none, some, List, [], ◌∷◌,
  ◌++◌, ◌*◌,
}
use tsjwt.Gateway.{Listener, Gateway}

pub record Config : Type 0 where
  pub image : Text
  pub service_account : Text
  pub credential_secret : Text
  pub tag : Text
  pub storage_class : Text
  pub zone : Text
  pub jwks_over_tls : Bool
  pub capability : Text

-- The names of a Gateway's objects.
abbrev pub object_name : Gateway → Text
object_name gw = codes "tsjwt-" ++ gw.name

abbrev pub routes_name : Gateway → Text
routes_name gw = codes "tsjwt-" ++ (gw.name ++ codes "-routes")

abbrev pub keys_name : Gateway → Text
keys_name gw = codes "tsjwt-" ++ (gw.name ++ codes "-keys")

abbrev pub account_name : Gateway → Text
account_name gw = codes "tsjwt-" ++ (gw.name ++ codes "-dataplane")

-- The first label of a hostname, or the hostname itself where it has no dot or begins with one.
label_of : Text → Option (Text × Text) → Text
label_of h none = h
label_of h (some ([], rest)) = h
label_of h (some (c ∷ label, rest)) = c ∷ label

-- One listener of declaredHostname; `none` is the `continue`.
declares : Option Text → Option Text
unfolding has_prefix label_of cut
declares none = none
declares (some []) = none
declares (some (c ∷ h)) =
    if has_prefix (c ∷ h) (codes "*.") then none else some (label_of (c ∷ h) (cut (c ∷ h) b'.'))

or_else : Option Text → Option Text → Option Text
or_else none rest = rest
or_else (some h) rest = some h

declared_by : List Listener → Option Text
unfolding declares or_else
declared_by [] = none
declared_by (l ∷ ls) = or_else (declares l.hostname) (declared_by ls)

-- declaredHostname
unfoldable pub declared_hostname : Gateway → Option Text
unfolding declared_by
declared_hostname gw = declared_by gw.listeners

abbrev pub or_name : Option Text → Text → Text
or_name none name = name
or_name (some h) name = h

-- hostname
unfoldable pub hostname : Gateway → Text
unfolding declared_hostname
hostname gw = or_name (declared_hostname gw) gw.name

-- hostnameArg
unfoldable pub hostname_arg : Gateway → Text
unfolding declared_hostname
hostname_arg gw = codes "-hostname=" ++ or_name (declared_hostname gw) (codes "$(POD_NAME)")

-- labels
abbrev pub labels : Gateway → Dict Text
labels gw =
    (codes "app.kubernetes.io/name", codes "tsjwt")
    ∷ (codes "app.kubernetes.io/managed-by", codes "tsjwt-gateway-controller")
    ∷ (codes "tsjwt.dev/gateway", gw.name)
    ∷ []

pub record Meta : Type 0 where
  pub name : Text
  pub namespace : Text
  pub labels : Dict Text

abbrev pub meta_of : Gateway → Text → Meta
meta_of gw name = record { name = name; namespace = gw.namespace; labels = labels gw }

pub record ConfigMap : Type 0 where
  pub meta : Meta
  pub contents : Dict Text

-- RoutesConfigMap
unfoldable pub routes_config_map : Gateway → Text → ConfigMap
routes_config_map gw rendered = record {
  meta = meta_of gw (routes_name gw);
  contents = (codes "routes.json", rendered) ∷ [];
}

pub record PortSpec : Type 0 where
  pub name : Text
  pub port : ℕ
  pub target : Text

pub record ServiceObject : Type 0 where
  pub meta : Meta
  pub selector : Dict Text
  pub ports : List PortSpec

-- Service
unfoldable pub service_object : Gateway → ServiceObject
service_object gw = record {
  meta = meta_of gw (object_name gw);
  selector = labels gw;
  ports = record { name = codes "jwks"; port = 9100; target = codes "jwks" } ∷ [];
}

-- DataPlaneServiceAccount
unfoldable pub service_account : Gateway → Meta
service_account gw = meta_of gw (account_name gw)

pub record PolicyRule : Type 0 where
  pub api_groups : List Text
  pub resources : List Text
  pub resource_names : List Text
  pub verbs : List Text

pub record Role : Type 0 where
  pub meta : Meta
  pub rules : List PolicyRule

-- KeysRole
unfoldable pub keys_role : Gateway → Role
keys_role gw = record {
  meta = meta_of gw (keys_name gw);
  rules =
      record {
        api_groups = [] ∷ [];
        resources = codes "configmaps" ∷ [];
        resource_names = [];
        verbs = codes "create" ∷ [];
      }
      ∷ record {
        api_groups = [] ∷ [];
        resources = codes "configmaps" ∷ [];
        resource_names = keys_name gw ∷ [];
        verbs = codes "get" ∷ codes "update" ∷ [];
      }
      ∷ [];
}

-- A kind, a name and a namespace; a role reference has the API group in place of the namespace.
pub record ObjectRef : Type 0 where
  pub kind : Text
  pub name : Text
  pub scope : Text

pub record RoleBinding : Type 0 where
  pub meta : Meta
  pub role : ObjectRef
  pub subjects : List ObjectRef

-- KeysRoleBinding
unfoldable pub keys_role_binding : Gateway → RoleBinding
keys_role_binding gw = record {
  meta = meta_of gw (keys_name gw);
  role = record {
    kind = codes "Role";
    name = keys_name gw;
    scope = codes "rbac.authorization.k8s.io";
  };
  subjects =
      record { kind = codes "ServiceAccount"; name = account_name gw; scope = gw.namespace } ∷ [];
}
