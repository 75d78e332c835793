-- ===== src/Gateway.antt =====
-- The Gateway API objects that gateway/routes.go translates, with the fields that it reads. Their types are
-- those of the Kubernetes libraries: a nil pointer is `none`, and an annotation map is a list of pairs.
pub mod Hostnames
pub mod Fields
pub mod Rules
pub mod Watcher
pub mod Status
pub mod Provision
pub mod Reconciler
use tsjwt.Prelude.{Text, Dict, ℕ, Option, none, some, List, []}

pub record Listener : Type 0 where
  pub hostname : Option Text
  -- allowedRoutes.namespaces.from, where each part of the path is set
  pub from : Option Text

pub record Gateway : Type 0 where
  pub namespace : Text
  pub name : Text
  pub annotations : Dict Text
  pub listeners : List Listener

pub record ParentRef : Type 0 where
  pub kind : Option Text
  pub namespace : Option Text
  pub name : Text

pub record PathMatch : Type 0 where
  pub match_type : Option Text
  pub value : Option Text

-- A backendRef; `filters` is the number of its filters.
pub record BackendRef : Type 0 where
  pub kind : Option Text
  pub namespace : Option Text
  pub name : Text
  pub port : Option ℕ
  pub filters : ℕ

-- A rule, with the Path of each match and the number of the filters.
pub record Rule : Type 0 where
  pub paths : List (Option PathMatch)
  pub backends : List BackendRef
  pub filters : ℕ

pub record HttpRoute : Type 0 where
  pub namespace : Text
  pub name : Text
  pub annotations : Dict Text
  pub parents : List ParentRef
  pub hostnames : List Text
  pub rules : List Rule

pub record Service : Type 0 where
  pub namespace : Text
  pub name : Text
  pub ports : List ℕ

-- annotations[key]: the empty text where it is absent.
abbrev pub or_empty : Option Text → Text
or_empty none = []
or_empty (some t) = t
