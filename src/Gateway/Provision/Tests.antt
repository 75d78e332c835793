-- ===== src/Gateway/Provision/Tests.antt =====
-- The Role of gateway/provision.go at a sample.
use tsjwt.Gateway.{Gateway}
use tsjwt.Prelude.{Text, codes, ◌≡◌, ◌↔◌, ◌⊎◌, true, []}
use tsjwt.Gateway.Provision.{keys_name, routes_config_map, keys_role}
use tsjwt.Gateway.Provision.Access.{role_permits, keys_role-IsNarrow, Access, IsConfigMap}
use tsjwt.Gateway.Rules.Samples.{gateway}

abbrev update_keys : Access
update_keys = record {
  verb = codes "update";
  api_group = [];
  resource = codes "configmaps";
  subresource = [];
  name = keys_name gateway;
}

keys_role-IsNarrow_example :
    ((role_permits update_keys (keys_role gateway).rules ≡ true) ↔ (
      IsConfigMap update_keys
      × ((codes "update" ≡ codes "create")
          ⊎ (((codes "update" ≡ codes "get") ⊎ (codes "update" ≡ codes "update"))
              × (keys_name gateway ≡ keys_name gateway)))))
    × ((h : Gateway) (rendered : Text)
        → keys_name gateway ≡ (routes_config_map h rendered).meta.name
        → role_permits update_keys (keys_role gateway).rules ≡ true
        → codes "update" ≡ codes "create")
keys_role-IsNarrow_example = keys_role-IsNarrow gateway update_keys
