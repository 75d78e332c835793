-- ===== src/Gateway/Rules/Tests.antt =====
-- Runs of gateway/routes.go, and its theorems at a sample.
use tsjwt.Prelude.{
  codes, text_eq, cut_prefix, has_prefix, trim_prefix, has_suffix, to_lower, ◌≡◌, refl, true, some,
}
use tsjwt.Gateway.Hostnames.{intersect_hostname}
use tsjwt.Routing.{covers}

narrowed :
    intersect_hostname (codes "*.a.example.com") (codes "*.Example.com")
    ≡ some (codes "*.a.example.com")
unfolding intersect_hostname to_lower has_suffix trim_prefix cut_prefix has_prefix text_eq
narrowed = refl

covered : covers (codes "x.a.example.com") (codes "*.a.example.com") ≡ true
unfolding covers cut_prefix has_suffix text_eq
covered = refl
