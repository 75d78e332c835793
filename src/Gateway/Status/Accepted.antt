-- ===== src/Gateway/Status/Accepted.antt =====
-- When a route is reported as accepted: routeAcceptedCondition of gateway/routes.go over the errors of Translate.
use tsjwt.Gateway.Hostnames.{hostnames_for}
use tsjwt.Routing.{Route}
use tsjwt.Prelude.{Text, ℕ, ◌≡◌, true, List, [], ◌∷◌, Dict, ◌+◌, Option, codes}
use tsjwt.Gateway.{HttpRoute, Gateway, Rule, Service}
use tsjwt.Gateway.Rules.{rule_name, passed, translate_rule}

module _ (parse_url : Text → Option Text) where
  -- Each rule from the `i`th on is translated.
  abbrev pub RulesPass : HttpRoute → List Text → Dict Service → List Text → ℕ → List Rule → Type 0
  RulesPass r hostnames services allowed i [] = Unit
  RulesPass r hostnames services allowed i (rule ∷ rules) =
      ((built : List Route) × (translate_rule parse_url r (rule_name r i) rule hostnames services
            allowed
          ≡ passed built))
      × RulesPass r hostnames services allowed (i + 1) rules

  -- Its hostnames meet the Gateway's, and each of its rules is translated.
  abbrev pub Translates : Gateway → Dict Service → List Text → HttpRoute → Type 0
  Translates gw services allowed r =
      ((hostnames_for gw r).1 ≡ true)
      × RulesPass r (hostnames_for gw r).0 services allowed 0 r.rules

-- The status of a condition with which a route is accepted.
abbrev pub accepted_status : Text
accepted_status = codes "True"
