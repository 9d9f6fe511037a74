-- ===== src/Gateway/Valid.antt =====
-- Which Gateways are valid (internal/controller/routing/gateway_controller.go).
use service_router_operator.Base.{none, false, ◌≡◌, ◌≢◌, ◌↔◌, refl, arith, string_eq, codes}
use service_router_operator.Api
use service_router_operator.Gateway.{validate_gateway}
use service_router_operator.Gateway.Pattern.{match_string, match_from, Matches, postfix_pattern}
use service_router_operator.Gateway.Pattern.Meaning.{match_string_iff}

empty_postfix : match_string "" ≡ false
unfolding match_string match_from
empty_postfix = refl

-- A Gateway passes the validation exactly if its controller and its credential are named, and its
-- postfix is of lowercase letters and digits, in groups joined by single hyphens.
pub validate_gateway_iff :
    (gateway : Api.Gateway)
    → (validate_gateway gateway ≡ none) ↔ (
        (gateway.spec.controller ≢ "")
        × (gateway.spec.credential_name ≢ "")
        × Matches postfix_pattern (codes gateway.spec.target_postfix))
unfolding validate_gateway
validate_gateway_iff gateway = ground (
  arith,
  string_eq.test_iff gateway.spec.controller "",
  string_eq.test_iff gateway.spec.credential_name "",
  string_eq.test_iff gateway.spec.target_postfix "",
  match_string_iff gateway.spec.target_postfix,
  empty_postfix,
)
