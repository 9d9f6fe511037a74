-- ===== src/IngressDns/Configs.antt =====
-- internal/controller/routing/ingressdns_controller.go: the configurations of the gateways in use, and
-- the namespaces of the services that serve them.
use service_router_operator.Base.{
  String, List, [], ◌∷◌, none, some, Bool, true, false, ◌&&◌, ◌==◌, ◌≡◌, ◌↔◌, Comparable,
  if◌then◌else◌, add, value_at, string_eq, arith,
}
use service_router_operator.Api.{Gateway, Service, DnsEndpoint}
use service_router_operator.Client.{GatewayControllerConfig}

abbrev pub config_eq : GatewayControllerConfig → GatewayControllerConfig → Bool
config_eq a b = a.controller == b.controller && a.target_postfix == b.target_postfix

pub config_eq_iff : (a b : GatewayControllerConfig) → (config_eq a b ≡ true) ↔ (a ≡ b)
config_eq_iff a b = ground (
  arith,
  string_eq.test_iff a.controller b.controller,
  string_eq.test_iff a.target_postfix b.target_postfix,
)

instance abbrev pub config_Eq : Comparable GatewayControllerConfig
config_Eq = record { test = config_eq; test_iff = config_eq_iff }

abbrev pub config_of : Gateway → GatewayControllerConfig
config_of gw = record { controller = gw.spec.controller; target_postfix = gw.spec.target_postfix }

abbrev pub is_deleting : Gateway → Bool
is_deleting gw = elim gw.meta.deletion_timestamp [ none ↦ false | some _ ↦ true ]

-- The loop that fills `activeConfigs`.
unfoldable pub active_configs :
    List Gateway → List GatewayControllerConfig → List GatewayControllerConfig
active_configs [] configs = configs
active_configs (gw ∷ gws) configs =
    active_configs gws (if is_deleting gw then configs else add (config_of gw) configs)

unfoldable pub service_namespaces : List Service → List String → List String
service_namespaces [] namespaces = namespaces
service_namespaces (svc ∷ svcs) namespaces =
    service_namespaces svcs (add svc.meta.namespace namespaces)

-- The configuration that an endpoint's labels name.
abbrev pub labelled_config : DnsEndpoint → GatewayControllerConfig
labelled_config ep = record {
  controller = value_at "router.io/istio-controller" ep.meta.labels;
  target_postfix = value_at "router.io/target-postfix" ep.meta.labels;
}
