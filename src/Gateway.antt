-- ===== src/Gateway.antt =====
-- internal/controller/routing/gateway_controller.go
pub mod Pattern
pub mod Istio
pub mod Status
pub mod Valid
pub mod Hosts
pub mod Outcome
pub mod Progress
use service_router_operator.Base.{
  ℕ, ◌*◌, String, List, [], ◌∷◌, ◌++◌, Option, none, some, map, Bool, true, false, not, ◌&&◌, ◌||◌,
  ◌==◌, if◌then◌else◌, length, contains, add, lookup, value_at, concat, string_eq, nat_eq,
}
use service_router_operator.Api.{
  NamespacedName, key_of, Condition, ConditionStatus, condition_true, condition_false, ServiceRoute,
  Service, ServiceType, IstioGateway, IstioGatewaySpec, ServerTlsSettings, TlsMode, simple,
  routing_kind, phase_active, phase_failed, phase_pending, condition_type_ready,
  condition_type_dns_ready, reason_reconciliation_succeeded, reason_validation_failed,
  reason_cluster_identity_not_available, reason_no_service_routes,
  reason_istio_gateway_generation_failed, reason_dns_endpoints_created,
  reason_load_balancer_ip_pending, reason_dns_not_ready,
}
use service_router_operator.Api
use service_router_operator.Client.{
  Env, Identity, M, ReconcileResult, ListOptions, Result, ok, err, pure, fail, attempt, call,
  finish, done, is_not_found, ◌>>=◌, ◌>>◌, everything,
}
use service_router_operator.Caches
use Pattern.{match_string}
unfoldable pub use Status.{
  after_update, active_status, update_status_active, pending_status, update_status_pending,
  failed_status, update_status_failed,
}
use Istio.{generate_istio_gateway, reconcile_istio_gateway, delete_istio_gateway}

unfoldable pub validate_gateway : Api.Gateway → Option String
validate_gateway gateway =
    if gateway.spec.controller == ""
    then some "controller must be specified"
    else if gateway.spec.credential_name == ""
    then some "credentialName must be specified"
    else if gateway.spec.target_postfix == ""
    then some "targetPostfix must be specified"
    else if not (match_string gateway.spec.target_postfix)
    then some (
        concat (
          "targetPostfix must be lowercase alphanumeric with hyphens: "
          ∷ gateway.spec.target_postfix ∷ []))
    else none

abbrev pub source_host : Identity → ServiceRoute → String
source_host identity route = concat (
    route.spec.service_name ∷ "-ns-" ∷ identity.environment_letter ∷ "-" ∷ route.spec.environment
    ∷ "-" ∷ route.spec.application ∷ "." ∷ identity.domain ∷ [])

-- The namespace of a route's gateway, given the default.
abbrev pub gateway_namespace : String → ServiceRoute → String
gateway_namespace default route =
    if route.spec.gateway_namespace == "" then default else route.spec.gateway_namespace

-- The two tests of the loop in `collectHostsFromServiceRoutes`.
abbrev pub uses_gateway : String → Api.Gateway → ServiceRoute → Bool
uses_gateway default gateway route =
    if not (route.spec.gateway_name == gateway.meta.name)
    then false
    else if not (gateway_namespace default route == gateway.meta.namespace)
    then false
    else true

abbrev add_host : Option Identity → ServiceRoute → List String → List String
add_host none route hosts = hosts
add_host (some identity) route hosts = add (source_host identity route) hosts

unfoldable pub collect_loop :
    String → Api.Gateway → Option Identity → List ServiceRoute → List String → List String
collect_loop default gateway identity [] hosts = hosts
collect_loop default gateway identity (route ∷ routes) hosts =
    collect_loop default gateway identity routes
      (if uses_gateway default gateway route then add_host identity route hosts else hosts)

abbrev pub first_load_balancer : List Service → Option Service
first_load_balancer [] = none
first_load_balancer (svc ∷ svcs) = elim svc.type [
  | ServiceType.load_balancer ↦ some svc
  | _ ↦ first_load_balancer svcs
]

-- The IP, whether DNS is ready, and the message, for the service that was found.
abbrev pub dns_status_of : Option Service → String × Bool × String
dns_status_of none = ("", false, "LoadBalancer Service not found")
dns_status_of (some svc) = elim svc.ingress_ips [
  | [] ↦ ("", false, "LoadBalancer IP pending")
  | ip ∷ _ ↦
      if ip == ""
      then ("", false, "LoadBalancer IP empty")
      else (ip, true, "DNSEndpoints provisioned")
]

-- The keys of the gateways of a controller.
abbrev requests_using : String → List Api.Gateway → List NamespacedName
requests_using controller [] = []
requests_using controller (gw ∷ gws) =
    if gw.spec.controller == controller
    then key_of gw.meta ∷ requests_using controller gws
    else requests_using controller gws

abbrev requests_of : List Api.Gateway → List NamespacedName
requests_of [] = []
requests_of (gw ∷ gws) = key_of gw.meta ∷ requests_of gws

module _ {S : Type 0} (env : Env S) where
  unfoldable pub collect_hosts : Api.Gateway → Option Identity → M S (List String)
  unfolding collect_loop
  collect_hosts gateway identity = do
    routes ← call (env.client.service_routes.list everything)
    let default = env.default_router_gateway_namespace
    pure (env.range.hosts (collect_loop default gateway identity routes []))

  unfoldable pub get_load_balancer_service : String → M S (Option Service)
  get_load_balancer_service controller = do
    services ← call (
        env.client.services.list
          (record everything { matching_labels = ("istio", controller) ∷ [] }))
    pure (first_load_balancer services)

  unfoldable pub check_dns_status : Api.Gateway → M S (String × Bool × String)
  unfolding get_load_balancer_service
  check_dns_status gateway = do
    svc ← attempt (get_load_balancer_service gateway.spec.controller)
    pure (elim svc [ err _ ↦ dns_status_of none | ok found ↦ dns_status_of found ])

  -- The part of `Reconcile` after the hosts and the state of DNS are known.
  unfoldable pub publish : Api.Gateway → List String → String × Bool × String → M S ReconcileResult
  unfolding delete_istio_gateway generate_istio_gateway reconcile_istio_gateway update_status_active
      update_status_pending update_status_failed
  publish gateway [] (lb_ip, dns_ready, dns_msg) = do
    delete_istio_gateway env gateway
    update_status_pending env gateway reason_no_service_routes
        "Waiting for ServiceRoutes to reference this Gateway" lb_ip dns_ready dns_msg
  publish gateway (h ∷ hs) (lb_ip, dns_ready, dns_msg) =
      elim (generate_istio_gateway env gateway (h ∷ hs)) [
        | err e ↦ update_status_failed env gateway reason_istio_gateway_generation_failed e.message
        | ok istio_gateway ↦ do
          reconcile_istio_gateway env istio_gateway
          update_status_active env gateway lb_ip dns_ready dns_msg
      ]

  abbrev identity_missing : Api.Gateway → M S ReconcileResult
  identity_missing gateway =
      update_status_pending env gateway reason_cluster_identity_not_available
        "Waiting for ClusterIdentity to be configured" "" false "ClusterIdentity not available"

  unfoldable pub reconcile : NamespacedName → M S ReconcileResult
  unfolding validate_gateway collect_hosts check_dns_status publish update_status_pending
      update_status_failed
  reconcile req = do
    found ← attempt (call (env.client.gateways.get req))
    elim found [
      | err e ↦ if is_not_found e then pure done else fail e
      | ok gateway ↦ elim (validate_gateway gateway) [
        | some message ↦ update_status_failed env gateway reason_validation_failed message
        | none ↦ do
          identity ← attempt (Caches.Identity.fetch env)
          elim identity [
            | err _ ↦ identity_missing gateway
            | ok none ↦ identity_missing gateway
            | ok (some i) ↦ do
              hosts ← collect_hosts gateway (some i)
              status ← check_dns_status gateway
              publish gateway hosts status
          ]
      ]
    ]

  unfoldable pub map_service_route_to_gateway : ServiceRoute → List NamespacedName
  map_service_route_to_gateway route =
      record {
        name = route.spec.gateway_name;
        namespace = gateway_namespace env.default_router_gateway_namespace route;
      }
      ∷ []

  unfoldable pub map_service_to_gateways : Service → M S (List NamespacedName)
  map_service_to_gateways svc = elim svc.type [
    | ServiceType.load_balancer ↦ elim (lookup "istio" svc.meta.labels) [
      | none ↦ pure []
      | some controller ↦ do
        listed ← attempt (call (env.client.gateways.list everything))
        elim listed [ err _ ↦ pure [] | ok items ↦ pure (requests_using controller items) ]
    ]
    | _ ↦ pure []
  ]

  unfoldable pub map_dns_config_to_gateways : M S (List NamespacedName)
  map_dns_config_to_gateways = do
    listed ← attempt (call (env.client.gateways.list everything))
    elim listed [ err _ ↦ pure [] | ok items ↦ pure (requests_of items) ]
