-- ===== src/ServiceRoute.antt =====
-- internal/controller/routing/serviceroute_controller.go
pub mod Endpoints
pub mod Status
pub mod Outcome
pub mod Removed
pub mod Whole
use service_router_operator.Base.{
  ℕ, String, List, [], ◌∷◌, Option, none, some, Bool, true, false, ◌&&◌, ◌==◌, if◌then◌else◌,
  concat, string_eq,
}
use service_router_operator.Api.{
  NamespacedName, key_of, Condition, ConditionStatus, condition_true, condition_false, DnsPolicy,
  Gateway, DnsEndpoint, phase_active, phase_failed, phase_pending, condition_type_ready,
  reason_reconciliation_succeeded, reason_validation_failed, reason_cluster_identity_not_available,
  reason_dns_configuration_not_available, reason_dns_policy_not_found, reason_dns_policy_inactive,
  reason_gateway_not_found, reason_dns_endpoint_generation_failed,
}
use service_router_operator.Api
use service_router_operator.Client.{
  Env, Identity, DnsConfig, M, ReconcileResult, Result, ok, err, pure, fail, attempt, call, finish,
  done, is_not_found, ◌>>=◌, ◌>>◌, everything,
}
use service_router_operator.Caches
unfoldable pub use Status.{
  active_status, update_status_active, pending_status, update_status_pending, failed_status,
  update_status_failed,
}
use Endpoints.{
  generate_dns_endpoints, reconcile_dns_endpoints, delete_dns_endpoints_for_service_route,
}

unfoldable pub validate_service_route : Api.ServiceRoute → Option String
validate_service_route route =
    if route.spec.service_name == ""
    then some "serviceName must be specified"
    else if route.spec.gateway_name == ""
    then some "gatewayName must be specified"
    else if route.spec.environment == ""
    then some "environment must be specified"
    else if route.spec.application == ""
    then some "application must be specified"
    else none

abbrev first_policy : List DnsPolicy → Option DnsPolicy
first_policy [] = none
first_policy (p ∷ _) = some p

-- The namespace of a route's gateway, given the default.
abbrev pub gateway_namespace : String → Api.ServiceRoute → String
gateway_namespace default route =
    if route.spec.gateway_namespace == "" then default else route.spec.gateway_namespace

-- The key of a route's gateway.
abbrev pub gateway_key : String → Api.ServiceRoute → NamespacedName
gateway_key default route = record {
  name = route.spec.gateway_name;
  namespace = gateway_namespace default route;
}

abbrev pub references : String → Gateway → Api.ServiceRoute → Bool
references default gateway route =
    route.spec.gateway_name == gateway.meta.name
    && gateway_namespace default route == gateway.meta.namespace

abbrev pub requests_of : List Api.ServiceRoute → List NamespacedName
requests_of [] = []
requests_of (route ∷ routes) = key_of route.meta ∷ requests_of routes

abbrev pub requests_referencing : String → Gateway → List Api.ServiceRoute → List NamespacedName
requests_referencing default gateway [] = []
requests_referencing default gateway (route ∷ routes) =
    if references default gateway route
    then key_of route.meta ∷ requests_referencing default gateway routes
    else requests_referencing default gateway routes

module _ {S : Type 0} (env : Env S) where
  unfoldable pub get_dns_policy_for_namespace : String → M S (Option DnsPolicy)
  get_dns_policy_for_namespace namespace = do
    items ←
        call (env.client.dns_policies.list (record everything { in_namespace = some namespace }))
    pure (first_policy items)

  abbrev config_missing : Api.ServiceRoute → M S ReconcileResult
  config_missing route =
      update_status_pending env route reason_dns_configuration_not_available
        "Waiting for DNSConfiguration to be configured"

  abbrev identity_missing : Api.ServiceRoute → M S ReconcileResult
  identity_missing route =
      update_status_pending env route reason_cluster_identity_not_available
        "Waiting for ClusterIdentity to be configured"

  -- The part of `Reconcile` that has all it depends on: generate, apply, report.
  unfoldable pub apply :
      Api.ServiceRoute → DnsPolicy → Gateway → Identity → DnsConfig → M S ReconcileResult
  unfolding update_status_active update_status_failed
  apply route policy gateway identity config =
      elim (generate_dns_endpoints env.new_controller_ref route policy gateway identity config) [
        | err e ↦ update_status_failed env route reason_dns_endpoint_generation_failed e.message
        | ok endpoints ↦ do
          reconcile_dns_endpoints env route endpoints
          update_status_active env route endpoints
      ]

  -- The part that has the gateway's key: from `r.Get` of the gateway to the end.
  unfoldable pub with_policy_and_config :
      Api.ServiceRoute → DnsPolicy → DnsConfig → M S ReconcileResult
  unfolding apply update_status_pending
  with_policy_and_config route policy config = do
    let key = gateway_key env.default_router_gateway_namespace route
    found ← attempt (call (env.client.gateways.get key))
    elim found [
      | err e ↦
          if is_not_found e
          then update_status_pending env route reason_gateway_not_found (
              concat (
                "Gateway " ∷ route.spec.gateway_name ∷ " not found in namespace " ∷ key.namespace
                ∷ []))
          else fail e
      | ok gateway ↦ do
        identity ← attempt (Caches.Identity.fetch env)
        elim identity [
          | err _ ↦ identity_missing route
          | ok none ↦ identity_missing route
          | ok (some i) ↦ apply route policy gateway i config
        ]
    ]

  -- The part that has the policy: an inactive one removes the endpoints.
  unfoldable pub with_policy : Api.ServiceRoute → DnsPolicy → M S ReconcileResult
  unfolding with_policy_and_config update_status_pending
  with_policy route policy =
      if policy.status.active
      then (do
        config ← attempt (Caches.DnsConfiguration.fetch env)
        elim config [
          | err _ ↦ config_missing route
          | ok none ↦ config_missing route
          | ok (some c) ↦ with_policy_and_config route policy c
        ])
      else do
        delete_dns_endpoints_for_service_route env (key_of route.meta)
        update_status_pending env route reason_dns_policy_inactive
            "DNSPolicy is not active for this cluster (sourceRegion/sourceCluster mismatch). DNSEndpoints have been removed to prevent conflicts."

  unfoldable pub reconcile : NamespacedName → M S ReconcileResult
  unfolding with_policy validate_service_route get_dns_policy_for_namespace update_status_pending
      update_status_failed
  reconcile req = do
    found ← attempt (call (env.client.service_routes.get req))
    elim found [
      | err e ↦
          if is_not_found e
          then (do delete_dns_endpoints_for_service_route env req; pure done)
          else fail e
      | ok route ↦ elim (validate_service_route route) [
        | some message ↦ update_status_failed env route reason_validation_failed message
        | none ↦ do
          policy ← get_dns_policy_for_namespace route.meta.namespace
          elim policy [
            | none ↦
                update_status_pending env route reason_dns_policy_not_found
                  "Waiting for DNSPolicy to be configured in namespace"
            | some p ↦ with_policy route p
          ]
      ]
    ]

  unfoldable pub map_dns_policy_to_service_routes : DnsPolicy → M S (List NamespacedName)
  map_dns_policy_to_service_routes policy = do
    listed ← attempt (
        call (
          env.client.service_routes.list
            (record everything { in_namespace = some policy.meta.namespace })))
    elim listed [ err _ ↦ pure [] | ok items ↦ pure (requests_of items) ]

  unfoldable pub map_gateway_to_service_routes : Gateway → M S (List NamespacedName)
  map_gateway_to_service_routes gateway = do
    listed ← attempt (call (env.client.service_routes.list everything))
    elim listed [
      | err _ ↦ pure []
      | ok items ↦ pure (requests_referencing env.default_router_gateway_namespace gateway items)
    ]

  unfoldable pub map_cluster_identity_to_service_routes : M S (List NamespacedName)
  map_cluster_identity_to_service_routes = do
    listed ← attempt (call (env.client.service_routes.list everything))
    elim listed [ err _ ↦ pure [] | ok items ↦ pure (requests_of items) ]
