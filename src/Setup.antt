-- ===== src/Setup.antt =====
-- How the controllers are registered: `SetupWithManager` of each (internal/controller).
pub mod ControllerRuntime
pub mod Controllers
pub mod Registered
pub mod Events
use service_router_operator.Base.{List, ◌∷◌, []}
use service_router_operator.Client.{Env, Result, ok, err, pure}
use service_router_operator.ClusterIdentity
use service_router_operator.DnsConfiguration
use service_router_operator.DnsPolicy
use service_router_operator.Gateway
use service_router_operator.IngressDns
use service_router_operator.ServiceRoute
use ControllerRuntime.{
  Runtime, SchemeGroup, ObjectKind, cluster_identity, dns_configuration, dns_policy, gateway,
  service_route, service, istio_gateway, dns_endpoint, istio_group, core_group, external_dns_group,
  routing_group,
}

abbrev pub Step : Type 0 → Type 0
Step P = P → Result (Unit {0}) × P

-- `if err := …; err != nil { return err }`, or the last call's error.
abbrev next : {P : Type 0} → Result (Unit {0}) × P → Step P → Result (Unit {0}) × P
next (ok _, p) k = k p
next (err e, p) k = (err e, p)

module _ {P : Type 0} where
  infixr 5 ◌then_try◌
  abbrev pub ◌then_try◌ : Step P → Step P → Step P
  ◌then_try◌ s k p = next (s p) k

module _ {S P B : Type 0} (rt : Runtime S P B) (env : Env S) where
  unfoldable pub cluster_identity_setup : Step P
  cluster_identity_setup p =
      let b = rt.for cluster_identity (rt.new_controller_managed_by p) in
      let b =
        rt.watches dns_configuration (λ _. ClusterIdentity.map_dns_config_to_cluster_identities env)
          b in
      rt.complete (ClusterIdentity.reconcile env) b p

  unfoldable pub dns_configuration_setup : Step P
  dns_configuration_setup p =
      rt.complete (DnsConfiguration.reconcile env)
        (rt.for dns_configuration (rt.new_controller_managed_by p)) p

  unfoldable pub dns_policy_setup : Step P
  dns_policy_setup p =
      let b = rt.for dns_policy (rt.new_controller_managed_by p) in
      let b =
        rt.watches cluster_identity (λ _. DnsPolicy.map_global_config_to_dns_policies env) b in
      let b =
        rt.watches dns_configuration (λ _. DnsPolicy.map_global_config_to_dns_policies env) b in
      rt.complete (DnsPolicy.reconcile env) b p

  abbrev pub gateway_controller_setup : Step P
  gateway_controller_setup p =
      let b = rt.for gateway (rt.new_controller_managed_by p) in
      let b = rt.with_event_filter rt.generation_changed b in
      let b = rt.owns istio_gateway b in
      let b = rt.watches service_route (λ r. pure (Gateway.map_service_route_to_gateway env r)) b in
      let b = rt.watches service (Gateway.map_service_to_gateways env) b in
      let b = rt.watches dns_configuration (λ _. Gateway.map_dns_config_to_gateways env) b in
      rt.complete (Gateway.reconcile env) b p

  unfoldable pub gateway_setup : Step P
  gateway_setup =
      rt.add_to_scheme istio_group
      then_try rt.add_to_scheme core_group
      then_try rt.add_to_scheme external_dns_group
      then_try rt.add_to_scheme routing_group
      then_try gateway_controller_setup

  unfoldable pub ingress_dns_setup : Step P
  ingress_dns_setup p =
      let b = rt.named "ingress-dns-controller" (rt.new_controller_managed_by p) in
      let b = rt.watches gateway (λ _. pure IngressDns.map_global_events_to_request) b in
      let b = rt.watches service (λ s. pure (IngressDns.map_service_to_request s.meta)) b in
      let b = rt.watches cluster_identity (λ _. pure IngressDns.map_global_events_to_request) b in
      let b = rt.watches dns_configuration (λ _. pure IngressDns.map_global_events_to_request) b in
      rt.complete (λ _. IngressDns.reconcile env) b p

  abbrev pub service_route_controller_setup : Step P
  service_route_controller_setup p =
      let b = rt.for service_route (rt.new_controller_managed_by p) in
      let b = rt.owns dns_endpoint b in
      let b = rt.watches dns_policy (ServiceRoute.map_dns_policy_to_service_routes env) b in
      let b = rt.watches gateway (ServiceRoute.map_gateway_to_service_routes env) b in
      let b =
        rt.watches cluster_identity (λ _. ServiceRoute.map_cluster_identity_to_service_routes env)
          b in
      rt.complete (ServiceRoute.reconcile env) b p

  unfoldable pub service_route_setup : Step P
  service_route_setup = rt.add_to_scheme external_dns_group then_try service_route_controller_setup
