-- ===== src/Tests/Ingress.antt =====
-- The load balancers' records at concrete inputs (internal/controller/routing/ingressdns_controller.go).
use service_router_operator.Base.{
  List, [], ◌∷◌, not, any, contains, ◌&&◌, ◌==◌, ◌≡◌, refl, string_eq, arith,
}
use service_router_operator.Api.{NamespacedName, names_Eq, key_of, DnsEndpoint}
use service_router_operator.Client.{World, endpoint_kind, GatewayControllerConfig}
use service_router_operator.IngressDns.{
  config_Eq, config_of, is_deleting, active_configs, target_host, desired_endpoint,
  reconcile_dns_endpoints_for_config, apply_controllers, apply_endpoint, get_load_balancer_service,
  cleanup_orphaned_dns_endpoints, cleanup_namespaces, cleanup_endpoints, service_namespaces,
}
use service_router_operator.IngressDns.Records.{Written, active_configs-contains}
use service_router_operator.IngressDns.Controllers.{
  is_for, reconcile_dns_endpoints_for_config-Written,
}
use service_router_operator.IngressDns.Cleanup.{Spared, cleanup_orphaned_dns_endpoints-Spared}
use service_router_operator.Tests.Same.{stored_endpoint_Eq}
use service_router_operator.Tests.Memory.{mem_at}
use service_router_operator.Tests.Memory.Lawful.{mem-IsStore}
use service_router_operator.Tests.Fixture.{
  gateway, service, identity, config, west_controller, north_controller, mem_env, mem_world,
}

abbrev own_config : GatewayControllerConfig
own_config = record { controller = "istio-in"; target_postfix = "external" }

active_configs-contains_example :
    contains own_config (active_configs (gateway ∷ []) [])
    ≡ any (λ gw. not (is_deleting gw) && config_of gw == own_config) (gateway ∷ [])
active_configs-contains_example = active_configs-contains own_config (gateway ∷ [])

abbrev record_of : DnsEndpoint
unfolding desired_endpoint
record_of = desired_endpoint "istio-in" "external" identity service "10.0.0.4" west_controller

abbrev other_record : DnsEndpoint
unfolding desired_endpoint
other_record = desired_endpoint "istio-in" "external" identity service "10.0.0.4" north_controller

abbrev written : World (List DnsEndpoint)
written = mem_world (other_record ∷ record_of ∷ [])

abbrev west_key : NamespacedName
west_key = record {
  name = "gateway-controller-istio-in-external-dns-weu";
  namespace = "istio-system";
}

reconcile_dns_endpoints_for_config-Written_example :
    Written mem_env
      (mem_at endpoint_kind)
      (mem-IsStore endpoint_kind)
      "10.0.0.4"
      (target_host identity "external")
      (any
        (is_for mem_env
          (mem_at endpoint_kind)
          (mem-IsStore endpoint_kind)
          "istio-in"
          "external"
          identity
          service
          "10.0.0.4"
          west_key)
        config.external_dns_controllers)
      []
      written.server
      west_key
unfolding reconcile_dns_endpoints_for_config get_load_balancer_service apply_controllers
    apply_endpoint record_of other_record
reconcile_dns_endpoints_for_config-Written_example =
    reconcile_dns_endpoints_for_config-Written mem_env (mem_at endpoint_kind)
      (mem-IsStore endpoint_kind) "istio-in" "external" identity config (mem_world []) written
      (service ∷ []) [] service "10.0.0.4" [] west_key refl refl refl
      (λ e. absurd (ground (arith, string_eq.test_iff "10.0.0.4" ""))) tt refl

-- Only the records of the active configuration stay.
abbrev orphan : DnsEndpoint
unfolding desired_endpoint
orphan = desired_endpoint "istio-out" "external" identity service "10.0.0.4" west_controller

cleanup_orphaned_dns_endpoints-Spared_example :
    Spared mem_env
      (mem_at endpoint_kind)
      (mem-IsStore endpoint_kind)
      (own_config ∷ [])
      (orphan ∷ record_of ∷ [])
      (record_of ∷ [])
      (key_of orphan.meta)
unfolding cleanup_orphaned_dns_endpoints cleanup_namespaces cleanup_endpoints service_namespaces
    record_of orphan
cleanup_orphaned_dns_endpoints-Spared_example =
    cleanup_orphaned_dns_endpoints-Spared mem_env (mem_at endpoint_kind) (mem-IsStore endpoint_kind)
      (own_config ∷ []) (service ∷ []) (orphan ∷ record_of ∷ [])
      (mem_world (orphan ∷ record_of ∷ [])) (mem_world (record_of ∷ [])) (key_of orphan.meta) refl
      refl
