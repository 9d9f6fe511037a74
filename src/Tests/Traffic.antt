-- ===== src/Tests/Traffic.antt =====
-- How the parts agree, at concrete inputs (internal/controller/routing).
use service_router_operator.Base.{
  String, List, [], ◌∷◌, true, some, any, contains, All, ◌&&◌, ◌==◌, string_eq, ◌≡◌, ◌↔◌, refl,
}
use service_router_operator.Api.{NamespacedName, names_Eq, key_of, DnsEndpoint}
use service_router_operator.Client.{ok}
use service_router_operator.Gateway.{collect_hosts, uses_gateway, map_service_route_to_gateway}
use service_router_operator.ServiceRoute.{gateway_key, map_gateway_to_service_routes}
use service_router_operator.ServiceRoute.Endpoints.{generate_dns_endpoints}
use service_router_operator.IngressDns.{desired_endpoint}
use service_router_operator.Traffic.Records.{LeadsTo, generate_dns_endpoints-LeadsTo}
use service_router_operator.Traffic.Watches.{
  map_service_route_to_gateway_iff, map_gateway_to_service_routes-contains,
}
use service_router_operator.Tests.Fixture.{
  mem_env, mem_world, gateway, identity, config, policy, route, other_route, service,
  west_controller, in_order-IsMapOrder, controller_ref,
}

generate_dns_endpoints-LeadsTo_example :
    (hosts : List String) × (es : List DnsEndpoint) × (collect_hosts mem_env gateway
        (some identity)
        (mem_world [])
      ≡ (ok hosts, mem_world []))
    × (generate_dns_endpoints controller_ref route policy gateway identity config ≡ ok es)
    × All
        (LeadsTo hosts "10.0.0.4"
          (desired_endpoint "istio-in" "external" identity service "10.0.0.4" west_controller))
        es
generate_dns_endpoints-LeadsTo_example =
    generate_dns_endpoints-LeadsTo mem_env gateway identity config policy route []
      (other_route ∷ []) service "10.0.0.4" west_controller (mem_world []) [] in_order-IsMapOrder
      refl refl (λ e. cc)

map_service_route_to_gateway_iff_example :
    ((map_service_route_to_gateway mem_env route ≡ key_of gateway.meta ∷ [])
      ↔ (uses_gateway "istio-system" gateway route ≡ true))
    × ((map_service_route_to_gateway mem_env route ≡ key_of gateway.meta ∷ [])
        ↔ (gateway_key "istio-system" route ≡ key_of gateway.meta))
map_service_route_to_gateway_iff_example = map_service_route_to_gateway_iff mem_env route gateway

map_gateway_to_service_routes-contains_example :
    (ks : List NamespacedName) × (map_gateway_to_service_routes mem_env gateway (mem_world [])
      ≡ (ok ks, mem_world []))
    × ((k : NamespacedName)
        → contains k ks
          ≡ any
              (λ r. uses_gateway "istio-system" gateway r && key_of r.meta == k)
              (route ∷ other_route ∷ []))
map_gateway_to_service_routes-contains_example =
    map_gateway_to_service_routes-contains mem_env gateway (mem_world []) []
      (route ∷ other_route ∷ []) refl

one_route_is_reconciled :
    map_gateway_to_service_routes mem_env gateway (mem_world [])
    ≡ (ok (key_of route.meta ∷ []), mem_world [])
unfolding map_gateway_to_service_routes
one_route_is_reconciled = refl
