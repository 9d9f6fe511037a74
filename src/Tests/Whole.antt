-- ===== src/Tests/Whole.antt =====
-- A whole reconciliation of a route on the server in memory
-- (internal/controller/routing/serviceroute_controller.go).
use service_router_operator.Base.{String, List, [], some, ◌≡◌, refl}
use service_router_operator.Api.{key_of, DnsEndpoint}
use service_router_operator.Client.{World, ok, done, endpoint_kind}
use service_router_operator.ServiceRoute.{reconcile, validate_service_route}
use service_router_operator.ServiceRoute.Endpoints.{
  generate_dns_endpoints, generate_loop, build_dns_endpoint, controller_map,
}
use service_router_operator.ServiceRoute.Endpoints.Convergence.{Converged}
use service_router_operator.ServiceRoute.Whole.{reconcile_succeeds}
use service_router_operator.Tests.Same.{stored_endpoint_Eq}
use service_router_operator.Tests.Memory.{mem_at}
use service_router_operator.Tests.Memory.Lawful.{mem-IsStore}
use service_router_operator.Tests.Routes.{before, route_endpoints}
use service_router_operator.Tests.Up.{mem-Answers, accepts_endpoint}
use service_router_operator.Tests.Fixture.{
  route, policy, gateway, identity, config, mem_env, in_order-IsMapOrder,
}

abbrev settled_world : World (List DnsEndpoint)
settled_world = record {
  server = before;
  identity_cache = some identity;
  config_cache = some config;
}

reconcile_succeeds_example :
    (w' : World (List DnsEndpoint)) × (reconcile mem_env (key_of route.meta) settled_world
      ≡ (ok done, w'))
    × ((n : String)
        → Converged mem_env
            (mem_at endpoint_kind)
            (mem-IsStore endpoint_kind)
            in_order-IsMapOrder
            route
            route_endpoints
            before
            w'.server
            (record { name = n; namespace = "team" }))
unfolding validate_service_route generate_dns_endpoints generate_loop build_dns_endpoint
    controller_map
reconcile_succeeds_example =
    reconcile_succeeds mem_env (mem_at endpoint_kind) (mem-IsStore endpoint_kind)
      (mem-Answers endpoint_kind accepts_endpoint) in_order-IsMapOrder (λ t s. refl) (λ t s k. refl)
      route policy gateway identity config route_endpoints refl "dns-weu" refl refl
      (key_of route.meta) settled_world [] before before before refl refl refl refl refl refl refl
      ((refl, (refl, λ old e. refl)), ((refl, (refl, λ old e. refl)), tt))
