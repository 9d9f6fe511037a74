-- ===== src/Tests/Routes.antt =====
-- The endpoints of a route on the server in memory (internal/controller/routing/serviceroute_controller.go).
use service_router_operator.Base.{
  map, select, length, ◌≤◌, ◌&&◌, false, any, contains, All, String, List, [], ◌∷◌, none, string_eq,
  ◌≡◌, refl, ◌==◌,
}
use service_router_operator.Api.{DnsPolicy, NamespacedName, DnsEndpoint, key_of}
use service_router_operator.Client.{done, endpoint_kind, ok, World, without_selected}
use service_router_operator.ServiceRoute.{
  apply, with_policy, active_status, pending_status, update_status_active, update_status_pending,
}
use service_router_operator.ServiceRoute.Outcome.{apply-Converged, with_policy_inactive-at}
use service_router_operator.ServiceRoute.Endpoints.{
  generate_loop, build_dns_endpoint, controller_map, generate_dns_endpoints, route_selector,
  delete_loop, delete_dns_endpoints_for_service_route, endpoint_map, namespace_set, deep_equal,
  list_existing, create_or_update, create_or_update_loop, delete_stale_loop,
  reconcile_dns_endpoints,
}
use service_router_operator.ServiceRoute.Endpoints.Removal.{
  delete_dns_endpoints_for_service_route-at,
}
use service_router_operator.ServiceRoute.Endpoints.Convergence.{
  Converged, reconcile_dns_endpoints-Converged,
}
use service_router_operator.ServiceRoute.Endpoints.Again.{reconcile_dns_endpoints_again}
use service_router_operator.ServiceRoute.Endpoints.Write.{spec_of}
use service_router_operator.ServiceRoute.Endpoints.Names.{
  names_of, is_configured, generate_dns_endpoints-names,
}
use service_router_operator.ServiceRoute.Endpoints.Generation.{
  Generated, endpoint_name, generate_dns_endpoints_lem,
}
use service_router_operator.Tests.Same.{stored_endpoint_Eq}
use service_router_operator.Tests.Memory.{mem_at}
use service_router_operator.Tests.Memory.Lawful.{mem-IsStore}
use service_router_operator.Tests.Fixture.{
  west_controller, north_controller, controller_ref, policy, gateway, identity, config, route,
  mem_env, mem_world, in_order-IsMapOrder, meta_of,
}

-- An endpoint of the route, for the controller and the target.
abbrev pub endpoint : String → String → DnsEndpoint
endpoint name target = record {
  meta = record (meta_of name "team") {
    labels =
        ("app.kubernetes.io/managed-by", "service-router-operator")
        ∷ ("router.io/serviceroute", "orders")
        ∷ ("router.io/source-namespace", "team")
        ∷ [];
  };
  spec = record {
    endpoints =
        record { dns_name = "orders"; record_type = "CNAME"; targets = target ∷ []; record_ttl = 0 }
        ∷ [];
  };
}

abbrev foreign : DnsEndpoint
foreign = record (endpoint "foreign" "x") { meta = meta_of "foreign" "team" }

abbrev key : String → NamespacedName
key name = record { name = name; namespace = "team" }

-- One stale endpoint, one with an old target, and one of somebody else.
abbrev pub before : List DnsEndpoint
before = endpoint "stale" "x" ∷ endpoint "west" "old" ∷ foreign ∷ []

abbrev pub wanted : List DnsEndpoint
wanted = endpoint "west" "new" ∷ endpoint "north" "new" ∷ []

abbrev after : World (List DnsEndpoint)
unfolding reconcile_dns_endpoints list_existing create_or_update_loop create_or_update
    delete_stale_loop endpoint_map namespace_set deep_equal
after = (reconcile_dns_endpoints mem_env route wanted (mem_world before)).1

succeeds : reconcile_dns_endpoints mem_env route wanted (mem_world before) ≡ (ok tt, after)
unfolding reconcile_dns_endpoints list_existing create_or_update_loop create_or_update
    delete_stale_loop endpoint_map namespace_set deep_equal
succeeds = refl

reconcile_dns_endpoints-Converged_example :
    Converged mem_env
      (mem_at endpoint_kind)
      (mem-IsStore endpoint_kind)
      in_order-IsMapOrder
      route
      wanted
      before
      after.server
      (key "stale")
reconcile_dns_endpoints-Converged_example =
    reconcile_dns_endpoints-Converged mem_env (mem_at endpoint_kind) (mem-IsStore endpoint_kind)
      in_order-IsMapOrder route (endpoint "west" "new") (endpoint "north" "new" ∷ [])
      (mem_world before) after (key "stale") (refl, (refl, tt)) succeeds refl

again : reconcile_dns_endpoints mem_env route wanted after ≡ (ok tt, after)
unfolding reconcile_dns_endpoints list_existing create_or_update_loop create_or_update
    delete_stale_loop endpoint_map namespace_set deep_equal
again = refl

reconcile_dns_endpoints_again_example :
    spec_of ((mem_at endpoint_kind) after.server (key "west"))
    ≡ spec_of ((mem_at endpoint_kind) after.server (key "west"))
reconcile_dns_endpoints_again_example =
    reconcile_dns_endpoints_again mem_env (mem_at endpoint_kind) (mem-IsStore endpoint_kind)
      in_order-IsMapOrder route (endpoint "west" "new") (endpoint "north" "new" ∷ [])
      (mem_world before) after after (key "west") (refl, (refl, tt)) succeeds again refl

stale_is_gone : (mem_at endpoint_kind) after.server (key "stale") ≡ none
unfolding after
stale_is_gone = refl

abbrev removed : World (List DnsEndpoint)
removed = mem_world (foreign ∷ [])

delete_dns_endpoints_for_service_route-at_example :
    (mem_at endpoint_kind) removed.server (key "west")
    ≡ without_selected
        (route_selector "team" (key_of route.meta))
        (key "west")
        ((mem_at endpoint_kind) before (key "west"))
unfolding delete_dns_endpoints_for_service_route delete_loop
delete_dns_endpoints_for_service_route-at_example =
    delete_dns_endpoints_for_service_route-at mem_env (mem_at endpoint_kind)
      (mem-IsStore endpoint_kind) (key_of route.meta) (mem_world before) removed (key "west") refl

generate_dns_endpoints_lem_example :
    (es : List DnsEndpoint) × (generate_dns_endpoints controller_ref route policy gateway identity
        config
      ≡ ok es)
    × All (Generated route gateway identity config ("dns-weu" ∷ "dns-neu" ∷ [])) es
    × ((n : String)
        → any (λ e. e.meta.name == endpoint_name route n) es ≡ (
            contains n ("dns-weu" ∷ "dns-neu" ∷ [])
            && any (λ c. c.name == n) (west_controller ∷ north_controller ∷ [])))
generate_dns_endpoints_lem_example =
    generate_dns_endpoints_lem controller_ref route gateway identity config policy (λ e. cc)

-- The whole of a reconciliation's last part, on the same server.
abbrev applied : World (List DnsEndpoint)
unfolding apply update_status_active active_status generate_dns_endpoints generate_loop
    build_dns_endpoint controller_map reconcile_dns_endpoints list_existing create_or_update_loop
    create_or_update delete_stale_loop endpoint_map namespace_set deep_equal
applied = (apply mem_env route policy gateway identity config (mem_world before)).1

applies : apply mem_env route policy gateway identity config (mem_world before) ≡ (ok done, applied)
unfolding apply update_status_active active_status generate_dns_endpoints generate_loop
    build_dns_endpoint controller_map reconcile_dns_endpoints list_existing create_or_update_loop
    create_or_update delete_stale_loop endpoint_map namespace_set deep_equal
applies = refl

apply-Converged_example :
    (es : List DnsEndpoint) × (generate_dns_endpoints controller_ref route policy gateway identity
        config
      ≡ ok es)
    × Converged mem_env
        (mem_at endpoint_kind)
        (mem-IsStore endpoint_kind)
        in_order-IsMapOrder
        route
        es
        before
        applied.server
        (key "stale")
apply-Converged_example =
    apply-Converged mem_env (mem_at endpoint_kind) (mem-IsStore endpoint_kind) in_order-IsMapOrder
      (λ t s k. refl) route policy gateway identity config "dns-weu" (mem_world before) applied done
      (key "stale") refl refl applies refl

-- A policy of another region.
abbrev elsewhere : DnsPolicy
elsewhere = record policy {
  status = record (policy.status) { active = false; active_controllers = [] };
}

with_policy_inactive-at_example :
    mem_at endpoint_kind removed.server (key "west")
    ≡ without_selected
        (route_selector "team" (key_of route.meta))
        (key "west")
        (mem_at endpoint_kind before (key "west"))
unfolding with_policy update_status_pending pending_status delete_dns_endpoints_for_service_route
    delete_loop
with_policy_inactive-at_example =
    with_policy_inactive-at mem_env (mem_at endpoint_kind) (mem-IsStore endpoint_kind)
      in_order-IsMapOrder (λ t s k. refl) route elsewhere (mem_world before) removed done
      (key "west") refl refl

abbrev pub route_endpoints : List DnsEndpoint
unfolding build_dns_endpoint
route_endpoints =
    build_dns_endpoint controller_ref route (record { name = "dns-weu"; region = "weu" }) "team"
      "orders-ns-d-dev-shop.example.com" "aks01-weu-external.example.com"
    ∷ build_dns_endpoint controller_ref route (record { name = "dns-neu"; region = "neu" }) "team"
        "orders-ns-d-dev-shop.example.com" "aks01-weu-external.example.com"
    ∷ []

generate_dns_endpoints-names_example :
    (names_of route_endpoints
      ≡ map (endpoint_name route) (select (is_configured config) ("dns-weu" ∷ "dns-neu" ∷ [])))
    × (length route_endpoints ≤ 2)
unfolding generate_dns_endpoints generate_loop build_dns_endpoint controller_map
generate_dns_endpoints-names_example =
    generate_dns_endpoints-names controller_ref route config policy gateway identity route_endpoints
      refl
