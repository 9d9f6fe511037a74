-- ===== src/Traffic/Watches.antt =====
-- The handlers of the watches between routes and gateways
-- (internal/controller/routing/serviceroute_controller.go and gateway_controller.go).
use service_router_operator.Base.{
  String, List, [], ◌∷◌, true, ◌&&◌, ◌≡◌, ◌↔◌, refl, sym, ap, ◌∙◌, arith, any, contains, ◌==◌,
  string_eq,
}
use service_router_operator.Api.{NamespacedName, names_Eq, key_of, ServiceRoute, Gateway}
use service_router_operator.Client.{Env, World, ok, everything}
use service_router_operator.Gateway.{uses_gateway, map_service_route_to_gateway}
use service_router_operator.ServiceRoute.{
  gateway_key, references, requests_referencing, map_gateway_to_service_routes,
}

references-uses_gateway :
    (default : String) (gateway : Gateway) (route : ServiceRoute)
    → references default gateway route ≡ uses_gateway default gateway route
references-uses_gateway default gateway route = ground arith

uses_gateway_key :
    (default : String) (gateway : Gateway) (route : ServiceRoute)
    → uses_gateway default gateway route ≡ (gateway_key default route == key_of gateway.meta)
uses_gateway_key default gateway route = ground arith

requests_referencing-contains :
    (default : String) (gateway : Gateway) (k : NamespacedName) (routes : List ServiceRoute)
    → contains k (requests_referencing default gateway routes)
      ≡ any (λ r. uses_gateway default gateway r && key_of r.meta == k) routes
requests_referencing-contains default gateway k [] = refl
requests_referencing-contains default gateway k (r ∷ rs) = ground (
  arith,
  requests_referencing-contains default gateway k rs,
  references-uses_gateway default gateway r,
)

module _ {S : Type 0} (env : Env S) where
  -- A change of a route asks for the reconciliation of a gateway exactly if that gateway collects the
  -- route's host, and then for no other; and this is the gateway that the route's endpoints lead to.
  pub map_service_route_to_gateway_iff :
      (route : ServiceRoute) (gateway : Gateway)
      → ((map_service_route_to_gateway env route ≡ key_of gateway.meta ∷ [])
          ↔ (uses_gateway env.default_router_gateway_namespace gateway route ≡ true))
        × ((map_service_route_to_gateway env route ≡ key_of gateway.meta ∷ [])
            ↔ (gateway_key env.default_router_gateway_namespace route ≡ key_of gateway.meta))
  unfolding map_service_route_to_gateway
  map_service_route_to_gateway_iff route gateway =
      let default = env.default_router_gateway_namespace in
      let key = gateway_key default route in
      let same = names_Eq.test_iff key (key_of gateway.meta) in
      let alone : (map_service_route_to_gateway env route ≡ key_of gateway.meta ∷ [])
          ↔ (key ≡ key_of gateway.meta) =
        (λ (h : key ∷ [] ≡ key_of gateway.meta ∷ []). cc, λ e. ap (λ k. k ∷ []) e) in
      (
        (
          (λ h. uses_gateway_key default gateway route ∙ same.1 (alone.0 h)),
          λ u. alone.1 (same.0 (sym (uses_gateway_key default gateway route) ∙ u)),
        ),
        alone,
      )

  -- If the routes can be listed, a change of a gateway asks for the reconciliation of exactly the
  -- listed routes whose hosts the gateway collects.
  pub map_gateway_to_service_routes-contains :
      (gateway : Gateway) (w : World S) (s : S) (routes : List ServiceRoute)
      → env.client.service_routes.list everything w.server ≡ (ok routes, s)
      → (ks : List NamespacedName) × (map_gateway_to_service_routes env gateway w
          ≡ (ok ks, record w { server = s }))
        × ((k : NamespacedName)
            → contains k ks
              ≡ any
                  (λ r.
                    uses_gateway env.default_router_gateway_namespace gateway r
                    && key_of r.meta == k)
                  routes)
  unfolding map_gateway_to_service_routes
  map_gateway_to_service_routes-contains gateway w s routes listed = (
    requests_referencing env.default_router_gateway_namespace gateway routes,
    rw (listed, map_gateway_to_service_routes) refl,
    λ k. requests_referencing-contains env.default_router_gateway_namespace gateway k routes,
  )
