-- ===== src/Setup/Events.antt =====
-- Which events ask the registered controllers for which requests (internal/controller/routing).
use service_router_operator.Base.{
  String, List, [], ◌∷◌, ◌++◌, none, some, Bool, true, false, not, ◌&&◌, ◌||◌, ◌≡◌, refl, subst,
  ◌==◌, nat_eq, string_eq, arith, contains, All, All-map, lookup, Option-cases, inl, inr,
  All-append, beq_refl, ◌∙◌,
}
use service_router_operator.Api.{
  NamespacedName, names_Eq, ObjectMeta, OwnerReference, GroupVersionKind, routing_kind, key_of,
  ServiceRoute, Service, DnsPolicy, Gateway, DnsEndpoint, ExternalDnsController,
}
use service_router_operator.Client.{Env, World, Identity, DnsConfig, ok, ok-inj}
use service_router_operator.Gateway.{map_service_route_to_gateway}
use service_router_operator.ServiceRoute.{gateway_key}
use service_router_operator.ServiceRoute.Endpoints.{
  generate_dns_endpoints, generate_loop, build_dns_endpoint, source_host, target_host,
  controller_map,
}
use service_router_operator.IngressDns.{map_global_events_to_request, map_service_to_request}
use service_router_operator.Setup.ControllerRuntime.{
  Runtime, IsRuntime, Controller, Sources, Event, updated, deleted, ObjectKind, ObjectOf, meta_of,
  service_route, service, dns_endpoint,
}
use service_router_operator.Setup.{gateway_setup, ingress_dns_setup, service_route_setup}
use service_router_operator.Setup.Controllers.{
  gateway_controller, ingress_dns_controller, service_route_controller,
}
use service_router_operator.Setup.Registered.{
  gateway_setup-Adds, ingress_dns_setup-Adds, service_route_setup-Adds,
}

abbrev pub has_istio_label : Service → Bool
has_istio_label s = elim (lookup "istio" s.meta.labels) [ none ↦ false | some _ ↦ true ]

map_service_to_request-contains :
    (s : Service) (req : NamespacedName)
    → contains req (map_service_to_request s.meta)
      ≡ (has_istio_label s && record { name = "global"; namespace = "" } == req)
unfolding map_global_events_to_request map_service_to_request
map_service_to_request-contains s req = elim (Option-cases (lookup "istio" s.meta.labels)) [
  | inl e ↦ rw (map_service_to_request, e) (ground arith)
  | inr (v, e) ↦ rw (map_service_to_request, e) (ground arith)
]

module _ {S P B : Type 0} (rt : Runtime S P B) {gathered : B → Sources S}
    {controllers : P → List (Controller S)} {checks : P → List String}
    {enqueues : Controller S → (k : ObjectKind) → Event k → World S → NamespacedName → Bool}
    (law : IsRuntime rt gathered controllers checks enqueues) (env : Env S) (p p' : P) where
  -- After the set-up of the gateways' controller, an update of a route asks for the gateway that the
  -- route named before and for the one that it names now, and for nothing else; an update that
  -- leaves the route's generation as it was asks for nothing.
  pub gateway_setup-route_updated :
      gateway_setup rt env p ≡ (ok tt, p')
      → (c : Controller S) × (controllers p' ≡ controllers p ++ c ∷ [])
        × ((old new : ServiceRoute) (w : World S) (req : NamespacedName)
            → enqueues c service_route (updated old new) w req ≡ (
                not (old.meta.generation == new.meta.generation)
                && (gateway_key env.default_router_gateway_namespace old == req
                    || gateway_key env.default_router_gateway_namespace new == req)))
  unfolding map_service_route_to_gateway
  gateway_setup-route_updated h = (
    gateway_controller rt env,
    (gateway_setup-Adds rt law env p p' h).0,
    λ old new w req.
        law.enqueued (gateway_controller rt env) service_route (updated old new) w req
        ∙ rw (law.generation_updated service_route old new) (ground arith),
  )

  -- After the set-up of the gateways' controller, no update of an object of any kind that leaves the
  -- object's generation as it was asks for a gateway: neither the update of a service whose load
  -- balancer gets its IP.
  pub gateway_setup-unchanged_generation :
      gateway_setup rt env p ≡ (ok tt, p')
      → (c : Controller S) × (controllers p' ≡ controllers p ++ c ∷ [])
        × ((k : ObjectKind) (old new : ObjectOf k) (w : World S) (req : NamespacedName)
            → (enqueues c k (updated old new) w req
                && (meta_of k old).generation == (meta_of k new).generation)
              ≡ false)
  gateway_setup-unchanged_generation h = (
    gateway_controller rt env,
    (gateway_setup-Adds rt law env p p' h).0,
    λ k old new w req.
        rw
          (
            law.enqueued (gateway_controller rt env) k (updated old new) w req,
            law.generation_updated k old new,
          )
          (ground arith),
  )

  -- After the set-up of the load balancers' controller, an update of a service asks for its one request
  -- if the service has or had an `istio` label, whether or not the generation changes, and for no
  -- other.
  pub ingress_dns_setup-service_change :
      ingress_dns_setup rt env p ≡ (ok tt, p')
      → (c : Controller S) × (controllers p' ≡ controllers p ++ c ∷ [])
        × ((old new : Service) (w : World S) (req : NamespacedName)
            → enqueues c service (updated old new) w req ≡ (
                (has_istio_label old || has_istio_label new)
                && record { name = "global"; namespace = "" } == req))
  ingress_dns_setup-service_change h = (
    ingress_dns_controller env,
    (ingress_dns_setup-Adds rt law env p p' h).0,
    λ old new w req.
        law.enqueued (ingress_dns_controller env) service (updated old new) w req
        ∙ ground (
          arith,
          map_service_to_request-contains old req,
          map_service_to_request-contains new req,
        ),
  )

-- The reference that controller-runtime makes to a route: it names the route, and is a controller's.
pub record IsRouteRef {S P B : Type 0} (rt : Runtime S P B)
    (new_controller_ref : ObjectMeta → GroupVersionKind → OwnerReference) : Type 0 where
  pub refers :
      (m : ObjectMeta)
      → rt.refers_to service_route (new_controller_ref m (routing_kind "ServiceRoute")) ≡ true
  pub named : (m : ObjectMeta) (g : GroupVersionKind) → (new_controller_ref m g).name ≡ m.name
  pub controls :
      (m : ObjectMeta) (g : GroupVersionKind) → (new_controller_ref m g).controller ≡ true

module _ (new_ref : ObjectMeta → GroupVersionKind → OwnerReference) (route : ServiceRoute) where
  -- The endpoint stands in the route's namespace, and the route is its owner.
  abbrev Owned : DnsEndpoint → Type 0
  Owned e =
      (e.meta.namespace ≡ route.meta.namespace)
      × (e.meta.owner_references ≡ new_ref route.meta (routing_kind "ServiceRoute") ∷ [])

  build-Owned :
      (c : ExternalDnsController) (source target : String)
      → Owned (build_dns_endpoint new_ref route c route.meta.namespace source target)
  unfolding build_dns_endpoint
  build-Owned c source target = (refl, rw (beq_refl route.meta.namespace) refl)

  loop-Owned :
      (source target : String) (cs : List (String × ExternalDnsController)) (names : List String)
      (es : List DnsEndpoint)
      → All Owned es
      → All Owned (generate_loop new_ref route source target cs names es)
  unfolding generate_loop
  loop-Owned source target cs [] es a = a
  loop-Owned source target cs (name ∷ names) es a = elim (Option-cases (lookup name cs)) [
    | inl e ↦ rw (generate_loop, e) (loop-Owned source target cs names es a)
    | inr (c, e) ↦
        rw (generate_loop, e)
          (loop-Owned source target cs names _
            (All-append Owned es _ a (build-Owned c source target, tt)))
  ]

  generate-Owned :
      (policy : DnsPolicy) (gateway : Gateway) (identity : Identity) (config : DnsConfig)
      (es : List DnsEndpoint)
      → generate_dns_endpoints new_ref route policy gateway identity config ≡ ok es
      → All Owned es
  unfolding generate_dns_endpoints
  generate-Owned policy gateway identity config es h = go policy.status.active_controllers refl
    where
      go : (names : List String) → policy.status.active_controllers ≡ names → All Owned es
      go [] e = cc (rw (generate_dns_endpoints, e) at h)
      go (n ∷ ns) e = subst (All Owned) (ok-inj (rw (generate_dns_endpoints, e) at h)) (
          loop-Owned (source_host identity route) (target_host identity gateway)
            (controller_map config.external_dns_controllers []) (n ∷ ns) [] tt)

module _ {S P B : Type 0} (rt : Runtime S P B) {gathered : B → Sources S}
    {controllers : P → List (Controller S)} {checks : P → List String}
    {enqueues : Controller S → (k : ObjectKind) → Event k → World S → NamespacedName → Bool}
    (law : IsRuntime rt gathered controllers checks enqueues) (env : Env S)
    (ref : IsRouteRef rt env.new_controller_ref) (route : ServiceRoute) where
  Owned-enqueued :
      (w : World S) (e : DnsEndpoint)
      → Owned env.new_controller_ref route e
      → enqueues (service_route_controller env) dns_endpoint (deleted e) w (key_of route.meta)
        ≡ true
  Owned-enqueued w e (place, owner) =
      law.enqueued (service_route_controller env) dns_endpoint (deleted e) w (key_of route.meta)
      ∙ rw (owner, place)
          (ground (
            arith,
            ref.refers route.meta,
            ref.named route.meta (routing_kind "ServiceRoute"),
            ref.controls route.meta (routing_kind "ServiceRoute"),
            beq_refl (key_of route.meta).name,
            beq_refl (key_of route.meta).namespace,
          ))

  -- After the set-up of the routes' controller, the deletion of an endpoint that was generated for a route
  -- asks for that route.
  pub service_route_setup-endpoint_deleted :
      (p p' : P) (policy : DnsPolicy) (gateway : Gateway) (identity : Identity) (config : DnsConfig)
      (es : List DnsEndpoint)
      → service_route_setup rt env p ≡ (ok tt, p')
      → generate_dns_endpoints env.new_controller_ref route policy gateway identity config ≡ ok es
      → (c : Controller S) × (controllers p' ≡ controllers p ++ c ∷ [])
        × ((w : World S)
            → All (λ e. enqueues c dns_endpoint (deleted e) w (key_of route.meta) ≡ true) es)
  service_route_setup-endpoint_deleted p p' policy gateway identity config es h generated = (
    service_route_controller env,
    (service_route_setup-Adds rt law env p p' h).0,
    λ w.
        All-map (Owned-enqueued w) es
          (generate-Owned env.new_controller_ref route policy gateway identity config es generated),
  )
