-- ===== src/Tests/Runtime.antt =====
-- A library of controllers that never fails, and what the set-up leaves with it.
use service_router_operator.Base.{
  String, List, [], ◌∷◌, ◌++◌, none, some, Bool, true, false, not, ◌&&◌, ◌||◌, ◌≡◌, refl, sym, ap,
  ◌==◌, string_eq, nat_eq, All,
}
use service_router_operator.Api.{
  NamespacedName, names_Eq, OwnerReference, DnsEndpoint, ServiceRoute, Service, key_of,
}
use service_router_operator.Client.{World, ok}
use service_router_operator.Setup.ControllerRuntime.{
  Runtime, IsRuntime, Controller, Sources, Event, created, updated, deleted, ObjectKind, ObjectOf,
  meta_of, asks, service_route, service, dns_endpoint,
}
use service_router_operator.Setup.{
  cluster_identity_setup, dns_policy_setup, dns_configuration_setup, gateway_setup,
  ingress_dns_setup, service_route_setup,
}
use service_router_operator.Setup.Events.{
  gateway_setup-route_updated, gateway_setup-unchanged_generation, ingress_dns_setup-service_change,
  service_route_setup-endpoint_deleted, IsRouteRef, has_istio_label,
}
use service_router_operator.Main.{CommandLine, given, Setting, returned, program}
use service_router_operator.ServiceRoute.{gateway_key}
use service_router_operator.ServiceRoute.Endpoints.{
  generate_dns_endpoints, generate_loop, build_dns_endpoint, controller_map,
}
use service_router_operator.Tests.Routes.{route_endpoints}
use service_router_operator.Tests.Fixture.{
  mem_env, mem_client, controller_ref, route, policy, gateway, identity, config,
}

abbrev pub S : Type 0
S = List DnsEndpoint

pub record Process : Type 0 where
  pub controllers : List (Controller S)
  pub checks : List String

abbrev fresh : Process
fresh = record { controllers = []; checks = [] }

abbrev generation_changed : (k : ObjectKind) → Event k → Bool
generation_changed k (created o) = true
generation_changed k (updated old new) =
    not ((meta_of k old).generation == (meta_of k new).generation)
generation_changed k (deleted o) = true

abbrev is_route_ref : ObjectKind → OwnerReference → Bool
is_route_ref service_route r = r.kind == "ServiceRoute"
is_route_ref _ r = false

abbrev pub rt : Runtime S Process (Sources S)
rt = record {
  add_to_scheme = λ g p. (ok tt, p);
  get_config = λ p. (ok tt, p);
  new_manager = λ o p. (ok tt, fresh);
  get_client = λ p. mem_client;
  new_controller_managed_by = λ p. record { for = none; owned = []; watched = []; filters = [] };
  for = λ k b. record b { for = some k };
  named = λ n b. b;
  owns = λ k b. record b { owned = b.owned ++ k ∷ [] };
  watches = λ k f b. record b { watched = b.watched ++ record { kind = k; requests = f } ∷ [] };
  with_event_filter = λ f b. record b { filters = b.filters ++ f ∷ [] };
  complete = λ r b p. (
    ok tt,
    record p { controllers = p.controllers ++ record { sources = b; reconcile = r } ∷ [] },
  );
  generation_changed = generation_changed;
  refers_to = is_route_ref;
  add_healthz_check = λ n p. (ok tt, record p { checks = p.checks ++ n ∷ [] });
  add_readyz_check = λ n p. (ok tt, record p { checks = p.checks ++ n ∷ [] });
  start = λ p. (ok tt, p);
}

abbrev enqueues : Controller S → (k : ObjectKind) → Event k → World S → NamespacedName → Bool
enqueues c k e w req = asks rt k e c.sources w req

rt-IsRuntime : IsRuntime rt (λ b. b) (λ p. p.controllers) (λ p. p.checks) enqueues
rt-IsRuntime = record {
  of_new = λ p. refl;
  of_for = λ k b. refl;
  of_named = λ n b. refl;
  of_owns = λ k b. refl;
  of_watches = λ k f b. refl;
  of_event_filter = λ f b. refl;
  complete_ok = λ r b p p' h. ap (λ q. q.1.controllers) (sym h);
  complete_checks = λ r b p. refl;
  complete_client = λ r b p. refl;
  add_to_scheme_same = λ g p. (refl, refl, refl);
  new_manager_ok = λ o p p' h. (ap (λ q. q.1.controllers) (sym h), ap (λ q. q.1.checks) (sym h));
  healthz_ok = λ n p p' h. (ap (λ q. q.1.controllers) (sym h), ap (λ q. q.1.checks) (sym h), refl);
  readyz_ok = λ n p p' h. (ap (λ q. q.1.controllers) (sym h), ap (λ q. q.1.checks) (sym h), refl);
  generation_created = λ k o. refl;
  generation_deleted = λ k o. refl;
  generation_updated = λ k old new. refl;
  enqueued = λ c k e w req. refl;
}

rt-IsRouteRef : IsRouteRef rt controller_ref
rt-IsRouteRef = record { refers = λ m. refl; named = λ m g. refl; controls = λ m g. refl }

abbrev after_gateway : Process
unfolding gateway_setup
after_gateway = (gateway_setup rt mem_env fresh).1

gateway_setup-route_updated_example :
    (c : Controller S) × (after_gateway.controllers ≡ [] ++ c ∷ [])
    × ((old new : ServiceRoute) (w : World S) (req : NamespacedName)
        → enqueues c service_route (updated old new) w req ≡ (
            not (old.meta.generation == new.meta.generation)
            && (gateway_key "istio-system" old == req || gateway_key "istio-system" new == req)))
unfolding gateway_setup
gateway_setup-route_updated_example =
    gateway_setup-route_updated rt rt-IsRuntime mem_env fresh after_gateway refl

gateway_setup-unchanged_generation_example :
    (c : Controller S) × (after_gateway.controllers ≡ [] ++ c ∷ [])
    × ((k : ObjectKind) (old new : ObjectOf k) (w : World S) (req : NamespacedName)
        → (enqueues c k (updated old new) w req
            && (meta_of k old).generation == (meta_of k new).generation)
          ≡ false)
unfolding gateway_setup
gateway_setup-unchanged_generation_example =
    gateway_setup-unchanged_generation rt rt-IsRuntime mem_env fresh after_gateway refl

abbrev after_ingress : Process
unfolding ingress_dns_setup
after_ingress = (ingress_dns_setup rt mem_env fresh).1

ingress_dns_setup-service_change_example :
    (c : Controller S) × (after_ingress.controllers ≡ [] ++ c ∷ [])
    × ((old new : Service) (w : World S) (req : NamespacedName)
        → enqueues c service (updated old new) w req ≡ (
            (has_istio_label old || has_istio_label new)
            && record { name = "global"; namespace = "" } == req))
unfolding ingress_dns_setup
ingress_dns_setup-service_change_example =
    ingress_dns_setup-service_change rt rt-IsRuntime mem_env fresh after_ingress refl

abbrev after_routes : Process
unfolding service_route_setup
after_routes = (service_route_setup rt mem_env fresh).1

service_route_setup-endpoint_deleted_example :
    (c : Controller S) × (after_routes.controllers ≡ [] ++ c ∷ [])
    × ((w : World S)
        → All
            (λ e. enqueues c dns_endpoint (deleted e) w (key_of route.meta) ≡ true)
            route_endpoints)
unfolding service_route_setup generate_dns_endpoints generate_loop build_dns_endpoint controller_map
service_route_setup-endpoint_deleted_example =
    service_route_setup-endpoint_deleted rt rt-IsRuntime mem_env rt-IsRouteRef route fresh
      after_routes policy gateway identity config route_endpoints refl refl

abbrev line : CommandLine
line = given (Setting.default_router_gateway_namespace "gateways" ∷ [])

-- The run returns.
line_returns : (program rt mem_env line fresh).0 ≡ returned
unfolding program cluster_identity_setup dns_policy_setup service_route_setup gateway_setup
    ingress_dns_setup dns_configuration_setup
line_returns = refl
