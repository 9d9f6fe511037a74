-- ===== src/IngressDns.antt =====
-- internal/controller/routing/ingressdns_controller.go
pub mod Configs
pub mod Records
pub mod Controllers
pub mod Cleanup
use service_router_operator.Base.{
  ◌*◌, String, List, [], ◌∷◌, Option, none, some, Bool, true, false, ◌&&◌, ◌||◌, not, ◌==◌, ◌≡◌,
  ◌↔◌, Comparable, if◌then◌else◌, contains, add, lookup, value_at, concat, string_eq, arith,
}
use service_router_operator.Api.{
  NamespacedName, key_of, ObjectMeta, ExternalDnsController, Gateway, Service, ServiceType,
  DnsEndpoint, Endpoint,
}
use service_router_operator.Client.{
  Env, Identity, DnsConfig, GatewayControllerConfig, M, ReconcileResult, ok, err, pure, fail,
  attempt, call, done, is_not_found, ◌>>=◌, ◌>>◌, everything,
}
use service_router_operator.Caches
unfoldable pub use Configs.{
  config_eq, config_Eq, config_of, is_deleting, active_configs, service_namespaces, labelled_config,
}

abbrev pub first_load_balancer : List Service → Option Service
first_load_balancer [] = none
first_load_balancer (svc ∷ svcs) = elim svc.type [
  | ServiceType.load_balancer ↦ some svc
  | _ ↦ first_load_balancer svcs
]

abbrev pub target_host : Identity → String → String
target_host identity target_postfix =
    concat
      (identity.cluster ∷ "-" ∷ identity.region ∷ "-" ∷ target_postfix ∷ "." ∷ identity.domain ∷ [])

-- The endpoint that one controller of ExternalDNS gets for a gateway's service.
unfoldable pub desired_endpoint :
    String → String → Identity → Service → String → ExternalDnsController → DnsEndpoint
desired_endpoint controller target_postfix identity svc ip ext_dns = record {
  meta = record {
    name =
        concat
          ("gateway-controller-" ∷ controller ∷ "-" ∷ target_postfix ∷ "-" ∷ ext_dns.name ∷ []);
    namespace = svc.meta.namespace;
    uid = "";
    generation = 0;
    deletion_timestamp = none;
    labels =
        ("router.io/istio-controller", controller)
        ∷ ("router.io/target-postfix", target_postfix)
        ∷ ("router.io/region", ext_dns.region)
        ∷ ("router.io/resource-type", "gateway-service")
        ∷ ("app.kubernetes.io/managed-by", "service-router-operator")
        ∷ [];
    annotations = [];
    owner_references =
        record {
          api_version = "v1";
          kind = "Service";
          name = svc.meta.name;
          uid = svc.meta.uid;
          controller = true;
        }
        ∷ [];
  };
  spec = record {
    endpoints =
        record {
          dns_name = target_host identity target_postfix;
          record_type = "A";
          targets = ip ∷ [];
          record_ttl = 300;
        }
        ∷ [];
  };
}

-- The first target, if it differs from the IP, or its absence.
abbrev pub targets_differ : String → List String → Bool
targets_differ ip [] = true
targets_differ ip (t ∷ _) = not (t == ip)

abbrev pub needs_update : String → String → List Endpoint → Bool
needs_update ip host [] = true
needs_update ip host (e ∷ _) = targets_differ ip e.targets || not (e.dns_name == host)

module _ {S : Type 0} (env : Env S) where
  unfoldable pub get_load_balancer_service : String → M S (Option Service)
  get_load_balancer_service controller = do
    services ← call (
        env.client.services.list
          (record everything { matching_labels = ("istio", controller) ∷ [] }))
    pure (first_load_balancer services)

  -- The body of the loop over the controllers: create or update one endpoint.
  unfoldable pub apply_endpoint : String → String → DnsEndpoint → M S (Unit {0})
  apply_endpoint ip host desired = do
    found ← attempt (call (env.client.dns_endpoints.get (key_of desired.meta)))
    elim found [
      | err e ↦ if is_not_found e then call (env.client.dns_endpoints.create desired) else fail e
      | ok existing ↦
          if needs_update ip host existing.spec.endpoints
          then call (
              env.client.dns_endpoints.patch existing (record {
                meta = record (existing.meta) { labels = desired.meta.labels };
                spec = desired.spec;
              }))
          else pure tt
    ]

  unfoldable pub apply_controllers :
      String → String → Identity → Service → String → List ExternalDnsController → M S (Unit {0})
  unfolding apply_endpoint desired_endpoint
  apply_controllers controller target_postfix identity svc ip [] = pure tt
  apply_controllers controller target_postfix identity svc ip (ext_dns ∷ rest) = do
    apply_endpoint ip (target_host identity target_postfix)
        (desired_endpoint controller target_postfix identity svc ip ext_dns)
    apply_controllers controller target_postfix identity svc ip rest

  unfoldable pub reconcile_dns_endpoints_for_config :
      String → String → Identity → DnsConfig → M S (Unit {0})
  unfolding get_load_balancer_service apply_controllers
  reconcile_dns_endpoints_for_config controller target_postfix identity config = do
    found ← get_load_balancer_service controller
    elim found [
      | none ↦ pure tt
      | some svc ↦ elim svc.ingress_ips [
        | [] ↦ pure tt
        | ip ∷ _ ↦
            if ip == ""
            then pure tt
            else apply_controllers controller target_postfix identity svc ip
                config.external_dns_controllers
      ]
    ]

  -- The loop over the endpoints of one namespace. The answer is false where the function has
  -- returned: after an endpoint that was gone already.
  unfoldable pub cleanup_endpoints : List GatewayControllerConfig → List DnsEndpoint → M S Bool
  cleanup_endpoints configs [] = pure true
  cleanup_endpoints configs (ep ∷ eps) =
      if contains (labelled_config ep) configs then cleanup_endpoints configs eps else do
        deleted ← attempt (call (env.client.dns_endpoints.delete ep))
        elim deleted [
          | ok _ ↦ cleanup_endpoints configs eps
          | err e ↦ if is_not_found e then pure false else fail e
        ]

  -- The loop over the namespaces.
  unfoldable pub cleanup_namespaces : List GatewayControllerConfig → List String → M S (Unit {0})
  unfolding cleanup_endpoints
  cleanup_namespaces configs [] = pure tt
  cleanup_namespaces configs (ns ∷ rest) = do
    listed ← attempt (
        call (
          env.client.dns_endpoints.list (record {
            in_namespace = some ns;
            matching_labels = ("router.io/resource-type", "gateway-service") ∷ [];
            has_labels = [];
          })))
    elim listed [
      | err _ ↦ cleanup_namespaces configs rest
      | ok items ↦ do
        go_on ← cleanup_endpoints configs items
        (if go_on then cleanup_namespaces configs rest else pure tt)
    ]

  unfoldable pub cleanup_orphaned_dns_endpoints : List GatewayControllerConfig → M S (Unit {0})
  unfolding cleanup_namespaces service_namespaces
  cleanup_orphaned_dns_endpoints configs = do
    services ← call (env.client.services.list (record everything { has_labels = "istio" ∷ [] }))
    cleanup_namespaces configs (env.range.service_namespaces (service_namespaces services []))

  -- The loop over the active configurations; an error is logged, and the loop goes on.
  unfoldable pub reconcile_configs :
      Identity → DnsConfig → List GatewayControllerConfig → M S (Unit {0})
  unfolding reconcile_dns_endpoints_for_config
  reconcile_configs identity config [] = pure tt
  reconcile_configs identity config (c ∷ cs) = do
    _ ← attempt (reconcile_dns_endpoints_for_config c.controller c.target_postfix identity config)
    reconcile_configs identity config cs

  -- `ctrl.Result{RequeueAfter: time.Minute}`
  abbrev in_a_minute : ReconcileResult
  in_a_minute = record done { requeue_after = 60 * 1_000_000_000 }

  unfoldable pub reconcile : M S ReconcileResult
  unfolding active_configs cleanup_orphaned_dns_endpoints reconcile_configs
  reconcile = do
    gateways ← call (env.client.gateways.list everything)
    let configs = active_configs gateways []
    _ ← attempt (cleanup_orphaned_dns_endpoints configs)
    identity ← Caches.Identity.fetch env
    elim identity [
      | none ↦ pure in_a_minute
      | some i ↦ do
        config ← Caches.DnsConfiguration.fetch env
        elim config [
          | none ↦ pure in_a_minute
          | some c ↦ do reconcile_configs i c (env.range.configs configs); pure done
        ]
    ]

unfoldable pub map_global_events_to_request : List NamespacedName
map_global_events_to_request = record { name = "global"; namespace = "" } ∷ []

unfoldable pub map_service_to_request : ObjectMeta → List NamespacedName
unfolding map_global_events_to_request
map_service_to_request obj = elim (lookup "istio" obj.labels) [
  | some _ ↦ map_global_events_to_request
  | none ↦ []
]
