-- ===== src/Gateway/Istio.antt =====
-- internal/controller/routing/gateway_controller.go: the Istio Gateway of a Gateway, from its
-- generation to its creation, update and removal on the server.
pub mod Update
pub mod Applied
pub mod Steady
use service_router_operator.Base.{
  ℕ, ◌*◌, String, List, [], ◌∷◌, ◌++◌, Option, none, some, map, Bool, true, false, not, ◌&&◌, ◌||◌,
  ◌==◌, if◌then◌else◌, length, contains, add, lookup, value_at, concat, string_eq, nat_eq,
}
use service_router_operator.Api.{
  NamespacedName, key_of, Condition, ConditionStatus, condition_true, condition_false, ServiceRoute,
  Service, ServiceType, IstioGateway, IstioGatewaySpec, ServerTlsSettings, TlsMode, simple,
  routing_kind, phase_active, phase_failed, phase_pending, condition_type_ready,
  condition_type_dns_ready, reason_reconciliation_succeeded, reason_validation_failed,
  reason_cluster_identity_not_available, reason_no_service_routes,
  reason_istio_gateway_generation_failed, reason_dns_endpoints_created,
  reason_load_balancer_ip_pending, reason_dns_not_ready,
}
use service_router_operator.Api
use service_router_operator.Client.{
  Env, Identity, M, ReconcileResult, ListOptions, Result, ok, err, pure, fail, attempt, call,
  finish, done, is_not_found, ◌>>=◌, ◌>>◌, everything,
}
use service_router_operator.Caches

-- A loop over `desired` that finds a key whose value differs in `existing`.
unfoldable pub values_differ : List (String × String) → List (String × String) → Bool
values_differ existing [] = false
values_differ existing ((k, v) ∷ desired) =
    not (value_at k existing == v) || values_differ existing desired

unfoldable pub host_set : List String → List String → List String
host_set [] hosts = hosts
host_set (h ∷ hs) hosts = host_set hs (add h hosts)

unfoldable pub hosts_missing : List String → List String → Bool
hosts_missing existing [] = false
hosts_missing existing (h ∷ hs) = not (contains h existing) || hosts_missing existing hs

abbrev pub tls_mode_eq : TlsMode → TlsMode → Bool
tls_mode_eq TlsMode.passthrough TlsMode.passthrough = true
tls_mode_eq TlsMode.simple TlsMode.simple = true
tls_mode_eq TlsMode.mutual_tls TlsMode.mutual_tls = true
tls_mode_eq TlsMode.auto_passthrough TlsMode.auto_passthrough = true
tls_mode_eq TlsMode.istio_mutual TlsMode.istio_mutual = true
tls_mode_eq _ _ = false

abbrev pub tls_differs : Option ServerTlsSettings → Option ServerTlsSettings → Bool
tls_differs (some a) (some b) =
    not (a.credential_name == b.credential_name) || not (tls_mode_eq a.mode b.mode)
tls_differs _ _ = false

-- The comparison of the first servers of the two lists.
unfoldable pub servers_differ : List Api.Server → List Api.Server → Bool
unfolding host_set hosts_missing
servers_differ (a ∷ _) (b ∷ _) =
    not (length a.hosts == length b.hosts)
    || (hosts_missing (host_set a.hosts []) b.hosts || tls_differs a.tls b.tls)
servers_differ _ _ = false

unfoldable pub istio_gateway_needs_update : IstioGateway → IstioGateway → Bool
istio_gateway_needs_update existing desired =
    not (length existing.spec.selector == length desired.spec.selector)
    || (values_differ existing.spec.selector desired.spec.selector
        || (not (length existing.spec.servers == length desired.spec.servers)
            || (servers_differ existing.spec.servers desired.spec.servers
                || values_differ existing.meta.labels desired.meta.labels)))

module _ {S : Type 0} (env : Env S) where
  unfoldable pub generate_istio_gateway : Api.Gateway → List String → Result IstioGateway
  generate_istio_gateway gateway hosts = ok (record {
    meta = record {
      name = gateway.meta.name;
      namespace = gateway.meta.namespace;
      uid = "";
      generation = 0;
      deletion_timestamp = none;
      labels =
          ("app.kubernetes.io/managed-by", "service-router-operator")
          ∷ ("router.io/gateway", gateway.meta.name)
          ∷ [];
      annotations = [];
      owner_references = env.new_controller_ref gateway.meta (routing_kind "Gateway") ∷ [];
    };
    spec = record {
      selector = ("istio", gateway.spec.controller) ∷ [];
      servers =
          record {
            port = record { number = 443; name = "https"; protocol = "HTTPS" };
            hosts = hosts;
            tls = some (record { mode = simple; credential_name = gateway.spec.credential_name });
          }
          ∷ [];
    };
  })

  unfoldable pub reconcile_istio_gateway : IstioGateway → M S (Unit {0})
  reconcile_istio_gateway desired = do
    found ← attempt (call (env.client.istio_gateways.get (key_of desired.meta)))
    elim found [
      | err e ↦ if is_not_found e then call (env.client.istio_gateways.create desired) else fail e
      | ok existing ↦
          if istio_gateway_needs_update existing desired
          then call (
              env.client.istio_gateways.patch existing (record {
                meta = record (existing.meta) { labels = desired.meta.labels };
                spec = desired.spec;
              }))
          else pure tt
    ]

  unfoldable pub delete_istio_gateway : Api.Gateway → M S (Unit {0})
  delete_istio_gateway gateway = do
    found ← attempt (call (env.client.istio_gateways.get (key_of gateway.meta)))
    elim found [
      | err e ↦ if is_not_found e then pure tt else fail e
      | ok existing ↦ call (env.client.istio_gateways.delete existing)
    ]
