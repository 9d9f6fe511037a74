-- ===== src/ServiceRoute/Endpoints.antt =====
-- internal/controller/routing/serviceroute_controller.go: the DNSEndpoints of a route, from their
-- generation to their creation, update and removal on the server.
pub mod Configured
pub mod Generation
pub mod Names
pub mod Removal
pub mod Keys
pub mod Write
pub mod Stale
pub mod Listed
pub mod Convergence
pub mod Loops
pub mod Progress
pub mod Again
use service_router_operator.Base.{
  String, List, [], ◌∷◌, ◌++◌, none, some, Bool, true, false, ◌&&◌, ◌==◌, if◌then◌else◌, add,
  assign, lookup, concat, string_eq, nat_eq,
}
use service_router_operator.Api.{
  NamespacedName, key_of, ObjectMeta, OwnerReference, GroupVersionKind, routing_kind,
  ExternalDnsController, ServiceRoute, DnsPolicy, Gateway, DnsEndpoint, DnsEndpointSpec, Endpoint,
}
use service_router_operator.Client.{
  Env, Identity, DnsConfig, M, ListOptions, Result, ok, err, Reason, pure, fail, attempt, call,
  is_not_found, ◌>>=◌, ◌>>◌,
}

abbrev pub source_host : Identity → ServiceRoute → String
source_host identity route = concat (
    route.spec.service_name ∷ "-ns-" ∷ identity.environment_letter ∷ "-" ∷ route.spec.environment
    ∷ "-" ∷ route.spec.application ∷ "." ∷ identity.domain ∷ [])

abbrev pub target_host : Identity → Gateway → String
target_host identity gateway = concat (
    identity.cluster ∷ "-" ∷ identity.region ∷ "-" ∷ gateway.spec.target_postfix ∷ "."
    ∷ identity.domain ∷ [])

-- The labels by which a route's endpoints are listed.
abbrev pub route_labels : NamespacedName → List (String × String)
route_labels key =
    ("app.kubernetes.io/managed-by", "service-router-operator")
    ∷ ("router.io/serviceroute", key.name)
    ∷ ("router.io/source-namespace", key.namespace)
    ∷ []

abbrev pub route_selector : String → NamespacedName → ListOptions
route_selector namespace key = record {
  in_namespace = some namespace;
  matching_labels = route_labels key;
  has_labels = [];
}

unfoldable pub controller_map :
    List ExternalDnsController
    → List (String × ExternalDnsController)
    → List (String × ExternalDnsController)
controller_map [] m = m
controller_map (c ∷ cs) m = controller_map cs (assign c.name c m)

module _ (new_controller_ref : ObjectMeta → GroupVersionKind → OwnerReference) where
  unfoldable pub build_dns_endpoint :
      ServiceRoute → ExternalDnsController → String → String → String → DnsEndpoint
  build_dns_endpoint route controller target_namespace source target = record {
    meta = record {
      name = concat (route.meta.name ∷ "-" ∷ controller.name ∷ []);
      namespace = target_namespace;
      uid = "";
      generation = 0;
      deletion_timestamp = none;
      labels =
          ("app.kubernetes.io/managed-by", "service-router-operator")
          ∷ ("router.io/controller", controller.name)
          ∷ ("router.io/region", controller.region)
          ∷ ("router.io/serviceroute", route.meta.name)
          ∷ ("router.io/source-namespace", route.meta.namespace)
          ∷ [];
      annotations =
          (
            "external-dns.alpha.kubernetes.io/controller",
            concat ("external-dns-" ∷ controller.region ∷ []),
          )
          ∷ [];
      owner_references =
          if target_namespace == route.meta.namespace
          then new_controller_ref route.meta (routing_kind "ServiceRoute") ∷ []
          else [];
    };
    spec = record {
      endpoints =
          record { dns_name = source; record_type = "CNAME"; targets = target ∷ []; record_ttl = 0 }
          ∷ [];
    };
  }

  -- The loop over the active controllers; one that the configuration lacks is skipped.
  unfoldable pub generate_loop :
      ServiceRoute
      → String
      → String
      → List (String × ExternalDnsController)
      → List String
      → List DnsEndpoint
      → List DnsEndpoint
  unfolding build_dns_endpoint
  generate_loop route source target controllers [] endpoints = endpoints
  generate_loop route source target controllers (name ∷ names) endpoints =
      generate_loop route source target controllers names (elim (lookup name controllers) [
        | none ↦ endpoints
        | some c ↦ endpoints ++ build_dns_endpoint route c route.meta.namespace source target ∷ []
      ])

  unfoldable pub generate_dns_endpoints :
      ServiceRoute → DnsPolicy → Gateway → Identity → DnsConfig → Result (List DnsEndpoint)
  unfolding generate_loop controller_map
  generate_dns_endpoints route policy gateway identity config =
      elim policy.status.active_controllers [
        | [] ↦
            err (record { reason = Reason.other; message = "no active controllers in DNSPolicy" })
        | name ∷ names ↦ ok (
            generate_loop route (source_host identity route) (target_host identity gateway)
              (controller_map config.external_dns_controllers []) (name ∷ names) [])
      ]

-- `reflect.DeepEqual` on the specs.
abbrev strings_eq : List String → List String → Bool
strings_eq [] [] = true
strings_eq (s ∷ ss) (t ∷ ts) = s == t && strings_eq ss ts
strings_eq _ _ = false

abbrev endpoint_eq : Endpoint → Endpoint → Bool
endpoint_eq a b =
    a.dns_name == b.dns_name
    && (a.record_type == b.record_type
        && (strings_eq a.targets b.targets && a.record_ttl == b.record_ttl))

abbrev endpoints_eq : List Endpoint → List Endpoint → Bool
endpoints_eq [] [] = true
endpoints_eq (a ∷ as') (b ∷ bs) = endpoint_eq a b && endpoints_eq as' bs
endpoints_eq _ _ = false

unfoldable pub deep_equal : DnsEndpointSpec → DnsEndpointSpec → Bool
deep_equal a b = endpoints_eq a.endpoints b.endpoints

abbrev pub endpoint_key : DnsEndpoint → String
endpoint_key e = concat (e.meta.namespace ∷ "/" ∷ e.meta.name ∷ [])

unfoldable pub endpoint_map :
    List DnsEndpoint → List (String × DnsEndpoint) → List (String × DnsEndpoint)
endpoint_map [] m = m
endpoint_map (e ∷ es) m = endpoint_map es (assign (endpoint_key e) e m)

unfoldable pub namespace_set : List DnsEndpoint → List String → List String
namespace_set [] namespaces = namespaces
namespace_set (e ∷ es) namespaces = namespace_set es (add e.meta.namespace namespaces)

module _ {S : Type 0} (env : Env S) where
  -- The loop over the listed endpoints; one that is gone already is no error.
  unfoldable pub delete_loop : List DnsEndpoint → M S (Unit {0})
  delete_loop [] = pure tt
  delete_loop (de ∷ des) = do
    deleted ← attempt (call (env.client.dns_endpoints.delete de))
    elim deleted [
      | ok _ ↦ delete_loop des
      | err e ↦ if is_not_found e then delete_loop des else fail e
    ]

  unfoldable pub delete_dns_endpoints_for_service_route : NamespacedName → M S (Unit {0})
  unfolding delete_loop
  delete_dns_endpoints_for_service_route key = do
    items ← call (env.client.dns_endpoints.list (route_selector key.namespace key))
    delete_loop items

  -- The loop that lists the route's endpoints in each namespace.
  unfoldable pub list_existing :
      ServiceRoute → List String → List DnsEndpoint → M S (List DnsEndpoint)
  list_existing route [] existing = pure existing
  list_existing route (ns ∷ rest) existing = do
    items ← call (env.client.dns_endpoints.list (route_selector ns (key_of route.meta)))
    list_existing route rest (existing ++ items)

  -- The body of the loop that creates or updates.
  unfoldable pub create_or_update :
      List (String × DnsEndpoint) → String → DnsEndpoint → M S (Unit {0})
  create_or_update existing key desired = elim (lookup key existing) [
    | none ↦ call (env.client.dns_endpoints.create desired)
    | some old ↦
        if deep_equal old.spec desired.spec
        then pure tt
        else call (
            env.client.dns_endpoints.patch old (record {
              meta = record (old.meta) {
                labels = desired.meta.labels;
                annotations = desired.meta.annotations;
              };
              spec = desired.spec;
            }))
  ]

  unfoldable pub create_or_update_loop :
      List (String × DnsEndpoint) → List (String × DnsEndpoint) → M S (Unit {0})
  create_or_update_loop existing [] = pure tt
  create_or_update_loop existing ((key, desired) ∷ rest) = do
    create_or_update existing key desired
    create_or_update_loop existing rest

  unfoldable pub delete_stale_loop :
      List (String × DnsEndpoint) → List (String × DnsEndpoint) → M S (Unit {0})
  delete_stale_loop desired [] = pure tt
  delete_stale_loop desired ((key, old) ∷ rest) = elim (lookup key desired) [
    | some _ ↦ delete_stale_loop desired rest
    | none ↦ do call (env.client.dns_endpoints.delete old); delete_stale_loop desired rest
  ]

  unfoldable pub reconcile_dns_endpoints : ServiceRoute → List DnsEndpoint → M S (Unit {0})
  reconcile_dns_endpoints route desired = do
    existing ← list_existing route (env.range.namespaces (namespace_set desired [])) []
    let desired_map = endpoint_map desired []
    let existing_map = endpoint_map existing []
    create_or_update_loop existing_map (env.range.desired desired_map)
    delete_stale_loop desired_map (env.range.existing existing_map)
