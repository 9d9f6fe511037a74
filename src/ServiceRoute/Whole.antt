-- ===== src/ServiceRoute/Whole.antt =====
-- A whole reconciliation of a route, from the read of the route to the write of its status
-- (internal/controller/routing/serviceroute_controller.go).
use service_router_operator.Base.{
  String, List, [], ◌∷◌, Option, none, some, Bool, true, ◌==◌, ◌≡◌, refl, sym, ◌∙◌, ap, subst,
  arith, any, contains, All, All-both, string_eq,
}
use service_router_operator.Api.{NamespacedName, key_of, DnsEndpoint, DnsPolicy, Gateway}
use service_router_operator.Api
use service_router_operator.Client.{
  Answers, Env, World, ok, ok-inj, chain, done, Identity, DnsConfig, IsStore, IsMapOrder,
  StoredEndpoint, endpoint_kind, everything,
}
use service_router_operator.ClusterIdentity.Cached.{fetch-cached}
use service_router_operator.DnsConfiguration.Cached.{fetch_config-cached}
use service_router_operator.ServiceRoute.{
  validate_service_route, get_dns_policy_for_namespace, gateway_key, apply, with_policy_and_config,
  with_policy, reconcile, active_status, update_status_active,
}
use service_router_operator.ServiceRoute.Endpoints.{generate_dns_endpoints, reconcile_dns_endpoints}
use service_router_operator.ServiceRoute.Endpoints.Convergence.{Converged}
use service_router_operator.ServiceRoute.Endpoints.Progress.{
  Writable, reconcile_dns_endpoints_succeeds,
}
use service_router_operator.ServiceRoute.Endpoints.Generation.{
  endpoint_name, generate_dns_endpoints_lem,
}
use service_router_operator.ServiceRoute.Outcome.{Generated-AllIn, Converged-same, active_status-at}

module _ {S : Type 0} (env : Env S) (at : S → NamespacedName → Option StoredEndpoint)
    (store : IsStore endpoint_kind env.client.dns_endpoints at) {accepts : DnsEndpoint → Bool}
    (up : Answers endpoint_kind env.client.dns_endpoints at accepts) (order : IsMapOrder env.range)
    -- Writing a route's status succeeds, and changes no endpoint.
    (writes : (t : Api.ServiceRoute) (s : S)
      → (env.client.service_routes.update_status t s).0 ≡ ok tt)
    (quiet : (t : Api.ServiceRoute) (s : S) (k : NamespacedName)
      → at (env.client.service_routes.update_status t s).1 k ≡ at s k)
    (route : Api.ServiceRoute) (policy : DnsPolicy) (gateway : Gateway) (identity : Identity)
    (config : DnsConfig) (es : List DnsEndpoint)
    (generates : generate_dns_endpoints env.new_controller_ref route policy gateway identity config
      ≡ ok es)
    -- Some active controller is configured.
    (name : String) (is_active : contains name policy.status.active_controllers ≡ true)
    (is_configured : any (λ c. c.name == name) config.external_dns_controllers ≡ true) where
  status_written :
      (w : World S)
      → update_status_active env route es w ≡ (ok done, (update_status_active env route es w).1)
  unfolding update_status_active
  status_written w = rw (writes (active_status env route es) w.server) refl

  -- What is generated stands in the route's namespace, and is not nothing.
  generates_some :
      All (λ e. e.meta.namespace ≡ route.meta.namespace) es
      × (any (λ e. e.meta.name == endpoint_name route name) es ≡ true)
  generates_some =
      let (es', same, all, named) =
        generate_dns_endpoints_lem env.new_controller_ref route gateway identity config policy
          (λ none_active. cc (sym is_active ∙ ap (contains name) none_active)) in
      let e : es' ≡ es = ok-inj (sym same ∙ generates) in
      subst
        (λ xs.
          All (λ d. d.meta.namespace ≡ route.meta.namespace) xs
          × (any (λ d. d.meta.name == endpoint_name route name) xs ≡ true))
        e
        (
          Generated-AllIn env at store order quiet route gateway identity config
              policy.status.active_controllers es' all,
          named name ∙ ground arith,
        )

  apply_succeeds :
      (w : World S)
      → All (Writable env at store up order route w.server) es
      → (w' : World S) × (apply env route policy gateway identity config w ≡ (ok done, w'))
        × ((n : String)
            → Converged env at store order route es w.server w'.server
                (record { name = n; namespace = route.meta.namespace }))
  unfolding apply
  apply_succeeds w free =
      let (w₁, applied, settled) = by_endpoints es generates_some.0 generates_some.1 free in
      (
        (update_status_active env route es w₁).1,
        rw (apply, generates) (rw (chain, applied) (status_written w₁)),
        λ n.
            Converged-same env at store order quiet route es w.server w₁.server _ _ (settled n)
              (active_status-at env at store order quiet route es w₁ _ done _ (status_written w₁)),
      )
    where
      by_endpoints :
          (xs : List DnsEndpoint)
          → All (λ e. e.meta.namespace ≡ route.meta.namespace) xs
          → any (λ e. e.meta.name == endpoint_name route name) xs ≡ true
          → All (Writable env at store up order route w.server) xs
          → (w' : World S) × (reconcile_dns_endpoints env route xs w ≡ (ok tt, w'))
            × ((n : String)
                → Converged env at store order route xs w.server w'.server
                    (record { name = n; namespace = route.meta.namespace }))
      by_endpoints [] all_in found clear = cc
      by_endpoints (d ∷ ds) all_in found clear =
          reconcile_dns_endpoints_succeeds env at store up order route d ds w
            (All-both _ _ (d ∷ ds) all_in clear)

  -- Where only this process writes endpoints and reads see all earlier writes, the server is up,
  -- and whatever the order in which maps are visited: a valid route is found, its namespace's
  -- policy is active, of whose controllers some is configured, the configuration and the identity
  -- are cached, the gateway is found, and the server's validation accepts the generated endpoints,
  -- and the update of what is at their key to them, and at their keys stands nothing else than
  -- endpoints of the route. Then the route's reconciliation succeeds, and in the route's namespace
  -- each generated endpoint has its spec, exactly the others that carry the route's labels are
  -- gone, and the rest are as they were once the gateway was read.
  pub reconcile_succeeds :
      (req : NamespacedName) (w : World S) (policies : List DnsPolicy) (s₁ s₂ s₃ : S)
      → env.client.service_routes.get req w.server ≡ (ok route, s₁)
      → validate_service_route route ≡ none
      → env.client.dns_policies.list
          (record everything { in_namespace = some route.meta.namespace })
          s₁
        ≡ (ok (policy ∷ policies), s₂)
      → policy.status.active ≡ true
      → w.config_cache ≡ some config
      → env.client.gateways.get (gateway_key env.default_router_gateway_namespace route) s₂
        ≡ (ok gateway, s₃)
      → w.identity_cache ≡ some identity
      → All (Writable env at store up order route s₃) es
      → (w' : World S) × (reconcile env req w ≡ (ok done, w'))
        × ((n : String)
            → Converged env at store order route es s₃ w'.server
                (record { name = n; namespace = route.meta.namespace }))
  unfolding reconcile get_dns_policy_for_namespace with_policy with_policy_and_config
  reconcile_succeeds req w policies s₁ s₂ s₃ found valid listed active configured reached known
        free =
      let w₂ : World S = record w { server = s₂ } in
      let w₃ : World S = record w { server = s₃ } in
      let (w', applied, settled) = apply_succeeds w₃ free in
      let rest : with_policy_and_config env route policy config w₂ ≡ (ok done, w') =
        rw (with_policy_and_config, reached)
          (rw (chain, fetch-cached env w₃ identity known) applied) in
      let decided : with_policy env route policy w₂ ≡ (ok done, w') =
        rw (with_policy, active) (rw (chain, fetch_config-cached env w₂ config configured) rest) in
      (w', rw (reconcile, found) (rw (chain, valid) (rw (chain, listed) decided)), settled)
