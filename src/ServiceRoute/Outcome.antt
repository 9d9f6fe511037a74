-- ===== src/ServiceRoute/Outcome.antt =====
-- What a reconciliation of a route leaves of its endpoints
-- (internal/controller/routing/serviceroute_controller.go).
use service_router_operator.Base.{
  String, List, [], ◌∷◌, Option, true, false, ◌==◌, ◌≡◌, sym, ◌∙◌, ap, arith, any, All, contains,
  Option-cases, inl, inr, string_eq,
}
use service_router_operator.Api.{NamespacedName, names_Eq, key_of, DnsEndpoint, DnsPolicy, Gateway}
use service_router_operator.Api
use service_router_operator.Client.{
  Env, World, ok, call, finish, done, ReconcileResult, Identity, DnsConfig, IsStore, IsMapOrder,
  StoredEndpoint, endpoint_kind, without_selected, chain-eq-ok, finish_server,
}
use service_router_operator.ServiceRoute.{
  apply, with_policy, active_status, pending_status, update_status_active, update_status_pending,
}
use service_router_operator.ServiceRoute.Endpoints.{
  generate_dns_endpoints, reconcile_dns_endpoints, route_selector,
  delete_dns_endpoints_for_service_route,
}
use service_router_operator.ServiceRoute.Endpoints.Removal.{
  delete_dns_endpoints_for_service_route-at,
}
use service_router_operator.ServiceRoute.Endpoints.Listed.{AllIn, last_of}
use service_router_operator.ServiceRoute.Endpoints.Keys.{text_key}
use service_router_operator.ServiceRoute.Endpoints.Write.{spec_of}
use service_router_operator.ServiceRoute.Endpoints.Convergence.{
  Converged, reconcile_dns_endpoints-Converged,
}
use service_router_operator.ServiceRoute.Endpoints.Generation.{
  Generated, endpoint_name, generate_dns_endpoints_lem,
}

module _ {S : Type 0} (env : Env S) (at : S → NamespacedName → Option StoredEndpoint)
    (store : IsStore endpoint_kind env.client.dns_endpoints at) (order : IsMapOrder env.range)
    -- Writing a route's status changes no endpoint.
    (quiet : (t : Api.ServiceRoute) (s : S) (k : NamespacedName)
      → at (env.client.service_routes.update_status t s).1 k ≡ at s k)
    (route : Api.ServiceRoute) where
  pub Generated-AllIn :
      (gateway : Gateway) (identity : Identity) (config : DnsConfig) (active : List String)
      (es : List DnsEndpoint)
      → All (Generated route gateway identity config active) es
      → AllIn route.meta.namespace es
  Generated-AllIn gateway identity config active [] a = tt
  Generated-AllIn gateway identity config active (e ∷ es) ((_, _, _, (_, ns, _, _, _, _, _)), a) =
      (ns, Generated-AllIn gateway identity config active es a)

  status-at :
      (t : Api.ServiceRoute) (answer : ReconcileResult) (w : World S) (k : NamespacedName)
      → at (finish (call (env.client.service_routes.update_status t)) answer w).1.server k
        ≡ at w.server k
  status-at t answer w k =
      ap (λ v. at v.server k)
        (finish_server (call (env.client.service_routes.update_status t)) answer w)
      ∙ quiet t w.server k

  pub active_status-at :
      (es : List DnsEndpoint) (w w' : World S) (result : ReconcileResult) (k : NamespacedName)
      → update_status_active env route es w ≡ (ok result, w')
      → at w'.server k ≡ at w.server k
  unfolding update_status_active
  active_status-at es w w' result k h =
      ap (λ p. at p.1.server k) (sym h) ∙ status-at (active_status env route es) done w k

  pending_status-at :
      (reason message : String) (w w' : World S) (result : ReconcileResult) (k : NamespacedName)
      → update_status_pending env route reason message w ≡ (ok result, w')
      → at w'.server k ≡ at w.server k
  unfolding update_status_pending
  pending_status-at reason message w w' result k h =
      ap (λ p. at p.1.server k) (sym h)
      ∙ status-at (pending_status env route reason message) done w k

  -- What is settled of a server is settled of one that looks alike.
  pub Converged-same :
      (es : List DnsEndpoint) (s s₁ s' : S) (k : NamespacedName)
      → Converged env at store order route es s s₁ k
      → at s' k ≡ at s₁ k
      → Converged env at store order route es s s' k
  Converged-same es s s₁ s' k c e = elim (Option-cases (last_of (text_key k) es)) [
    | inl none_of ↦ rw none_of (e ∙ (rw none_of at c))
    | inr (d, is_d) ↦ rw is_d (ap spec_of e ∙ (rw is_d at c))
  ]

  -- Where only this process writes and reads see all earlier writes, writing a route's status
  -- changes no endpoint, and whatever the order in which maps are visited: for a policy of which
  -- some active controller is configured, when the endpoints of a route are generated, applied and
  -- reported with success, then in the route's namespace each generated endpoint has its spec,
  -- exactly the other endpoints with the route's labels are gone, and the rest are as they were.
  pub apply-Converged :
      (policy : DnsPolicy) (gateway : Gateway) (identity : Identity) (config : DnsConfig)
      (name : String) (w w' : World S) (result : ReconcileResult) (k : NamespacedName)
      → contains name policy.status.active_controllers ≡ true
      → any (λ c. c.name == name) config.external_dns_controllers ≡ true
      → apply env route policy gateway identity config w ≡ (ok result, w')
      → k.namespace ≡ route.meta.namespace
      → (es : List DnsEndpoint) × (generate_dns_endpoints env.new_controller_ref route policy
            gateway identity config
          ≡ ok es)
        × Converged env at store order route es w.server w'.server k
  unfolding apply
  apply-Converged policy gateway identity config name w w' result k active configured h kn =
      let (es, generated, all, named) =
        generate_dns_endpoints_lem env.new_controller_ref route gateway identity config policy
          (λ none_active. cc (sym active ∙ ap (contains name) none_active)) in
      let (_, w₁, applied, reported) =
        chain-eq-ok (reconcile_dns_endpoints env route es w) _ (rw (generated, apply) at h) in
      (
        es,
        generated,
        Converged-same es w.server w₁.server w'.server k
            (by_endpoints es
              (Generated-AllIn gateway identity config policy.status.active_controllers es all)
              (named name ∙ ground arith) w₁ applied)
            (active_status-at es w₁ w' result k reported),
      )
    where
      by_endpoints :
          (es : List DnsEndpoint)
          → AllIn route.meta.namespace es
          → any (λ e. e.meta.name == endpoint_name route name) es ≡ true
          → (w₁ : World S) → reconcile_dns_endpoints env route es w ≡ (ok tt, w₁)
          → Converged env at store order route es w.server w₁.server k
      by_endpoints [] all found w₁ applied = cc
      by_endpoints (d ∷ ds) all found w₁ applied =
          reconcile_dns_endpoints-Converged env at store order route d ds w w₁ k all applied kn

  -- Where only this process writes and reads see all earlier writes, and writing a route's status
  -- changes no endpoint: when a route is reconciled under a policy that is not active, and this
  -- succeeds, exactly the endpoints of the route's namespace that carry its labels are gone; all
  -- others are as they were.
  pub with_policy_inactive-at :
      (policy : DnsPolicy) (w w' : World S) (result : ReconcileResult) (k : NamespacedName)
      → policy.status.active ≡ false
      → with_policy env route policy w ≡ (ok result, w')
      → at w'.server k
        ≡ without_selected
            (route_selector route.meta.namespace (key_of route.meta))
            k
            (at w.server k)
  unfolding with_policy
  with_policy_inactive-at policy w w' result k inactive h =
      let (_, w₁, removed, reported) =
        chain-eq-ok (delete_dns_endpoints_for_service_route env (key_of route.meta) w) _
          (rw inactive at h) in
      pending_status-at _ _ w₁ w' result k reported
      ∙ delete_dns_endpoints_for_service_route-at env at store (key_of route.meta) w w₁ k removed
