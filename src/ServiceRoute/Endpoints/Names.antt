-- ===== src/ServiceRoute/Endpoints/Names.antt =====
-- How many endpoints `generateDNSEndpoints` makes, and in which order
-- (internal/controller/routing/serviceroute_controller.go).
use mathlib.Core.List.{append-nil, append_assoc}
use service_router_operator.Base.{
  ◌≤◌, String, List, [], ◌∷◌, ◌++◌, Bool, map, length, length-map, map-append, select,
  length-select, is_some, ◌≡◌, refl, sym, ◌∙◌, ap, arith, any, Option-cases, inl, inr, string_eq,
  ◌==◌,
}
use service_router_operator.Api.{
  ObjectMeta, OwnerReference, GroupVersionKind, ServiceRoute, DnsPolicy, Gateway, DnsEndpoint,
}
use service_router_operator.Client.{Identity, DnsConfig, ok, ok-inj}
use service_router_operator.ServiceRoute.Endpoints.{
  source_host, target_host, controller_map, build_dns_endpoint, generate_loop,
  generate_dns_endpoints,
}
use service_router_operator.ServiceRoute.Endpoints.Configured.{
  last_controller, last_controller-name, last_controller-any, lookup-controller_map,
}
use service_router_operator.ServiceRoute.Endpoints.Generation.{endpoint_name}

-- The configuration has a controller of the name.
abbrev pub is_configured : DnsConfig → String → Bool
is_configured config name = any (λ c. c.name == name) config.external_dns_controllers

abbrev pub names_of : List DnsEndpoint → List String
names_of = map (λ e. e.meta.name)

module _ (new_ref : ObjectMeta → GroupVersionKind → OwnerReference) (route : ServiceRoute)
    (config : DnsConfig) where
  loop-names :
      (source target : String) (names : List String) (es : List DnsEndpoint)
      → names_of (
          generate_loop new_ref route source target
            (controller_map config.external_dns_controllers [])
            names
            es)
        ≡ names_of es ++ map (endpoint_name route) (select (is_configured config) names)
  unfolding generate_loop build_dns_endpoint
  loop-names source target [] es = sym (append-nil (names_of es))
  loop-names source target (n ∷ ns) es =
      let found = lookup-controller_map n config.external_dns_controllers in
      let known = last_controller-any n config.external_dns_controllers in
      elim (Option-cases (last_controller n config.external_dns_controllers)) [
        | inl e ↦
            rw (generate_loop, found, e, known ∙ ap is_some e) (loop-names source target ns es)
        | inr (c, e) ↦
            let built = build_dns_endpoint new_ref route c route.meta.namespace source target in
            rw (generate_loop, found, e, known ∙ ap is_some e)
              (loop-names source target ns (es ++ built ∷ [])
                ∙ (ap (λ l. l ++ map (endpoint_name route) (select (is_configured config) ns))
                      (map-append (λ e. e.meta.name) es (built ∷ [])
                        ∙ ap (λ m. names_of es ++ endpoint_name route m ∷ [])
                            (last_controller-name n config.external_dns_controllers c e))
                    ∙ append_assoc (names_of es) _ _))
      ]

  -- The endpoints that are generated are named, in order, by those of the policy's active controllers that
  -- are configured; there are at most as many as active controllers.
  pub generate_dns_endpoints-names :
      (policy : DnsPolicy) (gateway : Gateway) (identity : Identity) (es : List DnsEndpoint)
      → generate_dns_endpoints new_ref route policy gateway identity config ≡ ok es
      → (names_of es
          ≡ map
              (endpoint_name route)
              (select (is_configured config) policy.status.active_controllers))
        × (length es ≤ length policy.status.active_controllers)
  unfolding generate_dns_endpoints
  generate_dns_endpoints-names policy gateway identity es h =
      go policy.status.active_controllers refl
    where
      named :
          (names : List String)
          → names_of es ≡ map (endpoint_name route) (select (is_configured config) names)
          → (names_of es ≡ map (endpoint_name route) (select (is_configured config) names))
            × (length es ≤ length names)
      named names e = (
        e,
        omega (
          arith,
          sym (length-map (λ x. x.meta.name) es)
              ∙ (ap length e
                  ∙ length-map (endpoint_name route) (select (is_configured config) names)),
          length-select (is_configured config) names,
        ),
      )

      go :
          (names : List String)
          → policy.status.active_controllers ≡ names
          → (names_of es
              ≡ map
                  (endpoint_name route)
                  (select (is_configured config) policy.status.active_controllers))
            × (length es ≤ length policy.status.active_controllers)
      go [] e = cc (rw (generate_dns_endpoints, e) at h)
      go (n ∷ ns) e = rw e (
          named (n ∷ ns) (
            ap names_of (sym (ok-inj (rw (generate_dns_endpoints, e) at h)))
            ∙ loop-names (source_host identity route) (target_host identity gateway) (n ∷ ns) []))
