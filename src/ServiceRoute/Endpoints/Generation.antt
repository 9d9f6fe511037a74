-- ===== src/ServiceRoute/Endpoints/Generation.antt =====
-- The endpoints that `generateDNSEndpoints` makes (internal/controller/routing/serviceroute_controller.go).
use text.Mathlib.TextLemmas.{append_cancel_left, append-nil}
use service_router_operator.Base.{
  String, List, [], ◌∷◌, ◌++◌, Bool, true, ◌&&◌, none, some, ◌≡◌, ◌≢◌, refl, sym, ◌∙◌, arith, subst,
  any, any-append, All, All-any, All-append, contains, ◌==◌, Bool-cases, Option-cases, inl, inr,
  string_eq, beq_refl, concat, value_at,
}
use service_router_operator.Api.{
  ObjectMeta, OwnerReference, GroupVersionKind, key_of, ExternalDnsController, ServiceRoute,
  DnsPolicy, Gateway, DnsEndpoint,
}
use service_router_operator.Client.{Identity, DnsConfig, ok, selects}
use service_router_operator.ServiceRoute.Endpoints.{
  source_host, target_host, route_selector, controller_map, build_dns_endpoint, generate_loop,
  generate_dns_endpoints,
}
use service_router_operator.ServiceRoute.Endpoints.Configured.{
  last_controller, last_controller-name, last_controller-any, lookup-controller_map,
}

-- The name of a route's endpoint for a controller.
abbrev pub endpoint_name : ServiceRoute → String → String
endpoint_name route name = concat (route.meta.name ∷ "-" ∷ name ∷ [])

endpoint_name-inj :
    (route : ServiceRoute) (a b : String) → endpoint_name route a ≡ endpoint_name route b → a ≡ b
endpoint_name-inj route a b h =
    let front =
      append_cancel_left route.meta.name (concat ("-" ∷ a ∷ [])) (concat ("-" ∷ b ∷ [])) h in
    let back = append_cancel_left "-" (concat (a ∷ [])) (concat (b ∷ [])) front in
    sym (append-nil a) ∙ (back ∙ append-nil b)

-- The endpoint is the route's for the controller: its name, the route's namespace, the labels by
-- which it is found again, the annotation of the controller's region, and one CNAME record from the
-- route's host to the gateway's.
abbrev pub Publishes :
    ServiceRoute → Gateway → Identity → ExternalDnsController → DnsEndpoint → Type 0
Publishes route gateway identity c e =
    (e.meta.name ≡ endpoint_name route c.name)
    × (e.meta.namespace ≡ route.meta.namespace)
    × (selects (route_selector route.meta.namespace (key_of route.meta)) (key_of e.meta)
          e.meta.labels
        ≡ true)
    × (value_at "router.io/controller" e.meta.labels ≡ c.name)
    × (value_at "router.io/region" e.meta.labels ≡ c.region)
    × (value_at "external-dns.alpha.kubernetes.io/controller" e.meta.annotations
        ≡ concat ("external-dns-" ∷ c.region ∷ []))
    × (e.spec.endpoints
        ≡ record {
          dns_name = source_host identity route;
          record_type = "CNAME";
          targets = target_host identity gateway ∷ [];
          record_ttl = 0;
        }
          ∷ [])

-- The endpoint is the route's for one of the active controllers, as it is configured.
abbrev pub Generated :
    ServiceRoute → Gateway → Identity → DnsConfig → List String → DnsEndpoint → Type 0
Generated route gateway identity config active e =
    (c : ExternalDnsController) × (contains c.name active ≡ true)
    × (last_controller c.name config.external_dns_controllers ≡ some c)
    × Publishes route gateway identity c e

module _ (new_ref : ObjectMeta → GroupVersionKind → OwnerReference) (route : ServiceRoute)
    (gateway : Gateway) (identity : Identity) (config : DnsConfig) where
  build-Publishes :
      (c : ExternalDnsController)
      → Publishes route gateway identity c (
          build_dns_endpoint new_ref route c route.meta.namespace
            (source_host identity route)
            (target_host identity gateway))
  unfolding build_dns_endpoint
  build-Publishes c = (
    refl,
    refl,
    ground (arith, beq_refl route.meta.namespace, beq_refl route.meta.name),
    refl,
    refl,
    refl,
    refl,
  )

  abbrev loop : List String → List DnsEndpoint → List DnsEndpoint
  loop =
      generate_loop new_ref route (source_host identity route) (target_host identity gateway)
        (controller_map config.external_dns_controllers [])

  abbrev built : ExternalDnsController → DnsEndpoint
  built c =
      build_dns_endpoint new_ref route c route.meta.namespace (source_host identity route)
        (target_host identity gateway)

  -- The loop goes on with the endpoint of a controller that is configured.
  loop_step :
      (name : String) (names : List String) (es : List DnsEndpoint)
      → loop (name ∷ names) es
        ≡ loop names (elim (last_controller name config.external_dns_controllers) [
          | none ↦ es
          | some c ↦ es ++ built c ∷ []
        ])
  unfolding generate_loop
  loop_step name names es =
      rw (generate_loop, lookup-controller_map name config.external_dns_controllers) refl

  loop-All :
      (active names : List String) (es : List DnsEndpoint)
      → ((n : String) → contains n names ≡ true → contains n active ≡ true)
      → All (Generated route gateway identity config active) es
      → All (Generated route gateway identity config active) (loop names es)
  unfolding generate_loop
  loop-All active [] es h a = a
  loop-All active (name ∷ names) es h a =
      let rest : (n : String) → contains n names ≡ true → contains n active ≡ true =
        λ n e. h n (ground arith) in
      elim (Option-cases (last_controller name config.external_dns_controllers)) [
        | inl e ↦ rw (loop_step name names es, e) (loop-All active names es rest a)
        | inr (c, e) ↦
            let named = last_controller-name name config.external_dns_controllers c e in
            rw (loop_step name names es, e)
              (loop-All active names (es ++ built c ∷ []) rest (
                All-append (Generated route gateway identity config active) es (built c ∷ []) a (
                  (
                    c,
                    rw named (h name (ground (arith, beq_refl name))),
                    subst (λ t. last_controller t config.external_dns_controllers ≡ some c)
                        (sym named) e,
                    build-Publishes c,
                  ),
                  tt,
                )))
      ]

  -- The test that an endpoint has the name of a controller's.
  abbrev is_named : String → DnsEndpoint → Bool
  is_named n e = e.meta.name == endpoint_name route n

  loop-any_old :
      (n : String) (names : List String) (es : List DnsEndpoint)
      → any (is_named n) es ≡ true
      → any (is_named n) (loop names es) ≡ true
  unfolding generate_loop
  loop-any_old n [] es h = h
  loop-any_old n (name ∷ names) es h =
      elim (Option-cases (last_controller name config.external_dns_controllers)) [
        | inl e ↦ rw (loop_step name names es, e) (loop-any_old n names es h)
        | inr (c, e) ↦
            rw (loop_step name names es, e)
              (loop-any_old n names (es ++ built c ∷ [])
                (ground (arith, any-append (is_named n) es (built c ∷ []))))
      ]

  loop-any :
      (n : String) (c : ExternalDnsController) (names : List String) (es : List DnsEndpoint)
      → last_controller n config.external_dns_controllers ≡ some c
      → contains n names ≡ true
      → any (is_named n) (loop names es) ≡ true
  loop-any n c [] es e h = cc
  loop-any n c (name ∷ names) es e h = elim (Bool-cases (name == n)) [
    | inl same ↦
        let e' : last_controller name config.external_dns_controllers ≡ some c =
          rw ((string_eq.test_iff name n).0 same) e in
        let named = last_controller-name n config.external_dns_controllers c e in
        rw (loop_step name names es, e')
          (loop-any_old n names (es ++ built c ∷ []) (
            ground (
              arith,
              any-append (is_named n) es (built c ∷ []),
              (build-Publishes c).0,
              named,
              beq_refl (endpoint_name route n),
            )))
    | inr other ↦ rw (loop_step name names es) (loop-any n c names _ e (ground arith))
  ]

  Generated-named :
      (active : List String) (n : String) (e : DnsEndpoint)
      → Generated route gateway identity config active e
      → e.meta.name ≡ endpoint_name route n
      → (contains n active && any (λ d. d.name == n) config.external_dns_controllers) ≡ true
  Generated-named active n e (c, is_active, is_last, (name_eq, _, _, _, _, _, _)) h =
      subst
        (λ m. (contains m active && any (λ d. d.name == m) config.external_dns_controllers) ≡ true)
        (endpoint_name-inj route c.name n (sym name_eq ∙ h))
        (ground
          (arith, is_active, is_last, last_controller-any c.name config.external_dns_controllers))

  -- An endpoint has the name exactly if the controller is active and configured.
  loop_iff :
      (active : List String) (n : String)
      → any (is_named n) (loop active [])
        ≡ (contains n active && any (λ c. c.name == n) config.external_dns_controllers)
  loop_iff active n =
      let configured = last_controller-any n config.external_dns_controllers in
      elim (Bool-cases (any (is_named n) (loop active []))) [
        | inl named ↦
            let (e, generated, same) =
              All-any (Generated route gateway identity config active) (is_named n) (loop active [])
                (loop-All active active [] (λ m h. h) tt) named in
            named
            ∙ sym (
                Generated-named active n e generated
                  ((string_eq.test_iff e.meta.name (endpoint_name route n)).0 same))
        | inr unnamed ↦ elim (Option-cases (last_controller n config.external_dns_controllers)) [
          | inl missing ↦ unnamed ∙ ground (arith, configured)
          | inr (c, last) ↦ unnamed ∙ ground (arith, loop-any n c active [] last)
        ]
      ]

  -- For a policy with active controllers the generation succeeds. Each endpoint is the route's for an
  -- active controller that is configured: with its name, in the route's namespace, with the labels
  -- by which it is found again and those of the controller's name and region, the annotation of its region and one CNAME record from the route's
  -- host to the gateway's. And a name is that of an endpoint exactly if its controller is active and
  -- configured.
  pub generate_dns_endpoints_lem :
      (policy : DnsPolicy)
      → policy.status.active_controllers ≢ []
      → (es : List DnsEndpoint) × (generate_dns_endpoints new_ref route policy gateway identity
            config
          ≡ ok es)
        × All (Generated route gateway identity config policy.status.active_controllers) es
        × ((n : String)
            → any (λ e. e.meta.name == endpoint_name route n) es ≡ (
                contains n policy.status.active_controllers
                && any (λ c. c.name == n) config.external_dns_controllers))
  unfolding generate_dns_endpoints
  generate_dns_endpoints_lem policy some_active = split policy.status.active_controllers refl
    where
      split :
          (active : List String)
          → policy.status.active_controllers ≡ active
          → (es : List DnsEndpoint) × (generate_dns_endpoints new_ref route policy gateway identity
                config
              ≡ ok es)
            × All (Generated route gateway identity config policy.status.active_controllers) es
            × ((n : String)
                → any (λ e. e.meta.name == endpoint_name route n) es ≡ (
                    contains n policy.status.active_controllers
                    && any (λ c. c.name == n) config.external_dns_controllers))
      split [] e = absurd (some_active e)
      split (name ∷ names) e = (
        loop (name ∷ names) [],
        rw (e, generate_dns_endpoints) refl,
        rw e (loop-All (name ∷ names) (name ∷ names) [] (λ n h. h) tt),
        λ n. rw e (loop_iff (name ∷ names) n),
      )
