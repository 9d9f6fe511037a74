-- ===== src/Operator/Frames/Routes.antt =====
-- The routes' controller leaves the caches as they are
-- (internal/controller/routing/serviceroute_controller.go).
use service_router_operator.Base.{
  String, List, [], ◌∷◌, ◌++◌, Option, none, some, true, ◌≡◌, refl, ◌∙◌, arith, inl, inr,
  Bool-cases, Option-cases, string_eq,
}
use service_router_operator.Api.{
  NamespacedName, key_of, DnsPolicy, Gateway, ServiceRoute, DnsEndpoint,
}
use service_router_operator.Client.{
  Env, World, Identity, DnsConfig, Result, ok, err, Result-cases, is_not_found, chain, pure, done,
}
use service_router_operator.Caches
use service_router_operator.ServiceRoute.{
  update_status_active, update_status_pending, update_status_failed, validate_service_route,
  get_dns_policy_for_namespace, gateway_key, apply, with_policy_and_config, with_policy, reconcile,
}
use service_router_operator.ServiceRoute.Endpoints.{
  generate_dns_endpoints, delete_loop, delete_dns_endpoints_for_service_route, list_existing,
  create_or_update, create_or_update_loop, delete_stale_loop, endpoint_map, namespace_set,
  reconcile_dns_endpoints,
}
use service_router_operator.Operator.Frames.{
  Same, Same-chain, Keeps, fetch_identity-Same, fetch_config-Same,
}

module _ {S : Type 0} (env : Env S) where
  pending-Same :
      (r : ServiceRoute) (reason message : String)
      → Keeps (update_status_pending env r reason message)
  unfolding update_status_pending
  pending-Same r reason message w = ground arith

  failed-Same :
      (r : ServiceRoute) (reason message : String)
      → Keeps (update_status_failed env r reason message)
  unfolding update_status_failed
  failed-Same r reason message w = ground arith

  active-Same : (r : ServiceRoute) (es : List DnsEndpoint) → Keeps (update_status_active env r es)
  unfolding update_status_active
  active-Same r es w = ground arith

  delete_loop-Same : (es : List DnsEndpoint) → Keeps (delete_loop env es)
  unfolding delete_loop
  delete_loop-Same [] w = refl
  delete_loop-Same (e ∷ es) w = ground (
    arith,
    delete_loop-Same es (record w { server = (env.client.dns_endpoints.delete e w.server).1 }),
  )

  removal-Same : (key : NamespacedName) → Keeps (delete_dns_endpoints_for_service_route env key)
  unfolding delete_dns_endpoints_for_service_route
  removal-Same key w = Same-chain w _ (delete_loop env) refl delete_loop-Same

  list_existing-Same :
      (r : ServiceRoute) (namespaces : List String) (es : List DnsEndpoint)
      → Keeps (list_existing env r namespaces es)
  unfolding list_existing
  list_existing-Same r [] es w = refl
  list_existing-Same r (ns ∷ rest) es w =
      Same-chain w _ (λ items. list_existing env r rest (es ++ items)) refl
        (λ items. list_existing-Same r rest (es ++ items))

  create_or_update-Same :
      (existing : List (String × DnsEndpoint)) (key : String) (d : DnsEndpoint)
      → Keeps (create_or_update env existing key d)
  unfolding create_or_update
  create_or_update-Same existing key d w = ground arith

  create_or_update_loop-Same :
      (existing ds : List (String × DnsEndpoint)) → Keeps (create_or_update_loop env existing ds)
  unfolding create_or_update_loop
  create_or_update_loop-Same existing [] w = refl
  create_or_update_loop-Same existing ((t, d) ∷ ds) w =
      Same-chain w (create_or_update env existing t d w)
        (λ _. create_or_update_loop env existing ds) (create_or_update-Same existing t d w)
        (λ _. create_or_update_loop-Same existing ds)

  delete_stale_loop-Same :
      (desired es : List (String × DnsEndpoint)) → Keeps (delete_stale_loop env desired es)
  unfolding delete_stale_loop
  delete_stale_loop-Same desired [] w = refl
  delete_stale_loop-Same desired ((t, e) ∷ es) w = ground (
    arith,
    delete_stale_loop-Same desired es w,
    delete_stale_loop-Same desired es
        (record w { server = (env.client.dns_endpoints.delete e w.server).1 }),
  )

  endpoints-Same :
      (r : ServiceRoute) (ds : List DnsEndpoint) → Keeps (reconcile_dns_endpoints env r ds)
  unfolding reconcile_dns_endpoints
  endpoints-Same r ds w =
      Same-chain w (list_existing env r (env.range.namespaces (namespace_set ds [])) [] w) _
        (list_existing-Same r _ [] w)
        (λ existing w₁.
          Same-chain w₁
            (create_or_update_loop env (endpoint_map existing [])
              (env.range.desired (endpoint_map ds [])) w₁)
            (λ _.
              delete_stale_loop env (endpoint_map ds [])
                (env.range.existing (endpoint_map existing [])))
            (create_or_update_loop-Same _ _ w₁) (λ _. delete_stale_loop-Same _ _))

  apply-Same :
      (r : ServiceRoute) (p : DnsPolicy) (g : Gateway) (i : Identity) (c : DnsConfig)
      → Keeps (apply env r p g i c)
  unfolding apply
  apply-Same r p g i c w =
      elim (Result-cases (generate_dns_endpoints env.new_controller_ref r p g i c)) [
        | inr (x, e) ↦ rw (apply, e) (failed-Same r _ _ w)
        | inl (es, e) ↦
            rw (apply, e)
              (Same-chain w (reconcile_dns_endpoints env r es w)
                (λ _. update_status_active env r es) (endpoints-Same r es w)
                (λ _. active-Same r es))
      ]

  module _ (r : ServiceRoute) (p : DnsPolicy) where
    identified-Same :
        (c : DnsConfig) (w : World S) (g : Gateway) (s₁ : S)
        → env.client.gateways.get (gateway_key env.default_router_gateway_namespace r) w.server
          ≡ (ok g, s₁)
        → Same w (with_policy_and_config env r p c w).1
    unfolding with_policy_and_config
    identified-Same c w g s₁ found =
        go (Caches.Identity.fetch env w₁) refl (fetch_identity-Same env w₁)
      where
        w₁ : World S
        w₁ = record w { server = s₁ }

        go :
            (q : Result (Option Identity) × World S)
            → Caches.Identity.fetch env w₁ ≡ q
            → Same w q.1
            → Same w (with_policy_and_config env r p c w).1
        go (err x, w₂) e s = rw (with_policy_and_config, found, e) (pending-Same r _ _ w₂ ∙ s)
        go (ok none, w₂) e s = rw (with_policy_and_config, found, e) (pending-Same r _ _ w₂ ∙ s)
        go (ok (some i), w₂) e s =
            rw (with_policy_and_config, found, e) (apply-Same r p g i c w₂ ∙ s)

    configured-Same : (c : DnsConfig) → Keeps (with_policy_and_config env r p c)
    unfolding with_policy_and_config
    configured-Same c w =
        go (env.client.gateways.get (gateway_key env.default_router_gateway_namespace r) w.server)
          refl
      where
        go :
            (q : Result Gateway × S)
            → env.client.gateways.get (gateway_key env.default_router_gateway_namespace r) w.server
              ≡ q
            → Same w (with_policy_and_config env r p c w).1
        go (ok g, s₁) e = identified-Same c w g s₁ e
        go (err x, s₁) e = elim (Bool-cases (is_not_found x)) [
          | inl gone ↦
              rw (with_policy_and_config, e)
                (rw (chain, gone) (pending-Same r _ _ (record w { server = s₁ })))
          | inr other ↦ rw (with_policy_and_config, e) (rw (chain, other) refl)
        ]

    active_policy-Same : (w : World S) → p.status.active ≡ true → Same w (with_policy env r p w).1
    unfolding with_policy
    active_policy-Same w active =
        go (Caches.DnsConfiguration.fetch env w) refl (fetch_config-Same env w)
      where
        go :
            (q : Result (Option DnsConfig) × World S)
            → Caches.DnsConfiguration.fetch env w ≡ q
            → Same w q.1
            → Same w (with_policy env r p w).1
        go (err x, w₁) e s = rw (with_policy, active, e) (pending-Same r _ _ w₁ ∙ s)
        go (ok none, w₁) e s = rw (with_policy, active, e) (pending-Same r _ _ w₁ ∙ s)
        go (ok (some c), w₁) e s = rw (with_policy, active, e) (configured-Same c w₁ ∙ s)

    with_policy-Same : Keeps (with_policy env r p)
    unfolding with_policy
    with_policy-Same w = elim (Bool-cases p.status.active) [
      | inl active ↦ active_policy-Same w active
      | inr inactive ↦
          rw (with_policy, inactive)
            (Same-chain w (delete_dns_endpoints_for_service_route env (key_of r.meta) w)
              (λ _. update_status_pending env r _ _) (removal-Same (key_of r.meta) w)
              (λ _. pending-Same r _ _))
    ]

  policy_found-Same :
      (r : ServiceRoute) (reason message : String) (o : Option DnsPolicy)
      → Keeps (elim o [
        | none ↦ update_status_pending env r reason message
        | some p ↦ with_policy env r p
      ])
  policy_found-Same r reason message none = pending-Same r reason message
  policy_found-Same r reason message (some p) = with_policy-Same r p

  policy-Same : (namespace : String) → Keeps (get_dns_policy_for_namespace env namespace)
  unfolding get_dns_policy_for_namespace
  policy-Same namespace w = ground arith

  pub reconcile_route-Same : (req : NamespacedName) → Keeps (reconcile env req)
  unfolding reconcile
  reconcile_route-Same req w = go (env.client.service_routes.get req w.server) refl
    where
      go :
          (q : Result ServiceRoute × S)
          → env.client.service_routes.get req w.server ≡ q
          → Same w (reconcile env req w).1
      go (err x, s₁) e = elim (Bool-cases (is_not_found x)) [
        | inr other ↦ rw (reconcile, e) (rw (chain, other) refl)
        | inl gone ↦
            let w₁ : World S = record w { server = s₁ } in
            rw (reconcile, e)
              (rw (chain, gone)
                (Same-chain w (delete_dns_endpoints_for_service_route env req w₁) (λ _. pure done)
                  (removal-Same req w₁) (λ _ v. refl)))
      ]
      go (ok r, s₁) e =
          let w₁ : World S = record w { server = s₁ } in
          elim (Option-cases (validate_service_route r)) [
            | inr (message, bad) ↦ rw (reconcile, e) (rw (chain, bad) (failed-Same r _ _ w₁))
            | inl valid ↦
                rw (reconcile, e)
                  (rw (chain, valid)
                    (Same-chain w (get_dns_policy_for_namespace env r.meta.namespace w₁) _
                      (policy-Same r.meta.namespace w₁) (policy_found-Same r _ _)))
          ]
