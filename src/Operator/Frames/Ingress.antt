-- ===== src/Operator/Frames/Ingress.antt =====
-- The load balancers' controller leaves the caches as they are
-- (internal/controller/routing/ingressdns_controller.go).
use service_router_operator.Base.{
  String, List, [], ◌∷◌, Option, none, some, Bool, true, false, ◌==◌, string_eq, ◌≡◌, refl, ◌∙◌,
  if◌then◌else◌, arith, inl, inr, Bool-cases,
}
use service_router_operator.Api.{Gateway, Service, DnsEndpoint, ExternalDnsController}
use service_router_operator.Client.{
  Env, World, Identity, DnsConfig, GatewayControllerConfig, Result, ok, err, Result-cases,
  everything, ListOptions, M, pure, done,
}
use service_router_operator.Caches
use service_router_operator.IngressDns.{
  active_configs, target_host, desired_endpoint, get_load_balancer_service, apply_endpoint,
  apply_controllers, reconcile_dns_endpoints_for_config, cleanup_endpoints, cleanup_namespaces,
  cleanup_orphaned_dns_endpoints, reconcile_configs, reconcile,
}
use service_router_operator.Operator.Frames.{
  Same, Same-chain, Keeps, fetch_identity-Same, fetch_config-Same,
}

module _ {S : Type 0} (env : Env S) where
  service-Same : (controller : String) → Keeps (get_load_balancer_service env controller)
  unfolding get_load_balancer_service
  service-Same controller w = ground arith

  apply-Same : (ip host : String) (d : DnsEndpoint) → Keeps (apply_endpoint env ip host d)
  unfolding apply_endpoint
  apply-Same ip host d w = ground arith

  apply_controllers-Same :
      (controller postfix : String) (i : Identity) (svc : Service) (ip : String)
      (cs : List ExternalDnsController)
      → Keeps (apply_controllers env controller postfix i svc ip cs)
  unfolding apply_controllers
  apply_controllers-Same controller postfix i svc ip [] w = refl
  apply_controllers-Same controller postfix i svc ip (c ∷ cs) w =
      Same-chain w
        (apply_endpoint env ip (target_host i postfix)
          (desired_endpoint controller postfix i svc ip c) w)
        (λ _. apply_controllers env controller postfix i svc ip cs) (apply-Same ip _ _ w)
        (λ _. apply_controllers-Same controller postfix i svc ip cs)

  addressed-Same :
      (controller postfix : String) (i : Identity) (cs : List ExternalDnsController)
      (o : Option Service)
      → Keeps {S = S} {A = Unit {0}} (elim o [
        | none ↦ pure tt
        | some svc ↦ elim svc.ingress_ips [
          | [] ↦ pure tt
          | ip ∷ _ ↦
              if ip == "" then pure tt else apply_controllers env controller postfix i svc ip cs
        ]
      ])
  addressed-Same controller postfix i cs none w = refl
  addressed-Same controller postfix i cs (some svc) w = go svc.ingress_ips
    where
      go :
          (ips : List String)
          → Same w
              ((elim ips as (λ _. M S (Unit {0})) [
                | [] ↦ pure tt
                | ip ∷ _ ↦
                    if ip == ""
                    then pure tt
                    else apply_controllers env controller postfix i svc ip cs
              ])
                w).1
      go [] = refl
      go (ip ∷ _) = elim (Bool-cases (ip == "")) [
        | inl missing ↦ rw missing refl
        | inr given ↦ rw given (apply_controllers-Same controller postfix i svc ip cs w)
      ]

  config-Same :
      (controller postfix : String) (i : Identity) (c : DnsConfig)
      → Keeps (reconcile_dns_endpoints_for_config env controller postfix i c)
  unfolding reconcile_dns_endpoints_for_config
  config-Same controller postfix i c w =
      Same-chain w (get_load_balancer_service env controller w) _ (service-Same controller w)
        (addressed-Same controller postfix i c.external_dns_controllers)

  cleanup_endpoints-Same :
      (configs : List GatewayControllerConfig) (es : List DnsEndpoint)
      → Keeps (cleanup_endpoints env configs es)
  unfolding cleanup_endpoints
  cleanup_endpoints-Same configs [] w = refl
  cleanup_endpoints-Same configs (e ∷ es) w = ground (
    arith,
    cleanup_endpoints-Same configs es w,
    cleanup_endpoints-Same configs es
        (record w { server = (env.client.dns_endpoints.delete e w.server).1 }),
  )

  cleanup_namespaces-Same :
      (configs : List GatewayControllerConfig) (namespaces : List String)
      → Keeps (cleanup_namespaces env configs namespaces)
  unfolding cleanup_namespaces
  cleanup_namespaces-Same configs [] w = refl
  cleanup_namespaces-Same configs (ns ∷ rest) w =
      elim (Result-cases (env.client.dns_endpoints.list (listing ns) w.server).0) [
        | inr (x, e) ↦ rw (cleanup_namespaces, e) (cleanup_namespaces-Same configs rest w₁)
        | inl (items, e) ↦
            rw (cleanup_namespaces, e)
              (Same-chain w (cleanup_endpoints env configs items w₁) _
                (cleanup_endpoints-Same configs items w₁)
                (go_on (cleanup_namespaces-Same configs rest)))
      ]
    where
      listing : String → ListOptions
      listing n = record {
        in_namespace = some n;
        matching_labels = ("router.io/resource-type", "gateway-service") ∷ [];
        has_labels = [];
      }

      w₁ : World S
      w₁ = record w { server = (env.client.dns_endpoints.list (listing ns) w.server).1 }

      go_on :
          Keeps (cleanup_namespaces env configs rest)
          → (b : Bool) → Keeps (if b then cleanup_namespaces env configs rest else pure tt)
      go_on more true = more
      go_on more false = λ v. refl

  cleanup-Same :
      (configs : List GatewayControllerConfig) → Keeps (cleanup_orphaned_dns_endpoints env configs)
  unfolding cleanup_orphaned_dns_endpoints
  cleanup-Same configs w =
      let o : ListOptions = record everything { has_labels = "istio" ∷ [] } in
      elim (Result-cases (env.client.services.list o w.server).0) [
        | inr (x, e) ↦ rw (cleanup_orphaned_dns_endpoints, e) refl
        | inl (services, e) ↦
            rw (cleanup_orphaned_dns_endpoints, e)
              (cleanup_namespaces-Same configs _
                (record w { server = (env.client.services.list o w.server).1 }))
      ]

  configs-Same :
      (i : Identity) (c : DnsConfig) (configs : List GatewayControllerConfig)
      → Keeps (reconcile_configs env i c configs)
  unfolding reconcile_configs
  configs-Same i c [] w = refl
  configs-Same i c (k ∷ ks) w =
      configs-Same i c ks
        (reconcile_dns_endpoints_for_config env k.controller k.target_postfix i c w).1
      ∙ config-Same k.controller k.target_postfix i c w

  -- With the gateways that were listed: the clean-up, and then the records.
  listed-Same :
      (w : World S) (gateways : List Gateway) (s₁ : S)
      → env.client.gateways.list everything w.server ≡ (ok gateways, s₁)
      → Same w (reconcile env w).1
  unfolding reconcile
  listed-Same w gateways s₁ listed =
      by_identity (Caches.Identity.fetch env w₂) refl
        (fetch_identity-Same env w₂ ∙ cleanup-Same configs w₁)
    where
      configs : List GatewayControllerConfig
      configs = active_configs gateways []

      w₁ : World S
      w₁ = record w { server = s₁ }

      w₂ : World S
      w₂ = (cleanup_orphaned_dns_endpoints env configs w₁).1

      by_config :
          (i : Identity) (w₃ : World S)
          → Caches.Identity.fetch env w₂ ≡ (ok (some i), w₃)
          → (q : Result (Option DnsConfig) × World S) → Caches.DnsConfiguration.fetch env w₃ ≡ q
          → Same w q.1
          → Same w (reconcile env w).1
      by_config i w₃ found (err x, w₄) e s = rw (reconcile, listed, found, e) s
      by_config i w₃ found (ok none, w₄) e s = rw (reconcile, listed, found, e) s
      by_config i w₃ found (ok (some c), w₄) e s =
          rw (reconcile, listed, found, e)
            (Same-chain w (reconcile_configs env i c (env.range.configs configs) w₄)
              (λ _. pure done) (configs-Same i c (env.range.configs configs) w₄ ∙ s) (λ _ v. refl))

      by_identity :
          (q : Result (Option Identity) × World S)
          → Caches.Identity.fetch env w₂ ≡ q
          → Same w q.1
          → Same w (reconcile env w).1
      by_identity (err x, w₃) e s = rw (reconcile, listed, e) s
      by_identity (ok none, w₃) e s = rw (reconcile, listed, e) s
      by_identity (ok (some i), w₃) e s =
          by_config i w₃ e (Caches.DnsConfiguration.fetch env w₃) refl
            (fetch_config-Same env w₃ ∙ s)

  pub reconcile_ingress-Same : Keeps (reconcile env)
  unfolding reconcile
  reconcile_ingress-Same w = go (env.client.gateways.list everything w.server) refl
    where
      go :
          (q : Result (List Gateway) × S)
          → env.client.gateways.list everything w.server ≡ q
          → Same w (reconcile env w).1
      go (err x, s₁) e = rw (reconcile, e) refl
      go (ok gateways, s₁) e = listed-Same w gateways s₁ e
