-- ===== src/IngressDns/Cleanup.antt =====
-- What `cleanupOrphanedDNSEndpoints` may remove (internal/controller/routing/ingressdns_controller.go).
use service_router_operator.Base.{
  String, List, [], ◌∷◌, Option, none, some, Bool, true, false, ◌==◌, ◌≡◌, ◌⊎◌, refl, sym, ◌∙◌, ap,
  subst, arith, All, contains, Bool-cases, inl, inr, string_eq, value_at,
}
use service_router_operator.Api.{NamespacedName, names_Eq, key_of, DnsEndpoint, Service}
use service_router_operator.Client.{
  Env, World, Result, ok, err, is_not_found, IsStore, StoredEndpoint, endpoint_kind, chain-eq-ok,
  GatewayControllerConfig, ListOptions, labels_match, selects, everything,
}
use service_router_operator.IngressDns.{
  config_Eq, labelled_config, service_namespaces, cleanup_endpoints, cleanup_namespaces,
  cleanup_orphaned_dns_endpoints,
}

-- The endpoint is one of a gateway's service, and its labels name a configuration that is not active.
abbrev pub IsOrphan : List GatewayControllerConfig → StoredEndpoint → Type 0
IsOrphan configs v =
    (labels_match v.labels (("router.io/resource-type", "gateway-service") ∷ []) ≡ true)
    × (contains
          (record {
            controller = value_at "router.io/istio-controller" v.labels;
            target_postfix = value_at "router.io/target-postfix" v.labels;
          })
          configs
        ≡ false)

module _ {S : Type 0} (env : Env S) (at : S → NamespacedName → Option StoredEndpoint)
    (store : IsStore endpoint_kind env.client.dns_endpoints at)
    (configs : List GatewayControllerConfig) where
  -- The server has what it had at the key, or had an orphan there and has nothing now.
  abbrev pub Spared : S → S → NamespacedName → Type 0
  Spared s s' k =
      (at s' k ≡ at s k)
      ⊎ ((v : StoredEndpoint) × (at s k ≡ some v) × IsOrphan configs v × (at s' k ≡ none))

  Spared-same :
      (s s₁ s' : S) (k : NamespacedName) → Spared s s₁ k → at s' k ≡ at s₁ k → Spared s s' k
  Spared-same s s₁ s' k (inl h) e = inl (e ∙ h)
  Spared-same s s₁ s' k (inr (v, had, orphan, gone)) e = inr (v, had, orphan, e ∙ gone)

  Spared-trans : (s s₁ s' : S) (k : NamespacedName) → Spared s s₁ k → Spared s₁ s' k → Spared s s' k
  Spared-trans s s₁ s' k p (inl e) = Spared-same s s₁ s' k p e
  Spared-trans s s₁ s' k (inl h) (inr (v, had, orphan, gone)) = inr (v, sym h ∙ had, orphan, gone)
  Spared-trans s s₁ s' k (inr (u, had_u, orphan_u, gone_u)) (inr (v, had, orphan, gone)) =
      inr (u, had_u, orphan_u, gone)

  -- An endpoint that was listed, as the server had it.
  abbrev Listed : S → DnsEndpoint → Type 0
  Listed s e =
      (at s (key_of e.meta) ≡ some (endpoint_kind.view e))
      × (labels_match e.meta.labels (("router.io/resource-type", "gateway-service") ∷ []) ≡ true)

  cleanup_endpoints-Spared :
      (s₀ : S) (eps : List DnsEndpoint) (w w' : World S) (b : Bool) (k : NamespacedName)
      → All (Listed s₀) eps
      → Spared s₀ w.server k
      → cleanup_endpoints env configs eps w ≡ (ok b, w')
      → Spared s₀ w'.server k
  unfolding cleanup_endpoints
  cleanup_endpoints-Spared s₀ [] w w' b k a p h =
      Spared-same s₀ w.server w'.server k p (ap (λ q. at q.1.server k) (sym h))
  cleanup_endpoints-Spared s₀ (ep ∷ eps) w w' b k ((had, labelled), a) p h =
      elim (Bool-cases (contains (labelled_config ep) configs)) [
        | inl active ↦ cleanup_endpoints-Spared s₀ eps w w' b k a p (rw active at h)
        | inr orphan ↦
            by_deleted (λ w₁ p₁. cleanup_endpoints-Spared s₀ eps w₁ w' b k a p₁) orphan
              (env.client.dns_endpoints.delete ep w.server) refl
      ]
    where
      by_deleted :
          ((w₁ : World S)
            → Spared s₀ w₁.server k
            → cleanup_endpoints env configs eps w₁ ≡ (ok b, w')
            → Spared s₀ w'.server k)
          → contains (labelled_config ep) configs ≡ false
          → (q : Result (Unit {0}) × S) → env.client.dns_endpoints.delete ep w.server ≡ q
          → Spared s₀ w'.server k
      by_deleted rest orphan (ok _, s) deleted =
          let after = store.delete_ok ep w.server s k deleted in
          rest (record w { server = s })
            (elim (Bool-cases (key_of ep.meta == k)) [
              | inl here ↦ inr (
                endpoint_kind.view ep,
                subst (λ j. at s₀ j ≡ some (endpoint_kind.view ep))
                    ((names_Eq.test_iff (key_of ep.meta) k).0 here) had,
                (labelled, orphan),
                after ∙ rw here refl,
              )
              | inr elsewhere ↦ Spared-same s₀ w.server s k p (after ∙ rw elsewhere refl)
            ])
            (rw (orphan, deleted) at h)
      by_deleted rest orphan (err e, s) deleted = elim (Bool-cases (is_not_found e)) [
        | inl gone ↦ Spared-same s₀ w.server w'.server k p (
            ap (λ q. at q.1.server k) (sym (rw (orphan, deleted, gone) at h))
            ∙ (store.delete_not_found ep w.server s e k deleted gone).1)
        | inr other ↦ cc (rw (orphan, deleted, other) at h)
      ]

  abbrev of_services : String → ListOptions
  of_services ns = record {
    in_namespace = some ns;
    matching_labels = ("router.io/resource-type", "gateway-service") ∷ [];
    has_labels = [];
  }

  selected-Listed :
      (ns : String) (s : S) (eps : List DnsEndpoint)
      → All
          (λ e.
            (at s (key_of e.meta) ≡ some (endpoint_kind.view e))
            × (selects (of_services ns) (key_of e.meta) e.meta.labels ≡ true))
          eps
      → All (Listed s) eps
  selected-Listed ns s [] a = tt
  selected-Listed ns s (e ∷ es) ((had, selected), a) =
      ((had, ground arith), selected-Listed ns s es a)

  cleanup_namespaces-Spared :
      (nss : List String) (w w' : World S) (k : NamespacedName)
      → cleanup_namespaces env configs nss w ≡ (ok tt, w')
      → Spared w.server w'.server k
  unfolding cleanup_namespaces
  cleanup_namespaces-Spared [] w w' k h = inl (ap (λ q. at q.1.server k) (sym h))
  cleanup_namespaces-Spared (ns ∷ nss) w w' k h =
      by_listed (λ w₁. cleanup_namespaces-Spared nss w₁ w' k)
        (env.client.dns_endpoints.list (of_services ns) w.server) refl
    where
      by_listed :
          ((w₁ : World S)
            → cleanup_namespaces env configs nss w₁ ≡ (ok tt, w')
            → Spared w₁.server w'.server k)
          → (q : Result (List DnsEndpoint) × S)
          → env.client.dns_endpoints.list (of_services ns) w.server ≡ q
          → Spared w.server w'.server k
      by_listed rest (err e, s) listed =
          Spared-trans w.server s w'.server k
            (inl (ap (λ p. at p.1 k) (sym listed) ∙ store.list_same (of_services ns) w.server k))
            (rest (record w { server = s }) (rw listed at h))
      by_listed rest (ok items, s) listed =
          let w₁ : World S = record w { server = s } in
          let (go_on, w₂, cleaned, after) =
            chain-eq-ok (cleanup_endpoints env configs items w₁) _ (rw listed at h) in
          let same : at s k ≡ at w.server k =
            ap (λ p. at p.1 k) (sym listed) ∙ store.list_same (of_services ns) w.server k in
          let here =
            cleanup_endpoints-Spared w.server items w₁ w₂ go_on k
              (selected-Listed ns w.server items
                (store.list_sound (of_services ns) w.server s items listed))
              (inl same) cleaned in
          elim (Bool-cases go_on) [
            | inl more ↦
                Spared-trans w.server w₂.server w'.server k here (rest w₂ (rw more at after))
            | inr stop ↦
                Spared-same w.server w₂.server w'.server k here
                  (ap (λ q. at q.1.server k) (sym (rw stop at after)))
          ]

  -- Where only this process writes and reads see all earlier writes, whatever the order in which
  -- the namespaces are visited, and also where the clean-up returns early: when it succeeds, each
  -- endpoint is as it was once the services were listed, or it is gone and was one of a gateway's
  -- service whose labels name no active configuration.
  pub cleanup_orphaned_dns_endpoints-Spared :
      (services : List Service) (s : S) (w w' : World S) (k : NamespacedName)
      → env.client.services.list (record everything { has_labels = "istio" ∷ [] }) w.server
        ≡ (ok services, s)
      → cleanup_orphaned_dns_endpoints env configs w ≡ (ok tt, w')
      → Spared s w'.server k
  unfolding cleanup_orphaned_dns_endpoints
  cleanup_orphaned_dns_endpoints-Spared services s w w' k listed h =
      cleanup_namespaces-Spared (env.range.service_namespaces (service_namespaces services []))
        (record w { server = s }) w' k (rw listed at h)
