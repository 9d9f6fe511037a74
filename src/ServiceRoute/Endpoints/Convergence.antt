-- ===== src/ServiceRoute/Endpoints/Convergence.antt =====
-- What `reconcileDNSEndpoints` leaves on the server
-- (internal/controller/routing/serviceroute_controller.go).
use mathlib.Core.List.{Perm}
use mathlib.Core.List.Perm
use service_router_operator.Base.{
  String, List, [], ◌∷◌, Option, none, some, ◌≡◌, refl, sym, ◌∙◌, ap, subst, arith, any, All, ◌==◌,
  if◌then◌else◌, Option-cases, inl, inr, string_eq, lookup, lookup-perm, keys, contains,
  distinct-perm, keys-perm, any-perm, perm_singleton,
}
use service_router_operator.Api.{NamespacedName, names_Eq, key_of, DnsEndpoint, ServiceRoute}
use service_router_operator.Client.{
  Env, World, ok, IsStore, IsMapOrder, StoredEndpoint, endpoint_kind, chain-eq-ok, without_selected,
  without_listed,
}
use service_router_operator.ServiceRoute.Endpoints.{
  endpoint_map, namespace_set, route_selector, list_existing, create_or_update_loop,
  delete_stale_loop, reconcile_dns_endpoints,
}
use service_router_operator.ServiceRoute.Endpoints.Keys.{
  text_key, IsEntry, All-IsEntry-perm, All-endpoint_map, distinct-endpoint_map,
  contains-endpoint_map, DnsEndpoint-set,
}
use service_router_operator.ServiceRoute.Endpoints.Write.{spec_of, Looped, create_or_update_loop-at}
use service_router_operator.ServiceRoute.Endpoints.Stale.{is_stale, delete_stale_loop-at}
use service_router_operator.ServiceRoute.Endpoints.Listed.{
  last_of, lookup-endpoint_map, AllIn, namespace_set_one, AllIn-IsEntry, any-text_key, Known,
  Known-IsEntry, selector, list_existing_one, Known-listed, AllIn-Known, Known-lookup,
}

module _ {S : Type 0} (env : Env S) (at : S → NamespacedName → Option StoredEndpoint)
    (store : IsStore endpoint_kind env.client.dns_endpoints at) (order : IsMapOrder env.range)
    (route : ServiceRoute) where
  -- What the two loops leave at a key, once the endpoints are listed.
  module _ (desired existing : List DnsEndpoint) (w w₁ : World S) (k : NamespacedName)
      (all_in : AllIn route.meta.namespace desired) (kn : k.namespace ≡ route.meta.namespace)
      (listed : env.client.dns_endpoints.list (selector env at store route) w.server
        ≡ (ok existing, w₁.server)) where
    abbrev desired_map : List (String × DnsEndpoint)
    desired_map = endpoint_map desired []

    abbrev existing_map : List (String × DnsEndpoint)
    existing_map = endpoint_map existing []

    pub known : All (Known (at w.server) route.meta.namespace) existing_map
    known =
        All-endpoint_map (Known (at w.server) route.meta.namespace) existing []
          (Known-listed env at store route w.server existing
            (store.list_sound (selector env at store route) w.server w₁.server existing listed))
          tt

    same_at : at w₁.server k ≡ at w.server k
    same_at =
        ap (λ p. at p.1 k) (sym listed) ∙ store.list_same (selector env at store route) w.server k

    pub desired_lookup :
        lookup (text_key k) (env.range.desired desired_map) ≡ last_of (text_key k) desired
    desired_lookup =
        lookup-perm DnsEndpoint-set (text_key k) (env.range.desired desired_map) desired_map
          (order.desired desired_map)
          (distinct-perm (keys (env.range.desired desired_map)) (keys desired_map)
              (keys-perm (env.range.desired desired_map) desired_map (order.desired desired_map))
            ∙ distinct-endpoint_map desired [] refl)
        ∙ lookup-endpoint_map (text_key k) desired

    existing_contains :
        contains (text_key k) (keys (env.range.existing existing_map))
        ≡ any (λ e. key_of e.meta == k) existing
    existing_contains =
        any-perm (λ t. t == text_key k) (keys (env.range.existing existing_map)) (keys existing_map)
          (keys-perm (env.range.existing existing_map) existing_map (order.existing existing_map))
        ∙ (contains-endpoint_map (text_key k) existing []
            ∙ any-text_key route.meta.namespace existing k
                (AllIn-Known env at store route w.server existing (
                  Known-listed env at store route w.server existing (
                    store.list_sound (selector env at store route) w.server w₁.server existing
                      listed)))
                kn)

    pub created-Looped :
        (w₂ : World S)
        → create_or_update_loop env existing_map (env.range.desired desired_map) w₁ ≡ (ok tt, w₂)
        → Looped env at store route.meta.namespace existing_map
            (Known-IsEntry (at w.server) route.meta.namespace existing_map known)
            (env.range.desired desired_map)
            w₁.server
            w₂.server
            k
    created-Looped w₂ created =
        create_or_update_loop-at env at store route.meta.namespace existing_map
          (Known-IsEntry (at w.server) route.meta.namespace existing_map known)
          (env.range.desired desired_map) w₁ w₂ k
          (All-IsEntry-perm route.meta.namespace desired_map (env.range.desired desired_map)
            (Perm.symm (order.desired desired_map))
            (All-endpoint_map (IsEntry route.meta.namespace) desired []
              (AllIn-IsEntry route.meta.namespace desired all_in) tt))
          (distinct-perm (keys (env.range.desired desired_map)) (keys desired_map)
              (keys-perm (env.range.desired desired_map) desired_map (order.desired desired_map))
            ∙ distinct-endpoint_map desired [] refl)
          kn
          (λ _ old found.
            same_at ∙ Known-lookup env at store route w.server existing_map k old known kn found)
          created

    deleted_at :
        (w₂ w' : World S)
        → delete_stale_loop env desired_map (env.range.existing existing_map) w₂ ≡ (ok tt, w')
        → at w'.server k ≡ (
            if is_stale desired_map (env.range.existing existing_map) (text_key k)
            then none
            else at w₂.server k)
    deleted_at w₂ w' deleted =
        delete_stale_loop-at env at store route.meta.namespace desired_map
          (env.range.existing existing_map) w₂ w' k
          (All-IsEntry-perm route.meta.namespace existing_map (env.range.existing existing_map)
            (Perm.symm (order.existing existing_map))
            (Known-IsEntry (at w.server) route.meta.namespace existing_map known))
          kn deleted

  -- What is left at a key after a success: the desired spec where an endpoint is desired; elsewhere
  -- what was there, without the endpoints that carry the route's labels.
  abbrev Settled : Option DnsEndpoint → S → S → NamespacedName → Type 0
  Settled (some d) s s' k = spec_of (at s' k) ≡ some d.spec
  Settled none s s' k =
      at s' k
      ≡ without_selected (route_selector route.meta.namespace (key_of route.meta)) k (at s k)

  abbrev pub Converged : List DnsEndpoint → S → S → NamespacedName → Type 0
  Converged desired s s' k = Settled (last_of (text_key k) desired) s s' k

  loops-Converged :
      (desired existing : List DnsEndpoint) (w w₁ w₂ w' : World S) (k : NamespacedName)
      → AllIn route.meta.namespace desired
      → k.namespace ≡ route.meta.namespace
      → env.client.dns_endpoints.list (selector env at store route) w.server
        ≡ (ok existing, w₁.server)
      → create_or_update_loop env
          (endpoint_map existing [])
          (env.range.desired (endpoint_map desired []))
          w₁
        ≡ (ok tt, w₂)
      → delete_stale_loop env
          (endpoint_map desired [])
          (env.range.existing (endpoint_map existing []))
          w₂
        ≡ (ok tt, w')
      → Converged desired w.server w'.server k
  loops-Converged desired existing w w₁ w₂ w' k all_in kn listed created deleted =
      let in_desired = desired_lookup desired existing w w₁ k all_in kn listed in
      let looped = created-Looped desired existing w w₁ k all_in kn listed w₂ created in
      let after = deleted_at desired existing w w₁ k all_in kn listed w₂ w' deleted in
      let plain = lookup-endpoint_map (text_key k) desired in
      elim (Option-cases (last_of (text_key k) desired)) [
        | inr (d, e) ↦
            rw e (ap spec_of (after ∙ ground (arith, plain, e)) ∙ looped.1 d (in_desired ∙ e))
        | inl e ↦ rw e (
            after
            ∙ ground (
              arith,
              plain,
              e,
              existing_contains desired existing w w₁ k all_in kn listed,
              looped.0 (in_desired ∙ e),
              same_at desired existing w w₁ k all_in kn listed,
              without_listed at store (selector env at store route) w.server w₁.server existing k
                  listed,
            ))
      ]

  -- Endpoints in the route's namespace are looked for there only.
  pub own_namespace :
      (d : DnsEndpoint) (ds : List DnsEndpoint)
      → AllIn route.meta.namespace (d ∷ ds)
      → env.range.namespaces (namespace_set (d ∷ ds) []) ≡ route.meta.namespace ∷ []
  own_namespace d ds all_in =
      perm_singleton (env.range.namespaces (namespace_set (d ∷ ds) [])) route.meta.namespace (
        subst (λ ns. Perm (env.range.namespaces (namespace_set (d ∷ ds) [])) ns)
          (namespace_set_one route.meta.namespace d ds all_in)
          (order.namespaces (namespace_set (d ∷ ds) [])))

  -- Where only this process writes and reads see all earlier writes, and whatever the order in
  -- which the maps are visited: when the endpoints of a route are reconciled to desired ones in its
  -- namespace, at least one, and this succeeds, then in that namespace each desired endpoint is
  -- there with its desired spec (the last one, where several have one name); and of all others
  -- exactly those that carry the route's labels are gone, and the rest are as they were.
  pub reconcile_dns_endpoints-Converged :
      (d : DnsEndpoint) (ds : List DnsEndpoint) (w w' : World S) (k : NamespacedName)
      → AllIn route.meta.namespace (d ∷ ds)
      → reconcile_dns_endpoints env route (d ∷ ds) w ≡ (ok tt, w')
      → k.namespace ≡ route.meta.namespace
      → Converged (d ∷ ds) w.server w'.server k
  unfolding reconcile_dns_endpoints
  reconcile_dns_endpoints-Converged d ds w w' k all_in h kn =
      let (existing, w₁, listing, writes) =
        chain-eq-ok
          (list_existing env route (env.range.namespaces (namespace_set (d ∷ ds) [])) [] w) _ h in
      let listed = list_existing_one env at store route w w₁ existing (
        subst (λ ns. list_existing env route ns [] w ≡ (ok existing, w₁))
          (own_namespace d ds all_in) listing) in
      let (_, w₂, created, deleted) =
        chain-eq-ok
          (create_or_update_loop env (endpoint_map existing [])
            (env.range.desired (endpoint_map (d ∷ ds) [])) w₁)
          _ writes in
      loops-Converged (d ∷ ds) existing w w₁ w₂ w' k all_in kn listed created deleted
