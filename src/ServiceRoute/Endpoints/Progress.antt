-- ===== src/ServiceRoute/Endpoints/Progress.antt =====
-- That `reconcileDNSEndpoints` succeeds where the server is up
-- (internal/controller/routing/serviceroute_controller.go).
use mathlib.Core.List.Perm
use text.Mathlib.TextEquality.{IsScalar-prop}
use service_router_operator.Base.{
  String, List, [], ◌∷◌, Bool, true, false, ◌||◌, Option, none, is_some, ◌≡◌, refl, sym, ◌∙◌, ap,
  inl, inr, arith, any, All, All-perm, All-map, ◌==◌, Option-cases, string_eq, lookup, keys,
  distinct-perm, keys-perm,
}
use service_router_operator.Api.{NamespacedName, names_Eq, key_of, DnsEndpoint, ServiceRoute}
use service_router_operator.Client.{
  Answers, Env, World, ok, IsStore, IsMapOrder, StoredEndpoint, endpoint_kind, without_selected,
  without_listed,
}
use service_router_operator.ServiceRoute.Endpoints.{
  endpoint_key, endpoint_map, create_or_update_loop, delete_stale_loop, list_existing,
  reconcile_dns_endpoints,
}
use service_router_operator.ServiceRoute.Endpoints.Keys.{
  text_key, IsEntry, contains-endpoint_map, All-IsEntry-perm, All-endpoint_map,
  distinct-endpoint_map,
}
use service_router_operator.ServiceRoute.Endpoints.Loops.{
  is_some-lookup, kept_as, Acceptable, Ready, Present, create_or_update_loop-ok,
  delete_stale_loop-ok,
}
use service_router_operator.ServiceRoute.Endpoints.Convergence.{
  Converged, known, created-Looped, desired_lookup, own_namespace,
  reconcile_dns_endpoints-Converged,
}
use service_router_operator.ServiceRoute.Endpoints.Listed.{
  AllIn-IsEntry, lookup-endpoint_map, Known-IsEntry, AllIn, any-text_key, Known, Known-listed,
  AllIn-Known, Known-lookup, selector,
}

module _ {S : Type 0} (env : Env S) (at : S → NamespacedName → Option StoredEndpoint)
    (store : IsStore endpoint_kind env.client.dns_endpoints at) {accepts : DnsEndpoint → Bool}
    (up : Answers endpoint_kind env.client.dns_endpoints at accepts) (order : IsMapOrder env.range)
    (route : ServiceRoute) where
  -- Nothing stands at the endpoint's key, or an endpoint of the route; and the server accepts it.
  abbrev pub Writable : S → DnsEndpoint → Type 0
  Writable s d =
      (without_selected (selector env at store route) (key_of d.meta) (at s (key_of d.meta)) ≡ none)
      × Acceptable accepts d

  module _ (desired existing : List DnsEndpoint) (w w₁ : World S)
      (all_in : AllIn route.meta.namespace desired)
      (listed : env.client.dns_endpoints.list (selector env at store route) w.server
        ≡ (ok existing, w₁.server)) where
    all_known : All (λ e. Known (at w.server) route.meta.namespace (endpoint_key e, e)) existing
    all_known =
        Known-listed env at store route w.server existing
          (store.list_sound (selector env at store route) w.server w₁.server existing listed)

    still : (k : NamespacedName) → at w₁.server k ≡ at w.server k
    still k =
        ap (λ p. at p.1 k) (sym listed) ∙ store.list_same (selector env at store route) w.server k

    in_map :
        (k : NamespacedName)
        → k.namespace ≡ route.meta.namespace
        → is_some (lookup (text_key k) (endpoint_map existing []))
          ≡ any (λ e. key_of e.meta == k) existing
    in_map k kn =
        is_some-lookup (text_key k) (endpoint_map existing [])
        ∙ (contains-endpoint_map (text_key k) existing []
            ∙ any-text_key route.meta.namespace existing k
                (AllIn-Known env at store route w.server existing all_known) kn)

    all_entries : All (Known (at w.server) route.meta.namespace) (endpoint_map existing [])
    all_entries =
        known env at store order route desired existing w w₁ (key_of route.meta) all_in refl listed

    entries : All (IsEntry route.meta.namespace) (endpoint_map existing [])
    entries =
        Known-IsEntry (at w.server) route.meta.namespace (endpoint_map existing []) all_entries

    listed-Ready :
        (d : DnsEndpoint)
        → (d.meta.namespace ≡ route.meta.namespace) × Writable w.server d
        → Ready env at store up route.meta.namespace
            (endpoint_map existing [])
            entries
            w₁.server
            (endpoint_key d, d)
    listed-Ready d (dn, (free, accepted)) =
        elim (Option-cases (lookup (endpoint_key d) (endpoint_map existing []))) [
          | inr (old, found) ↦ (
            still (key_of d.meta)
                ∙ (Known-lookup env at store route w.server (endpoint_map existing [])
                      (key_of d.meta) old all_entries dn found
                    ∙ sym (ap kept_as found)),
            accepted,
          )
          | inl missing ↦
              let h : any (λ e. key_of e.meta == key_of d.meta) existing ≡ false =
                sym (in_map (key_of d.meta) dn) ∙ ap is_some missing in
              let left : at w.server (key_of d.meta) ≡ none = ground (
                arith,
                without_listed at store (selector env at store route) w.server w₁.server existing
                    (key_of d.meta) listed,
              ) in
              (still (key_of d.meta) ∙ (left ∙ sym (ap kept_as missing)), accepted)
        ]

    -- A listed endpoint that is not desired is there once the desired ones are written.
    written-Present :
        (w₂ : World S)
        → create_or_update_loop env
            (endpoint_map existing [])
            (env.range.desired (endpoint_map desired []))
            w₁
          ≡ (ok tt, w₂)
        → (old : DnsEndpoint) → Known (at w.server) route.meta.namespace (endpoint_key old, old)
        → (is_some (lookup (endpoint_key old) (endpoint_map desired []))
            || is_some (at w₂.server (key_of old.meta)))
          ≡ true
    written-Present w₂ created old (kept, (_, on)) =
        let k = key_of old.meta in
        elim (Option-cases (lookup (endpoint_key old) (endpoint_map desired []))) [
          | inr (d, e) ↦ rw e refl
          | inl e ↦
              let looped =
                created-Looped env at store order route desired existing w w₁ k all_in on listed w₂
                  created in
              let absent =
                desired_lookup env at store order route desired existing w w₁ k all_in on listed
                ∙ (sym (lookup-endpoint_map (endpoint_key old) desired) ∙ e) in
              rw (e, looped.0 absent, still k, kept) refl
        ]

    -- The two loops succeed.
    loops-ok :
        All (λ d. (d.meta.namespace ≡ route.meta.namespace) × Writable w.server d) desired
        → (w₂ w' : World S) × (create_or_update_loop env
              (endpoint_map existing [])
              (env.range.desired (endpoint_map desired []))
              w₁
            ≡ (ok tt, w₂))
          × (delete_stale_loop env
                (endpoint_map desired [])
                (env.range.existing (endpoint_map existing []))
                w₂
              ≡ (ok tt, w'))
    loops-ok free =
        let own = route.meta.namespace in
        let wanted = endpoint_map desired [] in
        let found = endpoint_map existing [] in
        let w₂ : World S = (create_or_update_loop env found (env.range.desired wanted) w₁).1 in
        let ready : All (Ready env at store up own found entries w₁.server) wanted =
          All-endpoint_map (Ready env at store up own found entries w₁.server) desired []
            (All-map listed-Ready desired free) tt in
        let created : create_or_update_loop env found (env.range.desired wanted) w₁ ≡ (ok tt, w₂) =
          ap (λ r. (r, w₂))
            (create_or_update_loop-ok env at store up own found entries (env.range.desired wanted)
              w₁
              (All-IsEntry-perm own wanted (env.range.desired wanted)
                (Perm.symm (order.desired wanted))
                (All-endpoint_map (IsEntry own) desired [] (AllIn-IsEntry own desired all_in) tt))
              (distinct-perm (keys (env.range.desired wanted)) (keys wanted)
                  (keys-perm (env.range.desired wanted) wanted (order.desired wanted))
                ∙ distinct-endpoint_map desired [] refl)
              (All-perm (Ready env at store up own found entries w₁.server)
                (λ en. hlevel IsScalar-prop) wanted (env.range.desired wanted)
                (Perm.symm (order.desired wanted)) ready)) in
        let present : All (Present env at store up own wanted w₂.server) found =
          All-endpoint_map (Present env at store up own wanted w₂.server) existing []
            (All-map (written-Present w₂ created) existing all_known) tt in
        (
          w₂,
          (delete_stale_loop env wanted (env.range.existing found) w₂).1,
          created,
          ap (λ r. (r, (delete_stale_loop env wanted (env.range.existing found) w₂).1))
              (delete_stale_loop-ok env at store up own wanted (env.range.existing found) w₂
                (All-IsEntry-perm own found (env.range.existing found)
                  (Perm.symm (order.existing found)) entries)
                (distinct-perm (keys (env.range.existing found)) (keys found)
                    (keys-perm (env.range.existing found) found (order.existing found))
                  ∙ distinct-endpoint_map existing [] refl)
                (All-perm (Present env at store up own wanted w₂.server) (λ en. hlevel) found
                  (env.range.existing found) (Perm.symm (order.existing found)) present)),
        )

  -- Where only this process writes and reads see all earlier writes, the server is up, and whatever
  -- the order in which the maps are visited: the endpoints of a route are reconciled with success
  -- to desired ones in its namespace, at least one, if the server's validation accepts them, and
  -- the update of what is at their key to them, and at their keys stands nothing else than
  -- endpoints of the route. In that namespace then each desired endpoint has its desired spec (the
  -- last one of a name), exactly the others that carry the route's labels are gone, and the rest
  -- are as they were.
  pub reconcile_dns_endpoints_succeeds :
      (d : DnsEndpoint) (ds : List DnsEndpoint) (w : World S)
      → All (λ e. (e.meta.namespace ≡ route.meta.namespace) × Writable w.server e) (d ∷ ds)
      → (w' : World S) × (reconcile_dns_endpoints env route (d ∷ ds) w ≡ (ok tt, w'))
        × ((name : String)
            → Converged env at store order route
                (d ∷ ds)
                w.server
                w'.server
                (record { name = name; namespace = route.meta.namespace }))
  unfolding reconcile_dns_endpoints list_existing
  reconcile_dns_endpoints_succeeds d ds w free =
      let all_in = All-map (λ _ p. p.0) (d ∷ ds) free in
      let (existing, e) = up.lists (selector env at store route) w.server in
      let s₁ = (env.client.dns_endpoints.list (selector env at store route) w.server).1 in
      let w₁ : World S = record w { server = s₁ } in
      let listed : env.client.dns_endpoints.list (selector env at store route) w.server
          ≡ (ok existing, s₁) =
        ap (λ r. (r, s₁)) e in
      let (w₂, w', created, deleted) = loops-ok (d ∷ ds) existing w w₁ all_in listed free in
      let success : reconcile_dns_endpoints env route (d ∷ ds) w ≡ (ok tt, w') =
        rw
          (
            reconcile_dns_endpoints,
            own_namespace env at store order route d ds all_in,
            list_existing,
            e,
            created,
          )
          deleted in
      (
        w',
        success,
        λ name.
            reconcile_dns_endpoints-Converged env at store order route d ds w w' _ all_in success
              refl,
      )
