-- ===== src/ServiceRoute/Endpoints/Removal.antt =====
-- What `deleteDNSEndpointsForServiceRoute` leaves on the server
-- (internal/controller/routing/serviceroute_controller.go).
use service_router_operator.Base.{
  List, [], ◌∷◌, Option, none, ◌≡◌, refl, sym, ◌∙◌, ap, inl, inr, arith, any, ◌==◌, if◌then◌else◌,
  Bool-cases, string_eq,
}
use service_router_operator.Api.{NamespacedName, names_Eq, key_of, DnsEndpoint}
use service_router_operator.Client.{
  Env, World, Result, ok, err, is_not_found, call, IsStore, StoredEndpoint, without_listed,
  endpoint_kind, chain-eq-ok, call-eq, without_selected,
}
use service_router_operator.ServiceRoute.Endpoints.{
  route_selector, delete_loop, delete_dns_endpoints_for_service_route,
}

module _ {S : Type 0} (env : Env S) (at : S → NamespacedName → Option StoredEndpoint)
    (store : IsStore endpoint_kind env.client.dns_endpoints at) where
  delete_loop-at :
      (des : List DnsEndpoint) (w w' : World S) (k : NamespacedName)
      → delete_loop env des w ≡ (ok tt, w')
      → at w'.server k ≡ (if any (λ e. key_of e.meta == k) des then none else at w.server k)
  unfolding delete_loop
  delete_loop-at [] w w' k h = ground arith
  delete_loop-at (de ∷ des) w w' k h =
      step (λ w₁. delete_loop-at des w₁ w' k) (env.client.dns_endpoints.delete de w.server) refl
    where
      step :
          ((w₁ : World S)
            → delete_loop env des w₁ ≡ (ok tt, w')
            → at w'.server k ≡ (if any (λ e. key_of e.meta == k) des then none else at w₁.server k))
          → (p : Result (Unit {0}) × S) → env.client.dns_endpoints.delete de w.server ≡ p
          → at w'.server k
            ≡ (if any (λ e. key_of e.meta == k) (de ∷ des) then none else at w.server k)
      step ih (ok _, s) e =
          let h' : delete_loop env des (record w { server = s }) ≡ (ok tt, w') = rw e at h in
          ground (arith, ih (record w { server = s }) h', store.delete_ok de w.server s k e)
      step ih (err x, s) e = elim (Bool-cases (is_not_found x)) [
        | inl gone ↦
            let h' : delete_loop env des (record w { server = s }) ≡ (ok tt, w') =
              rw (e, gone) at h in
            ground (
              arith,
              ih (record w { server = s }) h',
              store.delete_not_found de w.server s x k e gone,
              names_Eq.test_iff (key_of de.meta) k,
            )
        | inr kept ↦ cc (rw (e, kept) at h)
      ]

  -- Where only this process writes and reads see all earlier writes: when the removal of a route's
  -- endpoints succeeds, exactly the endpoints of the route's namespace that carry its labels are
  -- gone; all others are as they were.
  pub delete_dns_endpoints_for_service_route-at :
      (key : NamespacedName) (w w' : World S) (k : NamespacedName)
      → delete_dns_endpoints_for_service_route env key w ≡ (ok tt, w')
      → at w'.server k ≡ without_selected (route_selector key.namespace key) k (at w.server k)
  unfolding delete_dns_endpoints_for_service_route
  delete_dns_endpoints_for_service_route-at key w w' k h =
      let o = route_selector key.namespace key in
      let (items, w₁, listed, deleted) =
        chain-eq-ok (call (env.client.dns_endpoints.list o) w) (delete_loop env) h in
      let from_server = call-eq (env.client.dns_endpoints.list o) w listed in
      delete_loop-at items w₁ w' k deleted
      ∙ rw (ap (λ p. at p.1 k) (sym from_server) ∙ store.list_same o w.server k)
          (without_listed at store o w.server w₁.server items k from_server)
