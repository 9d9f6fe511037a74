-- ===== src/ServiceRoute/Removed.antt =====
-- What happens after a route was removed (internal/controller/routing/serviceroute_controller.go).
use service_router_operator.Base.{List, [], ◌∷◌, Option, true, ◌≡◌, ◌⊎◌, refl, inl, inr, ap}
use service_router_operator.Api.{NamespacedName, DnsEndpoint}
use service_router_operator.Client.{
  Env, World, ok, err, ApiError, is_not_found, done, ListOptions, ObjectClient, IsStore,
  StoredEndpoint, endpoint_kind, without_selected,
}
use service_router_operator.ServiceRoute.{reconcile}
use service_router_operator.ServiceRoute.Endpoints.{
  delete_loop, delete_dns_endpoints_for_service_route, route_selector,
}
use service_router_operator.ServiceRoute.Endpoints.Removal.{
  delete_dns_endpoints_for_service_route-at,
}

-- A server that is up, as far as a removal needs it: a list succeeds, and what a deletion does not delete
-- is not there.
pub record IsUp {S T : Type 0} (c : ObjectClient S T) : Type 0 where
  pub lists : (o : ListOptions) (s : S) → (xs : List T) × ((c.list o s).0 ≡ ok xs)
  pub deletes :
      (t : T) (s : S)
      → ((c.delete t s).0 ≡ ok tt)
        ⊎ ((e : ApiError) × ((c.delete t s).0 ≡ err e) × (is_not_found e ≡ true))

module _ {S : Type 0} (env : Env S) (up : IsUp env.client.dns_endpoints) where
  delete_loop-ok : (des : List DnsEndpoint) (w : World S) → (delete_loop env des w).0 ≡ ok tt
  unfolding delete_loop
  delete_loop-ok [] w = refl
  delete_loop-ok (de ∷ des) w =
      let w₁ : World S = record w { server = (env.client.dns_endpoints.delete de w.server).1 } in
      elim (up.deletes de w.server) [
        | inl e ↦ rw (delete_loop, e) (delete_loop-ok des w₁)
        | inr (x, e, gone) ↦ rw (delete_loop, e, gone) (delete_loop-ok des w₁)
      ]

  removal-ok :
      (key : NamespacedName) (w : World S)
      → (delete_dns_endpoints_for_service_route env key w).0 ≡ ok tt
  unfolding delete_dns_endpoints_for_service_route
  removal-ok key w =
      let (xs, e) = up.lists (route_selector key.namespace key) w.server in
      rw (delete_dns_endpoints_for_service_route, e) (delete_loop-ok xs _)

  module _ (at : S → NamespacedName → Option StoredEndpoint)
      (store : IsStore endpoint_kind env.client.dns_endpoints at) where
    -- Where only this process writes, reads see all earlier writes, and the server is up: the
    -- reconciliation of a route that is not found succeeds and asks for no other run, and of the
    -- endpoints in the route's namespace exactly those that carry its labels are gone; all others
    -- are as they were once it was not found.
    pub reconcile_removed :
        (req : NamespacedName) (w : World S) (e : ApiError) (s : S)
        → env.client.service_routes.get req w.server ≡ (err e, s)
        → is_not_found e ≡ true
        → (w' : World S) × (reconcile env req w ≡ (ok done, w'))
          × ((k : NamespacedName)
              → at w'.server k ≡ without_selected (route_selector req.namespace req) k (at s k))
    unfolding reconcile
    reconcile_removed req w e s missing gone =
        let w₁ : World S = record w { server = s } in
        let after : World S = (delete_dns_endpoints_for_service_route env req w₁).1 in
        let cleaned : delete_dns_endpoints_for_service_route env req w₁ ≡ (ok tt, after) =
          ap (λ r. (r, after)) (removal-ok req w₁) in
        (
          after,
          rw (reconcile, missing, gone, cleaned) refl,
          λ k. delete_dns_endpoints_for_service_route-at env at store req w₁ after k cleaned,
        )
