-- ===== src/ServiceRoute/Endpoints/Again.antt =====
-- That a second reconciliation of a route's endpoints leaves the specs in the route's namespace
-- as they are (internal/controller/routing/serviceroute_controller.go).
use service_router_operator.Base.{
  List, ◌∷◌, Option, none, some, ◌≡◌, refl, sym, ◌∙◌, ap, inl, inr, Option-cases, Bool-cases,
}
use service_router_operator.Api.{NamespacedName, key_of, DnsEndpoint, ServiceRoute}
use service_router_operator.Client.{
  Env, World, ok, IsStore, IsMapOrder, StoredEndpoint, endpoint_kind, ListOptions, selects,
  without_selected,
}
use service_router_operator.ServiceRoute.Endpoints.{reconcile_dns_endpoints, route_selector}
use service_router_operator.ServiceRoute.Endpoints.Keys.{text_key}
use service_router_operator.ServiceRoute.Endpoints.Listed.{AllIn, last_of}
use service_router_operator.ServiceRoute.Endpoints.Write.{spec_of}
use service_router_operator.ServiceRoute.Endpoints.Convergence.{
  Converged, reconcile_dns_endpoints-Converged,
}

without_selected_twice :
    (o : ListOptions) (k : NamespacedName) (v : Option StoredEndpoint)
    → without_selected o k (without_selected o k v) ≡ without_selected o k v
without_selected_twice o k none = refl
without_selected_twice o k (some v) = elim (Bool-cases (selects o k v.labels)) [
  | inl chosen ↦ rw chosen refl
  | inr kept ↦ rw kept (rw kept refl)
]

module _ {S : Type 0} (env : Env S) (at : S → NamespacedName → Option StoredEndpoint)
    (store : IsStore endpoint_kind env.client.dns_endpoints at) (order : IsMapOrder env.range)
    (route : ServiceRoute) where
  -- What is settled, and settled once more, has the specs that it had.
  settled_again :
      (es : List DnsEndpoint) (s s₁ s₂ : S) (k : NamespacedName)
      → Converged env at store order route es s s₁ k
      → Converged env at store order route es s₁ s₂ k
      → spec_of (at s₂ k) ≡ spec_of (at s₁ k)
  settled_again es s s₁ s₂ k first second = elim (Option-cases (last_of (text_key k) es)) [
    | inr (d, e) ↦ (rw e at second) ∙ sym (rw e at first)
    | inl e ↦
        let o = route_selector route.meta.namespace (key_of route.meta) in
        let once = rw e at first in
        ap spec_of (
          (rw e at second)
          ∙ (ap (without_selected o k) once ∙ (without_selected_twice o k (at s k) ∙ sym once)))
  ]

  -- Where only this process writes and reads see all earlier writes, and whatever the order in
  -- which the maps are visited: when the endpoints of a route have been reconciled with success to
  -- desired ones in its namespace, at least one, and are so once more, the second run creates and
  -- removes none in that namespace, and changes no spec there.
  pub reconcile_dns_endpoints_again :
      (d : DnsEndpoint) (ds : List DnsEndpoint) (w w₁ w₂ : World S) (k : NamespacedName)
      → AllIn route.meta.namespace (d ∷ ds)
      → reconcile_dns_endpoints env route (d ∷ ds) w ≡ (ok tt, w₁)
      → reconcile_dns_endpoints env route (d ∷ ds) w₁ ≡ (ok tt, w₂)
      → k.namespace ≡ route.meta.namespace
      → spec_of (at w₂.server k) ≡ spec_of (at w₁.server k)
  reconcile_dns_endpoints_again d ds w w₁ w₂ k all_in first second kn =
      settled_again (d ∷ ds) w.server w₁.server w₂.server k
        (reconcile_dns_endpoints-Converged env at store order route d ds w w₁ k all_in first kn)
        (reconcile_dns_endpoints-Converged env at store order route d ds w₁ w₂ k all_in second kn)
