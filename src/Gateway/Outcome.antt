-- ===== src/Gateway/Outcome.antt =====
-- What a reconciliation of a Gateway leaves of its Istio Gateway
-- (internal/controller/routing/gateway_controller.go).
use service_router_operator.Base.{
  String, List, [], ◌∷◌, Option, none, some, Bool, true, ◌==◌, ◌≡◌, refl, sym, ◌∙◌, ap, any,
  contains, distinct, Bool-cases, inl, inr, if◌then◌else◌, string_eq,
}
use service_router_operator.Api.{
  NamespacedName, names_Eq, key_of, IstioGateway, ServiceRoute, Service,
}
use service_router_operator.Api
use service_router_operator.Client.{
  Env, World, Identity, ok, call, finish, everything, ReconcileResult, ListOptions, IsStore,
  IsMapOrder, StoredIstioGateway, istio_gateway_kind, chain, chain-eq-ok, Result-cases,
  finish_server,
}
use service_router_operator.ClusterIdentity.Cached.{fetch-cached}
use service_router_operator.Gateway.{
  validate_gateway, check_dns_status, get_load_balancer_service, publish, reconcile,
  update_status_active, update_status_pending, active_status, after_update,
}
use service_router_operator.Gateway.Hosts.{gives_host, collect_hosts_lem}
use service_router_operator.Gateway.Istio.{
  generate_istio_gateway, reconcile_istio_gateway, delete_istio_gateway,
}
use service_router_operator.Gateway.Istio.Applied.{Applied, reconcile_istio_gateway-Applied}
use service_router_operator.Gateway.Istio.Steady.{delete_istio_gateway-at}

-- The other calls of the reconciliation change no Istio Gateway.
pub record IsQuiet {S : Type 0} (env : Env S) (at : S → NamespacedName → Option StoredIstioGateway)
    : Type 0 where
  pub get_gateway :
      (j : NamespacedName) (s : S) (k : NamespacedName)
      → at (env.client.gateways.get j s).1 k ≡ at s k
  pub list_routes :
      (o : ListOptions) (s : S) (k : NamespacedName)
      → at (env.client.service_routes.list o s).1 k ≡ at s k
  pub list_services :
      (o : ListOptions) (s : S) (k : NamespacedName)
      → at (env.client.services.list o s).1 k ≡ at s k
  pub update_status :
      (g : Api.Gateway) (s : S) (k : NamespacedName)
      → at (env.client.gateways.update_status g s).1 k ≡ at s k

module _ {S : Type 0} (env : Env S) (at : S → NamespacedName → Option StoredIstioGateway)
    (store : IsStore istio_gateway_kind env.client.istio_gateways at) (order : IsMapOrder env.range)
    (quiet : IsQuiet env at) where
  -- With hosts there is, at the gateway's key, an Istio Gateway that agrees with the one of the hosts;
  -- without, there is none.
  -- Elsewhere is what was there.
  abbrev pub Exposed : Api.Gateway → List String → S → S → NamespacedName → Type 0
  Exposed gateway [] s s' k = at s' k ≡ (if key_of gateway.meta == k then none else at s k)
  Exposed gateway (h ∷ hs) s s' k =
      (desired : IstioGateway) × (generate_istio_gateway env gateway (h ∷ hs) ≡ ok desired)
      × Applied env at store desired s s' k

  Applied-same :
      (desired : IstioGateway) (s t s' t' : S) (k : NamespacedName)
      → at s k ≡ at t k
      → at t' k ≡ at s' k
      → Applied env at store desired s s' k
      → Applied env at store desired t t' k
  Applied-same desired s t s' t' k e e' a = elim (Bool-cases (key_of desired.meta == k)) [
    | inl here ↦ let (v, kept, fresh) = rw here at a in rw here (v, e' ∙ kept, fresh)
    | inr there ↦ rw there (e' ∙ ((rw there at a) ∙ e))
  ]

  Exposed-same :
      (gateway : Api.Gateway) (hosts : List String) (s t s' t' : S) (k : NamespacedName)
      → at s k ≡ at t k
      → at t' k ≡ at s' k
      → Exposed gateway hosts s s' k
      → Exposed gateway hosts t t' k
  Exposed-same gateway [] s t s' t' k e e' a =
      e' ∙ (a ∙ ap (λ o. if key_of gateway.meta == k then none else o) e)
  Exposed-same gateway (h ∷ hs) s t s' t' k e e' (desired, g, a) =
      (desired, g, Applied-same desired s t s' t' k e e' a)

  status-at :
      (g : Api.Gateway) (answer result : ReconcileResult) (w w' : World S) (k : NamespacedName)
      → finish (call (env.client.gateways.update_status g)) answer w ≡ (ok result, w')
      → at w'.server k ≡ at w.server k
  status-at g answer result w w' k h =
      ap (λ p. at p.1.server k) (sym h)
      ∙ (ap (λ v. at v.server k)
            (finish_server (call (env.client.gateways.update_status g)) answer w)
          ∙ quiet.update_status g w.server k)

  publish-Exposed :
      (gateway : Api.Gateway) (hosts : List String) (ip : String) (ready : Bool) (msg : String)
      (w w' : World S) (result : ReconcileResult) (k : NamespacedName)
      → distinct hosts ≡ true
      → publish env gateway hosts (ip, ready, msg) w ≡ (ok result, w')
      → Exposed gateway hosts w.server w'.server k
  unfolding publish update_status_pending update_status_active generate_istio_gateway
  publish-Exposed gateway [] ip ready msg w w' result k once h =
      let (_, w₁, removed, reported) = chain-eq-ok (delete_istio_gateway env gateway w) _ h in
      Exposed-same gateway [] w.server w.server w₁.server w'.server k refl
        (status-at _ _ result w₁ w' k reported)
        (delete_istio_gateway-at env at store gateway w w₁ k removed)
  publish-Exposed gateway (x ∷ xs) ip ready msg w w' result k once h =
      let (_, w₁, applied, reported) = chain-eq-ok (reconcile_istio_gateway env _ w) _ h in
      Exposed-same gateway (x ∷ xs) w.server w.server w₁.server w'.server k refl
        (status-at (active_status env gateway ip ready msg) (after_update env ready) result w₁ w' k
          reported)
        (
          _,
          refl,
          reconcile_istio_gateway-Applied env at store gateway (x ∷ xs) _ refl once w w₁ k applied,
        )

  check_dns_status-at :
      (gateway : Api.Gateway) (w : World S) (k : NamespacedName)
      → at (check_dns_status env gateway w).1.server k ≡ at w.server k
  unfolding check_dns_status
  check_dns_status-at gateway w k =
      let o : ListOptions = record everything {
        matching_labels = ("istio", gateway.spec.controller) ∷ [];
      } in
      elim (Result-cases (env.client.services.list o w.server).0) [
        | inl (_, e) ↦ rw (get_load_balancer_service, e) (quiet.list_services o w.server k)
        | inr (_, e) ↦ rw (get_load_balancer_service, e) (quiet.list_services o w.server k)
      ]

  -- Where only this process writes Istio Gateways and reads see all earlier writes, whatever the
  -- order in which the map of hosts is visited: when a valid Gateway is found, an identity is
  -- cached and the routes can be listed, and the Gateway's reconciliation succeeds, then the hosts
  -- are those of the listed routes that use it; with hosts there is, at the Gateway's key, an Istio
  -- Gateway of one server with exactly these, in any order, that agrees with the generated one in
  -- selector, labels and TLS settings; and without hosts there is none; elsewhere is what was there.
  pub reconcile-Exposed :
      (req : NamespacedName) (w w' : World S) (result : ReconcileResult) (gateway : Api.Gateway)
      (identity : Identity) (routes : List ServiceRoute) (s₁ s₂ : S) (k : NamespacedName)
      → env.client.gateways.get req w.server ≡ (ok gateway, s₁)
      → validate_gateway gateway ≡ none
      → w.identity_cache ≡ some identity
      → env.client.service_routes.list everything s₁ ≡ (ok routes, s₂)
      → reconcile env req w ≡ (ok result, w')
      → (hosts : List String) × ((host : String)
          → contains host hosts
            ≡ any (gives_host env.default_router_gateway_namespace gateway identity host) routes)
        × Exposed gateway hosts w.server w'.server k
  unfolding reconcile
  reconcile-Exposed req w w' result gateway identity routes s₁ s₂ k found valid cached listed h =
      let w₁ : World S = record w { server = s₁ } in
      let w₂ : World S = record w { server = s₂ } in
      let (hosts, collected, once, members) =
        collect_hosts_lem env gateway identity w₁ s₂ routes order listed in
      let (status, w₃, dns, published) =
        chain-eq-ok (check_dns_status env gateway w₂) (λ status. publish env gateway hosts status)
          (rw (chain, fetch-cached env w₁ identity cached, collected) at
            (rw (chain, valid) at (rw (reconcile, found) at h))) in
      (
        hosts,
        members,
        Exposed-same gateway hosts w₃.server w.server w'.server w'.server k
            (ap (λ p. at p.1.server k) (sym dns)
              ∙ (check_dns_status-at gateway w₂ k
                  ∙ (ap (λ p. at p.1 k) (sym listed)
                      ∙ (quiet.list_routes everything s₁ k
                          ∙ (ap (λ p. at p.1 k) (sym found) ∙ quiet.get_gateway req w.server k)))))
            refl
            (publish-Exposed gateway hosts status.0 status.1 status.2 w₃ w' result k once
              published),
      )
