-- ===== src/Operator/Frames/Gateways.antt =====
-- The gateways' controller leaves the caches as they are
-- (internal/controller/routing/gateway_controller.go).
use service_router_operator.Base.{
  String, List, [], ◌∷◌, Option, none, some, Bool, false, ◌≡◌, refl, ◌∙◌, arith, inl, inr,
  Option-cases,
}
use service_router_operator.Api.{NamespacedName, IstioGateway}
use service_router_operator.Api
use service_router_operator.Client.{Env, World, Identity, Result, ok, err, chain}
use service_router_operator.Caches
use service_router_operator.Gateway.{
  update_status_active, update_status_pending, update_status_failed, validate_gateway,
  collect_hosts, check_dns_status, get_load_balancer_service, publish, reconcile,
}
use service_router_operator.Gateway.Istio.{
  generate_istio_gateway, reconcile_istio_gateway, delete_istio_gateway,
}
use service_router_operator.Operator.Frames.{Same, Same-chain, Keeps, fetch_identity-Same}

module _ {S : Type 0} (env : Env S) where
  pending-Same :
      (g : Api.Gateway) (reason message ip : String) (ready : Bool) (msg : String)
      → Keeps (update_status_pending env g reason message ip ready msg)
  unfolding update_status_pending
  pending-Same g reason message ip ready msg w = ground arith

  missing-Same :
      (g : Api.Gateway)
      → Keeps (
          update_status_pending env g Api.reason_cluster_identity_not_available
            "Waiting for ClusterIdentity to be configured" "" false "ClusterIdentity not available")
  missing-Same g = pending-Same g _ _ "" false _

  failed-Same :
      (g : Api.Gateway) (reason message : String)
      → Keeps (update_status_failed env g reason message)
  unfolding update_status_failed
  failed-Same g reason message w = ground arith

  active-Same :
      (g : Api.Gateway) (ip : String) (ready : Bool) (msg : String)
      → Keeps (update_status_active env g ip ready msg)
  unfolding update_status_active
  active-Same g ip ready msg w = ground arith

  hosts-Same : (g : Api.Gateway) (i : Option Identity) → Keeps (collect_hosts env g i)
  unfolding collect_hosts
  hosts-Same g i w = ground arith

  dns-Same : (g : Api.Gateway) → Keeps (check_dns_status env g)
  unfolding check_dns_status get_load_balancer_service
  dns-Same g w = ground arith

  delete-Same : (g : Api.Gateway) → Keeps (delete_istio_gateway env g)
  unfolding delete_istio_gateway
  delete-Same g w = ground arith

  istio-Same : (d : IstioGateway) → Keeps (reconcile_istio_gateway env d)
  unfolding reconcile_istio_gateway
  istio-Same d w = ground arith

  publish-Same :
      (g : Api.Gateway) (hosts : List String) (ip : String) (ready : Bool) (msg : String)
      → Keeps (publish env g hosts (ip, ready, msg))
  unfolding publish generate_istio_gateway
  publish-Same g [] ip ready msg w =
      Same-chain w (delete_istio_gateway env g w) _ (delete-Same g w)
        (λ _. pending-Same g _ _ ip ready msg)
  publish-Same g (h ∷ hs) ip ready msg w =
      Same-chain w (reconcile_istio_gateway env _ w) _ (istio-Same _ w)
        (λ _. active-Same g ip ready msg)

  module _ (req : NamespacedName) (w : World S) where
    -- With the identity, from the collection of the hosts on.
    identified-Same :
        (w₂ : World S) (g : Api.Gateway) (i : Identity) (s₁ : S)
        → env.client.gateways.get req w.server ≡ (ok g, s₁)
        → validate_gateway g ≡ none
        → Caches.Identity.fetch env (record w { server = s₁ }) ≡ (ok (some i), w₂)
        → Same w w₂
        → Same w (reconcile env req w).1
    unfolding reconcile
    identified-Same w₂ g i s₁ found valid fetched s =
        rw (reconcile, found)
          (rw (chain, valid)
            (rw (chain, fetched)
              (Same-chain w (collect_hosts env g (some i) w₂) _ (hosts-Same g (some i) w₂ ∙ s)
                (λ hosts w₃.
                  Same-chain w₃ (check_dns_status env g w₃) (λ status. publish env g hosts status)
                    (dns-Same g w₃) (λ status. publish-Same g hosts status.0 status.1 status.2)))))

    found-Same :
        (g : Api.Gateway) (s₁ : S)
        → env.client.gateways.get req w.server ≡ (ok g, s₁)
        → validate_gateway g ≡ none
        → Same w (reconcile env req w).1
    unfolding reconcile
    found-Same g s₁ found valid =
        go (Caches.Identity.fetch env w₁) refl (fetch_identity-Same env w₁)
      where
        w₁ : World S
        w₁ = record w { server = s₁ }

        go :
            (q : Result (Option Identity) × World S)
            → Caches.Identity.fetch env w₁ ≡ q
            → Same w q.1
            → Same w (reconcile env req w).1
        go (err x, w₂) e s =
            rw (reconcile, found) (rw (chain, valid) (rw (chain, e) (missing-Same g w₂ ∙ s)))
        go (ok none, w₂) e s =
            rw (reconcile, found) (rw (chain, valid) (rw (chain, e) (missing-Same g w₂ ∙ s)))
        go (ok (some i), w₂) e s = identified-Same w₂ g i s₁ found valid e s

  pub reconcile_gateway-Same : (req : NamespacedName) → Keeps (reconcile env req)
  unfolding reconcile
  reconcile_gateway-Same req w = go (env.client.gateways.get req w.server) refl
    where
      go :
          (q : Result Api.Gateway × S)
          → env.client.gateways.get req w.server ≡ q
          → Same w (reconcile env req w).1
      go (err x, s₁) e = rw (reconcile, e) (ground arith)
      go (ok g, s₁) e = elim (Option-cases (validate_gateway g)) [
        | inl valid ↦ found-Same req w g s₁ e valid
        | inr (message, bad) ↦
            rw (reconcile, e) (rw (chain, bad) (failed-Same g _ _ (record w { server = s₁ })))
      ]
