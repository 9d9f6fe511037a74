-- ===== src/Gateway/Progress.antt =====
-- That a reconciliation of a Gateway succeeds where the server is up
-- (internal/controller/routing/gateway_controller.go).
use service_router_operator.Base.{Option, Bool, true, ◌≡◌, string_eq}
use service_router_operator.Api.{NamespacedName, key_of, IstioGateway}
use service_router_operator.Api
use service_router_operator.Client.{
  Env, ok, IsStore, StoredIstioGateway, istio_gateway_kind, Answers,
}

module _ {S : Type 0} (env : Env S) (at : S → NamespacedName → Option StoredIstioGateway)
    (store : IsStore istio_gateway_kind env.client.istio_gateways at)
    {accepts : IstioGateway → Bool}
    (up : Answers istio_gateway_kind env.client.istio_gateways at accepts)
    -- Writing a Gateway's status succeeds.
    (writes : (g : Api.Gateway) (s : S) → (env.client.gateways.update_status g s).0 ≡ ok tt) where
  -- The server accepts the Istio Gateway, and what an update of the one at its key makes of that.
  abbrev pub Acceptable : IstioGateway → Type 0
  Acceptable d =
      (accepts d ≡ true)
      × ((old : IstioGateway)
          → key_of old.meta ≡ key_of d.meta
          → accepts (record { meta = record (old.meta) { labels = d.meta.labels }; spec = d.spec })
            ≡ true)
