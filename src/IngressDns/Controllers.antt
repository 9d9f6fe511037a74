-- ===== src/IngressDns/Controllers.antt =====
-- What the loop over the controllers leaves on the server
-- (internal/controller/routing/ingressdns_controller.go).
use service_router_operator.Base.{
  String, List, [], ◌∷◌, Option, some, Bool, true, false, ◌||◌, ◌==◌, ◌≡◌, ◌≢◌, refl, sym, ◌∙◌, ap,
  subst, arith, any, string_eq, beq_refl,
}
use service_router_operator.Api.{NamespacedName, names_Eq, key_of, ExternalDnsController, Service}
use service_router_operator.Client.{
  Env, World, ok, IsStore, StoredEndpoint, endpoint_kind, chain-eq-ok, everything, Identity,
  DnsConfig,
}
use service_router_operator.IngressDns.{
  needs_update, first_load_balancer, target_host, desired_endpoint, apply_endpoint,
  apply_controllers, get_load_balancer_service, reconcile_dns_endpoints_for_config,
}
use service_router_operator.IngressDns.Records.{
  AllAddresses, KeepsAddresses, Resolves, Resolves-KeepsAddresses, Written, apply_endpoint-Written,
}

desired-needs_update :
    (controller postfix : String) (identity : Identity) (svc : Service) (ip : String)
    (c : ExternalDnsController)
    → needs_update ip
        (target_host identity postfix)
        (desired_endpoint controller postfix identity svc ip c).spec.endpoints
      ≡ false
unfolding desired_endpoint
desired-needs_update controller postfix identity svc ip c =
    ground (arith, beq_refl ip, beq_refl (target_host identity postfix))

desired-addresses :
    (controller postfix : String) (identity : Identity) (svc : Service) (ip : String)
    (c : ExternalDnsController)
    → AllAddresses (desired_endpoint controller postfix identity svc ip c).spec.endpoints
unfolding desired_endpoint
desired-addresses controller postfix identity svc ip c = (refl, tt)

module _ {S : Type 0} (env : Env S) (at : S → NamespacedName → Option StoredEndpoint)
    (store : IsStore endpoint_kind env.client.dns_endpoints at) where
  join-Written :
      (host ip : String) (a b : Bool) (s s₁ s' : S) (k : NamespacedName)
      → Written env at store ip host a s s₁ k
      → Written env at store ip host b s₁ s' k
      → Written env at store ip host (a || b) s s' k
  join-Written host ip true true s s₁ s' k h l = l
  join-Written host ip true false s s₁ s' k h l = subst (Resolves ip host) (sym l) h
  join-Written host ip false true s s₁ s' k h l = l
  join-Written host ip false false s s₁ s' k h l = l ∙ h

  Written-KeepsAddresses :
      (host ip : String) (b : Bool) (s s' : S) (k : NamespacedName)
      → KeepsAddresses (at s k)
      → Written env at store ip host b s s' k
      → KeepsAddresses (at s' k)
  Written-KeepsAddresses host ip true s s' k typed h = Resolves-KeepsAddresses ip host (at s' k) h
  Written-KeepsAddresses host ip false s s' k typed h = subst KeepsAddresses (sym h) typed

  module _ (controller postfix : String) (identity : Identity) (svc : Service) (ip : String) where
    -- The key is that of an endpoint for one of the controllers.
    abbrev pub is_for : NamespacedName → ExternalDnsController → Bool
    is_for k c = key_of (desired_endpoint controller postfix identity svc ip c).meta == k

    apply_controllers-Written :
        (cs : List ExternalDnsController) (w w' : World S) (k : NamespacedName)
        → KeepsAddresses (at w.server k)
        → apply_controllers env controller postfix identity svc ip cs w ≡ (ok tt, w')
        → Written env at store ip
            (target_host identity postfix)
            (any (is_for k) cs)
            w.server
            w'.server
            k
    unfolding apply_controllers
    apply_controllers-Written [] w w' k typed h = ap (λ p. at p.1.server k) (sym h)
    apply_controllers-Written (c ∷ cs) w w' k typed h =
        let desired = desired_endpoint controller postfix identity svc ip c in
        let (_, w₁, first, rest) =
          chain-eq-ok (apply_endpoint env ip (target_host identity postfix) desired w) _ h in
        let wrote =
          apply_endpoint-Written env at store ip (target_host identity postfix) desired w w₁ k
            (desired-needs_update controller postfix identity svc ip c)
            (desired-addresses controller postfix identity svc ip c) typed first in
        join-Written (target_host identity postfix) ip (key_of desired.meta == k)
          (any (is_for k) cs) w.server w₁.server w'.server k wrote
          (apply_controllers-Written cs w₁ w' k
            (Written-KeepsAddresses (target_host identity postfix) ip (key_of desired.meta == k)
              w.server w₁.server k typed wrote)
            rest)

  -- Where only this process writes and reads see all earlier writes, a service of the controller
  -- has an address, and what stands at the key, if anything, has only A records: when the records
  -- of a configuration are written with success, then at the key of each configured ExternalDNS
  -- controller the server has an endpoint of A records, the first of which gives the gateway's host
  -- that address; and at any other key is what was there after the services were listed.
  pub reconcile_dns_endpoints_for_config-Written :
      (controller postfix : String) (identity : Identity) (config : DnsConfig) (w w' : World S)
      (services : List Service) (s : S) (svc : Service) (ip : String) (ips : List String)
      (k : NamespacedName)
      → env.client.services.list
          (record everything { matching_labels = ("istio", controller) ∷ [] })
          w.server
        ≡ (ok services, s)
      → first_load_balancer services ≡ some svc
      → svc.ingress_ips ≡ ip ∷ ips
      → ip ≢ ""
      → KeepsAddresses (at s k)
      → reconcile_dns_endpoints_for_config env controller postfix identity config w ≡ (ok tt, w')
      → Written env at store ip
          (target_host identity postfix)
          (any (is_for controller postfix identity svc ip k) config.external_dns_controllers)
          s
          w'.server
          k
  unfolding reconcile_dns_endpoints_for_config get_load_balancer_service
  reconcile_dns_endpoints_for_config-Written controller postfix identity config w w' services s svc
        ip ips k listed first address given typed h =
      let named : (ip == "") ≡ false = ground (arith, string_eq.test_iff ip "") in
      apply_controllers-Written controller postfix identity svc ip config.external_dns_controllers
        (record w { server = s }) w' k typed (rw (listed, first, address, named) at h)
