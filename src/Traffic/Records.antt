-- ===== src/Traffic/Records.antt =====
-- From a route's CNAME record to the load balancer's A record and the gateway's hosts
-- (internal/controller/routing/serviceroute_controller.go, gateway_controller.go and
-- ingressdns_controller.go).
use service_router_operator.Base.{
  String, List, [], ◌∷◌, ◌++◌, true, some, ◌≡◌, ◌≢◌, refl, ◌∙◌, arith, any-append, All, contains,
  string_eq, beq_refl,
}
use service_router_operator.Api.{
  ExternalDnsController, ServiceRoute, DnsPolicy, Gateway, Service, DnsEndpoint, Endpoint,
}
use service_router_operator.Client.{Env, World, Identity, DnsConfig, ok, everything, IsMapOrder}
use service_router_operator.Gateway.{uses_gateway, collect_hosts}
use service_router_operator.Gateway.Hosts.{gives_host, collect_hosts_lem}
use service_router_operator.ServiceRoute.Endpoints.{source_host, generate_dns_endpoints}
use service_router_operator.ServiceRoute.Endpoints.Generation.{
  Generated, generate_dns_endpoints_lem,
}
use service_router_operator.IngressDns.{desired_endpoint}

-- The endpoint's one record is a CNAME of a host that is served, and its one target is the name of the
-- one record of the second endpoint, an A record of the address.
abbrev pub LeadsTo : List String → String → DnsEndpoint → DnsEndpoint → Type 0
LeadsTo hosts ip target e =
    (cname : Endpoint) × (a : Endpoint) × (e.spec.endpoints ≡ cname ∷ [])
    × (target.spec.endpoints ≡ a ∷ [])
    × (cname.record_type ≡ "CNAME")
    × (cname.targets ≡ a.dns_name ∷ [])
    × (contains cname.dns_name hosts ≡ true)
    × (a.record_type ≡ "A")
    × (a.targets ≡ ip ∷ [])

module _ (route : ServiceRoute) (gateway : Gateway) (identity : Identity) (config : DnsConfig)
    (svc : Service) (ip : String) (ext_dns : ExternalDnsController) (hosts : List String) where
  abbrev load_balancer : DnsEndpoint
  load_balancer =
      desired_endpoint gateway.spec.controller gateway.spec.target_postfix identity svc ip ext_dns

  Generated-LeadsTo :
      (active : List String) (e : DnsEndpoint)
      → contains (source_host identity route) hosts ≡ true
      → Generated route gateway identity config active e
      → LeadsTo hosts ip load_balancer e
  unfolding desired_endpoint
  Generated-LeadsTo active e h (c, _, _, (_, _, _, _, _, _, records)) =
      (_, _, records, refl, refl, refl, h, refl, refl)

  All-LeadsTo :
      (active : List String) (es : List DnsEndpoint)
      → contains (source_host identity route) hosts ≡ true
      → All (Generated route gateway identity config active) es
      → All (LeadsTo hosts ip load_balancer) es
  All-LeadsTo active [] h a = tt
  All-LeadsTo active (e ∷ es) h (g, a) = (Generated-LeadsTo active e h g, All-LeadsTo active es h a)

module _ {S : Type 0} (env : Env S) where
  -- For a route that the server lists and that uses a gateway, with an active policy and whatever the
  -- order in which maps are visited: every endpoint generated for the route is one CNAME record of a
  -- host that the gateway collects, whose target is the name of the A record that is made for the
  -- gateway's load balancer with its address.
  pub generate_dns_endpoints-LeadsTo :
      (gateway : Gateway) (identity : Identity) (config : DnsConfig) (policy : DnsPolicy)
      (route : ServiceRoute) (before after : List ServiceRoute) (svc : Service) (ip : String)
      (ext_dns : ExternalDnsController) (w : World S) (s : S)
      → IsMapOrder env.range
      → env.client.service_routes.list everything w.server ≡ (ok (before ++ route ∷ after), s)
      → uses_gateway env.default_router_gateway_namespace gateway route ≡ true
      → policy.status.active_controllers ≢ []
      → (hosts : List String) × (es : List DnsEndpoint) × (collect_hosts env gateway
            (some identity)
            w
          ≡ (ok hosts, record w { server = s }))
        × (generate_dns_endpoints env.new_controller_ref route policy gateway identity config
            ≡ ok es)
        × All
            (LeadsTo hosts ip (
              desired_endpoint gateway.spec.controller gateway.spec.target_postfix identity svc ip
                ext_dns))
            es
  generate_dns_endpoints-LeadsTo gateway identity config policy route before after svc ip ext_dns w
        s order listed uses active =
      let (hosts, collected, _, has) =
        collect_hosts_lem env gateway identity w s (before ++ route ∷ after) order listed in
      let (es, generated, all, _) =
        generate_dns_endpoints_lem env.new_controller_ref route gateway identity config policy
          active in
      let host = source_host identity route in
      let served : contains host hosts ≡ true =
        has host
        ∙ ground (
          arith,
          any-append (gives_host env.default_router_gateway_namespace gateway identity host) before
              (route ∷ after),
          beq_refl host,
        ) in
      (
        hosts,
        es,
        collected,
        generated,
        All-LeadsTo route gateway identity config svc ip ext_dns hosts
            policy.status.active_controllers es served all,
      )
