-- ===== src/Gateway/Hosts.antt =====
-- The hosts that a Gateway collects from the routes (internal/controller/routing/gateway_controller.go).
use service_router_operator.Base.{
  String, List, [], ◌∷◌, some, Bool, true, ◌&&◌, ◌||◌, ◌==◌, ◌≡◌, refl, ◌∙◌, arith, any, any-perm,
  contains, contains-add, add, distinct, distinct-add, distinct-perm, string_eq,
}
use service_router_operator.Api.{ServiceRoute}
use service_router_operator.Api
use service_router_operator.Client.{Env, World, Identity, ok, everything, IsMapOrder}
use service_router_operator.Gateway.{source_host, uses_gateway, collect_loop, collect_hosts}

-- The route uses the gateway, and its host is the one given.
abbrev pub gives_host : String → Api.Gateway → Identity → String → ServiceRoute → Bool
gives_host default gateway identity host route =
    uses_gateway default gateway route && source_host identity route == host

collect_loop-contains :
    (default : String) (gateway : Api.Gateway) (identity : Identity) (host : String)
    (routes : List ServiceRoute) (hosts : List String)
    → contains host (collect_loop default gateway (some identity) routes hosts)
      ≡ (contains host hosts || any (gives_host default gateway identity host) routes)
unfolding collect_loop
collect_loop-contains default gateway identity host [] hosts = ground arith
collect_loop-contains default gateway identity host (r ∷ rs) hosts = ground (
  arith,
  collect_loop-contains default gateway identity host rs hosts,
  collect_loop-contains default gateway identity host rs (add (source_host identity r) hosts),
  contains-add (source_host identity r) host hosts,
)

collect_loop-distinct :
    (default : String) (gateway : Api.Gateway) (identity : Identity) (routes : List ServiceRoute)
    (hosts : List String)
    → distinct hosts ≡ true
    → distinct (collect_loop default gateway (some identity) routes hosts) ≡ true
unfolding collect_loop
collect_loop-distinct default gateway identity [] hosts d = d
collect_loop-distinct default gateway identity (r ∷ rs) hosts d = ground (
  arith,
  collect_loop-distinct default gateway identity rs hosts d,
  collect_loop-distinct default gateway identity rs (add (source_host identity r) hosts),
  distinct-add (source_host identity r) hosts d,
)

module _ {S : Type 0} (env : Env S) where
  -- Whatever the order in which the map of hosts is visited: if the routes can be listed, the
  -- collected hosts are exactly those of the listed routes that use the gateway, each of them once.
  pub collect_hosts_lem :
      (gateway : Api.Gateway) (identity : Identity) (w : World S) (s : S)
      (routes : List ServiceRoute)
      → IsMapOrder env.range
      → env.client.service_routes.list everything w.server ≡ (ok routes, s)
      → (hosts : List String) × (collect_hosts env gateway (some identity) w
          ≡ (ok hosts, record w { server = s }))
        × (distinct hosts ≡ true)
        × ((host : String)
            → contains host hosts
              ≡ any (gives_host env.default_router_gateway_namespace gateway identity host) routes)
  unfolding collect_hosts
  collect_hosts_lem gateway identity w s routes order listed =
      let default = env.default_router_gateway_namespace in
      let found = collect_loop default gateway (some identity) routes [] in
      (
        env.range.hosts found,
        rw (listed, collect_hosts) refl,
        distinct-perm (env.range.hosts found) found (order.hosts found)
            ∙ collect_loop-distinct default gateway identity routes [] refl,
        λ host.
            any-perm (λ h. h == host) (env.range.hosts found) found (order.hosts found)
            ∙ collect_loop-contains default gateway identity host routes [],
      )
